-- ===== src/Pksync/ConcurrentMap/Laws.antt =====
-- What the receiver of a ConcurrentMap has got when the channel is closed.
use g_rpeakec_go.Prelude.{ℕ, ◌<◌, ◌≤◌, ◌≡◌, ap, sym, ◌∙◌, ◌⊎◌, inl, inr, Option, some, [], ◌∷◌}
use g_rpeakec_go.Errors.{Err}
use g_rpeakec_go.Pkerr.Panic.{Outcome, catch_panic}
use g_rpeakec_go.Pksync.ConcurrentMap.{closed, MapState, start_map, Reach, value_errs, context_errs}
use g_rpeakec_go.Pksync.ConcurrentMap.Sound.{
  owed_of, owed_errs, CtxSent, IsSound, start_map-IsSound, Reach-IsSound, lt_or_le,
}

module _ {ends : ℕ → Outcome (Option Err)} {len : ℕ} {s t : MapState} (ctx_err : Option Err)
    (fresh : s ≡ start_map ctx_err) (run : Reach ends len s t)
    (is_closed : t.launcher ≡ closed) where
  sound : IsSound ends len t
  sound = Reach-IsSound (rw fresh (start_map-IsSound ends len ctx_err)) run

  -- Whatever the schedule: when the channel is closed, the receiver has got for each value that
  -- was launched exactly one report, with the error that CatchPanic makes of the end of mapFunc
  -- there, if mapFunc failed or panicked, and none if it returned nil; for a value that was not
  -- launched it has got none.
  pub closed_reports :
      (j : ℕ)
      → ((j < t.i) × (value_errs j t.received ≡ owed_of (catch_panic (ends j))))
        ⊎ ((t.i ≤ j) × (value_errs j t.received ≡ []))
  closed_reports j =
      let (_, all) : CtxSent len t closed = rw is_closed at sound.sent in
      elim (lt_or_le j t.i) [
        | inl b ↦
            let (r, e) = all j b in
            let same : catch_panic (ends j) ≡ r = rw e at (sound.agrees j) in
            inl (b, sound.errs j ∙ ap owed_errs e ∙ ap owed_of (sym same))
        | inr above ↦ inr (above, sound.errs j ∙ ap owed_errs (sound.fresh j above))
      ]

  -- Whatever the schedule: when the channel is closed, either every value was launched and the
  -- receiver has got no error of the context, or not every value was, the context has
  -- ended, and the receiver has got its error exactly once and no other.
  pub closed_complete :
      ((e : Err) × (t.i < len) × (t.ctx_err ≡ some e) × (context_errs t.received ≡ e ∷ []))
      ⊎ ((t.i ≡ len) × (context_errs t.received ≡ []))
  closed_complete = let (sent, _) : CtxSent len t closed = rw is_closed at sound.sent in sent
