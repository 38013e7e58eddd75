-- ===== src/Pksync/ConcurrentMap/Sound.antt =====
-- The invariant of a ConcurrentMap under every schedule.
use mathlib.Core.Path.{subst}
use g_rpeakec_go.Prelude.{
  Bool-cases, ◌==◌, ℕ, Option-cases, ◌<◌, ◌≤◌, ◌≡◌, ◌≢◌, refl, ap, ◌∙◌, ◌⊎◌, inl, inr, Option, none,
  some, List, [], ◌∷◌, ◌++◌, update, append-nil, arith,
}
use g_rpeakec_go.Errors.{Err}
use g_rpeakec_go.Pkerr.Panic.{Outcome, catch_panic}
use g_rpeakec_go.Pksync.ConcurrentMap.{
  Worker, unlaunched, finished, reporting, running, Launcher, looping, stopping, waiting, closed,
  Report, of_context, of_value, MapState, start_map, after_map_func, Step, cancel, launch,
  break_loop, receive_context, end_loop, close, return_or_panic, receive_value, Reach, here, next,
  value_errs, context_errs,
}

-- What the receiver is owed for a result of CatchPanic: its error, once.
abbrev pub owed_of : Option Err → List Err
owed_of none = []
owed_of (some e) = e ∷ []

-- What the receiver is owed of a goroutine in a given state.
abbrev pub owed_errs : Worker → List Err
owed_errs (finished r) = owed_of r
owed_errs _ = []

-- The errors of the context that the launcher has sent.
abbrev pub CtxSent : ℕ → MapState → Launcher → Type 0
CtxSent len s looping = context_errs s.received ≡ []
CtxSent len s (stopping e) = (s.i < len) × (s.ctx_err ≡ some e) × (context_errs s.received ≡ [])
CtxSent len s waiting =
    ((e : Err) × (s.i < len) × (s.ctx_err ≡ some e) × (context_errs s.received ≡ e ∷ []))
    ⊎ ((s.i ≡ len) × (context_errs s.received ≡ []))
CtxSent len s closed =
    (((e : Err) × (s.i < len) × (s.ctx_err ≡ some e) × (context_errs s.received ≡ e ∷ []))
      ⊎ ((s.i ≡ len) × (context_errs s.received ≡ [])))
    × ((j : ℕ) → j < s.i → (r : Option Err) × (s.workers j ≡ finished r))

-- What a goroutine knows of the end of its mapFunc.
abbrev pub Agrees : Outcome (Option Err) → Worker → Type 0
Agrees o unlaunched = Unit
Agrees o running = Unit
Agrees o (reporting e) = catch_panic o ≡ some e
Agrees o (finished r) = catch_panic o ≡ r

pub record IsSound (ends : ℕ → Outcome (Option Err)) (len : ℕ) (s : MapState) : Type 0 where
  pub errs : (j : ℕ) → value_errs j s.received ≡ owed_errs (s.workers j)
  pub fresh : (j : ℕ) → s.i ≤ j → s.workers j ≡ unlaunched
  pub launched : (j : ℕ) → j < s.i → s.workers j ≢ unlaunched
  pub agrees : (j : ℕ) → Agrees (ends j) (s.workers j)
  pub bound : s.i ≤ len
  pub sent : CtxSent len s s.launcher

value_errs-append :
    (j : ℕ) (rs ts : List Report) → value_errs j (rs ++ ts) ≡ value_errs j rs ++ value_errs j ts
value_errs-append j [] ts = refl
value_errs-append j (of_context e ∷ rs) ts = value_errs-append j rs ts
value_errs-append j (of_value e k ∷ rs) ts = ground (arith, value_errs-append j rs ts)

context_errs-append :
    (rs ts : List Report) → context_errs (rs ++ ts) ≡ context_errs rs ++ context_errs ts
context_errs-append [] ts = refl
context_errs-append (of_context e ∷ rs) ts = ap (λ es. e ∷ es) (context_errs-append rs ts)
context_errs-append (of_value e k ∷ rs) ts = context_errs-append rs ts

pub start_map-IsSound :
    (ends : ℕ → Outcome (Option Err)) (len : ℕ) (ctx_err : Option Err)
    → IsSound ends len (start_map ctx_err)
unfolding start_map
start_map-IsSound ends len ctx_err = record {
  errs = λ j. refl;
  fresh = λ j _. refl;
  launched = λ j b. absurd (omega (arith, b));
  agrees = λ j. tt;
  bound = omega arith;
  sent = refl;
}

pub lt_or_le : (a b : ℕ) → (a < b) ⊎ (b ≤ a)
lt_or_le a b = ground arith

-- Every launched goroutine has ended.
abbrev AllFinished : MapState → Type 0
AllFinished s = (k : ℕ) → k < s.i → (r : Option Err) × (s.workers k ≡ finished r)

-- A goroutine in another state has been launched and has not ended.
not-AllFinished :
    {ends : ℕ → Outcome (Option Err)} {len : ℕ} {s : MapState} (j : ℕ)
    → IsSound ends len s
    → s.workers j ≢ unlaunched
    → ((r : Option Err) → s.workers j ≢ finished r)
    → AllFinished s
    → ⊥
not-AllFinished {s} j v on going all = elim (lt_or_le j s.i) [
  | inl b ↦ let (r, e) = all j b in going r e
  | inr b ↦ on (v.fresh j b)
]

CtxSent-update :
    (len : ℕ) (s : MapState) (l : Launcher) (j : ℕ) (w : Worker) (rs : List Report)
    → context_errs rs ≡ context_errs s.received
    → (AllFinished s → ⊥)
    → CtxSent len s l
    → CtxSent len (record s { workers = update s.workers j w; received = rs }) l
CtxSent-update len s looping j w rs same going sent = same ∙ sent
CtxSent-update len s (stopping e) j w rs same going (b, c, sent) = (b, c, same ∙ sent)
CtxSent-update len s waiting j w rs same going (inl (e, b, c, sent)) = inl (e, b, c, same ∙ sent)
CtxSent-update len s waiting j w rs same going (inr (b, sent)) = inr (b, same ∙ sent)
CtxSent-update len s closed j w rs same going (_, all) = absurd (going all)

-- A context that has ended stays ended.
CtxSent-cancel :
    (len : ℕ) (s : MapState) (l : Launcher) (e : Err)
    → s.ctx_err ≡ none
    → CtxSent len s l
    → CtxSent len (record s { ctx_err = some e }) l
CtxSent-cancel len s looping e n sent = sent
CtxSent-cancel len s (stopping f) e n (b, c, sent) = cc (n, c)
CtxSent-cancel len s waiting e n (inl (f, b, c, sent)) = cc (n, c)
CtxSent-cancel len s waiting e n (inr all) = inr all
CtxSent-cancel len s closed e n (inl (f, b, c, sent), ended) = cc (n, c)
CtxSent-cancel len s closed e n (inr all, ended) = (inr all, ended)

Agrees-update :
    (ends : ℕ → Outcome (Option Err)) (workers : ℕ → Worker) (j : ℕ) (w : Worker)
    → ((k : ℕ) → Agrees (ends k) (workers k))
    → Agrees (ends j) w
    → (k : ℕ) → Agrees (ends k) (update workers j w k)
Agrees-update ends workers j w others own k = elim (Bool-cases (k == j)) [
  | inl e ↦ rw e (subst (λ x. Agrees (ends x) w) (ground (arith, e)) own)
  | inr e ↦ rw e (others k)
]

after_map_func-Agrees :
    (o : Outcome (Option Err)) (r : Option Err) → catch_panic o ≡ r → Agrees o (after_map_func r)
unfolding after_map_func
after_map_func-Agrees o none e = e
after_map_func-Agrees o (some err) e = e

context_errs-of_value :
    (rs : List Report) (e : Err) (j : ℕ) → context_errs (rs ++ of_value e j ∷ []) ≡ context_errs rs
context_errs-of_value rs e j = context_errs-append rs _ ∙ append-nil _

pub Step-IsSound :
    (ends : ℕ → Outcome (Option Err)) (len : ℕ) {s t : MapState}
    → Step ends len s t
    → IsSound ends len s
    → IsSound ends len t
unfolding after_map_func
Step-IsSound ends len {s} (cancel e n) v = record {
  errs = v.errs;
  fresh = v.fresh;
  launched = v.launched;
  agrees = v.agrees;
  bound = v.bound;
  sent = CtxSent-cancel len s s.launcher e n v.sent;
}
Step-IsSound ends len {s} (launch l b n) v = record {
  errs = λ j. ground (arith, v.errs j, v.fresh j);
  fresh = λ j above. ground (arith, v.fresh j);
  launched = λ j b. ground (arith, v.launched j);
  agrees = Agrees-update ends s.workers s.i running v.agrees tt;
  bound = omega (arith, b);
  sent = rw l (rw l at v.sent);
}
Step-IsSound ends len {s} (break_loop e l b c) v = record {
  errs = v.errs;
  fresh = v.fresh;
  launched = v.launched;
  agrees = v.agrees;
  bound = v.bound;
  sent = (b, c, rw l at v.sent);
}
Step-IsSound ends len {s} (receive_context e l) v =
    let (b, c, none_yet) : CtxSent len s (stopping e) = rw l at v.sent in
    record {
      errs = λ j. value_errs-append j s.received _ ∙ append-nil _ ∙ v.errs j;
      fresh = v.fresh;
      launched = v.launched;
      agrees = v.agrees;
      bound = v.bound;
      sent = inl (e, b, c, context_errs-append s.received _ ∙ rw none_yet refl);
    }
Step-IsSound ends len {s} (end_loop l b) v = record {
  errs = v.errs;
  fresh = v.fresh;
  launched = v.launched;
  agrees = v.agrees;
  bound = v.bound;
  sent = inr (omega (arith, b, v.bound), rw l at v.sent);
}
Step-IsSound ends len {s} (close l d) v = record {
  errs = v.errs;
  fresh = v.fresh;
  launched = v.launched;
  agrees = v.agrees;
  bound = v.bound;
  sent = (rw l at v.sent, d);
}
Step-IsSound ends len {s} (return_or_panic j w) v = record {
  errs = λ k. after_errs (catch_panic (ends j)) k;
  fresh = λ k above. ground (arith, v.fresh k);
  launched = λ k b. elim (Option-cases (catch_panic (ends j))) [
    | inl none_left ↦ ground (arith, v.launched k)
    | inr (e, failed) ↦ ground (arith, v.launched k)
  ];
  agrees =
      Agrees-update ends s.workers j (after_map_func (catch_panic (ends j))) v.agrees
        (after_map_func-Agrees (ends j) (catch_panic (ends j)) refl);
  bound = v.bound;
  sent =
      CtxSent-update len s s.launcher j _ s.received refl
        (not-AllFinished j v (λ e. cc) (λ r e. cc)) v.sent;
}
  where
    after_errs :
        (r : Option Err) (k : ℕ)
        → value_errs k s.received ≡ owed_errs (update s.workers j (after_map_func r) k)
    after_errs none k = ground (arith, v.errs k)
    after_errs (some e) k = ground (arith, v.errs k)
Step-IsSound ends len {s} (receive_value j e w) v = record {
  errs = λ k. value_errs-append k s.received _ ∙ ground (arith, v.errs k, append-nil {A = Err});
  fresh = λ k above. ground (arith, v.fresh k);
  launched = λ k b. ground (arith, v.launched k);
  agrees = Agrees-update ends s.workers j (finished (some e)) v.agrees (rw w at (v.agrees j));
  bound = v.bound;
  sent =
      CtxSent-update len s s.launcher j (finished (some e)) (s.received ++ of_value e j ∷ [])
        (context_errs-of_value s.received e j) (not-AllFinished j v (λ e. cc) (λ r e. cc)) v.sent;
}

pub Reach-IsSound :
    {ends : ℕ → Outcome (Option Err)} {len : ℕ} {s t : MapState}
    → IsSound ends len s
    → Reach ends len s t
    → IsSound ends len t
Reach-IsSound v here = v
Reach-IsSound {ends} {len} v (next r st) = Step-IsSound ends len st (Reach-IsSound v r)
