-- ===== src/Pkerr/Generator/Settings.antt =====
-- Writes through an Error's pointer: the last frame, and the settings.
use g_rpeakec_go.Prelude.{
  ℕ, ◌≡◌, ◌≢◌, refl, some, List, [], ◌∷◌, ◌++◌, ◌==◌, if◌then◌else◌, arith, update,
}
use g_rpeakec_go.Errors.{Proto, TraceInfo, Heap}
use g_rpeakec_go.Pkerr.Panic.{Outcome, returned}
use g_rpeakec_go.Pkerr.Generator.{
  ErrorGenerator, clear_source, set_last, write_last_trace, set_frame, apply_settings,
}

pub set_last-append :
    (f : TraceInfo → TraceInfo) (pre : List TraceInfo) (t : TraceInfo)
    → set_last f (pre ++ t ∷ []) ≡ some (pre ++ f t ∷ [])
unfolding set_last
set_last-append f [] t = refl
set_last-append f (u ∷ []) t = refl
set_last-append f (u ∷ v ∷ pre) t = rw (set_last-append f (v ∷ pre) t)

-- A list that is not empty has a last frame.
pub snoc_of_ne_nil :
    (ts : List TraceInfo)
    → ts ≢ []
    → (pre : List TraceInfo) × (t : TraceInfo) × (ts ≡ pre ++ t ∷ [])
snoc_of_ne_nil [] h = absurd (h refl)
snoc_of_ne_nil (t ∷ []) h = ([], t, refl)
snoc_of_ne_nil (t ∷ u ∷ ts) h =
    let (pre, last, e) = snoc_of_ne_nil (u ∷ ts) (λ q. cc) in (t ∷ pre, last, cc)

set_last_of :
    (f : TraceInfo → TraceInfo) (ts pre : List TraceInfo) (t : TraceInfo)
    → ts ≡ pre ++ t ∷ []
    → set_last f ts ≡ some (pre ++ f t ∷ [])
set_last_of f ts pre t e = rw e (set_last-append f pre t)

-- What is left of a heap when a write reaches only the Error at `p`.
pub record IsWrite (p : ℕ) (v : Proto) (h : Heap) (r : Heap × Outcome (Unit {0})) : Type 0 where
  pub returns : r.1 ≡ returned tt
  pub writes : (b : ℕ) → r.0.proto_at b ≡ (if b == p then v else h.proto_at b)
  pub keeps_sentinels : r.0.sentinel_at ≡ h.sentinel_at
  pub keeps_next : r.0.next ≡ h.next

-- What an Error with this last frame becomes.
abbrev pub settled : ErrorGenerator → Proto → List TraceInfo → TraceInfo → Proto
settled gen v pre t = record v {
  source_error = if gen.send_source then v.source_error else [];
  source_type = if gen.send_source then v.source_type else [];
  trace = pre ++ set_frame gen t ∷ [];
}

module _ (p : ℕ) (h : Heap) (pre : List TraceInfo) (t : TraceInfo)
    (traced : (h.proto_at p).trace ≡ pre ++ t ∷ []) where
  pub write_last_trace_lem :
      (f : TraceInfo → TraceInfo)
      → IsWrite p (record (h.proto_at p) { trace = pre ++ f t ∷ [] }) h (write_last_trace p f h)
  unfolding write_last_trace
  write_last_trace_lem f =
      rw (set_last_of f (h.proto_at p).trace pre t traced)
        (record { returns = refl; writes = λ b. refl; keeps_sentinels = refl; keeps_next = refl })

module _ (gen : ErrorGenerator) (p : ℕ) (h : Heap) (pre : List TraceInfo) (t : TraceInfo)
    (traced : (h.proto_at p).trace ≡ pre ++ t ∷ []) where
  abbrev cleared : Heap
  cleared = record h { proto_at = update h.proto_at p (clear_source gen (h.proto_at p)) }

  cleared-trace : (cleared.proto_at p).trace ≡ pre ++ t ∷ []
  cleared-trace = ground arith

  pub apply_settings_lem : IsWrite p (settled gen (h.proto_at p) pre t) h (apply_settings gen p h)
  unfolding apply_settings
  apply_settings_lem =
      let last = write_last_trace_lem p cleared pre t cleared-trace (set_frame gen) in
      record {
        returns = last.returns;
        writes = λ b. ground (arith, last.writes b);
        keeps_sentinels = last.keeps_sentinels;
        keeps_next = last.keeps_next;
      }
