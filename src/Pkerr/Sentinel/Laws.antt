-- ===== src/Pkerr/Sentinel/Laws.antt =====
-- Codes under an offset, and what reissuing does to the sentinels that an issuer has created.
use mathlib.Core.Path.{fun_ext}
use g_rpeakec_go.Prelude.{
  ℕ, suc, ◌^◌, ◌<◌, ◌≡◌, refl, ap, sym, ◌∙◌, ◌⊎◌, inl, inr, true, false, Option, none, some, List,
  [], ◌∷◌, ◌++◌, ◌==◌, update, if◌then◌else◌, any, All, All-append, Bool-cases, Option-cases,
  append_assoc, ◌↔◌, arith,
}
use g_rpeakec_go.Prelude.Int.{ℤ, pos, negsuc}
use g_rpeakec_go.Prelude.Decimal.{atoi, atoi-itoa, IsInt64}
use g_rpeakec_go.Prelude.Text.{Text}
use g_rpeakec_go.Errors.{Sentinel, Heap}
use g_rpeakec_go.Pkerr.Panic.{Recovered, returned, panicked}
use g_rpeakec_go.Pkerr.Sentinel.{
  SentinelIssuer, code_with_offset, new_sentinel, reissue, reissue_all, apply_new_issuer,
  apply_env_settings, issuer_key, offset_key,
}

-- Two sentinels with different original codes keep different codes under every offset, of either
-- sign and with wrap-around.
pub code_with_offset-injective :
    (a b : ℕ) (offset : ℤ)
    → a < 2 ^ 32
    → b < 2 ^ 32
    → code_with_offset a offset ≡ code_with_offset b offset
    → a ≡ b
unfolding code_with_offset
code_with_offset-injective a b (pos n) ha hb e = ground arith
code_with_offset-injective a b (negsuc n) ha hb e = ground arith

-- Reissuing reaches exactly the listed addresses, once each in effect.
reissue_all-get :
    (issuer : Text) (offset : ℤ) (created : List ℕ) (at : ℕ → Sentinel) (b : ℕ)
    → reissue_all issuer offset created at b
      ≡ (if any (λ a. b == a) created then reissue issuer offset (at b) else at b)
unfolding reissue_all
reissue_all-get issuer offset [] at b = refl
reissue_all-get issuer offset (a ∷ more) at b =
    ground
      (arith, reissue_all-get issuer offset more (update at a (reissue issuer offset (at a))) b)

reissue_all_twice :
    (issuer issuer' : Text) (offset offset' : ℤ) (created : List ℕ) (at : ℕ → Sentinel) (b : ℕ)
    → reissue_all issuer' offset' created (reissue_all issuer offset created at) b
      ≡ reissue_all issuer' offset' created at b
reissue_all_twice issuer issuer' offset offset' created at b =
    elim (Bool-cases (any (λ a. b == a) created)) [
      | inl e ↦ rw (reissue_all-get, reissue_all-get, reissue_all-get, e)
      | inr e ↦ rw (reissue_all-get, reissue_all-get, reissue_all-get, e)
    ]

-- Applying a second issuer and offset gives the state that applying it alone gives: an offset is
-- never applied twice.
pub apply_new_issuer_twice :
    (s : SentinelIssuer) (h : Heap) (issuer issuer' : Text) (offset offset' : ℤ)
    → (let (s', h') = apply_new_issuer s h issuer offset in apply_new_issuer s' h' issuer' offset')
      ≡ apply_new_issuer s h issuer' offset'
unfolding apply_new_issuer
apply_new_issuer_twice s h issuer issuer' offset offset' = λ i. (
  record s { sentinel_issuer = issuer'; sentinel_offset = offset' },
  record h {
    sentinel_at =
        fun_ext (reissue_all_twice issuer issuer' offset offset' s.created_sentinels h.sentinel_at)
          i;
  },
)

-- A sentinel that carries the issuer and the offset code of `s`.
abbrev pub IsIssued : SentinelIssuer → Heap → ℕ → Type 0
IsIssued s h a =
    (a < h.next)
    × ((h.sentinel_at a).issuer ≡ s.sentinel_issuer)
    × ((h.sentinel_at a).code ≡ code_with_offset (h.sentinel_at a).code_original s.sentinel_offset)

abbrev pub IsCoherent : SentinelIssuer → Heap → Type 0
IsCoherent s h = All (IsIssued s h) s.created_sentinels

-- A write at a fresh address leaves what was issued as it was.
IsIssued-update :
    (s : SentinelIssuer) (h : Heap) (v : Sentinel) (created list : List ℕ)
    → All (IsIssued s h) list
    → All
        (IsIssued
          (record s { created_sentinels = created })
          (record h { sentinel_at = update h.sentinel_at h.next v; next = suc h.next }))
        list
IsIssued-update s h v created [] ok = tt
IsIssued-update s h v created (a ∷ more) (ok, oks) =
    (ground arith, IsIssued-update s h v created more oks)

-- NewSentinel keeps every created sentinel at the issuer's present issuer and offset, the new one
-- included.
pub new_sentinel-IsCoherent :
    (s : SentinelIssuer) (h : Heap) (name : Text) (code grpc_code : ℕ) (message : Text)
    → IsCoherent s h
    → IsCoherent
        (new_sentinel s h name code grpc_code message).0
        (new_sentinel s h name code grpc_code message).1
unfolding new_sentinel
new_sentinel-IsCoherent s h name code grpc_code message ok =
    All-append _ s.created_sentinels (h.next ∷ [])
      (IsIssued-update s h _ (s.created_sentinels ++ h.next ∷ []) s.created_sentinels ok)
      ((omega arith, ground arith, ground arith), tt)

any-mid : (pre rest : List ℕ) (b : ℕ) → any (λ a. b == a) (pre ++ b ∷ rest) ≡ true
any-mid [] rest b = ground arith
any-mid (a ∷ pre) rest b = ground (arith, any-mid pre rest b)

module _ (s : SentinelIssuer) (h : Heap) (issuer : Text) (offset : ℤ) where
  IsIssued-reissue :
      (pre rest : List ℕ)
      → s.created_sentinels ≡ pre ++ rest
      → All (IsIssued s h) rest
      → All
          (IsIssued (apply_new_issuer s h issuer offset).0 (apply_new_issuer s h issuer offset).1)
          rest
  unfolding apply_new_issuer
  IsIssued-reissue pre [] e ok = tt
  IsIssued-reissue pre (a ∷ rest) e (ok, oks) =
      let got : reissue_all issuer offset s.created_sentinels h.sentinel_at a
          ≡ reissue issuer offset (h.sentinel_at a) =
        reissue_all-get issuer offset s.created_sentinels h.sentinel_at a
        ∙ rw e (rw (any-mid pre rest a)) in
      (
        (ok.0, ap (λ (v : Sentinel). v.issuer) got, rw got),
        IsIssued-reissue (pre ++ a ∷ []) rest (e ∙ sym (append_assoc pre (a ∷ []) rest)) oks,
      )

  -- ApplyNewIssuer keeps the issuer and the offset for the sentinels to come, gives every created
  -- sentinel the new issuer and, as its code, its original code under the new offset, and leaves
  -- all else of it as it was, the original code included. No other sentinel changes.
  pub apply_new_issuer_lem :
      (a : ℕ)
      → let (s', h') = apply_new_issuer s h issuer offset in
        let old = h.sentinel_at a in
        let new = h'.sentinel_at a in
        (s'.sentinel_issuer ≡ issuer)
        × (s'.sentinel_offset ≡ offset)
        × (s'.created_sentinels ≡ s.created_sentinels)
        × (((any (λ b. a == b) s.created_sentinels ≡ true)
              × (new.issuer ≡ issuer)
              × (new.code ≡ code_with_offset old.code_original offset)
              × (new.code_original ≡ old.code_original)
              × (new.name ≡ old.name)
              × (new.grpc_code ≡ old.grpc_code)
              × (new.default_message ≡ old.default_message))
            ⊎ ((any (λ b. a == b) s.created_sentinels ≡ false) × (new ≡ old)))
  unfolding apply_new_issuer
  apply_new_issuer_lem a =
      let got = reissue_all-get issuer offset s.created_sentinels h.sentinel_at a in
      elim (Bool-cases (any (λ b. a == b) s.created_sentinels)) [
        | inl e ↦
            let here : reissue_all issuer offset s.created_sentinels h.sentinel_at a
                ≡ reissue issuer offset (h.sentinel_at a) =
              got ∙ rw e refl in
            (refl, refl, refl, inl (rw here (e, refl, refl, refl, refl, refl, refl)))
        | inr e ↦ (refl, refl, refl, inr (e, got ∙ rw e refl))
      ]

  -- So the created sentinels are coherent with the issuer again.
  pub apply_new_issuer-IsCoherent :
      IsCoherent s h
      → IsCoherent (apply_new_issuer s h issuer offset).0 (apply_new_issuer s h issuer offset).1
  unfolding apply_new_issuer
  apply_new_issuer-IsCoherent ok = IsIssued-reissue [] s.created_sentinels refl ok

module _ (env : Text → Option Text) (num_error : Text → Text) (s : SentinelIssuer) (h : Heap) where
  -- With neither variable set and an int64 offset, applyEnvSettings does not panic: it applies the
  -- issuer and the offset that the issuer was made with.
  pub apply_env_settings_unset :
      IsInt64 s.sentinel_offset
      → env (issuer_key s) ≡ none
      → env (offset_key s) ≡ none
      → apply_env_settings env num_error s h
        ≡ returned (apply_new_issuer s h s.sentinel_issuer s.sentinel_offset)
  unfolding apply_env_settings
  apply_env_settings_unset range no_issuer no_offset =
      rw (no_issuer, no_offset) (rw (atoi-itoa s.sentinel_offset range))

  -- With an int64 offset, applyEnvSettings panics exactly when the offset variable is set to a text that Atoi refuses.
  pub apply_env_settings_panics_iff :
      IsInt64 s.sentinel_offset
      → ((r : Recovered) × (apply_env_settings env num_error s h ≡ panicked r))
        ↔ ((t : Text) × (env (offset_key s) ≡ some t) × (atoi t ≡ none))
  unfolding apply_env_settings
  apply_env_settings_panics_iff range = (to, from)
    where
      to :
          (r : Recovered) × (apply_env_settings env num_error s h ≡ panicked r)
          → (t : Text) × (env (offset_key s) ≡ some t) × (atoi t ≡ none)
      to (r, e) = elim (Option-cases (env (offset_key s))) [
        | inl unset ↦ cc (sym (rw (unset, atoi-itoa s.sentinel_offset range) at e))
        | inr (t, found) ↦ elim (Option-cases (atoi t)) [
          | inl bad ↦ (t, found, bad)
          | inr (o, good) ↦ cc (rw (found, good) at e)
        ]
      ]

      from :
          (t : Text) × (env (offset_key s) ≡ some t) × (atoi t ≡ none)
          → (r : Recovered) × (apply_env_settings env num_error s h ≡ panicked r)
      from (t, found, bad) = rw (found, bad) (_, refl)
