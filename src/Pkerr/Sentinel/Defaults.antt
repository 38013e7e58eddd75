-- ===== src/Pkerr/Sentinel/Defaults.antt =====
-- pkerr/sentinelErrDefaults.go: the package's own sentinels.
use g_rpeakec_go.Prelude.{ℕ, zero, suc, ◌+◌, ◌<◌, ◌≡◌, sym, ◌∙◌, true, [], Option, arith}
use g_rpeakec_go.Prelude.Int.{ℤ}
use g_rpeakec_go.Prelude.Text.{Text, codes}
use g_rpeakec_go.Errors.{Heap, Sentinel}
use g_rpeakec_go.Pkerr.Panic.{Outcome, ◌>>=◌, returned}
use g_rpeakec_go.Pkerr.Sentinel.{
  SentinelIssuer, code_with_offset, new_sentinel, reissue_all, apply_new_issuer,
  new_sentinel_issuer,
}
use g_rpeakec_go.Pkerr.Sentinel.Laws.{code_with_offset-injective}

-- The addresses of ErrUnknown, ErrNotFound, ErrAlreadyExists and ErrValidation.
pub record Defaults : Type 0 where
  pub err_unknown : ℕ
  pub err_not_found : ℕ
  pub err_already_exists : ℕ
  pub err_validation : ℕ

-- The four variables' initial values, in their order.
unfoldable pub declare_defaults : SentinelIssuer → Heap → SentinelIssuer × Heap × Defaults
unfolding new_sentinel
declare_defaults s h =
    let (s1, h1, unknown) =
      new_sentinel s h (codes "Unknown") 1000 2 (codes "an unknown error occurred") in
    let (s2, h2, not_found) =
      new_sentinel s1 h1 (codes "ResourceExists") 1001 5 (codes "requested resource not found") in
    let (s3, h3, already_exists) =
      new_sentinel s2 h2 (codes "AlreadyExists") 1002 6 (codes "resource already exists") in
    let (s4, h4, validation) =
      new_sentinel s3 h3 (codes "Validation") 1003 3 (codes "client argument failed validation") in
    (
      s4,
      h4,
      record {
        err_unknown = unknown;
        err_not_found = not_found;
        err_already_exists = already_exists;
        err_validation = validation;
      },
    )

unfoldable pub init_defaults :
    (Text → Option Text) → (Text → Text) → Heap → Outcome (SentinelIssuer × Heap × Defaults)
unfolding declare_defaults
init_defaults env num_error h =
    new_sentinel_issuer env num_error h (codes "GRPEAKEC") true
    >>= (λ made. returned (declare_defaults made.0 made.1))

unfoldable pub reissue_default_sentinels : SentinelIssuer → Heap → Text → ℤ → SentinelIssuer × Heap
reissue_default_sentinels s h issuer offset = apply_new_issuer s h issuer offset

module _ (s : SentinelIssuer) (h : Heap) (issuer : Text) (offset : ℤ)
    (none_yet : s.created_sentinels ≡ []) where
  -- The sentinel at the k-th of the four addresses, after they have been reissued.
  abbrev pub reissued : ℕ → Sentinel
  reissued k =
      let (s', h', _) = declare_defaults s h in
      (reissue_default_sentinels s' h' issuer offset).1.sentinel_at (h.next + k)

  reissued-code : (k : ℕ) → k < 4 → (reissued k).code ≡ code_with_offset (1000 + k) offset
  unfolding declare_defaults reissue_default_sentinels apply_new_issuer reissue_all
  reissued-code zero b = rw none_yet (ground arith)
  reissued-code (suc zero) b = rw none_yet (ground arith)
  reissued-code (suc (suc zero)) b = rw none_yet (ground arith)
  reissued-code (suc (suc (suc zero))) b = rw none_yet (ground arith)
  reissued-code (suc (suc (suc (suc k)))) b = absurd (omega (arith, b))

  reissued-issuer : (k : ℕ) → k < 4 → (reissued k).issuer ≡ issuer
  unfolding declare_defaults reissue_default_sentinels apply_new_issuer reissue_all
  reissued-issuer zero b = rw none_yet (ground arith)
  reissued-issuer (suc zero) b = rw none_yet (ground arith)
  reissued-issuer (suc (suc zero)) b = rw none_yet (ground arith)
  reissued-issuer (suc (suc (suc zero))) b = rw none_yet (ground arith)
  reissued-issuer (suc (suc (suc (suc k)))) b = absurd (omega (arith, b))

  -- Four default sentinels, declared by an issuer that has created none before, and reissued with
  -- any issuer and any offset, all have that issuer, and two of them with the same code are the
  -- same one.
  pub default_sentinels_distinct :
      (j k : ℕ)
      → j < 4
      → k < 4
      → (reissued j).code ≡ (reissued k).code
      → (j ≡ k) × ((reissued j).issuer ≡ issuer) × ((reissued k).issuer ≡ issuer)
  default_sentinels_distinct j k bj bk same =
      let apart : 1000 + j ≡ 1000 + k =
        code_with_offset-injective (1000 + j) (1000 + k) offset (omega (arith, bj))
          (omega (arith, bk)) (sym (reissued-code j bj) ∙ same ∙ reissued-code k bk) in
      (omega (arith, apart), reissued-issuer j bj, reissued-issuer k bk)
