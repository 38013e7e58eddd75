-- ===== src/Pkerr/Sentinel.antt =====
-- pkerr/sentinelErr.go, pkerr/sentinelIssuer.go and pkerr/sentinelErrDefaults.go.
-- A sentinel is an address in the heap; an issuer keeps the addresses that it has created.
pub mod Laws
pub mod Defaults
use g_rpeakec_go.Prelude.{
  ℕ, suc, ◌+◌, ◌-◌, ◌%◌, ◌^◌, Bool, Option, none, some, List, [], ◌∷◌, ◌++◌, update, if◌then◌else◌,
}
use g_rpeakec_go.Prelude.Int.{ℤ, pos, negsuc, ◌+ℤ◌}
use g_rpeakec_go.Prelude.Decimal.{itoa, atoi}
use g_rpeakec_go.Prelude.Text.{Text, codes}
use g_rpeakec_go.Errors.{Sentinel, Heap, text_err, wrapped}
use g_rpeakec_go.Pkerr.Panic.{Outcome, returned, panicked, an_error}

pub record SentinelIssuer : Type 0 where
  pub sentinel_issuer : Text
  pub sentinel_offset : ℤ
  pub created_sentinels : List ℕ

-- The conversion uint32(x) of an int64. A sum that leaves int64 wraps by a multiple of 2 ^ 32,
-- so the sum of integers gives the same uint32.
abbrev pub to_uint32 : ℤ → ℕ
to_uint32 (pos n) = n % 2 ^ 32
to_uint32 (negsuc n) = 2 ^ 32 - 1 - n % 2 ^ 32

unfoldable pub code_with_offset : ℕ → ℤ → ℕ
unfolding ◌+ℤ◌
code_with_offset code offset = to_uint32 (pos code +ℤ offset)

-- The new issuer, the heap with the new sentinel, and its address.
unfoldable pub new_sentinel :
    SentinelIssuer → Heap → Text → ℕ → ℕ → Text → SentinelIssuer × Heap × ℕ
new_sentinel s h name code grpc_code default_message = (
  record s { created_sentinels = s.created_sentinels ++ h.next ∷ [] },
  record h {
    sentinel_at = update h.sentinel_at h.next (record {
      issuer = s.sentinel_issuer;
      code = code_with_offset code s.sentinel_offset;
      name = name;
      grpc_code = grpc_code;
      default_message = default_message;
      code_original = code;
    });
    next = suc h.next;
  },
  h.next,
)

-- The body of the loop of ApplyNewIssuer.
abbrev pub reissue : Text → ℤ → Sentinel → Sentinel
reissue issuer offset s = record s {
  issuer = issuer;
  code = code_with_offset s.code_original offset;
}

unfoldable pub reissue_all : Text → ℤ → List ℕ → (ℕ → Sentinel) → ℕ → Sentinel
reissue_all issuer offset [] at = at
reissue_all issuer offset (a ∷ more) at =
    reissue_all issuer offset more (update at a (reissue issuer offset (at a)))

unfoldable pub apply_new_issuer : SentinelIssuer → Heap → Text → ℤ → SentinelIssuer × Heap
apply_new_issuer s h issuer offset = (
  record s { sentinel_issuer = issuer; sentinel_offset = offset },
  record h { sentinel_at = reissue_all issuer offset s.created_sentinels h.sentinel_at },
)

abbrev get_or : Text → Option Text → Text
get_or t none = t
get_or t (some u) = u

-- The two variables that applyEnvSettings reads.
abbrev pub issuer_key : SentinelIssuer → Text
issuer_key s = s.sentinel_issuer ++ codes "_ERROR_ISSUER"

abbrev pub offset_key : SentinelIssuer → Text
offset_key s = s.sentinel_issuer ++ codes "_ERROR_CODE_OFFSET"

-- `env` is os.LookupEnv; `num_error` is the text of the error that strconv.Atoi gives for a text
-- that it refuses.
module _ (env : Text → Option Text) (num_error : Text → Text) where
  abbrev apply_offset :
      SentinelIssuer → Heap → Text → Text → Option ℤ → Outcome (SentinelIssuer × Heap)
  apply_offset s h issuer offset_str none = panicked (
      an_error (
        wrapped
          (s.sentinel_issuer
            ++ (codes " sentinel issuer could not parse value of '"
                ++ (offset_key s ++ (codes "' env var: " ++ num_error offset_str))))
          (text_err (num_error offset_str))))
  apply_offset s h issuer offset_str (some offset) = returned (apply_new_issuer s h issuer offset)

  unfoldable pub apply_env_settings : SentinelIssuer → Heap → Outcome (SentinelIssuer × Heap)
  apply_env_settings s h =
      let issuer = get_or s.sentinel_issuer (env (issuer_key s)) in
      let offset_str = get_or (itoa s.sentinel_offset) (env (offset_key s)) in
      apply_offset s h issuer offset_str (atoi offset_str)

  unfoldable pub new_sentinel_issuer : Heap → Text → Bool → Outcome (SentinelIssuer × Heap)
  unfolding apply_env_settings
  new_sentinel_issuer h issuer use_env =
      let s : SentinelIssuer = record {
        sentinel_issuer = issuer;
        sentinel_offset = pos 0;
        created_sentinels = [];
      } in
      if use_env then apply_env_settings s h else returned (s, h)
