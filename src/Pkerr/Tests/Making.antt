-- ===== src/Pkerr/Tests/Making.antt =====
-- The theorems on panics, sentinels and the generator at concrete errors.
use g_rpeakec_go.Prelude.{
  ℕ, ◌+◌, ◌≡◌, ◌≢◌, refl, true, false, Option, none, some, [], ◌∷◌, if◌then◌else◌, ◌==◌, any, ◌⊎◌,
  arith,
}
use g_rpeakec_go.Prelude.Int.{pos, negsuc}
use g_rpeakec_go.Prelude.Text.{Text, codes, text_eq, replace}
use g_rpeakec_go.Errors.{Err, Proto, TraceInfo, Heap, no_source}
use g_rpeakec_go.Errors.Chain.{as_sentinel, as_api, found_api}
use g_rpeakec_go.Pkerr.Panic.{Outcome, returned}
use g_rpeakec_go.Pkerr.Sentinel.{SentinelIssuer, code_with_offset, apply_new_issuer}
use g_rpeakec_go.Pkerr.Sentinel.Laws.{code_with_offset-injective, apply_new_issuer_lem}
use g_rpeakec_go.Pkerr.Generator.{ErrorGenerator, new_err, err_to_api_err}
use g_rpeakec_go.Pkerr.ApiError.{ApiErr}
use g_rpeakec_go.Pkerr.Generator.NewErr.{issued_proto, new_err_lem}
use g_rpeakec_go.Pkerr.Generator.Laws.{issued_heap, settled_heap}
use g_rpeakec_go.Errors.Show.{error_text, sentinel_text}
use g_rpeakec_go.Pkerr.Generator.Total.{
  IsTraced, IsOwed, err_to_api_err_total, send_context_ignored,
}
use g_rpeakec_go.Pkerr.Tests.{
  sample_world, sample_heap, full_generator, quiet_generator, wrapped_sentinel, wrapped_api,
  foreign_error, sample_frame,
}

abbrev code : ℕ
code = 3

code_with_offset-injective_example : code ≡ 1 + 2
code_with_offset-injective_example =
    code_with_offset-injective code (1 + 2) (negsuc 9) (omega arith) (omega arith) refl

abbrev issuer : SentinelIssuer
issuer = record {
  sentinel_issuer = codes "APP";
  sentinel_offset = pos 0;
  created_sentinels = 1 ∷ 2 ∷ [];
}

apply_new_issuer_lem_example :
    let (s', h') = apply_new_issuer issuer sample_heap (codes "B") (pos 100) in
    let old = sample_heap.sentinel_at 1 in
    let new = h'.sentinel_at 1 in
    (s'.sentinel_issuer ≡ codes "B")
    × (s'.sentinel_offset ≡ pos 100)
    × (s'.created_sentinels ≡ 1 ∷ 2 ∷ [])
    × (((any (λ b. 1 == b) (1 ∷ 2 ∷ []) ≡ true)
          × (new.issuer ≡ codes "B")
          × (new.code ≡ code_with_offset old.code_original (pos 100))
          × (new.code_original ≡ old.code_original)
          × (new.name ≡ old.name)
          × (new.grpc_code ≡ old.grpc_code)
          × (new.default_message ≡ old.default_message))
        ⊎ ((any (λ b. 1 == b) (1 ∷ 2 ∷ []) ≡ false) × (new ≡ old)))
apply_new_issuer_lem_example = apply_new_issuer_lem issuer sample_heap (codes "B") (pos 100) 1

abbrev no_variables : Text → Option Text
no_variables _ = none

abbrev num_error : Text → Text
num_error t = t

abbrev bad_offset : Text → Option Text
bad_offset _ = some (codes "ten")

abbrev message : Text
message = codes "id 4"

abbrev made : Heap × Outcome ApiErr
made = new_err quiet_generator sample_world 1 message [] no_source sample_heap

new_err_lem_example :
    (made.1 ≡ returned (record { address = 10; made_from = some 1; cause = no_source }))
    × ((b : ℕ)
        → made.0.proto_at b ≡ (
            if b == 10
            then issued_proto quiet_generator sample_world sample_heap 1 message [] no_source
            else sample_heap.proto_at b))
    × (made.0.sentinel_at ≡ sample_heap.sentinel_at)
    × (made.0.next ≡ 11)
new_err_lem_example = new_err_lem quiet_generator sample_world 1 message [] no_source sample_heap

IsTraced-sample : (src : Err) → IsTraced sample_heap src
IsTraced-sample src p s inner found e = cc

err_to_api_err_total_example :
    (e : ApiErr) × (v : Proto) × IsOwed quiet_generator sample_world 2 wrapped_api sample_heap e v
err_to_api_err_total_example =
    err_to_api_err_total quiet_generator sample_world 2 wrapped_api sample_heap
      (IsTraced-sample wrapped_api)

wrapped_sentinel-as_sentinel : as_sentinel wrapped_sentinel ≡ some 1
unfolding as_sentinel
wrapped_sentinel-as_sentinel = refl

sentinel_text-not_empty : sentinel_text (sample_heap.sentinel_at 1) ≢ []
unfolding sentinel_text
sentinel_text-not_empty e = cc

abbrev silent_generator : ErrorGenerator
silent_generator = record full_generator { send_context = false }

abbrev whole_text : Text
whole_text =
    error_text sample_world.status_code_text
      (issued_heap silent_generator sample_world 2 wrapped_sentinel sample_heap 1 [])
      wrapped_sentinel

sentinel_text-differs : text_eq (sentinel_text (sample_heap.sentinel_at 1)) whole_text ≡ false
unfolding sentinel_text error_text text_eq new_err
sentinel_text-differs = refl

send_context_ignored_example :
    let off = err_to_api_err silent_generator sample_world 2 wrapped_sentinel sample_heap in
    (err_to_api_err
        (record full_generator { send_context = true })
        sample_world
        2
        wrapped_sentinel
        sample_heap
      ≡ off)
    × ((e : ApiErr) × (t : TraceInfo) × (off.1 ≡ returned e)
        × ((off.0.proto_at e.address).trace ≡ t ∷ [])
        × (t.additional_context
            ≡ replace (sentinel_text (sample_heap.sentinel_at 1)) (codes "[error]") whole_text))
send_context_ignored_example =
    send_context_ignored full_generator sample_world 2 wrapped_sentinel sample_heap 1 whole_text
      wrapped_sentinel-as_sentinel refl sentinel_text-not_empty sentinel_text-differs

wrapped_api-as_sentinel : as_sentinel wrapped_api ≡ none
unfolding as_sentinel
wrapped_api-as_sentinel = refl

wrapped_api-as_api : as_api wrapped_api ≡ some (found_api 3 (some 1) no_source)
unfolding as_api
wrapped_api-as_api = refl

foreign_error-as_sentinel : as_sentinel foreign_error ≡ none
unfolding as_sentinel
foreign_error-as_sentinel = refl

foreign_error-as_api : as_api foreign_error ≡ none
unfolding as_api
foreign_error-as_api = refl

abbrev text_in : Heap → Err → Text
text_in = error_text sample_world.status_code_text

-- The heap in which the wrapped sentinel's texts are compared.
abbrev heap_of_sentinel : Heap
heap_of_sentinel = issued_heap full_generator sample_world 2 wrapped_sentinel sample_heap 1 []

abbrev heap_of_api : Heap
heap_of_api =
    settled_heap full_generator sample_world 2 wrapped_api sample_heap 3 (some 1) no_source []
      sample_frame

abbrev two : ℕ
two = 2

abbrev empty_issuer : SentinelIssuer
empty_issuer = record issuer { created_sentinels = [] }
