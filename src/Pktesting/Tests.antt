-- ===== src/Pktesting/Tests.antt =====
-- Runs of the assertions, and the theorem on Sentinel at a sentinel's own error.
use g_rpeakec_go.Prelude.{
  ◌==◌, ◌≡◌, ◌↔◌, refl, Bool, true, false, not, none, some, [], ◌∷◌, ==_iff, arith,
}
use g_rpeakec_go.Prelude.Int.{negsuc}
use g_rpeakec_go.Prelude.Text.{codes, text_eq, text_eq_iff}
use g_rpeakec_go.Docs.Strings.{index_of, found}
use g_rpeakec_go.Errors.{Heap, Proto, Sentinel, canceled, no_source}
use g_rpeakec_go.Pktesting.AssertErr.{
  Value, int32, uint32, string, boolean, Testify, sentinel_check, trace_index, failed_now,
  index_panic, new_assert_api_err,
}
use g_rpeakec_go.Pktesting.AssertErr.Laws.{Matches, sentinel_check_lem}

unfoldable same_value : Value → Value → Bool
unfolding text_eq
same_value (int32 a) (int32 b) = a == b
same_value (int32 a) (uint32 b) = false
same_value (int32 a) (string b) = false
same_value (int32 a) (boolean b) = false
same_value (uint32 a) (int32 b) = false
same_value (uint32 a) (uint32 b) = a == b
same_value (uint32 a) (string b) = false
same_value (uint32 a) (boolean b) = false
same_value (string a) (int32 b) = false
same_value (string a) (uint32 b) = false
same_value (string a) (string b) = text_eq a b
same_value (string a) (boolean b) = false
same_value (boolean a) (int32 b) = false
same_value (boolean a) (uint32 b) = false
same_value (boolean a) (string b) = false
same_value (boolean true) (boolean true) = true
same_value (boolean true) (boolean false) = false
same_value (boolean false) (boolean true) = false
same_value (boolean false) (boolean false) = true

same_value_iff : (x y : Value) → (same_value x y ≡ true) ↔ (x ≡ y)
unfolding same_value
same_value_iff (int32 a) (int32 b) = ground (arith, ==_iff a b)
same_value_iff (int32 a) (uint32 b) = ground arith
same_value_iff (int32 a) (string b) = ground arith
same_value_iff (int32 a) (boolean b) = ground arith
same_value_iff (uint32 a) (int32 b) = ground arith
same_value_iff (uint32 a) (uint32 b) = ground (arith, ==_iff a b)
same_value_iff (uint32 a) (string b) = ground arith
same_value_iff (uint32 a) (boolean b) = ground arith
same_value_iff (string a) (int32 b) = ground arith
same_value_iff (string a) (uint32 b) = ground arith
same_value_iff (string a) (string b) = ground (arith, text_eq_iff a b)
same_value_iff (string a) (boolean b) = ground arith
same_value_iff (boolean a) (int32 b) = ground arith
same_value_iff (boolean a) (uint32 b) = ground arith
same_value_iff (boolean a) (string b) = ground arith
same_value_iff (boolean true) (boolean true) = ground arith
same_value_iff (boolean true) (boolean false) = ground arith
same_value_iff (boolean false) (boolean true) = ground arith
same_value_iff (boolean false) (boolean false) = ground arith

abbrev testify : Testify
testify = record {
  objects_are_equal = same_value;
  is_empty = λ v. elim v [ string [] ↦ true | boolean b ↦ not b | _ ↦ false ];
  contains = λ s part. found (index_of part s);
}

-- The sentinel at 0, and an Error made from it at 1.
abbrev not_found : Sentinel
not_found = record {
  issuer = codes "app";
  code = 1004;
  name = codes "NotFound";
  grpc_code = 5;
  default_message = codes "no such thing";
  code_original = 1004;
}

abbrev not_found_proto : Proto
not_found_proto = record {
  id = 7;
  issuer = codes "app";
  code = 1004;
  grpc_code = 5;
  name = codes "NotFound";
  message = codes "no such thing: 3";
  source_error = [];
  source_type = [];
  time = 0;
  details = [];
  trace = [];
}

abbrev heap : Heap
heap = record { sentinel_at = λ _. not_found; proto_at = λ _. not_found_proto; next = 2 }

sentinel_passes : (sentinel_check testify heap 1 (some 0) no_source 0 false).failures ≡ []
unfolding sentinel_check same_value index_of
sentinel_passes = refl

full_message_fails :
    (sentinel_check testify heap 1 (some 0) no_source 0 true).failures
    ≡ codes "message is equal" ∷ []
unfolding sentinel_check same_value index_of
full_message_fails = refl

index_below_0 : trace_index testify heap 1 none no_source (negsuc 0) ≡ index_panic
unfolding trace_index
index_below_0 = refl

not_an_api_error : new_assert_api_err (some canceled) ≡ failed_now (codes "error is APIError")
unfolding new_assert_api_err
not_an_api_error = refl

sentinel_check_lem_example :
    ((sentinel_check testify heap 1 (some 0) no_source 0 false).result ≡ true)
    ↔ Matches testify heap 1 (some 0) no_source 0 false
sentinel_check_lem_example =
    sentinel_check_lem testify heap 1 (some 0) no_source 0 false same_value_iff
