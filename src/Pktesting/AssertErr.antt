-- ===== src/Pktesting/AssertErr.antt =====
-- pktesting/assertErr.go. testify is not part of the repository: what its assertions test is a
-- parameter. A check is the messages of the assertions that have failed, in order, which the test
-- logs, and the method's result.
use g_rpeakec_go.Prelude.{
  ℕ, suc, ◌+◌, ◌%◌, ◌^◌, Bool, true, false, not, ◌&&◌, Option, none, some, List, [], ◌∷◌, ◌++◌,
  length, get_elem?, leb, if◌then◌else◌,
}
use g_rpeakec_go.Prelude.Int.{ℤ, pos, negsuc}
use g_rpeakec_go.Prelude.Text.{Text, codes}
use g_rpeakec_go.Errors.{Err, sentinel, api, Source, Heap, Proto, Sentinel, TraceInfo}
use g_rpeakec_go.Errors.Chain.{errors_is}
pub mod Laws

-- The values that are compared, with their types.
pub data Value : Type 0 where
  int32 uint32 : ℕ → Value
  string : Text → Value
  boolean : Bool → Value

-- ObjectsAreEqual and isEmpty of testify, and strings.Contains.
pub record Testify : Type 0 where
  pub objects_are_equal : Value → Value → Bool
  pub is_empty : Value → Bool
  pub contains : Text → Text → Bool

pub record Check : Type 0 where
  pub failures : List Text
  pub result : Bool

abbrev pub assertion : Bool → Text → Check
assertion true message = record { failures = []; result = true }
assertion false message = record { failures = message ∷ []; result = false }

-- `if !check { result = false }`
abbrev pub and_then : Check → Check → Check
and_then c d = record { failures = c.failures ++ d.failures; result = c.result && d.result }

-- A call that may end the test, by FailNow, or panic.
pub data Ended (A : Type 0) : Type 0 where
  got : A → Ended A
  failed_now : Text → Ended A
  index_panic : Ended A

module _ (t : Testify) where
  unfoldable pub app_name : TraceInfo → Text → Check
  app_name trace_info expected =
      assertion (t.objects_are_equal (string expected) (string trace_info.app_name))
        (codes "app name")

  unfoldable pub app_host : TraceInfo → Text → Check
  app_host trace_info expected =
      assertion (t.objects_are_equal (string expected) (string trace_info.app_host))
        (codes "app host")

  unfoldable pub additional_context : TraceInfo → Text → Check
  additional_context trace_info expected =
      assertion (t.objects_are_equal (string expected) (string trace_info.additional_context))
        (codes "additional context")

  -- Emptyf is given `expected`, and the stack trace as its message.
  unfoldable pub has_stack_trace : TraceInfo → Bool → Check
  has_stack_trace trace_info expected =
      if expected
      then assertion (not (t.is_empty (string trace_info.stack_trace))) (codes "has traceback")
      else assertion (t.is_empty (boolean expected)) trace_info.stack_trace

  -- AssertErr holds an APIError: `p` is the address of its Proto.
  module _ (h : Heap) (p : ℕ) (sent : Option ℕ) (src : Source) where
    unfoldable pub is : Err → Text → Check
    unfolding errors_is
    is expected message = assertion (errors_is h (api p sent src) expected) message

    unfoldable pub name : Text → Check
    name expected =
        assertion (t.objects_are_equal (string expected) (string (h.proto_at p).name))
          (codes "error name")

    unfoldable pub code : ℕ → Check
    code expected =
        assertion (t.objects_are_equal (uint32 expected) (uint32 (h.proto_at p).code))
          (codes "error code")

    unfoldable pub issuer : Text → Check
    issuer expected =
        assertion (t.objects_are_equal (string expected) (string (h.proto_at p).issuer))
          (codes "error code issuer")

    -- The code is compared with the issuer.
    unfoldable pub grpc_code : ℕ → Check
    grpc_code expected =
        assertion (t.objects_are_equal (int32 expected) (string (h.proto_at p).issuer))
          (codes "grpc code")

    unfoldable pub message : Text → Check
    message expected =
        assertion (t.objects_are_equal (string expected) (string (h.proto_at p).message))
          (codes "message is equal")

    unfoldable pub message_contains : Text → Check
    message_contains part =
        assertion (t.contains (h.proto_at p).message part) (codes "message contains")

    -- Sentinel, for the address of the expected sentinel.
    unfoldable pub sentinel_check : ℕ → Bool → Check
    unfolding is name code issuer message message_contains
    sentinel_check at full_message =
        let expected = h.sentinel_at at in
        let exact = message expected.default_message in
        and_then
          (and_then
            (and_then
              (and_then (and_then (is (sentinel at) []) (name expected.name)) (code expected.code))
              (issuer expected.issuer))
            (message_contains expected.default_message))
          (if full_message then exact else assertion true [])

    unfoldable pub trace_length : ℕ → Check
    trace_length expected =
        assertion
          (leb (length (h.proto_at p).trace) expected && leb expected (length (h.proto_at p).trace))
          (codes "trace length")

    abbrev frame_at : Option TraceInfo → Ended TraceInfo
    frame_at none = failed_now (codes "trace has index")
    frame_at (some frame) = got frame

    -- `len >= index + 1` holds for an index below 0.
    unfoldable pub trace_index : ℤ → Ended TraceInfo
    trace_index (pos i) = frame_at (get_elem? (h.proto_at p).trace i)
    trace_index (negsuc i) = index_panic

-- NewAssertAPIErr: the APIError, which must be the error itself.
pub record AssertErr : Type 0 where
  pub proto : ℕ
  pub sentinel : Option ℕ
  pub source : Source

unfoldable pub new_assert_api_err : Option Err → Ended AssertErr
new_assert_api_err none = failed_now (codes "is error")
new_assert_api_err (some (api p sent src)) =
    got (record { proto = p; sentinel = sent; source = src })
new_assert_api_err (some _) = failed_now (codes "error is APIError")
