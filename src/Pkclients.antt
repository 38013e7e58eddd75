-- ===== src/Pkclients.antt =====
-- pkclients/waitForGrpcServer.go. A ping is the error that the client's call gives; the pings that
-- the loop makes are its fuel.
pub mod Laws
pub mod Tests
use g_rpeakec_go.Prelude.{
  ℕ, Bool, true, false, ◌||◌, Option, none, some, List, [], ◌∷◌, ◌==◌, if◌then◌else◌, any,
}
use g_rpeakec_go.Errors.{Err, Heap, canceled, deadline_exceeded}
use g_rpeakec_go.Errors.Chain.{errors_is, as_api, Found}
use g_rpeakec_go.Pkerr.Status.{StatusApi}

-- gRPC's NotFound, Unavailable and DeadlineExceeded.
abbrev pub retry_codes : List ℕ
retry_codes = 5 ∷ 14 ∷ []

abbrev pub deadline_exceeded_code : ℕ
deadline_exceeded_code = 4

module _ (g : StatusApi) (h : Heap) where
  open g use {Status, from_error, code}

  abbrev pub is_context_error : Err → Bool
  is_context_error err = errors_is h err deadline_exceeded || errors_is h err canceled

  check_status : Err → Option Status → Option Err × Bool
  check_status err none = (some err, true)
  check_status err (some response_status) =
      if code response_status == deadline_exceeded_code
      then (some err, false)
      else if any (λ retry_code. code response_status == retry_code) retry_codes
      then (some err, true)
      else (none, false)

  -- After the test for a context error.
  check_api : Err → Bool → Option Err × Bool
  check_api err true = (none, false)
  check_api err false = check_status err (from_error err)

  abbrev pub is_some_found : Option Found → Bool
  is_some_found none = false
  is_some_found (some found) = true

  -- The error, and whether to try again.
  unfoldable pub retry_ping : Option Err → Option Err × Bool
  unfolding check_status check_api
  retry_ping none = (none, false)
  retry_ping (some err) =
      if is_context_error err then (some err, false) else check_api err (is_some_found (as_api err))

  -- `none` when the pings run out.
  unfoldable pub wait_for_grpc_server : List (Option Err) → Option (Option Err)
  unfolding retry_ping
  wait_for_grpc_server [] = none
  wait_for_grpc_server (ping ∷ pings) =
      let later = wait_for_grpc_server pings in
      let (err, retry) = retry_ping ping in if retry then later else some err
