-- ===== src/Pkerr/Status.antt =====
-- What the middleware uses of google.golang.org/grpc/status, which is not part of the repository.
-- A status is a value of an unknown type; the laws are the package's documented behaviour.
use g_rpeakec_go.Prelude.{ℕ, ◌≡◌, ◌≢◌, Option, none, some, List, [], ◌∷◌, ◌++◌}
use g_rpeakec_go.Prelude.Text.{Text}
use g_rpeakec_go.Errors.{Err, Proto}

-- A detail of a status that has been unpacked: an *Error, or a message of another type.
pub data Detail : Type 0 where
  error_detail : Proto → Detail
  other_detail : ℕ → Detail

pub record StatusApi : Type 1 where
  pub Status : Type 0
  -- status.New, WithDetails (`none` is its error), Err, FromError (`none` is false), Code, Details
  pub new_status : ℕ → Text → Status
  pub with_details : Status → Proto → Option Status
  pub to_err : Status → Option Err
  pub from_error : Err → Option Status
  pub code : Status → ℕ
  pub details : Status → List Detail
  -- The Errors that can be marshalled.
  pub IsWire : Proto → Type 0
  -- Err gives nil exactly for the code OK, which is 0.
  pub to_err_ok : (s : Status) → code s ≡ 0 → to_err s ≡ none
  pub to_err_some : (s : Status) → code s ≢ 0 → (e : Err) × (to_err s ≡ some e)
  pub from_to_err : (s : Status) (e : Err) → to_err s ≡ some e → from_error e ≡ some s
  pub code-new_status : (c : ℕ) (m : Text) → code (new_status c m) ≡ c
  pub details-new_status : (c : ℕ) (m : Text) → details (new_status c m) ≡ []
  -- WithDetails refuses the code OK.
  pub with_details_ok :
      (s : Status) (p : Proto)
      → IsWire p
      → code s ≢ 0
      → (t : Status) × (with_details s p ≡ some t)
        × (code t ≡ code s)
        × (details t ≡ details s ++ error_detail p ∷ [])
  pub with_details_code :
      (s : Status) (p : Proto) (t : Status) → with_details s p ≡ some t → code t ≡ code s
