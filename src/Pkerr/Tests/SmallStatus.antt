-- ===== src/Pkerr/Tests/SmallStatus.antt =====
-- A small status package: a status is a code, a message and the number of times that one fixed
-- Error is attached.
use g_rpeakec_go.Prelude.{
  ℕ, zero, suc, ◌≡◌, ◌≢◌, refl, Option, none, some, List, [], ◌∷◌, ◌++◌, arith,
}
use g_rpeakec_go.Prelude.Text.{Text}
use g_rpeakec_go.Errors.{Err, Proto}
use g_rpeakec_go.Pkerr.Status.{Detail, error_detail, StatusApi}

abbrev pub SmallStatus : Type 0
SmallStatus = ℕ × Text × ℕ

abbrev pub attached : Proto → ℕ → List Detail
attached p zero = []
attached p (suc n) = attached p n ++ error_detail p ∷ []

abbrev pub status_to_err : SmallStatus → Option Err
status_to_err (zero, m, n) = none
status_to_err (suc c, m, n) = some (Err.foreign n (c ∷ m))

abbrev pub status_from_err : Err → Option SmallStatus
status_from_err (Err.foreign n (c ∷ m)) = some (suc c, m, n)
status_from_err _ = none

abbrev pub attach : SmallStatus → Option SmallStatus
attach (zero, m, n) = none
attach (suc c, m, n) = some (suc c, m, suc n)

pub status_to_err_ok : (s : SmallStatus) → s.0 ≡ 0 → status_to_err s ≡ none
status_to_err_ok (zero, m, n) e = refl
status_to_err_ok (suc c, m, n) e = absurd (omega (arith, e))

pub status_to_err-some : (s : SmallStatus) → s.0 ≢ 0 → (e : Err) × (status_to_err s ≡ some e)
status_to_err-some (zero, m, n) ne = absurd (ne refl)
status_to_err-some (suc c, m, n) ne = (_, refl)

pub status_from_to_err :
    (s : SmallStatus) (e : Err) → status_to_err s ≡ some e → status_from_err e ≡ some s
status_from_to_err (zero, m, n) e q = cc
status_from_to_err (suc c, m, n) e q = ground arith

pub attach_ok :
    (fixed : Proto) (s : SmallStatus) (p : Proto)
    → p ≡ fixed
    → s.0 ≢ 0
    → (t : SmallStatus) × (attach s ≡ some t)
      × (t.0 ≡ s.0)
      × (attached fixed t.2 ≡ attached fixed s.2 ++ error_detail p ∷ [])
attach_ok fixed (zero, m, n) p e ne = absurd (ne refl)
attach_ok fixed (suc c, m, n) p e ne = (_, refl, refl, rw e refl)

pub attach_code : (s : SmallStatus) (p : Proto) (t : SmallStatus) → attach s ≡ some t → t.0 ≡ s.0
attach_code (zero, m, n) p t q = cc
attach_code (suc c, m, n) p t q = ground arith

abbrev pub small_status : Proto → StatusApi
small_status fixed = record {
  Status = SmallStatus;
  new_status = λ c m. (c, m, 0);
  with_details = λ s p. attach s;
  to_err = status_to_err;
  from_error = status_from_err;
  code = λ s. s.0;
  details = λ s. attached fixed s.2;
  IsWire = λ p. p ≡ fixed;
  to_err_ok = status_to_err_ok;
  to_err_some = status_to_err-some;
  from_to_err = status_from_to_err;
  code-new_status = λ c m. refl;
  details-new_status = λ c m. refl;
  with_details_ok = attach_ok fixed;
  with_details_code = attach_code;
}
