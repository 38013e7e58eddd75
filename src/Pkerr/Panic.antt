-- ===== src/Pkerr/Panic.antt =====
-- pkerr/handlePanic.go. A call of Go code returns or panics; `recover()` gives nil when there was
-- no panic, and also after `panic(nil)`, which is what Go 1.15 (go.mod) does.
pub mod Laws
use g_rpeakec_go.Prelude.{Option, none, some}
use g_rpeakec_go.Prelude.Text.{Text}
use g_rpeakec_go.Errors.{Err, panic_err, panic_val}

-- What `recover()` gives: nil, an error, or another value with its %+v text.
pub data Recovered : Type 0 where
  nothing : Recovered
  an_error : Err → Recovered
  a_value : Text → Recovered

pub data Outcome {ℓ} (A : Type ℓ) : Type ℓ where
  returned : A → Outcome A
  panicked : Recovered → Outcome A

infixl 5 ◌>>=◌
abbrev pub ◌>>=◌ {ℓ κ} : {A : Type ℓ} {B : Type κ} → Outcome A → (A → Outcome B) → Outcome B
returned a >>= f = f a
panicked r >>= f = panicked r

unfoldable pub check_panic : Recovered → Option Err → Option Err
check_panic nothing err = err
check_panic (an_error e) err = some (panic_err e)
check_panic (a_value t) err = some (panic_val t)

-- After a panic the named result `err` is still nil: the assignment was not reached.
unfoldable pub catch_panic : Outcome (Option Err) → Option Err
unfolding check_panic
catch_panic (returned err) = check_panic nothing err
catch_panic (panicked r) = check_panic r none
