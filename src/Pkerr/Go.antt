-- ===== src/Pkerr/Go.antt =====
-- Go code that reads and writes the heap: it leaves a heap, and has returned or panicked.
use mathlib.Core.Path.{fun_ext}
use g_rpeakec_go.Errors.{Heap, Proto}
use g_rpeakec_go.Pkerr.Panic.{Outcome, returned, panicked, Recovered}
use g_rpeakec_go.Prelude.{ℕ, ◌≡◌, update}

abbrev pub Go {ℓ} : Type ℓ → Type ℓ
Go A = Heap → Heap × Outcome A

infixl 5 ◌>>=◌ ◌>>◌
abbrev pub after {ℓ κ} :
    {A : Type ℓ} {B : Type κ} → Heap × Outcome A → (A → Go B) → Heap × Outcome B
after (h, returned a) f = f a h
after (h, panicked r) f = (h, panicked r)

abbrev pub ◌>>=◌ {ℓ κ} : {A : Type ℓ} {B : Type κ} → Go A → (A → Go B) → Go B
◌>>=◌ m f h = after (m h) f

abbrev pub ◌>>◌ {ℓ} : {B : Type ℓ} → Go (Unit {0}) → Go B → Go B
◌>>◌ m k h = after (m h) (λ _. k)

abbrev pub return {ℓ} : {A : Type ℓ} → A → Go A
return a h = (h, returned a)

abbrev pub panic {ℓ} : {A : Type ℓ} → Recovered → Go A
panic r h = (h, panicked r)

abbrev pub get_heap : Go Heap
get_heap h = (h, returned h)

-- A write through an *Error.
abbrev pub write_proto : ℕ → Proto → Go (Unit {0})
write_proto p v h = (record h { proto_at = update h.proto_at p v }, returned tt)

-- What follows code that has returned.
pub after_returned {ℓ κ} :
    {A : Type ℓ} {B : Type κ} (r : Heap × Outcome A) (a : A) (f : A → Go B)
    → r.1 ≡ returned a
    → after r f ≡ f a r.0
after_returned (h, o) a f e = rw e

-- Two ends of a run are equal if their parts are.
pub run_eq {ℓ} :
    {A : Type ℓ} (r r' : Heap × Outcome A)
    → r.1 ≡ r'.1
    → ((b : ℕ) → r.0.proto_at b ≡ r'.0.proto_at b)
    → r.0.sentinel_at ≡ r'.0.sentinel_at
    → r.0.next ≡ r'.0.next
    → r ≡ r'
run_eq r r' out protos sentinels nexts =
    λ i. (record { sentinel_at = sentinels i; proto_at = fun_ext protos i; next = nexts i }, out i)
