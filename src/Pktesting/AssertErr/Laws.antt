-- ===== src/Pktesting/AssertErr/Laws.antt =====
-- What the assertions of AssertErr test.
use g_rpeakec_go.Prelude.{
  ℕ, ◌≡◌, ◌↔◌, ◌⊎◌, refl, ap, ◌∙◌, inl, inr, Bool, true, false, ◌&&◌, Option, List, [], ◌∷◌, ◌++◌,
  Bool-cases, if◌then◌else◌, arith,
}
use g_rpeakec_go.Prelude.Text.{Text, codes}
use g_rpeakec_go.Errors.{Source, Heap, TraceInfo, sentinel, api}
use g_rpeakec_go.Errors.Chain.{errors_is}
use g_rpeakec_go.Pktesting.AssertErr.{
  Value, int32, uint32, string, boolean, Testify, Check, assertion, and_then, has_stack_trace, is,
  name, code, issuer, message, message_contains, grpc_code, sentinel_check,
}

-- A check's result is true when no assertion has failed.
abbrev IsHonest : Check → Type 0
IsHonest c = (c.result ≡ true) ↔ (c.failures ≡ [])

assertion-IsHonest : (b : Bool) (m : Text) → IsHonest (assertion b m)
assertion-IsHonest true m = (λ _. refl, λ _. refl)
assertion-IsHonest false m = ground arith

append-nil_iff {ℓ} : {A : Type ℓ} (xs ys : List A) → xs ++ ys ≡ [] → (xs ≡ []) × (ys ≡ [])
append-nil_iff [] ys e = (refl, e)
append-nil_iff (x ∷ xs) ys e = absurd (ground arith)

and_then-result :
    (c d : Check) → ((and_then c d).result ≡ true) ↔ ((c.result ≡ true) × (d.result ≡ true))
and_then-result c d = ground arith

and_then-IsHonest : (c d : Check) → IsHonest c → IsHonest d → IsHonest (and_then c d)
and_then-IsHonest c d hc hd = (
  λ e. let (a, b) = (and_then-result c d).0 e in ap (λ xs. xs ++ d.failures) (hc.0 a) ∙ hd.0 b,
  λ e.
      let (a, b) = append-nil_iff c.failures d.failures e in
      (and_then-result c d).1 (hc.1 a, hd.1 b),
)

-- GrpcCode compares an int32 with a string: the assertion fails whatever the error's code.
pub grpc_code-result :
    (t : Testify) (h : Heap) (p : ℕ) (sent : Option ℕ) (src : Source) (expected : ℕ)
    → ((x y : Value) → t.objects_are_equal x y ≡ true → x ≡ y)
    → (grpc_code t h p sent src expected).result ≡ false
unfolding grpc_code
grpc_code-result t h p sent src expected same =
    let issued = string (h.proto_at p).issuer in
    elim (Bool-cases (t.objects_are_equal (int32 expected) issued)) [
      | inl e ↦ absurd (different (h.proto_at p).issuer (same (int32 expected) issued e))
      | inr e ↦ rw e refl
    ]
  where
    different : (s : Text) → int32 expected ≡ string s → ⊥
    different s e = ground arith

-- HasStackTrace(false) gives `expected` to Emptyf: the assertion passes for every frame, also for
-- one with a stack trace.
pub has_stack_trace-false :
    (t : Testify) (frame : TraceInfo)
    → t.is_empty (boolean false) ≡ true
    → (has_stack_trace t frame false).result ≡ true
unfolding has_stack_trace
has_stack_trace-false t frame empty = rw empty refl

assertion-result : (b : Bool) (m : Text) → ((assertion b m).result ≡ true) ↔ (b ≡ true)
assertion-result true m = (λ _. refl, λ _. refl)
assertion-result false m = (λ e. e, λ e. e)

-- An assertion that two values of one type are equal.
equal-result :
    {A : Type 0} (t : Testify) (tag : A → Value) (a b : A) (m : Text)
    → ((x y : Value) → (t.objects_are_equal x y ≡ true) ↔ (x ≡ y))
    → ((x y : A) → tag x ≡ tag y → x ≡ y)
    → ((assertion (t.objects_are_equal (tag a) (tag b)) m).result ≡ true) ↔ (a ≡ b)
equal-result t tag a b m same injective = (
  λ e. injective a b ((same (tag a) (tag b)).0 ((assertion-result _ m).0 e)),
  λ e. (assertion-result _ m).1 ((same (tag a) (tag b)).1 (ap tag e)),
)

string-injective : (x y : Text) → string x ≡ string y → x ≡ y
string-injective x y e = ground arith

uint32-injective : (x y : ℕ) → uint32 x ≡ uint32 y → x ≡ y
uint32-injective x y e = ground arith

string-result :
    (t : Testify)
    → ((x y : Value) → (t.objects_are_equal x y ≡ true) ↔ (x ≡ y))
    → (a b m : Text)
    → ((assertion (t.objects_are_equal (string a) (string b)) m).result ≡ true) ↔ (a ≡ b)
string-result t same a b m = equal-result t string a b m same string-injective

-- What Sentinel asserts of the error at `p` and the sentinel at `a`.
abbrev pub Matches : Testify → Heap → ℕ → Option ℕ → Source → ℕ → Bool → Type 0
Matches t h p sent src a full_message =
    let expected = h.sentinel_at a in
    let found = h.proto_at p in
    (errors_is h (api p sent src) (sentinel a) ≡ true)
    × (expected.name ≡ found.name)
    × (expected.code ≡ found.code)
    × (expected.issuer ≡ found.issuer)
    × (t.contains found.message expected.default_message ≡ true)
    × ((full_message ≡ false) ⊎ (expected.default_message ≡ found.message))

-- The last assertion counts when it is asked for.
if_full :
    (full : Bool) (c : Check) {P : Type 0}
    → ((c.result ≡ true) ↔ P)
    → ((if full then c else assertion true []).result ≡ true) ↔ ((full ≡ false) ⊎ P)
if_full true c h =
    (λ e. inr (h.0 e), λ f. elim f [ inl off ↦ absurd (ground arith) | inr p ↦ h.1 p ])
if_full false c h = (λ e. inl refl, λ f. refl)

if_full-IsHonest :
    (full : Bool) (c : Check) → IsHonest c → IsHonest (if full then c else assertion true [])
if_full-IsHonest true c h = h
if_full-IsHonest false c h = (λ _. refl, λ _. refl)

both :
    (a b : Bool) {P Q : Type 0} → ((a ≡ true) ↔ P) → ((b ≡ true) ↔ Q) → ((a && b) ≡ true) ↔ (P × Q)
both true b h k = (λ e. (h.0 refl, k.0 e), λ w. k.1 w.1)
both false b h k = (λ e. absurd (ground arith), λ w. h.1 w.0)

-- Sentinel gives true just when the error is the sentinel by errors.Is, its name, code and issuer
-- are the sentinel's, and its message contains the default message or, where the full message is
-- asked for, is the default message as well.
pub sentinel_check_lem :
    (t : Testify) (h : Heap) (p : ℕ) (sent : Option ℕ) (src : Source) (a : ℕ) (full_message : Bool)
    → ((x y : Value) → (t.objects_are_equal x y ≡ true) ↔ (x ≡ y))
    → ((sentinel_check t h p sent src a full_message).result ≡ true)
      ↔ Matches t h p sent src a full_message
unfolding sentinel_check is name code issuer message message_contains
sentinel_check_lem t h p sent src a full_message same =
    let expected = h.sentinel_at a in
    let found = h.proto_at p in
    let code_same =
      equal-result t uint32 expected.code found.code (codes "error code") same uint32-injective in
    let parts =
      both _ _
        (both _ _
          (both _ _
            (both _ _
              (both _ _ (assertion-result _ []) (string-result t same expected.name found.name _))
              code_same)
            (string-result t same expected.issuer found.issuer _))
          (assertion-result _ (codes "message contains")))
        (if_full full_message _ (string-result t same expected.default_message found.message _)) in
    (
      λ e. let (((((i, n), c), s), k), m) = parts.0 e in (i, n, c, s, k, m),
      λ (i, n, c, s, k, m). parts.1 (((((i, n), c), s), k), m),
    )

-- The result of Sentinel is true just when it has logged no failure: no assertion is skipped after
-- one that has failed, and none fails without its result.
pub sentinel_check-IsHonest :
    (t : Testify) (h : Heap) (p : ℕ) (sent : Option ℕ) (src : Source) (a : ℕ) (full_message : Bool)
    → let check = sentinel_check t h p sent src a full_message in
      (check.result ≡ true) ↔ (check.failures ≡ [])
unfolding sentinel_check is name code issuer message message_contains
sentinel_check-IsHonest t h p sent src a full_message =
    let j = and_then-IsHonest in
    j _ _
      (j _ _
        (j _ _
          (j _ _ (j _ _ (assertion-IsHonest _ _) (assertion-IsHonest _ _)) (assertion-IsHonest _ _))
          (assertion-IsHonest _ _))
        (assertion-IsHonest _ _))
      (if_full-IsHonest full_message _ (assertion-IsHonest _ _))
