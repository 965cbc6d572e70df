-- ===== src/Process.antt =====
-- The process that runs the code, and src/hms/hms_util.c: an assertion that fails ends it by
-- `exit(-1)`, as `assert` of <assert.h> does by `abort`. `fault` stands for undefined behaviour:
-- an access through NULL or outside a buffer.
use hermes_c.Prelude.{Bool, not, Option, none, some, ℤ, pos, negsuc, eq_ℤ, if◌then◌else◌}

pub data Run {ℓ} (Value : Type ℓ) : Type ℓ where
  died fault : Run Value
  ok : Value → Run Value

abbrev pub ◌>>=◌ {ℓ κ} :
    {Value : Type ℓ} {After : Type κ} → Run Value → (Value → Run After) → Run After
died >>= next = died
fault >>= next = fault
ok value >>= next = next value

infixl 5 ◌>>=◌
-- An assertion before the rest.
abbrev pub ◌>>◌ {κ} : {After : Type κ} → Run (Unit {0}) → Run After → Run After
check >> rest = check >>= λ _. rest

infixl 5 ◌>>◌
-- What most functions of the library return: 0 and -1.
abbrev pub rc_ok : ℤ
rc_ok = pos 0

abbrev pub rc_err : ℤ
rc_err = negsuc 0

-- A pointer as the assertions see it: NULL is 0, and an address of a live object is not.
abbrev pub address {ℓ} : {A : Type ℓ} → Option A → ℤ
address none = pos 0
address (some _) = pos 1

pub data AssertType : Type 0 where
  assert_eq assert_neq : AssertType

-- `eval` of `_hms_assert_low`: whether the assertion failed.
abbrev assert_eval : ℤ → ℤ → AssertType → Bool
assert_eval expected condition assert_eq = not (eq_ℤ condition expected)
assert_eval expected condition assert_neq = not (not (eq_ℤ condition expected))

unfoldable pub assert_low : ℤ → ℤ → AssertType → Run (Unit {0})
assert_low expected condition type = if assert_eval expected condition type then died else ok tt

unfoldable pub assert_equals : ℤ → ℤ → Run (Unit {0})
unfolding assert_low
assert_equals expected condition = assert_low expected condition assert_eq

unfoldable pub assert_not_equals : ℤ → ℤ → Run (Unit {0})
unfolding assert_low
assert_not_equals expected condition = assert_low expected condition assert_neq

-- A predicate on what a run returns, and what is said of a fault; the process may end.
abbrev pub Outcome {ℓ} : {Value : Type ℓ} → Type 0 → (Value → Type 0) → Run Value → Type 0
Outcome Fault P (ok value) = P value
Outcome Fault P died = Unit {0}
Outcome Fault P fault = Fault

-- Where nothing is said of a fault, and where there is none.
abbrev pub Holds {ℓ} : {Value : Type ℓ} → (Value → Type 0) → Run Value → Type 0
Holds = Outcome (Unit {0})

abbrev pub Safe {ℓ} : {Value : Type ℓ} → (Value → Type 0) → Run Value → Type 0
Safe = Outcome ⊥
