-- ===== src/Prelude/Int.antt =====
-- The C types `int` and `long` on a machine with 32-bit and 64-bit words: a value is an integer,
-- and a conversion to `int` keeps the low 32 bits.
use Prim.Native.Nat.{ℕ, zero, suc, ◌-◌, ◌%◌, ◌<◌}
use mathlib.Core.Path.{◌≡◌}
use mathlib.Core.Bool.{Bool, true, false}
use native.Mathlib.Omega.{arith}
use hermes_c.Prelude.Tests.{ltb, ◌==◌, if◌then◌else◌}

-- `negsuc n` is -(n + 1).
pub data ℤ : Type 0 where
  pos : ℕ → ℤ
  negsuc : ℕ → ℤ

abbrev pub int_min_abs : ℕ
int_min_abs = 0x8000_0000

abbrev pub word_mod : ℕ
word_mod = 0x1_0000_0000

abbrev pub long_min_abs : ℕ
long_min_abs = 0x8000_0000_0000_0000

-- The `int` with the bit pattern `r`.
abbrev pub of_bits : ℕ → ℤ
of_bits r = if ltb r int_min_abs then pos r else negsuc (word_mod - 1 - r)

-- `(int) z`: the low 32 bits, read as a signed number.
unfoldable pub to_int : ℤ → ℤ
to_int (pos n) = of_bits (n % word_mod)
to_int (negsuc n) = of_bits (word_mod - 1 - n % word_mod)

-- The values of the type `int`.
abbrev pub IsInt : ℤ → Type 0
IsInt (pos n) = n < int_min_abs
IsInt (negsuc n) = n < int_min_abs

pub to_int-IsInt : (z : ℤ) → IsInt (to_int z)
unfolding to_int
to_int-IsInt (pos n) = ground arith
to_int-IsInt (negsuc n) = ground arith

pub to_int_id : (z : ℤ) → IsInt z → to_int z ≡ z
unfolding to_int
to_int_id (pos n) h = ground arith
to_int_id (negsuc n) h = ground arith

-- `n++` and `n--`.
abbrev pub incr : ℤ → ℤ
incr (pos n) = pos (suc n)
incr (negsuc zero) = pos 0
incr (negsuc (suc n)) = negsuc n

abbrev pub decr : ℤ → ℤ
decr (pos zero) = negsuc 0
decr (pos (suc n)) = pos n
decr (negsuc n) = negsuc (suc n)

abbrev pub eq_ℤ : ℤ → ℤ → Bool
eq_ℤ (pos a) (pos b) = a == b
eq_ℤ (negsuc a) (negsuc b) = a == b
eq_ℤ (pos _) (negsuc _) = false
eq_ℤ (negsuc _) (pos _) = false

abbrev pub ltb_ℤ : ℤ → ℤ → Bool
ltb_ℤ (pos a) (pos b) = ltb a b
ltb_ℤ (negsuc a) (negsuc b) = ltb b a
ltb_ℤ (pos _) (negsuc _) = false
ltb_ℤ (negsuc _) (pos _) = true

pub eq_ℤ_refl : (a : ℤ) → eq_ℤ a a ≡ true
eq_ℤ_refl (pos n) = ground arith
eq_ℤ_refl (negsuc n) = ground arith

pub eq_ℤ→eq : (a b : ℤ) → eq_ℤ a b ≡ true → a ≡ b
eq_ℤ→eq (pos a) (pos b) h = ground arith
eq_ℤ→eq (negsuc a) (negsuc b) h = ground arith
eq_ℤ→eq (pos a) (negsuc b) h = ground arith
eq_ℤ→eq (negsuc a) (pos b) h = ground arith
