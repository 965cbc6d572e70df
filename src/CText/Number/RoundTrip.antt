-- ===== src/CText/Number/RoundTrip.antt =====
-- `atoi` reads back what "%d" prints, for every `int`.
use hermes_c.Prelude.{
  ℕ, zero, suc, ◌+◌, ◌*◌, ◌/◌, ◌%◌, ◌<◌, ◌≡◌, ◌∙◌, refl, true, false, [], ◌∷◌, arith, ◌==◌, ℤ, pos,
  negsuc, IsInt, to_int_id, Bool-cases, inl, inr,
}
use hermes_c.CText.{Bytes}
use hermes_c.CText.Number.{scan, digits, print_int, atoi, strtol, signed_long}

scan_digit : (d n : ℕ) (out : Bytes) → d < 10 → scan n ((b'0' + d) ∷ out) ≡ scan (n * 10 + d) out
unfolding scan
scan_digit d n out h = ground arith

-- Behind any digits read so far, the printed digits of `n` read as one number.
scan-digits : (f n : ℕ) (out : Bytes) → n < f → scan 0 (digits f n out) ≡ scan n out
unfolding digits
scan-digits zero n out h = absurd (omega arith)
scan-digits (suc f) n out h =
    ground (arith, scan_digit (n % 10) (n / 10) out, scan-digits f (n / 10) ((b'0' + n % 10) ∷ out))

-- The text starts with a digit.
data StartsWithDigit : Bytes → Type 0 where
  digit_first : (d : ℕ) (s : Bytes) → d < 10 → StartsWithDigit ((b'0' + d) ∷ s)

digits-StartsWithDigit : (f n : ℕ) (out : Bytes) → n < f → StartsWithDigit (digits f n out)
unfolding digits
digits-StartsWithDigit zero n out h = absurd (omega arith)
digits-StartsWithDigit (suc f) n out h = elim (Bool-cases (n / 10 == 0)) [
  | inl last ↦ rw last (digit_first (n % 10) out (omega arith))
  | inr more ↦ rw more (digits-StartsWithDigit f (n / 10) ((b'0' + n % 10) ∷ out) (ground arith))
]

read_sign-StartsWithDigit :
    {s : Bytes} → StartsWithDigit s → strtol s ≡ signed_long false (scan 0 s)
unfolding strtol
read_sign-StartsWithDigit (digit_first d s h) = ground arith

read_sign-minus : (s : Bytes) → strtol (b'-' ∷ s) ≡ signed_long true (scan 0 s)
unfolding strtol
read_sign-minus s = refl

strtol-print_int : (z : ℤ) → IsInt z → strtol (print_int z) ≡ z
unfolding print_int
strtol-print_int (pos n) h =
    read_sign-StartsWithDigit (digits-StartsWithDigit (suc n) n [] (omega arith))
    ∙ rw (scan-digits (suc n) n [] (omega arith)) (unfold scan signed_long in ground arith)
strtol-print_int (negsuc n) h =
    read_sign-minus _
    ∙ rw (scan-digits (suc (suc n)) (suc n) [] (omega arith))
        (unfold scan signed_long in ground arith)

-- `atoi` reads back what "%d" prints, for every value of the type `int`.
pub atoi-print_int : (z : ℤ) → IsInt z → atoi (print_int z) ≡ z
unfolding atoi
atoi-print_int z h = rw (strtol-print_int z h) (to_int_id z h)
