-- ===== src/Wire/Numbers.antt =====
-- A number as the value of a named header: what `sprintf("%d")` writes can go on the wire.
use hermes_c.CText.Number.{digits, is_digit, print_int, skip_space}
use hermes_c.CText.{Bytes, is_space}
use hermes_c.Parser.{str_strip, strip_back}
use hermes_c.Prelude.{
  ◌^◌, ◌≤◌, length, int_min_abs, ℕ, zero, suc, ◌+◌, ◌/◌, ◌%◌, ◌<◌, ◌≡◌, ◌≢◌, ◌∙◌, refl, true, false,
  Bool, [], ◌∷◌, ◌++◌, All, arith, ap, ◌==◌, pos, Bool-cases, inl, inr, cons-ne-nil,
}
use hermes_c.Wire.{IsField, LineText, dot_after}

abbrev Numeral : Bytes → Type 0
Numeral s = (s ≢ []) × All (λ c. is_digit c ≡ true) s

digits-Numeral :
    (f n : ℕ) (out : Bytes) → n < f → All (λ c. is_digit c ≡ true) out → Numeral (digits f n out)
unfolding digits
digits-Numeral zero n out h a = absurd (omega arith)
digits-Numeral (suc f) n out h a = elim (Bool-cases (n / 10 == 0)) [
  | inl last ↦ rw last (cons-ne-nil _ _, (ground arith, a))
  | inr more ↦
      rw more (digits-Numeral f (n / 10) ((b'0' + n % 10) ∷ out) (ground arith) (ground arith, a))
]

print_int-Numeral : (n : ℕ) → Numeral (print_int (pos n))
unfolding print_int
print_int-Numeral n = digits-Numeral (suc n) n [] (omega arith) tt

-- A number below a power of ten has no more digits than that.
digits-length :
    (k f n : ℕ) (out : Bytes)
    → n < f
    → n < 10 ^ suc k
    → length (digits f n out) ≤ suc k + length out
unfolding digits
digits-length k zero n out h b = absurd (omega arith)
digits-length zero (suc f) n out h b =
    let last : (n / 10 == 0) ≡ true = ground arith in rw last (omega arith)
digits-length (suc k) (suc f) n out h b = elim (Bool-cases (n / 10 == 0)) [
  | inl last ↦ rw last (omega arith)
  | inr more ↦
      let ih = digits-length k f (n / 10) ((b'0' + n % 10) ∷ out) (ground arith) (omega arith) in
      rw more (omega (arith, ih))
]

-- An `int` that is not negative has ten digits at most.
pub print_int-length : (n : ℕ) → n < int_min_abs → length (print_int (pos n)) ≤ 10
unfolding print_int
print_int-length n h = digits-length 9 (suc n) n [] (omega arith) (omega arith)

-- Numeral are not stripped.
digits_kept : (s : Bytes) → All (λ c. is_digit c ≡ true) s → strip_back s ≡ s
unfolding strip_back is_space
digits_kept [] a = refl
digits_kept (c ∷ []) (d, a) = ground arith
digits_kept (c ∷ x ∷ s) (d, a) = rw (digits_kept (x ∷ s) a) refl

first_kept : (c : ℕ) (s : Bytes) → is_digit c ≡ true → skip_space (c ∷ s) ≡ c ∷ s
unfolding skip_space is_space
first_kept c s d = ground arith

stripped : (s : Bytes) → Numeral s → str_strip s ≡ s
unfolding str_strip
stripped [] (e, a) = absurd (e refl)
stripped (c ∷ s) (e, (d, a)) = ap strip_back (first_kept c s d) ∙ digits_kept (c ∷ s) (d, a)

digits-LineText : (s : Bytes) → All (λ c. is_digit c ≡ true) s → LineText s
digits-LineText [] a = tt
digits-LineText (c ∷ s) (d, a) = (ground arith, digits-LineText s a)

LineText-append : (s t : Bytes) → LineText s → LineText t → LineText (s ++ t)
LineText-append [] t a b = b
LineText-append (c ∷ s) t (h, a) b = (h, LineText-append s t a b)

-- A line that ends with digits does not end with a period.
no_dot : (s : Bytes) → All (λ c. is_digit c ≡ true) s → dot_after false s ≡ false
no_dot [] a = refl
no_dot (c ∷ s) (d, a) = ground (arith, no_dot s a)

no_dot_end : (s : Bytes) → Numeral s → (seen : Bool) → dot_after seen s ≡ false
no_dot_end [] (e, a) seen = absurd (e refl)
no_dot_end (c ∷ s) (e, (d, a)) seen = ground (arith, no_dot s a)

no_dot_behind :
    (t s : Bytes)
    → ((seen : Bool) → dot_after seen s ≡ false)
    → (seen : Bool) → dot_after seen (t ++ s) ≡ false
no_dot_behind [] s h seen = h seen
no_dot_behind (x ∷ t) s h seen = no_dot_behind t s h _

-- A key that can go on the wire, with a number.
pub print_int-IsField :
    (k : Bytes) (n : ℕ)
    → All (λ c. (c == b':') ≡ false) k
    → str_strip k ≡ k
    → LineText k
    → IsField (record { key = k; val = print_int (pos n) })
print_int-IsField k n c e l =
    let d = print_int-Numeral n in
    record {
      no_colon = c;
      key_stripped = e;
      val_stripped = stripped (print_int (pos n)) d;
      quiet = (
        LineText-append k (b':' ∷ print_int (pos n)) l
            (refl, digits-LineText (print_int (pos n)) d.1),
        no_dot_behind k (b':' ∷ print_int (pos n)) (λ seen. no_dot_end (print_int (pos n)) d false)
            false,
      );
    }
