-- ===== src/CText/Number.antt =====
-- Decimal numbers: `strtol(s, NULL, 10)`, `atoi` and the "%d" of `sprintf`.
pub mod RoundTrip
use hermes_c.Prelude.{
  ℕ, zero, suc, ◌+◌, ◌-◌, ◌*◌, ◌/◌, ◌%◌, Bool, true, false, ◌&&◌, [], ◌∷◌, leb, ltb, ◌==◌,
  if◌then◌else◌, ℤ, pos, negsuc, to_int, long_min_abs,
}
use hermes_c.CText.{Bytes, is_space}

abbrev pub is_digit : ℕ → Bool
is_digit c = leb b'0' c && leb c b'9'

-- The value of the digits at the front of `s`, behind those already read.
unfoldable pub scan : ℕ → Bytes → ℕ
scan n [] = n
scan n (c ∷ s) = let rest = scan (n * 10 + (c - b'0')) s in if is_digit c then rest else n

-- `strtol` stops at LONG_MAX and at LONG_MIN.
unfoldable pub signed_long : Bool → ℕ → ℤ
signed_long false n = if ltb n long_min_abs then pos n else pos (long_min_abs - 1)
signed_long true zero = pos 0
signed_long true (suc n) = if ltb n long_min_abs then negsuc n else negsuc (long_min_abs - 1)

unfoldable pub skip_space : Bytes → Bytes
unfolding is_space
skip_space [] = []
skip_space (c ∷ s) = elim (is_space c) [ true ↦ skip_space s | false ↦ c ∷ s ]

unfoldable pub read_sign : Bytes → ℤ
unfolding signed_long scan
read_sign [] = pos 0
read_sign (c ∷ s) =
    if c == b'-'
    then signed_long true (scan 0 s)
    else if c == b'+'
    then signed_long false (scan 0 s)
    else signed_long false (scan 0 (c ∷ s))

unfoldable pub strtol : Bytes → ℤ
unfolding skip_space read_sign
strtol s = read_sign (skip_space s)

unfoldable pub atoi : Bytes → ℤ
unfolding strtol to_int
atoi s = to_int (strtol s)

-- The digits of `n` in front of `out`; the fuel is one more than `n`, and each round divides by 10.
unfoldable pub digits : ℕ → ℕ → Bytes → Bytes
digits zero n out = out
digits (suc f) n out =
    let more = digits f (n / 10) ((b'0' + n % 10) ∷ out) in
    if n / 10 == 0 then (b'0' + n % 10) ∷ out else more

-- `sprintf(buf, "%d", z)`.
unfoldable pub print_int : ℤ → Bytes
unfolding digits
print_int (pos n) = digits (suc n) n []
print_int (negsuc n) = b'-' ∷ digits (suc (suc n)) (suc n) []
