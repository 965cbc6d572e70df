-- ===== src/CText.antt =====
-- C strings as the program uses them. A string is the list of its bytes before the terminating
-- NUL, so `strlen` is `length` and `strdup` is the identity. The functions here are those of the C
-- library (<string.h>, <strings.h>, <ctype.h>) in the "C" locale.
pub mod Case
pub mod Token
pub mod Number
use Prim.Native.Char.{code}
use Prim.Native.String.{String}
use hermes_c.Prelude.{
  ℕ, ◌+◌, Bool, true, false, ◌&&◌, ◌||◌, Option, none, some, List, [], ◌∷◌, ◌++◌, leb, ◌==◌,
  if◌then◌else◌,
}

abbrev pub Bytes : Type 0
Bytes = List ℕ

-- The code points of a literal, which are its bytes where it is ASCII.
abbrev pub codes : String → Bytes
codes String.[] = []
codes (String.◌∷◌ c s) = code c ∷ codes s

abbrev pub is_upper : ℕ → Bool
is_upper c = leb b'A' c && leb c b'Z'

unfoldable pub to_lower : ℕ → ℕ
to_lower c = if is_upper c then c + 32 else c

unfoldable pub is_space : ℕ → Bool
is_space c = c == b' ' || (leb 9 c && leb c 13)

-- `strcasecmp(s, t) == 0`.
unfoldable pub same_nocase : Bytes → Bytes → Bool
unfolding to_lower
same_nocase [] [] = true
same_nocase [] (_ ∷ _) = false
same_nocase (_ ∷ _) [] = false
same_nocase (a ∷ s) (b ∷ t) = to_lower a == to_lower b && same_nocase s t

-- What a buffer holds as a C string: the bytes before its first NUL.
unfoldable pub c_str : Bytes → Bytes
c_str [] = []
c_str (c ∷ s) = elim (c == 0) [ true ↦ [] | false ↦ c ∷ c_str s ]

abbrev pub in_set : Bytes → ℕ → Bool
in_set [] c = false
in_set (d ∷ ds) c = c == d || in_set ds c

-- The tokens that a loop over `strtok_r(s, seps, &save)` visits: the longest runs of bytes that are
-- not separators. The second argument is the token that is being read.
tokens_from : Bytes → Bytes → Bytes → List Bytes
tokens_from seps [] [] = []
tokens_from seps (c ∷ cur) [] = (c ∷ cur) ∷ []
tokens_from seps [] (c ∷ s) = tokens_from seps (if in_set seps c then [] else c ∷ []) s
tokens_from seps (d ∷ cur) (c ∷ s) = elim (in_set seps c) [
  | true ↦ (d ∷ cur) ∷ tokens_from seps [] s
  | false ↦ tokens_from seps (d ∷ (cur ++ c ∷ [])) s
]

unfoldable pub tokens : Bytes → Bytes → List Bytes
unfolding tokens_from
tokens seps s = tokens_from seps [] s

-- `strchr(s, c)`, as the texts before and behind the first `c`.
unfoldable pub split_at : ℕ → Bytes → Option (Bytes × Bytes)
split_at c [] = none
split_at c (d ∷ s) =
    let rest = split_at c s in
    if d == c then some ([], s) else elim rest [ none ↦ none | some (a, b) ↦ some (d ∷ a, b) ]
