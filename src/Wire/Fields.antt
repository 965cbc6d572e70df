-- ===== src/Wire/Fields.antt =====
-- `__hms_parse_header` on the named headers: it appends them in order, and takes the body length
-- from the Content-Length.
use mathlib.Core.Option.{some-injective}
use hermes_c.CText.Case.{same_nocase_sym}
use hermes_c.CText.Number.{strtol}
use hermes_c.CText.{Bytes, same_nocase}
use hermes_c.Msg.Named.{Distinct, find_named-same, without-none, add_named_header_lem}
use hermes_c.Msg.{Msg, NHeader, add_named_header, content_length, create_named_header, find_named}
use hermes_c.Parser.{store_named, after_line, line_loop}
use hermes_c.Prelude.{
  ℕ, suc, ◌≡◌, ◌∙◌, refl, sym, ap, false, ◌&&◌, none, some, List, [], ◌∷◌, ◌++◌, arith, All,
  append_assoc, append-nil, if◌then◌else◌, ℤ, pos, to_int, eq_ℤ, Bool-cases, inl, inr,
}
use hermes_c.Process.{rc_ok}
use hermes_c.Wire.Lines.{map_line, parse_named_header-line_of}
use hermes_c.Wire.{IsField}

-- The messages and the lengths behind each header.
abbrev pub add_fields : Msg → List NHeader → Msg
add_fields m [] = m
add_fields m (h ∷ hs) = add_fields (add_named_header m h.key h.val) hs

abbrev pub next_length : ℤ → NHeader → ℤ
next_length n h = if same_nocase h.key content_length then to_int (strtol h.val) else n

abbrev pub last_length : ℤ → List NHeader → ℤ
last_length n [] = n
last_length n (h ∷ hs) = last_length (next_length n h) hs

-- A Content-Length is a number other than 0.
abbrev pub HasLength : NHeader → Type 0
HasLength h = (same_nocase h.key content_length && eq_ℤ (to_int (strtol h.val)) (pos 0)) ≡ false

store_named-HasLength :
    (m : Msg) (h : NHeader) (n : ℤ)
    → HasLength h
    → store_named m h.key h.val n ≡ (rc_ok, add_named_header m h.key h.val, next_length n h)
unfolding store_named
store_named-HasLength m h n e = elim (Bool-cases (same_nocase h.key content_length)) [
  | inl same ↦ rw same (rw (rw same at e))
  | inr other ↦ rw other
]

pub line_loop-fields :
    (hs : List NHeader) (c : ℕ) (m : Msg) (n : ℤ)
    → All IsField hs
    → All HasLength hs
    → line_loop (suc c) m n (map_line hs) ≡ (rc_ok, add_fields m hs, last_length n hs)
unfolding line_loop after_line
line_loop-fields [] c m n f l = refl
line_loop-fields (h ∷ hs) c m n (f, fs) (l, ls) = rw (parse_named_header-line_of m h n f) (
    rw (store_named-HasLength m h n l)
      (line_loop-fields hs (suc c) (add_named_header m h.key h.val) (next_length n h) fs ls))

-- In a chain of distinct keys no key stands before its entry.
Distinct-differs :
    (k : Bytes) (xs : List NHeader) (h : NHeader) (ys : List NHeader)
    → find_named k (xs ++ h ∷ ys) ≡ none
    → same_nocase h.key k ≡ false
unfolding find_named
Distinct-differs k [] h ys e = ground arith
Distinct-differs k (x ∷ xs) h ys e = ground (arith, Distinct-differs k xs h ys)

Distinct-new :
    (xs : List NHeader) (h : NHeader) (ys : List NHeader)
    → Distinct (xs ++ h ∷ ys)
    → find_named h.key xs ≡ none
unfolding find_named
Distinct-new [] h ys d = refl
Distinct-new (x ∷ xs) h ys (new, d) =
    ground (
      arith,
      Distinct-new xs h ys d,
      Distinct-differs x.key xs h ys new,
      same_nocase_sym h.key x.key,
    )

named_headers-added :
    (m : Msg) (h : NHeader)
    → find_named h.key m.named_headers ≡ none
    → (add_named_header m h.key h.val).named_headers ≡ m.named_headers ++ h ∷ []
unfolding create_named_header
named_headers-added m h new =
    ap (λ x. x.named_headers) (add_named_header_lem m h.key h.val)
    ∙ ap (λ x. x ++ h ∷ []) (without-none h.key m.named_headers new)

-- Adding distinct headers appends them.
pub named_headers-add_fields :
    (hs : List NHeader) (m : Msg)
    → Distinct (m.named_headers ++ hs)
    → (add_fields m hs).named_headers ≡ m.named_headers ++ hs
named_headers-add_fields [] m d = sym (append-nil m.named_headers)
named_headers-add_fields (h ∷ hs) m d =
    let added = named_headers-added m h (Distinct-new m.named_headers h hs d) in
    named_headers-add_fields hs (add_named_header m h.key h.val)
      (rw added (rw (append_assoc m.named_headers (h ∷ []) hs) d))
    ∙ ap (λ x. x ++ hs) added
    ∙ append_assoc m.named_headers (h ∷ []) hs

pub last_length-none :
    (hs : List NHeader) (n : ℤ) → find_named content_length hs ≡ none → last_length n hs ≡ n
unfolding find_named
last_length-none [] n e = refl
last_length-none (h ∷ hs) n e = ground (arith, last_length-none hs n)

-- Where the keys are distinct the body length is that of the one Content-Length.
pub last_length-some :
    (hs : List NHeader) (n : ℤ) {v : Bytes}
    → Distinct hs
    → find_named content_length hs ≡ some v
    → last_length n hs ≡ to_int (strtol v)
unfolding find_named
last_length-some [] n d e = cc
last_length-some (h ∷ hs) n {v} (new, d) e = elim (Bool-cases (same_nocase h.key content_length)) [
  | inl same ↦ ground (
    arith,
    find_named-same h.key content_length hs same,
    last_length-none hs (to_int (strtol h.val)),
  )
  | inr other ↦ ground (arith, last_length-some hs n {v = v} d)
]

pub HasLength-none : (hs : List NHeader) → find_named content_length hs ≡ none → All HasLength hs
unfolding find_named
HasLength-none [] e = tt
HasLength-none (h ∷ hs) e = (ground arith, HasLength-none hs (ground arith))

pub HasLength-some :
    (hs : List NHeader) {v : Bytes}
    → Distinct hs
    → find_named content_length hs ≡ some v
    → eq_ℤ (to_int (strtol v)) (pos 0) ≡ false
    → All HasLength hs
unfolding find_named
HasLength-some [] d e l = tt
HasLength-some (h ∷ hs) {v} (new, d) e l = elim (Bool-cases (same_nocase h.key content_length)) [
  | inl same ↦
      let value : h.val ≡ v = some-injective _ _ (rw same at e) in
      (
        rw same (ap (λ x. eq_ℤ (to_int (strtol x)) (pos 0)) value ∙ l),
        HasLength-none hs (ground (arith, find_named-same h.key content_length hs same)),
      )
  | inr other ↦ (rw other refl, HasLength-some hs {v = v} d (ground arith) l)
]
