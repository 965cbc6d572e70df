-- ===== src/Msg/Print/Laws.antt =====
-- The text of a message, and that the printer writes it into a buffer of exactly the size that is
-- computed for it.
use hermes_c.CText.{Bytes, codes}
use hermes_c.Msg.Print.{
  uheader_sizes, nheader_sizes, get_header_size, print_uheaders, print_nheaders, print_all,
  print_header,
}
use hermes_c.Msg.{Msg, UHeader, NHeader}
use hermes_c.Prelude.{
  list_laws, Option, none, ℕ, ◌+◌, ◌≡◌, ◌∙◌, sym, ap, some, List, [], ◌∷◌, ◌++◌, arith, length, ℤ,
  pos, to_int, length-append, append_assoc, append-nil, eq_ℤ_refl,
}
use hermes_c.Process.{ok, rc_ok, assert_equals}

-- The words behind the verb, and the lines of the named headers.
abbrev pub words : List UHeader → Bytes
words [] = []
words (h ∷ hs) = b' ' ∷ (h.val ++ words hs)

abbrev pub lines : List NHeader → Bytes
lines [] = []
lines (h ∷ hs) = h.key ++ (b':' ∷ (h.val ++ (b'\n' ∷ lines hs)))

-- The text of a message as the README describes it.
abbrev pub wire : Bytes → List UHeader → List NHeader → Bytes
wire verb us ns = verb ++ (words us ++ (b'\n' ∷ (lines ns ++ (b'.' ∷ b'\n' ∷ []))))

-- The bytes of a body.
abbrev pub body_bytes : Option Bytes → Bytes
body_bytes none = []
body_bytes (some b) = b

print_uheaders-words : (out : Bytes) (hs : List UHeader) → print_uheaders out hs ≡ out ++ words hs
unfolding print_uheaders
print_uheaders-words out [] = sym (append-nil out)
print_uheaders-words out (h ∷ hs) =
    print_uheaders-words ((out ++ codes " ") ++ h.val) hs ∙ simp list_laws

print_nheaders-lines : (out : Bytes) (hs : List NHeader) → print_nheaders out hs ≡ out ++ lines hs
unfolding print_nheaders
print_nheaders-lines out [] = sym (append-nil out)
print_nheaders-lines out (h ∷ hs) =
    print_nheaders-lines ((((out ++ h.key) ++ codes ":") ++ h.val) ++ codes "\n") hs
    ∙ simp list_laws

uheader_sizes-words : (n : ℕ) (hs : List UHeader) → uheader_sizes n hs ≡ n + length (words hs)
unfolding uheader_sizes
uheader_sizes-words n [] = omega arith
uheader_sizes-words n (h ∷ hs) =
    omega (arith, uheader_sizes-words (n + (1 + length h.val)) hs, length-append h.val (words hs))

nheader_sizes-lines : (n : ℕ) (hs : List NHeader) → nheader_sizes n hs ≡ n + length (lines hs)
unfolding nheader_sizes
nheader_sizes-lines n [] = omega arith
nheader_sizes-lines n (h ∷ hs) = omega (
  arith,
  nheader_sizes-lines (n + (length h.key + 1 + length h.val + 1)) hs,
  length-append h.key (b':' ∷ (h.val ++ (b'\n' ∷ lines hs))),
  length-append h.val (b'\n' ∷ lines hs),
)

pub length-wire :
    (v : Bytes) (us : List UHeader) (ns : List NHeader)
    → length (wire v us ns) ≡ length v + length (words us) + length (lines ns) + 3
length-wire v us ns = omega (
  arith,
  length-append v (words us ++ (b'\n' ∷ (lines ns ++ (b'.' ∷ b'\n' ∷ [])))),
  length-append (words us) (b'\n' ∷ (lines ns ++ (b'.' ∷ b'\n' ∷ []))),
  length-append (lines ns) (b'.' ∷ b'\n' ∷ []),
)

print_all-wire :
    (m : Msg) {v : Bytes} → m.verb ≡ some v → print_all m ≡ wire v m.headers m.named_headers
unfolding print_all
print_all-wire m {v} e = rw e (simp (print_uheaders-words, print_nheaders-lines, append_assoc))

-- The computed size is the length of the text, as an `int`.
get_header_size-wire :
    (m : Msg) {v : Bytes}
    → m.verb ≡ some v
    → get_header_size m ≡ to_int (pos (length (wire v m.headers m.named_headers)))
unfolding get_header_size
get_header_size-wire m {v} e = rw e (
    ap (λ n. to_int (pos n))
      (omega (
        arith,
        length-wire v m.headers m.named_headers,
        uheader_sizes-words (length v) m.headers,
        nheader_sizes-lines (uheader_sizes (length v) m.headers + 1) m.named_headers,
      )))

assert_equals_same : (z : ℤ) → assert_equals z z ≡ ok tt
unfolding assert_equals
assert_equals_same z = rw (eq_ℤ_refl z)

-- A message with a verb is printed to the text of its verb line, its named headers and the line of
-- the period, whatever `len` is, and the computed size is the length of that text, as an `int`.
pub print_header-wire :
    (m : Msg) (len : ℤ) {v : Bytes}
    → m.verb ≡ some v
    → (print_header m len ≡ ok (rc_ok, wire v m.headers m.named_headers))
      × (get_header_size m ≡ to_int (pos (length (wire v m.headers m.named_headers))))
unfolding print_header
print_header-wire m len {v} e = (
  rw (get_header_size-wire m e, print_all-wire m e) (rw (assert_equals_same _)),
  get_header_size-wire m e,
)
