-- ===== src/Msg/Print.antt =====
-- `hms_msg_get_header_size` and `hms_msg_print_header` of src/hms/hms_msg.c. The buffer is the list
-- of the bytes written so far. `strncpy` with the length of its source copies exactly its bytes.
pub mod Laws
use hermes_c.CText.{Bytes, codes}
use hermes_c.Msg.{Msg, UHeader, NHeader}
use hermes_c.Prelude.{ℕ, ◌+◌, Option, none, some, List, [], ◌∷◌, ◌++◌, length, ℤ, pos, to_int}
use hermes_c.Process.{Run, ok, ◌>>=◌, ◌>>◌, rc_ok, assert_equals}

-- The loops of `hms_msg_get_header_size`.
unfoldable pub uheader_sizes : ℕ → List UHeader → ℕ
uheader_sizes size [] = size
uheader_sizes size (h ∷ hs) = uheader_sizes (size + (1 + length h.val)) hs

unfoldable pub nheader_sizes : ℕ → List NHeader → ℕ
nheader_sizes size [] = size
nheader_sizes size (h ∷ hs) = nheader_sizes (size + (length h.key + 1 + length h.val + 1)) hs

-- The sum is an `int`: its low 32 bits are kept, here once at the end.
unfoldable pub get_header_size : Msg → ℤ
unfolding uheader_sizes nheader_sizes
get_header_size msg = elim msg.verb [
  | none ↦ pos 0
  | some verb ↦
      let named = nheader_sizes (uheader_sizes (length verb) msg.headers + 1) msg.named_headers in
      to_int (pos (named + 2))
]

-- The loops of `hms_msg_print_header`.
unfoldable pub print_uheaders : Bytes → List UHeader → Bytes
print_uheaders out [] = out
print_uheaders out (h ∷ hs) = print_uheaders ((out ++ codes " ") ++ h.val) hs

unfoldable pub print_nheaders : Bytes → List NHeader → Bytes
print_nheaders out [] = out
print_nheaders out (h ∷ hs) =
    print_nheaders ((((out ++ h.key) ++ codes ":") ++ h.val) ++ codes "\n") hs

-- What is written before the assertion at the end.
unfoldable pub print_all : Msg → Bytes
unfolding print_uheaders print_nheaders
print_all msg =
    let start : Bytes = elim msg.verb [ none ↦ [] | some verb ↦ verb ] in
    let line = print_uheaders start msg.headers ++ codes "\n" in
    print_nheaders line msg.named_headers ++ codes ".\n"

-- The return code and the buffer; `len` is not read.
unfoldable pub print_header : Msg → ℤ → Run (ℤ × Bytes)
unfolding assert_equals
print_header msg len = do
  assert_equals (get_header_size msg) (to_int (pos (length (print_all msg))))
  ok (rc_ok, print_all msg)
