-- ===== src/Msg/Body.antt =====
-- The operations of src/hms/hms_msg.c on the body. The file is read as it is compiled, with
-- HERMES_ENABLE_CHECKSUMS undefined (hermes.h undefines it).
use hermes_c.Prelude.{Option, none, some, length, take, ℤ, pos, negsuc, leb, if◌then◌else◌}
pub mod Clear
pub mod Laws
pub mod Size
pub mod Store
use hermes_c.CText.{Bytes}
use hermes_c.CText.Number.{atoi, print_int}
use hermes_c.Msg.{
  Msg, content_length, content_checksum, get_named_header, del_named_header, add_named_header,
}
use hermes_c.Process.{
  Run, ok, died, fault, ◌>>=◌, ◌>>◌, rc_ok, address, assert_equals, assert_not_equals,
}

-- `p = malloc(len); assert(p); memcpy(p, src, len)`: an allocation of a negative size, as a
-- `size_t`, fails; a copy beyond the end of `src` is undefined.
unfoldable pub copy_bytes : Bytes → ℤ → Run Bytes
copy_bytes src (pos n) = if leb n (length src) then ok (take n src) else fault
copy_bytes src (negsuc _) = died

-- `*value` is read by `atoi` and freed.
abbrev value_of : Option Bytes → Run ℤ
value_of none = fault
value_of (some v) = ok (atoi v)

unfoldable pub get_body_size : Msg → Run ℤ
unfolding get_named_header assert_equals
get_body_size msg = elim (get_named_header msg content_length).1 [
  | none ↦ assert_equals (pos 0) msg.content_len >> ok (pos 0)
  | some v ↦ assert_equals msg.content_len (atoi v) >> ok msg.content_len
]

-- The check that `hms_msg_get_body` and `hms_msg_del_body` share: the header is there, and is the
-- length.
unfoldable pub check_length : Msg → Run (Unit {0})
unfolding get_named_header assert_equals
check_length msg =
    let (ret, value) = get_named_header msg content_length in
    assert_equals (pos 0) ret >> (value_of value >>= λ len. assert_equals msg.content_len len)

-- The return code, `*data` and `*len`.
unfoldable pub get_body : Msg → Run (ℤ × Option Bytes × ℤ)
unfolding check_length copy_bytes
get_body msg = elim msg.content [
  | none ↦ ok (rc_ok, none, pos 0)
  | some bytes ↦ do
    check_length msg
    data_copy ← copy_bytes bytes msg.content_len
    ok (rc_ok, some data_copy, msg.content_len)
]

unfoldable pub del_body : Msg → Run Msg
unfolding check_length
del_body msg = elim msg.content [
  | none ↦ ok msg
  | some _ ↦ do
    check_length msg
    let without = del_named_header (del_named_header msg content_length) content_checksum
    ok (record without { content = none; content_len = pos 0 })
]

unfoldable pub set_body : Msg → Bytes → ℤ → Run Msg
unfolding del_body assert_equals assert_not_equals copy_bytes
set_body msg bytes len = do
  assert_not_equals (pos 0) len
  cleared ← del_body msg
  assert_equals (pos 0) (address cleared.content)
  assert_equals (pos 0) cleared.content_len
  data_copy ← copy_bytes bytes len
  let filled = record cleared { content = some data_copy; content_len = len }
  ok (add_named_header filled content_length (print_int len))
