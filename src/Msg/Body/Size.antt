-- ===== src/Msg/Body/Size.antt =====
-- `hms_msg_get_body_size` of src/hms/hms_msg.c on a valid message.
use hermes_c.CText.Number.{atoi}
use hermes_c.CText.{Bytes}
use hermes_c.Msg.Body.Store.{get_body_size-some}
use hermes_c.Msg.Body.{get_body_size}
use hermes_c.Msg.Valid.{IsValid, content_len_zero}
use hermes_c.Msg.{Msg, content_length, find_named}
use hermes_c.Prelude.{
  ◌≡◌, ◌∙◌, ap, Option, none, some, arith, length, ℤ, pos, eq_ℤ, if◌then◌else◌, refl,
}
use hermes_c.Process.{Run, ok, died}

-- The size by the body, and where there is none, what a Content-Length that was added leads to.
abbrev pub size_of : Option Bytes → Option Bytes → Run ℤ
size_of (some b) header = ok (pos (length b))
size_of none none = ok (pos 0)
size_of none (some v) = if eq_ℤ (atoi v) (pos 0) then ok (pos 0) else died

get_body_size-header :
    (m : Msg) (h : Option Bytes)
    → m.content_len ≡ pos 0
    → find_named content_length m.named_headers ≡ h
    → get_body_size m ≡ size_of none h
unfolding get_body_size
get_body_size-header m none e f = ground arith
get_body_size-header m (some v) e f = ground arith

get_body_size-content :
    (m : Msg) (c : Option Bytes)
    → m.content ≡ c
    → IsValid m
    → get_body_size m ≡ size_of c (find_named content_length m.named_headers)
get_body_size-content m none e i =
    get_body_size-header m (find_named content_length m.named_headers) (content_len_zero i e) refl
get_body_size-content m (some b) e i =
    let (exact, _, _, (v, found, same)) = rw e at i.body in
    get_body_size-some m {v = v} found same ∙ ap ok exact

-- On a valid message `hms_msg_get_body_size` returns the length of the body, and 0 where there is
-- neither a body nor a Content-Length. Where there is no body, but a Content-Length was added, it
-- returns 0 if that reads as 0, and ends the process otherwise.
pub get_body_size_lem :
    (m : Msg)
    → IsValid m
    → get_body_size m ≡ size_of m.content (find_named content_length m.named_headers)
get_body_size_lem m i = get_body_size-content m m.content refl i
