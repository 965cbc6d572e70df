-- ===== src/Msg/Body/Store.antt =====
-- `hms_msg_set_body` of src/hms/hms_msg.c on a valid message, and what is read back.
use hermes_c.CText.Number.{atoi}
use hermes_c.CText.{Bytes}
use hermes_c.Msg.Body.{get_body, get_body_size, del_body, set_body}
use hermes_c.Msg.Named.{add_named_header_lem}
use hermes_c.Msg.Valid.{IsValid}
use hermes_c.Msg.{Msg, find_named, content_length}
use hermes_c.Prelude.{
  ℕ, ◌<◌, ◌≤◌, ◌≡◌, ◌∙◌, ap, some, arith, length, take, ℤ, pos, int_min_abs, length-take,
}
use hermes_c.Process.{ok, rc_ok}
use hermes_c.Msg.Body.Laws.{
  assert_equals_refl, body_of, get_body-IsValid, filled, filled-IsValid, filled-content,
  set_body-filled,
}
use hermes_c.Msg.Body.Clear.{del_body_lem, del_body-none}

set_body-del_body :
    (m c : Msg) (src : Bytes) (len : ℤ)
    → del_body m ≡ ok c
    → del_body c ≡ ok c
    → set_body m src len ≡ set_body c src len
unfolding set_body
set_body-del_body m c src len e f = rw (e, f)

-- What the body operations see of a message with body `b`.
pub record HoldsBody (m : Msg) (b : Bytes) : Type 0 where
  pub valid : IsValid m
  pub read : get_body m ≡ ok (rc_ok, some b, pos (length b))
  pub size : get_body_size m ≡ ok (pos (length b))

pub get_body_size-some :
    (m : Msg) {v : Bytes}
    → find_named content_length m.named_headers ≡ some v
    → atoi v ≡ m.content_len
    → get_body_size m ≡ ok m.content_len
unfolding get_body_size
get_body_size-some m {v} f e = ground (arith, assert_equals_refl m.content_len)

pub filled-HoldsBody :
    (m : Msg) (b : Bytes)
    → IsValid m
    → 0 < length b
    → length b < int_min_abs
    → HoldsBody (filled m b) b
filled-HoldsBody m b i p l =
    let valid = filled-IsValid m b i p l in
    let (exact, _, _, (v, found, same)) = rw (filled-content m b) at valid.body in
    record {
      valid = valid;
      read = get_body-IsValid (filled m b) valid ∙ ap (λ c. ok (body_of c)) (filled-content m b);
      size = get_body_size-some (filled m b) {v = v} found same ∙ ap ok exact;
    }

-- For a positive length that is an `int` and that the bytes reach, `hms_msg_set_body` on a valid
-- message passes its assertions, whatever body the message had. What it stores is read back, with
-- its size, and the result is valid; the verb and the unnamed headers stay.
pub set_body_lem :
    (m : Msg) (src : Bytes) (n : ℕ)
    → IsValid m
    → 0 < n
    → n ≤ length src
    → n < int_min_abs
    → (r : Msg) × (set_body m src (pos n) ≡ ok r)
      × HoldsBody r (take n src)
      × (r.verb ≡ m.verb)
      × (r.headers ≡ m.headers)
set_body_lem m src n i p h l =
    let (c, e, k) = del_body_lem m i in
    let size : length (take n src) ≡ n = omega (arith, length-take n src) in
    (
      filled c (take n src),
      set_body-del_body m c src (pos n) e (del_body-none c k.content_none)
          ∙ set_body-filled c src n k.content_none k.content_len_zero p h,
      filled-HoldsBody c (take n src) k.valid (omega arith) (omega arith),
      ap (λ x. x.verb) (add_named_header_lem _ content_length _) ∙ k.same_verb,
      ap (λ x. x.headers) (add_named_header_lem _ content_length _) ∙ k.same_headers,
    )
