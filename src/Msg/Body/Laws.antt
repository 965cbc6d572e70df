-- ===== src/Msg/Body/Laws.antt =====
-- `hms_msg_get_body` on a valid message, and how a body fills a message that has none.
use hermes_c.CText.Case.{same_nocase_refl}
use hermes_c.CText.Number.RoundTrip.{atoi-print_int}
use hermes_c.CText.Number.{atoi, print_int}
use hermes_c.CText.{Bytes}
use hermes_c.Msg.Body.{copy_bytes, check_length, get_body, set_body}
use hermes_c.Msg.Named.{
  Distinct, find_named-append, find_named-without, without, add_named_header_lem,
}
use hermes_c.Msg.Valid.{IsValid, BodyMatches, append-without-Distinct, added_count}
use hermes_c.Msg.{Msg, NHeader, find_named, add_named_header, content_length, create_named_header}
use hermes_c.Prelude.{
  ℕ, ◌<◌, ◌≤◌, ◌≡◌, ◌∙◌, refl, sym, ap, Option, none, some, List, [], ◌∷◌, ◌++◌, arith, length,
  take, ℤ, pos, int_min_abs, take-length, length-take, eq_ℤ_refl, le→leb, inl, inr, Option-cases,
}
use hermes_c.Process.{ok, rc_ok, assert_equals}

copy_bytes_all : (b : Bytes) → copy_bytes b (pos (length b)) ≡ ok b
unfolding copy_bytes
copy_bytes_all b = rw (le→leb (length b) (length b) (omega arith)) (rw (take-length b))

pub assert_equals_refl : (z : ℤ) → assert_equals z z ≡ ok tt
unfolding assert_equals
assert_equals_refl z = rw (eq_ℤ_refl z)

-- The Content-Length header of a message, found and equal to its length, passes the check.
pub check_length_ok :
    (m : Msg) {v : Bytes}
    → find_named content_length m.named_headers ≡ some v
    → atoi v ≡ m.content_len
    → check_length m ≡ ok tt
unfolding check_length
check_length_ok m {v} f n = ground (arith, assert_equals_refl m.content_len)

-- On a valid message `hms_msg_get_body` returns the body, and an empty one where there is none.
abbrev pub body_of : Option Bytes → ℤ × Option Bytes × ℤ
body_of none = (rc_ok, none, pos 0)
body_of (some b) = (rc_ok, some b, pos (length b))

get_body-none : (m : Msg) → m.content ≡ none → get_body m ≡ ok (rc_ok, none, pos 0)
unfolding get_body
get_body-none m empty = ground arith

get_body-some :
    (m : Msg) (b : Bytes)
    → m.content ≡ some b
    → BodyMatches (some b) m.content_len (find_named content_length m.named_headers)
    → get_body m ≡ ok (rc_ok, some b, pos (length b))
unfolding get_body
get_body-some m b full (exact, _, _, (v, found, same)) =
    ground (arith, check_length_ok m {v = v}, copy_bytes_all b)

-- On a valid message `hms_msg_get_body` passes its assertions and returns 0 with a copy of the
-- whole body and its length, or with NULL and 0 where there is no body.
pub get_body-IsValid : (m : Msg) → IsValid m → get_body m ≡ ok (body_of m.content)
get_body-IsValid m i = elim (Option-cases m.content) [
  | inl empty ↦ get_body-none m empty ∙ ap (λ c. ok (body_of c)) (sym empty)
  | inr (b, full) ↦ get_body-some m b full (rw full at i.body) ∙ ap (λ c. ok (body_of c)) (sym full)
]

-- A message with no body, filled with `b` as `hms_msg_set_body` fills it.
abbrev pub filled : Msg → Bytes → Msg
filled m b =
    add_named_header (record m { content = some b; content_len = pos (length b) }) content_length
      (print_int (pos (length b)))

find_named-added :
    (k v : Bytes) (hs : List NHeader)
    → Distinct hs
    → find_named k (without k hs ++ create_named_header k v ∷ []) ≡ some v
unfolding create_named_header
find_named-added k v hs d =
    find_named-append k (without k hs) _
    ∙ rw (find_named-without k k hs d) (rw (same_nocase_refl k))

pub filled-IsValid :
    (m : Msg) (b : Bytes) → IsValid m → 0 < length b → length b < int_min_abs → IsValid (filled m b)
filled-IsValid m b i nonempty fits = rw (add_named_header_lem _ content_length _) (record {
  counted = i.counted;
  named_counted = added_count content_length _ i;
  distinct = append-without-Distinct content_length _ m.named_headers i.distinct;
  body = (
    refl,
    nonempty,
    fits,
    (
      print_int (pos (length b)),
      find_named-added content_length _ m.named_headers i.distinct,
      atoi-print_int (pos (length b)) fits,
    ),
  );
})

-- Filling a message that has no body.
set_body_empty :
    (m : Msg) (src : Bytes) (n : ℕ)
    → m.content ≡ none
    → m.content_len ≡ pos 0
    → 0 < n
    → n ≤ length src
    → set_body m src (pos n)
      ≡ ok (
          add_named_header
            (record m { content = some (take n src); content_len = pos n })
            content_length
            (print_int (pos n)))
unfolding set_body
set_body_empty m src n e l p h = ground arith

pub set_body-filled :
    (m : Msg) (src : Bytes) (n : ℕ)
    → m.content ≡ none
    → m.content_len ≡ pos 0
    → 0 < n
    → n ≤ length src
    → set_body m src (pos n) ≡ ok (filled m (take n src))
set_body-filled m src n e l p h =
    set_body_empty m src n e l p h
    ∙ ap
        (λ k. ok (
          add_named_header (record m { content = some (take n src); content_len = pos k })
            content_length (print_int (pos k))))
        (omega (arith, length-take n src))

pub filled-content : (m : Msg) (b : Bytes) → (filled m b).content ≡ some b
filled-content m b = ap (λ x. x.content) (add_named_header_lem _ content_length _)
