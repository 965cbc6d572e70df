-- ===== src/Msg/Valid.antt =====
-- The invariant of a message that the functions of src/hms/hms_msg.c build, and that each function
-- keeps it.
use hermes_c.CText.Case.{same_nocase_refl}
use hermes_c.CText.Number.{atoi}
use hermes_c.CText.{Bytes, same_nocase}
use hermes_c.Msg.Named.{
  Distinct, find_named-append, find_named-without, without, without-Distinct, append-Distinct,
  length-decr_found, decr_found, del_named_header_lem, add_named_header_lem, or_else-none,
}
use hermes_c.Msg.{
  Msg, NHeader, UHeader, create, set_verb, add_header, out_of_bounds, del_at, del_header, del_nth,
  find_named, del_named_header, create_named_header, add_named_header, content_length, destroy,
  UHeader, destroy_headers, destroy_named_headers,
}
use hermes_c.Prelude.{
  sizes, ℕ, zero, suc, ◌+◌, ◌<◌, ◌≡◌, ◌∙◌, refl, ap, ◌⊎◌, false, Option, none, some, List, [], ◌∷◌,
  ◌++◌, arith, length, Bool-cases, Option-cases, inl, inr, ℤ, pos, negsuc, incr, decr, int_min_abs,
}
use hermes_c.Process.{ok, rc_ok}

-- The body fits its length and its header. A message with no body has length 0, and may hold a
-- Content-Length while it is being parsed.
abbrev pub BodyMatches : Option Bytes → ℤ → Option Bytes → Type 0
BodyMatches none len header = len ≡ pos 0
BodyMatches (some bytes) len header =
    (len ≡ pos (length bytes))
    × (0 < length bytes)
    × (length bytes < int_min_abs)
    × ((v : Bytes) × (header ≡ some v) × (atoi v ≡ len))

pub record IsValid (m : Msg) : Type 0 where
  pub counted : m.num_headers ≡ pos (length m.headers)
  pub named_counted : m.num_named_headers ≡ pos (length m.named_headers)
  pub distinct : Distinct m.named_headers
  pub body : BodyMatches m.content m.content_len (find_named content_length m.named_headers)

pub create-IsValid : IsValid create
unfolding create
create-IsValid = record { counted = refl; named_counted = refl; distinct = tt; body = refl }

pub set_verb-IsValid : {m : Msg} (v : Bytes) → IsValid m → IsValid (set_verb m v)
unfolding set_verb
set_verb-IsValid v i = record {
  counted = i.counted;
  named_counted = i.named_counted;
  distinct = i.distinct;
  body = i.body;
}

pub add_header-IsValid : {m : Msg} (v : Bytes) → IsValid m → IsValid (add_header m v)
unfolding add_header
add_header-IsValid {m} v i = record {
  counted = rw i.counted (ap pos (grind sizes));
  named_counted = i.named_counted;
  distinct = i.distinct;
  body = i.body;
}

length-del_nth :
    (n : ℕ) (hs : List UHeader) {r : List UHeader}
    → del_nth n hs ≡ some r
    → length hs ≡ length r + 1
unfolding del_nth
length-del_nth n [] e = cc
length-del_nth zero (h ∷ hs) e = ground arith
length-del_nth (suc n) (h ∷ hs) {r} e = elim (Option-cases (del_nth n hs)) [
  | inl gone ↦ ground arith
  | inr (q, found) ↦ ground (arith, length-del_nth n hs found)
]

length-del_at :
    (index : ℤ) (hs : List UHeader) {r : List UHeader}
    → del_at index hs ≡ some r
    → length hs ≡ length r + 1
length-del_at (pos n) hs e = length-del_nth n hs e
length-del_at (negsuc n) hs e = cc

shrink-IsValid :
    {m : Msg} {r : List UHeader}
    → IsValid m
    → length m.headers ≡ length r + 1
    → IsValid (record m { headers = r; num_headers = decr m.num_headers })
shrink-IsValid i e = record {
  counted = ground (arith, i.counted);
  named_counted = i.named_counted;
  distinct = i.distinct;
  body = i.body;
}

-- Deleting an unnamed header of a valid message leaves it valid, at every index.
pub del_header-IsValid : {m : Msg} (index : ℤ) → IsValid m → IsValid (del_header m index).1
unfolding del_header
del_header-IsValid {m} index i = elim (Bool-cases (out_of_bounds m.num_headers index)) [
  | inl out ↦ rw out i
  | inr inside ↦ rw inside (elim (Option-cases (del_at index m.headers)) [
    | inl gone ↦ rw gone i
    | inr (r, found) ↦ rw found (shrink-IsValid i (length-del_at index m.headers found))
  ])
]

BodyMatches-header :
    (c : Option Bytes) (len : ℤ) (h h' : Option Bytes)
    → BodyMatches c len h
    → (c ≡ none) ⊎ (h' ≡ h)
    → BodyMatches c len h'
BodyMatches-header none len h h' b e = b
BodyMatches-header (some bytes) len h h' b (inl e) = cc
BodyMatches-header (some bytes) len h h' (a, p, l, (v, f, n)) (inr e) = (a, p, l, (v, e ∙ f, n))

-- A change of the named headers keeps the invariant where the new chain is counted and distinct,
-- and the body's header stays if there is a body.
pub with_named-IsValid :
    {m : Msg} (hs : List NHeader) (n : ℤ)
    → IsValid m
    → n ≡ pos (length hs)
    → Distinct hs
    → (m.content ≡ none)
      ⊎ (find_named content_length hs ≡ find_named content_length m.named_headers)
    → IsValid (record m { named_headers = hs; num_named_headers = n })
with_named-IsValid {m} hs n i c d b = record {
  counted = i.counted;
  named_counted = c;
  distinct = d;
  body = BodyMatches-header m.content m.content_len _ _ i.body b;
}

-- A key other than Content-Length, or any key where there is no body.
abbrev pub IsFree : Msg → Bytes → Type 0
IsFree m k = (m.content ≡ none) ⊎ (same_nocase k content_length ≡ false)

keeps_length :
    {m : Msg} (k : Bytes)
    → IsValid m
    → IsFree m k
    → (m.content ≡ none)
      ⊎ (find_named content_length (without k m.named_headers)
          ≡ find_named content_length m.named_headers)
keeps_length {m} k i (inl e) = inl e
keeps_length {m} k i (inr e) =
    inr (find_named-without k content_length m.named_headers i.distinct ∙ rw e)

-- Deleting a named header of a valid message leaves it valid, when the key is not Content-Length or
-- there is no body.
pub del_named_header-IsValid :
    {m : Msg} (k : Bytes) → IsValid m → IsFree m k → IsValid (del_named_header m k)
del_named_header-IsValid {m} k i free = rw (del_named_header_lem m k) (
    with_named-IsValid (without k m.named_headers) _ i
      (rw i.named_counted (length-decr_found k m.named_headers))
      (without-Distinct k m.named_headers i.distinct) (keeps_length k i free))

added-keeps_length :
    {m : Msg} (k v : Bytes)
    → IsValid m
    → IsFree m k
    → (m.content ≡ none)
      ⊎ (find_named content_length (without k m.named_headers ++ create_named_header k v ∷ [])
          ≡ find_named content_length m.named_headers)
unfolding create_named_header
added-keeps_length {m} k v i (inl e) = inl e
added-keeps_length {m} k v i (inr e) = inr (
    find_named-append content_length (without k m.named_headers) _
    ∙ rw (find_named-without k content_length m.named_headers i.distinct)
        (rw e (or_else-none (find_named content_length m.named_headers))))

pub append-without-Distinct :
    (k v : Bytes) (hs : List NHeader)
    → Distinct hs
    → Distinct (without k hs ++ create_named_header k v ∷ [])
unfolding create_named_header
append-without-Distinct k v hs d =
    append-Distinct (without k hs) _ (without-Distinct k hs d)
      (find_named-without k k hs d ∙ rw (same_nocase_refl k))

pub added_count :
    {m : Msg} (k : Bytes) (h : NHeader)
    → IsValid m
    → incr (decr_found (find_named k m.named_headers) m.num_named_headers)
      ≡ pos (length (without k m.named_headers ++ h ∷ []))
added_count {m} k h i =
    rw (i.named_counted, length-decr_found k m.named_headers) (ap pos (grind sizes))

-- Adding a named header to a valid message, in place of one of the same key if there is one, leaves
-- it valid, when the key is not Content-Length or there is no body.
pub add_named_header-IsValid :
    {m : Msg} (k v : Bytes) → IsValid m → IsFree m k → IsValid (add_named_header m k v)
add_named_header-IsValid {m} k v i free = rw (add_named_header_lem m k v) (
    with_named-IsValid (without k m.named_headers ++ create_named_header k v ∷ []) _ i
      (added_count k (create_named_header k v) i)
      (append-without-Distinct k v m.named_headers i.distinct) (added-keeps_length k v i free))

destroy_headers-length : (hs : List UHeader) → destroy_headers hs (pos (length hs)) ≡ ok (pos 0)
unfolding destroy_headers
destroy_headers-length [] = refl
destroy_headers-length (h ∷ hs) = destroy_headers-length hs

destroy_named_headers-length :
    (hs : List NHeader) → destroy_named_headers hs (pos (length hs)) ≡ ok (pos 0)
unfolding destroy_named_headers
destroy_named_headers-length [] = refl
destroy_named_headers-length (h ∷ hs) = destroy_named_headers-length hs

-- Destroying a valid message passes both of the counter assertions.
pub destroy-IsValid : (m : Msg) → IsValid m → destroy m ≡ ok rc_ok
unfolding destroy
destroy-IsValid m i = rw i.counted (
    rw (destroy_headers-length m.headers)
      (rw i.named_counted (rw (destroy_named_headers-length m.named_headers) refl)))

pub content_len_zero : {m : Msg} → IsValid m → m.content ≡ none → m.content_len ≡ pos 0
content_len_zero i e = rw e at i.body
