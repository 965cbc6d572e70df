-- ===== src/Msg/Headers.antt =====
-- The unnamed headers of a valid message are a list that is indexed from 0, and the named ones a
-- map: what the getters return after each change.
use hermes_c.CText.{Bytes, same_nocase}
use hermes_c.Msg.Named.{
  Distinct, find_named-append, find_named-without, without, add_named_header_lem,
  del_named_header_lem, or_else, or_else-none,
}
use hermes_c.Msg.Valid.{IsValid, del_header-IsValid, add_header-IsValid}
use hermes_c.Msg.{
  Msg, UHeader, get_header, nth_header, del_header, del_nth, add_header, create_header,
  get_named_header, find_named, create_named_header, add_named_header, del_named_header,
}
use hermes_c.Prelude.{
  ℕ, zero, suc, ◌<◌, ◌≤◌, ◌≡◌, ◌∙◌, refl, sym, ap, ◌==◌, decr, Option, none, some, List, [], ◌∷◌,
  ◌++◌, arith, length, get_elem?, ltb, if◌then◌else◌, ℤ, pos, negsuc, Bool-cases, inl, inr,
}
use hermes_c.Process.{ok, rc_ok, rc_err}

-- The result of a getter: -1 and NULL, or 0 and the value.
abbrev pub header_result : Option UHeader → ℤ × Option Bytes
header_result none = (rc_err, none)
header_result (some h) = (rc_ok, some h.val)

abbrev pub value_result : Option Bytes → ℤ × Option Bytes
value_result none = (rc_err, none)
value_result (some v) = (rc_ok, some v)

-- The entry at a C index.
abbrev pub entry_at : List UHeader → ℤ → Option UHeader
entry_at hs (pos i) = get_elem? hs i
entry_at hs (negsuc _) = none

nth_header_inside :
    (i : ℕ) (hs : List UHeader)
    → i < length hs
    → (h : UHeader) × (get_elem? hs i ≡ some h) × (nth_header i hs ≡ ok h.val)
unfolding nth_header
nth_header_inside i [] l = absurd (omega arith)
nth_header_inside zero (h ∷ hs) l = (h, refl, refl)
nth_header_inside (suc i) (h ∷ hs) l = nth_header_inside i hs (omega arith)

get_elem?-outside : (hs : List UHeader) (i : ℕ) → length hs ≤ i → get_elem? hs i ≡ none
get_elem?-outside [] i l = refl
get_elem?-outside (h ∷ hs) zero l = absurd (omega arith)
get_elem?-outside (h ∷ hs) (suc i) l = get_elem?-outside hs i (omega arith)

-- On a valid message `hms_msg_get_header` never runs off the chain: it returns the entry at the
-- index, and -1 with NULL at every index where there is none, a negative one included.
pub get_header_lem :
    (m : Msg) (index : ℤ)
    → IsValid m
    → get_header m index ≡ ok (header_result (entry_at m.headers index))
unfolding get_header
get_header_lem m (negsuc n) i = ground (arith, i.counted)
get_header_lem m (pos n) i = elim (Bool-cases (ltb n (length m.headers))) [
  | inl inside ↦
      let (h, found, walked) = nth_header_inside n m.headers (ground arith) in
      ground (arith, i.counted)
  | inr outside ↦ ground (arith, i.counted, get_elem?-outside m.headers n)
]

-- The list without its entry `i`.
abbrev pub remove_nth : ℕ → List UHeader → List UHeader
remove_nth i [] = []
remove_nth zero (h ∷ hs) = hs
remove_nth (suc i) (h ∷ hs) = h ∷ remove_nth i hs

del_nth-remove_nth :
    (i : ℕ) (hs : List UHeader) → i < length hs → del_nth i hs ≡ some (remove_nth i hs)
unfolding del_nth
del_nth-remove_nth i [] l = absurd (omega arith)
del_nth-remove_nth zero (h ∷ hs) l = refl
del_nth-remove_nth (suc i) (h ∷ hs) l = ground (arith, del_nth-remove_nth i hs)

abbrev pub shifted : ℕ → ℕ → ℕ
shifted i j = if ltb j i then j else suc j

get_elem?-remove_nth :
    (i j : ℕ) (hs : List UHeader) → get_elem? (remove_nth i hs) j ≡ get_elem? hs (shifted i j)
get_elem?-remove_nth i j [] = refl
get_elem?-remove_nth zero j (h ∷ hs) = ground arith
get_elem?-remove_nth (suc i) zero (h ∷ hs) = ground arith
get_elem?-remove_nth (suc i) (suc j) (h ∷ hs) = ground (arith, get_elem?-remove_nth i j hs)

del_header_inside :
    (m : Msg) (i : ℕ)
    → IsValid m
    → i < length m.headers
    → del_header m (pos i)
      ≡ (rc_ok, record m { headers = remove_nth i m.headers; num_headers = decr m.num_headers })
unfolding del_header
del_header_inside m i v l = ground (arith, v.counted, del_nth-remove_nth i m.headers l)

-- An index behind the last header is refused: -1, and nothing changes.
pub del_header_outside :
    (m : Msg) (i : ℕ) → IsValid m → length m.headers ≤ i → del_header m (pos i) ≡ (rc_err, m)
unfolding del_header
del_header_outside m i v l = ground (arith, v.counted)

-- Deleting header `i` of a valid message shifts the later ones down by one and keeps the others.
pub get_header-del_header :
    (m : Msg) (i j : ℕ)
    → IsValid m
    → i < length m.headers
    → ((del_header m (pos i)).0 ≡ rc_ok)
      × (get_header (del_header m (pos i)).1 (pos j) ≡ get_header m (pos (shifted i j)))
get_header-del_header m i j v l =
    let e = del_header_inside m i v l in
    (
      ap (λ r. r.0) e,
      get_header_lem _ (pos j) (del_header-IsValid (pos i) v)
          ∙ ap (λ r. ok (header_result (get_elem? r.1.headers j))) e
          ∙ ap (λ o. ok (header_result o)) (get_elem?-remove_nth i j m.headers)
          ∙ sym (get_header_lem m (pos (shifted i j)) v),
    )

get_elem?-snoc :
    (hs : List UHeader) (h : UHeader) (j : ℕ)
    → get_elem? (hs ++ h ∷ []) j ≡ (if j == length hs then some h else get_elem? hs j)
get_elem?-snoc [] h zero = refl
get_elem?-snoc [] h (suc j) = ground arith
get_elem?-snoc (x ∷ hs) h zero = ground arith
get_elem?-snoc (x ∷ hs) h (suc j) = ground (arith, get_elem?-snoc hs h j)

-- A header that is added to a valid message stands behind the others, which keep their indices.
pub get_header-add_header :
    (m : Msg) (value : Bytes) (j : ℕ)
    → IsValid m
    → get_header (add_header m value) (pos j)
      ≡ (if j == length m.headers then ok (rc_ok, some value) else get_header m (pos j))
get_header-add_header m value j v = get_header_lem _ (pos j) (add_header-IsValid value v) ∙ added
  where
    added :
        ok (header_result (entry_at (add_header m value).headers (pos j)))
        ≡ (if j == length m.headers then ok (rc_ok, some value) else get_header m (pos j))
    added =
        unfold add_header create_header in
        ground (arith, get_header_lem m (pos j) v, get_elem?-snoc m.headers (create_header value) j)

pub get_named_header-value_result :
    (m : Msg) (k : Bytes) → get_named_header m k ≡ value_result (find_named k m.named_headers)
unfolding get_named_header
get_named_header-value_result m k = ground arith

pub find_named-add_named_header :
    (m : Msg) (k v j : Bytes)
    → Distinct m.named_headers
    → find_named j (add_named_header m k v).named_headers
      ≡ (if same_nocase k j then some v else find_named j m.named_headers)
find_named-add_named_header m k v j d =
    ap (λ x. find_named j x.named_headers) (add_named_header_lem m k v)
    ∙ find_named-append j (without k m.named_headers) (create_named_header k v)
    ∙ set_or_kept
  where
    set_or_kept :
        or_else (find_named j (without k m.named_headers)) (
          if same_nocase (create_named_header k v).key j
          then some (create_named_header k v).val
          else none)
        ≡ (if same_nocase k j then some v else find_named j m.named_headers)
    set_or_kept =
        unfold create_named_header in
        ground (
          arith,
          find_named-without k j m.named_headers d,
          or_else-none (find_named j m.named_headers),
        )

-- Adding a named header to a valid message sets its key, up to the case of letters, and no other.
pub get_named_header-add_named_header :
    (m : Msg) (k v j : Bytes)
    → IsValid m
    → get_named_header (add_named_header m k v) j
      ≡ (if same_nocase k j then (rc_ok, some v) else get_named_header m j)
get_named_header-add_named_header m k v j i =
    get_named_header-value_result _ j
    ∙ ap value_result (find_named-add_named_header m k v j i.distinct)
    ∙ ground (arith, get_named_header-value_result m j)

-- Deleting a key of a valid message removes it, up to the case of letters, and no other.
pub get_named_header-del_named_header :
    (m : Msg) (k j : Bytes)
    → IsValid m
    → get_named_header (del_named_header m k) j
      ≡ (if same_nocase k j then (rc_err, none) else get_named_header m j)
get_named_header-del_named_header m k j i =
    get_named_header-value_result _ j
    ∙ ap (λ x. value_result (find_named j x.named_headers)) (del_named_header_lem m k)
    ∙ gone_or_kept
  where
    gone_or_kept :
        value_result (find_named j (without k m.named_headers))
        ≡ (if same_nocase k j then (rc_err, none) else get_named_header m j)
    gone_or_kept = ground (
      arith,
      find_named-without k j m.named_headers i.distinct,
      get_named_header-value_result m j,
    )
