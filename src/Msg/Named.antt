-- ===== src/Msg/Named.antt =====
-- The chain of named headers as a map from keys, up to the case of letters, to values.
use hermes_c.CText.Case.{same_nocase_sym, same_nocase_left}
use hermes_c.CText.{Bytes, same_nocase}
use hermes_c.Msg.{
  Msg, NHeader, find_named, del_named, del_named_header, append_named, add_named_header,
  create_named_header,
}
use hermes_c.Prelude.{
  ◌+◌, ◌≡◌, refl, true, Option, none, some, List, [], ◌∷◌, ◌++◌, arith, length, if◌then◌else◌,
  Option-cases, inl, inr, ℤ, pos, incr, decr,
}

-- No two entries have the same key.
abbrev pub Distinct : List NHeader → Type 0
Distinct [] = Unit
Distinct (h ∷ hs) = (find_named h.key hs ≡ none) × Distinct hs

abbrev pub or_else {ℓ} : {A : Type ℓ} → Option A → Option A → Option A
or_else none o = o
or_else (some a) _ = some a

pub or_else-none {ℓ} : {A : Type ℓ} (o : Option A) → or_else o none ≡ o
or_else-none none = refl
or_else-none (some a) = refl

pub find_named-append :
    (k : Bytes) (hs : List NHeader) (h : NHeader)
    → find_named k (hs ++ h ∷ [])
      ≡ or_else (find_named k hs) (if same_nocase h.key k then some h.val else none)
unfolding find_named
find_named-append k [] h = refl
find_named-append k (x ∷ hs) h = ground (arith, find_named-append k hs h)

-- Keys that are equal up to case find the same entry.
pub find_named-same :
    (j k : Bytes) (hs : List NHeader) → same_nocase j k ≡ true → find_named j hs ≡ find_named k hs
unfolding find_named
find_named-same j k [] e = refl
find_named-same j k (h ∷ hs) e = ground (
  arith,
  find_named-same j k hs e,
  same_nocase_left j k h.key e,
  same_nocase_sym h.key j,
  same_nocase_sym h.key k,
)

-- The chain without its first entry of key `k`.
abbrev pub without : Bytes → List NHeader → List NHeader
without k [] = []
without k (h ∷ hs) = if same_nocase h.key k then hs else h ∷ without k hs

abbrev when_found : Option Bytes → List NHeader → Option (List NHeader)
when_found none hs = none
when_found (some _) hs = some hs

del_named-without :
    (k : Bytes) (hs : List NHeader) → del_named k hs ≡ when_found (find_named k hs) (without k hs)
unfolding del_named find_named
del_named-without k [] = refl
del_named-without k (h ∷ hs) = ground (arith, del_named-without k hs)

pub without-none : (k : Bytes) (hs : List NHeader) → find_named k hs ≡ none → without k hs ≡ hs
unfolding find_named
without-none k [] e = refl
without-none k (h ∷ hs) e = ground (arith, without-none k hs)

pub length-without :
    (k : Bytes) (hs : List NHeader) {v : Bytes}
    → find_named k hs ≡ some v
    → length hs ≡ length (without k hs) + 1
unfolding find_named
length-without k [] e = cc
length-without k (h ∷ hs) {v} e = ground (arith, length-without k hs {v = v})

abbrev pub decr_found : Option Bytes → ℤ → ℤ
decr_found none n = n
decr_found (some _) n = decr n

-- `hms_msg_del_named_header` and `hms_msg_add_named_header` touch the chain and its counter alone.
pub del_named_header_lem :
    (m : Msg) (k : Bytes)
    → del_named_header m k ≡ record m {
      named_headers = without k m.named_headers;
      num_named_headers = decr_found (find_named k m.named_headers) m.num_named_headers;
    }
unfolding del_named_header
del_named_header_lem m k =
    ground (arith, del_named-without k m.named_headers, without-none k m.named_headers)

pub add_named_header_lem :
    (m : Msg) (k v : Bytes)
    → add_named_header m k v ≡ record m {
      named_headers = without k m.named_headers ++ create_named_header k v ∷ [];
      num_named_headers = incr (decr_found (find_named k m.named_headers) m.num_named_headers);
    }
unfolding add_named_header append_named
add_named_header_lem m k v = rw del_named_header_lem

pub length-decr_found :
    (k : Bytes) (hs : List NHeader)
    → decr_found (find_named k hs) (pos (length hs)) ≡ pos (length (without k hs))
length-decr_found k hs = elim (Option-cases (find_named k hs)) [
  | inl gone ↦ rw (gone, without-none k hs gone)
  | inr (v, found) ↦ rw (found, length-without k hs found) (ground arith)
]

-- Where keys are distinct, a deleted key is gone and the others stay.
pub find_named-without :
    (k j : Bytes) (hs : List NHeader)
    → Distinct hs
    → find_named j (without k hs) ≡ (if same_nocase k j then none else find_named j hs)
unfolding find_named
find_named-without k j [] d = ground arith
find_named-without k j (h ∷ hs) (new, d) = ground (
  arith,
  find_named-without k j hs d,
  same_nocase_left h.key k j,
  find_named-same h.key j hs,
  same_nocase_left k j h.key,
  same_nocase_sym k h.key,
  same_nocase_sym j h.key,
)

pub without-Distinct : (k : Bytes) (hs : List NHeader) → Distinct hs → Distinct (without k hs)
unfolding find_named
without-Distinct k [] d = tt
without-Distinct k (h ∷ hs) (new, d) =
    ground (arith, without-Distinct k hs d, find_named-without k h.key hs d)

pub append-Distinct :
    (hs : List NHeader) (h : NHeader)
    → Distinct hs
    → find_named h.key hs ≡ none
    → Distinct (hs ++ h ∷ [])
unfolding find_named
append-Distinct [] h d new = (refl, tt)
append-Distinct (x ∷ hs) h (xnew, d) new =
    ground
      (arith, append-Distinct hs h d, find_named-append x.key hs h, same_nocase_sym x.key h.key)
