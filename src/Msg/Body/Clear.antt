-- ===== src/Msg/Body/Clear.antt =====
-- `hms_msg_del_body` of src/hms/hms_msg.c on a valid message.
use hermes_c.CText.{same_nocase, Bytes}
use hermes_c.Msg.Body.{del_body}
use hermes_c.Msg.Named.{Distinct, find_named-without, without-Distinct, del_named_header_lem}
use hermes_c.Msg.Valid.{IsValid, BodyMatches, del_named_header-IsValid}
use hermes_c.Msg.{Msg, find_named, del_named_header, content_length, content_checksum}
use hermes_c.Prelude.{
  Bool, true, false, ◌||◌, if◌then◌else◌, ◌≡◌, ◌∙◌, refl, sym, subst, ap, Option, none, some, arith,
  pos, inl, inr, Option-cases,
}
use hermes_c.Process.{ok}
use hermes_c.Msg.Body.Laws.{check_length_ok}

abbrev pub no_body : Msg → Msg
no_body m = record m { content = none; content_len = pos 0 }

-- A message with its body and the two headers that describe it removed.
abbrev pub emptied : Msg → Msg
emptied m = no_body (del_named_header (del_named_header m content_length) content_checksum)

abbrev pub cleared : Option Bytes → Msg → Msg
cleared none m = m
cleared (some _) m = emptied m

del_body-some :
    (m : Msg) (b : Bytes)
    → m.content ≡ some b
    → BodyMatches (some b) m.content_len (find_named content_length m.named_headers)
    → del_body m ≡ ok (emptied m)
unfolding del_body
del_body-some m b full (_, _, _, (v, found, same)) = ground (arith, check_length_ok m {v = v})

pub del_body-none : (m : Msg) → m.content ≡ none → del_body m ≡ ok m
unfolding del_body
del_body-none m empty = ground arith

-- On a valid message `hms_msg_del_body` fails no assertion.
pub del_body-IsValid : (m : Msg) → IsValid m → del_body m ≡ ok (cleared m.content m)
del_body-IsValid m i = elim (Option-cases m.content) [
  | inl empty ↦ del_body-none m empty ∙ ap (λ c. ok (cleared c m)) (sym empty)
  | inr (b, full) ↦
      del_body-some m b full (rw full at i.body) ∙ ap (λ c. ok (cleared c m)) (sym full)
]

del_named_header-no_body :
    (m : Msg) (k : Bytes) → del_named_header (no_body m) k ≡ no_body (del_named_header m k)
del_named_header-no_body m k =
    del_named_header_lem (no_body m) k ∙ ap no_body (sym (del_named_header_lem m k))

no_body-IsValid : (m : Msg) → IsValid m → IsValid (no_body m)
no_body-IsValid m i = record {
  counted = i.counted;
  named_counted = i.named_counted;
  distinct = i.distinct;
  body = refl;
}

-- With the body gone its headers may go too.
emptied-IsValid : (m : Msg) → IsValid m → IsValid (emptied m)
emptied-IsValid m i =
    let first = del_named_header-IsValid content_length (no_body-IsValid m i) (inl refl) in
    let once : IsValid (no_body (del_named_header m content_length)) =
      rw del_named_header-no_body at first in
    let second = del_named_header-IsValid content_checksum once (inl refl) in
    rw del_named_header-no_body at second

-- The value of a key behind a deletion of the body `c`, where it was `v`: the two headers that
-- describe a body are gone with it.
abbrev pub kept_value : Option Bytes → Bytes → Option Bytes → Option Bytes
kept_value none k v = v
kept_value (some _) k v =
    if same_nocase content_length k || same_nocase content_checksum k then none else v

-- What a deletion of the body promises: no body and no size, no headers that describe it, and the
-- same verb, unnamed headers and other named headers.
pub record IsCleared (m c : Msg) : Type 0 where
  pub valid : IsValid c
  pub content_none : c.content ≡ none
  pub content_len_zero : c.content_len ≡ pos 0
  pub same_verb : c.verb ≡ m.verb
  pub same_headers : c.headers ≡ m.headers
  pub named :
      (k : Bytes)
      → find_named k c.named_headers ≡ kept_value m.content k (find_named k m.named_headers)

pub find_named-del_named_header :
    (m : Msg) (k j : Bytes)
    → Distinct m.named_headers
    → find_named j (del_named_header m k).named_headers
      ≡ (if same_nocase k j then none else find_named j m.named_headers)
find_named-del_named_header m k j d =
    ap (λ x. find_named j x.named_headers) (del_named_header_lem m k)
    ∙ find_named-without k j m.named_headers d

emptied_value :
    (m : Msg) (b k : Bytes)
    → IsValid m
    → find_named k (emptied m).named_headers ≡ kept_value (some b) k (find_named k m.named_headers)
emptied_value m b k i =
    let once = del_named_header m content_length in
    let d : Distinct once.named_headers =
      rw (ap (λ x. x.named_headers) (del_named_header_lem m content_length))
        (without-Distinct content_length m.named_headers i.distinct) in
    find_named-del_named_header once content_checksum k d
    ∙ rw (find_named-del_named_header m content_length k i.distinct) (
        both (same_nocase content_length k) (same_nocase content_checksum k)
          (find_named k m.named_headers))
  where
    both :
        (x y : Bool) (v : Option Bytes)
        → (if y then none else (if x then none else v)) ≡ (if x || y then none else v)
    both true true v = refl
    both true false v = refl
    both false true v = refl
    both false false v = refl

emptied-IsCleared : (m : Msg) (b : Bytes) → m.content ≡ some b → IsValid m → IsCleared m (emptied m)
emptied-IsCleared m b full i =
    let once = del_named_header m content_length in
    record {
      valid = emptied-IsValid m i;
      content_none = refl;
      content_len_zero = refl;
      same_verb =
          ap (λ x. x.verb) (del_named_header_lem once content_checksum)
          ∙ ap (λ x. x.verb) (del_named_header_lem m content_length);
      same_headers =
          ap (λ x. x.headers) (del_named_header_lem once content_checksum)
          ∙ ap (λ x. x.headers) (del_named_header_lem m content_length);
      named = λ k.
          subst
            (λ c.
              find_named k (emptied m).named_headers
              ≡ kept_value c k (find_named k m.named_headers))
            (sym full) (emptied_value m b k i);
    }

cleared-IsCleared :
    (m : Msg) (c : Option Bytes) → m.content ≡ c → IsValid m → IsCleared m (cleared c m)
cleared-IsCleared m none e i = record {
  valid = i;
  content_none = e;
  content_len_zero = rw e at i.body;
  same_verb = refl;
  same_headers = refl;
  named = λ k. rw e refl;
}
cleared-IsCleared m (some b) e i = emptied-IsCleared m b e i

-- On a valid message `hms_msg_del_body` passes its assertions, and the result is valid and has no
-- body. With the body go its size and the headers Content-Length and Content-Checksum, in any case;
-- the verb, the unnamed headers and the values of all other keys stay.
pub del_body_lem : (m : Msg) → IsValid m → (c : Msg) × (del_body m ≡ ok c) × IsCleared m c
del_body_lem m i = (cleared m.content m, del_body-IsValid m i, cleared-IsCleared m m.content refl i)
