-- ===== src/Msg/Reach.antt =====
-- The messages that a program can make by the functions of src/hms/hms_msg.c.
use hermes_c.CText.{Bytes, same_nocase}
use hermes_c.Msg.Body.Clear.{IsCleared, del_body_lem, find_named-del_named_header}
use hermes_c.Msg.Body.Laws.{body_of, get_body-IsValid}
use hermes_c.Msg.Body.Size.{get_body_size_lem, size_of}
use hermes_c.Msg.Body.Store.{HoldsBody, set_body_lem}
use hermes_c.Msg.Body.{del_body, get_body, get_body_size, set_body}
use hermes_c.Msg.Headers.{entry_at, find_named-add_named_header, get_header_lem, header_result}
use hermes_c.Msg.Named.{add_named_header_lem, del_named_header_lem}
use hermes_c.Msg.Print.Laws.{print_header-wire, wire}
use hermes_c.Msg.Print.{get_header_size, print_all, print_header}
use hermes_c.Msg.Valid.{
  IsValid, add_header-IsValid, add_named_header-IsValid, create-IsValid, del_header-IsValid,
  del_named_header-IsValid, destroy-IsValid, set_verb-IsValid,
}
use hermes_c.Msg.{
  Msg, add_header, add_named_header, content_length, create, del_at, del_header, del_named_header,
  destroy, find_named, get_header, out_of_bounds, set_verb,
}
use hermes_c.Prelude.{
  Bool-cases, Option, Option-cases, arith, ap, false, inl, inr, none, some, ℕ, ◌<◌, ◌≤◌, ◌≡◌, ◌∙◌,
  refl, sizes, sym, to_int_id, subst, int_min_abs, length, take, ℤ, pos,
}
use hermes_c.Process.{assert_equals, assert_low, died, ok, rc_ok}

-- By any calls in any order, with two conditions: the header Content-Length is never written or
-- deleted by hand, and a body that is set has a length that its bytes reach.
pub data Reachable : Msg → Type 0 where
  created : Reachable create
  verb_set : {m : Msg} (verb : Bytes) → Reachable m → Reachable (set_verb m verb)
  header_added : {m : Msg} (value : Bytes) → Reachable m → Reachable (add_header m value)
  header_deleted : {m : Msg} (index : ℤ) → Reachable m → Reachable (del_header m index).1
  named_added :
      {m : Msg} (key value : Bytes)
      → Reachable m
      → same_nocase key content_length ≡ false
      → Reachable (add_named_header m key value)
  named_deleted :
      {m : Msg} (key : Bytes)
      → Reachable m
      → same_nocase key content_length ≡ false
      → Reachable (del_named_header m key)
  body_set :
      {m r : Msg} (src : Bytes) (n : ℕ)
      → Reachable m
      → 0 < n
      → n ≤ length src
      → n < int_min_abs
      → set_body m src (pos n) ≡ ok r
      → Reachable r
  body_deleted : {m r : Msg} → Reachable m → del_body m ≡ ok r → Reachable r

ok_inj : (a b : Msg) → ok a ≡ ok b → a ≡ b
ok_inj a b e = cc

Reachable-IsValid : {m : Msg} → Reachable m → IsValid m
Reachable-IsValid created = create-IsValid
Reachable-IsValid (verb_set v r) = set_verb-IsValid v (Reachable-IsValid r)
Reachable-IsValid (header_added v r) = add_header-IsValid v (Reachable-IsValid r)
Reachable-IsValid (header_deleted i r) = del_header-IsValid i (Reachable-IsValid r)
Reachable-IsValid (named_added k v r f) = add_named_header-IsValid k v (Reachable-IsValid r) (inr f)
Reachable-IsValid (named_deleted k r f) = del_named_header-IsValid k (Reachable-IsValid r) (inr f)
Reachable-IsValid (body_set {m} {r} src n reach p l b e) =
    let (s, run, holds, _, _) = set_body_lem m src n (Reachable-IsValid reach) p l b in
    subst IsValid (ok_inj s r (sym run ∙ e)) holds.valid
Reachable-IsValid (body_deleted {m} {r} reach e) =
    let (s, run, cleared) = del_body_lem m (Reachable-IsValid reach) in
    subst IsValid (ok_inj s r (sym run ∙ e)) cleared.valid

-- A Content-Length is there only with a body.
Sized : Msg → Type 0
Sized m = m.content ≡ none → find_named content_length m.named_headers ≡ none

added-Sized :
    (m : Msg) (key value : Bytes)
    → IsValid m
    → same_nocase key content_length ≡ false
    → Sized m
    → Sized (add_named_header m key value)
unfolding Sized
added-Sized m key value i other h e =
    find_named-add_named_header m key value content_length i.distinct
    ∙ rw other (h (sym (ap (λ x. x.content) (add_named_header_lem m key value)) ∙ e))

deleted-Sized :
    (m : Msg) (key : Bytes)
    → IsValid m
    → same_nocase key content_length ≡ false
    → Sized m
    → Sized (del_named_header m key)
unfolding Sized
deleted-Sized m key i other h e =
    find_named-del_named_header m key content_length i.distinct
    ∙ rw other (h (sym (ap (λ x. x.content) (del_named_header_lem m key)) ∙ e))

body_set-Sized : (m : Msg) (b : Bytes) → HoldsBody m b → Sized m
unfolding Sized
body_set-Sized m b holds e =
    let same : ok (body_of none) ≡ get_body m = sym (get_body-IsValid m holds.valid ∙ rw e refl) in
    absurd (cc (same, holds.read))

body_deleted-Sized : (m c : Msg) → Sized m → IsCleared m c → Sized c
unfolding Sized same_nocase
body_deleted-Sized m c h cleared e = elim (Option-cases m.content) [
  | inl gone ↦ cleared.named content_length ∙ rw gone (h gone)
  | inr (b, full) ↦ cleared.named content_length ∙ rw full refl
]

deleted_header-Sized : (m : Msg) (index : ℤ) → Sized m → Sized (del_header m index).1
unfolding Sized del_header
deleted_header-Sized m index h = elim (Bool-cases (out_of_bounds m.num_headers index)) [
  | inl out ↦ rw out h
  | inr inside ↦ rw inside (elim (Option-cases (del_at index m.headers)) [
    | inl gone ↦ rw gone h
    | inr (r, found) ↦ rw found h
  ])
]

Reachable-Sized : {m : Msg} → Reachable m → Sized m
unfolding Sized create set_verb add_header find_named
Reachable-Sized created e = refl
Reachable-Sized (verb_set v r) e = Reachable-Sized r e
Reachable-Sized (header_added v r) e = Reachable-Sized r e
Reachable-Sized (header_deleted {m} i r) e = deleted_header-Sized m i (Reachable-Sized r) e
Reachable-Sized (named_added {m} k v r f) e =
    added-Sized m k v (Reachable-IsValid r) f (Reachable-Sized r) e
Reachable-Sized (named_deleted {m} k r f) e =
    deleted-Sized m k (Reachable-IsValid r) f (Reachable-Sized r) e
Reachable-Sized (body_set {m} {r} src n reach p l b run) e =
    let (s, runs, holds, _, _) = set_body_lem m src n (Reachable-IsValid reach) p l b in
    body_set-Sized r (take n src)
      (subst (λ x. HoldsBody x (take n src)) (ok_inj s r (sym runs ∙ run)) holds) e
Reachable-Sized (body_deleted {m} {r} reach run) e =
    let (s, runs, cleared) = del_body_lem m (Reachable-IsValid reach) in
    body_deleted-Sized m r (Reachable-Sized reach)
      (subst (IsCleared m) (ok_inj s r (sym runs ∙ run)) cleared) e

abbrev pub body_length : Option Bytes → ℕ
body_length none = 0
body_length (some b) = length b

-- What each call on a message that may end the process gives. No call has undefined behaviour, and
-- the only assertion that fails is the one that compares the sizes where a header without a verb is
-- printed.
pub record IsSafe (m : Msg) : Type 0 where
  pub destroys : destroy m ≡ ok rc_ok
  pub reads : get_body m ≡ ok (body_of m.content)
  pub clears : (c : Msg) × (del_body m ≡ ok c) × Reachable c
  pub counts : get_body_size m ≡ ok (pos (body_length m.content))
  pub prints :
      (len : ℤ) (v : Bytes)
      → m.verb ≡ some v
      → print_header m len ≡ ok (rc_ok, wire v m.headers m.named_headers)
  pub asserts_verb :
      (len : ℤ) → m.verb ≡ none → length (print_all m) < int_min_abs → print_header m len ≡ died
  pub gets : (index : ℤ) → get_header m index ≡ ok (header_result (entry_at m.headers index))
  pub sets :
      (src : Bytes) (n : ℕ)
      → 0 < n
      → n ≤ length src
      → n < int_min_abs
      → (r : Msg) × (set_body m src (pos n) ≡ ok r) × Reachable r

size_of-Sized :
    (m : Msg) (c : Option Bytes)
    → m.content ≡ c
    → Sized m
    → size_of c (find_named content_length m.named_headers) ≡ ok (pos (body_length c))
unfolding Sized
size_of-Sized m none e h = rw (h e) refl
size_of-Sized m (some b) e h = refl

print_all-positive : (m : Msg) → 0 < length (print_all m)
unfolding print_all
print_all-positive m = grind sizes

sizes_differ : (n : ℕ) → 0 < n → assert_equals (pos 0) (pos n) ≡ died
unfolding assert_equals assert_low
sizes_differ n p = ground arith

header_size-none : (m : Msg) → m.verb ≡ none → get_header_size m ≡ pos 0
unfolding get_header_size
header_size-none m e = rw e refl

print_header-died :
    (m : Msg) (len : ℤ)
    → m.verb ≡ none
    → length (print_all m) < int_min_abs
    → print_header m len ≡ died
unfolding print_header
print_header-died m len e l =
    rw
      (
        header_size-none m e,
        to_int_id (pos (length (print_all m))) l,
        sizes_differ (length (print_all m)) (print_all-positive m),
      )
      refl

-- Every message that a program can make from an empty one, by calls that leave the Content-Length
-- to the library, can be destroyed, can get, lose and read a body, be asked for the size of its
-- body and for a header at any index, and be printed into a buffer that the text fits, without
-- undefined behaviour; and without a failed assertion, apart from that on the size where a header
-- of less than 2^31 bytes is printed of a message that has no verb, which ends the process. The
-- size of the body is its length, or 0 where there is none.
pub Reachable-IsSafe : {m : Msg} → Reachable m → IsSafe m
Reachable-IsSafe {m} reach =
    let i = Reachable-IsValid reach in
    record {
      destroys = destroy-IsValid m i;
      reads = get_body-IsValid m i;
      clears = let (c, e, _) = del_body_lem m i in (c, e, body_deleted reach e);
      counts = get_body_size_lem m i ∙ size_of-Sized m m.content refl (Reachable-Sized reach);
      prints = λ len v e. (print_header-wire m len e).0;
      asserts_verb = λ len e l. print_header-died m len e l;
      gets = λ index. get_header_lem m index i;
      sets = λ src n p l b.
          let (r, e, _, _, _) = set_body_lem m src n i p l b in
          (r, e, body_set src n reach p l b e);
    }
