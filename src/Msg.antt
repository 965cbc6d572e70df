-- ===== src/Msg.antt =====
-- The message of src/hms/hms_msg.c: its data and its operations, but for those on the body
-- (Msg/Body) and the printer (Msg/Print). Header chains are lists in chain order: `add_tail`
-- appends, the safe iteration with `list_del` and `break` removes the first match.
pub mod Body
pub mod Headers
pub mod Named
pub mod Print
pub mod Reach
pub mod Valid
use hermes_c.Prelude.{
  ℕ, zero, suc, ◌≡◌, Bool, true, false, ◌||◌, Option, none, some, List, [], ◌∷◌, ◌++◌, length, ℤ,
  pos, negsuc, incr, decr, ltb_ℤ, not, if◌then◌else◌,
}
use hermes_c.CText.{Bytes, codes, same_nocase}
use hermes_c.Process.{
  Run, ok, died, fault, ◌>>=◌, ◌>>◌, rc_ok, rc_err, address, assert_equals, assert_not_equals,
}

pub record UHeader : Type 0 where
  pub val : Bytes

pub record NHeader : Type 0 where
  pub key : Bytes
  pub val : Bytes

pub record Msg : Type 0 where
  pub id : Option Bytes
  pub verb : Option Bytes
  pub headers : List UHeader
  pub num_headers : ℤ
  pub named_headers : List NHeader
  pub num_named_headers : ℤ
  pub content_len : ℤ
  pub content : Option Bytes

abbrev pub content_length : Bytes
content_length = codes "Content-Length"

abbrev pub content_checksum : Bytes
content_checksum = codes "Content-Checksum"

unfoldable pub create : Msg
create = record {
  id = none;
  verb = none;
  headers = [];
  num_headers = pos 0;
  named_headers = [];
  num_named_headers = pos 0;
  content_len = pos 0;
  content = none;
}

unfoldable pub set_verb : Msg → Bytes → Msg
set_verb msg verb = record msg { verb = some verb }

-- The return code, and what `*verb` is set to.
unfoldable pub get_verb : Msg → ℤ × Option Bytes
get_verb msg = elim msg.verb [ none ↦ (rc_err, none) | some v ↦ (rc_ok, some v) ]

unfoldable pub create_header : Bytes → UHeader
create_header value = record { val = value }

unfoldable pub add_header : Msg → Bytes → Msg
unfolding create_header
add_header msg value = record msg {
  headers = msg.headers ++ create_header value ∷ [];
  num_headers = incr msg.num_headers;
}

-- The guard of `hms_msg_get_header` and `hms_msg_del_header`.
abbrev out_of_bounds : ℤ → ℤ → Bool
out_of_bounds num index = not (ltb_ℤ (pos 0) num) || ltb_ℤ index (pos 0) || not (ltb_ℤ index num)

-- The search loop. Behind the last entry `hdr` is the list head itself, whose `val` is NULL.
unfoldable pub nth_header : ℕ → List UHeader → Run Bytes
nth_header i [] = fault
nth_header zero (h ∷ hs) = ok h.val
nth_header (suc i) (h ∷ hs) = nth_header i hs

abbrev at_index : ℤ → (ℕ → Run Bytes) → Run Bytes
at_index (pos i) f = f i
at_index (negsuc _) f = fault

unfoldable pub get_header : Msg → ℤ → Run (ℤ × Option Bytes)
unfolding nth_header
get_header msg index =
    if out_of_bounds msg.num_headers index
    then ok (rc_err, none)
    else do value ← at_index index (λ i. nth_header i msg.headers); ok (rc_ok, some value)

-- The loop of `hms_msg_del_header`; `none` if it ends without a match.
unfoldable pub del_nth : ℕ → List UHeader → Option (List UHeader)
del_nth i [] = none
del_nth zero (h ∷ hs) = some hs
del_nth (suc i) (h ∷ hs) = elim (del_nth i hs) [ none ↦ none | some r ↦ some (h ∷ r) ]

abbrev del_at : ℤ → List UHeader → Option (List UHeader)
del_at (pos i) hs = del_nth i hs
del_at (negsuc _) hs = none

unfoldable pub del_header : Msg → ℤ → ℤ × Msg
unfolding del_nth
del_header msg index =
    if out_of_bounds msg.num_headers index then (rc_err, msg) else elim (del_at index msg.headers) [
      | none ↦ (rc_ok, msg)
      | some hs ↦ (rc_ok, record msg { headers = hs; num_headers = decr msg.num_headers })
    ]

unfoldable pub create_named_header : Bytes → Bytes → NHeader
create_named_header key value = record { key = key; val = value }

-- The search loop of `hms_msg_get_named_header`.
unfoldable pub find_named : Bytes → List NHeader → Option Bytes
find_named key [] = none
find_named key (h ∷ hs) = if same_nocase h.key key then some h.val else find_named key hs

unfoldable pub get_named_header : Msg → Bytes → ℤ × Option Bytes
get_named_header msg key = elim (find_named key msg.named_headers) [
  | none ↦ (rc_err, none)
  | some v ↦ (rc_ok, some v)
]

-- The loop of `hms_msg_del_named_header`; `none` if nothing matches.
unfoldable pub del_named : Bytes → List NHeader → Option (List NHeader)
del_named key [] = none
del_named key (h ∷ hs) =
    let rest = del_named key hs in
    if same_nocase h.key key then some hs else elim rest [ none ↦ none | some r ↦ some (h ∷ r) ]

unfoldable pub del_named_header : Msg → Bytes → Msg
del_named_header msg key = elim (del_named key msg.named_headers) [
  | none ↦ msg
  | some hs ↦ record msg { named_headers = hs; num_named_headers = decr msg.num_named_headers }
]

-- `hms_list_add_tail` of a fresh entry, and the counter.
unfoldable pub append_named : Msg → Bytes → Bytes → Msg
unfolding create_named_header
append_named msg key value = record msg {
  named_headers = msg.named_headers ++ create_named_header key value ∷ [];
  num_named_headers = incr msg.num_named_headers;
}

unfoldable pub add_named_header : Msg → Bytes → Bytes → Msg
add_named_header msg key value = append_named (del_named_header msg key) key value

unfoldable pub hms_msg_num_headers : Msg → ℤ
hms_msg_num_headers msg = msg.num_headers

unfoldable pub hms_msg_num_named_headers : Msg → ℤ
hms_msg_num_named_headers msg = msg.num_named_headers

-- The helpers that free an entry, with their assertions on its strings.
unfoldable pub destroy_header : UHeader → Run ℤ
unfolding assert_not_equals
destroy_header hdr = assert_not_equals (pos 0) (address (some hdr.val)) >> ok rc_ok

unfoldable pub destroy_named_header : NHeader → Run ℤ
unfolding assert_not_equals
destroy_named_header hdr =
    assert_not_equals (pos 0) (address (some hdr.key))
    >> assert_not_equals (pos 0) (address (some hdr.val))
    >> ok rc_ok

-- The two deletion loops of `hms_msg_destroy`: the counter behind them.
unfoldable pub destroy_headers : List UHeader → ℤ → Run ℤ
unfolding destroy_header
destroy_headers [] n = ok n
destroy_headers (h ∷ hs) n = destroy_header h >>= λ _. destroy_headers hs (decr n)

unfoldable pub destroy_named_headers : List NHeader → ℤ → Run ℤ
unfolding destroy_named_header
destroy_named_headers [] n = ok n
destroy_named_headers (h ∷ hs) n = destroy_named_header h >>= λ _. destroy_named_headers hs (decr n)

unfoldable pub destroy : Msg → Run ℤ
unfolding assert_equals
destroy msg = do
  num_headers ← destroy_headers msg.headers msg.num_headers
  assert_equals (pos 0) num_headers
  num_named ← destroy_named_headers msg.named_headers msg.num_named_headers
  assert_equals (pos 0) num_named
  ok rc_ok
