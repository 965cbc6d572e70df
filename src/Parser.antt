-- ===== src/Parser.antt =====
-- The parser of src/hms/hms_parser.c, as it is compiled with HERMES_ENABLE_CHECKSUMS undefined.
pub mod Chunks
pub mod Consumes
pub mod Outcome
pub mod Safe
pub mod Same
pub mod Stream
use hermes_c.CText.Number.{skip_space, strtol}
use hermes_c.CText.{Bytes, codes, c_str, is_space, same_nocase, split_at, tokens}
use hermes_c.Msg.Body.{set_body}
use hermes_c.Msg.{Msg, add_header, add_named_header, content_length, create, destroy, set_verb}
use hermes_c.Prelude.{
  ltb, int_min_abs, Bool-cases, ◌+◌, ◌<◌, ℕ, zero, suc, ◌-◌, Bool, true, false, not, ◌&&◌, ◌||◌,
  Option, none, some, List, [], ◌∷◌, ◌++◌, length, set, ◌==◌, if◌then◌else◌, ℤ, pos, negsuc, to_int,
  eq_ℤ, ltb_ℤ,
}
use hermes_c.Process.{fault, Run, ok, died, ◌>>=◌, ◌>>◌, rc_ok, rc_err, assert_not_equals}
use hermes_c.Socket.{Input, read}

-- The variables of the loop in `__hms_parse_read_header`; `hdr_len` is the length of `buffer`.
pub record HdrState : Type 0 where
  pub buffer : Bytes
  pub dot_seen : Bool
  pub dot_ptr : Option ℕ

abbrev pub blank : ℕ → ℕ
blank c = if c == b'\r' then b' ' else c

abbrev is_padding : ℕ → Bool
is_padding c = c == b' ' || c == b'\r' || c == b'\n'

-- One byte that was read: the new state, and whether the loop is done.
unfoldable pub hdr_step : HdrState → ℕ → HdrState × Bool
hdr_step st byte =
    let c = blank byte in
    let buffer = st.buffer ++ c ∷ [] in
    if c == b'.'
    then (record { buffer = buffer; dot_seen = true; dot_ptr = some (length st.buffer) }, false)
    else if st.dot_seen && c == b'\n'
    then (record st { buffer = buffer }, true)
    else if st.dot_seen && not (is_padding c)
    then (record { buffer = buffer; dot_seen = false; dot_ptr = none }, false)
    else (record st { buffer = buffer }, false)

-- A round of the loop behind `hdr_step`: `break`, or the next round.
unfoldable pub after_step :
    (HdrState → Input → Bool × HdrState × Input) → HdrState × Bool → Input → Bool × HdrState × Input
after_step next (st, true) inp = (true, st, inp)
after_step next (st, false) inp = next st inp

-- A round of the loop behind `read`: `break` unless there is a byte.
unfoldable pub after_read :
    (HdrState → Input → Bool × HdrState × Input)
    → HdrState
    → Bytes × Input
    → Bool × HdrState × Input
unfolding after_step
after_read next st ([], inp) = (false, st, inp)
after_read next st (byte ∷ _, inp) = after_step next (hdr_step st byte) inp

-- The loop, with the room left in the buffer: `is_done`, the variables and the rest of the input.
unfoldable pub hdr_loop : ℕ → HdrState → Input → Bool × HdrState × Input
unfolding after_read
hdr_loop zero st inp = (false, st, inp)
hdr_loop (suc room) st inp = after_read (hdr_loop room) st (read 1 inp)

abbrev pub hdr_start : HdrState
hdr_start = record { buffer = []; dot_seen = false; dot_ptr = none }

-- `if (dot_ptr) *dot_ptr = '\0'`. The NUL behind the last byte is that of `hms_msg_parse` or the
-- one written when there is room.
abbrev pub cut_at_dot : HdrState → Bytes
cut_at_dot st = elim st.dot_ptr [ none ↦ st.buffer | some i ↦ set st.buffer i 0 ]

-- The return value, the buffer and the rest of the input.
unfoldable pub read_header : Input → ℕ → Run (ℤ × Bytes × Input)
unfolding assert_not_equals
read_header inp buf_len = do
  assert_not_equals (pos 0) (pos buf_len)
  let (done, st, rest) = hdr_loop buf_len hdr_start inp
  ok (if done then pos (length st.buffer) else rc_err, cut_at_dot st, rest)

-- The loop of `__hms_parse_verb_line` over the words: `found_verb` and the message.
unfoldable pub word_loop : ℕ → Bool → Msg → List Bytes → Bool × Msg
word_loop count found msg [] = (found, msg)
word_loop count found msg (w ∷ ws) =
    word_loop (suc count) (count == 0 || found)
      (if count == 0 then set_verb msg w else add_header msg w) ws

unfoldable pub parse_verb_line : Msg → Bytes → ℤ × Msg
unfolding word_loop
parse_verb_line msg line =
    let (found, parsed) = word_loop 0 false msg (tokens (codes " \t") line) in
    (if found then rc_ok else rc_err, parsed)

-- The second loop of `__hms_str_strip`.
unfoldable pub strip_back : Bytes → Bytes
strip_back [] = []
strip_back (c ∷ s) = elim (strip_back s) [
  | [] ↦ if is_space c then [] else c ∷ []
  | d ∷ t ↦ c ∷ d ∷ t
]

-- Where nothing is left the second loop runs back over bytes that were read already, to a NUL: the
-- colon's, or the one at the end of the line before.
unfoldable pub str_strip : Bytes → Bytes
unfolding strip_back
str_strip s = strip_back (skip_space s)

-- What `__hms_parse_named_header` does with a key and a value that are stripped.
unfoldable pub store_named : Msg → Bytes → Bytes → ℤ → ℤ × Msg × ℤ
store_named msg key val body_len =
    let len = to_int (strtol val) in
    if same_nocase key content_length
    then (if eq_ℤ len (pos 0)
        then (rc_err, msg, len)
        else (rc_ok, add_named_header msg key val, len))
    else (rc_ok, add_named_header msg key val, body_len)

unfoldable pub after_colon : Msg → Option (Bytes × Bytes) → ℤ → ℤ × Msg × ℤ
unfolding store_named
after_colon msg none body_len = (rc_err, msg, body_len)
after_colon msg (some (k, v)) body_len = store_named msg (str_strip k) (str_strip v) body_len

-- The return value, the message and `*body_len`.
unfoldable pub parse_named_header : Msg → Bytes → ℤ → ℤ × Msg × ℤ
unfolding after_colon
parse_named_header msg line body_len = after_colon msg (split_at b':' line) body_len

abbrev pub succeeded : ℤ → Bool
succeeded rc = eq_ℤ rc rc_ok

-- A round of the loop of `__hms_parse_header`: `break` on an error, or the next round.
unfoldable pub after_line : (Msg → ℤ → ℤ × Msg × ℤ) → ℤ × Msg × ℤ → ℤ × Msg × ℤ
after_line next (rc, msg, body_len) =
    if succeeded rc then next msg body_len else (rc_err, msg, body_len)

-- The loop over the lines; the first one is the verb line.
unfoldable pub line_loop : ℕ → Msg → ℤ → List Bytes → ℤ × Msg × ℤ
unfolding after_line
line_loop count msg body_len [] = (rc_ok, msg, body_len)
line_loop zero msg body_len (l ∷ ls) =
    after_line (λ m n. line_loop 1 m n ls)
      ((parse_verb_line msg l).0, (parse_verb_line msg l).1, body_len)
line_loop (suc count) msg body_len (l ∷ ls) =
    after_line (λ m n. line_loop (suc (suc count)) m n ls) (parse_named_header msg l body_len)

unfoldable pub parse_header : Msg → Bytes → ℤ × Msg × ℤ
unfolding line_loop
parse_header msg buffer = line_loop 0 msg (pos 0) (tokens (codes "\n") (c_str buffer))

-- The loop of `__hms_parse_read_body`.
pub data BodyRead : Type 0 where
  complete : Bytes → Input → BodyRead
  failed : Input → BodyRead
  out_of_fuel : BodyRead

-- A round of the loop behind `read`, with `need` bytes missing.
unfoldable pub after_body_read :
    (ℕ → Bytes → Input → BodyRead) → ℕ → Bytes → Bytes × Input → BodyRead
after_body_read next need got ([], inp) = failed inp
after_body_read next need got (c ∷ s, inp) = next (need - length (c ∷ s)) (got ++ c ∷ s) inp

-- `need` is `body_len - read_in`, and `got` the bytes before `p`. A call reads at least one byte or
-- ends the loop, so `need + 1` rounds are enough.
unfoldable pub body_loop : ℕ → ℕ → Bytes → Input → BodyRead
unfolding after_body_read
body_loop zero need got inp = out_of_fuel
body_loop (suc fuel) need got inp =
    if need == 0
    then complete got inp
    else after_body_read (body_loop fuel) need got (read need inp)

-- What follows the loop.
unfoldable pub store_body : Msg → ℕ → BodyRead → Run (ℤ × Msg × Input)
store_body msg n (complete buffer rest) = do m ← set_body msg buffer (pos n); ok (rc_ok, m, rest)
store_body msg n (failed rest) = ok (rc_err, msg, rest)
store_body msg n out_of_fuel = fault

-- `malloc(body_len + 1)`: an `int` wraps around, so at INT_MAX the sum is negative, and a negative
-- size is too large for the allocator; with no buffer a `read` fails and takes nothing. For -1 the
-- allocation is of size 0, the loop makes no round, and `assert(read_in == body_len)` ends the
-- process.
unfoldable pub read_body : Input → Msg → ℤ → Run (ℤ × Msg × Input)
unfolding body_loop store_body
read_body inp msg (pos n) =
    if ltb (n + 1) int_min_abs
    then store_body msg n (body_loop (suc n) n [] inp)
    else ok (rc_err, msg, inp)
read_body inp msg (negsuc zero) = died
read_body inp msg (negsuc (suc n)) = ok (rc_err, msg, inp)

-- The end of `hms_msg_parse` with `erred`, or without.
abbrev pub finish : ℤ → Msg → Input → Run (Option Msg × Input)
finish rc msg rest =
    if succeeded rc then ok (some msg, rest) else destroy msg >>= λ _. ok (none, rest)

abbrev pub body_and_finish : Input → Msg → ℤ → Run (Option Msg × Input)
body_and_finish inp msg body_len = do
  (rc, filled, rest) ← read_body inp msg body_len
  finish rc filled rest

-- `hms_msg_parse` behind `__hms_parse_header`.
abbrev pub after_header : ℤ × Msg × ℤ → Input → Run (Option Msg × Input)
after_header (rc, msg, body_len) inp =
    if succeeded rc && not (eq_ℤ body_len (pos 0))
    then body_and_finish inp msg body_len
    else finish rc msg inp

-- `hms_msg_parse` behind a header of more than two bytes.
unfoldable pub parse_message : Bytes → Input → Run (Option Msg × Input)
parse_message buffer inp = after_header (parse_header create buffer) inp

-- With a buffer of `max_hdr_len + 1` bytes.
unfoldable pub parse_within : Input → ℕ → Run (Option Msg × Input)
parse_within inp max_hdr_len = do
  (hdr_len, buffer, rest) ← read_header inp max_hdr_len
  if ltb_ℤ (pos 2) hdr_len then parse_message buffer rest else ok (none, rest)

-- `malloc(max_hdr_len + 1)`: at INT_MAX the sum wraps around and there is no buffer, and the NUL at
-- its end is written through NULL. A larger number is no `int`.
unfoldable pub parse : Input → ℕ → Run (Option Msg × Input)
unfolding parse_within
parse inp max_hdr_len =
    if ltb (max_hdr_len + 1) int_min_abs then parse_within inp max_hdr_len else fault
