-- ===== src/Endpoint.antt =====
-- The connections of src/hms/hermes.c: its socket helpers, `hms_endpoint_*` on the side of the
-- server and `hms_connector_*` on the side of the client. The clock and the mutex of a connection
-- are left out.
pub mod Delivery
pub mod Exchange
pub mod Receive
pub mod Send
use hermes_c.CText.{Bytes}
use hermes_c.Msg.Body.{get_body_size, get_body}
use hermes_c.Msg.Print.{get_header_size, print_header}
use hermes_c.Msg.{Msg}
use hermes_c.Parser.{parse, succeeded}
use hermes_c.Prelude.{
  ℕ, zero, suc, ◌+◌, Bool, true, false, not, ◌||◌, Option, none, some, List, [], ◌∷◌, ◌++◌, length,
  take, drop, leb, if◌then◌else◌, ℤ, pos, negsuc, eq_ℤ, ltb_ℤ, ltb, ◌-◌,
}
use hermes_c.Process.{Run, ok, died, fault, ◌>>=◌, ◌>>◌, rc_ok, rc_err, address, assert_not_equals}
use hermes_c.Socket.{Answers, Input, Socket, read}

-- The return value of `__send_all`, the bytes that were taken, and the calls that are left.
pub record Sent : Type 0 where
  pub ret : ℤ
  pub bytes : Bytes
  pub answers : Answers

abbrev pub before : Bytes → Sent → Sent
before b s = record s { bytes = b ++ s.bytes }

-- The loop: `sent` is `p - buf`, and `left` the bytes from `p` to the end.
unfoldable pub send_loop : Answers → ℕ → Bytes → Sent
send_loop [] sent left = record { ret = rc_err; bytes = []; answers = [] }
send_loop (none ∷ calls) sent left = record { ret = rc_err; bytes = []; answers = calls }
send_loop (some k ∷ calls) sent left =
    let next = send_loop calls (sent + k) (drop k left) in
    if leb (length left) k
    then record { ret = pos (sent + length left); bytes = left; answers = calls }
    else before (take k left) next

-- A length beyond the end of the buffer, or a negative one, which `send` takes for a `size_t`,
-- would be sent from outside the buffer.
unfoldable pub send_all : Answers → Bytes → ℤ → Run Sent
unfolding send_loop assert_not_equals
send_all calls buf len = do
  assert_not_equals (pos 0) len
  elim len [
    | pos n ↦ if leb n (length buf) then ok (send_loop calls 0 (take n buf)) else fault
    | negsuc _ ↦ fault
  ]

-- How `__recv_all` ends: with its return value and the bytes in the buffer, or where a call of
-- `read` returned 0 or -1, with that.
pub data RecvAll : Type 0 where
  received : ℤ → Bytes → Input → RecvAll
  stopped : Bytes → Input → RecvAll
  endless : RecvAll

-- The loop behind a call of `read`; `got` is what stands before `p`, and `need` is `len`.
unfoldable pub after_recv_read : (ℕ → Bytes → Input → RecvAll) → ℕ → Bytes → Bytes × Input → RecvAll
after_recv_read next need got ([], rest) = stopped got rest
after_recv_read next need got (c ∷ s, rest) =
    let all = got ++ c ∷ s in
    let more = next (need - length (c ∷ s)) all rest in
    if ltb 0 (need - length (c ∷ s)) then more else received (pos (length all)) all rest

unfoldable pub recv_loop : ℕ → ℕ → Bytes → Input → RecvAll
unfolding after_recv_read
recv_loop zero need got inp = endless
recv_loop (suc fuel) need got inp = after_recv_read (recv_loop fuel) need got (read need inp)

-- Each round reads a byte, so `len` rounds are enough. A negative length is a large `size_t` for
-- `read`, which would write behind the buffer.
unfoldable pub recv_all : Input → ℤ → Run RecvAll
unfolding recv_loop assert_not_equals
recv_all inp len = do
  assert_not_equals (pos 0) len
  elim len [ pos n ↦ ok (recv_loop n n [] inp) | negsuc _ ↦ fault ]

-- `__send_all` on the socket of a connection: whether it returned -1.
unfoldable pub send_erred : Socket → Bytes → ℤ → Run (Bool × Socket)
unfolding send_all
send_erred socket buf len = do
  result ← send_all socket.answers buf len
  ok (
    eq_ℤ result.ret rc_err,
    record socket { answers = result.answers; outgoing = socket.outgoing ++ result.bytes },
  )

-- `malloc(hdr_len + 1)` and the assertion on it: a negative size is too large, and the sum
-- overflows at INT_MAX. Printing behind the end of the buffer is undefined.
unfoldable pub print_into : Msg → ℤ → Run (ℤ × Bytes)
unfolding print_header
print_into msg (negsuc _) = died
print_into msg (pos n) = do
  (rc, buf) ← print_header msg (pos n)
  if leb (length buf) (n + 1) then ok (rc, buf) else fault

-- What the two functions that send a message do first: `erred` and the socket.
unfoldable pub send_header : Socket → Msg → Run (Bool × Socket)
unfolding assert_not_equals
send_header socket msg = do
  let hdr_len = get_header_size msg
  assert_not_equals (pos 0) hdr_len
  (rc, hdr_buf) ← print_into msg hdr_len
  if succeeded rc then send_erred socket hdr_buf hdr_len else ok (true, socket)

unfoldable pub after_get_body : Socket → ℤ × Option Bytes × ℤ → Run (Bool × Socket)
unfolding send_erred
after_get_body socket (rc, none, len) = ok (true, socket)
after_get_body socket (rc, some body, len) =
    if succeeded rc then send_erred socket body len else ok (true, socket)

-- What they do next; `bodyless` is what they set `erred` to where there is no body.
unfoldable pub send_body : Socket → Msg → Bool → Run (Bool × Socket)
send_body socket msg bodyless = do
  size ← get_body_size msg
  if ltb_ℤ (pos 0) size then get_body msg >>= after_get_body socket else ok (bodyless, socket)

-- The common body of the two functions.
unfoldable pub send_parts : Socket → Msg → Bool → Run (ℤ × Socket)
send_parts socket msg bodyless = do
  (hdr_erred, s) ← send_header socket msg
  (body_erred, t) ← send_body s msg bodyless
  ok (if hdr_erred || body_erred then rc_err else rc_ok, t)

abbrev pub header_max : ℕ
header_max = 1024

-- What both functions that receive a message do: the return code, `*msg` and the socket.
unfoldable pub recv_parts : Socket → Run (ℤ × Option Msg × Socket)
unfolding parse
recv_parts socket = do
  (msg, rest) ← parse socket.incoming header_max
  let after = record socket { incoming = rest }
  elim msg [ none ↦ ok (rc_err, none, after) | some m ↦ ok (rc_ok, some m, after) ]

unfoldable pub endpoint_recv_msg : Socket → Run (ℤ × Option Msg × Socket)
unfolding recv_parts
endpoint_recv_msg socket = recv_parts socket

-- A message without a body is sent as a header alone.
unfoldable pub endpoint_send_msg : Socket → Msg → Run (ℤ × Socket)
unfolding send_parts
endpoint_send_msg socket msg = send_parts socket msg false

unfoldable pub connector_recv_msg : Socket → Run (ℤ × Option Msg × Socket)
unfolding recv_parts
connector_recv_msg socket = recv_parts socket

-- A message without a body is sent as well, and counts as an error.
unfoldable pub connector_send_msg : Socket → Msg → Run (ℤ × Socket)
unfolding send_parts
connector_send_msg socket msg = send_parts socket msg true

-- `close`, before the object is freed.
unfoldable pub close : Socket → Socket
close socket = record socket { is_open = false }

-- A function of the user of the library, which may read the clock, whose text at the call is its
-- first argument, read and write the socket and change the message. It may end the process as the
-- library does.
abbrev pub Callback : Type 0
Callback = Bytes → Socket → Msg → Run (ℤ × Socket × Msg)

pub record Ops : Type 0 where
  pub hms_validate : Option Callback
  pub hms_accepts : Option Callback
  pub hms_handle : Option Callback

pub data EndpointState : Type 0 where
  endpoint_free endpoint_used : EndpointState

pub record Endpoint : Type 0 where
  pub socket : Socket
  pub status : EndpointState
  pub ops : Ops

-- `hms_endpoint_destroy` and `hms_connector_destroy`: what the peer still sees.
unfoldable pub endpoint_destroy : Endpoint → Socket
unfolding close
endpoint_destroy endpoint = close endpoint.socket

-- What the system calls of `hms_connector_init` say.
pub record Network : Type 0 where
  pub host_found : Bool
  pub has_socket : Bool
  pub connects : Bool
  pub sets_nodelay : Bool
  pub connected : Socket

-- A `hms_connector *`: NULL, the invalid pointer that is returned where `connect` fails, or a
-- connector.
pub data ConnectorPtr : Type 0 where
  null_connector invalid_connector : ConnectorPtr
  new_connector : Socket → ConnectorPtr

unfoldable pub connector_init : Network → ℤ → Run ConnectorPtr
unfolding assert_not_equals
connector_init net port =
    assert_not_equals (pos 0) port
    >> (if not net.host_found || not net.has_socket
        then ok null_connector
        else if not net.connects
        then ok invalid_connector
        else assert_not_equals rc_err (if net.sets_nodelay then rc_ok else rc_err)
          >> ok (new_connector net.connected))
