-- ===== src/Server.antt =====
-- The server of src/hms/hermes.c: the default functions, and what a thread of the pool does with a
-- connection.
pub mod Calls
pub mod Conversation
pub mod Default
pub mod Loop
pub mod Ping
pub mod Session
use hermes_c.CText.{Bytes, codes, same_nocase}
use hermes_c.Endpoint.{
  Callback, Endpoint, Ops, endpoint_destroy, endpoint_free, endpoint_recv_msg, endpoint_send_msg,
}
use hermes_c.Msg.{Msg, add_named_header, create, destroy, get_verb, set_verb}
use hermes_c.Parser.{succeeded}
use hermes_c.Prelude.{ℕ, zero, suc, Bool, not, Option, none, some, ℤ, pos, if◌then◌else◌}
use hermes_c.Process.{Run, ok, fault, ◌>>=◌, ◌>>◌, rc_ok, rc_err}
use hermes_c.Socket.{Socket}

unfoldable pub default_validate : Callback
default_validate now socket msg = ok (rc_ok, socket, msg)

unfoldable pub default_accepts : Callback
default_accepts now socket msg = ok (rc_err, socket, msg)

-- A reply is sent, whether or not that fails, and freed; `rc` is returned.
unfoldable pub reply_with : Msg → ℤ → Socket → Msg → Run (ℤ × Socket × Msg)
unfolding endpoint_send_msg
reply_with reply rc socket msg = do
  (_, after) ← endpoint_send_msg socket reply
  _ ← destroy reply
  ok (rc, after, msg)

-- Without a reply.
unfoldable pub no_reply : ℤ → Socket → Msg → Run (ℤ × Socket × Msg)
no_reply rc socket msg = destroy create >>= λ _. ok (rc, socket, msg)

-- `now` is what `asctime_r` writes.
unfoldable pub default_reply : Bytes → Option Bytes → Socket → Msg → Run (ℤ × Socket × Msg)
unfolding reply_with no_reply
default_reply now none socket msg = reply_with (set_verb create (codes "ERROR")) rc_err socket msg
default_reply now (some verb) socket msg =
    if same_nocase verb (codes "PING")
    then reply_with (set_verb create (codes "PONG")) rc_ok socket msg
    else if same_nocase verb (codes "INFO")
    then reply_with (add_named_header (set_verb create (codes "INFO")) (codes "Localtime") now)
        rc_ok socket msg
    else no_reply rc_err socket msg

unfoldable pub default_handle : Callback
unfolding default_reply
default_handle now socket msg = default_reply now (get_verb msg).1 socket msg

-- The members of `ops` that are NULL are replaced.
abbrev or_default : Option Callback → Callback → Option Callback
or_default none f = some f
or_default (some g) f = some g

unfoldable pub endpoint_init : Socket → Ops → Endpoint
endpoint_init fd ops = record {
  socket = fd;
  status = endpoint_free;
  ops = record {
    hms_validate = or_default ops.hms_validate default_validate;
    hms_accepts = or_default ops.hms_accepts default_accepts;
    hms_handle = or_default ops.hms_handle default_handle;
  };
}

-- A call through a pointer.
abbrev pub call : Option Callback → Callback
call none now socket msg = fault
call (some f) now socket msg = f now socket msg

unfoldable pub after_accepts : Bytes → Ops → ℤ × Socket × Msg → Run (ℤ × Socket × Msg)
unfolding default_handle
after_accepts now ops (rc, socket, msg) =
    if succeeded rc then call ops.hms_handle now socket msg else default_handle now socket msg

unfoldable pub after_validate : Bytes → Ops → ℤ → ℤ × Socket × Msg → Run (ℤ × Socket × Msg)
after_validate now ops status (rc, socket, msg) =
    if succeeded rc
    then call ops.hms_accepts now socket msg >>= after_accepts now ops
    else ok (status, socket, msg)

abbrev validate : Ops → Callback
validate ops now socket msg = elim ops.hms_validate [
  | none ↦ ok (rc_ok, socket, msg)
  | some f ↦ f now socket msg
]

-- A message that was received: validated and handled, or dropped. `status` is `handler_status`,
-- which a message that is not valid leaves as it was.
unfoldable pub serve_msg : Bytes → Ops → ℤ → Socket → Msg → Run (ℤ × Socket)
serve_msg now ops status socket msg = do
  checked ← validate ops now socket msg
  (rc, after, used) ← after_validate now ops status checked
  _ ← destroy used
  ok (rc, after)

-- A round of the loop behind `hms_endpoint_recv_msg`.
unfoldable pub after_recv :
    (ℤ → Socket → Run Socket) → Bytes → Ops → ℤ → ℤ × Option Msg × Socket → Run Socket
after_recv next now ops status (rc, none, socket) = if succeeded rc then fault else ok socket
after_recv next now ops status (rc, some msg, socket) =
    if succeeded rc
    then serve_msg now ops status socket msg >>= (λ (r, s). if succeeded r then next r s else ok s)
    else ok socket

-- The text of the time in each round of the loop, from the next one on.
abbrev pub Clock : Type 0
Clock = ℕ → Bytes

abbrev pub later_on : Clock → Clock
later_on clock n = clock (suc n)

-- The loop of `_hms_handle_endpoint`, with fuel; it ends with the socket to be closed.
unfoldable pub serve_loop : ℕ → Clock → Ops → ℤ → Socket → Run Socket
serve_loop zero clock ops status socket = fault
serve_loop (suc fuel) clock ops status socket =
    endpoint_recv_msg socket
    >>= after_recv (serve_loop fuel (later_on clock) ops) (clock 0) ops status

unfoldable pub handle_endpoint : ℕ → Clock → Endpoint → Run Socket
handle_endpoint fuel clock endpoint = do
  last ← serve_loop fuel clock endpoint.ops (pos 0) endpoint.socket
  ok (endpoint_destroy (record endpoint { socket = last }))
