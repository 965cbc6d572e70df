-- ===== src/CopyClient.antt =====
-- The client of src/tests/copy_client.c, a user of the library: it sends a file in COPY messages.
-- Its arguments and its messages on stdout and stderr are left out.
pub mod Chunk
pub mod File
pub mod Loop
use hermes_c.CText.Number.{print_int}
use hermes_c.CText.{Bytes, codes}
use hermes_c.Endpoint.{connector_send_msg}
use hermes_c.Msg.Body.{set_body}
use hermes_c.Msg.Print.{get_header_size, print_header}
use hermes_c.Msg.{Msg, add_named_header, create, destroy, set_verb}
use hermes_c.Prelude.{
  Bool, ltb, eq_ℤ, ◌+◌, ◌-◌, ltb, int_min_abs, ℕ, zero, suc, ◌-◌, ◌==◌, ◌+◌, Option, none, some, ℤ,
  pos, negsuc, if◌then◌else◌, length, take, drop, ltb_ℤ, eq_ℤ,
}
use hermes_c.Process.{Run, ok, died, fault, ◌>>=◌, rc_ok, rc_err}
use hermes_c.Socket.{Socket}

-- The message before its body.
unfoldable pub chunk_request : Bytes → ℕ → Msg
unfolding create set_verb add_named_header
chunk_request dst offset =
    add_named_header (add_named_header (set_verb create (codes "COPY")) (codes "Filename") dst)
      (codes "Offset") (print_int (pos offset))

-- The block under `__DEBUG_PRINT_MSG_HEADER__`, which the file defines: the buffer has the size of
-- the header, `hms_msg_print_header` fills it without a NUL, and `fprintf` of "%s" reads on behind
-- it.
unfoldable pub print_debug : Msg → Run (Unit {0})
unfolding print_header get_header_size
print_debug request = print_header request (get_header_size request) >>= λ _. fault

-- What `pread` returned goes into the body; the message is sent, and what sending returns is
-- dropped. `debug` says whether `__DEBUG_PRINT_MSG_HEADER__` is defined.
unfoldable pub send_data : Bool → Msg → Bytes → ℕ → Socket → Run (ℤ × Socket)
unfolding set_body connector_send_msg print_debug
send_data debug request bytes len socket =
    if length bytes == len
    then set_body request bytes (pos len) >>= (λ filled.
      connector_send_msg socket filled >>= λ (_, after).
      (if debug then print_debug filled else ok tt) >>= λ _.
      destroy filled >>= λ _. ok (rc_ok, after))
    else destroy request >>= λ _. ok (rc_err, socket)

-- `src` is the file, if it can be opened. `malloc(len + 1)` fails where the sum overflows or is
-- negative; `malloc(0)` does not, and `pread` of (size_t) -1 bytes would write behind the buffer.
unfoldable pub send_chunk : Bool → Option Bytes → Bytes → ℕ → ℤ → Socket → Run (ℤ × Socket)
unfolding chunk_request send_data
send_chunk debug none dst offset len socket =
    destroy (chunk_request dst offset) >>= λ _. ok (rc_err, socket)
send_chunk debug (some file) dst offset (pos len) socket =
    if ltb (len + 1) int_min_abs
    then send_data debug (chunk_request dst offset) (take len (drop offset file)) len socket
    else destroy (chunk_request dst offset) >>= λ _. ok (rc_err, socket)
send_chunk debug (some file) dst offset (negsuc zero) socket = fault
send_chunk debug (some file) dst offset (negsuc (suc _)) socket =
    destroy (chunk_request dst offset) >>= λ _. ok (rc_err, socket)

-- Behind a chunk: an error ends the loop.
abbrev pub after_chunk : (Socket → Run (ℤ × Socket)) → ℤ × Socket → Run (ℤ × Socket)
after_chunk rest (status, after) = if eq_ℤ status rc_err then ok (rc_err, after) else rest after

-- The loop of `main`, for a size of the chunks that is not negative, with fuel; each round sends a
-- byte at least, or ends the process. `left` counts the bytes of the file from `offset` on.
unfoldable pub send_file : Bool → ℕ → Option Bytes → Bytes → ℕ → ℕ → ℕ → Socket → Run (ℤ × Socket)
unfolding send_chunk
send_file debug zero src dst chunk_size offset left socket = fault
send_file debug (suc fuel) src dst chunk_size offset left socket =
    let len = if ltb chunk_size left then chunk_size else left in
    let rest = send_file debug fuel src dst chunk_size (offset + len) (left - len) in
    if left == 0
    then ok (rc_ok, socket)
    else send_chunk debug src dst offset (pos len) socket >>= after_chunk rest
