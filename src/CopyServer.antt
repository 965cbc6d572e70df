-- ===== src/CopyServer.antt =====
-- The server of src/tests/copy_server.c, a user of the library: its operations, which write the
-- body of a COPY message to a file. The prompt and the port in its `main` are left out.
pub mod Requests
pub mod Writes
use hermes_c.CText.Number.{atoi}
use hermes_c.CText.{Bytes, codes, same_nocase}
use hermes_c.Endpoint.{Callback, Ops}
use hermes_c.Msg.Body.{get_body, get_body_size}
use hermes_c.Msg.{Msg, get_named_header, get_verb}
use hermes_c.Parser.{succeeded}
use hermes_c.Prelude.{
  Bool, false, not, ◌&&◌, Option, none, some, ℤ, pos, eq_ℤ, ltb_ℤ, if◌then◌else◌,
}
use hermes_c.Process.{Run, ok, fault, ◌>>=◌, rc_ok, rc_err}

-- What `pwrite` is called with.
pub record Write : Type 0 where
  pub filename : Bytes
  pub offset : ℤ
  pub bytes : Bytes

-- What the system calls say: whether `open` gives a descriptor, and what `pwrite` returns.
pub record Disk : Type 0 where
  pub opens : Bytes → Bool
  pub pwrite : Write → ℤ

-- `is_copy` starts as false, and is assigned only for another verb, and then false.
abbrev is_copy : Bool → ℤ × Option Bytes → Run Bool
is_copy start (rc, none) = if succeeded rc then fault else ok start
is_copy start (rc, some verb) =
    ok (if succeeded rc && not (same_nocase verb (codes "COPY")) then false else start)

unfoldable pub copy_validate : Msg → Run ℤ
unfolding get_verb
copy_validate msg = is_copy false (get_verb msg) >>= λ copy.
    if copy && not (ltb_ℤ (pos 0) msg.num_headers)
    then ok rc_err
    else if copy && not (eq_ℤ msg.num_named_headers (pos 3))
    then ok rc_err
    else if copy
    then get_body_size msg >>= (λ size. ok (if ltb_ℤ (pos 0) size then rc_ok else rc_err))
    else ok rc_ok

abbrev accepts_verb : Option Bytes → ℤ
accepts_verb none = rc_err
accepts_verb (some verb) = if same_nocase verb (codes "COPY") then rc_ok else rc_err

unfoldable pub copy_accepts : Msg → ℤ
unfolding get_verb
copy_accepts msg = accepts_verb (get_verb msg).1

-- Behind `hms_msg_get_body`: the return code, and the call of `pwrite`.
unfoldable pub after_extract : Disk → Bytes → ℤ → ℤ → ℤ × Option Bytes × ℤ → ℤ × Option Write
after_extract disk filename offset size (rc, none, data_len) = (rc_err, none)
after_extract disk filename offset size (rc, some bytes, data_len) =
    let w : Write = record { filename = filename; offset = offset; bytes = bytes } in
    if eq_ℤ data_len size
    then (if eq_ℤ (disk.pwrite w) size then rc_ok else rc_err, some w)
    else (rc_err, none)

-- Up to the declaration of `data`, an error goes to a label behind it, where `data` is tested and
-- freed without a value: that is undefined.
unfoldable pub with_arguments : Disk → Msg → Option Bytes → Option Bytes → Run (ℤ × Option Write)
unfolding after_extract
with_arguments disk msg none offset_str = fault
with_arguments disk msg (some filename) none = fault
with_arguments disk msg (some filename) (some offset_str) =
    if disk.opens filename
    then get_body_size msg >>= (λ size.
      get_body msg >>= λ body. ok (after_extract disk filename (atoi offset_str) size body))
    else fault

unfoldable pub copy_handle : Disk → Msg → Run (ℤ × Option Write)
unfolding with_arguments
copy_handle disk msg =
    with_arguments disk msg (get_named_header msg (codes "Filename")).1
      (get_named_header msg (codes "Offset")).1

-- As the library calls them: none uses the connection or changes the message.
abbrev validate_call : Callback
validate_call now socket msg = copy_validate msg >>= λ rc. ok (rc, socket, msg)

abbrev accepts_call : Callback
accepts_call now socket msg = ok (copy_accepts msg, socket, msg)

abbrev handle_call : Disk → Callback
handle_call disk now socket msg = copy_handle disk msg >>= λ (rc, _). ok (rc, socket, msg)

abbrev pub copy_ops : Disk → Ops
copy_ops disk = record {
  hms_validate = some validate_call;
  hms_accepts = some accepts_call;
  hms_handle = some (handle_call disk);
}
