-- ===== src/CopyServer/Requests.antt =====
-- What the server of src/tests/copy_server.c does with the requests of its clients.
use hermes_c.CText.Number.RoundTrip.{atoi-print_int}
use hermes_c.CText.Number.{print_int}
use hermes_c.CText.{Bytes, codes, same_nocase}
use hermes_c.CopyServer.{
  Disk, Write, after_extract, copy_accepts, copy_handle, copy_ops, copy_validate, with_arguments,
}
use hermes_c.Endpoint.{header_max}
use hermes_c.Msg.Body.Laws.{get_body-IsValid}
use hermes_c.Msg.Body.Store.{get_body_size-some}
use hermes_c.Msg.Body.{get_body_size}
use hermes_c.Msg.Print.Laws.{body_bytes, wire}
use hermes_c.Msg.Valid.{IsValid, destroy-IsValid}
use hermes_c.Msg.{Msg, destroy, get_named_header, get_verb}
use hermes_c.Parser.{parse}
use hermes_c.Prelude.{
  ℕ, suc, ◌≡◌, ◌∙◌, ◌⊎◌, ◌≤◌, inl, inr, refl, ap, true, Option, none, some, ◌++◌, arith, ℤ, pos,
  eq_ℤ, if◌then◌else◌, length, IsInt,
}
use hermes_c.Process.{Run, ok, died, fault, ◌>>=◌, rc_ok, rc_err}
use hermes_c.Server.Session.{recv_some}
use hermes_c.Server.{
  Clock, after_accepts, after_recv, after_validate, endpoint_init, handle_endpoint, serve_loop,
  serve_msg,
}
use hermes_c.Socket.{Input, NoErrors, Socket, stream}
use hermes_c.Wire.RoundTrip.{SameMessage, IsSendable, parse-print_header}

-- Every message passes.
validates : (m : Msg) → copy_validate m ≡ ok rc_ok
unfolding copy_validate get_verb
validates m = ground arith

accepted :
    (m : Msg) (v : Bytes)
    → m.verb ≡ some v
    → same_nocase v (codes "COPY") ≡ true
    → copy_accepts m ≡ rc_ok
unfolding copy_accepts get_verb
accepted m v e c = ground (arith, e, c)

size_of_body :
    (m : Msg) (b : Bytes) → IsValid m → m.content ≡ some b → get_body_size m ≡ ok (pos (length b))
size_of_body m b i e =
    let (exact, p, _, (v, found, same)) = rw e at i.body in
    get_body_size-some m {v = v} found same ∙ ap ok exact

pub written :
    (disk : Disk) (m : Msg) (f b : Bytes) (z : ℤ)
    → IsValid m
    → IsInt z
    → m.content ≡ some b
    → get_named_header m (codes "Filename") ≡ (rc_ok, some f)
    → get_named_header m (codes "Offset") ≡ (rc_ok, some (print_int z))
    → disk.opens f ≡ true
    → copy_handle disk m
      ≡ ok (
        if eq_ℤ (disk.pwrite (record { filename = f; offset = z; bytes = b })) (pos (length b))
            then rc_ok
            else rc_err,
        some (record { filename = f; offset = z; bytes = b }),
      )
unfolding copy_handle with_arguments after_extract
written disk m f b z i n e name off o =
    rw (name, off)
      (rw o (
        rw (size_of_body m b i e, get_body-IsValid m i)
          (rw (e, atoi-print_int z n) (ground arith))))

-- Without a name or an offset.
missing :
    (disk : Disk) (m : Msg)
    → ((get_named_header m (codes "Filename")).1 ≡ none)
      ⊎ ((get_named_header m (codes "Offset")).1 ≡ none)
    → copy_handle disk m ≡ fault
unfolding copy_handle with_arguments
missing disk m (inl name) = rw name refl
missing disk m (inr off) = rw off (no_offset (get_named_header m (codes "Filename")).1)
  where
    no_offset : (f : Option Bytes) → with_arguments disk m f none ≡ fault
    no_offset none = refl
    no_offset (some f) = refl

-- The code that the library gets of a call, the same with the message, and what it does then.
abbrev pub code : Socket → ℤ × Option Write → Run (ℤ × Socket)
code s (rc, _) = ok (rc, s)

abbrev answer : Socket → Msg → ℤ × Option Write → Run (ℤ × Socket × Msg)
answer s m (rc, _) = ok (rc, s, m)

abbrev drop_msg : ℤ × Socket × Msg → Run (ℤ × Socket)
drop_msg (rc, s, m) = destroy m >>= λ _. ok (rc, s)

dropped :
    (s : Socket) (m : Msg) (r : Run (ℤ × Option Write))
    → IsValid m
    → (r >>= answer s m >>= drop_msg) ≡ (r >>= code s)
dropped s m died i = refl
dropped s m fault i = refl
dropped s m (ok (rc, w)) i = rw (destroy-IsValid m i) refl

-- The server hands a COPY message to the last of the three.
pub serves :
    (now : Bytes) (disk : Disk) (fd s : Socket) (status : ℤ) (m : Msg) (v : Bytes)
    (run : Run (ℤ × Option Write))
    → IsValid m
    → m.verb ≡ some v
    → same_nocase v (codes "COPY") ≡ true
    → copy_handle disk m ≡ run
    → serve_msg now (endpoint_init fd (copy_ops disk)).ops status s m ≡ (run >>= code s)
unfolding serve_msg after_validate after_accepts endpoint_init
serves now disk fd s status m v run i e c h =
    rw (validates m) (rw (accepted m v e c) (rw h (dropped s m run i)))

-- A request to copy as a client sends it.
pub record IsCopy (m : Msg) (v : Bytes) : Type 0 where
  pub sendable : IsSendable m v
  pub copies : same_nocase v (codes "COPY") ≡ true
  pub fits : length (wire v m.headers m.named_headers) ≤ header_max

loop_stops :
    (fuel : ℕ) (clock : Clock) (disk : Disk) (s : Socket) (m r : Msg) (v : Bytes) (later : Input)
    → IsCopy m v
    → ((get_named_header m (codes "Filename")).1 ≡ none)
      ⊎ ((get_named_header m (codes "Offset")).1 ≡ none)
    → parse s.incoming header_max ≡ ok (some r, later)
    → SameMessage r m
    → serve_loop (suc fuel) clock (endpoint_init s (copy_ops disk)).ops (pos 0) s ≡ fault
unfolding serve_loop after_recv
loop_stops fuel clock disk s m r v later i lacks parsed same =
    let stops =
      missing disk r (rw (same.named (codes "Filename"), same.named (codes "Offset")) lacks) in
    rw (recv_some s r later parsed) (
      rw
        (serves (clock 0) disk s (record s { incoming = later }) (pos 0) r v fault same.valid
          (same.verb ∙ i.sendable.verb) i.copies stops)
        refl)

-- A COPY message that a client sends without the name of a file or without an offset, its header at
-- most 1024 bytes, leads the server to undefined behaviour as the first of a connection, however it
-- is cut into chunks, whatever follows it and however many rounds the loop has.
pub handle_endpoint-copy_ops :
    (fuel : ℕ) (clock : Clock) (disk : Disk) (s : Socket) (m : Msg) (v rest : Bytes)
    → IsCopy m v
    → ((get_named_header m (codes "Filename")).1 ≡ none)
      ⊎ ((get_named_header m (codes "Offset")).1 ≡ none)
    → NoErrors s.incoming
    → stream s.incoming ≡ wire v m.headers m.named_headers ++ (body_bytes m.content ++ rest)
    → handle_endpoint (suc fuel) clock (endpoint_init s (copy_ops disk)) ≡ fault
unfolding handle_endpoint endpoint_init
handle_endpoint-copy_ops fuel clock disk s m v rest i lacks fine spells =
    let (_, r, later, parsed, _, same) =
      parse-print_header m v rest s.incoming header_max (pos 0) i.sendable fine spells i.fits
        (omega arith) in
    rw (loop_stops fuel clock disk s m r v later i lacks parsed same) refl
