-- ===== src/Server/Session.antt =====
-- A whole connection of a server of src/hms/hermes.c with the default operations: the messages that
-- come in, and the replies that go out.
use hermes_c.CText.{Bytes}
use hermes_c.Endpoint.Delivery.{Enough}
use hermes_c.Endpoint.{Ops, endpoint_destroy, close, endpoint_recv_msg, header_max, recv_parts}
use hermes_c.Msg.Print.Laws.{body_bytes, wire}
use hermes_c.Msg.Valid.{IsValid, destroy-IsValid}
use hermes_c.Msg.{Msg}
use hermes_c.Parser.Chunks.{Follows}
use hermes_c.Parser.{parse_within, hdr_loop, parse, read_header, succeeded}
use hermes_c.Prelude.{
  sizes, ℕ, zero, suc, ◌+◌, ◌^◌, ◌<◌, ◌≤◌, ◌≡◌, ◌∙◌, refl, sym, ap, subst, inl, inr, false, Option,
  none, some, List, [], ◌∷◌, ◌++◌, Bool-cases, append_assoc, append-nil, arith, if◌then◌else◌,
  length, ℤ, pos,
}
use hermes_c.Process.{Run, ok, rc_ok, rc_err}
use hermes_c.Server.Default.{default_handle-transmit_body, reply_text, reply_text-FilledBody}
use hermes_c.Endpoint.Send.{transmit_body}
use hermes_c.Endpoint.Delivery.{FilledBody, transmit-Delivered, transmit-Enough}
use hermes_c.Server.{
  Clock, later_on, after_accepts, after_recv, after_validate, default_accepts, default_handle,
  default_validate, endpoint_init, handle_endpoint, serve_loop, serve_msg,
}
use hermes_c.Socket.{Input, NoErrors, Socket, read, stream}
use hermes_c.Wire.RoundTrip.{IsSendable, parse-print_header}

-- A message that a client sends, with its verb.
pub record Request : Type 0 where
  pub msg : Msg
  pub verb : Bytes

abbrev pub request_text : Request → Bytes
request_text r = wire r.verb r.msg.headers r.msg.named_headers

-- The bytes that a client sends.
abbrev pub requests : List Request → Bytes
requests [] = []
requests (r ∷ rs) = request_text r ++ (body_bytes r.msg.content ++ requests rs)

-- The messages can be read, and their headers fit the buffer.
abbrev pub CanRead : List Request → Type 0
CanRead [] = Unit {0}
CanRead (r ∷ rs) = IsSendable r.msg r.verb × (length (request_text r) ≤ header_max) × CanRead rs

-- A reply, and the later ones where the connection is kept.
abbrev pub reply_and : Option Bytes × ℤ → Bytes → Bytes
reply_and (t, rc) later = body_bytes t ++ (if succeeded rc then later else [])

-- What a server with the default operations answers, each request at the time of its round.
abbrev pub replies : Clock → List Request → Bytes
replies clock [] = []
replies clock (r ∷ rs) =
    reply_and (reply_text (clock 0) (some r.verb)) (replies (later_on clock) rs)

abbrev pub no_ops : Ops
no_ops = record { hms_validate = none; hms_accepts = none; hms_handle = none }

abbrev default_ops : Ops
default_ops = record {
  hms_validate = some default_validate;
  hms_accepts = some default_accepts;
  hms_handle = some default_handle;
}

-- What a socket is behind a reply, with `n` more bytes to send.
record Replied (s : Socket) (t : Option Bytes) (n : ℕ) (r : Socket) : Type 0 where
  outgoing : r.outgoing ≡ s.outgoing ++ body_bytes t
  incoming : r.incoming ≡ s.incoming
  enough : Enough n r

transmit_body-Replied :
    (s : Socket) (t : Option Bytes) (n : ℕ)
    → FilledBody t
    → Enough (length (body_bytes t) + n) s
    → Replied s t n (transmit_body s t false).1
transmit_body-Replied s none n f k = record {
  outgoing = sym (append-nil s.outgoing);
  incoming = refl;
  enough = (k.0, omega (arith, k.1));
}
transmit_body-Replied s (some t) n f k =
    let (sent, left) = transmit-Enough s t n f k in
    record { outgoing = (transmit-Delivered s t f sent).outgoing; incoming = refl; enough = left }

serve_msg-default :
    (now : Bytes) (status : ℤ) (s r : Socket) (m : Msg) (rc : ℤ)
    → default_handle now s m ≡ ok (rc, r, m)
    → IsValid m
    → serve_msg now default_ops status s m ≡ ok (rc, r)
unfolding serve_msg after_validate after_accepts default_validate default_accepts
serve_msg-default now status s r m rc e i = rw e (rw (destroy-IsValid m i) refl)

-- The end of the input is no message.
recv_end :
    (s : Socket)
    → s.incoming ≡ []
    → (d : Socket) × (endpoint_recv_msg s ≡ ok (rc_err, none, d)) × (d.outgoing ≡ s.outgoing)
unfolding endpoint_recv_msg recv_parts parse parse_within read_header hdr_loop read
recv_end s e = (record s { incoming = [] }, rw e refl, refl)

stream_nil : (inp : Input) → NoErrors inp → stream inp ≡ [] → inp ≡ []
stream_nil [] f e = refl
stream_nil ([] ∷ cs) (ne, f) e = absurd (ne refl)
stream_nil ((b ∷ bs) ∷ cs) (ne, f) e = absurd cc

-- A run that ends with `t` sent behind what was sent before.
abbrev Answered : Socket → Bytes → Run Socket → Type 0
Answered s t run = (last : Socket) × (run ≡ ok last) × (last.outgoing ≡ s.outgoing ++ t)

after_reply :
    (next : ℤ → Socket → Run Socket) (s r : Socket) (t : Option Bytes) (rc : ℤ) (later : Bytes)
    → Replied s t (length (if succeeded rc then later else [])) r
    → (Enough (length later) r → Answered r later (next rc r))
    → Answered s (reply_and (t, rc) later) (if succeeded rc then next rc r else ok r)
after_reply next s r t rc later p h = elim (Bool-cases (succeeded rc)) [
  | inl again ↦
      let (last, e, o) = h (rw again at p.enough) in
      rw again (
        last,
        e,
        o ∙ ap (λ x. x ++ later) p.outgoing ∙ append_assoc s.outgoing (body_bytes t) later,
      )
  | inr done ↦
      rw done (r, refl, p.outgoing ∙ ap (λ x. s.outgoing ++ x) (sym (append-nil (body_bytes t))))
]

-- A message that comes in is answered, and the rest follows.
handled :
    (next : ℤ → Socket → Run Socket) (now : Bytes) (status : ℤ) (s : Socket) (m : Msg)
    (v later : Bytes)
    → length now < 2 ^ 30
    → m.verb ≡ some v
    → IsValid m
    → Enough (length (reply_and (reply_text now (some v)) later)) s
    → ((r : Socket)
        → r.incoming ≡ s.incoming
        → Enough (length later) r
        → Answered r later (next (reply_text now (some v)).1 r))
    → Answered s
        (reply_and (reply_text now (some v)) later)
        (after_recv next now default_ops status (rc_ok, some m, s))
unfolding after_recv
handled next now status s m v later l e i k h =
    let (t, rc) = reply_text now (some v) in
    let r = (transmit_body s t false).1 in
    let run : default_handle now s m ≡ ok (rc, r, m) =
      subst
        (λ x.
          default_handle now s m
          ≡ ok ((reply_text now x).1, (transmit_body s (reply_text now x).0 false).1, m))
        e (default_handle-transmit_body now s m l) in
    let p =
      transmit_body-Replied s t (length (if succeeded rc then later else []))
        (reply_text-FilledBody now (some v)) (k.0, grind sizes) in
    rw (serve_msg-default now status s r m rc run i)
      (after_reply next s r t rc later p (h r p.incoming))

pub recv_some :
    (s : Socket) (m : Msg) (rest : Input)
    → parse s.incoming header_max ≡ ok (some m, rest)
    → endpoint_recv_msg s ≡ ok (rc_ok, some m, record s { incoming = rest })
unfolding endpoint_recv_msg recv_parts
recv_some s m rest e = rw e refl

serve_loop-replies :
    (fuel : ℕ) (rs : List Request) (clock : Clock) (status : ℤ) (s : Socket)
    → ((n : ℕ) → length (clock n) < 2 ^ 30)
    → CanRead rs
    → Follows s.incoming (requests rs)
    → Enough (length (replies clock rs)) s
    → length rs < fuel
    → Answered s (replies clock rs) (serve_loop fuel clock default_ops status s)
unfolding serve_loop
serve_loop-replies zero rs clock status s l c f k n = absurd (omega arith)
serve_loop-replies (suc fuel) [] clock status s l c f k n =
    let (d, e, o) = recv_end s (stream_nil s.incoming f.fine f.spells) in
    (d, rw e (unfold after_recv in refl), o ∙ sym (append-nil s.outgoing))
serve_loop-replies (suc fuel) (r ∷ rs) clock status s l (sendable, fits, c) f k n =
    let (_, back, rest, e, g, same) =
      parse-print_header r.msg r.verb (requests rs) s.incoming header_max (pos 0) sendable f.fine
        f.spells fits (omega arith) in
    rw (recv_some s back rest e) (
      handled (serve_loop fuel (later_on clock) default_ops) (clock 0) status
        (record s { incoming = rest }) back r.verb (replies (later_on clock) rs) (l 0)
        (same.verb ∙ sendable.verb) same.valid k
        (λ q i m.
          serve_loop-replies fuel rs (later_on clock) (reply_text (clock 0) (some r.verb)).1 q
            (λ n. l (suc n)) c (rw i g) m (omega arith)))

-- A server with the default operations reads the messages that a client sends, however they are cut
-- into chunks, and answers each by its verb, up to the first one whose reply ends the connection;
-- then, or at the end of the input, it closes the connection. This holds when the messages can be
-- read, their headers are at most 1024 bytes, no `read` fails, `send` takes enough and the text of
-- the time, which may be another one in each round, is shorter than 2^30 bytes; one round more than
-- there are messages is enough.
pub handle_endpoint-replies :
    (fuel : ℕ) (rs : List Request) (clock : Clock) (s : Socket)
    → ((n : ℕ) → length (clock n) < 2 ^ 30)
    → CanRead rs
    → NoErrors s.incoming
    → stream s.incoming ≡ requests rs
    → Enough (length (replies clock rs)) s
    → length rs < fuel
    → (last : Socket) × (handle_endpoint fuel clock (endpoint_init s no_ops) ≡ ok last)
      × (last.outgoing ≡ s.outgoing ++ replies clock rs)
      × (last.is_open ≡ false)
unfolding handle_endpoint endpoint_init endpoint_destroy close
handle_endpoint-replies fuel rs clock s l c fine spells k n =
    let (last, e, o) =
      serve_loop-replies fuel rs clock (pos 0) s l c (record { spells = spells; fine = fine }) k
        n in
    (close last, rw e refl, o, refl)
