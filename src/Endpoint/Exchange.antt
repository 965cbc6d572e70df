-- ===== src/Endpoint/Exchange.antt =====
-- A message from one end of a connection of src/hms/hermes.c to the other.
use hermes_c.CText.{Bytes}
use hermes_c.Endpoint.Delivery.{SendReport, endpoint_send_msg-SendReport}
use hermes_c.Endpoint.{connector_recv_msg, endpoint_send_msg, header_max, recv_parts}
use hermes_c.Msg.Print.Laws.{body_bytes, wire}
use hermes_c.Msg.{Msg}
use hermes_c.Parser.Chunks.{Follows}
use hermes_c.Parser.Outcome.{IsComplete}
use hermes_c.Parser.{parse}
use hermes_c.Prelude.{
  ◌≤◌, ◌≡◌, ◌∙◌, inl, inr, refl, sym, ap, Option, none, some, ◌++◌, append_assoc,
  append_cancel_left, arith, length, ℤ, pos,
}
use hermes_c.Process.{ok, rc_ok}
use hermes_c.Socket.{Input, NoErrors, Socket, stream}
use hermes_c.Wire.RoundTrip.{CanonicalBody, IsSendable, SameMessage, parse-print_header}

sendable_no_length :
    (m : Msg) (c : Option Bytes)
    → CanonicalBody c m.named_headers
    → c ≡ none
    → CanonicalBody none m.named_headers
sendable_no_length m none b e = b
sendable_no_length m (some _) b e = absurd cc

pub IsSendable-IsComplete : (m : Msg) (v : Bytes) → IsSendable m v → IsComplete m
IsSendable-IsComplete m v s = record {
  valid = s.valid;
  no_length = λ e. sendable_no_length m m.content s.body e;
}

pub recv_parts-some :
    (c : Socket) (r : Msg) (rest : Input)
    → parse c.incoming header_max ≡ ok (some r, rest)
    → recv_parts c ≡ ok (rc_ok, some r, record c { incoming = rest })
unfolding recv_parts
recv_parts-some c r rest e = rw e refl

-- What a message turns into at the receiving end.
pub record Received (c : Socket) (m : Msg) (rest : Bytes) (d : Socket) (r : Msg) : Type 0 where
  pub same : SameMessage r m
  pub left : Follows d.incoming rest
  pub outgoing : d.outgoing ≡ c.outgoing

-- A server sends a sendable message whose header is at most 1024 bytes, and `hms_endpoint_send_msg`
-- returns 0 after sending the bytes `sent`. When those come in, in any chunks, at the other end,
-- then `hms_connector_recv_msg` returns 0 and a message with the same verb, headers and body, and
-- what follows is left unread.
pub connector_recv_msg-endpoint_send_msg :
    (s after c : Socket) (m : Msg) (v sent rest : Bytes)
    → IsSendable m v
    → length (wire v m.headers m.named_headers) ≤ header_max
    → endpoint_send_msg s m ≡ ok (rc_ok, after)
    → after.outgoing ≡ s.outgoing ++ sent
    → NoErrors c.incoming
    → stream c.incoming ≡ sent ++ rest
    → (d : Socket) × (r : Msg) × (connector_recv_msg c ≡ ok (rc_ok, some r, d))
      × Received c m rest d r
unfolding connector_recv_msg
connector_recv_msg-endpoint_send_msg s after c m v sent rest sendable fits e out fine spells =
    let text = wire v m.headers m.named_headers in
    let (r, run, report) =
      endpoint_send_msg-SendReport s m v sendable.verb (IsSendable-IsComplete m v sendable)
        (omega arith) in
    let whole : sent ≡ text ++ body_bytes m.content =
      append_cancel_left s.outgoing sent (text ++ body_bytes m.content)
        (sym out ∙ sent_all r after (sym run ∙ e) (text ++ body_bytes m.content) report) in
    let spelled : stream c.incoming ≡ text ++ (body_bytes m.content ++ rest) =
      spells ∙ ap (λ t. t ++ rest) whole ∙ append_assoc text (body_bytes m.content) rest in
    let (_, back, left, parsed, follows, same) =
      parse-print_header m v rest c.incoming header_max (pos 0) sendable fine spelled fits
        (omega arith) in
    (
      record c { incoming = left },
      back,
      recv_parts-some c back left parsed,
      record { same = same; left = follows; outgoing = refl },
    )
  where
    sent_all :
        (r : ℤ × Socket) (last : Socket)
        → ok r ≡ ok (rc_ok, last)
        → (t : Bytes) → SendReport s t r
        → last.outgoing ≡ s.outgoing ++ t
    sent_all (rc, socket) last e t (_, inl (_, d)) =
        let same : socket ≡ last = cc in ap (λ x. x.outgoing) (sym same) ∙ d.outgoing
    sent_all (rc, socket) last e t (_, inr (f, _)) = absurd cc
