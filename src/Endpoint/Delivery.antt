-- ===== src/Endpoint/Delivery.antt =====
-- Whether a message that src/hms/hermes.c sends arrives: the return code against the bytes sent.
use hermes_c.CText.{Bytes}
use hermes_c.Endpoint.Send.{
  Willing, transmit, transmit_body, send_loop_lem, send_loop-Willing, send_result,
  send_parts-send_result,
}
use hermes_c.Endpoint.{endpoint_send_msg, connector_send_msg}
use hermes_c.Msg.Print.Laws.{body_bytes, wire, length-wire}
use hermes_c.Msg.Valid.{IsValid}
use hermes_c.Msg.{Msg, UHeader, NHeader}
use hermes_c.Parser.Outcome.{IsComplete}
use hermes_c.Prelude.{
  sizes, Bool-cases, ℕ, ◌+◌, ◌<◌, ◌≤◌, ◌≡◌, ◌∙◌, ◌⊎◌, inl, inr, refl, sym, ap, Bool, true, false,
  ◌||◌, Option, none, some, List, ◌++◌, append_assoc, append-nil, arith, eq_ℤ, if◌then◌else◌,
  int_min_abs, length, ℤ,
}
use hermes_c.Process.{ok, rc_ok, rc_err}
use hermes_c.Socket.{Socket}

pub wire_pos : (v : Bytes) (us : List UHeader) (ns : List NHeader) → 0 < length (wire v us ns)
wire_pos v us ns = omega (arith, length-wire v us ns)

-- A socket that has taken `t` after `s`, and is the same to its receiving side.
pub record Delivered (s : Socket) (t : Bytes) (r : Socket) : Type 0 where
  pub outgoing : r.outgoing ≡ s.outgoing ++ t
  pub incoming : r.incoming ≡ s.incoming
  pub is_open : r.is_open ≡ s.is_open

pub transmit-Delivered :
    (s : Socket) (t : Bytes)
    → 0 < length t
    → (transmit s t).0 ≡ false
    → Delivered s t (transmit s t).1
transmit-Delivered s t p e = elim (send_loop_lem s.answers 0 t p) [
  | inl (r, b) ↦ record { outgoing = ap (λ x. s.outgoing ++ x) b; incoming = refl; is_open = refl }
  | inr (r, _, _, _) ↦ absurd (ground (arith, r))
]

-- Calls enough for the bytes, each taking some.
abbrev pub Enough : ℕ → Socket → Type 0
Enough n s = Willing s.answers × (n ≤ length s.answers)

pub transmit-Enough :
    (s : Socket) (t : Bytes) (n : ℕ)
    → 0 < length t
    → Enough (length t + n) s
    → ((transmit s t).0 ≡ false) × Enough n (transmit s t).1
transmit-Enough s t n p (w, l) =
    let (r, v, k) = send_loop-Willing s.answers 0 t w p (omega arith) in
    (ap (λ z. eq_ℤ z rc_err) r, (v, omega arith))

-- A body that is there is not empty.
abbrev pub FilledBody : Option Bytes → Type 0
FilledBody none = Unit {0}
FilledBody (some b) = 0 < length b

content-FilledBody : (m : Msg) (c : Option Bytes) → m.content ≡ c → IsValid m → FilledBody c
content-FilledBody m none e i = tt
content-FilledBody m (some b) e i = (rw e at i.body).1

transmit_body-Delivered :
    (s : Socket) (c : Option Bytes) (bodyless : Bool)
    → FilledBody c
    → (transmit_body s c bodyless).0 ≡ false
    → Delivered s (body_bytes c) (transmit_body s c bodyless).1
transmit_body-Delivered s none bodyless f e = record {
  outgoing = sym (append-nil s.outgoing);
  incoming = refl;
  is_open = refl;
}
transmit_body-Delivered s (some b) bodyless f e = transmit-Delivered s b f e

Delivered-trans :
    (s m r : Socket) (t u : Bytes) → Delivered s t m → Delivered m u r → Delivered s (t ++ u) r
Delivered-trans s m r t u d e = record {
  outgoing = e.outgoing ∙ ap (λ x. x ++ u) d.outgoing ∙ append_assoc s.outgoing t u;
  incoming = e.incoming ∙ d.incoming;
  is_open = e.is_open ∙ d.is_open;
}

transmit_body-incoming :
    (s : Socket) (c : Option Bytes) (bodyless : Bool)
    → (transmit_body s c bodyless).1.incoming ≡ s.incoming
transmit_body-incoming s none bodyless = refl
transmit_body-incoming s (some b) bodyless = refl

-- The return code and the socket of a function that sends: 0 with everything sent, or -1 where
-- the calls of `send` were not enough. What the socket receives is not touched.
abbrev pub SendReport : Socket → Bytes → ℤ × Socket → Type 0
SendReport s t (rc, r) =
    (r.incoming ≡ s.incoming)
    × (((rc ≡ rc_ok) × Delivered s t r) ⊎ ((rc ≡ rc_err) × (¬ Enough (length t) s)))

-- The same for a client: a message without a body is sent, or not, with -1.
abbrev pub ClientReport : Socket → Bytes → Option Bytes → ℤ × Socket → Type 0
ClientReport s t none (rc, r) =
    (r.incoming ≡ s.incoming) × (rc ≡ rc_err) × (Delivered s t r ⊎ (¬ Enough (length t) s))
ClientReport s t (some b) r = SendReport s (t ++ b) r

pub send_result-Enough :
    (s : Socket) (t : Bytes) (c : Option Bytes) (n : ℕ)
    → 0 < length t
    → FilledBody c
    → Enough (length t + length (body_bytes c) + n) s
    → ((send_result s t c false).0 ≡ rc_ok) × Enough n (send_result s t c false).1
send_result-Enough s t none n p f e =
    let (h, k) = transmit-Enough s t n p (e.0, omega (arith, e.1)) in (rw h refl, k)
send_result-Enough s t (some b) n p f e =
    let (h, k) = transmit-Enough s t (length b + n) p (e.0, omega (arith, e.1)) in
    let (h2, k2) = transmit-Enough (transmit s t).1 b n f k in (rw h (rw h2 refl), k2)

transmit_all :
    (s : Socket) (t : Bytes)
    → 0 < length t
    → Delivered s t (transmit s t).1 ⊎ (¬ Enough (length t) s)
transmit_all s t p = elim (Bool-cases (transmit s t).0) [
  | inl failed ↦
      inr (λ e. let (sent, _) = transmit-Enough s t 0 p (e.0, omega (arith, e.1)) in absurd cc)
  | inr done ↦ inl (transmit-Delivered s t p done)
]

-- With a body, or for a server, a failure means that the calls were not enough.
pub send_result-SendReport :
    (s : Socket) (t : Bytes) (c : Option Bytes)
    → 0 < length t
    → FilledBody c
    → SendReport s (t ++ body_bytes c) (send_result s t c false)
send_result-SendReport s t c p f = (
  transmit_body-incoming (transmit s t).1 c false,
  report (transmit s t) (transmit_body (transmit s t).1 c false) (transmit-Delivered s t p)
      (transmit_body-Delivered (transmit s t).1 c false f)
      (λ e. (send_result-Enough s t c 0 p f (e.0, grind sizes)).0),
)
  where
    report :
        (h b : Bool × Socket)
        → (h.0 ≡ false → Delivered s t h.1)
        → (b.0 ≡ false → Delivered h.1 (body_bytes c) b.1)
        → (Enough (length (t ++ body_bytes c)) s → (if h.0 || b.0 then rc_err else rc_ok) ≡ rc_ok)
        → (((if h.0 || b.0 then rc_err else rc_ok) ≡ rc_ok) × Delivered s (t ++ body_bytes c) b.1)
          ⊎ (((if h.0 || b.0 then rc_err else rc_ok) ≡ rc_err)
              × (¬ Enough (length (t ++ body_bytes c)) s))
    report (true, m) b d e n = inr (refl, λ k. absurd (ground (arith, n k)))
    report (false, m) (true, r) d e n = inr (refl, λ k. absurd (ground (arith, n k)))
    report (false, m) (false, r) d e n =
        inl (refl, Delivered-trans s m r t (body_bytes c) (d refl) (e refl))

send_result-ClientReport :
    (s : Socket) (t : Bytes) (c : Option Bytes)
    → 0 < length t
    → FilledBody c
    → ClientReport s t c (send_result s t c true)
send_result-ClientReport s t none p f = (refl, ground arith, transmit_all s t p)
send_result-ClientReport s t (some b) p f = send_result-SendReport s t (some b) p f

complete_FilledBody : (m : Msg) → IsComplete m → FilledBody m.content
complete_FilledBody m i = content-FilledBody m m.content refl i.valid

-- A server sends a complete message with a verb by two runs of `__send_all`.
pub endpoint_send_msg-send_result :
    (s : Socket) (m : Msg) (v : Bytes)
    → m.verb ≡ some v
    → IsComplete m
    → length (wire v m.headers m.named_headers) + 1 < int_min_abs
    → endpoint_send_msg s m ≡ ok (send_result s (wire v m.headers m.named_headers) m.content false)
unfolding endpoint_send_msg
endpoint_send_msg-send_result s m v e i fits =
    send_parts-send_result s m v false e i (wire_pos v m.headers m.named_headers) fits

-- A complete message with a verb, whose header is not longer than an `int`, is sent by a server
-- without a failed assertion. The function returns 0 with the whole text and body sent, or -1 where
-- the calls of `send` were not enough: one failed, took nothing, or there were fewer than bytes.
-- What the socket receives is not touched.
pub endpoint_send_msg-SendReport :
    (s : Socket) (m : Msg) (v : Bytes)
    → m.verb ≡ some v
    → IsComplete m
    → length (wire v m.headers m.named_headers) + 1 < int_min_abs
    → (r : ℤ × Socket) × (endpoint_send_msg s m ≡ ok r)
      × SendReport s (wire v m.headers m.named_headers ++ body_bytes m.content) r
endpoint_send_msg-SendReport s m v e i fits =
    let text = wire v m.headers m.named_headers in
    (
      send_result s text m.content false,
      endpoint_send_msg-send_result s m v e i fits,
      send_result-SendReport s text m.content (wire_pos v m.headers m.named_headers)
          (complete_FilledBody m i),
    )

-- A client does so as well.
pub connector_send_msg-send_result :
    (s : Socket) (m : Msg) (v : Bytes)
    → m.verb ≡ some v
    → IsComplete m
    → length (wire v m.headers m.named_headers) + 1 < int_min_abs
    → connector_send_msg s m ≡ ok (send_result s (wire v m.headers m.named_headers) m.content true)
unfolding connector_send_msg
connector_send_msg-send_result s m v e i fits =
    send_parts-send_result s m v true e i (wire_pos v m.headers m.named_headers) fits

-- Under the same conditions a client sends the message without a failed assertion, and what the
-- socket receives is not touched. With a body, it returns 0 with the whole text and body sent, or
-- -1 where the calls of `send` were not enough. Without a body it returns -1 in any case, and the
-- whole text was sent or the calls of `send` were not enough.
pub connector_send_msg-ClientReport :
    (s : Socket) (m : Msg) (v : Bytes)
    → m.verb ≡ some v
    → IsComplete m
    → length (wire v m.headers m.named_headers) + 1 < int_min_abs
    → (r : ℤ × Socket) × (connector_send_msg s m ≡ ok r)
      × ClientReport s (wire v m.headers m.named_headers) m.content r
connector_send_msg-ClientReport s m v e i fits =
    let text = wire v m.headers m.named_headers in
    (
      send_result s text m.content true,
      connector_send_msg-send_result s m v e i fits,
      send_result-ClientReport s text m.content (wire_pos v m.headers m.named_headers)
          (complete_FilledBody m i),
    )
