-- ===== src/Endpoint/Send.antt =====
-- What the peer is sent by the socket helper `__send_all` and the functions that send a message
-- in src/hms/hermes.c.
use hermes_c.CText.{Bytes}
use hermes_c.Endpoint.{
  Sent, before, send_loop, send_all, send_erred, print_into, send_header, after_get_body, send_body,
  send_parts,
}
use hermes_c.Msg.Body.Laws.{get_body-IsValid, body_of}
use hermes_c.Msg.Body.Store.{get_body_size-some}
use hermes_c.Msg.Body.{get_body_size, get_body}
use hermes_c.Msg.Print.Laws.{wire, print_header-wire}
use hermes_c.Msg.Print.{get_header_size}
use hermes_c.Msg.Valid.{content_len_zero}
use hermes_c.Msg.{Msg, content_length, find_named}
use hermes_c.Parser.Outcome.{IsComplete}
use hermes_c.Prelude.{
  ℕ, zero, suc, ◌+◌, ◌<◌, ◌≤◌, ◌≡◌, ◌∙◌, ◌⊎◌, inl, inr, refl, ap, Bool, false, ◌||◌, Option, none,
  some, [], ◌∷◌, ◌++◌, length, take, All, drop, leb, if◌then◌else◌, ℤ, pos, eq_ℤ, lt→ltb, arith,
  Bool-cases, append_assoc, to_int_id, int_min_abs, take-length, le→leb, length-drop,
  take-append-drop,
}
use hermes_c.Process.{ok, rc_ok, rc_err}
use hermes_c.Socket.{Answers, Socket}

-- What the loop may do with the bytes that are left: take all of them, or fail behind some.
abbrev pub SendOutcome : ℕ → Bytes → Sent → Type 0
SendOutcome sent left r =
    ((r.ret ≡ pos (sent + length left)) × (r.bytes ≡ left))
    ⊎ ((r.ret ≡ rc_err) × (rest : Bytes) × (r.bytes ++ rest ≡ left) × (0 < length rest))

SendOutcome-before :
    (sent k : ℕ) (left : Bytes) (r : Sent)
    → k < length left
    → SendOutcome (sent + k) (drop k left) r
    → SendOutcome sent left (before (take k left) r)
SendOutcome-before sent k left r l (inl (e, b)) = inl (
  e ∙ ap pos (omega (arith, length-drop k left)),
  ap (λ t. take k left ++ t) b ∙ take-append-drop k left,
)
SendOutcome-before sent k left r l (inr (e, rest, b, p)) = inr (
  e,
  rest,
  append_assoc (take k left) r.bytes rest ∙ ap (λ t. take k left ++ t) b ∙ take-append-drop k left,
  p,
)

pub send_loop_lem :
    (calls : Answers) (sent : ℕ) (left : Bytes)
    → 0 < length left
    → SendOutcome sent left (send_loop calls sent left)
unfolding send_loop
send_loop_lem [] sent left p = inr (refl, left, refl, p)
send_loop_lem (none ∷ calls) sent left p = inr (refl, left, refl, p)
send_loop_lem (some k ∷ calls) sent left p = elim (Bool-cases (leb (length left) k)) [
  | inl all ↦ rw all (inl (refl, refl))
  | inr less ↦ rw less (
      SendOutcome-before sent k left (send_loop calls (sent + k) (drop k left)) (ground arith)
        (send_loop_lem calls (sent + k) (drop k left) (ground (arith, length-drop k left))))
]

-- Calls that all take something; one for each byte is enough.
abbrev Takes : Option ℕ → Type 0
Takes none = ⊥
Takes (some zero) = ⊥
Takes (some (suc k)) = Unit {0}

abbrev pub Willing : Answers → Type 0
Willing = All Takes

abbrev pub AllSent : ℕ → Bytes → Answers → Sent → Type 0
AllSent sent left calls r =
    (r.ret ≡ pos (sent + length left))
    × Willing r.answers
    × (length calls ≤ length r.answers + length left)

AllSent-before :
    (sent k : ℕ) (left : Bytes) (a : Option ℕ) (calls : Answers) (r : Sent)
    → suc k < length left
    → AllSent (sent + suc k) (drop (suc k) left) calls r
    → AllSent sent left (a ∷ calls) (before (take (suc k) left) r)
AllSent-before sent k left a calls r l (e, w, n) = (
  e ∙ ap pos (omega (arith, length-drop (suc k) left)),
  w,
  omega (arith, length-drop (suc k) left),
)

pub send_loop-Willing :
    (calls : Answers) (sent : ℕ) (left : Bytes)
    → Willing calls
    → 0 < length left
    → length left ≤ length calls
    → AllSent sent left calls (send_loop calls sent left)
unfolding send_loop
send_loop-Willing [] sent left w p l = absurd (omega arith)
send_loop-Willing (some zero ∷ calls) sent left (t, w) p l = absurd t
send_loop-Willing (none ∷ calls) sent left (t, w) p l = absurd t
send_loop-Willing (some (suc k) ∷ calls) sent left (t, w) p l =
    elim (Bool-cases (leb (length left) (suc k))) [
      | inl all ↦ rw all (refl, w, omega arith)
      | inr less ↦ rw less (
          AllSent-before sent k left (some (suc k)) calls
            (send_loop calls (sent + suc k) (drop (suc k) left)) (ground arith)
            (send_loop-Willing calls (sent + suc k) (drop (suc k) left) w
              (ground (arith, length-drop (suc k) left))
              (ground (arith, length-drop (suc k) left))))
    ]

not_zero : {n : ℕ} → 0 < n → eq_ℤ (pos n) (pos 0) ≡ false
not_zero p = ground arith

-- `__send_all` on a buffer of its length runs the loop on all of it.
send_all-send_loop :
    (calls : Answers) (buf : Bytes)
    → 0 < length buf
    → send_all calls buf (pos (length buf)) ≡ ok (send_loop calls 0 buf)
unfolding send_all
send_all-send_loop calls buf p = ground (arith, take-length buf)

-- What a socket is after `__send_all`, and whether it failed.
abbrev pub transmit : Socket → Bytes → Bool × Socket
transmit s t =
    let r = send_loop s.answers 0 t in
    (eq_ℤ r.ret rc_err, record s { answers = r.answers; outgoing = s.outgoing ++ r.bytes })

send_erred-transmit :
    (s : Socket) (t : Bytes) → 0 < length t → send_erred s t (pos (length t)) ≡ ok (transmit s t)
unfolding send_erred
send_erred-transmit s t p = rw (send_all-send_loop s.answers t p)

module _ (s : Socket) (m : Msg) (v : Bytes) (e : m.verb ≡ some v)
    (fits : length (wire v m.headers m.named_headers) + 1 < int_min_abs) where
  text_size : get_header_size m ≡ pos (length (wire v m.headers m.named_headers))
  text_size = (print_header-wire m (pos 0) e).1 ∙ to_int_id _ (omega arith)

  print_into-wire :
      print_into m (pos (length (wire v m.headers m.named_headers)))
      ≡ ok (rc_ok, wire v m.headers m.named_headers)
  unfolding print_into
  print_into-wire =
      rw ((print_header-wire m (pos (length (wire v m.headers m.named_headers))) e).0) (
        rw (
          le→leb (length (wire v m.headers m.named_headers))
            (length (wire v m.headers m.named_headers) + 1) (omega arith)))

  send_header-transmit :
      0 < length (wire v m.headers m.named_headers)
      → send_header s m ≡ ok (transmit s (wire v m.headers m.named_headers))
  unfolding send_header
  send_header-transmit p = rw text_size (
      rw (not_zero p)
        (rw print_into-wire (send_erred-transmit s (wire v m.headers m.named_headers) p)))

-- What follows the header.
abbrev pub transmit_body : Socket → Option Bytes → Bool → Bool × Socket
transmit_body s none bodyless = (bodyless, s)
transmit_body s (some b) bodyless = transmit s b

get_body_size-none :
    (m : Msg)
    → m.content_len ≡ pos 0
    → find_named content_length m.named_headers ≡ none
    → get_body_size m ≡ ok (pos 0)
unfolding get_body_size
get_body_size-none m e f = ground arith

send_body-none :
    (s : Socket) (m : Msg) (bodyless : Bool)
    → get_body_size m ≡ ok (pos 0)
    → send_body s m bodyless ≡ ok (bodyless, s)
unfolding send_body
send_body-none s m bodyless e = rw e refl

send_body-some :
    (s : Socket) (m : Msg) (b : Bytes) (bodyless : Bool)
    → get_body_size m ≡ ok (pos (length b))
    → get_body m ≡ ok (rc_ok, some b, pos (length b))
    → 0 < length b
    → send_body s m bodyless ≡ ok (transmit s b)
unfolding send_body after_get_body
send_body-some s m b bodyless e g p =
    rw (e, g) (rw (lt→ltb 0 (length b) p) (send_erred-transmit s b p))

send_body-transmit_body :
    (s : Socket) (m : Msg) (c : Option Bytes) (bodyless : Bool)
    → m.content ≡ c
    → IsComplete m
    → send_body s m bodyless ≡ ok (transmit_body s c bodyless)
send_body-transmit_body s m none bodyless e i =
    send_body-none s m bodyless (get_body_size-none m (content_len_zero i.valid e) (i.no_length e))
send_body-transmit_body s m (some b) bodyless e i =
    let (exact, p, _, (v, found, same)) = rw e at i.valid.body in
    send_body-some s m b bodyless (get_body_size-some m {v = v} found same ∙ ap ok exact)
      (get_body-IsValid m i.valid ∙ ap (λ c. ok (body_of c)) e) p

-- What both functions that send a message do: the header, and then the body, even where the header
-- failed.
abbrev pub send_result : Socket → Bytes → Option Bytes → Bool → ℤ × Socket
send_result s text c bodyless =
    let (hdr_erred, after) = transmit s text in
    let (body_erred, last) = transmit_body after c bodyless in
    (if hdr_erred || body_erred then rc_err else rc_ok, last)

pub send_parts-send_result :
    (s : Socket) (m : Msg) (v : Bytes) (bodyless : Bool)
    → m.verb ≡ some v
    → IsComplete m
    → 0 < length (wire v m.headers m.named_headers)
    → length (wire v m.headers m.named_headers) + 1 < int_min_abs
    → send_parts s m bodyless
      ≡ ok (send_result s (wire v m.headers m.named_headers) m.content bodyless)
unfolding send_parts
send_parts-send_result s m v bodyless e i p fits = rw (send_header-transmit s m v e fits p) (
    rw
      (send_body-transmit_body (transmit s (wire v m.headers m.named_headers)).1 m m.content
        bodyless refl i)
      refl)
