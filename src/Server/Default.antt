-- ===== src/Server/Default.antt =====
-- The default functions of src/hms/hermes.c: which reply goes out for which verb.
use hermes_c.CText.{Bytes, codes, same_nocase}
use hermes_c.Endpoint.Delivery.{
  FilledBody, SendReport, endpoint_send_msg-send_result, send_result-SendReport,
}
use hermes_c.Endpoint.Send.{send_result, transmit_body}
use hermes_c.Msg.Print.Laws.{wire}
use hermes_c.Msg.Valid.{create-IsValid, set_verb-IsValid, add_named_header-IsValid, destroy-IsValid}
use hermes_c.Msg.{
  Msg, add_named_header, append_named, create_named_header, del_named, del_named_header, create,
  find_named, get_verb, set_verb,
}
use hermes_c.Parser.Outcome.{IsComplete}
use hermes_c.Prelude.{
  false, sizes, ◌+◌, ◌<◌, ◌≡◌, inl, inr, refl, ap, subst, ◌^◌, Option, none, some, [], ◌∷◌, ◌++◌,
  append-nil, append_assoc, arith, int_min_abs, length, ℤ, if◌then◌else◌, Bool-cases,
}
use hermes_c.Process.{Run, ok, rc_ok, rc_err}
use hermes_c.Server.{default_handle, default_reply, no_reply, reply_with}
use hermes_c.Socket.{Socket}

-- The text of the reply to a verb, and the return code.
abbrev pub reply_text : Bytes → Option Bytes → Option Bytes × ℤ
reply_text now none = (some (codes "ERROR\n.\n"), rc_err)
reply_text now (some v) =
    if same_nocase v (codes "PING")
    then (some (codes "PONG\n.\n"), rc_ok)
    else if same_nocase v (codes "INFO")
    then (some (codes "INFO\nLocaltime:" ++ (now ++ codes "\n.\n")), rc_ok)
    else (none, rc_err)

-- What the default function does: it returns the code, keeps the message, and either sends
-- nothing or tries to send the reply.
abbrev pub Replies : Socket → Msg → Option Bytes × ℤ → Run (ℤ × Socket × Msg) → Type 0
Replies s m (none, rc) run = run ≡ ok (rc, s, m)
Replies s m (some t, rc) run = (r : ℤ × Socket) × (run ≡ ok (rc, r.1, m)) × SendReport s t r

-- The same as an equation: the reply is sent by a run of `__send_all`.
abbrev Transmits : Socket → Msg → Option Bytes × ℤ → Run (ℤ × Socket × Msg) → Type 0
Transmits s m (t, rc) run = run ≡ ok (rc, (transmit_body s t false).1, m)

bare-IsComplete : (v : Bytes) → IsComplete (set_verb create v)
bare-IsComplete v = record {
  valid = set_verb-IsValid v create-IsValid;
  no_length = λ _. unfold set_verb create find_named in refl;
}

reply_with-Transmits :
    (s : Socket) (m : Msg) (v t : Bytes) (reply : Msg) (rc : ℤ)
    → reply.verb ≡ some v
    → reply.content ≡ none
    → IsComplete reply
    → wire v reply.headers reply.named_headers ≡ t
    → length t + 1 < int_min_abs
    → Transmits s m (some t, rc) (reply_with reply rc s m)
unfolding reply_with
reply_with-Transmits s m v t reply rc e empty i w fits =
    rw (endpoint_send_msg-send_result s reply v e i (rw w fits))
      (rw (destroy-IsValid reply i.valid) (rw (empty, w) refl))

bare-Transmits :
    (s : Socket) (m : Msg) (v : Bytes) (rc : ℤ)
    → length v < 10
    → Transmits s m (some (v ++ codes "\n.\n"), rc) (reply_with (set_verb create v) rc s m)
bare-Transmits s m v rc l =
    reply_with-Transmits s m v (v ++ codes "\n.\n") (set_verb create v) rc (unfold set_verb in refl)
      (unfold set_verb create in refl) (bare-IsComplete v) (unfold set_verb create in refl)
      (grind sizes)

-- The reply to INFO.
info_reply : Bytes → Msg
info_reply now = add_named_header (set_verb create (codes "INFO")) (codes "Localtime") now

info_fields :
    (now : Bytes)
    → ((info_reply now).verb ≡ some (codes "INFO"))
      × ((info_reply now).content ≡ none)
      × ((info_reply now).headers ≡ [])
      × ((info_reply now).named_headers ≡ create_named_header (codes "Localtime") now ∷ [])
unfolding info_reply set_verb create add_named_header del_named_header del_named append_named
    same_nocase
info_fields now = (refl, refl, refl, refl)

info-IsComplete : (now : Bytes) → IsComplete (info_reply now)
unfolding info_reply same_nocase
info-IsComplete now =
    let start = bare-IsComplete (codes "INFO") in
    record {
      valid = add_named_header-IsValid (codes "Localtime") now start.valid (inr refl);
      no_length =
          λ _. rw (info_fields now).3 (unfold find_named create_named_header same_nocase in refl);
    }

info-Transmits :
    (now : Bytes) (s : Socket) (m : Msg)
    → length now < 2 ^ 30
    → Transmits s m
        (some (codes "INFO\nLocaltime:" ++ (now ++ codes "\n.\n")), rc_ok)
        (reply_with (info_reply now) rc_ok s m)
info-Transmits now s m l =
    reply_with-Transmits s m (codes "INFO") (codes "INFO\nLocaltime:" ++ (now ++ codes "\n.\n"))
      (info_reply now) rc_ok (info_fields now).0 (info_fields now).1 (info-IsComplete now)
      (rw ((info_fields now).2, (info_fields now).3)
        (unfold create_named_header in
          ap (λ t. codes "INFO\nLocaltime:" ++ t) (append_assoc now (codes "\n") (codes ".\n"))))
      (grind sizes)

default_reply-Transmits :
    (now : Bytes) (s : Socket) (m : Msg) (v : Option Bytes)
    → length now < 2 ^ 30
    → Transmits s m (reply_text now v) (default_reply now v s m)
unfolding default_reply info_reply no_reply
default_reply-Transmits now s m none l = bare-Transmits s m (codes "ERROR") rc_err (omega arith)
default_reply-Transmits now s m (some v) l = elim (Bool-cases (same_nocase v (codes "PING"))) [
  | inl ping ↦ rw ping (bare-Transmits s m (codes "PONG") rc_ok (omega arith))
  | inr other ↦ rw other (elim (Bool-cases (same_nocase v (codes "INFO"))) [
    | inl info ↦ rw info (info-Transmits now s m l)
    | inr unknown ↦ rw unknown (rw (destroy-IsValid create create-IsValid) refl)
  ])
]

get_verb_lem : (m : Msg) → (get_verb m).1 ≡ m.verb
unfolding get_verb
get_verb_lem m = ground arith

pub default_handle-transmit_body :
    (now : Bytes) (s : Socket) (m : Msg)
    → length now < 2 ^ 30
    → default_handle now s m
      ≡ ok ((reply_text now m.verb).1, (transmit_body s (reply_text now m.verb).0 false).1, m)
unfolding default_handle
default_handle-transmit_body now s m l =
    rw (get_verb_lem m) (default_reply-Transmits now s m m.verb l)

-- A reply that is there is not empty.
pub reply_text-FilledBody : (now : Bytes) (v : Option Bytes) → FilledBody (reply_text now v).0
reply_text-FilledBody now none = omega arith
reply_text-FilledBody now (some v) = elim (Bool-cases (same_nocase v (codes "PING"))) [
  | inl ping ↦ rw ping (omega arith)
  | inr other ↦ rw other (elim (Bool-cases (same_nocase v (codes "INFO"))) [
    | inl info ↦ rw info (omega arith)
    | inr unknown ↦ rw unknown tt
  ])
]

Transmits-Replies :
    (s : Socket) (m : Msg) (t : Option Bytes) (rc : ℤ) (run : Run (ℤ × Socket × Msg))
    → FilledBody t
    → Transmits s m (t, rc) run
    → Replies s m (t, rc) run
Transmits-Replies s m none rc run f e = e
Transmits-Replies s m (some t) rc run f e = (
  send_result s t none false,
  e,
  subst (λ x. SendReport s x (send_result s t none false)) (append-nil t)
      (send_result-SendReport s t none f tt),
)

-- For every message and whatever `send` does, the default function returns -1 without a verb and
-- sends ERROR, answers PING by PONG and INFO by the time, up to the case of letters, with 0, and
-- returns -1 on any other verb without sending. It fails no assertion, when the text of the time is
-- shorter than 2^30.
pub default_handle-Replies :
    (now : Bytes) (s : Socket) (m : Msg)
    → length now < 2 ^ 30
    → Replies s m (reply_text now m.verb) (default_handle now s m)
default_handle-Replies now s m l =
    Transmits-Replies s m (reply_text now m.verb).0 (reply_text now m.verb).1
      (default_handle now s m) (reply_text-FilledBody now m.verb)
      (default_handle-transmit_body now s m l)
