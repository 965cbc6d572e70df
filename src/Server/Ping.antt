-- ===== src/Server/Ping.antt =====
-- What a client of src/hms/hermes.c reads after it asked a server for a sign of life.
use hermes_c.CText.{codes, same_nocase}
use hermes_c.Endpoint.Exchange.{recv_parts-some}
use hermes_c.Endpoint.{connector_recv_msg, header_max}
use hermes_c.Msg.{Msg, find_named}
use hermes_c.Parser.Chunks.{Follows}
use hermes_c.Prelude.{
  ◌≡◌, ◌∙◌, refl, true, none, some, [], ◌∷◌, ◌++◌, arith, cons-ne-nil, List, pos,
}
use hermes_c.Process.{ok, rc_ok}
use hermes_c.Server.{Clock, later_on}
use hermes_c.Server.Session.{Request, replies}
use hermes_c.Socket.{NoErrors, Socket, stream}
use hermes_c.Wire.RoundTrip.{IsSendable, parse-print_header}

abbrev pong : Msg
pong = record {
  id = none;
  verb = some (codes "PONG");
  headers = [];
  num_headers = pos 0;
  named_headers = [];
  num_named_headers = pos 0;
  content_len = pos 0;
  content = none;
}

pong-IsSendable : IsSendable pong (codes "PONG")
unfolding find_named
pong-IsSendable = record {
  valid = record { counted = refl; named_counted = refl; distinct = tt; body = refl };
  verb = refl;
  readable = record {
    verb_word = (cons-ne-nil _ _, (refl, (refl, (refl, (refl, tt)))));
    header_words = tt;
    first_quiet = ((refl, (refl, (refl, (refl, tt)))), refl);
    fields = tt;
    distinct = tt;
  };
  body = refl;
}

pub replies-ping :
    (clock : Clock) (r : Request) (rs : List Request)
    → same_nocase r.verb (codes "PING") ≡ true
    → replies clock (r ∷ rs) ≡ codes "PONG\n.\n" ++ replies (later_on clock) rs
replies-ping clock r rs ping = rw ping refl

-- When the replies of a server to requests that start with a PING come in at a client, in any
-- chunks without an error, then `hms_connector_recv_msg` returns 0 and a message of the verb PONG,
-- without headers and body, and leaves the later replies unread.
pub connector_recv_msg-pong :
    (clock : Clock) (r : Request) (rs : List Request) (c : Socket)
    → same_nocase r.verb (codes "PING") ≡ true
    → NoErrors c.incoming
    → stream c.incoming ≡ replies clock (r ∷ rs)
    → (d : Socket) × (m : Msg) × (connector_recv_msg c ≡ ok (rc_ok, some m, d))
      × (m.verb ≡ some (codes "PONG"))
      × (m.headers ≡ [])
      × (m.content ≡ none)
      × Follows d.incoming (replies (later_on clock) rs)
unfolding connector_recv_msg
connector_recv_msg-pong clock r rs c ping fine spells =
    let (_, back, left, parsed, follows, same) =
      parse-print_header pong (codes "PONG") (replies (later_on clock) rs) c.incoming header_max
        (pos 0) pong-IsSendable fine (spells ∙ replies-ping clock r rs ping) (omega arith)
        (omega arith) in
    (
      record c { incoming = left },
      back,
      recv_parts-some c back left parsed,
      same.verb,
      same.headers,
      same.content,
      follows,
    )
