-- ===== src/Tests/Samples.antt =====
-- Concrete messages, connections and a pool, with the facts that the theorems ask of them.
use hermes_c.CText.Number.{atoi, digits, print_int, scan, skip_space, strtol}
use hermes_c.CText.{Bytes, codes, is_space, same_nocase}
use hermes_c.Manager.{Task, ThreadPool}
use hermes_c.Msg.Print.Laws.{wire}
use hermes_c.Msg.Valid.{IsValid}
use hermes_c.Msg.{Msg, UHeader, NHeader, find_named}
use hermes_c.Parser.Outcome.{IsComplete}
use hermes_c.Parser.{str_strip, strip_back}
use hermes_c.Server.{Clock}
use hermes_c.Prelude.{
  every, every-All, none_of, none_of-All, ◌≡◌, refl, inr, true, false, ◌==◌, Option, none, some,
  List, [], ◌∷◌, ◌++◌, arith, cons-ne-nil, pos,
}
use hermes_c.Server.Session.{CanRead, Request}
use hermes_c.Socket.{Input, NoErrors, Socket}
use hermes_c.Wire.Header.{IsReadable}
use hermes_c.Wire.RoundTrip.{IsSendable}
use hermes_c.Wire.{IsField, IsWord, dot_after, line_of, is_line_byte, is_word_byte}

-- A clock that stands still.
abbrev pub noon : Clock
noon n = codes "now"

abbrev pub go_header : UHeader
go_header = record { val = codes "a" }

abbrev pub go_length : NHeader
go_length = record { key = codes "Content-Length"; val = codes "1" }

-- "GO a", with a body of one byte.
abbrev pub go_msg : Msg
go_msg = record {
  id = none;
  verb = some (codes "GO");
  headers = go_header ∷ [];
  num_headers = pos 1;
  named_headers = go_length ∷ [];
  num_named_headers = pos 1;
  content_len = pos 1;
  content = some (codes "x");
}

pub go_msg-IsValid : IsValid go_msg
unfolding find_named same_nocase atoi strtol scan
go_msg-IsValid = record {
  counted = refl;
  named_counted = refl;
  distinct = (refl, tt);
  body = (refl, omega arith, omega arith, (codes "1", refl, refl));
}

go-IsWord : IsWord (codes "GO")
go-IsWord = (cons-ne-nil _ _, every-All is_word_byte (codes "GO") refl)

-- A field of two sample headers: the length, and one more.
pub sample-IsField :
    (h : NHeader)
    → none_of (λ c. c == b':') h.key ≡ true
    → str_strip h.key ≡ h.key
    → str_strip h.val ≡ h.val
    → every is_line_byte (line_of h) ≡ true
    → dot_after false (line_of h) ≡ false
    → IsField h
sample-IsField h n k v l d = record {
  no_colon = none_of-All (λ c. c == b':') h.key n;
  key_stripped = k;
  val_stripped = v;
  quiet = (every-All is_line_byte (line_of h) l, d);
}

pub go_msg-IsReadable : IsReadable (codes "GO") (go_header ∷ []) (go_length ∷ [])
unfolding find_named str_strip strip_back skip_space is_space
go_msg-IsReadable = record {
  verb_word = go-IsWord;
  header_words = ((cons-ne-nil _ _, every-All is_word_byte (codes "a") refl), tt);
  first_quiet = (every-All is_line_byte (codes "GO a") refl, refl);
  fields = (sample-IsField go_length refl refl refl refl refl, tt);
  distinct = (refl, tt);
}

pub go_msg-IsSendable : IsSendable go_msg (codes "GO")
unfolding find_named same_nocase print_int digits
go_msg-IsSendable = record {
  valid = go_msg-IsValid;
  verb = refl;
  readable = go_msg-IsReadable;
  body = (omega arith, omega arith, refl);
}

pub go_msg-IsComplete : IsComplete go_msg
go_msg-IsComplete = record { valid = go_msg-IsValid; no_length = λ e. absurd cc }

-- The bytes of that message and of the next one, in three chunks.
abbrev pub go_input : Input
go_input = codes "GO a\nCont" ∷ codes "ent-Length:1\n.\n" ∷ codes "xPING" ∷ []

abbrev pub minus_one : NHeader
minus_one = record { key = codes "Content-Length"; val = codes "-1" }

pub minus_one-IsReadable : IsReadable (codes "GO") [] (minus_one ∷ [])
unfolding find_named str_strip strip_back skip_space is_space
minus_one-IsReadable = record {
  verb_word = go-IsWord;
  header_words = tt;
  first_quiet = (every-All is_line_byte (codes "GO") refl, refl);
  fields = (sample-IsField minus_one refl refl refl refl refl, tt);
  distinct = (refl, tt);
}

-- Connections that take bytes in pieces, or break in the second call.
abbrev pub good_socket : Socket
good_socket = record {
  incoming = go_input;
  answers = some 5 ∷ some 100 ∷ some 100 ∷ [];
  outgoing = [];
  is_open = true;
}

abbrev pub broken_socket : Socket
broken_socket = record good_socket { answers = some 5 ∷ none ∷ [] }

-- A request without headers, and three in a row in two chunks.
abbrev pub ping_msg : Msg
ping_msg = record {
  id = none;
  verb = some (codes "PING");
  headers = [];
  num_headers = pos 0;
  named_headers = [];
  num_named_headers = pos 0;
  content_len = pos 0;
  content = none;
}

pub ping_msg-IsSendable : IsSendable ping_msg (codes "PING")
unfolding find_named
ping_msg-IsSendable = record {
  valid = record { counted = refl; named_counted = refl; distinct = tt; body = refl };
  verb = refl;
  readable = record {
    verb_word = (cons-ne-nil _ _, every-All is_word_byte (codes "PING") refl);
    header_words = tt;
    first_quiet = (every-All is_line_byte (codes "PING") refl, refl);
    fields = tt;
    distinct = tt;
  };
  body = refl;
}

pub ping_msg-IsComplete : IsComplete ping_msg
ping_msg-IsComplete = record {
  valid = ping_msg-IsSendable.valid;
  no_length = λ _. ping_msg-IsSendable.body;
}

abbrev pub three_requests : List Request
three_requests =
    record { msg = ping_msg; verb = codes "PING" }
    ∷ record { msg = go_msg; verb = codes "GO" }
    ∷ record { msg = ping_msg; verb = codes "PING" }
    ∷ []

pub three_requests-CanRead : CanRead three_requests
three_requests-CanRead = (
  ping_msg-IsSendable,
  omega arith,
  (go_msg-IsSendable, omega arith, (ping_msg-IsSendable, omega arith, tt)),
)

abbrev pub session_socket : Socket
session_socket = record {
  incoming = codes "PING\n.\nGO a\nContent-Length" ∷ codes ":1\n.\nxPING\n.\n" ∷ [];
  answers = some 100 ∷ some 1 ∷ some 1 ∷ some 1 ∷ some 1 ∷ some 1 ∷ some 1 ∷ [];
  outgoing = [];
  is_open = true;
}

-- A connection that ends before a message.
abbrev pub silent_socket : Socket
silent_socket = record { incoming = []; answers = []; outgoing = []; is_open = true }

abbrev list_take : List Task → Option (Task × List Task)
list_take [] = none
list_take (t ∷ ts) = some (t, ts)

abbrev list_take_none : (p : List Task) → list_take p ≡ none → p ≡ []
list_take_none [] h = refl
list_take_none (t ∷ ts) h = cc

abbrev list_take_some :
    (p : List Task) (t : Task) (q : List Task) → list_take p ≡ some (t, q) → p ≡ t ∷ q
list_take_some [] t q h = cc
list_take_some (x ∷ xs) t q h = cc

-- A pool without a bound.
abbrev pub list_pool : ThreadPool (List Task)
list_pool = record {
  tpool_init = λ n q b. [];
  tpool_add_work = λ p t. (pos 1, p ++ t ∷ []);
  tpool_destroy = λ p f. p;
  tpool_take = list_take;
  queued = λ p. p;
  inits = λ n q b. refl;
  adds = λ p t. inr refl;
  takes_none = list_take_none;
  takes_some = list_take_some;
  destroys = λ p f. inr refl;
}

abbrev pub go_text : Bytes
go_text = wire (codes "GO") (go_header ∷ []) (go_length ∷ [])

pub go_input-NoErrors : NoErrors go_input
go_input-NoErrors = (cons-ne-nil _ _, (cons-ne-nil _ _, (cons-ne-nil _ _, tt)))
