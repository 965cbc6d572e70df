-- ===== src/Wire/RoundTrip.antt =====
-- A message that src/hms/hms_msg.c prints is read back by src/hms/hms_parser.c.
use hermes_c.CText.Number.{print_int}
use hermes_c.CText.{Bytes}
use hermes_c.Msg.Body.Laws.{filled}
use hermes_c.Msg.Headers.{get_named_header-value_result, value_result}
use hermes_c.Msg.Print.Laws.{body_bytes, wire, print_header-wire}
use hermes_c.Msg.Print.{print_header}
use hermes_c.Msg.Valid.{IsValid}
use hermes_c.Msg.{Msg, UHeader, NHeader, content_length, find_named, get_named_header}
use hermes_c.Parser.Chunks.{Follows}
use hermes_c.Parser.{parse}
use hermes_c.Prelude.{
  ℕ, ◌+◌, ◌<◌, ◌≤◌, ◌≡◌, ◌∙◌, refl, sym, ap, Option, none, some, List, ◌++◌, length, ℤ, pos,
  int_min_abs,
}
use hermes_c.Process.{ok, rc_ok}
use hermes_c.Socket.{Input, stream, NoErrors}
use hermes_c.Wire.Header.{IsReadable, header_msg, parse-wire}
use hermes_c.Wire.Read.{ReadsBack, bare_message, bare-ReadsBack, body_message, body-ReadsBack}

-- A body has a Content-Length that prints its length, and without one there is none.
abbrev pub CanonicalBody : Option Bytes → List NHeader → Type 0
CanonicalBody none ns = find_named content_length ns ≡ none
CanonicalBody (some b) ns =
    (0 < length b)
    × (length b + 1 < int_min_abs)
    × (find_named content_length ns ≡ some (print_int (pos (length b))))

-- A message that the library can send and read back.
pub record IsSendable (m : Msg) (v : Bytes) : Type 0 where
  pub valid : IsValid m
  pub verb : m.verb ≡ some v
  pub readable : IsReadable v m.headers m.named_headers
  pub body : CanonicalBody m.content m.named_headers

-- Equal but for the order of the named headers.
pub record SameMessage (r m : Msg) : Type 0 where
  pub valid : IsValid r
  pub verb : r.verb ≡ m.verb
  pub headers : r.headers ≡ m.headers
  pub content : r.content ≡ m.content
  pub named : (k : Bytes) → get_named_header r k ≡ get_named_header m k

named_back :
    (r m : Msg) (ns : List NHeader)
    → m.named_headers ≡ ns
    → ((k : Bytes) → find_named k r.named_headers ≡ find_named k ns)
    → (k : Bytes) → get_named_header r k ≡ get_named_header m k
named_back r m ns e h k =
    get_named_header-value_result r k
    ∙ ap value_result (h k ∙ ap (find_named k) (sym e))
    ∙ sym (get_named_header-value_result m k)

same_message :
    (r m : Msg) (v : Bytes)
    → m.verb ≡ some v
    → ReadsBack v m.headers m.named_headers m.content r
    → SameMessage r m
same_message r m v e (i, verb, headers, content, named) = record {
  valid = i;
  verb = verb ∙ sym e;
  headers = headers;
  content = content;
  named = named_back r m m.named_headers refl named;
}

read_back :
    (v : Bytes) (us : List UHeader) (ns : List NHeader) (c : Option Bytes) (s : Bytes) (inp : Input)
    (max : ℕ)
    → IsReadable v us ns
    → CanonicalBody c ns
    → NoErrors inp
    → stream inp ≡ wire v us ns ++ (body_bytes c ++ s)
    → length (wire v us ns) ≤ max
    → max + 1 < int_min_abs
    → (r : Msg) × (rest : Input) × (parse inp max ≡ ok (some r, rest))
      × Follows rest s
      × ReadsBack v us ns c r
read_back v us ns none s inp max readable none_set fine spells fits small =
    let (rest, g, e) =
      parse-wire v us ns readable inp s max (record { fine = fine; spells = spells }) fits small in
    (
      header_msg v us ns,
      rest,
      e ∙ bare_message v us ns readable rest none_set,
      g,
      bare-ReadsBack v us ns readable none_set,
    )
read_back v us ns (some b) s inp max readable (p, l, h) fine spells fits small =
    let (after, f, e) =
      parse-wire v us ns readable inp (b ++ s) max (record { fine = fine; spells = spells }) fits
        small in
    let (rest, g, e2) = body_message v us ns readable b p l h s after f in
    (filled (header_msg v us ns) b, rest, e ∙ e2, g, body-ReadsBack v us ns readable b p l h)

-- A sendable message is printed to a text, and when the chunks that are read spell that text and
-- its body, and the header fits the buffer, whose size is below INT_MAX, `hms_msg_parse` returns a
-- valid message with the same verb, headers, body and named headers, and leaves what follows
-- unread.
pub parse-print_header :
    (m : Msg) (v s : Bytes) (inp : Input) (max : ℕ) (len : ℤ)
    → IsSendable m v
    → NoErrors inp
    → stream inp ≡ wire v m.headers m.named_headers ++ (body_bytes m.content ++ s)
    → length (wire v m.headers m.named_headers) ≤ max
    → max + 1 < int_min_abs
    → (print_header m len ≡ ok (rc_ok, wire v m.headers m.named_headers))
      × (r : Msg) × (rest : Input) × (parse inp max ≡ ok (some r, rest))
      × Follows rest s
      × SameMessage r m
parse-print_header m v s inp max len sendable fine spells fits small =
    let (r, rest, e, g, back) =
      read_back v m.headers m.named_headers m.content s inp max sendable.readable sendable.body fine
        spells fits small in
    (
      (print_header-wire m len sendable.verb).0,
      r,
      rest,
      e,
      g,
      same_message r m v sendable.verb back,
    )
