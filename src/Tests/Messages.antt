-- ===== src/Tests/Messages.antt =====
-- The theorems on messages and the parser at concrete messages and inputs.
use hermes_c.CText.Number.{print_int, print_int, strtol}
use hermes_c.CText.{codes, same_nocase}
use hermes_c.Msg.Body.Clear.{IsCleared, del_body_lem}
use hermes_c.Msg.Body.Laws.{get_body-IsValid}
use hermes_c.Msg.Body.Size.{get_body_size_lem, size_of}
use hermes_c.Msg.Reach.{
  IsSafe, Reachable, Reachable-IsSafe, body_set, created, header_added, verb_set,
}
use hermes_c.Msg.Body.Store.{HoldsBody, set_body_lem}
use hermes_c.Msg.Body.{del_body, get_body, get_body_size, set_body}
use hermes_c.Msg.Headers.{
  get_header-del_header, get_header_lem, get_named_header-add_named_header,
  get_named_header-del_named_header,
}
use hermes_c.Msg.Print.Laws.{print_header-wire, wire}
use hermes_c.Msg.Print.{get_header_size, print_header}
use hermes_c.Msg.Valid.{IsValid, add_named_header-IsValid, create-IsValid}
use hermes_c.Msg.{
  Msg, set_verb, add_header, add_named_header, append_named, del_named, content_length, create,
  find_named, del_header, del_named_header, get_header, get_named_header,
}
use hermes_c.Parser.Chunks.{Follows}
use hermes_c.Parser.Stream.{BodyLoop, body_loop-stream}
use hermes_c.Parser.Consumes.{Consumes, parse-Consumes, remaining}
use hermes_c.Parser.Outcome.{Outcome}
use hermes_c.Parser.Same.{SameResult, parse-SameResult}
use hermes_c.Parser.Safe.{Parsed, parse_header-Parsed}
use hermes_c.Parser.{body_loop, parse, parse_header}
use hermes_c.Prelude.{
  ◌≡◌, refl, inl, inr, false, none, some, [], ◌∷◌, ◌++◌, arith, cons-ne-nil, if◌then◌else◌, length,
  pos, negsuc, to_int,
}
use hermes_c.Process.{died, ok, rc_err, rc_ok}
use hermes_c.Socket.{Input}
use hermes_c.Tests.Samples.{
  go_text, go_input-NoErrors, go_header, go_input, go_msg, go_msg-IsSendable, go_msg-IsValid,
  minus_one, minus_one-IsReadable,
}
use hermes_c.Wire.Abort.{parse-died}
use hermes_c.Wire.RoundTrip.{SameMessage, parse-print_header}

parse-print_header_example :
    (print_header go_msg (pos 0) ≡ ok (rc_ok, codes "GO a\nContent-Length:1\n.\n"))
    × (r : Msg) × (rest : Input) × (parse go_input 1024 ≡ ok (some r, rest))
    × Follows rest (codes "PING")
    × SameMessage r go_msg
parse-print_header_example =
    parse-print_header go_msg (codes "GO") (codes "PING") go_input 1024 (pos 0) go_msg-IsSendable
      go_input-NoErrors refl (omega arith) (omega arith)

set_body_lem_example :
    (r : Msg) × (set_body go_msg (codes "body") (pos 3) ≡ ok r)
    × HoldsBody r (codes "bod")
    × (r.verb ≡ some (codes "GO"))
    × (r.headers ≡ go_header ∷ [])
set_body_lem_example =
    set_body_lem go_msg (codes "body") 3 go_msg-IsValid (omega arith) (omega arith) (omega arith)

get_named_header-add_named_header_example :
    get_named_header (add_named_header go_msg (codes "Name") (codes "v")) (codes "NAME") ≡ (
      if same_nocase (codes "Name") (codes "NAME")
      then (rc_ok, some (codes "v"))
      else get_named_header go_msg (codes "NAME"))
get_named_header-add_named_header_example =
    get_named_header-add_named_header go_msg (codes "Name") (codes "v") (codes "NAME")
      go_msg-IsValid

get_named_header-del_named_header_example :
    get_named_header (del_named_header go_msg (codes "content-length")) (codes "Content-Length") ≡ (
      if same_nocase (codes "content-length") (codes "Content-Length")
      then (rc_err, none)
      else get_named_header go_msg (codes "Content-Length"))
get_named_header-del_named_header_example =
    get_named_header-del_named_header go_msg (codes "content-length") (codes "Content-Length")
      go_msg-IsValid

get_header-del_header_example :
    ((del_header go_msg (pos 0)).0 ≡ rc_ok)
    × (get_header (del_header go_msg (pos 0)).1 (pos 0) ≡ get_header go_msg (pos 1))
get_header-del_header_example = get_header-del_header go_msg 0 0 go_msg-IsValid (omega arith)

get_header_lem_example : get_header go_msg (negsuc 4) ≡ ok (rc_err, none)
get_header_lem_example = get_header_lem go_msg (negsuc 4) go_msg-IsValid

go_input-Follows : Follows go_input (go_text ++ codes "xPING")
go_input-Follows = record { spells = refl; fine = go_input-NoErrors }

body_loop-stream_example : BodyLoop (body_loop 31 30 [] go_input) 30 [] (go_text ++ codes "xPING")
body_loop-stream_example = body_loop-stream 31 30 [] go_input (omega arith) go_input-NoErrors

parse-Consumes_example : Consumes (parse go_input 1024) (remaining go_input)
parse-Consumes_example = parse-Consumes go_input 1024 (omega arith)

parse_header-Parsed_example : Parsed (parse_header create (codes "GO a\nContent-Length:0\n"))
parse_header-Parsed_example = parse_header-Parsed (codes "GO a\nContent-Length:0\n")

-- A header whose Content-Length is -1, in one chunk.
abbrev bad_input : Input
bad_input = wire (codes "GO") [] (minus_one ∷ []) ∷ []

bad_length : to_int (strtol (codes "-1")) ≡ negsuc 0
unfolding strtol to_int
bad_length = refl

minus_one-found : find_named content_length (minus_one ∷ []) ≡ some (codes "-1")
unfolding find_named same_nocase
minus_one-found = refl

parse-died_example : parse bad_input 1024 ≡ died
parse-died_example =
    parse-died (codes "GO") [] (minus_one ∷ []) (codes "-1") [] bad_input 1024 minus_one-IsReadable
      minus_one-found bad_length (cons-ne-nil _ _, tt) refl (omega arith) (omega arith)

del_body_lem_example : (c : Msg) × (del_body go_msg ≡ ok c) × IsCleared go_msg c
del_body_lem_example = del_body_lem go_msg go_msg-IsValid

get_body-IsValid_example : get_body go_msg ≡ ok (rc_ok, some (codes "x"), pos 1)
get_body-IsValid_example = get_body-IsValid go_msg go_msg-IsValid

print_header-wire_example :
    (print_header go_msg (pos 3) ≡ ok (rc_ok, go_text))
    × (get_header_size go_msg ≡ to_int (pos (length go_text)))
print_header-wire_example = print_header-wire go_msg (pos 3) {v = codes "GO"} refl

name_free : same_nocase (codes "Name") content_length ≡ false
unfolding same_nocase
name_free = refl

add_named_header-IsValid_example : IsValid (add_named_header go_msg (codes "Name") (codes "v"))
add_named_header-IsValid_example =
    add_named_header-IsValid {m = go_msg} (codes "Name") (codes "v") go_msg-IsValid (inr name_free)

-- The sample message, made by calls.
go_set :
    set_body (add_header (set_verb create (codes "GO")) (codes "a")) (codes "xy") (pos 1)
    ≡ ok go_msg
unfolding create set_verb add_header set_body add_named_header same_nocase append_named
    del_named_header del_named print_int
go_set = refl

go_msg-Reachable : Reachable go_msg
go_msg-Reachable =
    body_set (codes "xy") 1 (header_added (codes "a") (verb_set (codes "GO") created)) (omega arith)
      (omega arith) (omega arith) go_set

Reachable-IsSafe_example : IsSafe go_msg
Reachable-IsSafe_example = Reachable-IsSafe {m = go_msg} go_msg-Reachable

-- A Content-Length that is added to a message without a body.
abbrev lone_length : Msg
lone_length = add_named_header create (codes "Content-Length") (codes "5")

create_empty : create.content ≡ none
unfolding create
create_empty = refl

get_body_size_lem_example :
    get_body_size lone_length
    ≡ size_of lone_length.content (find_named content_length lone_length.named_headers)
get_body_size_lem_example = get_body_size_lem lone_length (
    add_named_header-IsValid {m = create} (codes "Content-Length") (codes "5") create-IsValid
      (inl create_empty))

parse-SameResult_example :
    SameResult (parse go_input 1024) (parse ((go_text ++ codes "xPING") ∷ []) 1024)
parse-SameResult_example =
    parse-SameResult go_input ((go_text ++ codes "xPING") ∷ []) 1024 (omega arith) go_input-NoErrors
      (cons-ne-nil _ _, tt) refl
