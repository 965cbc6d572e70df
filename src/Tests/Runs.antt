-- ===== src/Tests/Runs.antt =====
-- A request in chunks, parsed.
use hermes_c.CText.Number.{print_int, skip_space, strtol}
use hermes_c.CText.{c_str, codes, is_space, same_nocase, split_at, tokens}
use hermes_c.Msg.{
  Msg, add_header, add_named_header, append_named, create, del_named, del_named_header, set_verb,
}
use hermes_c.Msg.Body.{set_body}
use hermes_c.Parser.{
  parse_within, hdr_loop, hdr_step, parse, parse_header, parse_message, parse_named_header,
  parse_verb_line, read_body, read_header, str_strip,
}
use hermes_c.Prelude.{◌≡◌, refl, none, some, [], ◌∷◌, pos, to_int}
use hermes_c.Process.{ok}
use hermes_c.Socket.{Input, read}

abbrev copy_request : Input
copy_request =
    codes "COPY a b\nFilename:blah\n Off"
    ∷ codes "set : 0 \r\nContent-Length:3\n.\nxy"
    ∷ codes "zPING .\n"
    ∷ []

abbrev copy_msg : Msg
copy_msg = record {
  id = none;
  verb = some (codes "COPY");
  headers = record { val = codes "a" } ∷ record { val = codes "b" } ∷ [];
  num_headers = pos 2;
  named_headers =
      record { key = codes "Filename"; val = codes "blah" }
      ∷ record { key = codes "Offset"; val = codes "0" }
      ∷ record { key = codes "Content-Length"; val = codes "3" }
      ∷ [];
  num_named_headers = pos 3;
  content_len = pos 3;
  content = some (codes "xyz");
}

parse-copy_request : parse copy_request 1024 ≡ ok (some copy_msg, codes "PING .\n" ∷ [])
unfolding parse parse_within read_header hdr_loop read hdr_step parse_message parse_header tokens
    c_str parse_verb_line parse_named_header split_at same_nocase str_strip skip_space to_int strtol
    read_body set_body add_named_header append_named del_named_header del_named create set_verb
    add_header print_int is_space
parse-copy_request = refl
