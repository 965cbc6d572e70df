-- ===== src/Tests/Copying.antt =====
-- Requests to the server of src/tests/copy_server.c.
use hermes_c.CText.{codes, same_nocase}
use hermes_c.CopyServer.Requests.{IsCopy, handle_endpoint-copy_ops}
use hermes_c.CopyServer.{Disk, copy_ops}
use hermes_c.Msg.{Msg, NHeader, find_named, get_named_header}
use hermes_c.Prelude.{every-All, ◌≡◌, refl, inl, true, none, some, [], ◌∷◌, arith, cons-ne-nil, pos}
use hermes_c.Process.{fault}
use hermes_c.Server.{endpoint_init, handle_endpoint}
use hermes_c.Socket.{Input, Socket}
use hermes_c.Tests.Samples.{noon, silent_socket}
use hermes_c.Wire.{is_word_byte, is_line_byte}

abbrev name_header : NHeader
name_header = record { key = codes "Filename"; val = codes "f" }

abbrev offset_header : NHeader
offset_header = record { key = codes "Offset"; val = codes "12" }

abbrev size_header : NHeader
size_header = record { key = codes "Content-Length"; val = codes "2" }

abbrev copy_msg : Msg
copy_msg = record {
  id = none;
  verb = some (codes "COPY");
  headers = [];
  num_headers = pos 0;
  named_headers = name_header ∷ offset_header ∷ size_header ∷ [];
  num_named_headers = pos 3;
  content_len = pos 2;
  content = some (codes "xy");
}

abbrev bare_msg : Msg
bare_msg = record copy_msg {
  named_headers = [];
  num_named_headers = pos 0;
  content_len = pos 0;
  content = none;
}

bare_msg-IsCopy : IsCopy bare_msg (codes "COPY")
unfolding find_named same_nocase
bare_msg-IsCopy = record {
  sendable = record {
    valid = record { counted = refl; named_counted = refl; distinct = tt; body = refl };
    verb = refl;
    readable = record {
      verb_word = (cons-ne-nil _ _, every-All is_word_byte (codes "COPY") refl);
      header_words = tt;
      first_quiet = (every-All is_line_byte (codes "COPY") refl, refl);
      fields = tt;
      distinct = tt;
    };
    body = refl;
  };
  copies = refl;
  fits = omega arith;
}

-- A disk on which every file can be opened and every write is complete.
abbrev good_disk : Disk
good_disk = record { opens = λ f. true; pwrite = λ w. pos 2 }

abbrev copy_input : Input
copy_input =
    codes "COPY\nFilename:f\nOffs" ∷ codes "et:12\nContent-Length:2\n.\nx" ∷ codes "yPING" ∷ []

abbrev bare_socket : Socket
bare_socket = record silent_socket { incoming = codes "COPY\n.\n" ∷ [] }

handle_endpoint-copy_ops_example :
    handle_endpoint 1 noon (endpoint_init bare_socket (copy_ops good_disk)) ≡ fault
handle_endpoint-copy_ops_example =
    handle_endpoint-copy_ops 0 noon good_disk bare_socket bare_msg (codes "COPY") [] bare_msg-IsCopy
      (inl (unfold get_named_header find_named in refl)) (cons-ne-nil _ _, tt) refl
