-- ===== src/Tests/Sending.antt =====
-- A file of two bytes, sent by the client of src/tests/copy_client.c in two messages to the server
-- of src/tests/copy_server.c, onto a file of three.
use hermes_c.CText.{Bytes, codes}
use hermes_c.CopyServer.Writes.{Writes}
use hermes_c.CopyServer.{Disk}
use hermes_c.Prelude.{true, some, [], ◌∷◌, ◌++◌, length, pos, replicate}
use hermes_c.Socket.{Socket}
use hermes_c.Tests.Samples.{silent_socket}

abbrev true_disk : Disk
true_disk = record { opens = λ f. true; pwrite = λ w. pos (length w.bytes) }

abbrev sender : Socket
sender = record silent_socket { answers = replicate 100 (some 1000) }

abbrev both_texts : Bytes
both_texts =
    codes "COPY\nFilename:f\nOffset:0\nContent-Length:1\n.\nx"
    ++ codes "COPY\nFilename:f\nOffset:1\nContent-Length:1\n.\ny"

abbrev sent_socket : Socket
sent_socket = record silent_socket { answers = replicate 96 (some 1000); outgoing = both_texts }

abbrev receiver : Socket
receiver = record silent_socket {
  incoming =
      codes "COPY\nFilename:f\nOff"
      ∷ codes "set:0\nContent-Length:1\n.\nxCOPY\nFilename:f\nOffset:1\nContent-Length:1\n.\n"
      ∷ codes "y"
      ∷ [];
}
