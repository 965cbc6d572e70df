-- ===== src/CopyClient/Chunk.antt =====
-- A part of a file, from the client of src/tests/copy_client.c to the server of
-- src/tests/copy_server.c.
use hermes_c.CText.Number.{print_int, skip_space}
use hermes_c.CText.{Bytes, codes, is_space, same_nocase}
use hermes_c.CopyClient.{print_debug, chunk_request, send_chunk, send_data}
use hermes_c.CopyServer.Requests.{IsCopy}
use hermes_c.Endpoint.Delivery.{
  Enough, connector_send_msg-send_result, send_result-Enough, send_result-SendReport, wire_pos,
}
use hermes_c.Endpoint.Send.{send_result}
use hermes_c.Endpoint.Exchange.{IsSendable-IsComplete}
use hermes_c.Endpoint.{header_max}
use hermes_c.Msg.Body.{set_body}
use hermes_c.Msg.Body.Laws.{filled, filled-IsValid, set_body-filled}
use hermes_c.Msg.Print.Laws.{print_header-wire, wire}
use hermes_c.Msg.Print.{get_header_size}
use hermes_c.Msg.Valid.{
  destroy-IsValid, IsValid, create-IsValid, set_verb-IsValid, add_named_header-IsValid,
}
use hermes_c.Msg.{
  Msg, NHeader, add_named_header, append_named, content_length, create, create_named_header,
  del_named, del_named_header, find_named, set_verb,
}
use hermes_c.Parser.{str_strip, strip_back}
use hermes_c.Prelude.{
  sizes, lt→ltb, ◌==◌, every-All, none_of-All, take-length, ℕ, ◌+◌, ◌<◌, ◌≤◌, ◌≡◌, ◌∙◌, inr, inl,
  refl, ap, subst, true, false, none, some, List, [], ◌∷◌, ◌++◌, arith, pos, length, take, drop,
  cons-ne-nil, int_min_abs,
}
use hermes_c.Process.{fault, ok, rc_ok}
use hermes_c.Socket.{Socket}
use hermes_c.Wire.Numbers.{print_int-IsField, print_int-length}
use hermes_c.Wire.{IsField, is_line_byte, is_word_byte}

-- The bytes that `pread` reads.
abbrev pub chunk : Bytes → ℕ → ℕ → Bytes
chunk file offset len = take len (drop offset file)

-- The fields of the message for a chunk `b`.
abbrev pub chunk_fields : Bytes → ℕ → Bytes → List NHeader
chunk_fields dst offset b =
    record { key = codes "Filename"; val = dst }
    ∷ record { key = codes "Offset"; val = print_int (pos offset) }
    ∷ record { key = content_length; val = print_int (pos (length b)) }
    ∷ []

abbrev pub chunk_msg : Bytes → ℕ → Bytes → Msg
chunk_msg dst offset b = record {
  id = none;
  verb = some (codes "COPY");
  headers = [];
  num_headers = pos 0;
  named_headers = chunk_fields dst offset b;
  num_named_headers = pos 3;
  content_len = pos (length b);
  content = some b;
}

request_filled :
    (dst : Bytes) (offset : ℕ) (b : Bytes)
    → filled (chunk_request dst offset) b ≡ chunk_msg dst offset b
unfolding chunk_request add_named_header set_verb create del_named_header del_named append_named
    same_nocase create_named_header
request_filled dst offset b = refl

request-IsValid : (dst : Bytes) (offset : ℕ) → IsValid (chunk_request dst offset)
unfolding chunk_request same_nocase
request-IsValid dst offset =
    add_named_header-IsValid (codes "Offset") (print_int (pos offset))
      (add_named_header-IsValid (codes "Filename") dst
        (set_verb-IsValid (codes "COPY") create-IsValid) (inr refl))
      (inr refl)

-- The file's name on the server, as the value of a header.
abbrev pub IsName : Bytes → Type 0
IsName dst = IsField (record { key = codes "Filename"; val = dst })

offset-IsField : (n : ℕ) → IsField (record { key = codes "Offset"; val = print_int (pos n) })
unfolding str_strip strip_back skip_space is_space
offset-IsField n =
    print_int-IsField (codes "Offset") n (none_of-All (λ c. c == b':') (codes "Offset") refl) refl
      (every-All is_line_byte (codes "Offset") refl)

length-IsField : (n : ℕ) → IsField (record { key = content_length; val = print_int (pos n) })
unfolding str_strip strip_back skip_space is_space
length-IsField n =
    print_int-IsField content_length n (none_of-All (λ c. c == b':') content_length refl) refl
      (every-All is_line_byte content_length refl)

pub chunk-IsCopy :
    (dst : Bytes) (offset : ℕ) (b : Bytes)
    → IsName dst
    → 0 < length b
    → length b + 1 < int_min_abs
    → length (wire (codes "COPY") [] (chunk_fields dst offset b)) ≤ header_max
    → IsCopy (chunk_msg dst offset b) (codes "COPY")
unfolding find_named same_nocase
chunk-IsCopy dst offset b name p l fits = record {
  sendable = record {
    valid =
        subst IsValid (request_filled dst offset b) (
          filled-IsValid (chunk_request dst offset) b (request-IsValid dst offset) p (omega arith));
    verb = refl;
    readable = record {
      verb_word = (cons-ne-nil _ _, every-All is_word_byte (codes "COPY") refl);
      header_words = tt;
      first_quiet = (every-All is_line_byte (codes "COPY") refl, refl);
      fields = (name, (offset-IsField offset, (length-IsField (length b), tt)));
      distinct = (refl, (refl, (refl, tt)));
    };
    body = (p, l, refl);
  };
  copies = refl;
  fits = fits;
}

-- What the client sends for a chunk.
abbrev pub chunk_text : Bytes → ℕ → Bytes → Bytes
chunk_text dst offset b = wire (codes "COPY") [] (chunk_fields dst offset b) ++ b

stored :
    (dst : Bytes) (offset : ℕ) (b : Bytes)
    → 0 < length b
    → set_body (chunk_request dst offset) b (pos (length b)) ≡ ok (chunk_msg dst offset b)
unfolding chunk_request create set_verb add_named_header append_named del_named_header del_named
    same_nocase
stored dst offset b p =
    set_body-filled (chunk_request dst offset) b (length b) refl refl p (omega arith)
    ∙ ap (λ t. ok (filled (chunk_request dst offset) t)) (take-length b)
    ∙ ap ok (request_filled dst offset b)

-- The block that prints the header for debugging reads behind its buffer.
print_debug-fault : (m : Msg) {v : Bytes} → m.verb ≡ some v → print_debug m ≡ fault
unfolding print_debug
print_debug-fault m e = rw ((print_header-wire m (get_header_size m) e).0) refl

debug_data :
    (dst : Bytes) (offset : ℕ) (b : Bytes) (s : Socket)
    → IsCopy (chunk_msg dst offset b) (codes "COPY")
    → 0 < length b
    → send_data true (chunk_request dst offset) b (length b) s ≡ fault
unfolding send_data
debug_data dst offset b s c p =
    let same : (length b == length b) ≡ true = ground arith in
    rw same (
      rw (stored dst offset b p) (
        rw
          (connector_send_msg-send_result s (chunk_msg dst offset b) (codes "COPY") refl
            (IsSendable-IsComplete (chunk_msg dst offset b) (codes "COPY") c.sendable)
            (omega (arith, c.fits)))
          (rw (print_debug-fault (chunk_msg dst offset b) refl) refl)))

-- With the block for debugging, a chunk is sent, and then undefined behaviour follows.
pub send_chunk-fault :
    (file dst : Bytes) (offset len : ℕ) (s : Socket)
    → IsName dst
    → 0 < len
    → offset + len ≤ length file
    → len + 1 < int_min_abs
    → length (wire (codes "COPY") [] (chunk_fields dst offset (chunk file offset len))) ≤ header_max
    → send_chunk true (some file) dst offset (pos len) s ≡ fault
unfolding send_chunk
send_chunk-fault file dst offset len s name p within small fits =
    let size : length (chunk file offset len) ≡ len = grind sizes in
    rw (lt→ltb (len + 1) int_min_abs small) (
      subst (λ n. send_data true (chunk_request dst offset) (chunk file offset len) n s ≡ fault)
        size
        (debug_data dst offset (chunk file offset len) s
          (chunk-IsCopy dst offset (chunk file offset len) name (omega arith) (omega arith) fits)
          (omega arith)))

-- What a chunk leaves: its text was sent, and the calls of `send` take `n` bytes more.
pub record SentChunk (s : Socket) (text : Bytes) (n : ℕ) (after : Socket) : Type 0 where
  pub outgoing : after.outgoing ≡ s.outgoing ++ text
  pub enough : Enough n after

sent_data :
    (dst : Bytes) (offset : ℕ) (b : Bytes) (s : Socket) (n : ℕ)
    → IsCopy (chunk_msg dst offset b) (codes "COPY")
    → 0 < length b
    → Enough (length (chunk_text dst offset b) + n) s
    → (after : Socket) × (send_data false (chunk_request dst offset) b (length b) s
        ≡ ok (rc_ok, after))
      × SentChunk s (chunk_text dst offset b) n after
unfolding send_data
sent_data dst offset b s n c p enough =
    let same : (length b == length b) ≡ true = ground arith in
    let text = wire (codes "COPY") [] (chunk_fields dst offset b) in
    let t = wire_pos (codes "COPY") [] (chunk_fields dst offset b) in
    let (took, left) =
      send_result-Enough s text (some b) n t p (enough.0, grind (sizes, enough.1)) in
    (
      (send_result s text (some b) true).1,
      rw same (
          rw (stored dst offset b p) (
            rw
              (connector_send_msg-send_result s (chunk_msg dst offset b) (codes "COPY") refl
                (IsSendable-IsComplete (chunk_msg dst offset b) (codes "COPY") c.sendable)
                (omega (arith, c.fits)))
              (rw (destroy-IsValid (chunk_msg dst offset b) c.sendable.valid) refl))),
      record { outgoing = whole s text b t p took; enough = left },
    )
  where
    whole :
        (s : Socket) (t b : Bytes)
        → 0 < length t
        → 0 < length b
        → (send_result s t (some b) false).0 ≡ rc_ok
        → (send_result s t (some b) false).1.outgoing ≡ s.outgoing ++ (t ++ b)
    whole s t b p q took = elim (send_result-SendReport s t (some b) p q).1 [
      | inl (_, d) ↦ d.outgoing
      | inr (failed, _) ↦ absurd cc
    ]

-- A chunk of the file is sent, and the server is handed the rest of the way: what it reads is the
-- message of the chunk.
pub send_chunk-chunk_text :
    (file dst : Bytes) (offset len : ℕ) (s : Socket) (n : ℕ)
    → IsName dst
    → 0 < len
    → offset + len ≤ length file
    → len + 1 < int_min_abs
    → length (wire (codes "COPY") [] (chunk_fields dst offset (chunk file offset len))) ≤ header_max
    → Enough (length (chunk_text dst offset (chunk file offset len)) + n) s
    → (after : Socket) × (send_chunk false (some file) dst offset (pos len) s ≡ ok (rc_ok, after))
      × SentChunk s (chunk_text dst offset (chunk file offset len)) n after
unfolding send_chunk
send_chunk-chunk_text file dst offset len s n name p within small fits enough =
    let size : length (chunk file offset len) ≡ len = grind sizes in
    let (after, run, d) =
      sent_data dst offset (chunk file offset len) s n
        (chunk-IsCopy dst offset (chunk file offset len) name (omega arith) (omega arith) fits)
        (omega arith) enough in
    (
      after,
      rw (lt→ltb (len + 1) int_min_abs small) (
          subst
            (λ n.
              send_data false (chunk_request dst offset) (chunk file offset len) n s
              ≡ ok (rc_ok, after))
            size run),
      d,
    )

-- The header of a chunk is short where the name is.
pub chunk-fits :
    (dst : Bytes) (offset : ℕ) (b : Bytes)
    → length dst ≤ 900
    → offset < int_min_abs
    → length b < int_min_abs
    → length (wire (codes "COPY") [] (chunk_fields dst offset b)) ≤ header_max
chunk-fits dst offset b l o n =
    let x = print_int-length offset o in
    let y = print_int-length (length b) n in grind (sizes, x, y)
