-- ===== src/CopyClient/Loop.antt =====
-- The loop of the client of src/tests/copy_client.c over the chunks of a file.
use hermes_c.CText.{Bytes}
use hermes_c.CopyClient.Chunk.{
  IsName, SentChunk, chunk, chunk-fits, chunk_text, send_chunk-chunk_text, send_chunk-fault,
}
use hermes_c.CopyClient.{after_chunk, send_chunk, send_file}
use hermes_c.Endpoint.Delivery.{Enough}
use hermes_c.Prelude.{
  Bool, ℕ, zero, suc, ◌+◌, ◌-◌, ◌<◌, ◌≤◌, ◌≡◌, ◌∙◌, ◌==◌, inl, inr, refl, ap, sym, true, false,
  Bool-cases, some, [], ◌++◌, append_assoc, append-nil, arith, sizes, pos, length, int_min_abs,
  if◌then◌else◌, ltb,
}
use hermes_c.Process.{fault, ok, ◌>>=◌, rc_ok}
use hermes_c.Socket.{Socket}

-- The size of the next chunk.
abbrev pub next_size : ℕ → ℕ → ℕ
next_size chunk_size left = if ltb chunk_size left then chunk_size else left

-- The texts of the chunks, in order.
unfoldable pub file_text : ℕ → Bytes → Bytes → ℕ → ℕ → ℕ → Bytes
file_text zero file dst size offset left = []
file_text (suc k) file dst size offset left =
    let len = next_size size left in
    let rest = file_text k file dst size (offset + len) (left - len) in
    if left == 0 then [] else chunk_text dst offset (chunk file offset len) ++ rest

module _ (file dst : Bytes) (size : ℕ) (name : IsName dst) (short : length dst ≤ 900) (p : 0 < size)
    (small : length file + 1 < int_min_abs) where
  pub next_size-Within :
      (left : ℕ) → (left == 0) ≡ false → (0 < next_size size left) × (next_size size left ≤ left)
  next_size-Within left e = ground arith

  one_chunk :
      (debug : Bool) (k offset left : ℕ) (s : Socket)
      → (left == 0) ≡ false
      → send_file debug (suc k) (some file) dst size offset left s ≡ (
          send_chunk debug (some file) dst offset (pos (next_size size left)) s
          >>= after_chunk (
              send_file debug k
                (some file)
                dst
                size
                (offset + next_size size left)
                (left - next_size size left)))
  unfolding send_file
  one_chunk debug k offset left s more = rw more refl

  pub one_text :
      (k offset left : ℕ)
      → (left == 0) ≡ false
      → file_text (suc k) file dst size offset left
        ≡ chunk_text dst offset (chunk file offset (next_size size left))
          ++ file_text k file dst size (offset + next_size size left) (left - next_size size left)
  unfolding file_text
  one_text k offset left more = rw more refl

  nothing_left :
      (k offset left n : ℕ) (s : Socket)
      → (left == 0) ≡ true
      → Enough (length (file_text (suc k) file dst size offset left) + n) s
      → (send_file false (suc k) (some file) dst size offset left s ≡ ok (rc_ok, s))
        × SentChunk s (file_text (suc k) file dst size offset left) n s
  unfolding send_file file_text
  nothing_left k offset left n s done enough = rw done (
    refl,
    record { outgoing = sym (append-nil s.outgoing); enough = (enough.0, omega (arith, enough.1)) },
  )

  pub sent_file :
      (k offset left n : ℕ) (s : Socket)
      → left < k
      → offset + left ≡ length file
      → Enough (length (file_text k file dst size offset left) + n) s
      → (after : Socket) × (send_file false k (some file) dst size offset left s
          ≡ ok (rc_ok, after))
        × SentChunk s (file_text k file dst size offset left) n after
  sent_file zero offset left n s l e enough = absurd (omega arith)
  sent_file (suc k) offset left n s l e enough = elim (Bool-cases (left == 0)) [
    | inl done ↦ let (runs, sends) = nothing_left k offset left n s done enough in (s, runs, sends)
    | inr more ↦
        let len = next_size size left in
        let (some_left, within) = next_size-Within left more in
        let rest = file_text k file dst size (offset + len) (left - len) in
        let room = rw (one_text k offset left more) at enough in
        let (mid, run, c) =
          send_chunk-chunk_text file dst offset len s (length rest + n) name some_left (omega arith)
            (omega arith)
            (chunk-fits dst offset (chunk file offset len) short (omega arith) (grind sizes))
            (room.0, grind (sizes, room.1)) in
        let (after, run2, d) =
          sent_file k (offset + len) (left - len) n mid (omega arith) (omega arith) c.enough in
        (
          after,
          one_chunk false k offset left s more
              ∙ ap
                  (λ r.
                    r
                    >>= after_chunk
                        (send_file false k (some file) dst size (offset + len) (left - len)))
                  run
              ∙ run2,
          record {
            outgoing =
                d.outgoing
                ∙ ap (λ o. o ++ rest) c.outgoing
                ∙ append_assoc s.outgoing _ rest
                ∙ ap (λ t. s.outgoing ++ t) (sym (one_text k offset left more));
            enough = d.enough;
          },
        )
  ]

  -- With the block for debugging, the client does not come behind its first chunk.
  pub debug_file :
      (c : Socket)
      → ((length file ≡ 0)
          → send_file true (suc (length file)) (some file) dst size 0 (length file) c
            ≡ ok (rc_ok, c))
        × (0 < length file
            → send_file true (suc (length file)) (some file) dst size 0 (length file) c ≡ fault)
  unfolding send_file
  debug_file c = (λ e. rw e refl, λ q. stops q)
    where
      stops :
          0 < length file
          → send_file true (suc (length file)) (some file) dst size 0 (length file) c ≡ fault
      stops q =
          let more : (length file == 0) ≡ false = ground arith in
          let len = next_size size (length file) in
          let (some_left, within) = next_size-Within (length file) more in
          one_chunk true (length file) 0 (length file) c more
          ∙ ap
              (λ r.
                r
                >>= after_chunk (
                    send_file true (length file) (some file) dst size (0 + len)
                      (length file - len)))
              (send_chunk-fault file dst 0 len c name some_left (omega arith) (omega arith)
                (chunk-fits dst 0 (chunk file 0 len) short (omega arith) (grind sizes)))
