-- ===== src/CopyServer/Writes.antt =====
-- What the server of src/tests/copy_server.c writes for the requests of one connection, and what is
-- in the file then.
use hermes_c.CText.{Bytes, codes, same_nocase}
use hermes_c.CopyServer.Requests.{serves}
use hermes_c.CopyServer.{Disk, Write, copy_handle, copy_ops}
use hermes_c.Endpoint.{header_max}
use hermes_c.Msg.Valid.{IsValid}
use hermes_c.Msg.{Msg}
use hermes_c.Parser.{parse}
use hermes_c.Prelude.{
  fun_ext, take-add, take-front, drop-front, ℕ, suc, ◌+◌, ◌-◌, ◌≤◌, ◌≡◌, ◌∙◌, refl, ap, sym, true,
  some, List, [], ◌∷◌, ◌++◌, arith, sizes, pos, negsuc, length, take, drop, replicate, append_assoc,
}
use hermes_c.Process.{Run, ok, rc_ok}
use hermes_c.Server.Session.{recv_some}
use hermes_c.Server.{Clock, later_on, after_recv, endpoint_init, serve_loop}
use hermes_c.Socket.{Input, Socket}

-- The requests at the front of an input are served, each by a write that is complete.
pub data Writes (disk : Disk) : Input → List Write → Input → Type 0 where
  none_yet : {inp : Input} → Writes disk inp [] inp
  write :
      {inp later last : Input} {r : Msg} {v : Bytes} {w : Write} {ws : List Write}
      → parse inp header_max ≡ ok (some r, later)
      → IsValid r
      → r.verb ≡ some v
      → same_nocase v (codes "COPY") ≡ true
      → copy_handle disk r ≡ ok (rc_ok, some w)
      → Writes disk later ws last
      → Writes disk inp (w ∷ ws) last

-- `pwrite` on the bytes of a file; a gap behind the end is filled with NUL.
abbrev pub patch : Bytes → Write → Bytes
patch old w = elim w.offset [
  | pos n ↦
      take n old ++ (replicate (n - length old) 0 ++ (w.bytes ++ drop (n + length w.bytes) old))
  | negsuc _ ↦ old
]

abbrev pub patches : Bytes → List Write → Bytes
patches old [] = old
patches old (w ∷ ws) = patches (patch old w) ws

module _ (disk : Disk) (fd : Socket) where
  abbrev loop : ℕ → Clock → Socket → Input → Run Socket
  loop k clock s inp =
      serve_loop k clock (endpoint_init fd (copy_ops disk)).ops rc_ok (record s { incoming = inp })

  one_round :
      (k : ℕ) (clock : Clock) (s : Socket) (inp later : Input) {r : Msg} {v : Bytes} {w : Write}
      → parse inp header_max ≡ ok (some r, later)
      → IsValid r
      → r.verb ≡ some v
      → same_nocase v (codes "COPY") ≡ true
      → copy_handle disk r ≡ ok (rc_ok, some w)
      → loop (suc k) clock s inp ≡ loop k (later_on clock) s later
  unfolding serve_loop after_recv
  one_round k clock s inp later {r} {v} {w} parsed i e c h =
      rw (recv_some (record s { incoming = inp }) r later parsed) (
        rw
          (serves (clock 0) disk fd (record s { incoming = later }) rc_ok r v (ok (rc_ok, some w)) i
            e c h)
          refl)

  -- The loop of the server does these writes in its first rounds, one in each.
  pub Writes-serve_loop :
      (k : ℕ) (clock : Clock) (s : Socket) {inp last : Input} {ws : List Write}
      → Writes disk inp ws last
      → loop (length ws + k) clock s inp ≡ loop k (λ n. clock (length ws + n)) s last
  Writes-serve_loop k clock s {inp} none_yet =
      ap (λ n. loop n clock s inp) (omega arith)
      ∙ ap (λ c. loop k c s inp) (fun_ext (λ n. ap clock (omega arith)))
  Writes-serve_loop k clock s {inp} {last} (write {later} {ws} parsed i e c h rest) =
      ap (λ n. loop n clock s inp) (omega arith)
      ∙ one_round (length ws + k) clock s inp later parsed i e c h
      ∙ Writes-serve_loop k (later_on clock) s rest
      ∙ ap (λ c. loop k c s last) (fun_ext (λ n. ap clock (omega arith)))

-- A write that goes on where the last one ended.
pub patch_next :
    (file old f : Bytes) (k n : ℕ)
    → k + n ≤ length file
    → patch
        (take k file ++ drop k old)
        (record { filename = f; offset = pos k; bytes = take n (drop k file) })
      ≡ take (k + n) file ++ drop (k + n) old
patch_next file old f k n l =
    let size : length (take n (drop k file)) ≡ n = grind sizes in
    let gap : k - length (take k file ++ drop k old) ≡ 0 = grind sizes in
    rw (size, gap)
      (ap (λ t. t ++ (take n (drop k file) ++ drop (k + n) (take k file ++ drop k old)))
          (take-front k file (drop k old) (omega arith))
        ∙ ap (λ t. take k file ++ (take n (drop k file) ++ t))
            (drop-front k n file old (omega arith))
        ∙ sym (append_assoc (take k file) (take n (drop k file)) (drop (k + n) old))
        ∙ ap (λ t. t ++ drop (k + n) old) (sym (take-add k n file)))
