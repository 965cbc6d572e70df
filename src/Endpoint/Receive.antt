-- ===== src/Endpoint/Receive.antt =====
-- `__recv_all` of src/hms/hermes.c does what the body loop of the parser does.
use native.Mathlib.Nat.{zero-add}
use hermes_c.CText.{Bytes}
use hermes_c.Endpoint.{RecvAll, after_recv_read, endless, received, recv_all, recv_loop, stopped}
use hermes_c.Parser.Stream.{BodyLoop, body_loop-stream}
use hermes_c.Parser.{BodyRead, after_body_read, body_loop, complete, failed, out_of_fuel}
use hermes_c.Prelude.{
  sizes, ℕ, zero, suc, ◌+◌, ◌-◌, ◌<◌, ◌≤◌, ◌≡◌, ◌∙◌, refl, sym, ap, subst, false, [], ◌∷◌, ◌++◌,
  arith, length, take-append-drop, suc-ne-zero, pos, inl, inr, Bool-cases, ltb,
}
use hermes_c.Process.{ok}
use hermes_c.Socket.{Input, NoErrors, read, stream}

-- The end of one loop as that of the other.
abbrev as_body : RecvAll → BodyRead
as_body (received n b rest) = complete b rest
as_body (stopped b rest) = failed rest
as_body endless = out_of_fuel

body_loop_done :
    (fuel : ℕ) (got : Bytes) (inp : Input) → body_loop (suc fuel) 0 got inp ≡ complete got inp
unfolding body_loop
body_loop_done fuel got inp = refl

after_read_same :
    (fuel need : ℕ) (got : Bytes) (r : Bytes × Input)
    → need ≤ suc fuel
    → ((n : ℕ) (g : Bytes) (i : Input)
        → 0 < n
        → n ≤ fuel
        → as_body (recv_loop fuel n g i) ≡ body_loop (suc fuel) n g i)
    → as_body (after_recv_read (recv_loop fuel) need got r)
      ≡ after_body_read (body_loop (suc fuel)) need got r
unfolding after_recv_read after_body_read
after_read_same fuel need got ([], rest) l h = refl
after_read_same fuel need got (c ∷ s, rest) l h =
    elim (Bool-cases (ltb 0 (need - length (c ∷ s)))) [
      | inl more ↦ rw more (h _ _ rest (ground arith) (omega arith))
      | inr done ↦ rw done (
          sym (
            ap (λ n. body_loop (suc fuel) n (got ++ c ∷ s) rest)
              (the_end (need - length (c ∷ s)) done)
            ∙ body_loop_done fuel _ rest))
    ]
  where
    the_end : (n : ℕ) → ltb 0 n ≡ false → n ≡ 0
    the_end n e = ground arith

body_loop_round :
    (fuel n : ℕ) (got : Bytes) (inp : Input)
    → 0 < n
    → body_loop (suc fuel) n got inp ≡ after_body_read (body_loop fuel) n got (read n inp)
unfolding body_loop
body_loop_round fuel n got inp p = ground arith

recv_loop-body_loop :
    (fuel need : ℕ) (got : Bytes) (inp : Input)
    → 0 < need
    → need ≤ fuel
    → as_body (recv_loop fuel need got inp) ≡ body_loop (suc fuel) need got inp
unfolding recv_loop
recv_loop-body_loop zero need got inp p l = absurd (omega arith)
recv_loop-body_loop (suc fuel) need got inp p l =
    after_read_same fuel need got (read need inp) l
      (λ n g i q m. recv_loop-body_loop fuel n g i q m)
    ∙ sym (body_loop_round (suc fuel) need got inp p)

-- What is returned is the number of the bytes, and all that were asked for.
abbrev Counts : RecvAll → ℕ → Type 0
Counts (received n b rest) total = (n ≡ pos total) × (length b ≡ total)
Counts (stopped b rest) total = Unit {0}
Counts endless total = Unit {0}

read-within : (n : ℕ) (inp : Input) → length (read n inp).0 ≤ n
unfolding read
read-within n [] = omega arith
read-within n (c ∷ cs) = grind sizes

after_read-Counts :
    (fuel need : ℕ) (got : Bytes) (r : Bytes × Input)
    → length r.0 ≤ need
    → ((n : ℕ) (g : Bytes) (i : Input) → Counts (recv_loop fuel n g i) (length g + n))
    → Counts (after_recv_read (recv_loop fuel) need got r) (length got + need)
unfolding after_recv_read
after_read-Counts fuel need got ([], rest) l h = tt
after_read-Counts fuel need got (c ∷ s, rest) l h =
    elim (Bool-cases (ltb 0 (need - length (c ∷ s)))) [
      | inl more ↦ rw more (
          subst (Counts (recv_loop fuel (need - length (c ∷ s)) (got ++ c ∷ s) rest)) (grind sizes)
            (h (need - length (c ∷ s)) (got ++ c ∷ s) rest))
      | inr done ↦
          let all_read : length (got ++ c ∷ s) ≡ length got + need = grind sizes in
          rw done (ap pos all_read, all_read)
    ]

recv_loop-Counts :
    (fuel need : ℕ) (got : Bytes) (inp : Input)
    → Counts (recv_loop fuel need got inp) (length got + need)
unfolding recv_loop
recv_loop-Counts zero need got inp = tt
recv_loop-Counts (suc fuel) need got inp =
    after_read-Counts fuel need got (read need inp) (read-within need inp) (recv_loop-Counts fuel)

-- What `__recv_all` returns for `n` bytes.
abbrev pub Fills : ℕ → Bytes → RecvAll → Type 0
Fills n s (received k b rest) = (k ≡ pos n) × (b ++ stream rest ≡ s) × (length b ≡ n)
Fills n s (stopped b rest) = length s < n
Fills n s endless = ⊥

filled : (n : ℕ) (s : Bytes) (r : RecvAll) → Counts r n → BodyLoop (as_body r) n [] s → Fills n s r
filled n s (received k b rest) (e, l) (same, f) = (e, rw (same, f.spells) (take-append-drop n s), l)
filled n s (stopped b rest) c l = l
filled n s endless c h = h

-- For a positive length and on an input without an error, `__recv_all` ends: it returns the length,
-- with that many bytes, the next ones of the stream, in the buffer and what follows left to read;
-- or it returns 0 or -1, which it does only where fewer bytes arrive.
pub recv_all-Fills :
    (n : ℕ) (inp : Input)
    → NoErrors inp
    → (r : RecvAll) × (recv_all inp (pos (suc n)) ≡ ok r) × Fills (suc n) (stream inp) r
unfolding recv_all
recv_all-Fills n inp fine =
    let r = recv_loop (suc n) (suc n) [] inp in
    (
      r,
      rw (suc-ne-zero n) refl,
      filled (suc n) (stream inp) r
          (subst (Counts r) (zero-add (suc n)) (recv_loop-Counts (suc n) (suc n) [] inp))
          (rw (recv_loop-body_loop (suc n) (suc n) [] inp (omega arith) (omega arith))
            (body_loop-stream (suc (suc n)) (suc n) [] inp (omega arith) fine)),
    )
