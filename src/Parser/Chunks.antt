-- ===== src/Parser/Chunks.antt =====
-- The header loop of src/hms/hms_parser.c depends on the stream alone, as long as no call of `read`
-- fails: how the bytes are cut into chunks does not matter.
use hermes_c.CText.{Bytes}
use hermes_c.Parser.{HdrState, hdr_step, after_step, hdr_loop}
use hermes_c.Prelude.{
  ℕ, zero, suc, ◌≡◌, refl, subst, cons-ne-nil, Bool, true, false, [], ◌∷◌, arith,
}
use hermes_c.Socket.{Input, read, stream, NoErrors}

-- The header loop over the bytes themselves.
unfoldable pub flat_step :
    (HdrState → Bytes → Bool × HdrState × Bytes) → HdrState × Bool → Bytes → Bool × HdrState × Bytes
flat_step next (st, true) s = (true, st, s)
flat_step next (st, false) s = next st s

unfoldable pub flat_loop : ℕ → HdrState → Bytes → Bool × HdrState × Bytes
unfolding flat_step
flat_loop zero st s = (false, st, s)
flat_loop (suc room) st [] = (false, st, [])
flat_loop (suc room) st (c ∷ s) = flat_step (flat_loop room) (hdr_step st c) s

-- The result of the header loop on an input, from the result on its bytes.
pub record Follows (inp : Input) (left : Bytes) : Type 0 where
  pub spells : stream inp ≡ left
  pub fine : NoErrors inp

-- The same flag and variables, and the rest of the bytes.
abbrev pub HeaderLoops : Bool × HdrState × Input → Bool × HdrState × Bytes → Type 0
HeaderLoops x y = (x.0 ≡ y.0) × (x.1 ≡ y.1) × Follows x.2 y.2

read_one_last : (b : ℕ) (cs : Input) → read 1 ((b ∷ []) ∷ cs) ≡ (b ∷ [], cs)
unfolding read
read_one_last b cs = ground arith

read_one_more :
    (b d : ℕ) (s : Bytes) (cs : Input) → read 1 ((b ∷ d ∷ s) ∷ cs) ≡ (b ∷ [], (d ∷ s) ∷ cs)
unfolding read
read_one_more b d s cs = ground arith

-- What `read` of one byte does, by the bytes that are left.
abbrev OneByte : Input → Bytes → Type 0
OneByte inp [] = (rest : Input) × (read 1 inp ≡ ([], rest)) × Follows rest []
OneByte inp (b ∷ s) = (rest : Input) × (read 1 inp ≡ (b ∷ [], rest)) × Follows rest s

OneByte-stream : (inp : Input) → NoErrors inp → OneByte inp (stream inp)
OneByte-stream [] e = ([], unfold read in refl, record { spells = refl; fine = tt })
OneByte-stream ([] ∷ cs) (ne, e) = absurd (ne refl)
OneByte-stream ((b ∷ []) ∷ cs) (ne, e) =
    (cs, read_one_last b cs, record { spells = refl; fine = e })
OneByte-stream ((b ∷ d ∷ s) ∷ cs) (ne, e) =
    ((d ∷ s) ∷ cs, read_one_more b d s cs, record { spells = refl; fine = (cons-ne-nil d s, e) })

OneByte-Follows : (inp : Input) (s : Bytes) → Follows inp s → OneByte inp s
OneByte-Follows inp s f = subst (OneByte inp) f.spells (OneByte-stream inp f.fine)

-- The two loops make the same round on the same byte.
same_round :
    (room b : ℕ) (st : HdrState) (s : Bytes) (inp rest : Input)
    → read 1 inp ≡ (b ∷ [], rest)
    → Follows rest s
    → ((q : HdrState) (t : Input)
        → Follows t s
        → HeaderLoops (hdr_loop room q t) (flat_loop room q s))
    → HeaderLoops (hdr_loop (suc room) st inp) (flat_loop (suc room) st (b ∷ s))
unfolding hdr_loop flat_loop
same_round room b st s inp rest e f ih = rw e (go (hdr_step st b))
  where
    go :
        (r : HdrState × Bool)
        → HeaderLoops (after_step (hdr_loop room) r rest) (flat_step (flat_loop room) r s)
    go (q, true) = (refl, refl, f)
    go (q, false) = ih q rest f

-- On an input whose chunks spell `s` without an error, the header loop ends with the flag and the
-- variables of the loop on the bytes of `s`, and leaves the bytes that the other leaves, however
-- the input is cut into chunks.
pub hdr_loop-flat_loop :
    (room : ℕ) (st : HdrState) (s : Bytes) (inp : Input)
    → Follows inp s
    → HeaderLoops (hdr_loop room st inp) (flat_loop room st s)
unfolding hdr_loop flat_loop
hdr_loop-flat_loop zero st s inp f = (refl, refl, f)
hdr_loop-flat_loop (suc room) st [] inp f =
    let (rest, e, g) = OneByte-Follows inp [] f in rw e (refl, refl, g)
hdr_loop-flat_loop (suc room) st (b ∷ s) inp f =
    let (rest, e, g) = OneByte-Follows inp (b ∷ s) f in
    same_round room b st s inp rest e g (λ q t h. hdr_loop-flat_loop room q s t h)
