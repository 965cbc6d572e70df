-- ===== src/Wire/Scan.antt =====
-- The loop of `__hms_parse_read_header` on lines that do not end the header, and on its end.
use Prim.Native.Nat.add
use hermes_c.CText.{Bytes, c_str}
use hermes_c.Parser.Chunks.{flat_loop, flat_step}
use hermes_c.Parser.{HdrState, hdr_step, cut_at_dot}
use hermes_c.Prelude.{
  sizes, ℕ, suc, ◌+◌, ◌-◌, ◌≤◌, ◌≡◌, ◌∙◌, refl, sym, ap, Bool, true, false, none, some, List, [],
  ◌∷◌, ◌++◌, arith, length, set, append_assoc, append-nil, All, ◌==◌, if◌then◌else◌,
}
use hermes_c.Wire.{LineText, IsQuiet, dot_after, is_line_byte, unlines}

-- `dot_ptr` is NULL unless `dot_seen`.
abbrev Linked : HdrState → Type 0
Linked st = st.dot_seen ≡ false → st.dot_ptr ≡ none

abbrev advance : HdrState → Bytes → HdrState
advance st [] = st
advance st (c ∷ s) = advance (hdr_step st c).0 s

-- Inside a line the loop goes on.
module _ (st : HdrState) (c : ℕ) (h : is_line_byte c ≡ true) where
  step_goes_on : (hdr_step st c).1 ≡ false
  unfolding hdr_step
  step_goes_on = ground arith

  step_buffer : (hdr_step st c).0.buffer ≡ st.buffer ++ c ∷ []
  unfolding hdr_step
  step_buffer = ground arith

  step_dot :
      (hdr_step st c).0.dot_seen
      ≡ (if c == b'.' then true else if c == b' ' then st.dot_seen else false)
  unfolding hdr_step
  step_dot = ground arith

  step-Linked : Linked st → Linked (hdr_step st c).0
  unfolding hdr_step
  step-Linked linked = ground arith

flat_step_on :
    (next : HdrState → Bytes → Bool × HdrState × Bytes) (r : HdrState × Bool) (s : Bytes)
    → r.1 ≡ false
    → flat_step next r s ≡ next r.0 s
unfolding flat_step
flat_step_on next (st, true) s e = cc
flat_step_on next (st, false) s e = refl

flat_round :
    (room : ℕ) (st : HdrState) (c : ℕ) (s : Bytes)
    → (hdr_step st c).1 ≡ false
    → flat_loop (suc room) st (c ∷ s) ≡ flat_loop room (hdr_step st c).0 s
unfolding flat_loop
flat_round room st c s e = flat_step_on (flat_loop room) (hdr_step st c) s e

flat_loop-line :
    (l : Bytes) (room : ℕ) (st : HdrState) (s : Bytes)
    → LineText l
    → flat_loop (length l + room) st (l ++ s) ≡ flat_loop room (advance st l) s
flat_loop-line [] room st s h = ap (λ k. flat_loop k st s) (omega arith)
flat_loop-line (c ∷ l) room st s (hc, hl) = rw add.suc (
    flat_round (length l + room) st c (l ++ s) (step_goes_on st c hc)
    ∙ flat_loop-line l room (hdr_step st c).0 s hl)

advance-buffer : (l : Bytes) (st : HdrState) → LineText l → (advance st l).buffer ≡ st.buffer ++ l
advance-buffer [] st h = sym (append-nil st.buffer)
advance-buffer (c ∷ l) st (hc, hl) =
    advance-buffer l (hdr_step st c).0 hl
    ∙ ap (λ b. b ++ l) (step_buffer st c hc)
    ∙ append_assoc st.buffer (c ∷ []) l

advance_dot :
    (l : Bytes) (st : HdrState) → LineText l → (advance st l).dot_seen ≡ dot_after st.dot_seen l
advance_dot [] st h = refl
advance_dot (c ∷ l) st (hc, hl) =
    advance_dot l (hdr_step st c).0 hl ∙ ap (λ d. dot_after d l) (step_dot st c hc)

advance-Linked : (l : Bytes) (st : HdrState) → LineText l → Linked st → Linked (advance st l)
advance-Linked [] st h k = k
advance-Linked (c ∷ l) st (hc, hl) k = advance-Linked l (hdr_step st c).0 hl (step-Linked st c hc k)

-- At the start of a line.
abbrev pub line_start : Bytes → HdrState
line_start buffer = record { buffer = buffer; dot_seen = false; dot_ptr = none }

HdrState-ext :
    (st : HdrState) (b : Bytes)
    → st.buffer ≡ b
    → st.dot_seen ≡ false
    → st.dot_ptr ≡ none
    → st ≡ line_start b
HdrState-ext st b e f g = ground arith

advance-line_start : (l b : Bytes) → IsQuiet l → advance (line_start b) l ≡ line_start (b ++ l)
advance-line_start l b (text, quiet) =
    let dark : (advance (line_start b) l).dot_seen ≡ false =
      advance_dot l (line_start b) text ∙ quiet in
    HdrState-ext _ (b ++ l) (advance-buffer l (line_start b) text) dark
      (advance-Linked l (line_start b) text (λ _. refl) dark)

newline_step : (b : Bytes) → hdr_step (line_start b) b'\n' ≡ (line_start (b ++ b'\n' ∷ []), false)
unfolding hdr_step
newline_step b = refl

-- A quiet line with its newline leaves the loop at the start of the next line.
flat_loop-IsQuiet :
    (l b s : Bytes) (room : ℕ)
    → IsQuiet l
    → flat_loop (length l + suc room) (line_start b) (l ++ (b'\n' ∷ s))
      ≡ flat_loop room (line_start (b ++ (l ++ b'\n' ∷ []))) s
flat_loop-IsQuiet l b s room q =
    flat_loop-line l (suc room) (line_start b) (b'\n' ∷ s) q.0
    ∙ rw (advance-line_start l b q) (
        flat_round room (line_start (b ++ l)) b'\n' s (ap (λ r. r.1) (newline_step (b ++ l)))
        ∙ ap (λ r. flat_loop room r.0 s) (newline_step (b ++ l))
        ∙ ap (λ t. flat_loop room (line_start t) s) (append_assoc b l (b'\n' ∷ [])))

flat_loop-unlines :
    (ls : List Bytes) (b s : Bytes) (room : ℕ)
    → All IsQuiet ls
    → flat_loop (length (unlines ls) + room) (line_start b) (unlines ls ++ s)
      ≡ flat_loop room (line_start (b ++ unlines ls)) s
flat_loop-unlines [] b s room q =
    ap (λ k. flat_loop k (line_start b) s) (omega arith)
    ∙ ap (λ t. flat_loop room (line_start t) s) (sym (append-nil b))
flat_loop-unlines (l ∷ ls) b s room (q, qs) =
    let rounds : length (l ++ (b'\n' ∷ unlines ls)) + room
        ≡ length l + suc (length (unlines ls) + room) =
      grind sizes in
    rw (rounds, append_assoc l (b'\n' ∷ unlines ls) s)
      (flat_loop-IsQuiet l b (unlines ls ++ s) (length (unlines ls) + room) q
        ∙ flat_loop-unlines ls (b ++ (l ++ b'\n' ∷ [])) s room qs
        ∙ ap (λ t. flat_loop room (line_start t) s)
            (append_assoc b (l ++ b'\n' ∷ []) (unlines ls)
              ∙ ap (◌++◌ b) (append_assoc l (b'\n' ∷ []) (unlines ls))))

-- The variables behind the line that ends the header.
abbrev pub ended : Bytes → HdrState
ended b = record {
  buffer = (b ++ b'.' ∷ []) ++ b'\n' ∷ [];
  dot_seen = true;
  dot_ptr = some (length b);
}

flat_loop_end :
    (b s : Bytes) (room : ℕ)
    → flat_loop (suc (suc room)) (line_start b) (b'.' ∷ b'\n' ∷ s) ≡ (true, ended b, s)
unfolding flat_loop hdr_step
flat_loop_end b s room = refl

-- The loop reads quiet lines and the line of the period, and stops behind it.
pub flat_loop-header :
    (ls : List Bytes) (s : Bytes) (room : ℕ)
    → All IsQuiet ls
    → length (unlines ls) + 2 ≤ room
    → flat_loop room (line_start []) (unlines ls ++ (b'.' ∷ b'\n' ∷ s))
      ≡ (true, ended (unlines ls), s)
flat_loop-header ls s room q h =
    let spare = room - length (unlines ls) - 2 in
    ap (λ k. flat_loop k (line_start []) (unlines ls ++ (b'.' ∷ b'\n' ∷ s)))
      (let e : room ≡ length (unlines ls) + suc (suc spare) = omega arith in e)
    ∙ flat_loop-unlines ls [] (b'.' ∷ b'\n' ∷ s) (suc (suc spare)) q
    ∙ flat_loop_end (unlines ls) s spare

set_behind : (b s : Bytes) (c v : ℕ) → set (b ++ c ∷ s) (length b) v ≡ b ++ v ∷ s
set_behind [] s c v = refl
set_behind (x ∷ b) s c v = ap (◌∷◌ x) (set_behind b s c v)

c_str_before : (b s : Bytes) → All (λ c. (c == 0) ≡ false) b → c_str (b ++ 0 ∷ s) ≡ b
unfolding c_str
c_str_before [] s h = refl
c_str_before (x ∷ b) s (hx, hb) = ground (arith, c_str_before b s hb)

-- The period is overwritten by a NUL, so the buffer holds the lines before it.
pub c_str-ended : (b : Bytes) → All (λ c. (c == 0) ≡ false) b → c_str (cut_at_dot (ended b)) ≡ b
c_str-ended b h =
    ap (λ t. c_str (set t (length b) 0)) (append_assoc b (b'.' ∷ []) (b'\n' ∷ []))
    ∙ ap c_str (set_behind b (b'\n' ∷ []) b'.' 0)
    ∙ c_str_before b (b'\n' ∷ []) h
