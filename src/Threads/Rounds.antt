-- ===== src/Threads/Rounds.antt =====
-- The rounds of `_hms_handle_endpoint` in src/hms/hermes.c, one step of a thread each, are its
-- loop.
use hermes_c.CText.{Bytes}
use hermes_c.Endpoint.{Ops, endpoint_recv_msg}
use hermes_c.Msg.{Msg}
use hermes_c.Parser.Consumes.{remaining}
use hermes_c.Parser.{succeeded}
use hermes_c.Prelude.{
  ℕ, suc, ◌+◌, ◌≤◌, ◌≡◌, inl, inr, refl, Bool, true, Option, none, some, Bool-cases, arith,
  if◌then◌else◌, ℤ,
}
use hermes_c.Process.{Run, ok, died, fault, ◌>>=◌}
use hermes_c.Server.Calls.{OpsBehave, Served, serve_msg-Served}
use hermes_c.Server.Loop.{RecvOutcome, endpoint_recv_msg-RecvOutcome}
use hermes_c.Server.{Clock, later_on, after_recv, serve_loop, serve_msg}
use hermes_c.Socket.{Socket}
use hermes_c.Threads.{round_after_recv, serve_round}

-- What the loop does behind a round.
abbrev pub go_on : ℕ → Clock → Ops → Bool × ℤ × Socket → Run Socket
go_on fuel clock ops (again, rc, s) = if again then serve_loop fuel clock ops rc s else ok s

served_again :
    (r : Run (ℤ × Socket)) (fuel : ℕ) (clock : Clock) (ops : Ops)
    → (r >>= λ (rc, s). if succeeded rc then serve_loop fuel clock ops rc s else ok s)
      ≡ (r >>= (λ (rc, s). ok (succeeded rc, rc, s)) >>= go_on fuel clock ops)
served_again (ok (rc, s)) fuel clock ops = refl
served_again died fuel clock ops = refl
served_again fault fuel clock ops = refl

received_again :
    (r : Run (ℤ × Option Msg × Socket)) (fuel : ℕ) (now : Bytes) (clock : Clock) (ops : Ops)
    (status : ℤ)
    → (r >>= after_recv (serve_loop fuel clock ops) now ops status)
      ≡ (r >>= round_after_recv now ops status >>= go_on fuel clock ops)
unfolding after_recv round_after_recv
received_again (ok (rc, none, s)) fuel now clock ops status = ground arith
received_again (ok (rc, some m, s)) fuel now clock ops status = elim (Bool-cases (succeeded rc)) [
  | inl fine ↦ rw fine (served_again (serve_msg now ops status s m) fuel clock ops)
  | inr bad ↦ rw bad refl
]
received_again died fuel now clock ops status = refl
received_again fault fuel now clock ops status = refl

-- A thread that is never interrupted does in its rounds what the loop does: with one more unit of
-- fuel the loop is a round, and then ends or goes on from what the round left.
pub serve_loop-serve_round :
    (fuel : ℕ) (clock : Clock) (ops : Ops) (status : ℤ) (s : Socket)
    → serve_loop (suc fuel) clock ops status s
      ≡ (serve_round (clock 0) ops status s >>= go_on fuel (later_on clock) ops)
unfolding serve_loop serve_round
serve_loop-serve_round fuel clock ops status s =
    received_again (endpoint_recv_msg s) fuel (clock 0) (later_on clock) ops status

-- A round that is followed by another one has read at least three bytes.
abbrev pub RoundOutcome : Run (Bool × ℤ × Socket) → ℕ → Type 0
RoundOutcome (ok (again, rc, s)) n = again ≡ true → remaining s.incoming + 3 ≤ n
RoundOutcome died n = Unit {0}
RoundOutcome fault n = ⊥

msg_outcome :
    (r : Run (ℤ × Socket)) (k n : ℕ)
    → k + 3 ≤ n
    → Served r k
    → RoundOutcome (r >>= λ (rc, s). ok (succeeded rc, rc, s)) n
msg_outcome (ok (rc, s)) k n l h = λ again. omega arith
msg_outcome died k n l h = tt
msg_outcome fault k n l h = h

recv_outcome :
    (r : Run (ℤ × Option Msg × Socket)) (now : Bytes) (ops : Ops) (status : ℤ) (n : ℕ)
    → OpsBehave now ops
    → RecvOutcome r n
    → RoundOutcome (r >>= round_after_recv now ops status) n
unfolding round_after_recv
recv_outcome (ok (rc, none, s)) now ops status n b e = rw e (λ again. cc)
recv_outcome (ok (rc, some m, s)) now ops status n b (e, i, l) = rw e (
    msg_outcome (serve_msg now ops status s m) (remaining s.incoming) n l
      (serve_msg-Served now ops status s m b i))
recv_outcome died now ops status n b o = tt
recv_outcome fault now ops status n b o = o

pub serve_round-RoundOutcome :
    (now : Bytes) (ops : Ops) (status : ℤ) (s : Socket)
    → OpsBehave now ops
    → RoundOutcome (serve_round now ops status s) (remaining s.incoming)
unfolding serve_round
serve_round-RoundOutcome now ops status s b =
    recv_outcome (endpoint_recv_msg s) now ops status (remaining s.incoming) b
      (endpoint_recv_msg-RecvOutcome s)
