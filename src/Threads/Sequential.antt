-- ===== src/Threads/Sequential.antt =====
-- The threads of src/hms/hermes.c do not disturb each other: whatever their order, a connection is
-- handled as `_hms_handle_endpoint` handles it alone.
use native.Mathlib.Nat.{zero-add}
use hermes_c.CText.{Bytes}
use hermes_c.Endpoint.{Endpoint, Ops, endpoint_destroy}
use hermes_c.Manager.{Task, endpoint_task, listen_task}
use hermes_c.Prelude.{
  zero, All, All-append, [], ◌++◌, length, sizes, refl, ℕ, suc, ◌+◌, ◌≡◌, ◌∙◌, inr, sym, ap, Bool,
  true, false, List, ◌∷◌, Any, ℤ, pos,
}
use hermes_c.Process.{Run, ok, ◌>>=◌}
use hermes_c.Server.{Clock, endpoint_init, handle_endpoint, serve_loop}
use hermes_c.Socket.{Socket}
use hermes_c.Threads.Rounds.{go_on, serve_loop-serve_round}
use hermes_c.Threads.{
  IsTime, Worker, blocked, unlocking, accepting, adding, checking, handling, idle, listening,
  opening, serve_round,
}

-- The texts of the time in the first rounds, and a clock behind them.
abbrev at_first : Bytes → Clock → Clock
at_first now clock zero = now
at_first now clock (suc n) = clock n

abbrev pub at_times : List Bytes → Clock → Clock
at_times [] clock = clock
at_times (t ∷ ts) clock = at_first t (at_times ts clock)

at_times-append :
    (ts us : List Bytes) (clock : Clock)
    → at_times (ts ++ us) clock ≡ at_times ts (at_times us clock)
at_times-append [] us clock = refl
at_times-append (t ∷ ts) us clock = ap (at_first t) (at_times-append ts us clock)

pub at_times-IsTime :
    (ts : List Bytes) (clock : Clock)
    → All IsTime ts
    → ((n : ℕ) → IsTime (clock n))
    → (n : ℕ) → IsTime (at_times ts clock n)
at_times-IsTime [] clock h short n = short n
at_times-IsTime (t ∷ ts) clock (p, h) short zero = p
at_times-IsTime (t ∷ ts) clock (p, h) short (suc n) = at_times-IsTime ts clock h short n

module _ (ops : Ops) where
  -- A connection `fd` is at `status` and `s` behind the rounds at the times `done`.
  pub record RunsTo (fd : Socket) (status : ℤ) (s : Socket) : Type 0 where
    pub done : List Bytes
    pub short : All IsTime done
    pub same :
        (fuel : ℕ) (rest : Clock)
        → serve_loop (length done + fuel) (at_times done rest) (endpoint_init fd ops).ops (pos 0) fd
          ≡ serve_loop fuel rest (endpoint_init fd ops).ops status s

  -- What `_hms_handle_endpoint` leaves of `fd` when its rounds are at the given times, with any
  -- fuel from some amount on.
  pub record Handled (fd c : Socket) : Type 0 where
    pub times : List Bytes
    pub short : All IsTime times
    pub result :
        (fuel : ℕ) (rest : Clock)
        → handle_endpoint (length times + fuel) (at_times times rest) (endpoint_init fd ops) ≡ ok c

  -- The endpoint of `fd`, at its start and behind some rounds.
  abbrev pub IsNew : Endpoint → Socket → Type 0
  IsNew e fd = e ≡ endpoint_init fd ops

  abbrev pub IsAt : Endpoint → ℤ → Socket → Type 0
  IsAt e status fd = (e.ops ≡ (endpoint_init fd ops).ops) × RunsTo fd status e.socket

  pub IsNew-IsAt : (e : Endpoint) (fd : Socket) → IsNew e fd → IsAt e (pos 0) fd
  unfolding endpoint_init
  IsNew-IsAt e fd n = (
    ap (λ x. x.ops) n,
    record {
      done = [];
      short = tt;
      same = λ fuel rest.
          ap (λ k. serve_loop k rest (endpoint_init fd ops).ops (pos 0) fd) (zero-add fuel)
          ∙ ap (serve_loop fuel rest (endpoint_init fd ops).ops (pos 0))
              (sym (ap (λ x. x.socket) n));
    },
  )

  -- Behind one more round, at the time `now`.
  after_round-same :
      (fd : Socket) (now : Bytes) (e : Endpoint) (status : ℤ) (r : Run (Bool × ℤ × Socket))
      → (at : IsAt e status fd) → serve_round now e.ops status e.socket ≡ r
      → (fuel : ℕ) (rest : Clock)
      → serve_loop
          (length (at.1.done ++ now ∷ []) + fuel)
          (at_times (at.1.done ++ now ∷ []) rest)
          (endpoint_init fd ops).ops
          (pos 0)
          fd
        ≡ (r >>= go_on fuel rest (endpoint_init fd ops).ops)
  after_round-same fd now e status r at q fuel rest =
      let size : length (at.1.done ++ now ∷ []) + fuel ≡ length at.1.done + suc fuel =
        grind sizes in
      ap
        (λ k.
          serve_loop k (at_times (at.1.done ++ now ∷ []) rest) (endpoint_init fd ops).ops (pos 0)
            fd)
        size
      ∙ ap (λ c. serve_loop (length at.1.done + suc fuel) c (endpoint_init fd ops).ops (pos 0) fd)
          (at_times-append at.1.done (now ∷ []) rest)
      ∙ at.1.same (suc fuel) (at_first now rest)
      ∙ serve_loop-serve_round fuel (at_first now rest) (endpoint_init fd ops).ops status e.socket
      ∙ ap (λ x. x >>= go_on fuel rest (endpoint_init fd ops).ops)
          (ap (λ p. serve_round now p status e.socket) (sym at.0) ∙ q)

  -- The next round, or the end.
  pub again-IsAt :
      (fd : Socket) (now : Bytes) (e : Endpoint) (status rc : ℤ) (s : Socket)
      → IsTime now
      → IsAt e status fd
      → serve_round now e.ops status e.socket ≡ ok (true, rc, s)
      → IsAt (record e { socket = s }) rc fd
  again-IsAt fd now e status rc s t (o, rounds) q = (
    o,
    record {
      done = rounds.done ++ now ∷ [];
      short = All-append IsTime rounds.done (now ∷ []) rounds.short (t, tt);
      same = after_round-same fd now e status (ok (true, rc, s)) (o, rounds) q;
    },
  )

  pub ended-Handled :
      (fd : Socket) (now : Bytes) (e : Endpoint) (status rc : ℤ) (s : Socket)
      → IsTime now
      → IsAt e status fd
      → serve_round now e.ops status e.socket ≡ ok (false, rc, s)
      → Handled fd (endpoint_destroy (record e { socket = s }))
  unfolding handle_endpoint endpoint_init endpoint_destroy
  ended-Handled fd now e status rc s t (o, rounds) q = record {
    times = rounds.done ++ now ∷ [];
    short = All-append IsTime rounds.done (now ∷ []) rounds.short (t, tt);
    result = λ fuel rest.
        ap
          (λ r.
            r >>= λ last. ok (endpoint_destroy (record (endpoint_init fd ops) { socket = last })))
          (after_round-same fd now e status (ok (false, rc, s)) (o, rounds) q fuel rest);
  }

-- What tasks and threads have to do with the connections that were accepted.
abbrev pub TaskOf : Ops → List Socket → Task → Type 0
TaskOf ops fds listen_task = Unit {0}
TaskOf ops fds (endpoint_task e) = Any (IsNew ops e) fds

abbrev pub WorkerOf : Ops → List Socket → Worker → Type 0
WorkerOf ops fds idle = Unit {0}
WorkerOf ops fds (listening (opening n)) = Unit {0}
WorkerOf ops fds (listening accepting) = Unit {0}
WorkerOf ops fds (listening (checking fd)) = Any (λ x. x ≡ fd) fds
WorkerOf ops fds (listening (adding e)) = Any (IsNew ops e) fds
WorkerOf ops fds (handling e status) = Any (IsAt ops e status) fds
WorkerOf ops fds (blocked e status) = Any (IsAt ops e status) fds
WorkerOf ops fds unlocking = Unit {0}

abbrev pub ClosedOf : Ops → List Socket → Socket → Type 0
ClosedOf ops fds c = Any (λ fd. Handled ops fd c) fds

-- One more connection leaves all that.
module _ (ops : Ops) (fds : List Socket) (fd : Socket) where
  pub TaskOf-cons : (t : Task) → TaskOf ops fds t → TaskOf ops (fd ∷ fds) t
  TaskOf-cons listen_task h = tt
  TaskOf-cons (endpoint_task e) h = inr h

  pub WorkerOf-cons : (w : Worker) → WorkerOf ops fds w → WorkerOf ops (fd ∷ fds) w
  WorkerOf-cons idle h = tt
  WorkerOf-cons (listening (opening n)) h = tt
  WorkerOf-cons (listening accepting) h = tt
  WorkerOf-cons (listening (checking x)) h = inr h
  WorkerOf-cons (listening (adding e)) h = inr h
  WorkerOf-cons (handling e status) h = inr h
  WorkerOf-cons (blocked e status) h = inr h
  WorkerOf-cons unlocking h = tt
