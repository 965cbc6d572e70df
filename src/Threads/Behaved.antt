-- ===== src/Threads/Behaved.antt =====
-- Where an interleaving of the threads of src/hms/hermes.c can have undefined behaviour.
use hermes_c.CText.{Bytes}
use hermes_c.Endpoint.{Ops}
use hermes_c.Manager.{Manager, Task, ThreadPool, endpoint_task, hermes_init, listen_task}
use hermes_c.Prelude.{ℕ, inl, inr, refl, ◌≡◌, subst, replicate, ℤ}
use hermes_c.Process.{Holds, Outcome, Run, died, fault, ok}
use hermes_c.Server.Calls.{OpsBehave}
use hermes_c.Server.Loop.{GivenBehave, endpoint_init-OpsBehave}
use hermes_c.Threads.Local.{Local}
use hermes_c.Threads.Each.{Each, Fails, Step-Keeps, hermes_init-Each}
use hermes_c.Threads.Rounds.{RoundOutcome, serve_round-RoundOutcome}
use hermes_c.Parser.Consumes.{remaining}
use hermes_c.Threads.{
  IsTime, Work, Undefined, race, Step, blocked, unlocking, unlock_fails, Reach, System, Worker,
  accepting, adding, begin, checking, handling, idle, inner, listening, opening, started, work,
}

-- Operations that behave at any time.
abbrev pub AlwaysBehave : Ops → Type 0
AlwaysBehave ops = (now : Bytes) → IsTime now → OpsBehave now ops

abbrev pub GivenAlways : Ops → Type 0
GivenAlways ops = (now : Bytes) → IsTime now → GivenBehave now ops

-- The endpoints of tasks and threads have such operations.
abbrev pub TaskBehaves : Task → Type 0
TaskBehaves listen_task = Unit {0}
TaskBehaves (endpoint_task e) = AlwaysBehave e.ops

abbrev pub WorkerBehaves : Worker → Type 0
WorkerBehaves idle = Unit {0}
WorkerBehaves (listening (opening n)) = Unit {0}
WorkerBehaves (listening accepting) = Unit {0}
WorkerBehaves (listening (checking fd)) = Unit {0}
WorkerBehaves (listening (adding e)) = AlwaysBehave e.ops
WorkerBehaves (handling e status) = AlwaysBehave e.ops
WorkerBehaves (blocked e status) = AlwaysBehave e.ops
WorkerBehaves unlocking = Unit {0}

pub begin-WorkerBehaves : (t : Task) → TaskBehaves t → WorkerBehaves (begin t)
begin-WorkerBehaves listen_task h = tt
begin-WorkerBehaves (endpoint_task e) h = h

-- Every step keeps that, and no round is undefined.
abbrev pub behaving : (ops : Ops) → GivenAlways ops → Local ops
behaving ops g = record {
  OfTask = λ fds. TaskBehaves;
  OfWorker = λ fds. WorkerBehaves;
  OfClosed = λ fds c. Unit {0};
  Fault = ⊥;
  of_listen = λ fds. tt;
  of_idle = λ fds. tt;
  of_unlocking = λ fds. tt;
  of_block = λ fds e status h. h;
  of_wake = λ fds e status h. h;
  of_opening = λ fds n. tt;
  of_accepting = λ fds. tt;
  of_checking = λ fds fd. tt;
  of_init = λ fds fd h now t. endpoint_init-OpsBehave now fd ops (g now t);
  of_add = λ fds e h. h;
  of_begin = λ fds. begin-WorkerBehaves;
  of_round = λ fds now e status rc s t h q. h;
  of_end = λ fds now e status rc s t h q. tt;
  of_fault = λ fds now e status t h q.
      subst (λ r. RoundOutcome r (remaining e.socket.incoming)) q
        (serve_round-RoundOutcome now e.ops status e.socket (h now t));
  task_later = λ fds fd t h. h;
  worker_later = λ fds fd w h. h;
  closed_later = λ fds fd c h. h;
}

module _ {Pool : Type 0} (tpool : ThreadPool Pool) (ops : Ops) (g : GivenAlways ops) where
  abbrev pub Behaved : System Pool → Type 0
  Behaved = Each tpool ops (behaving ops g)

  kept :
      (s : System Pool) (r : Run (System Pool)) {t : System Pool}
      → r ≡ ok t
      → Outcome (Fails tpool ops (behaving ops g) s) Behaved r
      → Behaved t
  kept s (ok t) e h = subst (Holds Behaved) e h
  kept s died e h = cc
  kept s fault e h = cc

  pub Work-Behaved : (s t : System Pool) → Work tpool s (ok t) → Behaved s → Behaved t
  Work-Behaved s t w h =
      kept s (ok t) refl (Step-Keeps tpool ops (behaving ops g) s (ok t) (inner (work w)) h)

  fails :
      (s : System Pool) (r : Run (System Pool))
      → r ≡ fault
      → Outcome (Fails tpool ops (behaving ops g) s) Behaved r
      → Undefined tpool s
  fails s fault e (inl impossible) = absurd impossible
  fails s fault e (inr h) = h
  fails s died e h = cc
  fails s (ok t) e h = cc

  may_fail : (s : System Pool) → Undefined tpool s → Step tpool s fault
  may_fail s (inl (i, at)) = inner (work (unlock_fails i at))
  may_fail s (inr (up, i, fd, at)) = inner (race i at up)

  pub hermes_init-Safe :
      (garbage num_threads server_port : ℤ) (n : ℕ) (m : Manager Pool) (s : System Pool)
      → hermes_init tpool garbage num_threads server_port ops ≡ ok m
      → Reach tpool (started m (replicate n idle)) (ok s)
      → Behaved s
        × (Step tpool s fault → Undefined tpool s)
        × (Undefined tpool s → Step tpool s fault)
  hermes_init-Safe garbage num_threads server_port n m s e reached =
      let b : Behaved s =
        hermes_init-Each tpool ops (behaving ops g) garbage num_threads server_port n m (ok s) e
          reached in
      (b, λ st. fails s fault refl (Step-Keeps tpool ops (behaving ops g) s fault st b), may_fail s)
