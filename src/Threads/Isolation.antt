-- ===== src/Threads/Isolation.antt =====
-- Every step of the threads of src/hms/hermes.c leaves each connection as its own thread would,
-- alone.
use hermes_c.Endpoint.{Ops}
use hermes_c.Manager.{Manager, Task, ThreadPool, endpoint_task, hermes_init, listen_task}
use hermes_c.Prelude.{ℕ, ◌≡◌, inl, inr, refl, sym, ap, List, All, Any, Any-map, ℤ, replicate}
use hermes_c.Process.{ok}
use hermes_c.Server.{endpoint_init}
use hermes_c.Socket.{Socket}
use hermes_c.Threads.Local.{Local}
use hermes_c.Threads.Each.{EachOf, hermes_init-Each}
use hermes_c.Threads.Sequential.{
  TaskOf-cons, WorkerOf-cons, ClosedOf, Handled, IsNew-IsAt, TaskOf, WorkerOf, again-IsAt,
  ended-Handled,
}
use hermes_c.Threads.{Reach, System, begin, idle, started}

begin-WorkerOf :
    (ops : Ops) (fds : List Socket) (t : Task) → TaskOf ops fds t → WorkerOf ops fds (begin t)
begin-WorkerOf ops fds listen_task h = tt
begin-WorkerOf ops fds (endpoint_task e) h = Any-map (IsNew-IsAt ops e) fds h

-- Each task, thread and closed connection belongs to a connection that was accepted.
abbrev tracking : (ops : Ops) → Local ops
tracking ops = record {
  OfTask = TaskOf ops;
  OfWorker = WorkerOf ops;
  OfClosed = ClosedOf ops;
  Fault = Unit {0};
  of_listen = λ fds. tt;
  of_idle = λ fds. tt;
  of_unlocking = λ fds. tt;
  of_block = λ fds e status h. h;
  of_wake = λ fds e status h. h;
  of_opening = λ fds n. tt;
  of_accepting = λ fds. tt;
  of_checking = λ fds fd. inl refl;
  of_init = λ fds fd. Any-map (λ x e. ap (λ y. endpoint_init y ops) (sym e)) fds;
  of_add = λ fds e h. h;
  of_begin = begin-WorkerOf ops;
  of_round = λ fds now e status rc s t h q.
      Any-map (λ x at. again-IsAt ops x now e status rc s t at q) fds h;
  of_end = λ fds now e status rc s t h q.
      Any-map (λ x at. ended-Handled ops x now e status rc s t at q) fds h;
  of_fault = λ fds now e status t h q. tt;
  task_later = TaskOf-cons ops;
  worker_later = WorkerOf-cons ops;
  closed_later = λ fds fd c h. inr h;
}

module _ {Pool : Type 0} (tpool : ThreadPool Pool) where
  -- In whatever order the threads of a server run, from `hermes_init` on and with any number of
  -- threads: each connection that was closed was accepted, and is what `_hms_handle_endpoint`
  -- leaves of it when its thread runs alone at some times, with any fuel from some amount on.
  pub hermes_init-Handled :
      (garbage num_threads server_port : ℤ) (ops : Ops) (n : ℕ) (m : Manager Pool) (s : System Pool)
      → hermes_init tpool garbage num_threads server_port ops ≡ ok m
      → Reach tpool (started m (replicate n idle)) (ok s)
      → All (λ c. Any (λ fd. Handled ops fd c) s.accepted) s.closed
  hermes_init-Handled garbage num_threads server_port ops n m s e reached = EachOf.closes (
      hermes_init-Each tpool ops (tracking ops) garbage num_threads server_port n m (ok s) e
        reached)
