-- ===== src/Threads/Each.antt =====
-- An invariant of the threads of src/hms/hermes.c that says something of each task, each thread and
-- each closed connection on its own, kept by every step when a few conditions hold.
use hermes_c.CText.{Bytes}
use hermes_c.Endpoint.{Endpoint, Ops}
use hermes_c.Manager.Listen.{add_work-Queues}
use hermes_c.Manager.{Task, Manager, ThreadPool, endpoint_task, hermes_init}
use hermes_c.Threads.Start.{IsFresh, Reach-Outcome, hermes_init_lem}
use hermes_c.Prelude.{
  ℕ, zero, suc, replicate, ◌⊎◌, ◌≡◌, inl, inr, refl, subst, Bool, true, false, some, List, [], ◌∷◌,
  All, All-append, All-get_elem?, All-map, All-set, get_elem?, ℤ, if◌then◌else◌,
}
use hermes_c.Process.{Holds, Outcome, Run, ok, died, fault, ◌>>=◌}
use hermes_c.Server.{endpoint_init}
use hermes_c.Socket.{Socket}
use hermes_c.Threads.Accounts.{waiting}
use hermes_c.Threads.Local.{Local}
use hermes_c.Threads.{
  IsTime, Undefined, race, blocked, unlocking, block, wake, unlock_fails, unlock_passes, Inner,
  Outer, Reach, Step, System, Worker, accept, accepting, add, adding, after_open, after_round,
  attempt, begin, checking, close_pool, fail, flag, hand_over, handling, idle, init, inner, join,
  leave, listening, opening, outer, serve, serve_round, set_pool, set_worker, shut, started, take,
  work,
}

module _ {Pool : Type 0} (tpool : ThreadPool Pool) (ops : Ops) (l : Local ops) where
  -- What is said of the parts of a system that it depends on.
  pub record EachOf (own : Ops) (queue : List Task) (workers : List Worker)
      (fds closed : List Socket) : Type 0 where
    pub given : own ≡ ops
    pub tasks : All (l.OfTask fds) queue
    pub threads : All (l.OfWorker fds) workers
    pub closes : All (l.OfClosed fds) closed

  abbrev pub Each : System Pool → Type 0
  Each s = EachOf s.manager.ops (waiting tpool s) s.workers s.accepted s.closed

  -- What a fault means: what `l` says, or one of the two places where a step is undefined.
  abbrev pub Fails : System Pool → Type 0
  Fails s = l.Fault ⊎ Undefined tpool s

  abbrev Keeps : System Pool → Run (System Pool) → Type 0
  Keeps s = Outcome (Fails s) Each

  of_thread :
      (s : System Pool) (i : ℕ) (w : Worker)
      → get_elem? s.workers i ≡ some w
      → Each s
      → l.OfWorker s.accepted w
  of_thread s i w g h = All-get_elem? (l.OfWorker s.accepted) s.workers i w h.threads g

  -- A step of one thread, with the queue behind it.
  put :
      (s : System Pool) (i : ℕ) (w : Worker) (p : Pool)
      → l.OfWorker s.accepted w
      → All (l.OfTask s.accepted) (tpool.queued p)
      → Each s
      → Each (set_worker (set_pool s p) i w)
  put s i w p b ts h = record {
    given = h.given;
    tasks = ts;
    threads = All-set (l.OfWorker s.accepted) s.workers i w h.threads b;
    closes = h.closes;
  }

  put_worker :
      (s : System Pool) (i : ℕ) (w : Worker)
      → l.OfWorker s.accepted w
      → Each s
      → Each (set_worker s i w)
  put_worker s i w b h = put s i w s.manager.pool b h.tasks h

  serve-Keeps :
      (s : System Pool) (i : ℕ) (now : Bytes) (e : Endpoint) (status : ℤ)
      (r : Run (Bool × ℤ × Socket))
      → IsTime now
      → l.OfWorker s.accepted (handling e status)
      → serve_round now e.ops status e.socket ≡ r
      → Each s
      → Keeps s (r >>= λ x. ok (after_round s i e x))
  unfolding after_round
  serve-Keeps s i now e status (ok (true, rc, fd)) t b q h =
      put_worker s i (handling (record e { socket = fd }) rc)
        (l.of_round s.accepted now e status rc fd t b q) h
  serve-Keeps s i now e status (ok (false, rc, fd)) t b q h =
      let stopped = put_worker s i unlocking (l.of_unlocking s.accepted) h in
      record {
        given = stopped.given;
        tasks = stopped.tasks;
        threads = stopped.threads;
        closes = (l.of_end s.accepted now e status rc fd t b q, h.closes);
      }
  serve-Keeps s i now e status died t b q h = tt
  serve-Keeps s i now e status fault t b q h = inl (l.of_fault s.accepted now e status t b q)

  hand_over-Keeps :
      (s : System Pool) (i : ℕ) (e : Endpoint)
      → l.OfWorker s.accepted (listening (adding e))
      → Each s
      → Keeps s (hand_over tpool s i e)
  unfolding hand_over
  hand_over-Keeps s i e b h = elim (add_work-Queues tpool s.manager.pool (endpoint_task e)) [
    | inl (p, a, q) ↦ rw a (
        put s i (listening accepting) p (l.of_accepting s.accepted)
          (rw q (
            All-append (l.OfTask s.accepted) (waiting tpool s) (endpoint_task e ∷ []) h.tasks
              (l.of_add s.accepted e b, tt)))
          h)
    | inr (a, _) ↦ rw a tt
  ]

  of_attempt :
      (fds : List Socket) (works : Bool) (n : ℕ)
      → l.OfWorker fds (listening (if works then accepting else opening n))
  of_attempt fds true n = l.of_accepting fds
  of_attempt fds false n = l.of_opening fds n

  Inner-Keeps : (s : System Pool) (r : Run (System Pool)) → Inner tpool s r → Each s → Keeps s r
  unfolding after_open close_pool
  Inner-Keeps s r (work (take i {t} {p} g q)) h =
      let ts = subst (All (l.OfTask s.accepted)) (tpool.takes_some s.manager.pool t p q) h.tasks in
      put s i (begin t) p (l.of_begin s.accepted t ts.0) ts.1 h
  Inner-Keeps s r (work (serve i now {e} {status} t g)) h =
      serve-Keeps s i now e status (serve_round now e.ops status e.socket) t
        (of_thread s i (handling e status) g h) refl h
  Inner-Keeps s r (work (block i {e} {status} g)) h =
      put_worker s i (blocked e status)
        (l.of_block s.accepted e status (of_thread s i (handling e status) g h)) h
  Inner-Keeps s r (work (wake i {e} {status} g)) h =
      put_worker s i (handling e status)
        (l.of_wake s.accepted e status (of_thread s i (blocked e status) g h)) h
  Inner-Keeps s r (work (unlock_fails i g)) h = inr (inl (i, g))
  Inner-Keeps s r (work (unlock_passes i g)) h = put_worker s i idle (l.of_idle s.accepted) h
  Inner-Keeps s r (attempt i n a g) h = put_worker s i _ (of_attempt s.accepted _ _) h
  Inner-Keeps s r (leave i g down) h = put_worker s i idle (l.of_idle s.accepted) h
  Inner-Keeps s r (init i {fd} g up) h =
      put_worker s i (listening (adding (endpoint_init fd s.manager.ops)))
        (rw h.given (l.of_init s.accepted fd (of_thread s i (listening (checking fd)) g h))) h
  Inner-Keeps s r (add i {e} g) h =
      hand_over-Keeps s i e (of_thread s i (listening (adding e)) g h) h
  Inner-Keeps s r (race i {fd} g e) h = inr (inr (e, i, fd, g))
  Inner-Keeps s r (flag e) h = h
  Inner-Keeps s r (shut force e) h = record {
    given = h.given;
    tasks = elim (tpool.destroys s.manager.pool force) [
      | inl none_left ↦ rw none_left tt
      | inr same ↦ rw same h.tasks
    ];
    threads = h.threads;
    closes = h.closes;
  }
  Inner-Keeps s r (join e idle_threads none_waits) h = h

  Outer-Keeps : (s : System Pool) (r : Run (System Pool)) → Outer tpool s r → Each s → Keeps s r
  Outer-Keeps s r (accept i fd g) h = record {
    given = h.given;
    tasks = All-map (l.task_later s.accepted fd) (waiting tpool s) h.tasks;
    threads =
        All-set (l.OfWorker (fd ∷ s.accepted)) s.workers i (listening (checking fd))
          (All-map (l.worker_later s.accepted fd) s.workers h.threads)
          (l.of_checking s.accepted fd);
    closes = All-map (l.closed_later s.accepted fd) s.closed h.closes;
  }
  Outer-Keeps s r (fail i g) h = put_worker s i idle (l.of_idle s.accepted) h

  pub Step-Keeps : (s : System Pool) (r : Run (System Pool)) → Step tpool s r → Each s → Keeps s r
  Step-Keeps s r (inner st) h = Inner-Keeps s r st h
  Step-Keeps s r (outer st) h = Outer-Keeps s r st h

  idle_threads : (n : ℕ) → All (l.OfWorker []) (replicate n idle)
  idle_threads zero = tt
  idle_threads (suc n) = (l.of_idle [], idle_threads n)

  pub fresh-Each :
      (m : Manager Pool) (n : ℕ) → IsFresh tpool ops m → Each (started m (replicate n idle))
  fresh-Each m n (up, same, waits) = record {
    given = same;
    tasks = elim waits [
      | inl none_waits ↦ rw none_waits tt
      | inr listener ↦ rw listener (l.of_listen [], tt)
    ];
    threads = idle_threads n;
    closes = tt;
  }

  weaken : (Fault : Type 0) (r : Run (System Pool)) → Outcome Fault Each r → Holds Each r
  weaken F (ok s) h = h
  weaken F died h = tt
  weaken F fault h = tt

  -- The invariant wherever the threads of a server get.
  pub hermes_init-Each :
      (garbage num_threads server_port : ℤ) (n : ℕ) (m : Manager Pool) (r : Run (System Pool))
      → hermes_init tpool garbage num_threads server_port ops ≡ ok m
      → Reach tpool (started m (replicate n idle)) r
      → Holds Each r
  hermes_init-Each garbage num_threads server_port n m r e reached =
      Reach-Outcome tpool (Unit {0}) Each (λ s r st h. weaken (Fails s) r (Step-Keeps s r st h))
        (fresh-Each m n (hermes_init_lem tpool garbage num_threads server_port ops m e)) reached
