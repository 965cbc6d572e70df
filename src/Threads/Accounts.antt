-- ===== src/Threads/Accounts.antt =====
-- No connection of a server of src/hms/hermes.c goes missing, and one thread listens at most.
use hermes_c.Endpoint.{Endpoint, close, endpoint_destroy}
use hermes_c.Manager.Listen.{add_work-Queues}
use hermes_c.Manager.{
  Attempt, attempt_works, next_sleep, Task, ThreadPool, endpoint_task, listen_task,
}
use hermes_c.Prelude.{
  ℕ, suc, if◌then◌else◌, ◌+◌, ◌≤◌, ◌≡◌, ◌⊎◌, inl, inr, refl, Bool, true, false, some, List, [], ◌∷◌,
  All, get_elem?, set, total, total-set, total-append, length, arith, ap, ℤ,
}
use hermes_c.Process.{Run, ok, died, fault, ◌>>=◌, Holds}
use hermes_c.Socket.{Socket}
use hermes_c.Threads.{
  Owner, System, Worker, blocked, unlocking, accepting, adding, after_open, after_round, begin,
  checking, close_pool, connections, hand_over, handling, idle, is_connection, listening, opening,
  running, set_pool, set_worker,
}

-- What a thread holds.
abbrev pub held : Worker → ℕ
held idle = 0
held (listening (opening n)) = 0
held (listening accepting) = 0
held (listening (checking fd)) = 1
held (listening (adding e)) = 1
held (handling e status) = 1
held (blocked e status) = 1
held unlocking = 0

abbrev pub listens : Worker → ℕ
listens (listening l) = 1
listens _ = 0

abbrev pub is_listener : Task → ℕ
is_listener listen_task = 1
is_listener (endpoint_task _) = 0

begin-held : (t : Task) → (held (begin t) ≡ is_connection t) × (listens (begin t) ≡ is_listener t)
begin-held listen_task = (refl, refl)
begin-held (endpoint_task e) = (refl, refl)

-- The books over the threads, the tasks that wait, and the numbers of the connections that were
-- closed, lost and accepted.
pub record Counts (workers : List Worker) (tasks : List Task) (closed lost accepted : ℕ)
    : Type 0 where
  pub balance : closed + lost + total held workers + connections tasks ≡ accepted
  pub one_listener : total listens workers + total is_listener tasks ≤ 1

-- A thread that goes from `a` to `b`, with what it moves.
pub move-Counts :
    (ws : List Worker) (ts : List Task) (c l n : ℕ) (us : List Task) (d k m : ℕ) (i : ℕ)
    (a b : Worker)
    → get_elem? ws i ≡ some a
    → d + k + held b + connections us + n ≡ c + l + held a + connections ts + m
    → listens b + total is_listener us ≤ listens a + total is_listener ts
    → Counts ws ts c l n
    → Counts (set ws i b) us d k m
move-Counts ws ts c l n us d k m i a b g moved quiet old = record {
  balance = omega (arith, old.balance, moved, total-set held ws i a b g);
  one_listener = omega (arith, old.one_listener, quiet, total-set listens ws i a b g);
}

-- Connections are closed at the socket, and lost only in a shutdown.
pub record Facts (closed : List Socket) (lost : ℕ) (shutdown : Bool) (owner : Owner) : Type 0 where
  pub closes : All (λ fd. fd.is_open ≡ false) closed
  pub keeps : (lost ≡ 0) ⊎ (shutdown ≡ true)
  pub flags : (owner ≡ running) ⊎ (shutdown ≡ true)

module _ {Pool : Type 0} (tpool : ThreadPool Pool) where
  abbrev pub waiting : System Pool → List Task
  waiting s = tpool.queued s.manager.pool

  -- Every connection that was accepted is closed, held by a thread, in the queue, or lost.
  pub record Accounts (s : System Pool) : Type 0 where
    pub counts : Counts s.workers (waiting s) (length s.closed) s.lost (length s.accepted)
    pub open counts use *
    pub facts : Facts s.closed s.lost s.manager.shutdown s.owner
    pub open facts use *

  -- A step of one thread that moves nothing else.
  pub set_worker-Accounts :
      (s : System Pool) (i : ℕ) (a b : Worker)
      → get_elem? s.workers i ≡ some a
      → held a ≡ held b
      → listens b ≤ listens a
      → Accounts s
      → Accounts (set_worker s i b)
  set_worker-Accounts s i a b g h l c = record {
    counts = move-Counts s.workers _ _ _ _ _ _ _ _ i a b g (omega arith) (omega arith) c.counts;
    facts = c.facts;
  }

  pub take-Accounts :
      (s : System Pool) (i : ℕ) (t : Task) (p : Pool)
      → get_elem? s.workers i ≡ some idle
      → waiting s ≡ t ∷ tpool.queued p
      → Accounts s
      → Accounts (set_worker (set_pool s p) i (begin t))
  take-Accounts s i t p g q c = record {
    counts =
        move-Counts s.workers (waiting s) _ _ _ (tpool.queued p) _ _ _ i idle (begin t) g
          (omega (arith, ap connections q, begin-held t))
          (omega (arith, ap (total is_listener) q, begin-held t)) c.counts;
    facts = c.facts;
  }

  after_round-Accounts :
      (s : System Pool) (i : ℕ) (e : Endpoint) (old : ℤ) (r : Bool × ℤ × Socket)
      → get_elem? s.workers i ≡ some (handling e old)
      → Accounts s
      → Accounts (after_round s i e r)
  unfolding after_round endpoint_destroy close
  after_round-Accounts s i e old (true, status, fd) g c =
      set_worker-Accounts s i (handling e old) (handling (record e { socket = fd }) status) g refl
        (omega arith) c
  after_round-Accounts s i e old (false, status, fd) g c = record {
    counts =
        move-Counts s.workers _ _ _ _ _ (suc (length s.closed)) _ _ i (handling e old) unlocking g
          (omega arith) (omega arith) c.counts;
    facts = record { closes = (refl, c.closes); keeps = c.keeps; flags = c.flags };
  }

  pub serve-Accounts :
      (s : System Pool) (i : ℕ) (e : Endpoint) (old : ℤ) (r : Run (Bool × ℤ × Socket))
      → get_elem? s.workers i ≡ some (handling e old)
      → Accounts s
      → Holds Accounts (r >>= λ x. ok (after_round s i e x))
  serve-Accounts s i e old (ok x) g c = after_round-Accounts s i e old x g c
  serve-Accounts s i e old died g c = tt
  serve-Accounts s i e old fault g c = tt

  holds_none :
      (works : Bool) (n : ℕ) → held (listening (if works then accepting else opening n)) ≡ 0
  holds_none true n = refl
  holds_none false n = refl

  pub attempt-Accounts :
      (s : System Pool) (i n : ℕ) (a : Attempt)
      → get_elem? s.workers i ≡ some (listening (opening n))
      → Accounts s
      → Accounts (after_open s i n a)
  unfolding after_open
  attempt-Accounts s i n a g c = record {
    counts =
        move-Counts s.workers _ _ _ _ _ _ _ _ i (listening (opening n)) _ g
          (omega (arith, holds_none (attempt_works a) (next_sleep n))) (omega arith) c.counts;
    facts = c.facts;
  }

  pub hand_over-Accounts :
      (s : System Pool) (i : ℕ) (e : Endpoint)
      → get_elem? s.workers i ≡ some (listening (adding e))
      → Accounts s
      → Holds Accounts (hand_over tpool s i e)
  unfolding hand_over
  hand_over-Accounts s i e g c = elim (add_work-Queues tpool s.manager.pool (endpoint_task e)) [
    | inl (p, a, q) ↦ rw a (record {
      counts =
          move-Counts s.workers (waiting s) _ _ _ (tpool.queued p) _ _ _ i (listening (adding e))
            (listening accepting) g
            (omega (
              arith,
              ap connections q,
              total-append is_connection (waiting s) (endpoint_task e ∷ []),
            ))
            (omega (
              arith,
              ap (total is_listener) q,
              total-append is_listener (waiting s) (endpoint_task e ∷ []),
            ))
            c.counts;
      facts = c.facts;
    })
    | inr (a, _) ↦ rw a tt
  ]

  -- What a pool that is destroyed keeps of its tasks.
  kept :
      (p : Pool) (force : ℤ) (weight : Task → ℕ)
      → total weight (tpool.queued (tpool.tpool_destroy p force)) ≤ total weight (tpool.queued p)
  kept p force weight = elim (tpool.destroys p force) [
    | inl none_left ↦ rw none_left (omega arith)
    | inr same ↦ rw same (omega arith)
  ]

  pub close_pool-Accounts :
      (s : System Pool) (force : ℤ)
      → s.manager.shutdown ≡ true
      → Accounts s
      → Accounts (close_pool tpool s force)
  unfolding close_pool
  close_pool-Accounts s force down c = record {
    counts = record {
      balance = omega (arith, c.balance, kept s.manager.pool force is_connection);
      one_listener = omega (arith, c.one_listener, kept s.manager.pool force is_listener);
    };
    facts = record { closes = c.closes; keeps = inr down; flags = inr down };
  }
