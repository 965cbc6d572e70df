-- ===== src/Threads/Ledger.antt =====
-- Every step of the threads of src/hms/hermes.c keeps the accounts of the connections.
use hermes_c.Endpoint.{Ops}
use hermes_c.Manager.{Manager, ThreadPool, hermes_init}
use hermes_c.Prelude.{ℕ, zero, suc, ◌≡◌, inl, inr, refl, length, total, replicate, arith, ℤ}
use hermes_c.Process.{Run, ok, Holds}
use hermes_c.Threads.{
  race, block, wake, blocked, handling, unlocking, unlock_fails, unlock_passes, Inner, Reach, Step,
  System, Work, Worker, accept, accepting, add, attempt, checking, fail, flag, idle, init, inner,
  join, leave, listening, outer, serve, serve_round, shut, started, take, work,
}
use hermes_c.Threads.Start.{IsFresh, Reach-Outcome, hermes_init_lem}
use hermes_c.Threads.Accounts.{
  Accounts, close_pool-Accounts, attempt-Accounts, hand_over-Accounts, held, listens, move-Counts,
  serve-Accounts, set_worker-Accounts, take-Accounts,
}

module _ {Pool : Type 0} (tpool : ThreadPool Pool) where
  Work-Accounts :
      (s : System Pool) {r : Run (System Pool)}
      → Work tpool s r
      → Accounts tpool s
      → Holds (Accounts tpool) r
  Work-Accounts s (take i {t} {p} e q) c =
      take-Accounts tpool s i t p e (tpool.takes_some s.manager.pool t p q) c
  Work-Accounts s (serve i now {e} {status} _ g) c =
      serve-Accounts tpool s i e status (serve_round now e.ops status e.socket) g c
  Work-Accounts s (block i {e} {status} g) c =
      set_worker-Accounts tpool s i (handling e status) (blocked e status) g refl (omega arith) c
  Work-Accounts s (wake i {e} {status} g) c =
      set_worker-Accounts tpool s i (blocked e status) (handling e status) g refl (omega arith) c
  Work-Accounts s (unlock_fails i g) c = tt
  Work-Accounts s (unlock_passes i g) c =
      set_worker-Accounts tpool s i unlocking idle g refl (omega arith) c

  Inner-Accounts :
      (s : System Pool) {r : Run (System Pool)}
      → Inner tpool s r
      → Accounts tpool s
      → Holds (Accounts tpool) r
  Inner-Accounts s (work w) c = Work-Accounts s w c
  Inner-Accounts s (attempt i n a g) c = attempt-Accounts tpool s i n a g c
  Inner-Accounts s (leave i {fd} g down) c = record {
    counts =
        move-Counts s.workers _ _ _ _ _ _ (suc s.lost) _ i (listening (checking fd)) idle g
          (omega arith) (omega arith) c.counts;
    facts = record { closes = c.closes; keeps = inr down; flags = inr down };
  }
  Inner-Accounts s (init i {fd} g up) c =
      set_worker-Accounts tpool s i (listening (checking fd)) _ g refl (omega arith) c
  Inner-Accounts s (add i {e} g) c = hand_over-Accounts tpool s i e g c
  Inner-Accounts s (race i g e) c = tt
  Inner-Accounts s (flag e) c = record {
    counts = c.counts;
    facts = record { closes = c.closes; keeps = inr refl; flags = inr refl };
  }
  Inner-Accounts s (shut force e) c = elim c.flags [
    | inl before ↦ cc
    | inr down ↦ close_pool-Accounts tpool s force down c
  ]
  Inner-Accounts s (join e all_idle nothing_waits) c = elim c.flags [
    | inl before ↦ cc
    | inr down ↦ record {
      counts = c.counts;
      facts = record { closes = c.closes; keeps = c.keeps; flags = inr down };
    }
  ]

  Step-Accounts :
      (s : System Pool) {r : Run (System Pool)}
      → Step tpool s r
      → Accounts tpool s
      → Holds (Accounts tpool) r
  Step-Accounts s (inner st) c = Inner-Accounts s st c
  Step-Accounts s (outer (accept i fd g)) c = record {
    counts =
        move-Counts s.workers _ _ _ _ _ _ _ (suc (length s.accepted)) i (listening accepting)
          (listening (checking fd)) g (omega arith) (omega arith) c.counts;
    facts = c.facts;
  }
  Step-Accounts s (outer (fail i g)) c =
      set_worker-Accounts tpool s i (listening accepting) idle g refl (omega arith) c

  total-replicate :
      (weight : Worker → ℕ) (n : ℕ) → weight idle ≡ 0 → total weight (replicate n idle) ≡ 0
  total-replicate weight zero h = refl
  total-replicate weight (suc n) h = omega (arith, h, total-replicate weight n h)

  fresh-Accounts :
      (m : Manager Pool) (ops : Ops) (n : ℕ)
      → IsFresh tpool ops m
      → Accounts tpool (started m (replicate n idle))
  fresh-Accounts m ops n (up, same, waits) = record {
    counts = record {
      balance = elim waits [
        | inl none_waits ↦ rw (none_waits, total-replicate held n refl) refl
        | inr listener ↦ rw (listener, total-replicate held n refl) refl
      ];
      one_listener = elim waits [
        | inl none_waits ↦ rw (none_waits, total-replicate listens n refl) (omega arith)
        | inr listener ↦ rw (listener, total-replicate listens n refl) (omega arith)
      ];
    };
    facts = record { closes = tt; keeps = inl refl; flags = inl refl };
  }

  -- Wherever the threads of a server get, in any order, from `hermes_init` on with any number of
  -- threads: every connection that was accepted is closed, held by a thread, in the queue of the
  -- pool, or lost, and each is counted once; the closed ones are closed at the socket; none is lost
  -- before a shutdown; and one thread listens at most.
  pub hermes_init-Accounts :
      (garbage num_threads server_port : ℤ) (ops : Ops) (n : ℕ) (m : Manager Pool) (s : System Pool)
      → hermes_init tpool garbage num_threads server_port ops ≡ ok m
      → Reach tpool (started m (replicate n idle)) (ok s)
      → Accounts tpool s
  hermes_init-Accounts garbage num_threads server_port ops n m s e reached =
      Reach-Outcome tpool (Unit {0}) (Accounts tpool) (λ t r. Step-Accounts t)
        (fresh-Accounts m ops n (hermes_init_lem tpool garbage num_threads server_port ops m e))
        reached
