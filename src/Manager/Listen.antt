-- ===== src/Manager/Listen.antt =====
-- The thread that listens in src/hms/hermes.c: the pauses before it does, and what it hands over to
-- the pool.
use hermes_c.Endpoint.{Ops}
use hermes_c.Manager.{
  Accept, Listening, Task, ThreadPool, accept_failed, accepted, add_work, endpoint_task,
}
use hermes_c.Prelude.{
  ℕ, ◌≡◌, ◌∙◌, ◌⊎◌, inl, inr, refl, sym, ap, true, false, All, List, [], ◌∷◌, ◌++◌, Bool-cases,
  eq_ℤ, eq_ℤ→eq, true≢false,
}
use hermes_c.Process.{Run, ok, died, fault, rc_err}
use hermes_c.Server.{endpoint_init}
use hermes_c.Socket.{Socket}

-- The pauses are 2 seconds, and then 4 each.
abbrev Pause : ℕ → Type 0
Pause n = (n ≡ 2) ⊎ (n ≡ 4)

abbrev pub Pauses : List ℕ → Type 0
Pauses = All Pause

-- The connections that are accepted before a failure or the flag of the shutdown.
abbrev pub served_fds : List Accept → List Socket
served_fds [] = []
served_fds (accept_failed ∷ events) = []
served_fds (accepted true fd ∷ events) = []
served_fds (accepted false fd ∷ events) = fd ∷ served_fds events

abbrev pub tasks_of : Ops → List Socket → List Task
tasks_of ops [] = []
tasks_of ops (fd ∷ fds) = endpoint_task (endpoint_init fd ops) ∷ tasks_of ops fds

module _ {Pool : Type 0} (tpool : ThreadPool Pool) where
  -- The tasks that were queued behind those of before.
  abbrev pub Queues : List Task → Pool → Pool → Type 0
  Queues ts p q = tpool.queued q ≡ tpool.queued p ++ ts

  -- One of the tasks, which the pool does not take when all of those before it are queued.
  pub record Refused (ts : List Task) (p : Pool) : Type 0 where
    pub before : List Task
    pub task : Task
    pub after : List Task
    pub one_of : ts ≡ before ++ task ∷ after
    pub full : Pool
    pub queues : Queues before p full
    pub refuses : (tpool.tpool_add_work full task).0 ≡ rc_err

  pub add_work-Queues :
      (p : Pool) (t : Task)
      → ((q : Pool) × (add_work tpool p t ≡ ok q) × Queues (t ∷ []) p q)
        ⊎ ((add_work tpool p t ≡ died) × ((tpool.tpool_add_work p t).0 ≡ rc_err))
  unfolding add_work
  add_work-Queues p t = elim (Bool-cases (eq_ℤ (tpool.tpool_add_work p t).0 rc_err)) [
    | inl refused ↦ inr (rw refused refl, eq_ℤ→eq (tpool.tpool_add_work p t).0 rc_err refused)
    | inr taken ↦ inl (
      (tpool.tpool_add_work p t).1,
      rw taken refl,
      elim (tpool.adds p t) [
        | inl e ↦ absurd (true≢false (sym (ap (λ z. eq_ℤ z rc_err) e) ∙ taken))
        | inr q ↦ q
      ],
    )
  ]

  -- The loop runs to where it waits or returns, or ends the process where the pool refuses a task.
  abbrev pub AcceptOutcome : List Task → Pool → Run (Listening × Pool) → Type 0
  AcceptOutcome ts p (ok (l, q)) = Queues ts p q
  AcceptOutcome ts p died = Refused ts p
  AcceptOutcome ts p fault = ⊥
