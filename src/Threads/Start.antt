-- ===== src/Threads/Start.antt =====
-- The start of a server of src/hms/hermes.c with its threads, and induction on what they reach.
use hermes_c.Endpoint.{Ops}
use hermes_c.Manager.Listen.{add_work-Queues}
use hermes_c.Manager.{Manager, ThreadPool, hermes_init, listen_task}
use hermes_c.Prelude.{
  ◌≡◌, ◌∙◌, ◌⊎◌, inl, inr, refl, subst, true, false, [], ◌∷◌, ◌++◌, ap, ℤ, Bool-cases, pos, incr,
  ltb_ℤ,
}
use hermes_c.Process.{Holds, Outcome, Run, ok}
use hermes_c.Threads.{Reach, Step, System, here, next}

module _ {Pool : Type 0} (tpool : ThreadPool Pool) where
  -- The manager that `hermes_init` returns.
  abbrev pub IsFresh : Ops → Manager Pool → Type 0
  IsFresh ops m =
      (m.shutdown ≡ false)
      × (m.ops ≡ ops)
      × ((tpool.queued m.pool ≡ []) ⊎ (tpool.queued m.pool ≡ listen_task ∷ []))

  -- What every step keeps holds wherever the threads get.
  pub Reach-Outcome :
      (Fault : Type 0) (P : System Pool → Type 0) {start : System Pool} {r : Run (System Pool)}
      → ((s : System Pool) (t : Run (System Pool)) → Step tpool s t → P s → Outcome Fault P t)
      → P start
      → Reach tpool start r
      → Outcome Fault P r
  Reach-Outcome Fault P keeps p here = p
  Reach-Outcome Fault P keeps p (next {s} before st) =
      keeps s _ st (Reach-Outcome Fault P keeps p before)

  hermes_init-IsFresh :
      (garbage num_threads server_port : ℤ) (ops : Ops)
      → Holds (IsFresh ops) (hermes_init tpool garbage num_threads server_port ops)
  unfolding hermes_init
  hermes_init-IsFresh garbage num_threads server_port ops =
      let p = tpool.tpool_init (incr (incr num_threads)) (pos 10) true in
      let none_waits = tpool.inits (incr (incr num_threads)) (pos 10) true in
      elim (Bool-cases (ltb_ℤ (pos 0) server_port)) [
        | inl listens ↦ elim (add_work-Queues tpool p listen_task) [
          | inl (q, e, a) ↦
              rw listens (rw e (refl, refl, inr (a ∙ ap (λ ts. ts ++ listen_task ∷ []) none_waits)))
          | inr (e, r) ↦ rw listens (rw e tt)
        ]
        | inr client ↦ rw client (refl, refl, inl none_waits)
      ]

  pub hermes_init_lem :
      (garbage num_threads server_port : ℤ) (ops : Ops) (m : Manager Pool)
      → hermes_init tpool garbage num_threads server_port ops ≡ ok m
      → IsFresh ops m
  hermes_init_lem garbage num_threads server_port ops m e =
      subst (Holds (IsFresh ops)) e (hermes_init-IsFresh garbage num_threads server_port ops)
