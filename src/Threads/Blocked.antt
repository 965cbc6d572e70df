-- ===== src/Threads/Blocked.antt =====
-- What `hermes_shutdown` of src/hms/hermes.c waits for: `tpool_destroy` joins the listener, which
-- sits in `accept`; the socket is closed only behind that.
use hermes_c.Endpoint.{Endpoint}
use hermes_c.Manager.{ThreadPool, add_work, endpoint_task}
use hermes_c.Prelude.{
  ℕ, ◌≡◌, ◌≢◌, ◌∙◌, sym, ap, Bool, true, false, some, List, All-get_elem?, get_elem?,
  get_elem?-set_ne, set, some-injective, ℤ,
}
use hermes_c.Process.{Run, ok, died, fault, ◌>>=◌, Holds}
use hermes_c.Socket.{Socket}
use hermes_c.Threads.{
  race, block, wake, blocked, unlocking, unlock_fails, unlock_passes, Inner, System, Worker,
  accepting, add, adding, after_open, after_round, attempt, checking, close_pool, flag, hand_over,
  handling, idle, init, join, leave, listening, opening, serve, serve_round, set_worker, shut,
  stopped, take, work,
}

untouched :
    (ws : List Worker) (i j : ℕ) (w v : Worker)
    → get_elem? ws i ≡ some (listening accepting)
    → get_elem? ws j ≡ some w
    → w ≢ listening accepting
    → get_elem? (set ws j v) i ≡ some (listening accepting)
untouched ws i j w v h g b =
    get_elem?-set_ne ws j i v (λ e. b (some-injective _ _ (sym g ∙ ap (get_elem? ws) e ∙ h))) ∙ h

module _ {Pool : Type 0} (tpool : ThreadPool Pool) where
  -- Steps in which `accept` does not return.
  pub data Quiet (s : System Pool) : System Pool → Type 0 where
    at_once : Quiet s s
    later : {t u : System Pool} → Quiet s t → Inner tpool t (ok u) → Quiet s u

  -- The thread `i` waits in `accept`, and the shutdown has not returned.
  abbrev Blocks : ℕ → System Pool → Type 0
  Blocks i s = (get_elem? s.workers i ≡ some (listening accepting)) × (s.owner ≢ stopped)

  serve-Blocks :
      (s : System Pool) (i j : ℕ) (e : Endpoint) (old : ℤ) (r : Run (Bool × ℤ × Socket))
      → get_elem? s.workers j ≡ some (handling e old)
      → Blocks i s
      → Holds (Blocks i) (r >>= λ x. ok (after_round s j e x))
  unfolding after_round
  serve-Blocks s i j e old (ok (true, status, fd)) g (h, o) =
      (untouched s.workers i j (handling e old) _ h g (λ q. cc), o)
  serve-Blocks s i j e old (ok (false, status, fd)) g (h, o) =
      (untouched s.workers i j (handling e old) _ h g (λ q. cc), o)
  serve-Blocks s i j e old died g b = tt
  serve-Blocks s i j e old fault g b = tt

  add-Blocks :
      (s : System Pool) (i j : ℕ) (e : Endpoint) (r : Run Pool)
      → get_elem? s.workers j ≡ some (listening (adding e))
      → Blocks i s
      → Holds (Blocks i) (
          r >>= λ p. ok (
            set_worker
              (record s { manager = record s.manager { pool = p } })
              j
              (listening accepting)))
  add-Blocks s i j e (ok p) g (h, o) =
      (untouched s.workers i j (listening (adding e)) _ h g (λ q. cc), o)
  add-Blocks s i j e died g b = tt
  add-Blocks s i j e fault g b = tt

  Inner-Blocks :
      (i : ℕ) (s : System Pool) (r : Run (System Pool))
      → Inner tpool s r
      → Blocks i s
      → Holds (Blocks i) r
  unfolding after_open hand_over close_pool
  Inner-Blocks i s r (work (take j g q)) (h, o) = (untouched s.workers i j idle _ h g (λ q. cc), o)
  Inner-Blocks i s r (work (serve j now {e} {status} _ g)) b =
      serve-Blocks s i j e status (serve_round now e.ops status e.socket) g b
  Inner-Blocks i s r (work (block j {e} {status} g)) (h, o) =
      (untouched s.workers i j (handling e status) _ h g (λ q. cc), o)
  Inner-Blocks i s r (work (wake j {e} {status} g)) (h, o) =
      (untouched s.workers i j (blocked e status) _ h g (λ q. cc), o)
  Inner-Blocks i s r (work (unlock_fails j g)) b = tt
  Inner-Blocks i s r (work (unlock_passes j g)) (h, o) =
      (untouched s.workers i j unlocking _ h g (λ q. cc), o)
  Inner-Blocks i s r (attempt j n a g) (h, o) =
      (untouched s.workers i j (listening (opening n)) _ h g (λ q. cc), o)
  Inner-Blocks i s r (leave j {fd} g down) (h, o) =
      (untouched s.workers i j (listening (checking fd)) _ h g (λ q. cc), o)
  Inner-Blocks i s r (init j {fd} g up) (h, o) =
      (untouched s.workers i j (listening (checking fd)) _ h g (λ q. cc), o)
  Inner-Blocks i s r (add j {e} g) b =
      add-Blocks s i j e (add_work tpool s.manager.pool (endpoint_task e)) g b
  Inner-Blocks i s r (race j g e) b = tt
  Inner-Blocks i s r (flag e) (h, o) = (h, λ q. cc)
  Inner-Blocks i s r (shut force e) (h, o) = (h, λ q. cc)
  Inner-Blocks i s r (join e all_idle none_waits) (h, o) =
      let busy : listening accepting ≡ idle =
        All-get_elem? (λ w. w ≡ idle) s.workers i (listening accepting) all_idle h in
      cc

  -- While a thread of a server waits in `accept`, `hermes_shutdown` does not return, however many
  -- steps the threads and the caller of the shutdown make, with or without `force`, until `accept`
  -- returns: with a further connection or with -1.
  pub hermes_shutdown-Blocks :
      (i : ℕ) (s t : System Pool)
      → get_elem? s.workers i ≡ some (listening accepting)
      → s.owner ≢ stopped
      → Quiet s t
      → (get_elem? t.workers i ≡ some (listening accepting)) × (t.owner ≢ stopped)
  hermes_shutdown-Blocks i s t h o at_once = (h, o)
  hermes_shutdown-Blocks i s u h o (later {t} before st) =
      Inner-Blocks i t (ok u) st (hermes_shutdown-Blocks i s t h o before)
