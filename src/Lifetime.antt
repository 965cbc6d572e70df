-- ===== src/Lifetime.antt =====
-- The memory of an endpoint of src/hms/hermes.c and its lock, around the loop of a connection.
use hermes_c.Endpoint.{Endpoint, endpoint_destroy}
use hermes_c.Prelude.{ℕ, ◌≡◌, refl, Bool, true, false, Option, none, some, if◌then◌else◌, pos}
use hermes_c.Process.{Run, ok, died, fault, ◌>>=◌}
use hermes_c.Server.{Clock, handle_endpoint, serve_loop}
use hermes_c.Socket.{Socket}

-- A block with an endpoint, and whether its mutex `meta_lock` is locked; `none` is a block behind
-- `free`.
pub record Block : Type 0 where
  pub endpoint : Endpoint
  pub is_locked : Bool

-- `pthread_mutex_lock(&endpoint->meta_lock)`. A second lock by the same thread is undefined.
unfoldable pub lock : Option Block → Run (Option Block)
lock none = fault
lock (some b) = if b.is_locked then fault else ok (some (record b { is_locked = true }))

-- An unlock of a mutex that is not locked is undefined, and so is one in a freed block.
unfoldable pub unlock : Option Block → Run (Option Block)
unlock none = fault
unlock (some b) = if b.is_locked then ok (some (record b { is_locked = false })) else fault

-- The loop, which reads and writes the endpoint through its pointer.
unfoldable pub run_loop : ℕ → Clock → Option Block → Run (Option Block)
run_loop fuel clock none = fault
run_loop fuel clock (some b) = do
  last ← serve_loop fuel clock b.endpoint.ops (pos 0) b.endpoint.socket
  ok (some (record b { endpoint = record b.endpoint { socket = last } }))

-- `hms_endpoint_destroy`: the socket that is closed, and the block that is freed.
unfoldable pub destroy_endpoint : Option Block → Run (Socket × Option Block)
destroy_endpoint none = fault
destroy_endpoint (some b) = ok (endpoint_destroy b.endpoint, none)

-- The end of `_hms_handle_endpoint`.
unfoldable pub leave_handler : Option Block → Run (Socket × Option Block)
unfolding destroy_endpoint unlock
leave_handler block = do
  (fd, freed) ← destroy_endpoint block
  unlocked ← unlock freed
  ok (fd, unlocked)

-- The whole function.
unfoldable pub run_handler : ℕ → Clock → Option Block → Run (Socket × Option Block)
unfolding lock run_loop leave_handler
run_handler fuel clock block = do
  locked ← lock block
  used ← run_loop fuel clock locked
  leave_handler used

left_in :
    (r : Run Socket) (e : Endpoint)
    → (r
        >>= (λ last. ok (some (record { endpoint = record e { socket = last }; is_locked = true })))
        >>= leave_handler)
      ≡ (r >>= (λ last. ok (endpoint_destroy (record e { socket = last }))) >>= λ fd. fault)
unfolding leave_handler
left_in (ok s) e = refl
left_in died e = refl
left_in fault e = refl

-- A thread that handles a connection never gets to its end: where the loop ends and the endpoint is
-- closed, the unlocking that follows is in the freed block, and so undefined; and where the process
-- ends in the loop, it ends. This holds for every endpoint whose mutex is not locked, as
-- `hms_endpoint_init` leaves it.
pub run_handler-handle_endpoint :
    (fuel : ℕ) (clock : Clock) (e : Endpoint)
    → run_handler fuel clock (some (record { endpoint = e; is_locked = false }))
      ≡ (handle_endpoint fuel clock e >>= λ fd. fault)
unfolding run_handler handle_endpoint
run_handler-handle_endpoint fuel clock e = left_in (serve_loop fuel clock e.ops (pos 0) e.socket) e
