-- ===== src/Queue/Manager/Service.antt =====
-- The registry of internal/queue/manager.go along a run of calls from NewManager on.
use queuemaxxing.Base.{ℕ, ◌≡◌, String, none, ok}
use queuemaxxing.Queue.Message.{Ordering}
use queuemaxxing.Queue.Engine.State.{CallEnv, Queue}
use queuemaxxing.Queue.Engine.Calls.{Call, perform}
use queuemaxxing.Queue.Places.Calls.{IsFresh}
use queuemaxxing.Queue.Manager.{Files, Manager, get, CreateEnv, create, DeleteEnv, delete_queue}
use queuemaxxing.Queue.Manager.Names.{get-found}
use queuemaxxing.Queue.Manager.Startup.{StartEnv, with_queue, new_manager}
use queuemaxxing.Queue.Manager.Registry.{
  IsRegistry, create-IsRegistry, delete_queue-IsRegistry, call-IsRegistry, new_manager-IsRegistry,
}

-- `m'` is what a run of Create, Delete and calls on queues that Get finds makes of `m`, whatever
-- each returns, with tokens that are not in use.
pub data Runs (m : Manager) : Manager → Type 0 where
  idle : Runs m m
  create_step :
      {r : Manager} (env : CreateEnv) (name : String) (ordering : Ordering) (s : Manager)
      → Runs m r
      → s ≡ (create env name ordering r).1
      → Runs m s
  delete_step :
      {r : Manager} (env : DeleteEnv) (name : String) (s : Manager)
      → Runs m r
      → s ≡ (delete_queue env name r).1
      → Runs m s
  call_step :
      {r : Manager} (name : String) (env : CallEnv) (c : Call) (q : Queue) (s : Manager)
      → Runs m r
      → get name r ≡ ok q
      → IsFresh env q
      → s ≡ with_queue r name (perform env c q).1
      → Runs m s

Runs-IsRegistry : {m r : Manager} → IsRegistry m → Runs m r → IsRegistry r
Runs-IsRegistry v idle = v
Runs-IsRegistry v (create_step {r = r} env name ordering s before e) =
    rw e (create-IsRegistry r (Runs-IsRegistry v before) env name ordering)
Runs-IsRegistry v (delete_step {r = r} env name s before e) =
    rw e (delete_queue-IsRegistry r (Runs-IsRegistry v before) env name)
Runs-IsRegistry v (call_step {r = r} name env c q s before got fresh e) =
    rw e (call-IsRegistry r (Runs-IsRegistry v before) name env c q (get-found name r q got) fresh)

-- Whatever files NewManager started from without an error, and whatever Creates, Deletes and calls on
-- its queues have followed, failed ones included, with tokens that are not in use: every queue of the
-- registry stands under its own name, which is valid, is open, and has its heaps, messages and
-- receipts in order.
pub started_service_stays_valid :
    (env : StartEnv) (threshold : ℕ) (files : Files) (m r : Manager)
    → new_manager env threshold files ≡ (none, m)
    → Runs m r
    → IsRegistry r
started_service_stays_valid env threshold files m r started run =
    Runs-IsRegistry (new_manager-IsRegistry env threshold files m started) run
