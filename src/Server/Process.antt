-- ===== src/Server/Process.antt =====
-- main of cmd/server/main.go. The listener's goroutine and the handlers of net/http run beside main, and
-- so do the schedulers of the queues: each request and each round is one step.
use queuemaxxing.Base.{
  ◌≡◌, String, Bool, true, false, Option, none, some, List, [], ◌∷◌, ℤ, pos, pos_part, ltb_ℤ, ok,
}
use queuemaxxing.Storage.Log.{LogError}
use queuemaxxing.Queue.Engine.State.{CallEnv, Queue}
use queuemaxxing.Queue.Engine.Calls.{due_call, perform}
use queuemaxxing.Queue.Places.Calls.{IsFresh}
use queuemaxxing.Queue.Manager.{Files, Manager, get}
use queuemaxxing.Queue.Manager.Startup.{
  StartEnv, StartError, CloseEnv, with_queue, new_registry, new_manager, close_manager,
}
use queuemaxxing.Api.Handlers.{Reply}
use queuemaxxing.Api.Router.{Request, ServerEnv, serve}
use queuemaxxing.Api.Service.{IsFreshFor}

-- How the process ends: by log.Fatalf, or at the end of main.
pub data Exit : Type 0 where
  bad_threshold : Exit
  recovery_failed : StartError → Exit
  listener_failed : LogError → Exit
  finished : Exit

-- Where main is: before NewManager, in its select, in srv.Shutdown, before queues.Close, behind it, or
-- gone.
pub data Stage : Type 0 where
  starting serving draining drained : Stage
  closed exited : Exit → Stage

-- `answers` are those that the handlers have given, the latest first.
pub record Process : Type 0 where
  pub stage : Stage
  pub registry : Manager
  pub answers : List (Option Reply)

-- *compactThreshold < 1
abbrev pub threshold_refused : ℤ → Bool
threshold_refused threshold = ltb_ℤ threshold (pos 1)

-- a handler answers a request, or Receive is left waiting
unfoldable pub handle_request : ServerEnv → Request → Process → Process
handle_request env r s =
    let (reply, m) = serve env r s.registry in
    record s { registry = m; answers = reply ∷ s.answers }

-- queues.Close()
unfoldable pub shut_down : CloseEnv → Exit → Process → Process
shut_down env e s = record s { stage = closed e; registry = (close_manager env s.registry).1 }

-- whether handlers run; those that Shutdown has not drained in time run on to the end, and so do all
-- where the listener failed
abbrev pub is_open : Stage → Bool
is_open serving = true
is_open draining = true
is_open drained = true
is_open (closed _) = true
is_open _ = false

-- the flag, and the data directory as the process finds it
module _ (threshold : ℤ) (files : Files) where
  unfoldable pub boot : Process
  boot = record {
    stage = starting;
    registry = new_registry (pos_part threshold) files;
    answers = [];
  }

  pub data Step (s : Process) : Process → Type 0 where
    refuses :
        s.stage ≡ starting
        → threshold_refused threshold ≡ true
        → Step s (record s { stage = exited bad_threshold })
    fails :
        (env : StartEnv) (e : StartError) (m : Manager)
        → s.stage ≡ starting
        → threshold_refused threshold ≡ false
        → new_manager env (pos_part threshold) files ≡ (some e, m)
        → Step s (record s { stage = exited (recovery_failed e) })
    recovers :
        (env : StartEnv) (m : Manager)
        → s.stage ≡ starting
        → threshold_refused threshold ≡ false
        → new_manager env (pos_part threshold) files ≡ (none, m)
        → Step s (record s { stage = serving; registry = m })
    answers_one :
        (env : ServerEnv) (r : Request)
        → is_open s.stage ≡ true
        → IsFreshFor env.call s.registry
        → Step s (handle_request env r s)
    wakes :
        (name : String) (env : CallEnv) (q : Queue)
        → is_open s.stage ≡ true
        → get name s.registry ≡ ok q
        → IsFresh env q
        → Step s (record s { registry = with_queue s.registry name (perform env due_call q).1 })
    loses_listener :
        (env : CloseEnv) (e : LogError)
        → s.stage ≡ serving
        → Step s (shut_down env (listener_failed e) s)
    -- a signal, or ListenAndServe has returned nil or http.ErrServerClosed
    stops : s.stage ≡ serving → Step s (record s { stage = draining })
    -- an error of Shutdown is only logged
    drains : s.stage ≡ draining → Step s (record s { stage = drained })
    closes : (env : CloseEnv) → s.stage ≡ drained → Step s (shut_down env finished s)
    exits : (e : Exit) → s.stage ≡ closed e → Step s (record s { stage = exited e })

  pub data Reach : Process → Type 0 where
    booted : Reach boot
    later : {s s' : Process} → Reach s → Step s s' → Reach s'
