-- ===== src/Queue/Manager/Startup.antt =====
-- NewManager and Close of internal/queue/manager.go.
use queuemaxxing.Base.{
  ℕ, String, Option, none, some, List, [], ◌∷◌, Result, ok, err, if◌then◌else◌, put,
}
use queuemaxxing.Storage.Record.{Record}
use queuemaxxing.Storage.Log.{LogError}
use queuemaxxing.Queue.Clock.{Time}
use queuemaxxing.Queue.Engine.State.{CallEnv, Queue}
use queuemaxxing.Queue.Replay.{ReplayError, open_queue}
use queuemaxxing.Queue.Manager.{
  LogFile, whole, incomplete, damaged, Files, Queues, Manager, ManagerError, replay_failed,
  log_incomplete, log_damaged, name_ok, close_queue, RemoveEnd, removed, absent, not_removed,
  not_synced, remove_log,
}

-- How the closing of each queue goes, and what it leaves in the data directory.
pub record CloseEnv : Type 0 where
  pub call : String → CallEnv
  pub close_error : String → Option LogError
  pub left : String → List Record → LogFile

-- the loop of Manager.Close: every queue is closed, and the first error is returned
unfoldable pub close_all : CloseEnv → Queues → Files → Option LogError → Option LogError × Files
unfolding close_queue
close_all env [] files first = (first, files)
close_all env ((name, q) ∷ queues) files first =
    let (e, q') = close_queue (env.call name) (env.close_error name) q in
    close_all env queues (put name (env.left name q'.log) files)
      (elim first as (λ _. Option LogError) [ none ↦ e | some f ↦ some f ])

-- Manager.Close
unfoldable pub close_manager : CloseEnv → Manager → Option LogError × Manager
unfolding close_all
close_manager env m =
    let (e, files) = close_all env m.queues m.files none in
    (e, record m { files = files; queues = [] })

-- What NewManager takes from outside: the errors of EnsureDir, CleanTemps and ListLogs, how Remove
-- ends for an incomplete log, and how the queues close where it gives up.
pub record StartEnv : Type 0 where
  pub now : Time
  pub ensure_error : Option LogError
  pub clean_error : Option LogError
  pub list_error : Option LogError
  pub remove_end : String → RemoveEnd
  pub closing : CloseEnv

pub data StartError : Type 0 where
  prepare_failed clean_failed list_failed remove_failed : LogError → StartError
  queue_failed : ManagerError → StartError

abbrev pub replayed : Result ReplayError Queue → Result ManagerError Queue
replayed (ok q) = ok q
replayed (err e) = err (replay_failed e)

-- openQueue on a file
unfoldable pub open_file : Time → ℕ → String → LogFile → Result ManagerError Queue
open_file now threshold name (whole records) = replayed (open_queue name now threshold records)
open_file now threshold name incomplete = err log_incomplete
open_file now threshold name damaged = err log_damaged

-- the error of Remove, but os.ErrNotExist
abbrev pub remove_failure : RemoveEnd → Option LogError
remove_failure removed = none
remove_failure absent = none
remove_failure (not_removed e) = some e
remove_failure (not_synced e) = some e

-- m.Close() and the error that made NewManager give up
abbrev give_up : StartEnv → StartError → Manager → Option StartError × Manager
give_up env e m = (some e, (close_manager env.closing m).1)

abbrev pub with_queue : Manager → String → Queue → Manager
with_queue m name q = record m { queues = put name q m.queues }

-- what the loop does with one name: its error, and the registry
abbrev pub start_one :
    StartEnv → String → Result ManagerError Queue → Manager → Option StartError × Manager
start_one env name (ok q) m = (none, with_queue m name q)
start_one env name (err log_incomplete) m = elim (remove_failure (env.remove_end name)) [
  | none ↦ (none, record m { files = (remove_log (env.remove_end name) name m.files).1 })
  | some e ↦ (
    some (remove_failed e),
    record m { files = (remove_log (env.remove_end name) name m.files).1 },
  )
]
start_one env name (err e) m = give_up env (queue_failed e) m

-- the loop of NewManager over the names of ListLogs
unfoldable pub start_all : StartEnv → Files → Manager → Option StartError × Manager
unfolding open_file
start_all env [] m = (none, m)
start_all env ((name, file) ∷ files) m =
    let skipped = start_all env files m in
    let step = start_one env name (open_file env.now m.compact_threshold name file) m in
    let rest = start_all env files step.1 in
    if name_ok name
    then elim step.0 as (λ _. Option StartError × Manager) [
      | none ↦ rest
      | some e ↦ (some e, step.1)
    ]
    else skipped

abbrev pub new_registry : ℕ → Files → Manager
new_registry threshold files = record { files = files; compact_threshold = threshold; queues = [] }

-- NewManager: its error, and the registry that it returns where there is none
unfoldable pub new_manager : StartEnv → ℕ → Files → Option StartError × Manager
unfolding start_all
new_manager env threshold files = elim env.ensure_error as (λ _. Option StartError × Manager) [
  | some e ↦ (some (prepare_failed e), new_registry threshold files)
  | none ↦ elim env.clean_error as (λ _. Option StartError × Manager) [
    | some e ↦ (some (clean_failed e), new_registry threshold files)
    | none ↦ elim env.list_error as (λ _. Option StartError × Manager) [
      | some e ↦ (some (list_failed e), new_registry threshold files)
      | none ↦ start_all env files (new_registry threshold files)
    ]
  ]
]
