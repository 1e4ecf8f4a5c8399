-- ===== src/Queue/Manager.antt =====
-- internal/queue/manager.go: the registry of queues, and createQueue of queue.go. Each method holds
-- the registry's lock, so it is one function from state to state.
pub mod Identity
pub mod Startup
pub mod Registry
pub mod Service
pub mod Names
pub mod Listing
use text.Mathlib.Text.{◌==◌ as str_eq}
use Prim.Native.Char.{code}
use queuemaxxing.Base.{
  ℕ, String, Bool, true, false, not, Option, none, some, List, [], ◌∷◌, ltb, Result, ok, err,
  if◌then◌else◌, find, put, drop_key,
}
use queuemaxxing.Storage.Record.{Record, Header, header}
use queuemaxxing.Storage.Log.{LogError, exists, os_error}
use queuemaxxing.Queue.Clock.{Time, to_millis}
use queuemaxxing.Queue.Name.{validate_name}
use queuemaxxing.Queue.Message.{Ordering, ordering_text}
use queuemaxxing.Queue.Engine.State.{CallEnv, Queue}
use queuemaxxing.Queue.Engine.Operations.{close}
use queuemaxxing.Queue.Replay.{Config, ReplayError, new_queue, open_queue}

-- A queue's log in the data directory, by what storage.Open makes of it: its records, or
-- ErrIncompleteLog, or another error. The log of an open queue is that queue's own.
pub data LogFile : Type 0 where
  whole : List Record → LogFile
  incomplete damaged : LogFile

abbrev pub Files : Type 0
Files = List (String × LogFile)

abbrev pub Queues : Type 0
Queues = List (String × Queue)

pub record Manager : Type 0 where
  pub files : Files
  pub compact_threshold : ℕ
  pub queues : Queues

-- ErrInvalidName, ErrQueueExists, ErrQueueNotFound, and the errors that are passed on
pub data ManagerError : Type 0 where
  bad_name queue_exists queue_not_found : ManagerError
  storage_failed : LogError → ManagerError
  replay_failed : ReplayError → ManagerError
  log_incomplete log_damaged : ManagerError

-- the code points of a name
abbrev pub code_points : String → List ℕ
code_points String.[] = []
code_points (String.◌∷◌ c cs) = code c ∷ code_points cs

abbrev pub name_ok : String → Bool
name_ok name = validate_name (code_points name)

-- How storage.Create ends: the error of os.OpenFile, but os.ErrExist; on a free name the error of a
-- later call, and what it then leaves, since the file stays where the os.Remove of discard fails.
pub record CreateEnv : Type 0 where
  pub now : Time
  pub open_error : Option LogError
  pub create_error : Option LogError
  pub left : Option LogFile

abbrev leave : Option LogFile → String → Files → Files
leave none name files = files
leave (some file) name files = put name file files

-- storage.Create
unfoldable pub create_log : CreateEnv → String → Header → Files → Option LogError × Files
create_log env name hdr files = elim env.open_error [
  | some e ↦ (some e, files)
  | none ↦ elim (find name files) [
    | some _ ↦ (some exists, files)
    | none ↦ elim env.create_error [
      | some e ↦ (some e, leave env.left name files)
      | none ↦ (none, put name (whole (header hdr ∷ [])) files)
    ]
  ]
]

abbrev pub header_of : Config → Header
header_of cfg = record {
  name = cfg.name;
  ordering = ordering_text cfg.ordering;
  created_at = to_millis cfg.created_at;
  next_seq = 1;
  total_enqueued = 0;
  total_acked = 0;
}

-- createQueue
unfoldable pub create_queue : CreateEnv → Config → ℕ → Files → Result ManagerError Queue × Files
create_queue env cfg threshold files =
    if not (name_ok cfg.name)
    then (err bad_name, files)
    else elim (create_log env cfg.name (header_of cfg) files).0 [
      | some e ↦ (err (storage_failed e), (create_log env cfg.name (header_of cfg) files).1)
      | none ↦ (
        ok (new_queue cfg (header (header_of cfg) ∷ []) 1 0 0 threshold),
        (create_log env cfg.name (header_of cfg) files).1,
      )
    ]

-- errors.Is(err, storage.ErrExists)
abbrev pub as_exists : ManagerError → ManagerError
as_exists (storage_failed exists) = queue_exists
as_exists e = e

abbrev pub config_for : CreateEnv → String → Ordering → Config
config_for env name ordering = record { name = name; ordering = ordering; created_at = env.now }

abbrev pub created :
    Manager → String → Result ManagerError Queue × Files → Result ManagerError Queue × Manager
created m name (err e, files) = (err (as_exists e), record m { files = files })
created m name (ok q, files) = (ok q, record m { files = files; queues = put name q m.queues })

-- Manager.Create
unfoldable pub create :
    CreateEnv → String → Ordering → Manager → Result ManagerError Queue × Manager
create env name ordering m =
    if not (name_ok name) then (err bad_name, m) else elim (find name m.queues) [
      | some _ ↦ (err queue_exists, m)
      | none ↦
          created m name
            (create_queue env (config_for env name ordering) m.compact_threshold m.files)
    ]

-- Manager.Get
unfoldable pub get : String → Manager → Result ManagerError Queue
get name m = elim (find name m.queues) [ none ↦ err queue_not_found | some q ↦ ok q ]

-- Queue.Close with the error of log.Close, which a closed queue does not call
unfoldable pub close_queue : CallEnv → Option LogError → Queue → Option LogError × Queue
close_queue env close_error q = (if q.closed then none else close_error, close env q)

-- How storage.Remove ends: the os.Remove finds no file, or fails otherwise, or only the directory's
-- sync does, or nothing.
pub data RemoveEnd : Type 0 where
  removed absent : RemoveEnd
  not_removed not_synced : LogError → RemoveEnd

-- storage.Remove
unfoldable pub remove_log : RemoveEnd → String → Files → Option LogError × Files
remove_log removed name files = (none, drop_key name files)
remove_log absent name files = (some os_error, drop_key name files)
remove_log (not_removed e) name files = (some e, files)
remove_log (not_synced e) name files = (some e, drop_key name files)

-- What Delete takes from outside. `left` is what storage.Open makes of the file that a queue's log
-- leaves, by the records that the log has accepted: as a rule `whole`, of their bodies as JSON gives
-- them back.
pub record DeleteEnv : Type 0 where
  pub call : CallEnv
  pub close_error : Option LogError
  pub left : List Record → LogFile
  pub remove_end : RemoveEnd

-- Manager.Delete behind `delete(m.queues, name)`
unfoldable pub delete_found : DeleteEnv → String → Queue → Manager → Option ManagerError × Manager
delete_found env name q m =
    let (failure, q') = close_queue env.call env.close_error q in
    let m' = record m {
      queues = drop_key name m.queues;
      files = put name (env.left q'.log) m.files;
    } in
    elim failure [
      | some e ↦ (some (storage_failed e), m')
      | none ↦ elim (remove_log env.remove_end name m'.files).0 [
        | none ↦ (none, record m' { files = (remove_log env.remove_end name m'.files).1 })
        | some e ↦ (
          some (storage_failed e),
          record m' { files = (remove_log env.remove_end name m'.files).1 },
        )
      ]
    ]

-- Manager.Delete
unfoldable pub delete_queue : DeleteEnv → String → Manager → Option ManagerError × Manager
delete_queue env name m = elim (find name m.queues) [
  | none ↦ (some queue_not_found, m)
  | some q ↦ delete_found env name q m
]
