-- ===== src/Examples/Manager.antt =====
-- The theorems on the registry of internal/queue/manager.go, at a directory of two logs.
use queuemaxxing.Base.{
  ◌≡◌, refl, false, true, none, some, [], ◌∷◌, Perm, pos, ok, err, Option, find,
}
use queuemaxxing.Storage.Record.{header}
use queuemaxxing.Storage.Log.{LogError, os_error}
use queuemaxxing.Storage.Recovery.Replay.{apply_all}
use queuemaxxing.Queue.Clock.{from_millis}
use queuemaxxing.Queue.Name.{validate_name}
use queuemaxxing.Queue.Message.{fifo, parse_ordering}
use queuemaxxing.Queue.Engine.State.{push_ready, push_delayed, set_message}
use queuemaxxing.Queue.Engine.Operations.{close}
use queuemaxxing.Queue.Replay.{
  replay_record, message_of, new_queue, rebuild, revive, revive_all, open_queue,
}
use queuemaxxing.Queue.Manager.{
  whole, incomplete, Files, Manager, queue_not_found, storage_failed, name_ok, CreateEnv, create,
  header_of, config_for, get, DeleteEnv, delete_found, delete_queue, close_queue, removed,
  remove_log,
}
use queuemaxxing.Queue.Manager.Startup.{StartEnv, open_file, start_all, new_manager}
use queuemaxxing.Queue.Manager.Names.{blocked, deleted_name_is_free, failed_delete_blocks}
use queuemaxxing.Queue.Manager.Listing.{list, values, IsSorted, list-IsSorted}
use queuemaxxing.Examples.Sorting.{insertion_sort, insertion_sort-Sorts}
use queuemaxxing.Examples.Queue.{sample_env}
use queuemaxxing.Examples.Places.{two_records, reopened}

abbrev pub start_env : StartEnv
start_env = record {
  now = pos 5;
  ensure_error = none;
  clean_error = none;
  list_error = none;
  remove_end = λ _. removed;
  closing = record { call = λ _. sample_env none; close_error = λ _. none; left = λ _. whole };
}

-- a log, and one whose header never landed
abbrev pub two_files : Files
two_files = ("jobs", whole two_records) ∷ ("half", incomplete) ∷ []

abbrev pub create_env : CreateEnv
create_env = record { now = pos 7; open_error = none; create_error = none; left = none }

abbrev started : Manager
started = (new_manager start_env 0 two_files).1

startup : new_manager start_env 0 two_files ≡ (none, started)
unfolding new_manager start_all open_file validate_name remove_log open_queue rebuild apply_all
    replay_record parse_ordering
startup = refl

abbrev pub one_manager : Manager
one_manager = record {
  files = ("jobs", whole two_records) ∷ [];
  compact_threshold = 0;
  queues = ("jobs", reopened) ∷ [];
}

abbrev pub delete_env : Option LogError → DeleteEnv
delete_env failure = record {
  call = sample_env none;
  close_error = failure;
  left = whole;
  remove_end = removed;
}

jobs_ok : name_ok "jobs" ≡ true
unfolding validate_name
jobs_ok = refl

deleted : (delete_queue (delete_env none) "jobs" one_manager).0 ≡ none
unfolding delete_queue delete_found close_queue remove_log find revive_all revive push_ready
    push_delayed set_message message_of from_millis
deleted = refl

deleted_name_is_free_example :
    (get "jobs" (delete_queue (delete_env none) "jobs" one_manager).1 ≡ err queue_not_found)
    × ((create create_env "jobs" fifo (delete_queue (delete_env none) "jobs" one_manager).1).0
        ≡ ok (
            new_queue
              (config_for create_env "jobs" fifo)
              (header (header_of (config_for create_env "jobs" fifo)) ∷ [])
              1
              0
              0
              (delete_queue (delete_env none) "jobs" one_manager).1.compact_threshold))
deleted_name_is_free_example =
    deleted_name_is_free (delete_env none) "jobs" one_manager create_env fifo jobs_ok deleted refl
      refl

jobs_found : find "jobs" one_manager.queues ≡ some reopened
unfolding find
jobs_found = refl

jobs_open : reopened.closed ≡ false
unfolding revive_all revive push_ready push_delayed set_message message_of from_millis
jobs_open = refl

abbrev half_deleted : Manager
half_deleted = (delete_queue (delete_env (some os_error)) "jobs" one_manager).1

failed_delete_blocks_example :
    ((delete_queue (delete_env (some os_error)) "jobs" one_manager).0
      ≡ some (storage_failed os_error))
    × (get "jobs" half_deleted ≡ err queue_not_found)
    × (delete_queue (delete_env none) "jobs" half_deleted ≡ (some queue_not_found, half_deleted))
    × (create create_env "jobs" fifo half_deleted
        ≡ (err (blocked create_env.open_error), half_deleted))
    × (find "jobs" half_deleted.files ≡ some (whole (close (sample_env none) reopened).log))
failed_delete_blocks_example =
    failed_delete_blocks (delete_env (some os_error)) "jobs" one_manager create_env
      (delete_env none) fifo reopened os_error jobs_ok jobs_found jobs_open refl

-- a registry whose first queue is not the first by name
abbrev two_queues : Manager
two_queues = record one_manager {
  queues = ("mail", record reopened { name = "mail" }) ∷ one_manager.queues;
}

list-IsSorted_example :
    IsSorted (list insertion_sort two_queues)
    × Perm (list insertion_sort two_queues) (values two_queues.queues)
list-IsSorted_example = list-IsSorted insertion_sort two_queues insertion_sort-Sorts
