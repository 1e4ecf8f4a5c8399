-- ===== src/Examples/Server.antt =====
-- The theorems on the process of cmd/server/main.go, at a run that serves one request and ends.
use queuemaxxing.Base.{◌≡◌, refl, none, pos}
use queuemaxxing.Storage.Recovery.Replay.{apply_all}
use queuemaxxing.Queue.Message.{parse_ordering}
use queuemaxxing.Queue.Manager.{remove_log, Manager}
use queuemaxxing.Queue.Manager.Startup.{open_file, start_all, new_manager}
use queuemaxxing.Queue.Manager.Registry.{IsRegistry}
use queuemaxxing.Queue.Replay.{rebuild, open_queue, replay_record}
use queuemaxxing.Queue.Name.{validate_name}
use queuemaxxing.Api.Router.{Request, post_queues, ServerEnv}
use queuemaxxing.Api.Handlers.{value}
use queuemaxxing.Server.Process.{
  Process, boot, handle_request, shut_down, serving, drained, exited, finished, recovers,
  answers_one, stops, drains, closes, exits, Reach, booted, later,
}
use queuemaxxing.Server.Safety.{process_stays_valid}
use queuemaxxing.Examples.Sorting.{insertion_sort}
use queuemaxxing.Examples.Queue.{sample_env}
use queuemaxxing.Examples.Manager.{start_env, two_files, create_env, delete_env}

abbrev recovered : Manager
recovered = (new_manager start_env 10 two_files).1

recovery : new_manager start_env 10 two_files ≡ (none, recovered)
unfolding new_manager start_all open_file validate_name remove_log open_queue rebuild apply_all
    replay_record parse_ordering
recovery = refl

-- a POST to /queues, with no token to draw
abbrev server_env : ServerEnv
server_env = record {
  create = create_env;
  delete = delete_env none;
  call = record (sample_env none) { token = none };
  sort_slice = insertion_sort;
}

abbrev listening : Process
listening = record (boot (pos 10) two_files) { stage = serving; registry = recovered }

abbrev mail_request : Request
mail_request = post_queues (value (record { name = "mail"; ordering = "lifo" }))

abbrev after_one : Process
after_one = handle_request server_env mail_request listening

served_run : Reach (pos 10) two_files after_one
unfolding boot
served_run =
    later (later booted (recovers start_env recovered refl refl recovery))
      (answers_one server_env mail_request refl (λ name q got r e. cc))

-- main closes the queues, and a handler that Shutdown has not drained creates one before the end
abbrev closed_down : Process
closed_down = shut_down start_env.closing finished (record after_one { stage = drained })

abbrev after_late_one : Process
after_late_one = handle_request server_env mail_request closed_down

ended_run : Reach (pos 10) two_files (record after_late_one { stage = exited finished })
ended_run =
    later
      (later
        (later (later (later served_run (stops (unfold handle_request in refl))) (drains refl))
          (closes start_env.closing refl))
        (answers_one server_env mail_request (unfold shut_down in refl) (λ name q got r e. cc)))
      (exits finished (unfold handle_request shut_down in refl))

process_stays_valid_example : IsRegistry after_late_one.registry
process_stays_valid_example =
    process_stays_valid (pos 10) two_files (record after_late_one { stage = exited finished })
      ended_run
