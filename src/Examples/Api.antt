-- ===== src/Examples/Api.antt =====
-- The theorems on internal/api at single durations and requests.
use queuemaxxing.Base.{
  none, [], ◌∷◌, ◌≤◌, find, ◌*◌, ◌≡◌, some, pos, ok, err, ltb, if◌then◌else◌, arith, refl,
}
use queuemaxxing.Api.Seconds.{second, max_delay, seconds, too_long, seconds_exact}
use queuemaxxing.Queue.Clock.{from_millis}
use queuemaxxing.Queue.Engine.State.{negative_delay, lookup, push_ready, push_delayed, set_message}
use queuemaxxing.Queue.Engine.Operations.{ack_message}
use queuemaxxing.Queue.Replay.{message_of, revive, revive_all}
use queuemaxxing.Queue.Manager.{whole, get, removed}
use queuemaxxing.Queue.Manager.Startup.{with_queue}
use queuemaxxing.Api.Handlers.{of_queue, engine_failed, engine_status, write_error, value}
use queuemaxxing.Api.Messages.{SendRequest, handle_send, handle_ack, ack_request}
use queuemaxxing.Api.Router.{Request, post_ack, ServerEnv, serve}
use queuemaxxing.Api.Answers.{status_of}
use queuemaxxing.Api.Refusals.{error_answers_change_nothing}
use queuemaxxing.Api.Wrapping.{wrapped_delay_answers_500}
use queuemaxxing.Examples.Sorting.{insertion_sort}
use queuemaxxing.Examples.Queue.{sample_env}
use queuemaxxing.Examples.Places.{reopened}
use queuemaxxing.Examples.Manager.{one_manager}

seconds_exact_example :
    seconds (some (pos 5)) 0 max_delay
    ≡ (if ltb max_delay (5 * second) then err too_long else ok (pos (5 * second)))
seconds_exact_example = seconds_exact 5 0 max_delay (omega arith)

abbrev server_env : ServerEnv
server_env = record {
  create = record { now = pos 7; open_error = none; create_error = none; left = none };
  delete = record {
    call = sample_env none;
    close_error = none;
    left = whole;
    remove_end = removed;
  };
  call = sample_env none;
  sort_slice = insertion_sort;
}

-- an Ack with a receipt that was never given out
abbrev stray_ack : Request
stray_ack = post_ack "jobs" (value "stray")

refused_ack_status : 400 ≤ status_of (serve server_env stray_ack one_manager).0
unfolding serve handle_ack ack_request ack_message get find lookup engine_status revive_all revive
    push_ready push_delayed set_message message_of from_millis
refused_ack_status = omega arith

error_answers_change_nothing_example :
    (serve server_env stray_ack one_manager).1.queues ≡ one_manager.queues
error_answers_change_nothing_example =
    error_answers_change_nothing one_manager server_env stray_ack refl refused_ack_status

abbrev long_delay : SendRequest
long_delay = record { body = 9 ∷ []; priority = none; delay_seconds = some (pos 9223372037) }

got_jobs : get "jobs" one_manager ≡ ok reopened
unfolding get find
got_jobs = refl

wrapped_delay_answers_500_example :
    handle_send (sample_env none) "jobs" (value long_delay) one_manager ≡ (
      some (write_error 500 (engine_failed (of_queue negative_delay))),
      with_queue one_manager "jobs" reopened,
    )
wrapped_delay_answers_500_example =
    wrapped_delay_answers_500 (sample_env none) "jobs" one_manager reopened long_delay 9223372037
      9223372037000000000 got_jobs refl refl refl (omega arith) (omega arith)
