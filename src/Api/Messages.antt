-- ===== src/Api/Messages.antt =====
-- internal/api/handlers.go: the handlers of messages. Each looks its queue up, decodes the body,
-- checks it, and makes one call on the queue.
use text.Mathlib.Text.{◌==◌ as str_eq}
use queuemaxxing.Base.{
  ℕ, String, Bool, Option, none, some, List, [], ℤ, pos, length, ◌==◌, Result, ok, err,
  if◌then◌else◌, ◌+ℤ◌, ltb_ℤ,
}
use queuemaxxing.Queue.Clock.{Time, zero_time}
use queuemaxxing.Queue.Engine.State.{QueueError, CallEnv, Queue}
use queuemaxxing.Queue.Engine.Operations.{
  enqueue_message, ack_message, nack_message, Round, returned, waits, receive_round,
}
use queuemaxxing.Queue.Manager.{Manager, get}
use queuemaxxing.Queue.Manager.Startup.{with_queue}
use queuemaxxing.Api.Seconds.{
  seconds, SecondsError, default_visibility, max_visibility, max_wait, max_delay,
}
use queuemaxxing.Api.Handlers.{
  of_manager, of_queue, body_required, receipt_required, bad_seconds, Payload, empty, acked, nacked,
  message_id, delivery_view, Reply, answer, no_answer, write_error, write_engine_error, Decoded,
  decode_body, delivery_view_of,
}

-- the pattern of all four: the queue's lookup, the body, and then the handler's own part, which may
-- be left waiting without an answer
abbrev pub on_queue :
    {A : Type 0}
    → String
    → A
    → Decoded A
    → (A → Queue → Option Reply × Queue)
    → Manager
    → Option Reply × Manager
on_queue name zero_value body then_do m = elim (get name m) as (λ _. Option Reply × Manager) [
  | err e ↦ (some (write_engine_error (of_manager e)), m)
  | ok q ↦ elim (decode_body zero_value body) as (λ _. Option Reply × Manager) [
    | err reply ↦ (some reply, m)
    | ok req ↦ ((then_do req q).0, with_queue m name (then_do req q).1)
  ]
]

-- a part that always answers
abbrev pub at_once : {A : Type 0} → (A → Queue → Reply × Queue) → A → Queue → Option Reply × Queue
at_once then_do req q = (some (then_do req q).0, (then_do req q).1)

-- a duration, or the answer to a bad one
abbrev pub with_seconds : Option ℤ → ℕ → ℕ → (ℤ → Reply × Queue) → Queue → Reply × Queue
with_seconds v def max then_do q = elim (seconds v def max) as (λ _. Reply × Queue) [
  | err e ↦ (write_error 400 (bad_seconds e), q)
  | ok d ↦ then_do d
]

pub record SendRequest : Type 0 where
  pub body : List ℕ
  pub priority : Option ℤ
  pub delay_seconds : Option ℤ

abbrev pub reply_sent : Result QueueError String → Reply
reply_sent (ok id) = answer 201 (message_id id)
reply_sent (err e) = write_engine_error (of_queue e)

abbrev pub priority_of : Option ℤ → ℤ
priority_of none = pos 0
priority_of (some p) = p

unfoldable pub send : CallEnv → SendRequest → Queue → Reply × Queue
send env req q =
    if length req.body == 0
    then (write_error 400 body_required, q)
    else with_seconds req.delay_seconds 0 max_delay
        (λ delay. (
          reply_sent (enqueue_message env req.body (priority_of req.priority) delay q).0,
          (enqueue_message env req.body (priority_of req.priority) delay q).1,
        ))
        q

-- sendMessage
unfoldable pub handle_send :
    CallEnv → String → Decoded SendRequest → Manager → Option Reply × Manager
handle_send env name body m =
    on_queue name (record { body = []; priority = none; delay_seconds = none }) body
      (at_once (send env)) m

pub record ReceiveRequest : Type 0 where
  pub visibility_timeout_seconds : Option ℤ
  pub wait_seconds : Option ℤ

-- what `r.Context().Err() != nil` says at its test in Receive, and afterwards in the handler
pub record Context : Type 0 where
  pub done : Bool
  pub gone : Bool

-- one round of Receive: an answer, or none while Receive waits
abbrev pub reply_round : Bool → Round → Option Reply
reply_round gone waits = none
reply_round gone (returned (ok (some d))) = some (answer 200 (delivery_view (delivery_view_of d)))
reply_round gone (returned (ok none)) = some (answer 204 empty)
reply_round gone (returned (err e)) =
    some (if gone then no_answer else write_engine_error (of_queue e))

abbrev pub deadline_of : CallEnv → ℤ → Time
deadline_of env wait = if ltb_ℤ (pos 0) wait then env.now +ℤ wait else zero_time

-- the call of Receive up to the end of its first round
abbrev pub first_round : CallEnv → Context → ℤ → ℤ → Queue → Option Reply × Queue
first_round env ctx visibility wait q = (
  reply_round ctx.gone (receive_round env visibility wait (deadline_of env wait) ctx.done q).0,
  (receive_round env visibility wait (deadline_of env wait) ctx.done q).1,
)

abbrev pub refused_seconds : SecondsError → Queue → Option Reply × Queue
refused_seconds e q = (some (write_error 400 (bad_seconds e)), q)

unfoldable pub receive : CallEnv → Context → ReceiveRequest → Queue → Option Reply × Queue
receive env ctx req q =
    elim (seconds req.visibility_timeout_seconds default_visibility max_visibility)
      as (λ _. Option Reply × Queue) [
        | err e ↦ refused_seconds e q
        | ok visibility ↦
            elim (seconds req.wait_seconds 0 max_wait) as (λ _. Option Reply × Queue) [
              | err e ↦ refused_seconds e q
              | ok wait ↦ first_round env ctx visibility wait q
            ]
      ]

-- receive, up to the end of the first round of Receive
unfoldable pub handle_receive :
    CallEnv → Context → String → Decoded ReceiveRequest → Manager → Option Reply × Manager
handle_receive env ctx name body m =
    on_queue name (record { visibility_timeout_seconds = none; wait_seconds = none }) body
      (receive env ctx) m

abbrev pub reply_done : Payload → Result QueueError (Unit {0}) → Reply
reply_done done (ok _) = answer 200 done
reply_done done (err e) = write_engine_error (of_queue e)

unfoldable pub ack_request : CallEnv → String → Queue → Reply × Queue
ack_request env receipt q =
    if str_eq receipt ""
    then (write_error 400 receipt_required, q)
    else (reply_done acked (ack_message env receipt q).0, (ack_message env receipt q).1)

-- ack
unfoldable pub handle_ack : CallEnv → String → Decoded String → Manager → Option Reply × Manager
handle_ack env name body m = on_queue name "" body (at_once (ack_request env)) m

pub record NackRequest : Type 0 where
  pub receipt : String
  pub delay_seconds : Option ℤ

unfoldable pub nack_request : CallEnv → NackRequest → Queue → Reply × Queue
nack_request env req q =
    if str_eq req.receipt ""
    then (write_error 400 receipt_required, q)
    else with_seconds req.delay_seconds 0 max_delay
        (λ delay. (
          reply_done nacked (nack_message env req.receipt delay q).0,
          (nack_message env req.receipt delay q).1,
        ))
        q

-- nack
unfoldable pub handle_nack :
    CallEnv → String → Decoded NackRequest → Manager → Option Reply × Manager
handle_nack env name body m =
    on_queue name (record { receipt = ""; delay_seconds = none }) body (at_once (nack_request env))
      m
