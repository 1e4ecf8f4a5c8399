-- ===== src/Api/Wrapping.antt =====
-- What the wrap-around in `seconds` of internal/api/handlers.go makes of a request.
use queuemaxxing.Base.{
  ℕ, ◌-◌, ◌*◌, ◌%◌, ◌^◌, ◌<◌, ◌≤◌, ◌≡◌, refl, ap, ◌∙◌, String, false, Option, none, some, List, [],
  ℤ, pos, negsuc, length, ◌==◌, Result, ok, err, arith,
}
use queuemaxxing.Queue.Engine.State.{QueueError, CallEnv, Queue, negative_delay}
use queuemaxxing.Queue.Engine.Operations.{enqueue_message}
use queuemaxxing.Queue.Manager.{Manager, get}
use queuemaxxing.Queue.Manager.Startup.{with_queue}
use queuemaxxing.Api.Seconds.{second, to_int64, seconds, max_delay}
use queuemaxxing.Api.Handlers.{engine_status, of_queue, engine_failed, Reply, write_error, value}
use queuemaxxing.Api.Messages.{
  on_queue, with_seconds, reply_sent, priority_of, at_once, send, SendRequest, handle_send,
}

-- the int64 is negative where bit 63 of the nanoseconds is set
to_int64-negative :
    (n r : ℕ) → n % 2 ^ 64 ≡ r → 2 ^ 63 ≤ r → r < 2 ^ 64 → to_int64 n ≡ negsuc (2 ^ 64 - r - 1)
unfolding to_int64
to_int64-negative n r e h k = ground arith

wrapped_seconds :
    (v r : ℕ)
    → (v * second) % 2 ^ 64 ≡ r
    → 2 ^ 63 ≤ r
    → r < 2 ^ 64
    → seconds (some (pos v)) 0 max_delay ≡ ok (negsuc (2 ^ 64 - r - 1))
unfolding seconds
wrapped_seconds v r e h k = rw (to_int64-negative (v * second) r e h k, seconds) (ground arith)

on_queue-found :
    {A : Type 0} (name : String) (m : Manager) (q : Queue) (zero_value a : A)
    (then_do : A → Queue → Option Reply × Queue)
    → get name m ≡ ok q
    → on_queue name zero_value (value a) then_do m
      ≡ ((then_do a q).0, with_queue m name (then_do a q).1)
on_queue-found name m q zero_value a then_do got = rw (got, on_queue) refl

with_seconds-ok :
    (v : Option ℤ) (def max : ℕ) (then_do : ℤ → Reply × Queue) (q : Queue) (d : ℤ)
    → seconds v def max ≡ ok d
    → with_seconds v def max then_do q ≡ then_do d
with_seconds-ok v def max then_do q d timed = rw (timed, with_seconds) refl

handle_send-found :
    (env : CallEnv) (name : String) (m : Manager) (q : Queue) (req : SendRequest)
    → get name m ≡ ok q
    → handle_send env name (value req) m
      ≡ (some (send env req q).0, with_queue m name (send env req q).1)
unfolding handle_send
handle_send-found env name m q req got =
    on_queue-found name m q (record { body = []; priority = none; delay_seconds = none }) req
      (at_once (send env)) got

enqueue_message-negative :
    (env : CallEnv) (body : List ℕ) (priority : ℤ) (n : ℕ) (q : Queue)
    → (length body == 0) ≡ false
    → enqueue_message env body priority (negsuc n) q ≡ (err negative_delay, q)
unfolding enqueue_message
enqueue_message-negative env body priority n q full = ground arith

send-negative :
    (env : CallEnv) (req : SendRequest) (n : ℕ) (q : Queue)
    → (length req.body == 0) ≡ false
    → seconds req.delay_seconds 0 max_delay ≡ ok (negsuc n)
    → send env req q ≡ (write_error 500 (engine_failed (of_queue negative_delay)), q)
unfolding send engine_status
send-negative env req n q full timed = rw full (
    with_seconds-ok req.delay_seconds 0 max_delay _ q (negsuc n) timed
    ∙ ap (λ (x : Result QueueError String × Queue). (reply_sent x.0, x.1))
        (enqueue_message-negative env req.body (priority_of req.priority) n q full))

-- A message with a body is sent to a queue that Get finds, with a positive number of seconds of delay
-- whose nanoseconds wrap around to a negative int64: the answer is 500, although the request is at
-- fault, and nothing is sent.
pub wrapped_delay_answers_500 :
    (env : CallEnv) (name : String) (m : Manager) (q : Queue) (req : SendRequest) (v r : ℕ)
    → get name m ≡ ok q
    → (length req.body == 0) ≡ false
    → req.delay_seconds ≡ some (pos v)
    → (v * second) % 2 ^ 64 ≡ r
    → 2 ^ 63 ≤ r
    → r < 2 ^ 64
    → handle_send env name (value req) m
      ≡ (some (write_error 500 (engine_failed (of_queue negative_delay))), with_queue m name q)
wrapped_delay_answers_500 env name m q req v r got full delay wrapped high low =
    let timed : seconds req.delay_seconds 0 max_delay ≡ ok (negsuc (2 ^ 64 - r - 1)) =
      rw delay (wrapped_seconds v r wrapped high low) in
    handle_send-found env name m q req got
    ∙ ap (λ (x : Reply × Queue). (some x.0, with_queue m name x.1))
        (send-negative env req (2 ^ 64 - r - 1) q full timed)
