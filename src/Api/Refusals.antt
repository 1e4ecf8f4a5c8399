-- ===== src/Api/Refusals.antt =====
-- Requests that internal/api answers with an error status.
use queuemaxxing.Base.{
  ◌≤◌, ◌≡◌, refl, String, false, Bool-cases, inl, inr, Option, none, some, Result, ok, err, arith,
  put-found,
}
use queuemaxxing.Queue.Message.{Ordering, parse_ordering}
use queuemaxxing.Queue.Engine.State.{Queue}
use queuemaxxing.Queue.Engine.Operations.{stats}
use queuemaxxing.Queue.Manager.{Manager, ManagerError, name_ok, CreateEnv, create, get}
use queuemaxxing.Queue.Manager.Startup.{with_queue}
use queuemaxxing.Queue.Manager.Names.{get-found, create-error}
use queuemaxxing.Api.Handlers.{
  view_of, queue_view, stats_view, of_manager, invalid_ordering, Reply, answer, write_error,
  write_engine_error, Decoded, decode_body, Handled, CreateRequest, reply_created, create_decoded,
  handle_create, handle_list, handle_get, handle_stats,
}
use queuemaxxing.Api.Messages.{
  on_queue, at_once, send, ack_request, nack_request, handle_send, receive, handle_receive,
  handle_ack, handle_nack,
}
use queuemaxxing.Api.Router.{
  Request, post_queues, get_queues, get_health, get_queue, remove_queue, get_stats, post_messages,
  post_receive, post_ack, post_nack, ServerEnv, answered, serve, is_delete,
}
use queuemaxxing.Api.Answers.{
  status_of, Kept, QueueKept, send-QueueKept, ack_request-QueueKept, nack_request-QueueKept,
  receive-QueueKept,
}

module _ (m : Manager) where
  -- a queue that a handler leaves alone is written back as it was
  with_queue-Kept :
      (name : String) (q : Queue) (x : Option Reply × Queue)
      → get name m ≡ ok q
      → QueueKept q x
      → Kept m (x.0, with_queue m name x.1)
  with_queue-Kept name q x got f h = rw (f h) (put-found name q m.queues (get-found name m q got))

  on_queue-Kept :
      {A : Type 0} (name : String) (zero_value : A) (body : Decoded A)
      (then_do : A → Queue → Option Reply × Queue)
      → ((a : A) (q : Queue) → QueueKept q (then_do a q))
      → Kept m (on_queue name zero_value body then_do m)
  on_queue-Kept {A = A} name zero_value body then_do f = looked_up (get name m) refl
    where
      behind : Queue → Result Reply A → Option Reply × Manager
      behind q (err reply) = (some reply, m)
      behind q (ok req) = ((then_do req q).0, with_queue m name (then_do req q).1)

      decoded : (q : Queue) (r : Result Reply A) → get name m ≡ ok q → Kept m (behind q r)
      decoded q (err reply) got h = refl
      decoded q (ok req) got h = with_queue-Kept name q (then_do req q) got (f req q) h

      looked_up :
          (r : Result ManagerError Queue)
          → get name m ≡ r
          → Kept m (elim r as (λ _. Option Reply × Manager) [
            | err e ↦ (some (write_engine_error (of_manager e)), m)
            | ok q ↦ elim (decode_body zero_value body) as (λ _. Option Reply × Manager) [
              | err reply ↦ (some reply, m)
              | ok req ↦ ((then_do req q).0, with_queue m name (then_do req q).1)
            ]
          ])
      looked_up (err e) got h = refl
      looked_up (ok q) got h = decoded q (decode_body zero_value body) got h

  created-Kept :
      (r : Result ManagerError Queue) (m' : Manager)
      → ((e : ManagerError) → r ≡ err e → m'.queues ≡ m.queues)
      → Kept m (some (reply_created r), m')
  created-Kept (ok q) m' f h = absurd (omega arith)
  created-Kept (err e) m' f h = f e refl

  create_ordered-Kept :
      (env : CreateEnv) (name : String) (o : Option Ordering)
      → Kept m (
          answered (elim o as (λ _. Handled) [
            | none ↦ (write_error 400 invalid_ordering, m)
            | some ordering ↦
                (reply_created (create env name ordering m).0, (create env name ordering m).1)
          ]))
  create_ordered-Kept env name none h = refl
  create_ordered-Kept env name (some ordering) h =
      created-Kept (create env name ordering m).0 (create env name ordering m).1
        (create-error env name ordering m) h

  create_decoded-Kept :
      (env : CreateEnv) (r : Result Reply CreateRequest)
      → Kept m (answered (create_decoded env m r))
  create_decoded-Kept env (err reply) = λ h. refl
  create_decoded-Kept env (ok req) = elim (Bool-cases (name_ok req.name)) [
    | inl e ↦ rw e (create_ordered-Kept env req.name (parse_ordering req.ordering))
    | inr e ↦ rw e (λ h. refl)
  ]

  reads-Kept :
      (name : String) (go : Queue → Reply)
      → Kept m (
          answered (elim (get name m) as (λ _. Handled) [
            | err e ↦ (write_engine_error (of_manager e), m)
            | ok q ↦ (go q, m)
          ]))
  reads-Kept name go = read (get name m)
    where
      read :
          (r : Result ManagerError Queue)
          → Kept m (
              answered (elim r as (λ _. Handled) [
                | err e ↦ (write_engine_error (of_manager e), m)
                | ok q ↦ (go q, m)
              ]))
      read (err e) h = refl
      read (ok q) h = refl

  -- Whatever the request but a DELETE, whatever it holds, and whatever fails while it is served: where
  -- its answer, that of a Receive at the end of its first round, has an error status, every queue is
  -- in memory as it was: its messages, heaps, receipts, counters, and the records that its log has
  -- accepted. The file of a log whose Append has failed is not part of the queue's memory.
  pub error_answers_change_nothing :
      (env : ServerEnv) (r : Request)
      → is_delete r ≡ false
      → 400 ≤ status_of (serve env r m).0
      → (serve env r m).1.queues ≡ m.queues
  unfolding serve handle_create handle_list handle_get handle_stats handle_send handle_receive
      handle_ack handle_nack
  error_answers_change_nothing env (post_queues body) d h =
      create_decoded-Kept env.create (decode_body (record { name = ""; ordering = "" }) body) h
  error_answers_change_nothing env get_queues d h = absurd (omega arith)
  error_answers_change_nothing env get_health d h = absurd (omega arith)
  error_answers_change_nothing env (get_queue name) d h =
      reads-Kept name (λ q. answer 200 (queue_view (view_of q))) h
  error_answers_change_nothing env (remove_queue name) d h = cc
  error_answers_change_nothing env (get_stats name) d h =
      reads-Kept name (λ q. answer 200 (stats_view (stats q))) h
  error_answers_change_nothing env (post_messages name body) d h =
      on_queue-Kept name _ body (at_once (send env.call)) (λ req q. send-QueueKept env.call q req) h
  error_answers_change_nothing env (post_receive name ctx body) d h =
      on_queue-Kept name _ body (receive env.call ctx)
        (λ req q. receive-QueueKept env.call q ctx req) h
  error_answers_change_nothing env (post_ack name body) d h =
      on_queue-Kept name _ body (at_once (ack_request env.call))
        (λ req q. ack_request-QueueKept env.call q req) h
  error_answers_change_nothing env (post_nack name body) d h =
      on_queue-Kept name _ body (at_once (nack_request env.call))
        (λ req q. nack_request-QueueKept env.call q req) h
