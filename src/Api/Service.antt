-- ===== src/Api/Service.antt =====
-- What every request to internal/api keeps of the registry, whatever it answers.
use queuemaxxing.Base.{
  ◌≡◌, refl, ◌∙◌, String, Bool-cases, inl, inr, Option, none, some, Result, ok, err,
}
use queuemaxxing.Queue.Message.{Ordering, parse_ordering}
use queuemaxxing.Queue.Engine.State.{CallEnv, Queue}
use queuemaxxing.Queue.Engine.Operations.{stats}
use queuemaxxing.Queue.Places.{IsValid}
use queuemaxxing.Queue.Places.Calls.{IsFresh}
use queuemaxxing.Queue.Manager.{Manager, ManagerError, name_ok, CreateEnv, create, get}
use queuemaxxing.Queue.Manager.Names.{get-found}
use queuemaxxing.Queue.Manager.Registry.{
  IsRegistry, put-IsRegistry, create-IsRegistry, delete_queue-IsRegistry,
}
use queuemaxxing.Queue.Manager.Startup.{with_queue}
use queuemaxxing.Api.Handlers.{
  view_of, queue_view, stats_view, of_manager, invalid_ordering, Reply, answer, write_error,
  write_engine_error, Decoded, decode_body, Handled, CreateRequest, reply_created, create_decoded,
  handle_create, handle_list, handle_get, handle_stats, handle_delete,
}
use queuemaxxing.Api.Messages.{
  send, receive, ack_request, nack_request, on_queue, at_once, handle_send, handle_receive,
  handle_ack, handle_nack,
}
use queuemaxxing.Api.Router.{
  Request, post_queues, get_queues, get_health, get_queue, remove_queue, get_stats, post_messages,
  post_receive, post_ack, post_nack, ServerEnv, serve,
}
use queuemaxxing.Api.Stays.{Stays, send-Stays, ack_request-Stays, nack_request-Stays, receive-Stays}

-- The token that a request draws is a receipt in use in no queue.
abbrev pub IsFreshFor : CallEnv → Manager → Type 0
IsFreshFor env m = (name : String) (q : Queue) → get name m ≡ ok q → IsFresh env q

module _ (m : Manager) (v : IsRegistry m) where
  pub with_queue-IsRegistry :
      (name : String) (q q' : Queue)
      → get name m ≡ ok q
      → Stays q q'
      → IsRegistry (with_queue m name q')
  with_queue-IsRegistry name q q' got s =
      let listed = v name q (get-found name m q got) in
      put-IsRegistry m.queues name q'
        (record {
          named = s.name ∙ listed.named;
          valid_name = listed.valid_name;
          open_ = s.closed ∙ listed.open_;
          valid = s.valid;
        })
        v

  on_queue-IsRegistry :
      {A : Type 0} (env : CallEnv) (name : String) (zero_value : A) (body : Decoded A)
      (then_do : A → Queue → Option Reply × Queue)
      → IsFreshFor env m
      → ((a : A) (q : Queue) → IsValid q → IsFresh env q → Stays q (then_do a q).1)
      → IsRegistry (on_queue name zero_value body then_do m).1
  on_queue-IsRegistry {A = A} env name zero_value body then_do fresh f = looked_up (get name m) refl
    where
      decoded :
          (q : Queue)
          → get name m ≡ ok q
          → (r : Result Reply A)
          → IsRegistry
              (elim r as (λ _. Option Reply × Manager) [
                | err reply ↦ (some reply, m)
                | ok req ↦ ((then_do req q).0, with_queue m name (then_do req q).1)
              ]).1
      decoded q got (err reply) = v
      decoded q got (ok req) =
          with_queue-IsRegistry name q (then_do req q).1 got
            (f req q (v name q (get-found name m q got)).valid (fresh name q got))

      looked_up :
          (r : Result ManagerError Queue)
          → get name m ≡ r
          → IsRegistry
              (elim r as (λ _. Option Reply × Manager) [
                | err e ↦ (some (write_engine_error (of_manager e)), m)
                | ok q ↦ elim (decode_body zero_value body) as (λ _. Option Reply × Manager) [
                  | err reply ↦ (some reply, m)
                  | ok req ↦ ((then_do req q).0, with_queue m name (then_do req q).1)
                ]
              ]).1
      looked_up (err e) got = v
      looked_up (ok q) got = decoded q got (decode_body zero_value body)

  create_ordered-IsRegistry :
      (env : CreateEnv) (name : String) (o : Option Ordering)
      → IsRegistry
          (elim o as (λ _. Handled) [
            | none ↦ (write_error 400 invalid_ordering, m)
            | some ordering ↦
                (reply_created (create env name ordering m).0, (create env name ordering m).1)
          ]).1
  create_ordered-IsRegistry env name none = v
  create_ordered-IsRegistry env name (some ordering) = create-IsRegistry m v env name ordering

  create_decoded-IsRegistry :
      (env : CreateEnv) (r : Result Reply CreateRequest) → IsRegistry (create_decoded env m r).1
  create_decoded-IsRegistry env (err reply) = v
  create_decoded-IsRegistry env (ok req) = elim (Bool-cases (name_ok req.name)) [
    | inl e ↦ rw e (create_ordered-IsRegistry env req.name (parse_ordering req.ordering))
    | inr e ↦ rw e v
  ]

  reads-IsRegistry :
      (go : Queue → Reply) (r : Result ManagerError Queue)
      → IsRegistry
          (elim r as (λ _. Handled) [
            | err e ↦ (write_engine_error (of_manager e), m)
            | ok q ↦ (go q, m)
          ]).1
  reads-IsRegistry go (err e) = v
  reads-IsRegistry go (ok q) = v

  -- Whatever the request, whatever it holds, and whatever fails while it is served: a registry whose
  -- queues are all in order and under their names stays one.
  pub serve-IsRegistry :
      (env : ServerEnv) (r : Request) → IsFreshFor env.call m → IsRegistry (serve env r m).1
  unfolding serve handle_create handle_list handle_get handle_stats handle_send handle_receive
      handle_ack handle_nack handle_delete
  serve-IsRegistry env (post_queues body) fresh =
      create_decoded-IsRegistry env.create (decode_body (record { name = ""; ordering = "" }) body)
  serve-IsRegistry env get_queues fresh = v
  serve-IsRegistry env get_health fresh = v
  serve-IsRegistry env (get_queue name) fresh =
      reads-IsRegistry (λ q. answer 200 (queue_view (view_of q))) (get name m)
  serve-IsRegistry env (remove_queue name) fresh = delete_queue-IsRegistry m v env.delete name
  serve-IsRegistry env (get_stats name) fresh =
      reads-IsRegistry (λ q. answer 200 (stats_view (stats q))) (get name m)
  serve-IsRegistry env (post_messages name body) fresh =
      on_queue-IsRegistry env.call name _ body (at_once (send env.call)) fresh
        (λ req q u f. send-Stays env.call q u f req)
  serve-IsRegistry env (post_receive name ctx body) fresh =
      on_queue-IsRegistry env.call name _ body (receive env.call ctx) fresh
        (λ req q u f. receive-Stays env.call q u f ctx req)
  serve-IsRegistry env (post_ack name body) fresh =
      on_queue-IsRegistry env.call name _ body (at_once (ack_request env.call)) fresh
        (λ req q u f. ack_request-Stays env.call q u f req)
  serve-IsRegistry env (post_nack name body) fresh =
      on_queue-IsRegistry env.call name _ body (at_once (nack_request env.call)) fresh
        (λ req q u f. nack_request-Stays env.call q u f req)
