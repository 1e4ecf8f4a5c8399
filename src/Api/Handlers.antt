-- ===== src/Api/Handlers.antt =====
-- internal/api/handlers.go: the handlers, each a function of the registry and of what the request
-- holds. net/http and encoding/json stay outside: what decodeBody's Decode finds is an argument, and
-- an answer is its status and what is written as JSON.
use queuemaxxing.Base.{
  ℕ, String, not, Option, none, some, List, map, ℤ, Result, ok, err, if◌then◌else◌,
}
use queuemaxxing.Storage.Log.{log_broken}
use queuemaxxing.Queue.Clock.{Time}
use queuemaxxing.Queue.Message.{ordering_text, parse_ordering, Delivery}
use queuemaxxing.Queue.Engine.State.{
  QueueError, empty_body, queue_deleted, receipt_not_found, log_failed, Queue,
}
use queuemaxxing.Queue.Engine.Operations.{Stats, stats}
use queuemaxxing.Queue.Replay.{config_of}
use queuemaxxing.Queue.Manager.{
  Manager, ManagerError, queue_exists, queue_not_found, storage_failed, name_ok, CreateEnv, create,
  get, DeleteEnv, delete_queue,
}
use queuemaxxing.Queue.Manager.Listing.{SortSlice, list}
use queuemaxxing.Api.Seconds.{SecondsError}

-- an error of the engine, of whichever part
pub data EngineError : Type 0 where
  of_manager : ManagerError → EngineError
  of_queue : QueueError → EngineError

-- what an error answer is about
pub data Failure : Type 0 where
  engine_failed : EngineError → Failure
  too_large invalid_json invalid_name invalid_ordering body_required receipt_required : Failure
  bad_seconds : SecondsError → Failure

-- queueView
pub record QueueView : Type 0 where
  pub name : String
  pub ordering : String
  pub created_at : Time
  pub stats : Stats

-- deliveryView
pub record DeliveryView : Type 0 where
  pub message_id : String
  pub body : List ℕ
  pub priority : ℤ
  pub sequence : ℕ
  pub receive_count : ℕ
  pub created_at : Time
  pub available_at : Time
  pub receipt : String
  pub visibility_deadline : Time

-- what is written as JSON
pub data Payload : Type 0 where
  empty acked nacked status_ok : Payload
  error_response : Failure → Payload
  queue_view : QueueView → Payload
  queue_views : List QueueView → Payload
  stats_view : Stats → Payload
  message_id : String → Payload
  delivery_view : DeliveryView → Payload

-- an answer with its status, or none, to a client that is gone
pub data Reply : Type 0 where
  answer : ℕ → Payload → Reply
  no_answer : Reply

-- writeError
abbrev pub write_error : ℕ → Failure → Reply
write_error status f = answer status (error_response f)

-- the status that writeEngineError chooses; errors.Is looks through wrapped errors
unfoldable pub engine_status : EngineError → ℕ
engine_status (of_manager queue_not_found) = 404
engine_status (of_manager queue_exists) = 409
engine_status (of_manager (storage_failed log_broken)) = 503
engine_status (of_manager _) = 500
engine_status (of_queue queue_deleted) = 404
engine_status (of_queue receipt_not_found) = 404
engine_status (of_queue empty_body) = 400
engine_status (of_queue (log_failed log_broken)) = 503
engine_status (of_queue _) = 500

-- writeEngineError
abbrev pub write_engine_error : EngineError → Reply
write_engine_error e = write_error (engine_status e) (engine_failed e)

-- What json.Decoder makes of a body: a value, io.EOF on an absent body, the size limit, or an error.
pub data Decoded (A : Type 0) : Type 0 where
  value : A → Decoded A
  absent_body over_limit malformed : Decoded A

-- decodeBody: the request, which has its zero value on an absent body, or the error answer
abbrev pub decode_body : {A : Type 0} → A → Decoded A → Result Reply A
decode_body zero_value (value a) = ok a
decode_body zero_value absent_body = ok zero_value
decode_body zero_value over_limit = err (write_error 413 too_large)
decode_body zero_value malformed = err (write_error 400 invalid_json)

-- viewOf
abbrev pub view_of : Queue → QueueView
view_of q = record {
  name = (config_of q).name;
  ordering = ordering_text (config_of q).ordering;
  created_at = (config_of q).created_at;
  stats = stats q;
}

abbrev pub delivery_view_of : Delivery → DeliveryView
delivery_view_of d = record {
  message_id = d.id;
  body = d.body;
  priority = d.priority;
  sequence = d.seq;
  receive_count = d.receive_count;
  created_at = d.created_at;
  available_at = d.available_at;
  receipt = d.receipt;
  visibility_deadline = d.deadline;
}

abbrev pub Handled : Type 0
Handled = Reply × Manager

pub record CreateRequest : Type 0 where
  pub name : String
  pub ordering : String

abbrev pub reply_created : Result ManagerError Queue → Reply
reply_created (ok q) = answer 201 (queue_view (view_of q))
reply_created (err e) = write_engine_error (of_manager e)

-- createQueue, once the body is decoded
abbrev pub create_decoded : CreateEnv → Manager → Result Reply CreateRequest → Handled
create_decoded env m (err reply) = (reply, m)
create_decoded env m (ok req) =
    if not (name_ok req.name)
    then (write_error 400 invalid_name, m)
    else elim (parse_ordering req.ordering) as (λ _. Handled) [
      | none ↦ (write_error 400 invalid_ordering, m)
      | some ordering ↦
          (reply_created (create env req.name ordering m).0, (create env req.name ordering m).1)
    ]

-- createQueue
unfoldable pub handle_create : CreateEnv → Decoded CreateRequest → Manager → Handled
handle_create env body m =
    create_decoded env m (decode_body (record { name = ""; ordering = "" }) body)

-- listQueues
unfoldable pub handle_list : SortSlice → Manager → Handled
handle_list sort_slice m = (answer 200 (queue_views (map view_of (list sort_slice m))), m)

-- getQueue
unfoldable pub handle_get : String → Manager → Handled
handle_get name m = elim (get name m) as (λ _. Handled) [
  | err e ↦ (write_engine_error (of_manager e), m)
  | ok q ↦ (answer 200 (queue_view (view_of q)), m)
]

abbrev pub reply_deleted : Option ManagerError → Reply
reply_deleted none = answer 204 empty
reply_deleted (some e) = write_engine_error (of_manager e)

-- deleteQueue
unfoldable pub handle_delete : DeleteEnv → String → Manager → Handled
handle_delete env name m = (reply_deleted (delete_queue env name m).0, (delete_queue env name m).1)

-- stats
unfoldable pub handle_stats : String → Manager → Handled
handle_stats name m = elim (get name m) as (λ _. Handled) [
  | err e ↦ (write_engine_error (of_manager e), m)
  | ok q ↦ (answer 200 (stats_view (stats q)), m)
]
