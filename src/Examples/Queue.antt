-- ===== src/Examples/Queue.antt =====
-- The theorems on internal/queue at a queue of one message.
use queuemaxxing.Base.{ℕ, ◌≡◌, refl, Option, none, some, List, [], ◌∷◌, pos, ok, err}
use queuemaxxing.Storage.Record.{header}
use queuemaxxing.Storage.Log.{LogError, closed}
use queuemaxxing.Queue.Message.{fifo}
use queuemaxxing.Queue.Engine.State.{
  receipt_not_found, log_failed, CallEnv, Queue, lookup, pop_expiry_heap,
}
use queuemaxxing.Queue.Engine.Operations.{ack_message, nack_message}
use queuemaxxing.Queue.Engine.Scheduler.{expire}
use queuemaxxing.Queue.Engine.Receipts.{ack_once, ack_after_nack, late_ack}
use queuemaxxing.Queue.Engine.Calls.{ack_call, perform}
use queuemaxxing.Queue.Replay.{Config, message_of, new_queue}
use queuemaxxing.Examples.Samples.{sample_header, sample_enqueue}

abbrev sample_config : Config
sample_config = record { name = "jobs"; ordering = fifo; created_at = pos 0 }

-- a clock at one second, the token "t", and the answer of the log
abbrev pub sample_env : Option LogError → CallEnv
sample_env failure = record {
  now = pos 1000000000;
  token = some "t";
  append_error = failure;
  compact_error = none;
}

-- a new queue whose log holds its header
abbrev pub empty_queue : Queue
empty_queue = new_queue sample_config (header sample_header ∷ []) 1 0 0 0

abbrev one_ready : Queue
one_ready = record (new_queue sample_config [] 2 1 0 0) {
  store = λ _. message_of (sample_enqueue (9 ∷ []));
  next_address = 1;
  ready = 0 ∷ [];
}

abbrev one_in_flight : Queue
one_in_flight = record (new_queue sample_config [] 2 1 0 0) {
  store = λ _. record (message_of (sample_enqueue (9 ∷ []))) { receipt = "t" };
  next_address = 1;
  expiry = 0 ∷ [];
  inflight = ("t", 0) ∷ [];
}

acked_first : (ack_message (sample_env none) "t" one_in_flight).0 ≡ ok tt
unfolding ack_message lookup
acked_first = refl

ack_once_example :
    ack_message (sample_env none) "t" (ack_message (sample_env none) "t" one_in_flight).1
    ≡ (err receipt_not_found, (ack_message (sample_env none) "t" one_in_flight).1)
ack_once_example = ack_once (sample_env none) (sample_env none) "t" one_in_flight acked_first

nacked_first : (nack_message (sample_env none) "t" (pos 5) one_in_flight).0 ≡ ok tt
unfolding nack_message lookup
nacked_first = refl

ack_after_nack_example :
    ack_message (sample_env none) "t" (nack_message (sample_env none) "t" (pos 5) one_in_flight).1
    ≡ (err receipt_not_found, (nack_message (sample_env none) "t" (pos 5) one_in_flight).1)
ack_after_nack_example =
    ack_after_nack (sample_env none) (sample_env none) "t" (pos 5) one_in_flight nacked_first

late_ack_example :
    ack_message
      (sample_env none)
      ((pop_expiry_heap one_in_flight).1.store 0).receipt
      (expire one_in_flight 0)
    ≡ (err receipt_not_found, expire one_in_flight 0)
late_ack_example = late_ack (sample_env none) one_in_flight 0 refl

refused_ack :
    (perform (sample_env (some closed)) (ack_call "t") one_in_flight).0 ≡ some (log_failed closed)
unfolding perform ack_message lookup
refused_ack = refl

abbrev jobs : List ℕ
jobs = b'j' ∷ b'o' ∷ b'b' ∷ b's' ∷ []
