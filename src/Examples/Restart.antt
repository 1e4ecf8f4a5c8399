-- ===== src/Examples/Restart.antt =====
-- The theorem on restarts, at a new queue that compacts at every call.
use queuemaxxing.Base.{
  ◌+◌, ◌^◌, ◌<◌, refl, none, List, [], ◌∷◌, map, ℕ, ◌==◌, if◌then◌else◌, pos, arith,
}
use queuemaxxing.Storage.Record.{Record, header}
use queuemaxxing.Queue.Message.{fifo}
use queuemaxxing.Queue.Heap.{heap_push}
use queuemaxxing.Queue.Engine.State.{CallEnv, Queue, push_ready, set_message, lookup}
use queuemaxxing.Queue.Engine.Compact.{maybe_compact}
use queuemaxxing.Queue.Engine.Operations.{
  close, enqueue_message, enqueue_appended, enqueue_booked, settle, schedule,
}
use queuemaxxing.Queue.Engine.Calls.{enqueue_call, due_call, perform}
use queuemaxxing.Queue.Replay.{Config, new_queue}
use queuemaxxing.Queue.Manager.{header_of}
use queuemaxxing.Queue.Restart.Compacted.{new_queue-IsBacked}
use queuemaxxing.Queue.Restart.Bodies.{normalised}
use queuemaxxing.Queue.Restart.Runs.{Restarted, Runs, idle, next, shut, restart_finds_all}
use queuemaxxing.Examples.Queue.{sample_env}

abbrev jobs : Config
jobs = record { name = "jobs"; ordering = fifo; created_at = pos 1500000 }

abbrev new_jobs : Queue
new_jobs = new_queue jobs (header (header_of jobs) ∷ []) 1 0 0 1

abbrev sent : Queue
sent = (perform (sample_env none) (enqueue_call (b' ' ∷ b'7' ∷ []) (pos 0) (pos 0)) new_jobs).1

-- the scheduler draws no token
abbrev quiet_env : CallEnv
quiet_env = record (sample_env none) { token = none }

abbrev after_round : Queue
after_round = (perform quiet_env due_call sent).1

sent_run : Runs new_jobs sent
unfolding lookup
sent_run =
    next (sample_env none) (enqueue_call (b' ' ∷ b'7' ∷ []) (pos 0) (pos 0)) idle
      ((λ r e. refl), (λ id e a inside. absurd (omega arith))) (omega arith) refl

sent_room : sent.next_seq + 1 < 2 ^ 64
unfolding perform enqueue_message enqueue_appended enqueue_booked settle schedule maybe_compact
    push_ready set_message heap_push
sent_room = omega arith

closed_run : Runs new_jobs (close (sample_env none) after_round)
closed_run =
    shut (sample_env none)
      (next quiet_env due_call sent_run ((λ r e. cc), (λ id e a inside. cc)) sent_room refl) refl

-- a JSON text of digits and blanks, without the blanks
abbrev compacted : List ℕ → List ℕ
compacted [] = []
compacted (c ∷ cs) = if c == b' ' then compacted cs else c ∷ compacted cs

abbrev handed_over : List Record
handed_over = map (normalised compacted) (close (sample_env none) after_round).log

restart_finds_all_example :
    Restarted compacted (close (sample_env none) after_round) (pos 7) 1 handed_over
restart_finds_all_example =
    restart_finds_all compacted new_jobs (close (sample_env none) after_round) (pos 7) 1 handed_over
      (new_queue-IsBacked jobs 1) closed_run refl
