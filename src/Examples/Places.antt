-- ===== src/Examples/Places.antt =====
-- The theorems on the heaps and on the places of messages, at a reopened queue of one message.
use queuemaxxing.Base.{
  ℕ, ◌<◌, ◌≡◌, refl, false, none, some, List, [], ◌∷◌, length, count, pos, ◌+ℤ◌, ok, arith,
}
use queuemaxxing.Storage.Record.{Record, header, enqueue}
use queuemaxxing.Storage.Recovery.Replay.{apply_all}
use queuemaxxing.Queue.Clock.{from_millis}
use queuemaxxing.Queue.Message.{fifo, parse_ordering, delivery}
use queuemaxxing.Queue.Heap.{Heap, delayed_less, item, heap_push, heap_pop, heap_remove}
use queuemaxxing.Queue.Heap.Order.{InOrder, delayed_less-IsOrder}
use queuemaxxing.Queue.Heap.Contract.{IsHeap, Popped}
use queuemaxxing.Queue.Heap.Pop.{heap_pop-Popped}
use queuemaxxing.Queue.Heap.Remove.{heap_remove-Popped}
use queuemaxxing.Queue.Engine.State.{Queue, lookup, push_ready, push_delayed, set_message}
use queuemaxxing.Queue.Engine.Operations.{taken, returned, receive_round}
use queuemaxxing.Queue.Engine.Scheduler.{process_due}
use queuemaxxing.Queue.Engine.Calls.{receive_call, perform}
use queuemaxxing.Queue.Replay.{
  replay_record, message_of, new_queue, rebuild, revive, revive_all, open_queue,
}
use queuemaxxing.Queue.Places.{IsValid}
use queuemaxxing.Queue.Places.Steps.{nothing, Moved}
use queuemaxxing.Queue.Places.Wakeup.{IsAwake}
use queuemaxxing.Queue.Places.Awake.{process_due-IsAwake}
use queuemaxxing.Queue.Places.Calls.{IsFresh, Performed, perform-Performed}
use queuemaxxing.Queue.Places.First.{GoesFirst, receive_first}
use queuemaxxing.Queue.Places.Reach.{
  open_queue-IsValid, Reaches, here, next, opened_queue_stays_valid,
}
use queuemaxxing.Examples.Samples.{sample_header, sample_enqueue}
use queuemaxxing.Examples.Queue.{sample_env}

-- a heap of one message
abbrev one_item : Heap
one_item = record { store = λ _. message_of (sample_enqueue (9 ∷ [])); items = 0 ∷ [] }

one_item-IsHeap : IsHeap delayed_less one_item
unfolding message_of
one_item-IsHeap = record { ordered = λ c p q. absurd (omega arith); indexed = λ c p. ground arith }

heap_pop-Popped_example :
    ((heap_pop delayed_less one_item).0 ≡ item one_item.items 0)
    × ((c : ℕ) → c < length one_item.items → InOrder delayed_less one_item 0 c)
    × Popped delayed_less one_item
        (heap_pop delayed_less one_item).0
        (heap_pop delayed_less one_item).1
heap_pop-Popped_example =
    heap_pop-Popped delayed_less delayed_less-IsOrder one_item (omega arith) one_item-IsHeap

heap_remove-Popped_example :
    ((heap_remove delayed_less one_item 0).0 ≡ item one_item.items 0)
    × Popped delayed_less one_item (item one_item.items 0) (heap_remove delayed_less one_item 0).1
heap_remove-Popped_example =
    heap_remove-Popped delayed_less delayed_less-IsOrder one_item 0 (omega arith) one_item-IsHeap

abbrev pub two_records : List Record
two_records = header sample_header ∷ enqueue (sample_enqueue (9 ∷ [])) ∷ []

abbrev pub reopened : Queue
reopened =
    revive_all (pos 5)
      (new_queue (record { name = "jobs"; ordering = fifo; created_at = from_millis (pos 0) })
        two_records 2 1 0 0)
      (("a", message_of (sample_enqueue (9 ∷ []))) ∷ [])

opened_queue : open_queue "jobs" (pos 5) 0 two_records ≡ ok reopened
unfolding open_queue rebuild apply_all replay_record parse_ordering
opened_queue = refl

pub reopened-IsValid : IsValid reopened
reopened-IsValid = open_queue-IsValid "jobs" (pos 5) 0 two_records reopened opened_queue

pub reopened-IsFresh : IsFresh (sample_env none) reopened
unfolding revive_all revive push_ready push_delayed set_message lookup message_of from_millis
reopened-IsFresh r e = refl

one_call : Reaches reopened (perform (sample_env none) (receive_call (pos 1000)) reopened).1
one_call = next (sample_env none) (receive_call (pos 1000)) here reopened-IsFresh refl

opened_queue_stays_valid_example :
    IsValid (perform (sample_env none) (receive_call (pos 1000)) reopened).1
opened_queue_stays_valid_example =
    opened_queue_stays_valid "jobs" (pos 5) 0 two_records reopened
      (perform (sample_env none) (receive_call (pos 1000)) reopened).1 opened_queue one_call

perform-Performed_example :
    Performed
      (receive_call (pos 1000))
      reopened
      (perform (sample_env none) (receive_call (pos 1000)) reopened)
perform-Performed_example =
    perform-Performed (sample_env none) (receive_call (pos 1000)) reopened reopened-IsValid
      reopened-IsFresh

pub reopened_open : reopened.closed ≡ false
unfolding revive_all revive push_ready push_delayed set_message message_of from_millis
reopened_open = refl

reopened_ready : 0 < length reopened.ready
unfolding revive_all revive push_ready push_delayed set_message heap_push message_of from_millis
reopened_ready = omega arith

receive_first_example :
    (p : ℕ) × (0 < count p reopened.ready)
    × ((a : ℕ)
        → 0 < count a reopened.ready
        → GoesFirst reopened.ordering (reopened.store p) (reopened.store a))
    × ((receive_round (sample_env none) (pos 1000) (pos 0) (pos 0) false reopened).0
        ≡ returned
            (ok (some (delivery (taken (reopened.store p) "t" (pos 1000000000 +ℤ pos 1000))))))
receive_first_example =
    receive_first (sample_env none) (pos 1000) (pos 0) (pos 0) false "t" reopened reopened-IsValid
      reopened-IsFresh reopened_open refl reopened_ready

process_due-IsAwake_example :
    Moved reopened (process_due (pos 7) reopened).1 nothing nothing
    × IsAwake (pos 7) (process_due (pos 7) reopened).0 (process_due (pos 7) reopened).1
process_due-IsAwake_example = process_due-IsAwake (pos 7) reopened reopened-IsValid
