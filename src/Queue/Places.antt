-- ===== src/Queue/Places.antt =====
-- Where the messages of a queue are: the invariant of the Queue struct of internal/queue/queue.go.
pub mod Parts
pub mod Moves
pub mod Receipts
pub mod Schedule
pub mod Steps
pub mod Changes
pub mod Deliveries
pub mod Due
pub mod Wakeup
pub mod Awake
pub mod Calls
pub mod First
pub mod Reach
use queuemaxxing.Base.{ℕ, ◌+◌, ◌<◌, ◌≤◌, ◌≡◌, String, Option, some, List, count}
use queuemaxxing.Queue.Message.{Ordering, State, ready, delayed, in_flight}
use queuemaxxing.Queue.Heap.{Store, Less, ready_less, delayed_less, expiry_less}
use queuemaxxing.Queue.Heap.Contract.{IsHeap}
use queuemaxxing.Queue.Engine.State.{Queue, Inflight, lookup}

-- A heap of messages that are all in one state.
pub record Part (less : Less) (state : State) (store : Store) (items : List ℕ) : Type 0 where
  pub heap : IsHeap less (record { store = store; items = items })
  pub states : (p : ℕ) → 0 < count p items → (store p).state ≡ state

-- The three heaps. Since a message has one state, no message is in two of them.
pub record Placed (o : Ordering) (store : Store) (rs ds es : List ℕ) : Type 0 where
  pub readies : Part (ready_less o) ready store rs
  pub delays : Part delayed_less delayed store ds
  pub deliveries : Part expiry_less in_flight store es

-- The in-flight map leads from the receipt of each delivered message to it, and nowhere else.
pub record Received (store : Store) (es : List ℕ) (m : Inflight) : Type 0 where
  pub known : (p : ℕ) → 0 < count p es → lookup (store p).receipt m ≡ some p
  pub real : (r : String) (p : ℕ) → lookup r m ≡ some p → (0 < count p es) × ((store p).receipt ≡ r)

-- Addresses from `next` on are not in use.
abbrev pub Unused : ℕ → List ℕ → List ℕ → List ℕ → Type 0
Unused next rs ds es = (p : ℕ) → next ≤ p → count p rs + (count p ds + count p es) ≡ 0

pub record IsValid (q : Queue) : Type 0 where
  pub placed : Placed q.ordering q.store q.ready q.delayed q.expiry
  pub received : Received q.store q.expiry q.inflight
  pub unused : Unused q.next_address q.ready q.delayed q.expiry
