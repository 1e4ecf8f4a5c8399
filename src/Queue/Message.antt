-- ===== src/Queue/Message.antt =====
-- internal/queue/message.go: orderings, message states, messages and deliveries.
use text.Mathlib.Text.{◌==◌ as str_eq}
use queuemaxxing.Base.{ℕ, String, List, ℤ, ◌≡◌, refl, Option, none, some, if◌then◌else◌}
use queuemaxxing.Queue.Clock.{Time}

pub data Ordering : Type 0 where
  fifo lifo : Ordering

-- ParseOrdering; `none` is its error
unfoldable pub parse_ordering : String → Option Ordering
parse_ordering s =
    if str_eq s "fifo" then some fifo else if str_eq s "lifo" then some lifo else none

-- string(ordering)
unfoldable pub ordering_text : Ordering → String
ordering_text fifo = "fifo"
ordering_text lifo = "lifo"

-- The text of an ordering parses back to it.
pub parse_ordering-text : (o : Ordering) → parse_ordering (ordering_text o) ≡ some o
unfolding parse_ordering ordering_text
parse_ordering-text fifo = refl
parse_ordering-text lifo = refl

pub data State : Type 0 where
  ready delayed in_flight : State

-- `index` is the position in the heap that holds the message, and -1 behind heap.Pop.
pub record Message : Type 0 where
  pub id : String
  pub seq : ℕ
  pub priority : ℤ
  pub body : List ℕ
  pub created_at : Time
  pub available_at : Time
  pub state : State
  pub receive_count : ℕ
  pub receipt : String
  pub deadline : Time
  pub index : ℤ

pub record Delivery : Type 0 where
  pub id : String
  pub seq : ℕ
  pub priority : ℤ
  pub body : List ℕ
  pub created_at : Time
  pub available_at : Time
  pub receive_count : ℕ
  pub receipt : String
  pub deadline : Time

abbrev pub delivery : Message → Delivery
delivery m = record {
  id = m.id;
  seq = m.seq;
  priority = m.priority;
  body = m.body;
  created_at = m.created_at;
  available_at = m.available_at;
  receive_count = m.receive_count;
  receipt = m.receipt;
  deadline = m.deadline;
}
