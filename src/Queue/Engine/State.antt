-- ===== src/Queue/Engine/State.antt =====
-- The Queue struct of internal/queue/queue.go, its maps and heaps, and what a call takes from outside.
use text.Mathlib.Text.{◌==◌ as str_eq}
use text.Mathlib.TextEquality.{eq_iff}
use text.Mathlib.TextPositions.{eq_refl}
use queuemaxxing.Base.{
  ℕ, ◌+◌, ◌%◌, ◌^◌, ◌≡◌, refl, String, Bool, true, false, Option, none, some, List, [], ◌∷◌,
  pos_part, ◌==◌, if◌then◌else◌, arith,
}
use queuemaxxing.Storage.Record.{Record}
use queuemaxxing.Storage.Log.{LogError}
use queuemaxxing.Queue.Clock.{Time}
use queuemaxxing.Queue.Message.{Message, Ordering}
use queuemaxxing.Queue.Heap.{
  Store, Heap, update, ready_less, delayed_less, expiry_less, heap_push, heap_pop, heap_remove,
  peek,
}

-- ErrEmptyBody, the negative delay, ErrQueueDeleted, ErrReceiptNotFound, a failed crypto/rand, and
-- the log's errors.
pub data QueueError : Type 0 where
  empty_body negative_delay queue_deleted receipt_not_found entropy_failed cancelled : QueueError
  log_failed : LogError → QueueError

-- What one call takes from outside: the clock, the token that crypto/rand yields (an id or a
-- receipt, `none` where it fails), and the errors of the log's Append and Compact. A log that is broken
-- (Storage.Log) is one whose calls all give an error from then on.
pub record CallEnv : Type 0 where
  pub now : Time
  pub token : Option String
  pub append_error : Option LogError
  pub compact_error : Option LogError

-- inflight as an association list
abbrev pub Inflight : Type 0
Inflight = List (String × ℕ)

unfoldable pub lookup : String → Inflight → Option ℕ
lookup r [] = none
lookup r ((s, p) ∷ m) = if str_eq s r then some p else lookup r m

unfoldable pub delete : String → Inflight → Inflight
delete r [] = []
delete r ((s, p) ∷ m) = let rest = delete r m in if str_eq s r then rest else (s, p) ∷ rest

unfoldable pub insert : String → ℕ → Inflight → Inflight
unfolding delete
insert r p m = (r, p) ∷ delete r m

pub lookup-delete :
    (r : String) (s : String) (m : Inflight)
    → lookup s (delete r m) ≡ (if str_eq r s then none else lookup s m)
unfolding lookup delete
lookup-delete r s [] = ground arith
lookup-delete r s ((k, p) ∷ m) =
    ground (arith, lookup-delete r s m, eq_iff k r, eq_iff k s, eq_iff r s)

pub lookup-delete_self : (r : String) (m : Inflight) → lookup r (delete r m) ≡ none
lookup-delete_self r m = simp (lookup-delete, eq_refl)

-- `log` is the logStore, by the records that it has accepted: those of the last Compact that returned
-- nil, and those behind whose Append did. What a failed Append or Compact leaves in the file besides is
-- not in it (Storage.Log.Append, Storage.Compaction.Commit). `kick` is the buffered channel of capacity 1,
-- `signalled` says that the condition variable was broadcast, `log_open` that the log is not
-- closed. `next_address` is the next address to allocate.
pub record Queue : Type 0 where
  pub name : String
  pub ordering : Ordering
  pub created_at : Time
  pub store : Store
  pub next_address : ℕ
  pub ready : List ℕ
  pub delayed : List ℕ
  pub expiry : List ℕ
  pub inflight : Inflight
  pub next_seq : ℕ
  pub enqueued : ℕ
  pub acked : ℕ
  pub log : List Record
  pub log_open : Bool
  pub closed : Bool
  pub compact_threshold : ℕ
  pub kick : Bool
  pub signalled : Bool

-- uint64 addition
abbrev pub add_uint64 : ℕ → ℕ → ℕ
add_uint64 a b = (a + b) % 2 ^ 64

abbrev pub heap_of : Queue → List ℕ → Heap
heap_of q items = record { store = q.store; items = items }

abbrev pub with_ready : Queue → Heap → Queue
with_ready q h = record q { store = h.store; ready = h.items }

abbrev pub with_delayed : Queue → Heap → Queue
with_delayed q h = record q { store = h.store; delayed = h.items }

abbrev pub with_expiry : Queue → Heap → Queue
with_expiry q h = record q { store = h.store; expiry = h.items }

unfoldable pub push_ready : Queue → ℕ → Queue
push_ready q p = with_ready q (heap_push (ready_less q.ordering) (heap_of q q.ready) p)

unfoldable pub push_delayed : Queue → ℕ → Queue
push_delayed q p = with_delayed q (heap_push delayed_less (heap_of q q.delayed) p)

unfoldable pub push_expiry : Queue → ℕ → Queue
push_expiry q p = with_expiry q (heap_push expiry_less (heap_of q q.expiry) p)

unfoldable pub pop_ready_heap : Queue → ℕ × Queue
pop_ready_heap q =
    let (p, h) = heap_pop (ready_less q.ordering) (heap_of q q.ready) in (p, with_ready q h)

unfoldable pub pop_delayed_heap : Queue → ℕ × Queue
pop_delayed_heap q =
    let (p, h) = heap_pop delayed_less (heap_of q q.delayed) in (p, with_delayed q h)

unfoldable pub pop_expiry_heap : Queue → ℕ × Queue
pop_expiry_heap q = let (p, h) = heap_pop expiry_less (heap_of q q.expiry) in (p, with_expiry q h)

-- heap.Remove(q.expiry, m.index)
unfoldable pub remove_expiry : Queue → ℕ → Queue
remove_expiry q p =
    with_expiry q (heap_remove expiry_less (heap_of q q.expiry) (pos_part (q.store p).index)).1

unfoldable pub set_message : Queue → ℕ → Message → Queue
unfolding update
set_message q p m = record q { store = update q.store p m }

pub inflight-remove_expiry : (q : Queue) (p : ℕ) → (remove_expiry q p).inflight ≡ q.inflight
unfolding remove_expiry
inflight-remove_expiry q p = refl

pub closed-remove_expiry : (q : Queue) (p : ℕ) → (remove_expiry q p).closed ≡ q.closed
unfolding remove_expiry
closed-remove_expiry q p = refl

-- whether peek is the message just pushed
abbrev pub leads : ℕ → List ℕ → Bool
leads p items = elim (peek items) [ none ↦ false | some r ↦ r == p ]

-- wakeScheduler: a non-blocking send
abbrev pub wake_scheduler : Queue → Queue
wake_scheduler q = record q { kick = true }

-- cond.Broadcast
abbrev pub broadcast : Queue → Queue
broadcast q = record q { signalled = true }
