-- ===== src/Queue/Places/Due.antt =====
-- The rounds of processDue of scheduler.go.
use queuemaxxing.Base.{
  ℕ, ◌+◌, ◌<◌, ◌≡◌, ◌≢◌, refl, sym, ap, ◌∙◌, some, List, [], ◌∷◌, length, length-perm, count,
  count-perm, ==_refl, arith,
}
use queuemaxxing.Queue.Clock.{zero_time}
use queuemaxxing.Queue.Message.{Message, ready}
use queuemaxxing.Queue.Heap.{
  Less, Heap, item, peek, ready_less, delayed_less, expiry_less, update, heap_push, heap_pop,
}
use queuemaxxing.Queue.Heap.Order.{
  IsOrder, ready_less-IsOrder, delayed_less-IsOrder, expiry_less-IsOrder,
}
use queuemaxxing.Queue.Heap.Contract.{IsHeap, Popped, Pushed}
use queuemaxxing.Queue.Heap.Push.{heap_push-Pushed}
use queuemaxxing.Queue.Heap.Pop.{heap_pop-Popped}
use queuemaxxing.Queue.Engine.State.{
  Queue, delete, heap_of, with_delayed, with_expiry, push_ready, pop_delayed_heap, pop_expiry_heap,
  set_message,
}
use queuemaxxing.Queue.Engine.Scheduler.{promote, expire}
use queuemaxxing.Queue.Places.{Received, IsValid}
use queuemaxxing.Queue.Places.Moves.{
  IsPlaced, Loose, set_message-IsPlaced, with_delayed-pop, with_expiry-pop, with_ready-push,
}
use queuemaxxing.Queue.Places.Receipts.{Received-same, Received-delete}
use queuemaxxing.Queue.Places.Schedule.{Scheduled, ready-Scheduled}
use queuemaxxing.Queue.Places.Steps.{nothing, Moved}
use queuemaxxing.Queue.Places.Changes.{update_other}

pub Moved-none : (q : Queue) → IsValid q → Moved q q nothing nothing
Moved-none q v = record { valid = v; balance = λ a. refl }

pub Moved-trans :
    (q r s : Queue)
    → Moved q r nothing nothing
    → Moved r s nothing nothing
    → Moved q s nothing nothing
Moved-trans q r s a b = record {
  valid = b.valid;
  balance = λ x. omega (arith, a.balance x, b.balance x);
}

-- the head of a list is its first item
pub peek-item :
    (items : List ℕ) (p : ℕ) → peek items ≡ some p → (0 < length items) × (item items 0 ≡ p)
peek-item [] p e = cc
peek-item (x ∷ items) p e = (omega arith, cc)

-- popping the root of a heap
Popped-root :
    (less : Less) (order : IsOrder less) (h : Heap) (p : ℕ)
    → peek h.items ≡ some p
    → IsHeap less h
    → Popped less h p (heap_pop less h).1
Popped-root less order h p head v =
    let (some_left, is) = peek-item h.items p head in
    let done = heap_pop-Popped less order h some_left v in rw (done.0 ∙ is) at done.2

module _ (q : Queue) (p : ℕ) (v : IsValid q) where
  module _ (head : peek q.delayed ≡ some p) where
    abbrev pub later : Heap
    later = (heap_pop delayed_less (heap_of q q.delayed)).1

    pub later-Popped : Popped delayed_less (heap_of q q.delayed) p later
    later-Popped =
        Popped-root delayed_less delayed_less-IsOrder (heap_of q q.delayed) p head
          v.placed.delays.heap

    later-IsPlaced : IsPlaced (with_delayed q later) × Loose p (with_delayed q later)
    later-IsPlaced = with_delayed-pop q p v.placed later later-Popped

    pub promote-Scheduled : Scheduled p (with_delayed q later) (promote q p)
    unfolding promote pop_delayed_heap
    promote-Scheduled = ready-Scheduled p (with_delayed q later) later-IsPlaced.0 later-IsPlaced.1

    pub promote-Moved : Moved q (promote q p) nothing nothing
    promote-Moved =
        let s = promote-Scheduled in
        record {
          valid = record {
            placed = s.placed;
            received =
                rw (s.expiry, s.inflight)
                  (Received-same q.store (promote q p).store q.expiry q.inflight
                    (λ a inside.
                      ap (λ (m : Message). m.receipt) (s.mail a)
                      ∙ ap (λ (m : Message). m.receipt) (later-Popped.messages a))
                    v.received);
            unused = λ a far.
                s.moved a
                ∙ ground
                    (arith, count-perm a later-Popped.items, v.unused a (rw s.next_address at far));
          };
          balance = λ a. omega (arith, s.moved a, count-perm a later-Popped.items);
        }

    pub promote_shorter : length (promote q p).delayed + 1 ≡ length q.delayed
    unfolding promote pop_delayed_heap set_message push_ready
    promote_shorter = omega (arith, length-perm later-Popped.items)

    pub promote_expiry : (promote q p).expiry ≡ q.expiry
    promote_expiry = promote-Scheduled.expiry

  module _ (head : peek q.expiry ≡ some p) where
    abbrev pub over : Heap
    over = (heap_pop expiry_less (heap_of q q.expiry)).1

    pub over-Popped : Popped expiry_less (heap_of q q.expiry) p over
    over-Popped =
        Popped-root expiry_less expiry_less-IsOrder (heap_of q q.expiry) p head
          v.placed.deliveries.heap

    over-IsPlaced : IsPlaced (with_expiry q over) × Loose p (with_expiry q over)
    over-IsPlaced = with_expiry-pop q p v.placed over over-Popped

    abbrev pub again : Message
    again = record (over.store p) { receipt = ""; deadline = zero_time; state = ready }

    abbrev readied : Queue
    readied = record (with_expiry q over) { store = update over.store p again }

    readied-IsPlaced : IsPlaced readied
    readied-IsPlaced =
        unfold set_message in
        set_message-IsPlaced (with_expiry q over) p over-IsPlaced.0 again over-IsPlaced.1

    abbrev back : Heap
    back = heap_push (ready_less q.ordering) (heap_of readied q.ready) p

    pub back-Pushed : Pushed (ready_less q.ordering) (heap_of readied q.ready) p back
    back-Pushed =
        heap_push-Pushed (ready_less q.ordering) (ready_less-IsOrder q.ordering)
          (heap_of readied q.ready) p readied-IsPlaced.readies.heap over-IsPlaced.1.0

    over_receipt : (over.store p).receipt ≡ (q.store p).receipt
    over_receipt = ap (λ (m : Message). m.receipt) (over-Popped.messages p)

    kept_receipt : (a : ℕ) → a ≢ p → (back.store a).receipt ≡ (q.store a).receipt
    kept_receipt a other =
        ap (λ (m : Message). m.receipt) (back-Pushed.messages a)
        ∙ ap (λ (m : Message). m.receipt) (update_other over.store p a again other)
        ∙ ap (λ (m : Message). m.receipt) (over-Popped.messages a)

    was_delivered : 0 < count p q.expiry
    was_delivered = ground (arith, count-perm p over-Popped.items)

    expired-Received : Received back.store over.items (delete (over.store p).receipt q.inflight)
    expired-Received =
        Received-delete q.store back.store q.expiry over.items q.inflight p (over.store p).receipt
          v.received kept_receipt (rw over_receipt (v.received.known p was_delivered))
          over-Popped.gone (λ a. sym (count-perm a over-Popped.items))

    pub expire-Moved : Moved q (expire q p) nothing nothing
    unfolding expire pop_expiry_heap set_message push_ready
    expire-Moved = record {
      valid = record {
        placed =
            with_ready-push readied p readied-IsPlaced back over-IsPlaced.1
              (unfold update in rw (==_refl p)) back-Pushed;
        received = expired-Received;
        unused = λ a far.
            omega (
              arith,
              v.unused a far,
              count-perm a back-Pushed.items,
              count-perm a over-Popped.items,
            );
      };
      balance = λ a. omega (arith, count-perm a back-Pushed.items, count-perm a over-Popped.items);
    }

    pub expire_shorter : length (expire q p).expiry + 1 ≡ length q.expiry
    unfolding expire pop_expiry_heap set_message push_ready
    expire_shorter = omega (arith, length-perm over-Popped.items)

    pub expire_delayed : (expire q p).delayed ≡ q.delayed
    unfolding expire pop_expiry_heap set_message push_ready
    expire_delayed = refl

    pub expire_available : (a : ℕ) → ((expire q p).store a).available_at ≡ (q.store a).available_at
    unfolding expire pop_expiry_heap set_message push_ready
    expire_available a =
        ap (λ (m : Message). m.available_at) (back-Pushed.messages a)
        ∙ readied_available
        ∙ ap (λ (m : Message). m.available_at) (over-Popped.messages a)
      where
        readied_available : (update over.store p again a).available_at ≡ (over.store a).available_at
        readied_available = unfold update in ground arith
