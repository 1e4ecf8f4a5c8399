-- ===== src/Queue/Places/Deliveries.antt =====
-- popReady of queue.go, and the rounds of processDue in scheduler.go.
use queuemaxxing.Base.{
  ℕ, ◌<◌, ◌≡◌, ◌≢◌, sym, ap, ◌∙◌, String, Bool, true, false, ℤ, none, List, ◌+ℤ◌, length, count,
  count-perm, count-get_or, get_or-count, ==_refl, if◌then◌else◌, arith,
}
use queuemaxxing.Queue.Message.{Message, delivery}
use queuemaxxing.Queue.Heap.{
  Store, Less, Heap, item, ready_less, expiry_less, update, heap_push, heap_pop,
}
use queuemaxxing.Queue.Heap.Order.{InOrder, ready_less-IsOrder, expiry_less-IsOrder}
use queuemaxxing.Queue.Heap.Contract.{Popped, Pushed}
use queuemaxxing.Queue.Heap.Push.{heap_push-Pushed}
use queuemaxxing.Queue.Heap.Pop.{heap_pop-Popped}
use queuemaxxing.Queue.Engine.State.{
  Queue, CallEnv, lookup, insert, heap_of, with_ready, with_expiry, set_message, leads,
  wake_scheduler,
}
use queuemaxxing.Queue.Engine.Operations.{taken, pop_with}
use queuemaxxing.Queue.Places.{IsValid}
use queuemaxxing.Queue.Places.Moves.{
  IsPlaced, Loose, set_message-IsPlaced, with_ready-pop, with_expiry-push,
}
use queuemaxxing.Queue.Places.Receipts.{Received-insert}
use queuemaxxing.Queue.Places.Steps.{nothing, Moved}
use queuemaxxing.Queue.Places.Changes.{update_other}

-- the root of a heap is one of its items, and none comes before it
pub record IsLeast (less : Less) (store : Store) (items : List ℕ) (p : ℕ) : Type 0 where
  pub inside : 0 < count p items
  pub least : (a : ℕ) → 0 < count a items → less (store a) (store p) ≡ false

pub root-IsLeast :
    (less : Less) (h : Heap)
    → 0 < length h.items
    → ((c : ℕ) → c < length h.items → InOrder less h 0 c)
    → IsLeast less h.store h.items (item h.items 0)
root-IsLeast less h some_left order = record {
  inside = count-get_or h.items 0 0 some_left;
  least = λ a inside.
      let (c, within, is) = get_or-count a h.items 0 inside in
      ap (λ x. less (h.store x) (h.store (item h.items 0))) (sym is) ∙ order c within;
}

module _ (env : CallEnv) (visibility : ℤ) (r : String) (q : Queue) (v : IsValid q)
    (some_ready : 0 < length q.ready) (fresh : lookup r q.inflight ≡ none) where
  abbrev pub root : ℕ
  root = (heap_pop (ready_less q.ordering) (heap_of q q.ready)).0

  abbrev pub rest : Heap
  rest = (heap_pop (ready_less q.ordering) (heap_of q q.ready)).1

  pub rest-Popped : Popped (ready_less q.ordering) (heap_of q q.ready) root rest
  rest-Popped =
      (heap_pop-Popped (ready_less q.ordering) (ready_less-IsOrder q.ordering) (heap_of q q.ready)
        some_ready v.placed.readies.heap).2

  pub ready_root-IsLeast : IsLeast (ready_less q.ordering) q.store q.ready root
  ready_root-IsLeast =
      let done =
        heap_pop-Popped (ready_less q.ordering) (ready_less-IsOrder q.ordering) (heap_of q q.ready)
          some_ready v.placed.readies.heap in
      rw (← done.0) at (root-IsLeast (ready_less q.ordering) (heap_of q q.ready) some_ready done.1)

  pub rest-IsPlaced : IsPlaced (with_ready q rest) × Loose root (with_ready q rest)
  rest-IsPlaced = with_ready-pop q root v.placed rest rest-Popped

  abbrev pub handed : Message
  handed = taken (rest.store root) r (env.now +ℤ visibility)

  abbrev pub marked : Queue
  marked = record (with_ready q rest) { store = update rest.store root handed }

  pub marked-IsPlaced : IsPlaced marked
  marked-IsPlaced =
      unfold set_message in
      set_message-IsPlaced (with_ready q rest) root rest-IsPlaced.0 handed rest-IsPlaced.1

  marked_root : update rest.store root handed root ≡ handed
  marked_root = unfold update in rw (==_refl root)

  abbrev pub timed : Heap
  timed = heap_push expiry_less (heap_of marked q.expiry) root

  pub timed-Pushed : Pushed expiry_less (heap_of marked q.expiry) root timed
  timed-Pushed =
      heap_push-Pushed expiry_less expiry_less-IsOrder (heap_of marked q.expiry) root
        marked-IsPlaced.deliveries.heap rest-IsPlaced.1.2

  abbrev pub given : Queue
  given = record (with_expiry marked timed) { inflight = insert r root q.inflight }

  given_receipt : (a : ℕ) → a ≢ root → (timed.store a).receipt ≡ (q.store a).receipt
  given_receipt a other =
      ap (λ (m : Message). m.receipt) (timed-Pushed.messages a)
      ∙ ap (λ (m : Message). m.receipt) (update_other rest.store root a handed other)
      ∙ ap (λ (m : Message). m.receipt) (rest-Popped.messages a)

  given-IsValid : IsValid given
  given-IsValid = record {
    placed =
        with_expiry-push marked root marked-IsPlaced timed rest-IsPlaced.1
          (ap (λ (m : Message). m.state) marked_root) timed-Pushed;
    received =
        Received-insert q.store timed.store q.expiry timed.items q.inflight root r v.received
          given_receipt fresh
          (ap (λ (m : Message). m.receipt) (timed-Pushed.messages root)
            ∙ ap (λ (m : Message). m.receipt) marked_root)
          rest-IsPlaced.1.2 (λ a. count-perm a timed-Pushed.items);
    unused = λ a far.
        omega
          (arith, v.unused a far, count-perm a timed-Pushed.items, count-perm a rest-Popped.items);
  }

  given-Moved : Moved q given nothing nothing
  given-Moved = record {
    valid = given-IsValid;
    balance = λ a. omega (arith, count-perm a timed-Pushed.items, count-perm a rest-Popped.items);
  }

  pub pop_with-Moved : Moved q (pop_with env visibility r q).1 nothing nothing
  unfolding pop_with
  pop_with-Moved = woken (leads root timed.items)
    where
      woken : (b : Bool) → Moved q (if b then wake_scheduler given else given) nothing nothing
      woken true = record {
        valid = record {
          placed = given-IsValid.placed;
          received = given-IsValid.received;
          unused = given-IsValid.unused;
        };
        balance = given-Moved.balance;
      }
      woken false = given-Moved

  -- the delivery is of the root, as it was but for the count, the receipt and the deadline
  pub pop_with-delivery :
      (pop_with env visibility r q).0 ≡ delivery (taken (q.store root) r (env.now +ℤ visibility))
  unfolding pop_with
  pop_with-delivery =
      ap delivery (timed-Pushed.messages root)
      ∙ ap delivery marked_root
      ∙ ap (λ (m : Message). delivery (taken m r (env.now +ℤ visibility)))
          (rest-Popped.messages root)
