-- ===== src/Queue/Heap/Pop.antt =====
-- Pop and Remove of container/heap on the queue's heaps.
use mathlib.Core.List.Perm
use queuemaxxing.Base.{
  ℕ, suc, ◌+◌, ◌-◌, ◌<◌, ◌≤◌, ◌≡◌, refl, sym, ap, ◌∙◌, negsuc, length, take, length-take, ◌==◌,
  if◌then◌else◌, arith, get_or-take, take-append-get_or, concat-perm, count, count_zero,
  count-get_or, count-perm,
}
use queuemaxxing.Queue.Heap.{Less, Heap, set_index, item, less_at, swap, pop_item, down, heap_pop}
use queuemaxxing.Queue.Heap.Swaps.{
  SameMessages, SameMessages-trans, swapped, Swaps-mono, IsIndexed, index-set_index,
  set_index-SameMessages, item-ne, length-swap, item-swap, Swaps, Swaps-length, Swaps-SameMessages,
  Swaps-perm, Swaps-IsIndexed, Swaps-item, Swaps-frame, set_index_frame, down-Swaps,
}
use queuemaxxing.Queue.Heap.Order.{
  IsOrder, parent, InOrder, IsHeapTo, less_same, less_at-swap, root_least,
}
use queuemaxxing.Queue.Heap.Sift.{DownInv, down_restores}
use queuemaxxing.Queue.Heap.Contract.{IsHeap, Popped}

module _ (less : Less) (order : IsOrder less) where
  -- the last step, on items of which all but the last are in order
  module _ (g : Heap) (n : ℕ) (size : length g.items ≡ suc n) (ordered : IsHeapTo less n g)
      (indexed : IsIndexed g) where
    last_item : length g.items - 1 ≡ n
    last_item = omega arith

    pub popped-pop_item : (pop_item g).0 ≡ item g.items n
    unfolding pop_item
    popped-pop_item = rw last_item refl

    items-pop_item : (pop_item g).1.items ≡ take n g.items
    unfolding pop_item
    items-pop_item = rw last_item refl

    store-pop_item : (pop_item g).1.store ≡ set_index g.store (item g.items n) (negsuc 0)
    unfolding pop_item
    store-pop_item = rw last_item refl

    length-pop_item : length (pop_item g).1.items ≡ n
    length-pop_item = ap length items-pop_item ∙ length-take n g.items (omega arith)

    item-pop_item : (c : ℕ) → c < n → item (pop_item g).1.items c ≡ item g.items c
    item-pop_item c hc = rw items-pop_item (get_or-take n g.items c 0 hc)

    pop_item-SameMessages : SameMessages g.store (pop_item g).1.store
    pop_item-SameMessages =
        rw store-pop_item (set_index-SameMessages g.store (item g.items n) (negsuc 0))

    index-pop_item :
        (q : ℕ)
        → ((pop_item g).1.store q).index
          ≡ (if item g.items n == q then negsuc 0 else (g.store q).index)
    index-pop_item q = rw store-pop_item (index-set_index g.store (item g.items n) q (negsuc 0))

    pub pop_item-Popped : Popped less g (item g.items n) (pop_item g).1
    pop_item-Popped = record {
      valid = record {
        ordered = λ c p q.
            let hc : c < n = omega (arith, length-pop_item) in
            less_same less order g.store (pop_item g).1.store _ _ pop_item-SameMessages
            ∙ ground (arith, ordered c, item-pop_item c, item-pop_item (parent c));
        indexed = λ c q.
            let hc : c < n = omega (arith, length-pop_item) in
            index-pop_item (item (pop_item g).1.items c)
            ∙ ground (arith, item-pop_item c, indexed c, item-ne g n c indexed);
      };
      items = rw items-pop_item (
          rw (take-append-get_or n g.items 0 size) at
            (Perm.symm (concat-perm (take n g.items) (item g.items n))));
      messages = pop_item-SameMessages;
      out = index-pop_item (item g.items n) ∙ ground arith;
      gone = count_zero (item g.items n) (pop_item g).1.items 0 (λ c q e.
          let hc : c < n = omega (arith, length-pop_item) in
          item-ne g n c indexed (omega arith) (omega arith) (omega arith)
            (sym e ∙ item-pop_item c hc));
      frame = λ q absent. rw store-pop_item (
          set_index_frame g.store (item g.items n) q (negsuc 0) (λ e.
            omega (arith, ap (λ a. count a g.items) e, count-get_or g.items n 0 (omega arith))));
    }

  -- exchanges before the last step change nothing of the promise
  Swaps-Popped :
      {n : ℕ} {h g : Heap} (p : ℕ) {h' : Heap}
      → n ≤ length h.items
      → Swaps n h g
      → Popped less g p h'
      → Popped less h p h'
  Swaps-Popped {h = h} {g = g} p {h' = h'} room run out = record {
    valid = out.valid;
    items = Perm.trans out.items (Swaps-perm room run);
    messages = SameMessages-trans h.store g.store h'.store (Swaps-SameMessages run) out.messages;
    out = out.out;
    gone = out.gone;
    frame = λ q absent.
        out.frame q (count-perm q (Swaps-perm room run) ∙ absent) ∙ Swaps-frame q room run absent;
  }

  module _ (h : Heap) (n : ℕ) (size : length h.items ≡ suc n) (v : IsHeap less h) where
    -- what is left to do after exchanges that end with the item of `i` last
    pub finish :
        (i : ℕ) (g : Heap)
        → i < n + 1
        → Swaps n (swap h i n) g
        → IsHeapTo less n g
        → ((pop_item g).0 ≡ item h.items i) × Popped less h (item h.items i) (pop_item g).1
    finish i g hi run ordered =
        let length_g : length g.items ≡ suc n =
          omega (arith, Swaps-length run, length-swap h i n) in
        let whole : Swaps (n + 1) h g =
          swapped i n hi (omega arith) (Swaps-mono (omega arith) run) in
        let ix : IsIndexed g = Swaps-IsIndexed (omega arith) whole v.indexed in
        let last : item g.items n ≡ item h.items i =
          Swaps-item n (omega (arith, length-swap h i n)) (omega arith) run
          ∙ ground (arith, item-swap h i n (omega arith) (omega arith) n) in
        (
          popped-pop_item g n length_g ordered ix ∙ last,
          Swaps-Popped (item h.items i) (omega arith) whole
              (rw last at (pop_item-Popped g n length_g ordered ix)),
        )

    pub swap-at :
        (i : ℕ)
        → i < n + 1
        → (a b : ℕ)
        → less_at less (swap h i n) a b
          ≡ less_at less h
              (if n == a then i else if i == a then n else a)
              (if n == b then i else if i == b then n else b)
    swap-at i hi a b = less_at-swap less order h i n (omega arith) (omega arith) a b

    root-DownInv : 0 < n → DownInv less order n (swap h 0 n) 0
    root-DownInv some_left = record {
      inside = some_left;
      room = omega (arith, length-swap h 0 n);
      edges = λ c p q r. ground (arith, swap-at 0 (omega arith) c (parent c), v.ordered c);
      bridged = λ c p q r t. absurd (omega arith);
    }

    sunk_root-IsHeapTo : IsHeapTo less n (down (suc n) less (swap h 0 n) 0 n)
    sunk_root-IsHeapTo c p q =
        down_restores less order (suc n) n (swap h 0 n) 0 (omega arith) (root-DownInv (omega arith))
          c p q

    -- Pop of a heap that is not empty takes out the root, and nothing comes before it.
    heap_pop-Popped_root :
        ((heap_pop less h).0 ≡ item h.items 0) × Popped less h (item h.items 0) (heap_pop less h).1
    unfolding heap_pop
    heap_pop-Popped_root =
        let last : length h.items - 1 ≡ n = omega arith in
        rw (last, size)
          (finish 0 (down (suc n) less (swap h 0 n) 0 n) (omega arith)
            (down-Swaps (suc n) less (swap h 0 n) 0 n) sunk_root-IsHeapTo)

  -- Pop of a heap that is not empty hands out the root: no item comes before it, and the rest is a
  -- heap of the other items, each of which knows its position.
  pub heap_pop-Popped :
      (h : Heap)
      → 0 < length h.items
      → IsHeap less h
      → ((heap_pop less h).0 ≡ item h.items 0)
        × ((c : ℕ) → c < length h.items → InOrder less h 0 c)
        × Popped less h (heap_pop less h).0 (heap_pop less h).1
  heap_pop-Popped h some_left v =
      let done = heap_pop-Popped_root h (length h.items - 1) (omega arith) v in
      (
        done.0,
        (λ c q. root_least less order (length h.items) h c v.ordered q),
        rw (← done.0) at done.1,
      )
