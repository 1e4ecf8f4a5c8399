-- ===== src/Queue/Heap/Remove.antt =====
-- Remove of container/heap on the queue's heaps.
use queuemaxxing.Base.{
  ℕ, suc, ◌+◌, ◌-◌, ◌*◌, ◌<◌, ◌≤◌, ◌≡◌, ◌≢◌, refl, ap, ◌∙◌, true, false, Bool-cases, inl, inr,
  length, ◌==◌, ltb, if◌then◌else◌, arith, ==_refl,
}
use queuemaxxing.Queue.Heap.{
  Less, Heap, item, less_at, swap, pop_item, smaller_child, up, down, moves_down, heap_remove,
}
use queuemaxxing.Queue.Heap.Swaps.{length-swap, Swaps, up-Swaps, down-Swaps}
use queuemaxxing.Queue.Heap.Order.{IsOrder, parent, InOrder, IsHeapTo}
use queuemaxxing.Queue.Heap.Sift.{
  UpInv, DownInv, asym_at, trans_at, smaller_child_least, smaller_child_cases, up_restores,
  down_restores,
}
use queuemaxxing.Queue.Heap.Contract.{IsHeap, Popped}
use queuemaxxing.Queue.Heap.Pop.{finish, swap-at, popped-pop_item, pop_item-Popped}

-- Remove, for a number of items and a last index
remove_with : Less → Heap → ℕ → ℕ → ℕ → ℕ × Heap
remove_with less h i len n =
    if n == i
    then pop_item h
    else pop_item (
        if moves_down less (swap h i n) i n
        then down len less (swap h i n) i n
        else up len less (swap h i n) i)

heap_remove-remove_with :
    (less : Less) (h : Heap) (i : ℕ)
    → heap_remove less h i ≡ remove_with less h i (length h.items) (length h.items - 1)
unfolding heap_remove remove_with
heap_remove-remove_with less h i = refl

remove_with-suc :
    (less : Less) (h : Heap) (i n : ℕ)
    → length h.items ≡ suc n
    → heap_remove less h i ≡ remove_with less h i (suc n) n
remove_with-suc less h i n size =
    heap_remove-remove_with less h i
    ∙ ap (λ len. remove_with less h i len (len - 1)) size
    ∙ ap (remove_with less h i (suc n)) (omega arith)

module _ (less : Less) (order : IsOrder less) (h : Heap) (n : ℕ) (size : length h.items ≡ suc n)
    (v : IsHeap less h) (i : ℕ) (hi : i < n) where
  at :
      (a b : ℕ)
      → less_at less (swap h i n) a b
        ≡ less_at less h
            (if n == a then i else if i == a then n else a)
            (if n == b then i else if i == b then n else b)
  at = swap-at less order h n size v i (omega arith)

  -- around `i` the item from the end may be out of order
  edges_beside :
      (c : ℕ) → 0 < c → c < n → c ≢ i → parent c ≢ i → InOrder less (swap h i n) (parent c) c
  edges_beside c p q r t = ground (arith, at c (parent c), v.ordered c)

  bridged_over :
      (c : ℕ) → 0 < c → c < n → parent c ≡ i → 0 < i → InOrder less (swap h i n) (parent i) c
  bridged_over c p q r t =
      ground
        (arith, at c (parent i), v.ordered c, v.ordered i, trans_at less order n h (parent i) i c)

  swapped_room : n ≤ length (swap h i n).items
  swapped_room = omega (arith, length-swap h i n)

  sinks-DownInv : moves_down less (swap h i n) i n ≡ true → DownInv less order n (swap h i n) i
  sinks-DownInv sinks =
      let m = smaller_child less (swap h i n) i n in
      let room : 2 * i + 1 < n = ground arith in
      let child = smaller_child_cases less order n (swap h i n) i room in
      let below : less_at less (swap h i n) m i ≡ true = ground arith in
      record {
        inside = hi;
        room = swapped_room;
        edges = λ c p q r. elim (Bool-cases (c == i)) [
          | inl e ↦ ground (
            arith,
            bridged_over m,
            asym_at less order n (swap h i n) m i,
            trans_at less order n (swap h i n) (parent i) m i,
            child,
          )
          | inr e ↦ edges_beside c p q (ground arith) r
        ];
        bridged = bridged_over;
      }

  rises-UpInv : moves_down less (swap h i n) i n ≡ false → UpInv less order n (swap h i n) i
  rises-UpInv rises = record {
    inside = hi;
    room = swapped_room;
    edges = λ c p q r. elim (Bool-cases (parent c == i)) [
      | inl e ↦
          let m = smaller_child less (swap h i n) i n in
          let room : 2 * i + 1 < n = ground arith in
          let least : InOrder less (swap h i n) m c =
            smaller_child_least less order n (swap h i n) i c room p q (ground arith) in
          let above : InOrder less (swap h i n) i m = ground arith in
          ground (arith, trans_at less order n (swap h i n) i m c above least)
      | inr e ↦ edges_beside c p q r (ground arith)
    ];
    bridged = bridged_over;
  }

  abbrev sifted : Heap
  sifted =
      if moves_down less (swap h i n) i n
      then down (suc n) less (swap h i n) i n
      else up (suc n) less (swap h i n) i

  sifted-Swaps : Swaps n (swap h i n) sifted
  sifted-Swaps = elim (Bool-cases (moves_down less (swap h i n) i n)) [
    | inl e ↦ rw e (down-Swaps (suc n) less (swap h i n) i n)
    | inr e ↦ rw e (up-Swaps (suc n) less (swap h i n) i n hi)
  ]

  sifted-IsHeapTo : IsHeapTo less n sifted
  sifted-IsHeapTo = elim (Bool-cases (moves_down less (swap h i n) i n)) [
    | inl e ↦
        rw e (down_restores less order (suc n) n (swap h i n) i (omega arith) (sinks-DownInv e))
    | inr e ↦ rw e (up_restores less order (suc n) n (swap h i n) i (omega arith) (rises-UpInv e))
  ]

  heap_remove_inner :
      ((heap_remove less h i).0 ≡ item h.items i)
      × Popped less h (item h.items i) (heap_remove less h i).1
  heap_remove_inner =
      rw (remove_with-suc less h i n size ∙ unfolded)
        (finish less order h n size v i sifted (omega arith) sifted-Swaps sifted-IsHeapTo)
    where
      other : (n == i) ≡ false
      other = ground arith

      unfolded : remove_with less h i (suc n) n ≡ pop_item sifted
      unfolded = unfold remove_with in rw other

module _ (less : Less) (order : IsOrder less) where
  heap_remove_last :
      (h : Heap) (n : ℕ)
      → length h.items ≡ suc n
      → IsHeap less h
      → ((heap_remove less h n).0 ≡ item h.items n)
        × Popped less h (item h.items n) (heap_remove less h n).1
  heap_remove_last h n size v =
      let below : IsHeapTo less n h = λ c p q. v.ordered c p (omega arith) in
      rw (remove_with-suc less h n n size ∙ unfolded) (
        popped-pop_item less order h n size below v.indexed,
        pop_item-Popped less order h n size below v.indexed,
      )
    where
      unfolded : remove_with less h n (suc n) n ≡ pop_item h
      unfolded = unfold remove_with in rw (==_refl n)

  -- Remove at a position in a heap takes out the item there, and leaves a heap of the others, each of
  -- which knows its position.
  pub heap_remove-Popped :
      (h : Heap) (i : ℕ)
      → i < length h.items
      → IsHeap less h
      → ((heap_remove less h i).0 ≡ item h.items i)
        × Popped less h (item h.items i) (heap_remove less h i).1
  heap_remove-Popped h i inside v = elim (Bool-cases (ltb i (length h.items - 1))) [
    | inl inner ↦
        heap_remove_inner less order h (length h.items - 1) (omega arith) v i (ground arith)
    | inr outer ↦
        let e : i ≡ length h.items - 1 = ground arith in
        rw e (heap_remove_last h (length h.items - 1) (omega arith) v)
  ]
