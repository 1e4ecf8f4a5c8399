-- ===== src/Queue/Heap/Contract.antt =====
-- What Push, Pop and Remove of container/heap promise on the queue's heaps.
use queuemaxxing.Base.{ℕ, ◌≡◌, ◌≢◌, ◌∷◌, Perm, negsuc, length, count}
use queuemaxxing.Queue.Heap.{Less, Heap}
use queuemaxxing.Queue.Heap.Swaps.{SameMessages, IsIndexed}
use queuemaxxing.Queue.Heap.Order.{IsHeapTo}

-- The items are in heap order, and each knows its position.
pub record IsHeap (less : Less) (h : Heap) : Type 0 where
  pub ordered : IsHeapTo less (length h.items) h
  pub indexed : IsIndexed h

-- `p` is none of the items
abbrev pub Absent : ℕ → Heap → Type 0
Absent p h = count p h.items ≡ 0

-- `h'` is a heap of `p` and the items of `h`, whose messages are the same.
pub record Pushed (less : Less) (h : Heap) (p : ℕ) (h' : Heap) : Type 0 where
  pub valid : IsHeap less h'
  pub items : Perm h'.items (p ∷ h.items)
  pub messages : SameMessages h.store h'.store
  pub frame : (q : ℕ) → Absent q h → q ≢ p → h'.store q ≡ h.store q

-- `h'` is a heap of the items of `h` but `p`, whose position is now -1; the messages are the same.
pub record Popped (less : Less) (h : Heap) (p : ℕ) (h' : Heap) : Type 0 where
  pub valid : IsHeap less h'
  pub items : Perm (p ∷ h'.items) h.items
  pub messages : SameMessages h.store h'.store
  pub out : (h'.store p).index ≡ negsuc 0
  pub gone : Absent p h'
  pub frame : (q : ℕ) → Absent q h → h'.store q ≡ h.store q
