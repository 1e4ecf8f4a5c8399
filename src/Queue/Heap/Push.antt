-- ===== src/Queue/Heap/Push.antt =====
-- Push of container/heap on the queue's heaps.
use mathlib.Core.List.Perm
use queuemaxxing.Base.{
  ℕ, ◌+◌, ◌-◌, ◌<◌, ◌≡◌, ◌≢◌, sym, ap, ◌∙◌, Bool-cases, inl, inr, [], ◌∷◌, pos, length,
  length-append, ◌==◌, ltb, if◌then◌else◌, arith, get_or-append, get_or-concat, concat-perm, count,
  count-get_or, count-perm,
}
use queuemaxxing.Queue.Heap.{Less, Heap, item, push_item, up, heap_push}
use queuemaxxing.Queue.Heap.Swaps.{
  SameMessages, SameMessages-trans, IsIndexed, index-set_index, set_index-SameMessages, Swaps,
  Swaps-length, Swaps-SameMessages, Swaps-perm, Swaps-IsIndexed, Swaps-frame, set_index_frame,
  up-Swaps,
}
use queuemaxxing.Queue.Heap.Order.{IsOrder, parent, less_same}
use queuemaxxing.Queue.Heap.Sift.{UpInv, up_restores}
use queuemaxxing.Queue.Heap.Contract.{IsHeap, Absent, Pushed}

module _ (less : Less) (order : IsOrder less) where
  module _ (h : Heap) (p : ℕ) (v : IsHeap less h) (fresh : Absent p h) where
    fresh_at : (c : ℕ) → c < length h.items → item h.items c ≢ p
    fresh_at c hc e = omega (arith, ap (λ a. count a h.items) e, count-get_or h.items c 0 hc)

    length-push_item : length (push_item h p).items ≡ length h.items + 1
    unfolding push_item
    length-push_item = length-append h.items (p ∷ [])

    item-push_item : (c : ℕ) → c < length h.items → item (push_item h p).items c ≡ item h.items c
    unfolding push_item
    item-push_item c hc = get_or-append h.items (p ∷ []) c 0 hc

    item-push_item_last : item (push_item h p).items (length h.items) ≡ p
    unfolding push_item
    item-push_item_last = get_or-concat h.items p 0

    push_item-SameMessages : SameMessages h.store (push_item h p).store
    unfolding push_item
    push_item-SameMessages = set_index-SameMessages h.store p (pos (length h.items))

    index-push_item :
        (q : ℕ)
        → ((push_item h p).store q).index
          ≡ (if p == q then pos (length h.items) else (h.store q).index)
    unfolding push_item
    index-push_item q = index-set_index h.store p q (pos (length h.items))

    store-push_item : (q : ℕ) → q ≢ p → (push_item h p).store q ≡ h.store q
    unfolding push_item
    store-push_item q other =
        set_index_frame h.store p q (pos (length h.items)) (λ e. other (sym e))

    Absent-push_item : (q : ℕ) → Absent q h → q ≢ p → Absent q (push_item h p)
    unfolding push_item
    Absent-push_item q absent other = count-perm q (concat-perm h.items p) ∙ ground arith

    push_item-IsIndexed : IsIndexed (push_item h p)
    push_item-IsIndexed c hc =
        index-push_item (item (push_item h p).items c)
        ∙ elim (Bool-cases (ltb c (length h.items))) [
          | inl old ↦ ground (arith, item-push_item c, v.indexed c, fresh_at c)
          | inr last ↦
              let e : c ≡ length h.items = ground (arith, length-push_item) in
              rw e (ground (arith, item-push_item_last))
        ]

    push_item-UpInv : UpInv less order (length h.items + 1) (push_item h p) (length h.items)
    push_item-UpInv = record {
      inside = omega arith;
      room = omega (arith, length-push_item);
      edges = λ c p' q r.
          less_same less order h.store (push_item h p).store _ _ push_item-SameMessages
          ∙ ground (
            arith,
            v.ordered c,
            item-push_item c (omega arith),
            item-push_item (parent c) (omega arith),
          );
      bridged = λ c p' q r t. absurd (omega arith);
    }

    -- Pushing an item that is not in a heap gives a heap of it and the old items, in which each item
    -- knows its position; no message changes but for positions, and nothing else changes at all.
    pub heap_push-Pushed : Pushed less h p (heap_push less h p)
    unfolding heap_push
    heap_push-Pushed =
        let last : length (push_item h p).items - 1 ≡ length h.items =
          omega (arith, length-push_item) in
        let size : length (push_item h p).items ≡ length h.items + 1 = length-push_item in
        rw (last, size)
          (lifted (
            up-Swaps (length h.items + 1) less (push_item h p) (length h.items) (length h.items + 1)
              (omega arith)))
      where
        lifted :
            Swaps
              (length h.items + 1)
              (push_item h p)
              (up (length h.items + 1) less (push_item h p) (length h.items))
            → Pushed less h p (up (length h.items + 1) less (push_item h p) (length h.items))
        lifted run = record {
          valid = record {
            ordered = rw (Swaps-length run ∙ length-push_item) (
                up_restores less order (length h.items + 1) (length h.items + 1) (push_item h p)
                  (length h.items) (omega arith) push_item-UpInv);
            indexed = Swaps-IsIndexed (omega (arith, length-push_item)) run push_item-IsIndexed;
          };
          items =
              Perm.trans (Swaps-perm (omega (arith, length-push_item)) run)
                (unfold push_item in concat-perm h.items p);
          messages =
              SameMessages-trans h.store (push_item h p).store _ push_item-SameMessages
                (Swaps-SameMessages run);
          frame = λ q absent other.
              Swaps-frame q (omega (arith, length-push_item)) run (Absent-push_item q absent other)
              ∙ store-push_item q other;
        }
