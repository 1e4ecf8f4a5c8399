-- ===== src/Queue/Heap/Order.antt =====
-- The heap order, over any comparator that is a weak order and does not read positions, as those of
-- newReadyHeap, newDelayedHeap and newExpiryHeap.
use queuemaxxing.Base.{
  ℕ, zero, suc, ◌-◌, ◌/◌, ◌<◌, ◌≡◌, refl, ap, ◌∙◌, true, false, ℤ, length, ◌==◌, if◌then◌else◌,
  arith,
}
use queuemaxxing.Queue.Message.{Message, Ordering, fifo, lifo}
use queuemaxxing.Queue.Heap.{
  Store, Less, Heap, item, less_at, swap, ready_less, delayed_less, expiry_less,
}
use queuemaxxing.Queue.Heap.Swaps.{SameMessages, swap-SameMessages, item-swap}

-- `less b a ≡ false` says that `a` need not come behind `b`.
pub record IsOrder (less : Less) : Type 0 where
  pub asym : (a b : Message) → less a b ≡ true → less b a ≡ false
  pub trans : (a b c : Message) → less b a ≡ false → less c b ≡ false → less c a ≡ false
  pub blind :
      (a b : Message) (i j : ℤ) → less (record a { index = i }) (record b { index = j }) ≡ less a b

pub ready_less-IsOrder : (o : Ordering) → IsOrder (ready_less o)
unfolding ready_less
ready_less-IsOrder fifo = record {
  asym = λ a b h. ground arith;
  trans = λ a b c h k. ground arith;
  blind = λ a b i j. refl;
}
ready_less-IsOrder lifo = record {
  asym = λ a b h. ground arith;
  trans = λ a b c h k. ground arith;
  blind = λ a b i j. refl;
}

pub delayed_less-IsOrder : IsOrder delayed_less
unfolding delayed_less
delayed_less-IsOrder = record {
  asym = λ a b h. ground arith;
  trans = λ a b c h k. ground arith;
  blind = λ a b i j. refl;
}

pub expiry_less-IsOrder : IsOrder expiry_less
unfolding expiry_less
expiry_less-IsOrder = record {
  asym = λ a b h. ground arith;
  trans = λ a b c h k. ground arith;
  blind = λ a b i j. refl;
}

abbrev pub parent : ℕ → ℕ
parent c = (c - 1) / 2

-- `a` need not come behind `b`
abbrev pub InOrder : Less → Heap → ℕ → ℕ → Type 0
InOrder less h a b = less_at less h b a ≡ false

-- every edge among the first `n` items is in order
abbrev pub IsHeapTo : Less → ℕ → Heap → Type 0
IsHeapTo less n h = (c : ℕ) → 0 < c → c < n → InOrder less h (parent c) c

-- the edges past `i`, from its parent to its children, are in order
abbrev pub IsBridged : Less → ℕ → Heap → ℕ → Type 0
IsBridged less n h i = (c : ℕ) → 0 < c → c < n → parent c ≡ i → 0 < i → InOrder less h (parent i) c

module _ (less : Less) (order : IsOrder less) where
  pub less_same : (s t : Store) (p q : ℕ) → SameMessages s t → less (t p) (t q) ≡ less (s p) (s q)
  less_same s t p q same =
      ap (λ m. less m (t q)) (same p)
      ∙ ap (λ m. less (record (s p) { index = (t p).index }) m) (same q)
      ∙ order.blind (s p) (s q) (t p).index (t q).index

  -- what an exchange makes of a comparison
  pub less_at-swap :
      (h : Heap) (i j : ℕ)
      → i < length h.items
      → j < length h.items
      → (a b : ℕ)
      → less_at less (swap h i j) a b
        ≡ less_at less h
            (if j == a then i else if i == a then j else a)
            (if j == b then i else if i == b then j else b)
  less_at-swap h i j hi hj a b =
      less_same h.store (swap h i j).store _ _ (swap-SameMessages h i j)
      ∙ ap (λ p. less (h.store p) (h.store (item (swap h i j).items b))) (at a)
      ∙ ap
          (λ p.
            less (h.store (item h.items (if j == a then i else if i == a then j else a)))
              (h.store p))
          (at b)
    where
      at :
          (c : ℕ)
          → item (swap h i j).items c ≡ item h.items (if j == c then i else if i == c then j else c)
      at c = ground (arith, item-swap h i j hi hj c)

  root_least_below :
      (k n : ℕ) (h : Heap) (i : ℕ) → IsHeapTo less n h → i < k → i < n → InOrder less h 0 i
  root_least_below zero n h i v f p = absurd (omega arith)
  root_least_below (suc k) n h zero v f p =
      let m = h.store (item h.items 0) in ground (arith, order.asym m m)
  root_least_below (suc k) n h (suc i) v f p =
      order.trans (h.store (item h.items 0)) (h.store (item h.items (parent (suc i))))
        (h.store (item h.items (suc i)))
        (root_least_below k n h (parent (suc i)) v (omega arith) (omega arith))
        (v (suc i) (omega arith) p)

  -- nothing in a heap comes before its root
  pub root_least : (n : ℕ) (h : Heap) (i : ℕ) → IsHeapTo less n h → i < n → InOrder less h 0 i
  root_least n h i v p = root_least_below (suc i) n h i v (omega arith) p
