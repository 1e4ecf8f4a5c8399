-- ===== src/Queue/Heap/Sift.antt =====
-- The heap order under up and down of container/heap.
use queuemaxxing.Base.{
  ℕ, zero, suc, ◌+◌, ◌*◌, ◌<◌, ◌≤◌, ◌≡◌, ◌≢◌, true, false, Bool-cases, inl, inr, not, ◌||◌, length,
  ◌==◌, leb, arith,
}
use queuemaxxing.Queue.Heap.{Less, Heap, item, less_at, swap, smaller_child, up, down}
use queuemaxxing.Queue.Heap.Swaps.{length-swap}
use queuemaxxing.Queue.Heap.Order.{IsOrder, parent, InOrder, IsHeapTo, IsBridged, less_at-swap}

module _ (less : Less) (order : IsOrder less) where
  -- only the edge above `i` may be out of order
  pub record UpInv (n : ℕ) (h : Heap) (i : ℕ) : Type 0 where
    pub inside : i < n
    pub room : n ≤ length h.items
    pub edges : (c : ℕ) → 0 < c → c < n → c ≢ i → InOrder less h (parent c) c
    pub bridged : IsBridged less n h i

  -- only the edges below `i` may be out of order
  pub record DownInv (n : ℕ) (h : Heap) (i : ℕ) : Type 0 where
    pub inside : i < n
    pub room : n ≤ length h.items
    pub edges : (c : ℕ) → 0 < c → c < n → parent c ≢ i → InOrder less h (parent c) c
    pub bridged : IsBridged less n h i

  module _ (n : ℕ) (h : Heap) where
    pub asym_at : (a b : ℕ) → less_at less h a b ≡ true → less_at less h b a ≡ false
    asym_at a b e = order.asym (h.store (item h.items a)) (h.store (item h.items b)) e

    pub trans_at : (a b c : ℕ) → InOrder less h a b → InOrder less h b c → InOrder less h a c
    trans_at a b c p q =
        order.trans (h.store (item h.items a)) (h.store (item h.items b)) (h.store (item h.items c))
          p q

    swap-UpInv :
        (i : ℕ)
        → UpInv n h i
        → 0 < i
        → less_at less h i (parent i) ≡ true
        → UpInv n (swap h (parent i) i) (parent i)
    swap-UpInv i v pos below =
        let hi : i < length h.items = omega (arith, v.inside, v.room) in
        let hp : parent i < length h.items = omega (arith, v.inside, v.room) in
        let at = less_at-swap less order h (parent i) i hp hi in
        record {
          inside = omega (arith, v.inside);
          room = omega (arith, v.room, length-swap h (parent i) i);
          edges = λ c p q r. ground (
            arith,
            at c (parent c),
            v.edges c,
            v.bridged c,
            asym_at i (parent i),
            trans_at i (parent i) c,
          );
          bridged = λ c p q r t. ground (
            arith,
            at c (parent (parent i)),
            v.edges c,
            v.edges (parent i),
            trans_at (parent (parent i)) (parent i) c,
          );
        }

    pub smaller_child_least :
        (i c : ℕ)
        → 2 * i + 1 < n
        → 0 < c
        → c < n
        → parent c ≡ i
        → InOrder less h (smaller_child less h i n) c
    smaller_child_least i c room p q e = ground (
      arith,
      asym_at (2 * i + 1) (2 * i + 1),
      asym_at (2 * i + 1 + 1) (2 * i + 1 + 1),
      asym_at (2 * i + 1 + 1) (2 * i + 1),
    )

    pub smaller_child_cases :
        (i : ℕ)
        → 2 * i + 1 < n
        → (smaller_child less h i n < n)
          × (0 < smaller_child less h i n)
          × (parent (smaller_child less h i n) ≡ i)
    smaller_child_cases i room = (ground arith, ground arith, ground arith)

    swap-DownInv :
        (i m : ℕ)
        → DownInv n h i
        → m < n
        → 0 < m
        → parent m ≡ i
        → ((c : ℕ) → 0 < c → c < n → parent c ≡ i → InOrder less h m c)
        → less_at less h m i ≡ true
        → DownInv n (swap h i m) m
    swap-DownInv i m v hm pos child least below =
        let hi : i < length h.items = omega (arith, v.inside, v.room) in
        let hm' : m < length h.items = omega (arith, v.room) in
        let at = less_at-swap less order h i m hi hm' in
        record {
          inside = hm;
          room = omega (arith, v.room, length-swap h i m);
          edges = λ c p q r.
              ground (arith, at c (parent c), v.edges c, v.bridged m, least c, asym_at m i);
          bridged = λ c p q r t. ground (arith, at c (parent m), v.edges c);
        }

  pub up_restores :
      (fuel n : ℕ) (h : Heap) (j : ℕ) → j < fuel → UpInv n h j → IsHeapTo less n (up fuel less h j)
  unfolding up
  up_restores zero n h j f v = absurd (omega arith)
  up_restores (suc fuel) n h j f v =
      elim (Bool-cases (parent j == j || not (less_at less h j (parent j)))) [
        | inl e ↦ rw e (λ c p q. ground (arith, v.edges c))
        | inr e ↦ rw e (
            up_restores fuel n (swap h (parent j) j) (parent j) (ground arith)
              (swap-UpInv n h j v (ground arith) (ground arith)))
      ]

  pub down_restores :
      (fuel n : ℕ) (h : Heap) (i : ℕ)
      → n < fuel + i
      → DownInv n h i
      → IsHeapTo less n (down fuel less h i n)
  unfolding down
  down_restores zero n h i f v = absurd (omega (arith, v.inside))
  down_restores (suc fuel) n h i f v =
      let m = smaller_child less h i n in
      elim (Bool-cases (leb n (2 * i + 1))) [
        | inl leaf ↦ rw leaf (λ c p q. v.edges c p q (ground arith))
        | inr inner ↦
            let room : 2 * i + 1 < n = ground arith in
            let child = smaller_child_cases n h i room in
            let least = smaller_child_least n h i in
            elim (Bool-cases (less_at less h m i)) [
              | inl below ↦
                  rw (inner, below)
                    (down_restores fuel n (swap h i m) m (omega (arith, child))
                      (swap-DownInv n h i m v child.0 child.1 child.2 (λ c. least c room) below))
              | inr settled ↦
                  rw (inner, settled)
                    (λ c p q. ground (arith, v.edges c, least c room, trans_at n h i m c))
            ]
      ]
