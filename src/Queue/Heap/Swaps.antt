-- ===== src/Queue/Heap/Swaps.antt =====
-- The exchanges that up and down of container/heap make, and what every exchange keeps.
use mathlib.Core.List.Perm
use queuemaxxing.Base.{
  ℕ, zero, suc, ◌+◌, ◌-◌, ◌*◌, ◌/◌, ◌<◌, ◌≤◌, ◌≡◌, ◌≢◌, refl, sym, ap, ◌∙◌, Bool-cases, inl, inr,
  not, ◌||◌, Perm, ℤ, pos, length, leb, ◌==◌, ==_refl, ne→==, if◌then◌else◌, arith, exchange,
  length-exchange, get_or-exchange, exchange-perm, count, count-perm, count-get_or,
}
use queuemaxxing.Queue.Message.{Message}
use queuemaxxing.Queue.Heap.{
  Store, Less, Heap, set_index, item, less_at, swap, smaller_child, up, down,
}

-- The stores differ at most in the positions that messages keep.
abbrev pub SameMessages : Store → Store → Type 0
SameMessages s t = (q : ℕ) → t q ≡ record (s q) { index = (t q).index }

-- Every message knows its position.
abbrev pub IsIndexed : Heap → Type 0
IsIndexed h = (c : ℕ) → c < length h.items → (h.store (item h.items c)).index ≡ pos c

pub index-set_index :
    (s : Store) (p q : ℕ) (i : ℤ) → (set_index s p i q).index ≡ (if p == q then i else (s q).index)
unfolding set_index
index-set_index s p q i = ground arith

pub set_index-SameMessages : (s : Store) (p : ℕ) (i : ℤ) → SameMessages s (set_index s p i)
unfolding set_index
set_index-SameMessages s p i q = elim (Bool-cases (p == q)) [
  | inl e ↦ let same : p ≡ q = ground arith in rw (same, ==_refl q) refl
  | inr e ↦ rw e refl
]

pub set_index_frame : (s : Store) (p q : ℕ) (i : ℤ) → p ≢ q → set_index s p i q ≡ s q
unfolding set_index
set_index_frame s p q i differ = rw (ne→== p q differ)

pub SameMessages-trans : (s t u : Store) → SameMessages s t → SameMessages t u → SameMessages s u
SameMessages-trans s t u a b q = b q ∙ ap (λ (m : Message). record m { index = (u q).index }) (a q)

-- two messages of an indexed heap differ
pub item-ne :
    (h : Heap) (i j : ℕ)
    → IsIndexed h
    → i < length h.items
    → j < length h.items
    → i ≢ j
    → item h.items i ≢ item h.items j
item-ne h i j ix hi hj differ e =
    let same : pos i ≡ pos j = sym (ix i hi) ∙ ap (λ p. (h.store p).index) e ∙ ix j hj in
    differ (cc)

module _ (h : Heap) (i j : ℕ) where
  pub items-swap : (swap h i j).items ≡ exchange h.items i j 0
  unfolding swap
  items-swap = refl

  pub length-swap : length (swap h i j).items ≡ length h.items
  length-swap = rw items-swap (length-exchange h.items i j 0)

  abbrev half_swapped : Store
  half_swapped = set_index h.store (item (exchange h.items i j 0) i) (pos i)

  abbrev full_swapped : Store
  full_swapped = set_index half_swapped (item (exchange h.items i j 0) j) (pos j)

  pub swap-SameMessages : SameMessages h.store (swap h i j).store
  unfolding swap
  swap-SameMessages =
      SameMessages-trans h.store half_swapped full_swapped
        (set_index-SameMessages h.store (item (exchange h.items i j 0) i) (pos i))
        (set_index-SameMessages half_swapped (item (exchange h.items i j 0) j) (pos j))

  module _ (hi : i < length h.items) (hj : j < length h.items) where
    pub item-swap :
        (c : ℕ)
        → item (swap h i j).items c
          ≡ (if j == c then item h.items i else if i == c then item h.items j else item h.items c)
    item-swap c = rw items-swap (get_or-exchange h.items i j 0 hi hj c)

    pub swap-perm : Perm (swap h i j).items h.items
    swap-perm = rw items-swap (exchange-perm h.items i j 0 hi hj)

    -- a message that is not in the heap is left alone
    pub swap_frame : (q : ℕ) → count q h.items ≡ 0 → (swap h i j).store q ≡ h.store q
    unfolding swap
    swap_frame q absent =
        set_index_frame half_swapped (item (exchange h.items i j 0) j) q (pos j) (other j hj)
        ∙ set_index_frame h.store (item (exchange h.items i j 0) i) q (pos i) (other i hi)
      where
        other : (c : ℕ) → c < length h.items → item (exchange h.items i j 0) c ≢ q
        other c hc e = omega (
          arith,
          ap (λ a. count a (exchange h.items i j 0)) e,
          count-get_or (exchange h.items i j 0) c 0 (omega (arith, length-exchange h.items i j 0)),
          count-perm q (exchange-perm h.items i j 0 hi hj),
        )

    index-swap :
        (q : ℕ)
        → ((swap h i j).store q).index ≡ (
            if item (exchange h.items i j 0) j == q
            then pos j
            else if item (exchange h.items i j 0) i == q
            then pos i
            else (h.store q).index)
    unfolding swap
    index-swap q =
        index-set_index half_swapped (item (exchange h.items i j 0) j) q (pos j)
        ∙ ap (λ x. if item (exchange h.items i j 0) j == q then pos j else x)
            (index-set_index h.store (item (exchange h.items i j 0) i) q (pos i))

    pub swap-IsIndexed : IsIndexed h → IsIndexed (swap h i j)
    swap-IsIndexed ix c inside =
        let at = get_or-exchange h.items i j 0 hi hj in
        let here : c < length h.items = omega (arith, length-swap) in
        index-swap (item (swap h i j).items c)
        ∙ ground (
          arith,
          items-swap,
          at c,
          at i,
          at j,
          ix c here,
          ix i hi,
          ix j hj,
          item-ne h c i ix here hi,
          item-ne h c j ix here hj,
          item-ne h i j ix hi hj,
        )

-- A run of exchanges, all below `n`.
pub data Swaps (n : ℕ) : Heap → Heap → Type 0 where
  settled : {h : Heap} → Swaps n h h
  swapped : {h h' : Heap} (i j : ℕ) → i < n → j < n → Swaps n (swap h i j) h' → Swaps n h h'

pub Swaps-length : {n : ℕ} {h h' : Heap} → Swaps n h h' → length h'.items ≡ length h.items
Swaps-length settled = refl
Swaps-length {h = h} (swapped i j hi hj rest) = Swaps-length rest ∙ length-swap h i j

pub Swaps-SameMessages : {n : ℕ} {h h' : Heap} → Swaps n h h' → SameMessages h.store h'.store
Swaps-SameMessages settled = λ q. refl
Swaps-SameMessages {h = h} {h' = h'} (swapped i j hi hj rest) =
    SameMessages-trans h.store (swap h i j).store h'.store (swap-SameMessages h i j)
      (Swaps-SameMessages rest)

pub Swaps-perm : {n : ℕ} {h h' : Heap} → n ≤ length h.items → Swaps n h h' → Perm h'.items h.items
Swaps-perm room settled = Perm.rfl
Swaps-perm {h = h} room (swapped i j hi hj rest) =
    Perm.trans (Swaps-perm (omega (arith, length-swap h i j)) rest)
      (swap-perm h i j (omega arith) (omega arith))

pub Swaps-IsIndexed :
    {n : ℕ} {h h' : Heap} → n ≤ length h.items → Swaps n h h' → IsIndexed h → IsIndexed h'
Swaps-IsIndexed room settled ix = ix
Swaps-IsIndexed {h = h} room (swapped i j hi hj rest) ix =
    Swaps-IsIndexed (omega (arith, length-swap h i j)) rest
      (swap-IsIndexed h i j (omega arith) (omega arith) ix)

pub Swaps-frame :
    {n : ℕ} {h h' : Heap} (q : ℕ)
    → n ≤ length h.items
    → Swaps n h h'
    → count q h.items ≡ 0
    → h'.store q ≡ h.store q
Swaps-frame q room settled absent = refl
Swaps-frame {h = h} q room (swapped i j hi hj rest) absent =
    Swaps-frame q (omega (arith, length-swap h i j)) rest
      (count-perm q (swap-perm h i j (omega arith) (omega arith)) ∙ absent)
    ∙ swap_frame h i j (omega arith) (omega arith) q absent

-- what lies at `n` or behind stays where it is
pub Swaps-item :
    {n : ℕ} {h h' : Heap} (c : ℕ)
    → n ≤ length h.items
    → n ≤ c
    → Swaps n h h'
    → item h'.items c ≡ item h.items c
Swaps-item c room far settled = refl
Swaps-item {h = h} c room far (swapped i j hi hj rest) =
    Swaps-item c (omega (arith, length-swap h i j)) far rest
    ∙ ground (arith, item-swap h i j (omega arith) (omega arith) c)

pub Swaps-mono : {n m : ℕ} {h h' : Heap} → n ≤ m → Swaps n h h' → Swaps m h h'
Swaps-mono le settled = settled
Swaps-mono le (swapped i j hi hj rest) =
    swapped i j (omega arith) (omega arith) (Swaps-mono le rest)

pub up-Swaps : (fuel : ℕ) (less : Less) (h : Heap) (j n : ℕ) → j < n → Swaps n h (up fuel less h j)
unfolding up
up-Swaps zero less h j n hj = settled
up-Swaps (suc fuel) less h j n hj =
    elim (Bool-cases ((j - 1) / 2 == j || not (less_at less h j ((j - 1) / 2)))) [
      | inl e ↦ rw e settled
      | inr e ↦ rw e (
          swapped ((j - 1) / 2) j (omega arith) hj
            (up-Swaps fuel less (swap h ((j - 1) / 2) j) ((j - 1) / 2) n (omega arith)))
    ]

smaller_child_bound :
    (less : Less) (h : Heap) (i n : ℕ) → 2 * i + 1 < n → smaller_child less h i n < n
smaller_child_bound less h i n room = ground arith

pub down-Swaps : (fuel : ℕ) (less : Less) (h : Heap) (i n : ℕ) → Swaps n h (down fuel less h i n)
unfolding down
down-Swaps zero less h i n = settled
down-Swaps (suc fuel) less h i n =
    let j = smaller_child less h i n in
    elim (Bool-cases (leb n (2 * i + 1) || not (less_at less h j i))) [
      | inl e ↦ rw e settled
      | inr e ↦
          let room : 2 * i + 1 < n = ground arith in
          let hj : j < n = smaller_child_bound less h i n room in
          rw e (swapped i j (omega arith) hj (down-Swaps fuel less (swap h i j) j n))
    ]
