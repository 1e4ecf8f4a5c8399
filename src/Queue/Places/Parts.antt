-- ===== src/Queue/Places/Parts.antt =====
-- One heap of a queue under the operations of container/heap.
use queuemaxxing.Base.{
  ℕ, ◌+◌, ◌-◌, ◌/◌, ◌<◌, ◌≡◌, ◌≢◌, sym, ap, ◌∙◌, Bool-cases, inl, inr, List, length, count,
  count-perm, count-get_or, ◌==◌, if◌then◌else◌, arith,
}
use queuemaxxing.Queue.Message.{Message, State}
use queuemaxxing.Queue.Heap.{Store, Less, Heap, item}
use queuemaxxing.Queue.Heap.Contract.{Pushed, Popped}
use queuemaxxing.Queue.Places.{Part}

-- the stores agree on the items
abbrev pub Agree : List ℕ → Store → Store → Type 0
Agree items s t = (p : ℕ) → 0 < count p items → t p ≡ s p

module _ (less : Less) (state : State) where
  pub Part-Agree :
      (s t : Store) (items : List ℕ)
      → Agree items s t
      → Part less state s items
      → Part less state t items
  Part-Agree s t items same part = record {
    heap = record {
      ordered = λ c p q.
          ap (λ m. less m (t (item items (parent_of c)))) (at c q)
          ∙ ap (less (s (item items c))) (at (parent_of c) (omega arith))
          ∙ part.heap.ordered c p q;
      indexed = λ c q. ap (λ (m : Message). m.index) (at c q) ∙ part.heap.indexed c q;
    };
    states = λ p h. ap (λ (m : Message). m.state) (same p h) ∙ part.states p h;
  }
    where
      parent_of : ℕ → ℕ
      parent_of c = (c - 1) / 2

      at : (c : ℕ) → c < length items → t (item items c) ≡ s (item items c)
      at c h = same (item items c) (count-get_or items c 0 h)

  module _ (s : Store) (items : List ℕ) (p : ℕ) (h : Heap) (part : Part less state s items) where
    pub Pushed-count :
        Pushed less (record { store = s; items = items }) p h
        → (a : ℕ) → count a h.items ≡ (if p == a then 1 else 0) + count a items
    Pushed-count pushed a = count-perm a pushed.items

    pub Popped-count :
        Popped less (record { store = s; items = items }) p h
        → (a : ℕ) → count a items ≡ (if p == a then 1 else 0) + count a h.items
    Popped-count popped a = sym (count-perm a popped.items)

    pub Part-push :
        (s p).state ≡ state
        → Pushed less (record { store = s; items = items }) p h
        → Part less state h.store h.items
    Part-push fits pushed = record {
      heap = pushed.valid;
      states = λ a inside.
          ap (λ (m : Message). m.state) (pushed.messages a) ∙ elim (Bool-cases (p == a)) [
            | inl e ↦ let same : p ≡ a = ground arith in rw same at fits
            | inr e ↦ part.states a (ground (arith, Pushed-count pushed a))
          ];
    }

    pub Part-pop :
        Popped less (record { store = s; items = items }) p h → Part less state h.store h.items
    Part-pop popped = record {
      heap = popped.valid;
      states = λ a inside.
          ap (λ (m : Message). m.state) (popped.messages a)
          ∙ part.states a (omega (arith, Popped-count popped a));
    }

-- parts in different states share no message
pub parts_disjoint :
    (less less' : Less) (state state' : State) (s : Store) (items items' : List ℕ) (p : ℕ)
    → Part less state s items
    → Part less' state' s items'
    → state ≢ state'
    → 0 < count p items
    → count p items' ≡ 0
parts_disjoint less less' state state' s items items' p part part' differ inside =
    elim (Bool-cases (count p items' == 0)) [
      | inl e ↦ ground arith
      | inr e ↦ absurd (differ (sym (part.states p inside) ∙ part'.states p (ground arith)))
    ]
