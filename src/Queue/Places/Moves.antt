-- ===== src/Queue/Places/Moves.antt =====
-- A message leaves one heap of the queue, changes, and enters another.
use queuemaxxing.Base.{ℕ, ◌<◌, ◌≡◌, ◌≢◌, sym, ap, List, count, count-perm, ne→==, arith}
use queuemaxxing.Queue.Message.{Message, ready, delayed, in_flight}
use queuemaxxing.Queue.Heap.{Heap, ready_less, delayed_less, expiry_less, update}
use queuemaxxing.Queue.Heap.Contract.{Pushed, Popped}
use queuemaxxing.Queue.Engine.State.{
  Queue, heap_of, with_ready, with_delayed, with_expiry, set_message,
}
use queuemaxxing.Queue.Places.{Placed}
use queuemaxxing.Queue.Places.Parts.{Agree, Part-Agree, Part-push, Part-pop, parts_disjoint}

abbrev pub IsPlaced : Queue → Type 0
IsPlaced q = Placed q.ordering q.store q.ready q.delayed q.expiry

-- in none of the heaps
abbrev pub Loose : ℕ → Queue → Type 0
Loose p q = (count p q.ready ≡ 0) × (count p q.delayed ≡ 0) × (count p q.expiry ≡ 0)

-- what is in one list is not the address that is in none
other_than : (p a : ℕ) (items : List ℕ) → count p items ≡ 0 → 0 < count a items → a ≢ p
other_than p a items absent inside e = omega (arith, ap (λ x. count x items) e)

module _ (q : Queue) (p : ℕ) (v : IsPlaced q) where
  pub set_message-IsPlaced : (m : Message) → Loose p q → IsPlaced (set_message q p m)
  unfolding set_message update
  set_message-IsPlaced m loose = record {
    readies = Part-Agree _ _ q.store _ q.ready (kept q.ready loose.0) v.readies;
    delays = Part-Agree _ _ q.store _ q.delayed (kept q.delayed loose.1) v.delays;
    deliveries = Part-Agree _ _ q.store _ q.expiry (kept q.expiry loose.2) v.deliveries;
  }
    where
      kept : (items : List ℕ) → count p items ≡ 0 → Agree items q.store (update q.store p m)
      kept items absent a inside = rw (ne→== p a (λ e. other_than p a items absent inside (sym e)))

  ready_apart : (a : ℕ) → 0 < count a q.ready → (count a q.delayed ≡ 0) × (count a q.expiry ≡ 0)
  ready_apart a inside = (
    parts_disjoint _ _ ready delayed q.store q.ready q.delayed a v.readies v.delays (λ e. cc)
        inside,
    parts_disjoint _ _ ready in_flight q.store q.ready q.expiry a v.readies v.deliveries (λ e. cc)
        inside,
  )

  delayed_apart : (a : ℕ) → 0 < count a q.delayed → (count a q.ready ≡ 0) × (count a q.expiry ≡ 0)
  delayed_apart a inside = (
    parts_disjoint _ _ delayed ready q.store q.delayed q.ready a v.delays v.readies (λ e. cc)
        inside,
    parts_disjoint _ _ delayed in_flight q.store q.delayed q.expiry a v.delays v.deliveries
        (λ e. cc) inside,
  )

  expiry_apart : (a : ℕ) → 0 < count a q.expiry → (count a q.ready ≡ 0) × (count a q.delayed ≡ 0)
  expiry_apart a inside = (
    parts_disjoint _ _ in_flight ready q.store q.expiry q.ready a v.deliveries v.readies (λ e. cc)
        inside,
    parts_disjoint _ _ in_flight delayed q.store q.expiry q.delayed a v.deliveries v.delays
        (λ e. cc) inside,
  )

  module _ (h : Heap) where
    pub with_ready-pop :
        Popped (ready_less q.ordering) (heap_of q q.ready) p h
        → IsPlaced (with_ready q h) × Loose p (with_ready q h)
    with_ready-pop popped =
        let was : 0 < count p q.ready = ground (arith, count-perm p popped.items) in
        (
          record {
            readies = Part-pop _ ready q.store q.ready p h v.readies popped;
            delays =
                Part-Agree _ _ q.store h.store q.delayed
                  (λ a inside. popped.frame a (delayed_apart a inside).0) v.delays;
            deliveries =
                Part-Agree _ _ q.store h.store q.expiry
                  (λ a inside. popped.frame a (expiry_apart a inside).0) v.deliveries;
          },
          (popped.gone, (ready_apart p was).0, (ready_apart p was).1),
        )

    pub with_delayed-pop :
        Popped delayed_less (heap_of q q.delayed) p h
        → IsPlaced (with_delayed q h) × Loose p (with_delayed q h)
    with_delayed-pop popped =
        let was : 0 < count p q.delayed = ground (arith, count-perm p popped.items) in
        (
          record {
            readies =
                Part-Agree _ _ q.store h.store q.ready
                  (λ a inside. popped.frame a (ready_apart a inside).0) v.readies;
            delays = Part-pop _ delayed q.store q.delayed p h v.delays popped;
            deliveries =
                Part-Agree _ _ q.store h.store q.expiry
                  (λ a inside. popped.frame a (expiry_apart a inside).1) v.deliveries;
          },
          ((delayed_apart p was).0, popped.gone, (delayed_apart p was).1),
        )

    pub with_expiry-pop :
        Popped expiry_less (heap_of q q.expiry) p h
        → IsPlaced (with_expiry q h) × Loose p (with_expiry q h)
    with_expiry-pop popped =
        let was : 0 < count p q.expiry = ground (arith, count-perm p popped.items) in
        (
          record {
            readies =
                Part-Agree _ _ q.store h.store q.ready
                  (λ a inside. popped.frame a (ready_apart a inside).1) v.readies;
            delays =
                Part-Agree _ _ q.store h.store q.delayed
                  (λ a inside. popped.frame a (delayed_apart a inside).1) v.delays;
            deliveries = Part-pop _ in_flight q.store q.expiry p h v.deliveries popped;
          },
          ((expiry_apart p was).0, (expiry_apart p was).1, popped.gone),
        )

    module _ (loose : Loose p q) where
      pub with_ready-push :
          (q.store p).state ≡ ready
          → Pushed (ready_less q.ordering) (heap_of q q.ready) p h
          → IsPlaced (with_ready q h)
      with_ready-push fits pushed = record {
        readies = Part-push _ ready q.store q.ready p h v.readies fits pushed;
        delays =
            Part-Agree _ _ q.store h.store q.delayed
              (λ a inside.
                pushed.frame a (delayed_apart a inside).0 (other_than p a q.delayed loose.1 inside))
              v.delays;
        deliveries =
            Part-Agree _ _ q.store h.store q.expiry
              (λ a inside.
                pushed.frame a (expiry_apart a inside).0 (other_than p a q.expiry loose.2 inside))
              v.deliveries;
      }

      pub with_delayed-push :
          (q.store p).state ≡ delayed
          → Pushed delayed_less (heap_of q q.delayed) p h
          → IsPlaced (with_delayed q h)
      with_delayed-push fits pushed = record {
        readies =
            Part-Agree _ _ q.store h.store q.ready
              (λ a inside.
                pushed.frame a (ready_apart a inside).0 (other_than p a q.ready loose.0 inside))
              v.readies;
        delays = Part-push _ delayed q.store q.delayed p h v.delays fits pushed;
        deliveries =
            Part-Agree _ _ q.store h.store q.expiry
              (λ a inside.
                pushed.frame a (expiry_apart a inside).1 (other_than p a q.expiry loose.2 inside))
              v.deliveries;
      }

      pub with_expiry-push :
          (q.store p).state ≡ in_flight
          → Pushed expiry_less (heap_of q q.expiry) p h
          → IsPlaced (with_expiry q h)
      with_expiry-push fits pushed = record {
        readies =
            Part-Agree _ _ q.store h.store q.ready
              (λ a inside.
                pushed.frame a (ready_apart a inside).1 (other_than p a q.ready loose.0 inside))
              v.readies;
        delays =
            Part-Agree _ _ q.store h.store q.delayed
              (λ a inside.
                pushed.frame a (delayed_apart a inside).1 (other_than p a q.delayed loose.1 inside))
              v.delays;
        deliveries = Part-push _ in_flight q.store q.expiry p h v.deliveries fits pushed;
      }
