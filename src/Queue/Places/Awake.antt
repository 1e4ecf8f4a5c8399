-- ===== src/Queue/Places/Awake.antt =====
-- What processDue of scheduler.go promises to the goroutine that calls it.
use queuemaxxing.Base.{
  ℕ, ◌<◌, ◌≡◌, refl, sym, ap, ◌∙◌, Bool, true, false, Option-cases, inl, inr, none, some, List, [],
  ◌∷◌, length, count, get_or-count, arith, if◌then◌else◌,
}
use queuemaxxing.Queue.Clock.{Time, after, before}
use queuemaxxing.Queue.Heap.{Less, Heap, item, peek, delayed_less, expiry_less}
use queuemaxxing.Queue.Heap.Order.{IsOrder, root_least, delayed_less-IsOrder, expiry_less-IsOrder}
use queuemaxxing.Queue.Heap.Contract.{IsHeap}
use queuemaxxing.Queue.Engine.State.{Queue, heap_of, broadcast}
use queuemaxxing.Queue.Engine.Scheduler.{promote_due, expire_due, next_due, process_due}
use queuemaxxing.Queue.Places.{IsValid}
use queuemaxxing.Queue.Places.Steps.{nothing, Moved}
use queuemaxxing.Queue.Places.Due.{Moved-trans, peek-item}
use queuemaxxing.Queue.Places.Wakeup.{
  DelaysWait, DeliveriesWait, IsAwake, promote_due-Promoted, expire_due-Expired,
}

pub peek-none : (items : List ℕ) → peek items ≡ none → items ≡ []
peek-none [] e = refl
peek-none (x ∷ items) e = cc

-- nothing in a heap comes before its head
pub head_first :
    (less : Less) (order : IsOrder less) (h : Heap) (p a : ℕ)
    → IsHeap less h
    → peek h.items ≡ some p
    → 0 < count a h.items
    → less (h.store a) (h.store p) ≡ false
head_first less order h p a v head inside =
    let (c, within, is) = get_or-count a h.items 0 inside in
    let least = root_least less order (length h.items) h c v.ordered within in
    ap (λ x. less (h.store x) (h.store p)) (sym is)
    ∙ ap (λ x. less (h.store (item h.items c)) (h.store x)) (sym (peek-item h.items p head).1)
    ∙ least

module _ (q : Queue) (v : IsValid q) where
  delayed_first :
      (p a : ℕ)
      → peek q.delayed ≡ some p
      → 0 < count a q.delayed
      → before (q.store a).available_at (q.store p).available_at ≡ false
  unfolding delayed_less
  delayed_first p a =
      head_first delayed_less delayed_less-IsOrder (heap_of q q.delayed) p a v.placed.delays.heap

  delivered_first :
      (p a : ℕ)
      → peek q.expiry ≡ some p
      → 0 < count a q.expiry
      → before (q.store a).deadline (q.store p).deadline ≡ false
  unfolding expiry_less
  delivered_first p a =
      head_first expiry_less expiry_less-IsOrder (heap_of q q.expiry) p a v.placed.deliveries.heap

  waiting-IsAwake :
      (now : Time) → DelaysWait now q → DeliveriesWait now q → IsAwake now (next_due q) q
  waiting-IsAwake now later running = record {
    delays = λ a inside. elim (Option-cases (peek q.delayed)) [
      | inl e ↦ absurd (omega (arith, ap (count a) (peek-none q.delayed e)))
      | inr (p, e) ↦ ground (arith, later p e, delayed_first p a e inside)
    ];
    deliveries = λ a inside. elim (Option-cases (peek q.expiry)) [
      | inl e ↦ absurd (omega (arith, ap (count a) (peek-none q.expiry e)))
      | inr (p, e) ↦ ground (arith, running p e, delivered_first p a e inside)
    ];
    idle = λ e. (peek-none q.delayed (idle_delayed e), peek-none q.expiry (idle_expiry e));
    before_delays = λ t e a inside. elim (Option-cases (peek q.delayed)) [
      | inl d ↦ absurd (omega (arith, ap (count a) (peek-none q.delayed d)))
      | inr (p, d) ↦ ground (arith, soon_delayed t e p d, delayed_first p a d inside)
    ];
    before_deliveries = λ t e a inside. elim (Option-cases (peek q.expiry)) [
      | inl d ↦ absurd (omega (arith, ap (count a) (peek-none q.expiry d)))
      | inr (p, d) ↦ ground (arith, soon_expiry t e p d, delivered_first p a d inside)
    ];
  }
    where
      idle_delayed : next_due q ≡ none → peek q.delayed ≡ none
      idle_delayed e =
          unfold next_due in
          elim (Option-cases (peek q.expiry)) [ inl d ↦ ground arith | inr (p, d) ↦ ground arith ]

      idle_expiry : next_due q ≡ none → peek q.expiry ≡ none
      idle_expiry e = unfold next_due in ground arith

      soon_delayed :
          (t : Time)
          → next_due q ≡ some t
          → (p : ℕ) → peek q.delayed ≡ some p
          → before (q.store p).available_at t ≡ false
      soon_delayed t e p d = unfold next_due in ground arith

      soon_expiry :
          (t : Time)
          → next_due q ≡ some t
          → (p : ℕ) → peek q.expiry ≡ some p
          → before (q.store p).deadline t ≡ false
      soon_expiry t e p d = unfold next_due in ground arith

-- processDue moves messages and loses none, leaves no message delayed or delivered whose time has
-- come, and names a next moment that no delay and no deadline precedes, or none where there are none.
pub process_due-IsAwake :
    (now : Time) (q : Queue)
    → IsValid q
    → Moved q (process_due now q).1 nothing nothing
      × IsAwake now (process_due now q).0 (process_due now q).1
unfolding process_due
process_due-IsAwake now q v =
    let first = promote_due (length q.delayed) now (q, false) in
    let second = expire_due (length first.0.expiry) now first in
    let promoted = promote_due-Promoted now (length q.delayed) q false v (omega arith) in
    let expired =
      expire_due-Expired now (length first.0.expiry) first.0 first.1 promoted.0.valid
        (omega arith) in
    signalled second.1 second.0 (Moved-trans q first.0 second.0 promoted.0 expired.0)
      (λ p head.
        ap (λ t. after t now) (expired.3 p) ∙ promoted.1 p (ap peek (sym expired.2) ∙ head))
      expired.1
  where
    signalled :
        (b : Bool) (r : Queue)
        → Moved q r nothing nothing
        → DelaysWait now r
        → DeliveriesWait now r
        → Moved q (if b then broadcast r else r) nothing nothing
          × IsAwake now (next_due (if b then broadcast r else r)) (if b then broadcast r else r)
    signalled false r m d e = (m, waiting-IsAwake r m.valid now d e)
    signalled true r m d e =
        let m' : Moved q (broadcast r) nothing nothing = record {
          valid = record {
            placed = m.valid.placed;
            received = m.valid.received;
            unused = m.valid.unused;
          };
          balance = m.balance;
        } in
        (m', waiting-IsAwake (broadcast r) m'.valid now d e)
