-- ===== src/Queue/Scheduling/Alarm.antt =====
-- What the armed timer of runScheduler has to cover: the delays and deadlines of a queue. The heap
-- pushes of internal/queue/queue.go, which kick the scheduler where the pushed message leads.
use queuemaxxing.Base.{
  ℕ, ◌<◌, ◌≡◌, sym, ap, ◌∙◌, not, Bool, true, false, Option-cases, inl, inr, Option, none, some,
  List, ℤ, count, count-perm, count-get_or, ◌==◌, arith,
}
use queuemaxxing.Queue.Clock.{Time, before}
use queuemaxxing.Queue.Message.{Message}
use queuemaxxing.Queue.Heap.{Store, Less, Heap, peek}
use queuemaxxing.Queue.Heap.Swaps.{SameMessages}
use queuemaxxing.Queue.Heap.Order.{IsOrder}
use queuemaxxing.Queue.Heap.Contract.{Pushed}
use queuemaxxing.Queue.Engine.State.{Queue, leads}
use queuemaxxing.Queue.Places.Due.{peek-item}
use queuemaxxing.Queue.Places.Awake.{peek-none, head_first}

-- whether a timer that is armed for the first time, if for any, fires no later than the second
abbrev pub serves : Option Time → Time → Bool
serves none t = false
serves (some alarm) t = not (before t alarm)

-- whether it is armed for every delay and every deadline
pub record Serves (alarm : Option Time) (store : Store) (ds es : List ℕ) : Type 0 where
  pub delays : (a : ℕ) → 0 < count a ds → serves alarm (store a).available_at ≡ true
  pub deliveries : (a : ℕ) → 0 < count a es → serves alarm (store a).deadline ≡ true

abbrev pub Covers : Option Time → Queue → Type 0
Covers alarm q = Serves alarm q.store q.delayed q.expiry

-- where no kick is pending
abbrev pub Watched : Option Time → Queue → Type 0
Watched alarm q = q.kick ≡ false → Covers alarm q

serves_later :
    (alarm : Option Time) (s t : Time)
    → serves alarm s ≡ true
    → before t s ≡ false
    → serves alarm t ≡ true
serves_later none s t h late = cc
serves_later (some x) s t h late = ground arith

module _ (alarm : Option Time) (less : Less) (order : IsOrder less) (time : Message → Time)
    (timed : (m n : Message) → less m n ≡ before (time m) (time n))
    (blind : (m : Message) (i : ℤ) → time (record m { index = i }) ≡ time m) where
  pub same_time : (s t : Store) → SameMessages s t → (a : ℕ) → time (t a) ≡ time (s a)
  same_time s t same a = ap time (same a) ∙ blind (s a) (t a).index

  -- A pushed message that does not lead its heap is no earlier than one that was there.
  pub serves-heap_push :
      (h h' : Heap) (p : ℕ)
      → Pushed less h p h'
      → ((a : ℕ) → 0 < count a h.items → serves alarm (time (h.store a)) ≡ true)
      → leads p h'.items ≡ false
      → (a : ℕ) → 0 < count a h'.items
      → serves alarm (time (h'.store a)) ≡ true
  serves-heap_push h h' p pushed served behind a inside = elim (Option-cases (peek h'.items)) [
    | inl e ↦ absurd (omega (arith, ap (count a) (peek-none h'.items e)))
    | inr (r, e) ↦
        let (some_left, is) = peek-item h'.items r e in
        let other : (r == p) ≡ false = rw (e, leads) at behind in
        let stands : 0 < count r h'.items = rw is at (count-get_or h'.items 0 0 some_left) in
        let was : 0 < count r h.items = ground (arith, count-perm r pushed.items) in
        serves_later alarm (time (h'.store r)) (time (h'.store a))
          (ap (serves alarm) (same_time h.store h'.store pushed.messages r) ∙ served r was)
          (sym (timed (h'.store a) (h'.store r))
            ∙ head_first less order h' r a pushed.valid e inside)
  ]
