-- ===== src/Queue/Places/Wakeup.antt =====
-- The loops of processDue of scheduler.go, and what a queue is to be behind it.
use queuemaxxing.Base.{
  ℕ, zero, suc, ◌<◌, ◌≤◌, ◌≡◌, refl, ap, ◌∙◌, Bool, true, false, Option, none, some, List, [],
  length, count, arith,
}
use queuemaxxing.Queue.Clock.{Time, after, before}
use queuemaxxing.Queue.Heap.{peek}
use queuemaxxing.Queue.Engine.State.{Queue}
use queuemaxxing.Queue.Engine.Scheduler.{promote, expire, promote_due, expire_due}
use queuemaxxing.Queue.Places.{IsValid}
use queuemaxxing.Queue.Places.Steps.{nothing, Moved}
use queuemaxxing.Queue.Places.Due.{
  Moved-none, Moved-trans, peek-item, promote-Moved, promote_shorter, expire-Moved, expire_shorter,
  expire_delayed, expire_available,
}

module _ (now : Time) where
  -- one round of a loop of processDue
  pub loop_round :
      (Good : Queue × Bool → Type 0) (items : List ℕ) (time : ℕ → Time) (stop : Queue × Bool)
      (go : ℕ → Queue × Bool)
      → (peek items ≡ none → Good stop)
      → ((p : ℕ) → peek items ≡ some p → after (time p) now ≡ true → Good stop)
      → ((p : ℕ) → peek items ≡ some p → Good (go p))
      → (o : Option ℕ) → peek items ≡ o
      → Good (elim o as (λ _. Queue × Bool) [
        | none ↦ stop
        | some p ↦ elim (after (time p) now) as (λ _. Queue × Bool) [ true ↦ stop | false ↦ go p ]
      ])
  loop_round Good items time stop go empty early on none head = empty head
  loop_round Good items time stop go empty early on (some p) head = tested (after (time p) now) refl
    where
      tested :
          (b : Bool)
          → after (time p) now ≡ b
          → Good (elim b as (λ _. Queue × Bool) [ true ↦ stop | false ↦ go p ])
      tested true late = early p head late
      tested false late = on p head

  head_same : (items : List ℕ) (p p' : ℕ) → peek items ≡ some p → peek items ≡ some p' → p' ≡ p
  head_same items p p' e e' = cc

  -- the first to become available is not yet, if there is any
  abbrev pub DelaysWait : Queue → Type 0
  DelaysWait q = (p : ℕ) → peek q.delayed ≡ some p → after (q.store p).available_at now ≡ true

  abbrev pub DeliveriesWait : Queue → Type 0
  DeliveriesWait q = (p : ℕ) → peek q.expiry ≡ some p → after (q.store p).deadline now ≡ true

  abbrev pub Promoted : Queue → Queue × Bool → Type 0
  Promoted q r = Moved q r.0 nothing nothing × DelaysWait r.0

  pub promote_due-Promoted :
      (fuel : ℕ) (q : Queue) (changed : Bool)
      → IsValid q
      → length q.delayed ≤ fuel
      → Promoted q (promote_due fuel now (q, changed))
  unfolding promote_due
  promote_due-Promoted zero q changed v room =
      (Moved-none q v, λ p head. absurd (omega (arith, (peek-item q.delayed p head).0)))
  promote_due-Promoted (suc fuel) q changed v room =
      loop_round (Promoted q) q.delayed (λ p. (q.store p).available_at) (q, changed)
        (λ p. promote_due fuel now (promote q p, true)) (λ empty. (Moved-none q v, λ p head. cc))
        (λ p head late. (
          Moved-none q v,
          λ p' head'.
              ap (λ x. after (q.store x).available_at now) (head_same q.delayed p p' head head')
              ∙ late,
        ))
        (λ p head.
          let moved = promote-Moved q p v head in
          let rest =
            promote_due-Promoted fuel (promote q p) true moved.valid
              (omega (arith, promote_shorter q p v head)) in
          (Moved-trans q (promote q p) _ moved rest.0, rest.1))
        (peek q.delayed) refl

  abbrev pub Expired : Queue → Queue × Bool → Type 0
  Expired q r =
      Moved q r.0 nothing nothing
      × DeliveriesWait r.0
      × (r.0.delayed ≡ q.delayed)
      × ((a : ℕ) → (r.0.store a).available_at ≡ (q.store a).available_at)

  pub expire_due-Expired :
      (fuel : ℕ) (q : Queue) (changed : Bool)
      → IsValid q
      → length q.expiry ≤ fuel
      → Expired q (expire_due fuel now (q, changed))
  unfolding expire_due
  expire_due-Expired zero q changed v room = (
    Moved-none q v,
    (λ p head. absurd (omega (arith, (peek-item q.expiry p head).0))),
    refl,
    λ a. refl,
  )
  expire_due-Expired (suc fuel) q changed v room =
      loop_round (Expired q) q.expiry (λ p. (q.store p).deadline) (q, changed)
        (λ p. expire_due fuel now (expire q p, true))
        (λ empty. (Moved-none q v, (λ p head. cc), refl, λ a. refl))
        (λ p head late. (
          Moved-none q v,
          (λ p' head'.
              ap (λ x. after (q.store x).deadline now) (head_same q.expiry p p' head head') ∙ late),
          refl,
          λ a. refl,
        ))
        (λ p head.
          let moved = expire-Moved q p v head in
          let rest =
            expire_due-Expired fuel (expire q p) true moved.valid
              (omega (arith, expire_shorter q p v head)) in
          (
            Moved-trans q (expire q p) _ moved rest.0,
            rest.1,
            rest.2 ∙ expire_delayed q p v head,
            λ a. rest.3 a ∙ expire_available q p v head a,
          ))
        (peek q.expiry) refl

  -- What a queue is after processDue, with the next moment that it names.
  pub record IsAwake (next : Option Time) (q : Queue) : Type 0 where
    pub delays : (a : ℕ) → 0 < count a q.delayed → after (q.store a).available_at now ≡ true
    pub deliveries : (a : ℕ) → 0 < count a q.expiry → after (q.store a).deadline now ≡ true
    pub idle : next ≡ none → (q.delayed ≡ []) × (q.expiry ≡ [])
    pub before_delays :
        (t : Time)
        → next ≡ some t
        → (a : ℕ) → 0 < count a q.delayed
        → before (q.store a).available_at t ≡ false
    pub before_deliveries :
        (t : Time)
        → next ≡ some t
        → (a : ℕ) → 0 < count a q.expiry
        → before (q.store a).deadline t ≡ false
