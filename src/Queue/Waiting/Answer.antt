-- ===== src/Queue/Waiting/Answer.antt =====
-- Receive of internal/queue/queue.go comes back.
use queuemaxxing.Base.{
  ℕ, ◌≡◌, refl, sym, ap, ◌∙◌, not, Bool, true, false, Bool-cases, inl, inr, Option, none, List, ℤ,
  length, ◌==◌, Result, arith, if◌then◌else◌, ◌+◌, ◌<◌, ◌||◌, ◌⊎◌, zero, suc, Inevitable, reached,
  ahead,
}
use queuemaxxing.Queue.Clock.{Time, before}
use queuemaxxing.Queue.Message.{Delivery}
use queuemaxxing.Queue.Engine.State.{QueueError, CallEnv, Queue}
use queuemaxxing.Queue.Engine.Operations.{is_positive, Round, returned, waits, receive_round}
use queuemaxxing.Queue.Waiting.Receiver.{
  Place, checking, asleep, answered, Receiver, round_ended, check, ring, warn, Own, checks, resumes,
  rings, warns, Reach,
}
use queuemaxxing.Queue.Waiting.Asleep.{waits-FoundNothing, is_waiting, IsSound, resumed-IsSound}
use queuemaxxing.Queue.Waiting.Stranded.{Own-IsSound, Reach-IsSound}

module _ (visibility wait : ℤ) (cancellable : Bool) where
  -- a message to hand out, or another reason to return
  unfoldable pub has_reason : Receiver → Bool
  has_reason s =
      not (is_positive wait)
      || not (length s.queue.ready == 0)
      || s.queue.closed
      || not (before s.clock s.deadline)
      || s.cancelled

  abbrev pub IsAnswered : Receiver → Type 0
  IsAnswered s = (r : Result QueueError (Option Delivery)) × (s.place ≡ answered r)

  -- the broadcasts that are to come
  abbrev pending : Receiver → ℕ
  pending s = (if s.timer_pending then 1 else 0) + (if s.watching then 1 else 0)

  abbrev Comes : Receiver → Type 0
  Comes s = Inevitable (Own visibility wait cancellable) IsAnswered s

  abbrev ComesBelow : ℕ → Type 0
  ComesBelow n =
      (s : Receiver)
      → IsSound visibility wait cancellable s
      → is_waiting s.place ≡ true
      → has_reason s ≡ true
      → pending s < n
      → Comes s

  check-answers :
      (s : Receiver) (env : CallEnv)
      → env.now ≡ s.clock
      → has_reason s ≡ true
      → IsAnswered (check visibility wait cancellable env s)
  unfolding check has_reason round_ended
  check-answers s env same reason =
      by_round (receive_round env visibility wait s.deadline s.cancelled s.queue).0 refl
    where
      by_round :
          (round : Round)
          → (receive_round env visibility wait s.deadline s.cancelled s.queue).0 ≡ round
          → IsAnswered (check visibility wait cancellable env s)
      by_round (returned r) e = (r, unfold check in simp (e, round_ended))
      by_round waits e =
          let f = waits-FoundNothing env visibility wait s.deadline s.cancelled s.queue e in
          absurd (
            ground (
              arith,
              f.open_,
              f.nothing_ready,
              f.may_wait,
              f.going,
              ap (λ t. before t s.deadline) (sym same) ∙ f.early,
            ))

  module _ (n : ℕ) (below : ComesBelow n) (s : Receiver) (i : IsSound visibility wait cancellable s)
      (reason : has_reason s ≡ true) (few : pending s < suc n) where
    from_ring :
        is_waiting s.place ≡ true
        → s.timer_pending ≡ true
        → before s.clock s.deadline ≡ false
        → Comes (ring visibility wait cancellable s)
    unfolding ring has_reason
    from_ring up armed late =
        below (ring visibility wait cancellable s)
          (Own-IsSound visibility wait cancellable s _ i (rings armed late)) up reason
          (ground arith)

    from_warn :
        is_waiting s.place ≡ true
        → s.watching ≡ true
        → s.cancelled ≡ true
        → Comes (warn visibility wait cancellable s)
    unfolding warn has_reason
    from_warn up on gone =
        below (warn visibility wait cancellable s)
          (Own-IsSound visibility wait cancellable s _ i (warns on gone)) up reason (ground arith)

    checked : s.place ≡ checking → (r : Receiver) → Own visibility wait cancellable s r → Comes r
    checked at _ (checks env _ same) = reached (check-answers s env same reason)
    checked at _ (resumes e _) = absurd (ground arith)
    checked at _ (rings armed late) = from_ring (ap is_waiting at) armed late
    checked at _ (warns on gone) = from_warn (ap is_waiting at) on gone

    abbrev plain_env : CallEnv
    plain_env = record { now = s.clock; token = none; append_error = none; compact_error = none }

    from_checking : s.place ≡ checking → Comes s
    from_checking at =
        ahead (check visibility wait cancellable plain_env s) (checks plain_env at refl)
          (checked at)

  module _ (n : ℕ) (below : ComesBelow n) (s : Receiver) (i : IsSound visibility wait cancellable s)
      (reason : has_reason s ≡ true) (few : pending s < suc n) where
    from_resumed : s.place ≡ asleep → Comes (record s { place = checking })
    unfolding has_reason
    from_resumed at =
        from_checking n below (record s { place = checking })
          (resumed-IsSound visibility wait cancellable s i at) reason few refl

    slept : s.place ≡ asleep → (r : Receiver) → Own visibility wait cancellable s r → Comes r
    slept at _ (checks env e _) = absurd (ground arith)
    slept at _ (resumes e told) = from_resumed at
    slept at _ (rings armed late) = from_ring n below s i reason few (ap is_waiting at) armed late
    slept at _ (warns on gone) = from_warn n below s i reason few (ap is_waiting at) on gone

    -- what wakes the call for another reason than a broadcast
    late_or_gone :
        s.place ≡ asleep
        → s.queue.signalled ≡ false
        → (before s.clock s.deadline ≡ false) ⊎ (s.cancelled ≡ true)
    unfolding has_reason
    late_or_gone at quiet =
        let lull = i.lull at quiet in
        let patient = i.patient at in
        let empty : (length s.queue.ready == 0) ≡ true =
          ap (λ (l : List ℕ). length l == 0) lull.0 in
        elim (Bool-cases (before s.clock s.deadline)) [
          | inl early ↦ inr (ground (arith, lull.1))
          | inr late ↦ inl late
        ]

    from_asleep : s.place ≡ asleep → Comes s
    from_asleep at = elim (Bool-cases s.queue.signalled) [
      | inl told ↦ ahead (record s { place = checking }) (resumes at told) (slept at)
      | inr quiet ↦ elim (late_or_gone at quiet) [
        | inl late ↦
            ahead (ring visibility wait cancellable s) (rings (i.ringing at quiet) late) (slept at)
        | inr gone ↦
            ahead (warn visibility wait cancellable s)
              (warns (i.warning at quiet (i.stoppable gone)) gone) (slept at)
      ]
    ]

    by_place : (p : Place) → s.place ≡ p → is_waiting s.place ≡ true → Comes s
    by_place checking at up = from_checking n below s i reason few at
    by_place asleep at up = from_asleep at
    by_place (answered r) at up = absurd (ground arith)

  comes : (n : ℕ) → ComesBelow n
  comes zero s i up reason few = absurd (omega arith)
  comes (suc n) s i up reason few = by_place n (comes n) s i reason few s.place refl up

-- From any state that other calls, rounds of the scheduler, ticks of the clock, cancellations and
-- closings have led to since a Receive was entered: if a message is ready, the queue is closed, its wait
-- is over or was none, or its context is cancelled, then of itself, with its timer and its watcher, it
-- comes back, in whatever order the three take their steps and whatever tokens are drawn.
pub receive_comes_back :
    (visibility wait : ℤ) (cancellable : Bool) (now : Time) (q : Queue) (s : Receiver)
    → Reach visibility wait cancellable now q s
    → is_waiting s.place ≡ true
    → has_reason visibility wait cancellable s ≡ true
    → Inevitable (Own visibility wait cancellable) (IsAnswered visibility wait cancellable) s
receive_comes_back visibility wait cancellable now q s run up reason =
    comes visibility wait cancellable 3 s (Reach-IsSound visibility wait cancellable now q s run) up
      reason (ground arith)
