-- ===== src/Queue/Scheduling/Progress.antt =====
-- What is due is processed: the steps of the goroutine and its timer once nothing else moves.
use queuemaxxing.Base.{
  ℕ, ◌<◌, ◌≡◌, refl, ap, ◌∙◌, true, false, Bool-cases, inl, inr, Option, none, some, count, arith,
  Inevitable, reached, ahead,
}
use queuemaxxing.Queue.Clock.{Time, after}
use queuemaxxing.Queue.Engine.State.{Queue}
use queuemaxxing.Queue.Places.{IsValid}
use queuemaxxing.Queue.Places.Awake.{process_due-IsAwake}
use queuemaxxing.Queue.Scheduling.Alarm.{serves, Watched}
use queuemaxxing.Queue.Scheduling.Goroutine.{
  Phase, waking, arming, selecting, stopped, is_done, System, wake, arm, on_timer, on_kick, fire,
  Own, wakes, arms, takes_timer, takes_kick, takes_done, fires, Reach,
}
use queuemaxxing.Queue.Scheduling.Invariant.{Resting, off, running, rung, Fits, IsSound}
use queuemaxxing.Queue.Scheduling.Sound.{selected, rung_due, Own-IsSound, Reach-IsSound}

-- No message is delayed or delivered whose time has come.
pub record IsCaughtUp (s : System) : Type 0 where
  pub delays :
      (a : ℕ) → 0 < count a s.queue.delayed → after (s.queue.store a).available_at s.clock ≡ true
  pub deliveries :
      (a : ℕ) → 0 < count a s.queue.expiry → after (s.queue.store a).deadline s.clock ≡ true

waking_only : (s : System) → IsSound s → s.phase ≡ waking → (r : System) → Own s r → r ≡ wake s
waking_only s i at _ (wakes _) = refl
waking_only s i at _ (arms next e) = absurd (ground arith)
waking_only s i at _ (takes_timer e _) = absurd (ground arith)
waking_only s i at _ (takes_kick e _) = absurd (ground arith)
waking_only s i at _ (takes_done e _) = absurd (ground arith)
waking_only s i at _ (fires t due _) =
    let f : Fits waking s.timer s.armed s.queue = rw at at i.fits in absurd (ground (arith, f.0.0))

wake-IsCaughtUp : (s : System) → IsSound s → IsCaughtUp (wake s)
unfolding wake
wake-IsCaughtUp s i =
    let done = process_due-IsAwake s.clock s.queue i.valid in
    record { delays = done.1.delays; deliveries = done.1.deliveries }

from_waking : (s : System) → IsSound s → s.phase ≡ waking → Inevitable Own IsCaughtUp s
from_waking s i at =
    ahead (wake s) (wakes at) (λ r o. rw (waking_only s i at r o) (reached (wake-IsCaughtUp s i)))

-- the cases of the select, but for a timer that fires now
from_select :
    (s : System)
    → IsSound s
    → s.phase ≡ selecting
    → is_done s.closing ≡ false
    → ((t : Time)
        → s.timer.due ≡ some t
        → after t s.clock ≡ false
        → Inevitable Own IsCaughtUp (fire s))
    → (r : System) → Own s r
    → Inevitable Own IsCaughtUp r
unfolding on_timer on_kick
from_select s i at busy rings _ (wakes e) = absurd (ground arith)
from_select s i at busy rings _ (arms next e) = absurd (ground arith)
from_select s i at busy rings _ (takes_timer e fired) =
    from_waking (on_timer s) (Own-IsSound s (on_timer s) i (takes_timer e fired)) refl
from_select s i at busy rings _ (takes_kick e kick) =
    from_waking (on_kick s) (Own-IsSound s (on_kick s) i (takes_kick e kick)) refl
from_select s i at busy rings _ (takes_done e done) = absurd (ground arith)
from_select s i at busy rings _ (fires t due now) = rings t due now

from_rung :
    (s : System)
    → IsSound s
    → s.phase ≡ selecting
    → is_done s.closing ≡ false
    → s.timer.fired ≡ true
    → Inevitable Own IsCaughtUp s
from_rung s i at busy fired = ahead (on_timer s) (takes_timer at fired) (
    from_select s i at busy (λ t due now.
      absurd (ground (arith, rung_due s i s.timer s.armed s.queue (selected s i at) fired))))

served_late :
    (clock : Time) (alarm : Option Time) (t : Time)
    → ((x : Time) → alarm ≡ some x → after x clock ≡ true)
    → serves alarm t ≡ true
    → after t clock ≡ true
served_late clock none t late h = cc
served_late clock (some x) t late h = ground (arith, late x refl)

module _ (s : System) (i : IsSound s) (at : s.phase ≡ selecting)
    (busy : is_done s.closing ≡ false) where
  fired_next :
      (t : Time)
      → s.timer.due ≡ some t
      → after t s.clock ≡ false
      → Inevitable Own IsCaughtUp (fire s)
  unfolding fire
  fired_next t due now =
      from_rung (fire s) (Own-IsSound s (fire s) i (fires t due now)) at busy refl

  step_on : (s' : System) → Own s s' → Inevitable Own IsCaughtUp s
  step_on s' o = ahead s' o (from_select s i at busy fired_next)

  -- no timer is due before the clock moves
  not_yet :
      ((x : Time) → s.timer.due ≡ some x → after x s.clock ≡ true)
      → Watched s.timer.due s.queue
      → Inevitable Own IsCaughtUp s
  not_yet late w = elim (Bool-cases s.queue.kick) [
    | inl kick ↦ step_on (on_kick s) (takes_kick at kick)
    | inr quiet ↦ reached (record {
      delays = λ a inside. served_late s.clock s.timer.due _ late ((w quiet).delays a inside);
      deliveries =
          λ a inside. served_late s.clock s.timer.due _ late ((w quiet).deliveries a inside);
    })
  ]

  from_rest : Resting s.timer s.armed s.queue → Inevitable Own IsCaughtUp s
  from_rest (off d a w) = not_yet (λ x due. absurd (ground (arith, d.0))) (rw d.0 w)
  from_rest (running t d n a w) = elim (Bool-cases (after t s.clock)) [
    | inl late ↦ not_yet (λ x due. ground arith) (rw d w)
    | inr now ↦ step_on (fire s) (fires t d now)
  ]
  from_rest (rung d f a) = from_rung s i at busy f

from_selecting :
    (s : System)
    → IsSound s
    → s.phase ≡ selecting
    → is_done s.closing ≡ false
    → Inevitable Own IsCaughtUp s
from_selecting s i at busy = from_rest s i at busy (selected s i at)

arm-selects : (next : Option Time) (s : System) → (arm next s).phase ≡ selecting
unfolding arm
arm-selects none s = refl
arm-selects (some t) s = refl

arm-closing : (next : Option Time) (s : System) → (arm next s).closing ≡ s.closing
unfolding arm
arm-closing none s = refl
arm-closing (some t) s = refl

arming_only :
    (s : System) (next : Option Time)
    → IsSound s
    → s.phase ≡ arming next
    → (r : System) → Own s r
    → r ≡ arm next s
arming_only s next i at _ (wakes e) = absurd (ground arith)
arming_only s next i at _ (arms next' e) = let same : next' ≡ next = cc in rw same refl
arming_only s next i at _ (takes_timer e _) = absurd (ground arith)
arming_only s next i at _ (takes_kick e _) = absurd (ground arith)
arming_only s next i at _ (takes_done e _) = absurd (ground arith)
arming_only s next i at _ (fires t due _) =
    let f : Fits (arming next) s.timer s.armed s.queue = rw at at i.fits in
    absurd (ground (arith, f.0.0))

from_arming :
    (s : System) (next : Option Time)
    → IsSound s
    → s.phase ≡ arming next
    → is_done s.closing ≡ false
    → Inevitable Own IsCaughtUp s
from_arming s next i at busy = ahead (arm next s) (arms next at) (λ r o.
    rw (arming_only s next i at r o) (
      from_selecting (arm next s) (Own-IsSound s (arm next s) i (arms next at)) (arm-selects next s)
        (ap is_done (arm-closing next s) ∙ busy)))

by_phase :
    (p : Phase) (s : System)
    → s.phase ≡ p
    → IsSound s
    → is_done s.closing ≡ false
    → Inevitable Own IsCaughtUp s
by_phase waking s at i busy = from_waking s i at
by_phase (arming next) s at i busy = from_arming s next i at busy
by_phase selecting s at i busy = from_selecting s i at busy
by_phase stopped s at i busy = absurd (ground (arith, i.gone at))

-- From any state that calls of clients, ticks of the clock, failures and the scheduler's own steps have
-- led to since it was started on a queue in order, before Close has told it to end: whatever cases
-- its select takes, the goroutine and its timer come, of themselves and while the clock stands, to a
-- state in which no message is delayed or delivered whose time has come.
pub overdue_is_processed :
    (now : Time) (q : Queue) (s : System)
    → IsValid q
    → q.closed ≡ false
    → q.log_open ≡ true
    → Reach now q s
    → is_done s.closing ≡ false
    → Inevitable Own IsCaughtUp s
overdue_is_processed now q s v open_ writable run busy =
    by_phase s.phase s refl (Reach-IsSound now q s v open_ writable run) busy
