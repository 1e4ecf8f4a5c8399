-- ===== src/Queue/Waiting/Asleep.antt =====
-- What holds of a waiting Receive between any two steps.
use queuemaxxing.Base.{
  ℕ, ◌≡◌, refl, sym, ap, ◌∙◌, Bool, true, false, Bool-cases, Option-cases, inl, inr, Option, none,
  some, List, [], ◌∷◌, ℤ, length, ◌==◌, Result, ok, err, arith,
}
use queuemaxxing.Queue.Clock.{Time, before}
use queuemaxxing.Queue.Message.{Delivery}
use queuemaxxing.Queue.Engine.State.{QueueError, CallEnv, Queue}
use queuemaxxing.Queue.Engine.Operations.{
  is_positive, found_nothing, pop_ready, Round, returned, waits, receive_round,
}
use queuemaxxing.Queue.Waiting.Lull.{Lull, Quiet}
use queuemaxxing.Queue.Waiting.Receiver.{
  Place, checking, asleep, answered, Receiver, enter, round_ended, check, ring, warn,
}

-- the round found nothing to return, and a reason to wait
pub record FoundNothing (wait : ℤ) (now deadline : Time) (ctx_done : Bool) (q q' : Queue)
    : Type 0 where
  pub same : q' ≡ q
  pub open_ : q.closed ≡ false
  pub nothing_ready : (length q.ready == 0) ≡ true
  pub may_wait : is_positive wait ≡ true
  pub early : before now deadline ≡ true
  pub going : ctx_done ≡ false

pop_ready-none :
    (env : CallEnv) (visibility : ℤ) (q : Queue)
    → (pop_ready env visibility q).0 ≡ ok none
    → ((length q.ready == 0) ≡ true) × ((pop_ready env visibility q).1 ≡ q)
unfolding pop_ready
pop_ready-none env visibility q h = elim (Bool-cases (length q.ready == 0)) [
  | inl e ↦ (e, simp e refl)
  | inr e ↦ elim (Option-cases env.token) [
    | inl t ↦ absurd (ground arith)
    | inr (r, t) ↦ absurd (ground arith)
  ]
]

quiet_round :
    (wait : ℤ) (now deadline : Time) (ctx_done : Bool)
    → found_nothing wait now deadline ctx_done ≡ waits
    → (is_positive wait ≡ true) × (before now deadline ≡ true) × (ctx_done ≡ false)
quiet_round wait now deadline ctx_done h = (ground arith, ground arith, ground arith)

pub waits-FoundNothing :
    (env : CallEnv) (visibility wait : ℤ) (deadline : Time) (ctx_done : Bool) (q : Queue)
    → (receive_round env visibility wait deadline ctx_done q).0 ≡ waits
    → FoundNothing wait env.now deadline ctx_done q
        (receive_round env visibility wait deadline ctx_done q).1
waits-FoundNothing env visibility wait deadline ctx_done q h =
    by_closed q.closed refl (pop_ready env visibility q).0 refl
  where
    by_closed :
        (b : Bool)
        → q.closed ≡ b
        → (r : Result QueueError (Option Delivery)) → (pop_ready env visibility q).0 ≡ r
        → FoundNothing wait env.now deadline ctx_done q
            (receive_round env visibility wait deadline ctx_done q).1
    by_closed true shut r popped = absurd (unfold receive_round in ground arith)
    by_closed false open_ (err e) popped = absurd (unfold receive_round in ground arith)
    by_closed false open_ (ok (some d)) popped = absurd (unfold receive_round in ground arith)
    by_closed false open_ (ok none) popped =
        let (empty, same) = pop_ready-none env visibility q popped in
        let is : (receive_round env visibility wait deadline ctx_done q).0
            ≡ found_nothing wait env.now deadline ctx_done =
          unfold receive_round in simp (open_, popped) in
        let quiet = quiet_round wait env.now deadline ctx_done (sym is ∙ h) in
        record {
          same = unfold receive_round in simp (open_, popped) same;
          open_ = open_;
          nothing_ready = empty;
          may_wait = quiet.0;
          early = quiet.1;
          going = quiet.2;
        }

pub nil_of : (l : List ℕ) → (length l == 0) ≡ true → l ≡ []
nil_of [] h = refl
nil_of (x ∷ l) h = absurd (ground arith)

pub not_both : (b : Bool) → b ≡ true → b ≡ false → ⊥
not_both b t f = cc

abbrev pub is_waiting : Place → Bool
is_waiting (answered _) = false
is_waiting _ = true

module _ (visibility wait : ℤ) (cancellable : Bool) where
  -- While the call sleeps without a broadcast there is nothing for it, and its timer and its watcher
  -- still have their broadcasts before them; one that is done has found its reason true.
  pub record IsSound (s : Receiver) : Type 0 where
    pub lull : s.place ≡ asleep → Lull s.queue
    pub ringing : s.place ≡ asleep → s.queue.signalled ≡ false → s.timer_pending ≡ true
    pub rung :
        is_positive wait ≡ true
        → is_waiting s.place ≡ true
        → s.timer_pending ≡ false
        → before s.clock s.deadline ≡ false
    pub warning :
        s.place ≡ asleep → s.queue.signalled ≡ false → cancellable ≡ true → s.watching ≡ true
    pub warned :
        is_positive wait ≡ true
        → cancellable ≡ true
        → is_waiting s.place ≡ true
        → s.watching ≡ false
        → s.cancelled ≡ true
    pub patient : s.place ≡ asleep → is_positive wait ≡ true
    pub stoppable : s.cancelled ≡ true → cancellable ≡ true

  pub enter-IsSound : (now : Time) (q : Queue) → IsSound (enter visibility wait cancellable now q)
  unfolding enter
  enter-IsSound now q = record {
    lull = λ e. cc;
    ringing = λ e quiet. cc;
    rung = λ p w t. absurd (ground arith);
    warning = λ e quiet c. cc;
    warned = λ p c w h. absurd (ground arith);
    patient = λ e. cc;
    stoppable = λ e. cc;
  }

  module _ (s : Receiver) (i : IsSound s) where
    round_ended-IsSound :
        (now : Time) (round : Round) (q : Queue)
        → s.place ≡ checking
        → now ≡ s.clock
        → (round ≡ waits → FoundNothing wait now s.deadline s.cancelled s.queue q)
        → IsSound (round_ended visibility wait cancellable round q s)
    unfolding round_ended
    round_ended-IsSound now (returned r) q at same found = record {
      lull = λ e. cc;
      ringing = λ e quiet. cc;
      rung = λ p w t. cc;
      warning = λ e quiet c. cc;
      warned = λ p c w h. cc;
      patient = λ e. cc;
      stoppable = i.stoppable;
    }
    round_ended-IsSound now waits q at same found =
        let f = found refl in
        let up : is_waiting s.place ≡ true = ap is_waiting at in
        record {
          lull = λ e quiet. (
            ap (λ (x : Queue). x.ready) f.same ∙ nil_of s.queue.ready f.nothing_ready,
            ap (λ (x : Queue). x.closed) f.same ∙ f.open_,
          );
          ringing = λ e quiet. elim (Bool-cases s.timer_pending) [
            | inl t ↦ t
            | inr t ↦ absurd (
                not_both _ (ap (λ t. before t s.deadline) (sym same) ∙ f.early)
                  (i.rung f.may_wait up t))
          ];
          rung = λ p w t. i.rung p up t;
          warning = λ e quiet c. elim (Bool-cases s.watching) [
            | inl t ↦ t
            | inr t ↦ absurd (not_both _ (i.warned f.may_wait c up t) f.going)
          ];
          warned = λ p c w h. i.warned p c up h;
          patient = λ e. f.may_wait;
          stoppable = i.stoppable;
        }

    pub check-IsSound :
        (env : CallEnv)
        → s.place ≡ checking
        → env.now ≡ s.clock
        → IsSound (check visibility wait cancellable env s)
    unfolding check
    check-IsSound env at same =
        round_ended-IsSound env.now _ _ at same
          (waits-FoundNothing env visibility wait s.deadline s.cancelled s.queue)

    pub resumed-IsSound : s.place ≡ asleep → IsSound (record s { place = checking })
    resumed-IsSound at =
        let up : is_waiting s.place ≡ true = ap is_waiting at in
        record {
          lull = λ e. cc;
          ringing = λ e quiet. cc;
          rung = λ p w t. i.rung p up t;
          warning = λ e quiet c. cc;
          warned = λ p c w h. i.warned p c up h;
          patient = λ e. cc;
          stoppable = i.stoppable;
        }

    pub ring-IsSound :
        before s.clock s.deadline ≡ false → IsSound (ring visibility wait cancellable s)
    unfolding ring
    ring-IsSound late = record {
      lull = λ e quiet. cc;
      ringing = λ e quiet. cc;
      rung = λ p w t. late;
      warning = λ e quiet c. cc;
      warned = i.warned;
      patient = i.patient;
      stoppable = i.stoppable;
    }

    pub warn-IsSound : s.cancelled ≡ true → IsSound (warn visibility wait cancellable s)
    unfolding warn
    warn-IsSound gone = record {
      lull = λ e quiet. cc;
      ringing = λ e quiet. cc;
      rung = i.rung;
      warning = λ e quiet c. cc;
      warned = λ p c w h. gone;
      patient = i.patient;
      stoppable = i.stoppable;
    }

    -- another goroutine's step on the queue
    pub queue-IsSound : (q : Queue) → Quiet s.queue q → IsSound (record s { queue = q })
    queue-IsSound q calm = record {
      lull = λ e quiet. let c = calm quiet in let l = i.lull e c.0 in (c.1 l.0, c.2 ∙ l.1);
      ringing = λ e quiet. i.ringing e (calm quiet).0;
      rung = i.rung;
      warning = λ e quiet. i.warning e (calm quiet).0;
      warned = i.warned;
      patient = i.patient;
      stoppable = i.stoppable;
    }
