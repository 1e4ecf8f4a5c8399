-- ===== src/Queue/Restart/Files.antt =====
-- What the moves of queue.go and scheduler.go between the heaps leave of a message for the log.
use queuemaxxing.Base.{
  ℕ, zero, suc, ◌≡◌, refl, ap, ◌∙◌, String, Bool, true, false, Bool-cases, inl, inr, none, some, ℤ,
  length, ◌==◌, ==_refl, arith, ◌<◌, if◌then◌else◌,
}
use queuemaxxing.Queue.Clock.{Time}
use queuemaxxing.Queue.Message.{Message}
use queuemaxxing.Queue.Heap.{Store, update, peek}
use queuemaxxing.Queue.Heap.Swaps.{SameMessages}
use queuemaxxing.Queue.Engine.State.{
  Queue, CallEnv, lookup, pop_expiry_heap, set_message, push_ready, leads, wake_scheduler,
  broadcast,
}
use queuemaxxing.Queue.Engine.Compact.{enqueue_of}
use queuemaxxing.Queue.Engine.Operations.{pop_with}
use queuemaxxing.Queue.Engine.Scheduler.{promote, expire, promote_due, expire_due, process_due}
use queuemaxxing.Queue.Places.{IsValid}
use queuemaxxing.Queue.Places.Schedule.{SameMail}
use queuemaxxing.Queue.Places.Deliveries.{
  root, rest-Popped, timed-Pushed, handed, rest, timed, given,
}
use queuemaxxing.Queue.Places.Due.{
  later, later-Popped, promote-Scheduled, over, over-Popped, back-Pushed, again, promote-Moved,
  expire-Moved,
}
use queuemaxxing.Queue.Places.Wakeup.{loop_round, promote_due-Promoted}
use queuemaxxing.Queue.Restart.Live.{SameFiles}

pub SameFiles-refl : (s : Store) → SameFiles s s
SameFiles-refl s a = refl

pub SameFiles-trans : (s t u : Store) → SameFiles s t → SameFiles t u → SameFiles s u
SameFiles-trans s t u f g a = g a ∙ f a

pub messages-SameFiles : (s t : Store) → SameMessages s t → SameFiles s t
unfolding enqueue_of
messages-SameFiles s t f a = ap enqueue_of (f a)

pub mail-SameFiles : (s t : Store) → SameMail s t → SameFiles s t
unfolding enqueue_of
mail-SameFiles s t f a = ap enqueue_of (f a)

pub update-SameFiles :
    (s : Store) (p : ℕ) (m : Message) → enqueue_of m ≡ enqueue_of (s p) → SameFiles s (update s p m)
unfolding update
update-SameFiles s p m e a = elim (Bool-cases (p == a)) [
  | inl h ↦ let is : p ≡ a = ground arith in rw (is, ==_refl a) (rw is at e)
  | inr h ↦ rw h refl
]

module _ (env : CallEnv) (visibility : ℤ) (r : String) (q : Queue) (v : IsValid q)
    (some_ready : 0 < length q.ready) (fresh : lookup r q.inflight ≡ none) where
  given-SameFiles : SameFiles q.store (given env visibility r q v some_ready fresh).store
  given-SameFiles =
      let first = rest env visibility r q v some_ready fresh in
      let p = root env visibility r q v some_ready fresh in
      let m = handed env visibility r q v some_ready fresh in
      SameFiles-trans q.store (update first.store p m) _
        (SameFiles-trans q.store first.store (update first.store p m)
          (messages-SameFiles q.store first.store
            (rest-Popped env visibility r q v some_ready fresh).messages)
          (update-SameFiles first.store p m (unfold enqueue_of in refl)))
        (messages-SameFiles (update first.store p m) _
          (timed-Pushed env visibility r q v some_ready fresh).messages)

  pub pop_with-SameFiles : SameFiles q.store (pop_with env visibility r q).1.store
  unfolding pop_with
  pop_with-SameFiles = woken (
      leads (root env visibility r q v some_ready fresh)
        (timed env visibility r q v some_ready fresh).items)
    where
      woken :
          (b : Bool)
          → SameFiles q.store
              (if b
                then wake_scheduler (given env visibility r q v some_ready fresh)
                else given env visibility r q v some_ready fresh).store
      woken true = given-SameFiles
      woken false = given-SameFiles

module _ (q : Queue) (p : ℕ) (v : IsValid q) where
  promote-SameFiles : peek q.delayed ≡ some p → SameFiles q.store (promote q p).store
  promote-SameFiles head =
      SameFiles-trans q.store (later q p v head).store (promote q p).store
        (messages-SameFiles q.store _ (later-Popped q p v head).messages)
        (mail-SameFiles _ _ (promote-Scheduled q p v head).mail)

  expire-SameFiles : peek q.expiry ≡ some p → SameFiles q.store (expire q p).store
  unfolding expire pop_expiry_heap set_message push_ready
  expire-SameFiles head =
      let gone = over q p v head in
      let m = again q p v head in
      SameFiles-trans q.store (update gone.store p m) _
        (SameFiles-trans q.store gone.store (update gone.store p m)
          (messages-SameFiles q.store gone.store (over-Popped q p v head).messages)
          (update-SameFiles gone.store p m (unfold enqueue_of in refl)))
        (messages-SameFiles (update gone.store p m) _ (back-Pushed q p v head).messages)

module _ (now : Time) where
  promote_due-SameFiles :
      (fuel : ℕ) (q : Queue) (changed : Bool)
      → IsValid q
      → SameFiles q.store (promote_due fuel now (q, changed)).0.store
  unfolding promote_due
  promote_due-SameFiles zero q changed v = SameFiles-refl q.store
  promote_due-SameFiles (suc fuel) q changed v =
      loop_round now (λ r. SameFiles q.store r.0.store) q.delayed (λ p. (q.store p).available_at)
        (q, changed) (λ p. promote_due fuel now (promote q p, true)) (λ e. SameFiles-refl q.store)
        (λ p e late. SameFiles-refl q.store)
        (λ p e.
          SameFiles-trans q.store (promote q p).store _ (promote-SameFiles q p v e)
            (promote_due-SameFiles fuel (promote q p) true (promote-Moved q p v e).valid))
        (peek q.delayed) refl

  expire_due-SameFiles :
      (fuel : ℕ) (q : Queue) (changed : Bool)
      → IsValid q
      → SameFiles q.store (expire_due fuel now (q, changed)).0.store
  unfolding expire_due
  expire_due-SameFiles zero q changed v = SameFiles-refl q.store
  expire_due-SameFiles (suc fuel) q changed v =
      loop_round now (λ r. SameFiles q.store r.0.store) q.expiry (λ p. (q.store p).deadline)
        (q, changed) (λ p. expire_due fuel now (expire q p, true)) (λ e. SameFiles-refl q.store)
        (λ p e late. SameFiles-refl q.store)
        (λ p e.
          SameFiles-trans q.store (expire q p).store _ (expire-SameFiles q p v e)
            (expire_due-SameFiles fuel (expire q p) true (expire-Moved q p v e).valid))
        (peek q.expiry) refl

  pub process_due-SameFiles :
      (q : Queue) → IsValid q → SameFiles q.store (process_due now q).1.store
  unfolding process_due
  process_due-SameFiles q v =
      let first = promote_due (length q.delayed) now (q, false) in
      let second = expire_due (length first.0.expiry) now first in
      let promoted = promote_due-Promoted now (length q.delayed) q false v (omega arith) in
      told second.1 second.0 (
        SameFiles-trans q.store first.0.store second.0.store
          (promote_due-SameFiles (length q.delayed) q false v)
          (expire_due-SameFiles (length first.0.expiry) first.0 first.1 promoted.0.valid))
    where
      told :
          (b : Bool) (r : Queue)
          → SameFiles q.store r.store
          → SameFiles q.store (if b then broadcast r else r).store
      told true r f = f
      told false r f = f
