-- ===== src/Queue/Manager/Identity.antt =====
-- The name of a queue, and whether it is closed, through the calls of queue.go and scheduler.go.
use text.Mathlib.Text.{◌==◌ as str_eq}
use text.Mathlib.TextEquality.{eq_iff}
use queuemaxxing.Base.{
  ℕ, zero, suc, ◌≡◌, refl, ◌∙◌, String, Bool, true, false, Bool-cases, Option-cases, inl, inr,
  Option, none, some, List, [], ◌∷◌, ℤ, pos, length, ◌==◌, Result, ok, err, if◌then◌else◌, arith,
}
use queuemaxxing.Storage.Record.{Record}
use queuemaxxing.Storage.Recovery.Replay.{apply_all}
use queuemaxxing.Queue.Clock.{Time}
use queuemaxxing.Queue.Message.{Message, Delivery}
use queuemaxxing.Queue.Heap.{peek}
use queuemaxxing.Queue.Engine.State.{
  QueueError, entropy_failed, CallEnv, Queue, push_ready, push_delayed, push_expiry, pop_ready_heap,
  pop_delayed_heap, pop_expiry_heap, remove_expiry, set_message, broadcast,
}
use queuemaxxing.Queue.Engine.Compact.{compact_locked, maybe_compact}
use queuemaxxing.Queue.Engine.Operations.{
  schedule, settle, enqueue_booked, enqueue_appended, pop_with, pop_ready, receive_round, ack_found,
  nack_booked, nack_found,
}
use queuemaxxing.Queue.Engine.Scheduler.{promote, expire, promote_due, expire_due, process_due}
use queuemaxxing.Queue.Engine.Calls.{
  Call, enqueue_call, ack_call, nack_call, receive_call, due_call, perform, errors_change_nothing,
}
use queuemaxxing.Queue.Places.Calls.{enqueue_done, ack_done, nack_done}
use queuemaxxing.Queue.Places.Wakeup.{loop_round}
use queuemaxxing.Queue.Replay.{
  Config, Live, Replayed, ReplayError, no_header, other_name, replay_start, replay_record, revive,
  revive_all, new_queue, rebuild, open_queue,
}

-- the name, and whether the queue and its log are closed
abbrev pub Alike : Queue → Queue → Type 0
Alike q r = (q.name ≡ r.name) × (q.closed ≡ r.closed) × (q.log_open ≡ r.log_open)

Alike-trans : (q r s : Queue) → Alike q r → Alike r s → Alike q s
Alike-trans q r s a b = (a.0 ∙ b.0, a.1 ∙ b.1, a.2 ∙ b.2)

maybe_compact-Alike : (env : CallEnv) (q : Queue) → Alike (maybe_compact env q) q
unfolding maybe_compact compact_locked
maybe_compact-Alike env q = (ground arith, ground arith, ground arith)

schedule-Alike : (q : Queue) (p : ℕ) (delay : ℤ) → Alike (schedule q p delay) q
unfolding schedule push_ready push_delayed set_message
schedule-Alike q p delay = (ground arith, ground arith, ground arith)

settle-Alike : (env : CallEnv) (p : ℕ) (delay : ℤ) (q : Queue) → Alike (settle env p delay q) q
unfolding settle
settle-Alike env p delay q =
    let a = maybe_compact-Alike env (broadcast (schedule q p delay)) in
    let b = schedule-Alike q p delay in (a.0 ∙ b.0, a.1 ∙ b.1, a.2 ∙ b.2)

enqueue_appended-Alike :
    (env : CallEnv) (body : List ℕ) (priority delay : ℤ) (id : String) (q : Queue)
    → Alike (enqueue_appended env body priority delay id q) q
unfolding enqueue_appended enqueue_booked set_message
enqueue_appended-Alike env body priority delay id q = settle-Alike env q.next_address delay _

ack_found-Alike : (env : CallEnv) (r : String) (p : ℕ) (q : Queue) → Alike (ack_found env r p q) q
unfolding ack_found remove_expiry
ack_found-Alike env r p q = maybe_compact-Alike env _

nack_found-Alike :
    (env : CallEnv) (r : String) (p : ℕ) (delay : ℤ) (q : Queue)
    → Alike (nack_found env r p delay q) q
unfolding nack_found nack_booked remove_expiry set_message
nack_found-Alike env r p delay q = settle-Alike env p delay _

pop_with-Alike :
    (env : CallEnv) (visibility : ℤ) (r : String) (q : Queue)
    → Alike (pop_with env visibility r q).1 q
unfolding pop_with pop_ready_heap set_message push_expiry
pop_with-Alike env visibility r q = (ground arith, ground arith, ground arith)

popped-Alike :
    (env : CallEnv) (visibility : ℤ) (q : Queue) (o : Option String)
    → Alike
        (elim o as (λ _. Result QueueError (Option Delivery) × Queue) [
          | none ↦ (err entropy_failed, q)
          | some r ↦ (ok (some (pop_with env visibility r q).0), (pop_with env visibility r q).1)
        ]).1
        q
popped-Alike env visibility q none = (refl, refl, refl)
popped-Alike env visibility q (some r) = pop_with-Alike env visibility r q

pop_ready-Alike :
    (env : CallEnv) (visibility : ℤ) (q : Queue) → Alike (pop_ready env visibility q).1 q
unfolding pop_ready
pop_ready-Alike env visibility q = elim (Bool-cases (length q.ready == 0)) [
  | inl e ↦ simp e (refl, refl, refl)
  | inr e ↦ simp e (popped-Alike env visibility q env.token)
]

pub receive_round-Alike :
    (env : CallEnv) (visibility wait : ℤ) (deadline : Time) (ctx_done : Bool) (q : Queue)
    → Alike (receive_round env visibility wait deadline ctx_done q).1 q
unfolding receive_round
receive_round-Alike env visibility wait deadline ctx_done q =
    let a = pop_ready-Alike env visibility q in
    (ground (arith, a.0), ground (arith, a.1), ground (arith, a.2))

promote-Alike : (q : Queue) (p : ℕ) → Alike (promote q p) q
unfolding promote pop_delayed_heap set_message push_ready
promote-Alike q p = (refl, refl, refl)

expire-Alike : (q : Queue) (p : ℕ) → Alike (expire q p) q
unfolding expire pop_expiry_heap set_message push_ready
expire-Alike q p = (refl, refl, refl)

promote_due-Alike :
    (fuel : ℕ) (now : Time) (q : Queue) (b : Bool) → Alike (promote_due fuel now (q, b)).0 q
unfolding promote_due
promote_due-Alike zero now q b = (refl, refl, refl)
promote_due-Alike (suc fuel) now q b =
    loop_round now (λ r. Alike r.0 q) q.delayed (λ p. (q.store p).available_at) (q, b)
      (λ p. promote_due fuel now (promote q p, true)) (λ e. (refl, refl, refl))
      (λ p e late. (refl, refl, refl))
      (λ p e.
        Alike-trans (promote_due fuel now (promote q p, true)).0 (promote q p) q
          (promote_due-Alike fuel now (promote q p) true) (promote-Alike q p))
      (peek q.delayed) refl

expire_due-Alike :
    (fuel : ℕ) (now : Time) (q : Queue) (b : Bool) → Alike (expire_due fuel now (q, b)).0 q
unfolding expire_due
expire_due-Alike zero now q b = (refl, refl, refl)
expire_due-Alike (suc fuel) now q b =
    loop_round now (λ r. Alike r.0 q) q.expiry (λ p. (q.store p).deadline) (q, b)
      (λ p. expire_due fuel now (expire q p, true)) (λ e. (refl, refl, refl))
      (λ p e late. (refl, refl, refl))
      (λ p e.
        Alike-trans (expire_due fuel now (expire q p, true)).0 (expire q p) q
          (expire_due-Alike fuel now (expire q p) true) (expire-Alike q p))
      (peek q.expiry) refl

pub process_due-Alike : (now : Time) (q : Queue) → Alike (process_due now q).1 q
unfolding process_due
process_due-Alike now q =
    let first = promote_due (length q.delayed) now (q, false) in
    let a = promote_due-Alike (length q.delayed) now q false in
    let b = expire_due-Alike (length first.0.expiry) now first.0 first.1 in
    (ground (arith, a.0, b.0), ground (arith, a.1, b.1), ground (arith, a.2, b.2))

done-Alike :
    (env : CallEnv) (c : Call) (q : Queue)
    → (perform env c q).0 ≡ none
    → Alike (perform env c q).1 q
done-Alike env (enqueue_call body priority delay) q h =
    let (id, e) = enqueue_done env body priority delay q h in
    rw e (enqueue_appended-Alike env body priority delay id q)
done-Alike env (ack_call r) q h =
    let (p, found, e) = ack_done env r q h in rw e (ack_found-Alike env r p q)
done-Alike env (nack_call r delay) q h =
    let (p, found, e) = nack_done env r delay q h in rw e (nack_found-Alike env r p delay q)
done-Alike env (receive_call visibility) q h =
    unfold perform in receive_round-Alike env visibility (pos 0) env.now false q
done-Alike env due_call q h = unfold perform in process_due-Alike env.now q

pub perform-Alike : (env : CallEnv) (c : Call) (q : Queue) → Alike (perform env c q).1 q
perform-Alike env c q = elim (Option-cases (perform env c q).0) [
  | inl e ↦ done-Alike env c q e
  | inr (x, e) ↦ rw (errors_change_nothing env c q x e) (refl, refl, refl)
]

revive-Alike : (now : Time) (q : Queue) (m : Message) → Alike (revive now q m) q
unfolding revive push_ready push_delayed set_message
revive-Alike now q m = (ground arith, ground arith, ground arith)

revive_all-Alike : (now : Time) (q : Queue) (live : Live) → Alike (revive_all now q live) q
unfolding revive_all
revive_all-Alike now q [] = (refl, refl, refl)
revive_all-Alike now q ((_, m) ∷ live) =
    Alike-trans (revive_all now (revive now q m) live) (revive now q m) q
      (revive_all-Alike now (revive now q m) live) (revive-Alike now q m)

named-of :
    (b : Bool) (q r : Queue) (e : ReplayError)
    → (if b then ok q else err e) ≡ ok r
    → (b ≡ true) × (q ≡ r)
named-of true q r e h = (refl, cc)
named-of false q r e h = cc

rebuild-named :
    (name : String) (now : Time) (threshold : ℕ) (records : List Record) (st : Replayed) (q : Queue)
    → rebuild name now threshold records st ≡ ok q
    → (q.name ≡ name) × (q.closed ≡ false)
unfolding rebuild
rebuild-named name now threshold records st = configured st.config
  where
    fresh : Config → Queue
    fresh cfg = new_queue cfg records st.next_seq st.enqueued st.acked threshold

    configured :
        (o : Option Config) (q : Queue)
        → (elim o as (λ _. Result ReplayError Queue) [
          | none ↦ err no_header
          | some cfg ↦
              if str_eq cfg.name name
              then ok (revive_all now (fresh cfg) st.live)
              else err (other_name cfg.name)
        ])
          ≡ ok q
        → (q.name ≡ name) × (q.closed ≡ false)
    configured none q h = cc
    configured (some cfg) q h =
        let (same, is) = named-of (str_eq cfg.name name) _ q (other_name cfg.name) h in
        let a = revive_all-Alike now (fresh cfg) st.live in
        let named : cfg.name ≡ name = (eq_iff cfg.name name).0 same in
        let alike : ((revive_all now (fresh cfg) st.live).name ≡ name)
            × ((revive_all now (fresh cfg) st.live).closed ≡ false) =
          (a.0 ∙ named, a.1) in
        rw is at alike

pub open_queue-named :
    (name : String) (now : Time) (threshold : ℕ) (records : List Record) (q : Queue)
    → open_queue name now threshold records ≡ ok q
    → (q.name ≡ name) × (q.closed ≡ false)
unfolding open_queue
open_queue-named name now threshold records =
    replayed (apply_all replay_record records replay_start)
  where
    replayed :
        (x : Result ReplayError Replayed) (q : Queue)
        → (elim x as (λ _. Result ReplayError Queue) [
          | err e ↦ err e
          | ok st ↦ rebuild name now threshold records st
        ])
          ≡ ok q
        → (q.name ≡ name) × (q.closed ≡ false)
    replayed (err e) q h = cc
    replayed (ok st) q h = rebuild-named name now threshold records st q h
