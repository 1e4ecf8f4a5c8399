-- ===== src/Queue/Scheduling/Clients.antt =====
-- Enqueue, Receive, Ack and Nack of internal/queue/queue.go, from the side of the scheduler.
use queuemaxxing.Base.{
  ℕ, ◌<◌, ◌≡◌, refl, ap, ◌∙◌, String, Bool, true, false, Bool-cases, inl, inr, Option, none, some,
  List, ℤ, pos, length, ◌==◌, Result, ok, err, if◌then◌else◌, arith,
}
use queuemaxxing.Queue.Clock.{Time}
use queuemaxxing.Queue.Message.{Message, Delivery}
use queuemaxxing.Queue.Heap.{Heap, expiry_less}
use queuemaxxing.Queue.Heap.Order.{expiry_less-IsOrder}
use queuemaxxing.Queue.Engine.State.{
  QueueError, entropy_failed, CallEnv, Queue, lookup, set_message, leads, remove_expiry,
}
use queuemaxxing.Queue.Engine.Operations.{
  enqueue_booked, enqueue_appended, ack_found, nack_booked, nack_found, pop_with, pop_ready,
  receive_round,
}
use queuemaxxing.Queue.Engine.Calls.{
  Call, enqueue_call, ack_call, nack_call, receive_call, due_call, perform, errors_change_nothing,
}
use queuemaxxing.Queue.Places.{IsValid}
use queuemaxxing.Queue.Places.Steps.{maybe_compact-keeps}
use queuemaxxing.Queue.Places.Changes.{
  booked-IsPlaced, booked-Loose, new_Loose, removed, removed-Popped, removed_count,
  removed-IsPlaced, returned-IsPlaced, returned-Loose,
}
use queuemaxxing.Queue.Places.Deliveries.{
  root, rest-Popped, rest-IsPlaced, marked, timed, timed-Pushed, given,
}
use queuemaxxing.Queue.Places.Calls.{IsFresh, receive_state, enqueue_done, ack_done, nack_done}
use queuemaxxing.Queue.Scheduling.Alert.{Serves-same, update-Serves, kicked, settle-Watched}
use queuemaxxing.Queue.Scheduling.Alarm.{Serves, Watched, serves, serves-heap_push}

-- a call that a client makes, and not the scheduler
abbrev pub is_client : Call → Bool
is_client due_call = false
is_client _ = true

module _ (alarm : Option Time) (env : CallEnv) (q : Queue) (v : IsValid q)
    (w : Watched alarm q) where
  module _ (body : List ℕ) (priority delay : ℤ) (id : String) where
    booked-Watched : Watched alarm (enqueue_booked env body priority delay id q)
    unfolding enqueue_booked set_message
    booked-Watched quiet =
        let loose = new_Loose env q v body priority delay id in
        update-Serves alarm q.store q.next_address _ q.delayed q.expiry loose.1 loose.2 (w quiet)

    enqueue_appended-Watched : Watched alarm (enqueue_appended env body priority delay id q)
    unfolding enqueue_appended
    enqueue_appended-Watched =
        settle-Watched alarm _ q.next_address (booked-IsPlaced env q v body priority delay id)
          (booked-Loose env q v body priority delay id) booked-Watched env delay

  module _ (r : String) (p : ℕ) (found : lookup r q.inflight ≡ some p) where
    abbrev left : Heap
    left = removed env q v r p found

    left-Serves : q.kick ≡ false → Serves alarm left.store q.delayed left.items
    left-Serves quiet =
        let popped = removed-Popped env q v r p found in
        Serves-same alarm q.store left.store q.delayed q.delayed q.expiry left.items (λ a h. h)
          (λ a h. ground (arith, removed_count env q v r p found a))
          (λ a h. ap (λ (m : Message). m.available_at) (popped.messages a))
          (λ a h. ap (λ (m : Message). m.deadline) (popped.messages a)) (w quiet)

    ack_found-Watched : Watched alarm (ack_found env r p q)
    unfolding ack_found remove_expiry
    ack_found-Watched = maybe_compact-keeps (Watched alarm) env _ left-Serves (λ l. left-Serves)

    nack_booked-Watched : (delay : ℤ) → Watched alarm (nack_booked env r p delay q)
    unfolding nack_booked remove_expiry set_message
    nack_booked-Watched delay quiet =
        let loose = (removed-IsPlaced env q v r p found).1 in
        update-Serves alarm left.store p _ q.delayed left.items loose.1 loose.2 (left-Serves quiet)

    nack_found-Watched : (delay : ℤ) → Watched alarm (nack_found env r p delay q)
    unfolding nack_found
    nack_found-Watched delay =
        settle-Watched alarm _ p (returned-IsPlaced env q v r p found delay)
          (returned-Loose env q v r p found delay) (nack_booked-Watched delay) env delay

  module _ (visibility : ℤ) (r : String) (some_ready : 0 < length q.ready)
      (fresh : lookup r q.inflight ≡ none) where
    marked-Serves :
        q.kick ≡ false
        → Serves alarm (marked env visibility r q v some_ready fresh).store q.delayed q.expiry
    marked-Serves quiet =
        let popped = rest-Popped env visibility r q v some_ready fresh in
        let loose = (rest-IsPlaced env visibility r q v some_ready fresh).1 in
        update-Serves alarm _ _ _ q.delayed q.expiry loose.1 loose.2 (
          Serves-same alarm q.store _ q.delayed q.delayed q.expiry q.expiry (λ a h. h) (λ a h. h)
            (λ a h. ap (λ (m : Message). m.available_at) (popped.messages a))
            (λ a h. ap (λ (m : Message). m.deadline) (popped.messages a)) (w quiet))

    given-Watched :
        leads
            (root env visibility r q v some_ready fresh)
            (timed env visibility r q v some_ready fresh).items
          ≡ false
        → Watched alarm (given env visibility r q v some_ready fresh)
    unfolding expiry_less
    given-Watched behind quiet =
        let before = marked-Serves quiet in
        let pushed = timed-Pushed env visibility r q v some_ready fresh in
        record {
          delays = λ a inside.
              ap (λ (m : Message). serves alarm m.available_at) (pushed.messages a)
              ∙ before.delays a inside;
          deliveries =
              serves-heap_push alarm expiry_less expiry_less-IsOrder (λ (m : Message). m.deadline)
                (λ m n. refl) (λ m i. refl) _ _ _ pushed before.deliveries behind;
        }

    pop_with-Watched : Watched alarm (pop_with env visibility r q).1
    unfolding pop_with
    pop_with-Watched = kicked alarm _ (given env visibility r q v some_ready fresh) given-Watched

  module _ (visibility : ℤ) (fresh : IsFresh env q) where
    popped_with :
        0 < length q.ready
        → (o : Option String) → env.token ≡ o
        → Watched alarm
            (elim o as (λ _. Result QueueError (Option Delivery) × Queue) [
              | none ↦ (err entropy_failed, q)
              | some r ↦
                  (ok (some (pop_with env visibility r q).0), (pop_with env visibility r q).1)
            ]).1
    popped_with some_ready none e = w
    popped_with some_ready (some r) e = pop_with-Watched visibility r some_ready (fresh r e)

    pop_ready-Watched : Watched alarm (pop_ready env visibility q).1
    unfolding pop_ready
    pop_ready-Watched = elim (Bool-cases (length q.ready == 0)) [
      | inl e ↦ simp e w
      | inr e ↦ simp e (popped_with (ground arith) env.token refl)
    ]

    receive-Watched :
        (wait : ℤ) (deadline : Time) (ctx_done : Bool)
        → Watched alarm (receive_round env visibility wait deadline ctx_done q).1
    receive-Watched wait deadline ctx_done =
        rw (receive_state env visibility q wait deadline ctx_done) (opened q.closed)
      where
        opened : (b : Bool) → Watched alarm (if b then q else (pop_ready env visibility q).1)
        opened true = w
        opened false = pop_ready-Watched

-- Enqueue, Ack, Nack and Receive, with whatever failures, keep a queue in order watched: where no kick
-- of the scheduler is pending behind the call and the timer that is armed, if one is, served all delays
-- and deadlines before it, it serves all that there are behind it.
pub perform-Watched :
    (alarm : Option Time) (env : CallEnv) (c : Call) (q : Queue)
    → IsValid q
    → IsFresh env q
    → is_client c ≡ true
    → Watched alarm q
    → Watched alarm (perform env c q).1
perform-Watched alarm env c q v fresh client w = by_error (perform env c q).0 refl
  where
    done :
        (c : Call)
        → is_client c ≡ true
        → (perform env c q).0 ≡ none
        → Watched alarm (perform env c q).1
    done (enqueue_call body priority delay) is h =
        let (id, e) = enqueue_done env body priority delay q h in
        rw e (enqueue_appended-Watched alarm env q v w body priority delay id)
    done (ack_call r) is h =
        let (p, found, e) = ack_done env r q h in rw e (ack_found-Watched alarm env q v w r p found)
    done (nack_call r delay) is h =
        let (p, found, e) = nack_done env r delay q h in
        rw e (nack_found-Watched alarm env q v w r p found delay)
    done (receive_call visibility) is h =
        unfold perform in receive-Watched alarm env q v w visibility fresh (pos 0) env.now false
    done due_call is h = cc

    by_error : (o : Option QueueError) → (perform env c q).0 ≡ o → Watched alarm (perform env c q).1
    by_error none e = done c client e
    by_error (some x) e = rw (errors_change_nothing env c q x e) w
