-- ===== src/Queue/Scheduling/Alert.antt =====
-- The ends of Enqueue and Nack of internal/queue/queue.go, from the side of the scheduler: what they
-- leave for it to do, they tell it.
use queuemaxxing.Base.{
  ℕ, ◌<◌, ◌≡◌, ◌≢◌, refl, ap, Bool, true, false, Bool-cases, inl, inr, Option, List, ℤ, count,
  if◌then◌else◌, arith,
}
use queuemaxxing.Queue.Clock.{Time}
use queuemaxxing.Queue.Message.{Message, ready, delayed}
use queuemaxxing.Queue.Heap.{Store, delayed_less, update}
use queuemaxxing.Queue.Heap.Order.{delayed_less-IsOrder}
use queuemaxxing.Queue.Heap.Push.{heap_push-Pushed}
use queuemaxxing.Queue.Engine.State.{
  CallEnv, Queue, heap_of, push_ready, push_delayed, set_message, leads, wake_scheduler,
}
use queuemaxxing.Queue.Engine.Operations.{is_positive, schedule, settle}
use queuemaxxing.Queue.Places.Moves.{IsPlaced, Loose, set_message-IsPlaced}
use queuemaxxing.Queue.Places.Schedule.{SameMail, ready-Scheduled, delayed-Scheduled}
use queuemaxxing.Queue.Places.Steps.{maybe_compact-keeps}
use queuemaxxing.Queue.Places.Changes.{update_other}
use queuemaxxing.Queue.Scheduling.Alarm.{Serves, Watched, serves-heap_push}

module _ (alarm : Option Time) where
  -- neither times nor heaps have changed, but that the heaps may be smaller
  pub Serves-same :
      (s t : Store) (ds ds' es es' : List ℕ)
      → ((a : ℕ) → 0 < count a ds' → 0 < count a ds)
      → ((a : ℕ) → 0 < count a es' → 0 < count a es)
      → ((a : ℕ) → 0 < count a ds' → (t a).available_at ≡ (s a).available_at)
      → ((a : ℕ) → 0 < count a es' → (t a).deadline ≡ (s a).deadline)
      → Serves alarm s ds es
      → Serves alarm t ds' es'
  Serves-same s t ds ds' es es' fewer_ds fewer_es same_ds same_es h = record {
    delays = λ a inside. rw (same_ds a inside) (h.delays a (fewer_ds a inside));
    deliveries = λ a inside. rw (same_es a inside) (h.deliveries a (fewer_es a inside));
  }

  pub mail-Serves :
      (s t : Store) (ds es : List ℕ) → SameMail s t → Serves alarm s ds es → Serves alarm t ds es
  mail-Serves s t ds es mail =
      Serves-same s t ds ds es es (λ a h. h) (λ a h. h)
        (λ a h. ap (λ (m : Message). m.available_at) (mail a))
        (λ a h. ap (λ (m : Message). m.deadline) (mail a))

  pub update-Serves :
      (s : Store) (p : ℕ) (m : Message) (ds es : List ℕ)
      → count p ds ≡ 0
      → count p es ≡ 0
      → Serves alarm s ds es
      → Serves alarm (update s p m) ds es
  update-Serves s p m ds es no_d no_e =
      Serves-same s (update s p m) ds ds es es (λ a h. h) (λ a h. h)
        (λ a h. ap (λ (x : Message). x.available_at) (update_other s p a m (apart ds no_d a h)))
        (λ a h. ap (λ (x : Message). x.deadline) (update_other s p a m (apart es no_e a h)))
    where
      apart : (items : List ℕ) → count p items ≡ 0 → (a : ℕ) → 0 < count a items → a ≢ p
      apart items absent a inside e = omega (arith, ap (λ x. count x items) e)

  -- the message that was pushed is told by a kick, or needs none
  pub kicked :
      (b : Bool) (q : Queue)
      → (b ≡ false → Watched alarm q)
      → Watched alarm (if b then wake_scheduler q else q)
  kicked true q h quiet = cc
  kicked false q h quiet = h refl quiet

  module _ (q : Queue) (p : ℕ) (v : IsPlaced q) (loose : Loose p q) (w : Watched alarm q) where
    ready-Watched :
        Watched alarm (push_ready (set_message q p (record (q.store p) { state = ready })) p)
    unfolding push_ready set_message
    ready-Watched quiet =
        mail-Serves q.store _ q.delayed q.expiry
          (unfold push_ready set_message in (ready-Scheduled p q v loose).mail) (w quiet)

    abbrev told : Queue
    told = push_delayed (set_message q p (record (q.store p) { state = delayed })) p

    delayed-Watched : leads p told.delayed ≡ false → Watched alarm told
    unfolding push_delayed set_message delayed_less
    delayed-Watched behind quiet =
        let q₁ = set_message q p (record (q.store p) { state = delayed }) in
        let v₁ = set_message-IsPlaced q p v (record (q.store p) { state = delayed }) loose in
        let h₁ =
          update-Serves q.store p (record (q.store p) { state = delayed }) q.delayed q.expiry
            loose.1 loose.2 (w quiet) in
        record {
          delays =
              serves-heap_push alarm delayed_less delayed_less-IsOrder
                (λ (m : Message). m.available_at) (λ m n. refl) (λ m i. refl) (heap_of q₁ q.delayed)
                _ p
                (heap_push-Pushed delayed_less delayed_less-IsOrder (heap_of q₁ q.delayed) p
                  v₁.delays.heap loose.1)
                h₁.delays behind;
          deliveries =
              (mail-Serves q.store told.store q.delayed q.expiry
                (delayed-Scheduled p q v loose).mail (w quiet)).deliveries;
        }

    schedule-Watched : (delay : ℤ) → Watched alarm (schedule q p delay)
    unfolding schedule
    schedule-Watched delay = elim (Bool-cases (is_positive delay)) [
      | inl e ↦ rw e (kicked (leads p told.delayed) told delayed-Watched)
      | inr e ↦ rw e ready-Watched
    ]

    pub settle-Watched : (env : CallEnv) (delay : ℤ) → Watched alarm (settle env p delay q)
    unfolding settle
    settle-Watched env delay =
        maybe_compact-keeps (Watched alarm) env _ (schedule-Watched delay)
          (λ l. schedule-Watched delay)
