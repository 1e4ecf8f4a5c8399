-- ===== src/Queue/Places/Schedule.antt =====
-- The end of Enqueue and Nack in queue.go, and the moves of processDue in scheduler.go: a message
-- that is in no heap becomes ready or delayed.
use queuemaxxing.Base.{
  ℕ, ◌+◌, ◌≡◌, refl, sym, ap, ◌∙◌, Bool, true, false, Bool-cases, inl, inr, ℤ, count, count-perm,
  ◌==◌, ==_refl, if◌then◌else◌, arith,
}
use queuemaxxing.Queue.Message.{Message, State, ready, delayed}
use queuemaxxing.Queue.Heap.{Store, ready_less, delayed_less, update, heap_push}
use queuemaxxing.Queue.Heap.Swaps.{SameMessages}
use queuemaxxing.Queue.Heap.Order.{ready_less-IsOrder, delayed_less-IsOrder}
use queuemaxxing.Queue.Heap.Push.{heap_push-Pushed}
use queuemaxxing.Queue.Engine.State.{
  Queue, heap_of, push_ready, push_delayed, set_message, leads, wake_scheduler, broadcast,
}
use queuemaxxing.Queue.Engine.Operations.{is_positive, schedule}
use queuemaxxing.Queue.Places.Moves.{
  IsPlaced, Loose, set_message-IsPlaced, with_ready-push, with_delayed-push,
}

-- The stores differ at most in states and positions.
abbrev pub SameMail : Store → Store → Type 0
SameMail s t = (a : ℕ) → t a ≡ record (s a) { state = (t a).state; index = (t a).index }

pub SameMail-trans : (s t u : Store) → SameMail s t → SameMail t u → SameMail s u
SameMail-trans s t u f g a =
    g a ∙ ap (λ (m : Message). record m { state = (u a).state; index = (u a).index }) (f a)

pub SameMessages-SameMail : (s t : Store) → SameMessages s t → SameMail s t
SameMessages-SameMail s t f a =
    f a
    ∙ ap (λ (x : State). record (s a) { state = x; index = (t a).index })
        (sym (ap (λ (m : Message). m.state) (f a)))

pub update-SameMail :
    (s : Store) (p : ℕ) (x : State) → SameMail s (update s p (record (s p) { state = x }))
unfolding update
update-SameMail s p x a = elim (Bool-cases (p == a)) [
  | inl e ↦ let is : p ≡ a = ground arith in rw (is, ==_refl a) refl
  | inr e ↦ rw e refl
]

-- in how many places a message stands
abbrev pub places : ℕ → Queue → ℕ
places a q = count a q.ready + (count a q.delayed + count a q.expiry)

-- `q'` is `q` with `p` in one place more, neither delivered nor changed but in its state.
pub record Scheduled (p : ℕ) (q q' : Queue) : Type 0 where
  pub placed : IsPlaced q'
  pub mail : SameMail q.store q'.store
  pub moved : (a : ℕ) → places a q' ≡ (if p == a then 1 else 0) + places a q
  pub expiry : q'.expiry ≡ q.expiry
  pub inflight : q'.inflight ≡ q.inflight
  pub next_address : q'.next_address ≡ q.next_address

Scheduled-wake : (p : ℕ) (q q' : Queue) → Scheduled p q q' → Scheduled p q (wake_scheduler q')
Scheduled-wake p q q' s = record {
  placed = s.placed;
  mail = s.mail;
  moved = s.moved;
  expiry = s.expiry;
  inflight = s.inflight;
  next_address = s.next_address;
}

pub Scheduled-broadcast : (p : ℕ) (q q' : Queue) → Scheduled p q q' → Scheduled p q (broadcast q')
Scheduled-broadcast p q q' s = record {
  placed = s.placed;
  mail = s.mail;
  moved = s.moved;
  expiry = s.expiry;
  inflight = s.inflight;
  next_address = s.next_address;
}

module _ (p : ℕ) (q : Queue) (v : IsPlaced q) (loose : Loose p q) where
  abbrev marked : State → Store
  marked x = update q.store p (record (q.store p) { state = x })

  marked_state : (x : State) → (marked x p).state ≡ x
  unfolding update
  marked_state x = rw (==_refl p)

  pub ready-Scheduled :
      Scheduled p q (push_ready (set_message q p (record (q.store p) { state = ready })) p)
  unfolding push_ready set_message
  ready-Scheduled =
      let q₁ : Queue = record q { store = marked ready } in
      let v₁ : IsPlaced q₁ =
        unfold set_message in
        (set_message-IsPlaced q p v (record (q.store p) { state = ready }) loose) in
      let h = heap_push (ready_less q.ordering) (heap_of q₁ q.ready) p in
      let pushed =
        heap_push-Pushed (ready_less q.ordering) (ready_less-IsOrder q.ordering)
          (heap_of q₁ q.ready) p v₁.readies.heap loose.0 in
      record {
        placed = with_ready-push q₁ p v₁ h loose (marked_state ready) pushed;
        mail =
            SameMail-trans q.store (marked ready) h.store (update-SameMail q.store p ready)
              (SameMessages-SameMail (marked ready) h.store pushed.messages);
        moved = λ a. omega (arith, count-perm a pushed.items);
        expiry = refl;
        inflight = refl;
        next_address = refl;
      }

  pub delayed-Scheduled :
      Scheduled p q (push_delayed (set_message q p (record (q.store p) { state = delayed })) p)
  unfolding push_delayed set_message
  delayed-Scheduled =
      let q₁ : Queue = record q { store = marked delayed } in
      let v₁ : IsPlaced q₁ =
        unfold set_message in
        (set_message-IsPlaced q p v (record (q.store p) { state = delayed }) loose) in
      let h = heap_push delayed_less (heap_of q₁ q.delayed) p in
      let pushed =
        heap_push-Pushed delayed_less delayed_less-IsOrder (heap_of q₁ q.delayed) p v₁.delays.heap
          loose.1 in
      record {
        placed = with_delayed-push q₁ p v₁ h loose (marked_state delayed) pushed;
        mail =
            SameMail-trans q.store (marked delayed) h.store (update-SameMail q.store p delayed)
              (SameMessages-SameMail (marked delayed) h.store pushed.messages);
        moved = λ a. omega (arith, count-perm a pushed.items);
        expiry = refl;
        inflight = refl;
        next_address = refl;
      }

  pub schedule-Scheduled : (delay : ℤ) → Scheduled p q (schedule q p delay)
  schedule-Scheduled delay = elim (Bool-cases (is_positive delay)) [
    | inl e ↦ rw (schedule_delayed e) (
        woken (
          leads p
            (push_delayed (set_message q p (record (q.store p) { state = delayed })) p).delayed))
    | inr e ↦ rw (schedule_ready e) ready-Scheduled
  ]
    where
      q' : Queue
      q' = push_delayed (set_message q p (record (q.store p) { state = delayed })) p

      schedule_delayed :
          is_positive delay ≡ true
          → schedule q p delay ≡ (if leads p q'.delayed then wake_scheduler q' else q')
      schedule_delayed e = unfold schedule in rw e

      schedule_ready :
          is_positive delay ≡ false
          → schedule q p delay
            ≡ push_ready (set_message q p (record (q.store p) { state = ready })) p
      schedule_ready e = unfold schedule in rw e

      woken : (b : Bool) → Scheduled p q (if b then wake_scheduler q' else q')
      woken true = Scheduled-wake p q q' delayed-Scheduled
      woken false = delayed-Scheduled
