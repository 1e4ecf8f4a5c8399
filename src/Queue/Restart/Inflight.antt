-- ===== src/Queue/Restart/Inflight.antt =====
-- The in-flight map of queue.go has each receipt once, so that compaction finds each delivery once.
use text.Mathlib.Text.{◌==◌ as str_eq}
use text.Mathlib.TextEquality.{eq_iff}
use queuemaxxing.Base.{
  ℕ, zero, suc, ◌<◌, ◌≡◌, refl, ap, String, Bool, true, false, Bool-cases, inl, inr, some, none, [],
  ◌∷◌, length, count, ◌==◌, ℤ, arith, if◌then◌else◌,
}
use queuemaxxing.Queue.Clock.{Time}
use queuemaxxing.Queue.Heap.{peek}
use queuemaxxing.Queue.Engine.State.{
  CallEnv, Queue, Inflight, lookup, delete, insert, lookup-delete, lookup-delete_self,
  pop_ready_heap, pop_delayed_heap, pop_expiry_heap, set_message, push_ready, push_expiry,
  broadcast,
}
use queuemaxxing.Queue.Engine.Compact.{addresses}
use queuemaxxing.Queue.Engine.Operations.{pop_with}
use queuemaxxing.Queue.Engine.Scheduler.{promote, expire, promote_due, expire_due, process_due}
use queuemaxxing.Queue.Places.{IsValid}
use queuemaxxing.Queue.Places.Wakeup.{loop_round}

-- no receipt stands twice
abbrev pub IsMap : Inflight → Type 0
IsMap [] = Unit {0}
IsMap ((r, p) ∷ m) = (lookup r m ≡ none) × IsMap m

pub delete-IsMap : (r : String) (m : Inflight) → IsMap m → IsMap (delete r m)
unfolding delete
delete-IsMap r [] h = tt
delete-IsMap r ((s, p) ∷ m) h = elim (Bool-cases (str_eq s r)) [
  | inl e ↦ rw e (delete-IsMap r m h.1)
  | inr e ↦ rw e (ground (arith, lookup-delete r s m, h.0), delete-IsMap r m h.1)
]

insert-IsMap : (r : String) (p : ℕ) (m : Inflight) → IsMap m → IsMap (insert r p m)
unfolding insert
insert-IsMap r p m h = (lookup-delete_self r m, delete-IsMap r m h)

-- an address of the map is the delivery of some receipt
lookup-addresses :
    (m : Inflight) (a : ℕ)
    → IsMap m
    → 0 < count a (addresses m)
    → (r : String) × (lookup r m ≡ some a)
unfolding lookup
lookup-addresses [] a h inside = absurd (omega arith)
lookup-addresses ((s, p) ∷ m) a h inside = elim (Bool-cases (p == a)) [
  | inl e ↦ (s, ground (arith, eq_iff s s))
  | inr e ↦
      let (r, found) = lookup-addresses m a h.1 (ground arith) in
      (
        r,
        elim (Bool-cases (str_eq s r)) [
          | inl same ↦
              let is : s ≡ r = (eq_iff s r).0 same in
              absurd (cc (h.0, found, ap (λ x. lookup x m) is))
          | inr other ↦ rw other found
        ],
      )
]

addresses-lookup :
    (m : Inflight) (r : String) (a : ℕ) → lookup r m ≡ some a → 0 < count a (addresses m)
unfolding lookup
addresses-lookup [] r a found = cc
addresses-lookup ((s, p) ∷ m) r a found = elim (Bool-cases (str_eq s r)) [
  | inl e ↦ let is : p ≡ a = cc (found, e) in ground arith
  | inr e ↦ ground (arith, addresses-lookup m r a (rw e at found))
]

-- what is in flight is what may expire
pub in_flight-expiry :
    (q : Queue) (a : ℕ)
    → IsValid q
    → IsMap q.inflight
    → 0 < count a (addresses q.inflight)
    → 0 < count a q.expiry
in_flight-expiry q a v h inside =
    let (r, found) = lookup-addresses q.inflight a h inside in (v.received.real r a found).0

pub expiry-in_flight :
    (q : Queue) (a : ℕ) → IsValid q → 0 < count a q.expiry → 0 < count a (addresses q.inflight)
expiry-in_flight q a v inside =
    addresses-lookup q.inflight (q.store a).receipt a (v.received.known a inside)

pub pop_with-IsMap :
    (env : CallEnv) (visibility : ℤ) (r : String) (q : Queue)
    → IsMap q.inflight
    → IsMap (pop_with env visibility r q).1.inflight
pop_with-IsMap env visibility r q h =
    let is : (pop_with env visibility r q).1.inflight ≡ insert r (pop_ready_heap q).0 q.inflight =
      unfold pop_with pop_ready_heap set_message push_expiry in ground arith in
    rw is (insert-IsMap r (pop_ready_heap q).0 q.inflight h)

promote-inflight : (q : Queue) (p : ℕ) → (promote q p).inflight ≡ q.inflight
unfolding promote pop_delayed_heap set_message push_ready
promote-inflight q p = refl

expire-IsMap : (q : Queue) (p : ℕ) → IsMap q.inflight → IsMap (expire q p).inflight
unfolding expire pop_expiry_heap set_message push_ready
expire-IsMap q p h = delete-IsMap _ q.inflight h

module _ (now : Time) where
  promote_due-IsMap :
      (fuel : ℕ) (q : Queue) (b : Bool)
      → IsMap q.inflight
      → IsMap (promote_due fuel now (q, b)).0.inflight
  unfolding promote_due
  promote_due-IsMap zero q b h = h
  promote_due-IsMap (suc fuel) q b h =
      loop_round now (λ r. IsMap r.0.inflight) q.delayed (λ p. (q.store p).available_at) (q, b)
        (λ p. promote_due fuel now (promote q p, true)) (λ e. h) (λ p e late. h)
        (λ p e. promote_due-IsMap fuel (promote q p) true (rw (promote-inflight q p) h))
        (peek q.delayed) refl

  expire_due-IsMap :
      (fuel : ℕ) (q : Queue) (b : Bool)
      → IsMap q.inflight
      → IsMap (expire_due fuel now (q, b)).0.inflight
  unfolding expire_due
  expire_due-IsMap zero q b h = h
  expire_due-IsMap (suc fuel) q b h =
      loop_round now (λ r. IsMap r.0.inflight) q.expiry (λ p. (q.store p).deadline) (q, b)
        (λ p. expire_due fuel now (expire q p, true)) (λ e. h) (λ p e late. h)
        (λ p e. expire_due-IsMap fuel (expire q p) true (expire-IsMap q p h)) (peek q.expiry) refl

  pub process_due-IsMap : (q : Queue) → IsMap q.inflight → IsMap (process_due now q).1.inflight
  unfolding process_due
  process_due-IsMap q h =
      let first = promote_due (length q.delayed) now (q, false) in
      let second = expire_due (length first.0.expiry) now first in
      told second.1 second.0 (
        expire_due-IsMap (length first.0.expiry) first.0 first.1
          (promote_due-IsMap (length q.delayed) q false h))
    where
      told :
          (b : Bool) (r : Queue) → IsMap r.inflight → IsMap (if b then broadcast r else r).inflight
      told true r f = f
      told false r f = f
