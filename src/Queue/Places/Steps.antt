-- ===== src/Queue/Places/Steps.antt =====
-- One step of a queue: the invariant behind it, and the messages that it adds and removes.
use queuemaxxing.Base.{
  ℕ, ◌+◌, ◌<◌, ◌≤◌, ◌≡◌, sym, ap, ◌∙◌, Bool, true, false, Option-cases, inl, inr, ℤ, pos, pos_part,
  List, count, get_or-count, ◌==◌, if◌then◌else◌, arith,
}
use queuemaxxing.Storage.Record.{Record}
use queuemaxxing.Queue.Message.{Message}
use queuemaxxing.Queue.Heap.{expiry_less, heap_remove}
use queuemaxxing.Queue.Heap.Order.{expiry_less-IsOrder}
use queuemaxxing.Queue.Heap.Contract.{Popped}
use queuemaxxing.Queue.Heap.Remove.{heap_remove-Popped}
use queuemaxxing.Queue.Engine.State.{Queue, CallEnv, heap_of, broadcast}
use queuemaxxing.Queue.Engine.Compact.{compact_locked, maybe_compact}
use queuemaxxing.Queue.Engine.Operations.{schedule}
use queuemaxxing.Queue.Places.{Received, IsValid}
use queuemaxxing.Queue.Places.Moves.{IsPlaced, Loose}
use queuemaxxing.Queue.Places.Receipts.{Received-same}
use queuemaxxing.Queue.Places.Schedule.{places, Scheduled-broadcast, schedule-Scheduled}

-- one place for `p`, and none for all others
abbrev pub one : ℕ → ℕ → ℕ
one p a = if p == a then 1 else 0

abbrev pub nothing : ℕ → ℕ
nothing a = 0

-- `q'` is in order, and its messages are those of `q` with `more` of each and without `fewer`.
pub record Moved (q q' : Queue) (more fewer : ℕ → ℕ) : Type 0 where
  pub valid : IsValid q'
  pub balance : (a : ℕ) → places a q' + fewer a ≡ places a q + more a

keeps_if : (P : Queue → Type 0) (b : Bool) (x y : Queue) → P x → P y → P (if b then x else y)
keeps_if P true x y px py = px
keeps_if P false x y px py = py

-- a compaction changes the log and nothing else
pub compact_locked-keeps :
    (P : Queue → Type 0) (env : CallEnv) (q : Queue)
    → P q
    → ((l : List Record) → P (record q { log = l }))
    → P (compact_locked env q).1
unfolding compact_locked
compact_locked-keeps P env q same other = elim (Option-cases env.compact_error) [
  | inl e ↦ simp (e, compact_locked) (other _)
  | inr (why, e) ↦ simp (e, compact_locked) same
]

pub maybe_compact-keeps :
    (P : Queue → Type 0) (env : CallEnv) (q : Queue)
    → P q
    → ((l : List Record) → P (record q { log = l }))
    → P (maybe_compact env q)
unfolding maybe_compact
maybe_compact-keeps P env q same other =
    keeps_if P _ _ _ same (keeps_if P _ _ _ same (compact_locked-keeps P env q same other))

pub maybe_compact-Moved :
    (env : CallEnv) (q q' : Queue) (more fewer : ℕ → ℕ)
    → Moved q q' more fewer
    → Moved q (maybe_compact env q') more fewer
maybe_compact-Moved env q q' more fewer v =
    maybe_compact-keeps (λ x. Moved q x more fewer) env q' v
      (λ l. record {
        valid = record {
          placed = v.valid.placed;
          received = v.valid.received;
          unused = v.valid.unused;
        };
        balance = v.balance;
      })

-- a message of the expiry heap leaves it by the position that it keeps
pub remove_expiry-Popped :
    (q : Queue) (p : ℕ)
    → IsPlaced q
    → 0 < count p q.expiry
    → Popped expiry_less
        (heap_of q q.expiry)
        p
        (heap_remove expiry_less (heap_of q q.expiry) (pos_part (q.store p).index)).1
remove_expiry-Popped q p v inside =
    let (c, within, is) = get_or-count p q.expiry 0 inside in
    let at : (q.store p).index ≡ pos c =
      ap (λ x. (q.store x).index) (sym is) ∙ v.deliveries.heap.indexed c within in
    rw (ap pos_part at) (
      rw is at
        (heap_remove-Popped expiry_less expiry_less-IsOrder (heap_of q q.expiry) c within
          v.deliveries.heap).1)

-- what settles a message
module _ (p : ℕ) (delay : ℤ) (q : Queue) (v : IsPlaced q) (loose : Loose p q)
    (received : Received q.store q.expiry q.inflight)
    (unused : (a : ℕ) → q.next_address ≤ a → one p a + places a q ≡ 0) where
  pub scheduled-Moved : Moved q (broadcast (schedule q p delay)) (one p) nothing
  scheduled-Moved =
      let s = Scheduled-broadcast p q (schedule q p delay) (schedule-Scheduled p q v loose delay) in
      record {
        valid = record {
          placed = s.placed;
          received =
              rw (s.expiry, s.inflight)
                (Received-same q.store (broadcast (schedule q p delay)).store q.expiry q.inflight
                  (λ a inside. ap (λ (m : Message). m.receipt) (s.mail a)) received);
          unused = λ a far. s.moved a ∙ unused a (rw s.next_address at far);
        };
        balance = λ a. omega (arith, s.moved a);
      }
