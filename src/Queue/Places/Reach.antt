-- ===== src/Queue/Places/Reach.antt =====
-- The queues that openQueue of queue.go gives, and those that calls make of them.
use mathlib.Core.Path.{fun_ext}
use text.Mathlib.Text.{◌==◌ as str_eq}
use queuemaxxing.Base.{
  ℕ, ◌+◌, ◌≤◌, ◌≡◌, ap, String, Bool, true, false, Bool-cases, inl, inr, Option, none, some, List,
  [], ◌∷◌, count, ==_refl, Result, ok, err, if◌then◌else◌, arith,
}
use queuemaxxing.Storage.Record.{Record}
use queuemaxxing.Storage.Recovery.Replay.{apply_all}
use queuemaxxing.Queue.Clock.{Time, after}
use queuemaxxing.Queue.Message.{Message}
use queuemaxxing.Queue.Heap.{Store, update}
use queuemaxxing.Queue.Engine.State.{QueueError, CallEnv, Queue, set_message, lookup}
use queuemaxxing.Queue.Engine.Calls.{Call, perform}
use queuemaxxing.Queue.Replay.{
  Config, Live, Replayed, ReplayError, no_header, other_name, replay_start, replay_record, revive,
  revive_all, new_queue, rebuild, open_queue,
}
use queuemaxxing.Queue.Places.{Received, IsValid}
use queuemaxxing.Queue.Places.Moves.{IsPlaced, Loose, set_message-IsPlaced}
use queuemaxxing.Queue.Places.Receipts.{Received-same}
use queuemaxxing.Queue.Places.Changes.{update_other}
use queuemaxxing.Queue.Places.Schedule.{Scheduled, ready-Scheduled, delayed-Scheduled}
use queuemaxxing.Queue.Places.Steps.{one, nothing, Moved}
use queuemaxxing.Queue.Places.Calls.{IsFresh, Performed, perform-Performed}

-- no message, no delivery
pub new_queue-IsValid :
    (cfg : Config) (records : List Record) (next_seq enqueued acked threshold : ℕ)
    → IsValid (new_queue cfg records next_seq enqueued acked threshold)
unfolding lookup
new_queue-IsValid cfg records next_seq enqueued acked threshold = record {
  placed = record {
    readies = record {
      heap = record {
        ordered = λ c p q. absurd (omega arith);
        indexed = λ c p. absurd (omega arith);
      };
      states = λ p h. absurd (omega arith);
    };
    delays = record {
      heap = record {
        ordered = λ c p q. absurd (omega arith);
        indexed = λ c p. absurd (omega arith);
      };
      states = λ p h. absurd (omega arith);
    };
    deliveries = record {
      heap = record {
        ordered = λ c p q. absurd (omega arith);
        indexed = λ c p. absurd (omega arith);
      };
      states = λ p h. absurd (omega arith);
    };
  };
  received = record { known = λ p h. absurd (omega arith); real = λ r p h. cc };
  unused = λ p h. omega arith;
}

update_twice : (s : Store) (p : ℕ) (m n : Message) → update (update s p m) p n ≡ update s p n
unfolding update
update_twice s p m n = fun_ext (λ a. ground arith)

update_self : (s : Store) (p : ℕ) (m : Message) → update s p m p ≡ m
unfolding update
update_self s p m = rw (==_refl p)

module _ (now : Time) (q : Queue) (m : Message) (v : IsValid q) where
  abbrev stored : Queue
  stored = record q { next_address = q.next_address + 1; store = update q.store q.next_address m }

  stored_Loose : Loose q.next_address stored
  stored_Loose =
      let none_there = v.unused q.next_address (omega arith) in
      (omega arith, omega arith, omega arith)

  stored-IsPlaced : IsPlaced stored
  stored-IsPlaced =
      unfold set_message in set_message-IsPlaced q q.next_address v.placed m stored_Loose

  stored-Received : Received stored.store stored.expiry stored.inflight
  stored-Received =
      Received-same q.store (update q.store q.next_address m) q.expiry q.inflight
        (λ a inside.
          ap (λ (x : Message). x.receipt)
            (update_other q.store q.next_address a m
              (λ e. omega (arith, ap (λ x. count x q.expiry) e, stored_Loose.2))))
        v.received

  revived :
      (q' : Queue) → Scheduled q.next_address stored q' → Moved q q' (one q.next_address) nothing
  revived q' s = record {
    valid = record {
      placed = s.placed;
      received =
          rw (s.expiry, s.inflight)
            (Received-same stored.store q'.store q.expiry q.inflight
              (λ a inside. ap (λ (x : Message). x.receipt) (s.mail a)) stored-Received);
      unused = λ a far.
          let later : q.next_address + 1 ≤ a = rw s.next_address at far in
          ground (arith, s.moved a, v.unused a (omega arith));
    };
    balance = λ a. omega (arith, s.moved a);
  }

  revive-Moved : Moved q (revive now q m) (one q.next_address) nothing
  unfolding revive set_message
  revive-Moved = elim (Bool-cases (after m.available_at now)) [
    | inl e ↦ rw e (
        rw (update_self q.store q.next_address m, update_twice q.store q.next_address m _) at
          (revived _ (delayed-Scheduled q.next_address stored stored-IsPlaced stored_Loose)))
    | inr e ↦ rw e (
        rw (update_self q.store q.next_address m, update_twice q.store q.next_address m _) at
          (revived _ (ready-Scheduled q.next_address stored stored-IsPlaced stored_Loose)))
  ]

revive_all-IsValid :
    (now : Time) (q : Queue) (live : Live) → IsValid q → IsValid (revive_all now q live)
unfolding revive_all
revive_all-IsValid now q [] v = v
revive_all-IsValid now q ((_, m) ∷ live) v =
    revive_all-IsValid now (revive now q m) live (revive-Moved now q m v).valid

named-IsValid :
    (b : Bool) (x y : Result ReplayError Queue) (q : Queue)
    → ((r : Queue) → x ≡ ok r → IsValid r)
    → ((r : Queue) → y ≡ ok r → IsValid r)
    → (if b then x else y) ≡ ok q
    → IsValid q
named-IsValid true x y q f g h = f q h
named-IsValid false x y q f g h = g q h

rebuild-IsValid :
    (name : String) (now : Time) (threshold : ℕ) (records : List Record) (st : Replayed) (q : Queue)
    → rebuild name now threshold records st ≡ ok q
    → IsValid q
unfolding rebuild
rebuild-IsValid name now threshold records st = configured st.config
  where
    fresh : Config → Queue
    fresh cfg = new_queue cfg records st.next_seq st.enqueued st.acked threshold

    configured :
        (o : Option Config) (q : Queue)
        → (elim o as (λ _. Result ReplayError Queue) [
          | none ↦ err no_header
          | some cfg ↦
              if str_eq cfg.name name
              then ok (revive_all now (fresh cfg) st.live)
              else err (other_name cfg.name)
        ])
          ≡ ok q
        → IsValid q
    configured none q h = cc
    configured (some cfg) q h =
        named-IsValid (str_eq cfg.name name) (ok (revive_all now (fresh cfg) st.live))
          (err (other_name cfg.name)) q
          (λ r e.
            let is : revive_all now (fresh cfg) st.live ≡ r = cc in
            rw is at (
              revive_all-IsValid now (fresh cfg) st.live
                (new_queue-IsValid cfg records st.next_seq st.enqueued st.acked threshold)))
          (λ r e. cc) h

pub open_queue-IsValid :
    (name : String) (now : Time) (threshold : ℕ) (records : List Record) (q : Queue)
    → open_queue name now threshold records ≡ ok q
    → IsValid q
unfolding open_queue
open_queue-IsValid name now threshold records =
    replayed (apply_all replay_record records replay_start)
  where
    replayed :
        (x : Result ReplayError Replayed) (q : Queue)
        → (elim x as (λ _. Result ReplayError Queue) [
          | err e ↦ err e
          | ok st ↦ rebuild name now threshold records st
        ])
          ≡ ok q
        → IsValid q
    replayed (err e) q h = cc
    replayed (ok st) q h = rebuild-IsValid name now threshold records st q h

-- `s` is what some calls make of `q`, whatever each returns, with tokens that are not in use.
pub data Reaches (q : Queue) : Queue → Type 0 where
  here : Reaches q q
  next :
      {r s : Queue} (env : CallEnv) (c : Call)
      → Reaches q r
      → IsFresh env r
      → s ≡ (perform env c r).1
      → Reaches q s

pub performed-IsValid :
    (c : Call) (q : Queue) (x : Option QueueError × Queue)
    → IsValid q
    → Performed c q x
    → IsValid x.1
performed-IsValid c q (none, q') v done = done.valid
performed-IsValid c q (some e, q') v done = rw done v

Reaches-IsValid : {q r : Queue} → IsValid q → Reaches q r → IsValid r
Reaches-IsValid v here = v
Reaches-IsValid {r = s} v (next {r = r} env c before fresh e) =
    let was = Reaches-IsValid v before in
    rw e (performed-IsValid c r (perform env c r) was (perform-Performed env c r was fresh))

-- Whatever log openQueue has opened, and whatever calls have followed, with tokens that are not in
-- use: the queue is in order. Its heaps are heaps by their comparators, every message knows its
-- position and has the state of its heap, so that it is in one heap only, and the receipts lead to
-- exactly the messages that are delivered.
pub opened_queue_stays_valid :
    (name : String) (now : Time) (threshold : ℕ) (records : List Record) (q r : Queue)
    → open_queue name now threshold records ≡ ok q
    → Reaches q r
    → IsValid r
opened_queue_stays_valid name now threshold records q r opened run =
    Reaches-IsValid (open_queue-IsValid name now threshold records q opened) run
