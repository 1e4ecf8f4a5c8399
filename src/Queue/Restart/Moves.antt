-- ===== src/Queue/Restart/Moves.antt =====
-- Messages that move about, and a record more in the log.
use queuemaxxing.Base.{ℕ, ◌≡◌, refl, sym, ap, ◌∙◌, some, [], ◌∷◌, ◌++◌, ok, arith}
use queuemaxxing.Storage.Record.{Enqueue, Record}
use queuemaxxing.Storage.Recovery.Replay.{apply_all, apply_all-concat}
use queuemaxxing.Queue.Clock.{to_millis, from_millis}
use queuemaxxing.Queue.Message.{Message}
use queuemaxxing.Queue.Engine.State.{Queue}
use queuemaxxing.Queue.Engine.Compact.{enqueue_of}
use queuemaxxing.Queue.Replay.{replay_record, replay_start, Config, Replayed}
use queuemaxxing.Queue.Counters.{SameBooks}
use queuemaxxing.Queue.Places.{IsValid}
use queuemaxxing.Queue.Places.Schedule.{places}
use queuemaxxing.Queue.Places.Steps.{one}
use queuemaxxing.Queue.Restart.Live.{Backs, SameFiles, moved-Backs}
use queuemaxxing.Queue.Restart.Inflight.{IsMap}
use queuemaxxing.Queue.Restart.Compacted.{filed_config, Replays, IsBacked}

pub seq-file : (m : Message) → (enqueue_of m).seq ≡ m.seq
unfolding enqueue_of
seq-file m = refl

-- the same file, the same number
pub same_seq : (m n : Message) → enqueue_of m ≡ enqueue_of n → m.seq ≡ n.seq
unfolding enqueue_of
same_seq m n e = ap (λ (x : Enqueue). x.seq) e

abbrev rounded : Config → Config
rounded c = record c { created_at = from_millis (to_millis c.created_at) }

-- a queue with the log and the counters of one whose log is known
pub books-Replays :
    (q r : Queue)
    → SameBooks q r
    → (st : Replayed) → apply_all replay_record r.log replay_start ≡ ok st
    → st.config ≡ some (filed_config r)
    → st.next_seq ≡ r.next_seq
    → st.enqueued ≡ r.enqueued
    → st.acked ≡ r.acked
    → Backs st.live q
    → Replays q
books-Replays q r books st replayed config next_seq enqueued acked live = record {
  state = st;
  replayed = ap (λ l. apply_all replay_record l replay_start) books.log ∙ replayed;
  config = config ∙ sym (ap (λ c. some (rounded c)) books.config);
  next_seq = next_seq ∙ sym books.next_seq;
  enqueued = enqueued ∙ sym books.enqueued;
  acked = acked ∙ sym books.acked;
  live = live;
}

-- Messages that only move about, with the same log and counters.
pub moved-IsBacked :
    (q q' : Queue)
    → IsBacked q
    → IsValid q'
    → SameFiles q.store q'.store
    → ((a : ℕ) → places a q' ≡ places a q)
    → SameBooks q' q
    → IsMap q'.inflight
    → IsBacked q'
moved-IsBacked q q' b v files same books once = record {
  kept = record {
    valid = v;
    once = once;
    below = λ a inside. ground (
      arith,
      same_seq (q'.store a) (q.store a) (files a),
      books.next_seq,
      b.kept.below a (rw (same a) at inside),
    );
    started = rw books.next_seq b.kept.started;
    in_range = rw books.enqueued b.kept.in_range;
  };
  replays =
      books-Replays q' q books b.replays.state b.replays.replayed b.replays.config
        b.replays.next_seq b.replays.enqueued b.replays.acked
        (moved-Backs b.replays.state.live q q' files same b.replays.live);
}

module _ (q : Queue) (b : IsBacked q) where
  -- the log's next record
  pub logged :
      (r : Record) (st : Replayed)
      → replay_record r b.replays.state ≡ ok st
      → apply_all replay_record (q.log ++ r ∷ []) replay_start ≡ ok st
  logged r st one =
      apply_all-concat replay_record q.log r replay_start b.replays.state st b.replays.replayed one
