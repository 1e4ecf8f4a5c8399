-- ===== src/Queue/Restart/Compacted.antt =====
-- What a queue keeps in memory and its log agree on: every message, the configuration and the
-- counters. The compaction of internal/queue/compaction.go keeps it so.
use queuemaxxing.Base.{
  ℕ, ◌^◌, ◌<◌, ◌≤◌, ◌≡◌, refl, ap, ◌∙◌, Bool, true, false, Option-cases, inl, inr, some, List, [],
  ◌∷◌, map, lt→leb, ok, arith, if◌then◌else◌, count, ◌==◌, find-nil,
}
use queuemaxxing.Storage.Record.{Record, Enqueue, header, enqueue}
use queuemaxxing.Storage.Recovery.Replay.{apply_all}
use queuemaxxing.Queue.Clock.{from_millis, to_millis}
use queuemaxxing.Queue.Engine.State.{CallEnv, Queue, add_uint64}
use queuemaxxing.Queue.Engine.Compact.{
  enqueue_of, live_addresses, live_records, compact_header, compact_locked, maybe_compact,
}
use queuemaxxing.Queue.Replay.{
  Config, Replayed, new_queue, replay_start, put_live, message_of, replay_record,
}
use queuemaxxing.Queue.Replay.Snapshot.{
  Below, headed, replay_header, count_up, count_up-eq, snapshot_state,
}
use queuemaxxing.Queue.Engine.Operations.{mark_closed, close}
use queuemaxxing.Queue.Message.{Message, parse_ordering-text}
use queuemaxxing.Queue.Manager.{header_of}
use queuemaxxing.Queue.Places.Reach.{new_queue-IsValid}
use queuemaxxing.Queue.Places.{IsValid}
use queuemaxxing.Queue.Places.Schedule.{places}
use queuemaxxing.Queue.Restart.Live.{Backs}
use queuemaxxing.Queue.Restart.Inflight.{IsMap}
use queuemaxxing.Queue.Restart.Snapshot.{put_all, filed, live-places, snapshot-Backs}

-- the configuration as the log has it, in milliseconds
abbrev pub filed_config : Queue → Config
filed_config q = record {
  name = q.name;
  ordering = q.ordering;
  created_at = from_millis (to_millis q.created_at);
}

-- What replaying the log of `q` gives.
pub record Replays (q : Queue) : Type 0 where
  pub state : Replayed
  pub replayed : apply_all replay_record q.log replay_start ≡ ok state
  pub config : state.config ≡ some (filed_config q)
  pub next_seq : state.next_seq ≡ q.next_seq
  pub enqueued : state.enqueued ≡ q.enqueued
  pub acked : state.acked ≡ q.acked
  pub live : Backs state.live q

-- What holds of the messages and counters in memory.
pub record IsKept (q : Queue) : Type 0 where
  pub valid : IsValid q
  pub once : IsMap q.inflight
  pub below : (a : ℕ) → 0 < places a q → (q.store a).seq < q.next_seq
  pub started : 1 ≤ q.next_seq
  pub in_range : q.enqueued < 2 ^ 64

pub record IsBacked (q : Queue) : Type 0 where
  pub kept : IsKept q
  pub replays : Replays q

replay_all :
    (es : List Enqueue) (st : Replayed)
    → Below st.next_seq es
    → apply_all replay_record (map enqueue es) st
      ≡ ok (record st { live = put_all es st.live; enqueued = count_up es st.enqueued })
unfolding apply_all replay_record
replay_all [] st b = refl
replay_all (e ∷ es) st b = rw (lt→leb st.next_seq e.seq b.0) (
    replay_all es
      (record st {
        live = put_live e.id (message_of e) st.live;
        enqueued = add_uint64 st.enqueued 1;
      })
      b.1)

filed-Below :
    (q : Queue) (n : ℕ) (ps : List ℕ)
    → ((a : ℕ) → 0 < count a ps → (q.store a).seq < n)
    → Below n (filed q.store ps)
unfolding enqueue_of
filed-Below q n [] h = tt
filed-Below q n (a ∷ ps) h =
    (h a (ground arith), filed-Below q n ps (λ b inside. h b (ground arith)))

abbrev compacted : Queue → Queue
compacted q = record q { log = header (compact_header q) ∷ map enqueue (live_records q) }

relogged-IsKept : (q : Queue) (l : List Record) → IsKept q → IsKept (record q { log = l })
relogged-IsKept q l k = record {
  valid = record { placed = k.valid.placed; received = k.valid.received; unused = k.valid.unused };
  once = k.once;
  below = k.below;
  started = k.started;
  in_range = k.in_range;
}

module _ (q : Queue) (b : IsBacked q) where
  records-Below : Below q.next_seq (live_records q)
  unfolding live_records
  records-Below =
      filed-Below q q.next_seq (live_addresses q)
        (λ a inside. b.kept.below a (live-places q b.kept.valid b.kept.once a inside))

  replay_compacted :
      apply_all replay_record (compacted q).log replay_start
      ≡ ok (record (snapshot_state q) { live = put_all (live_records q) [] })
  unfolding apply_all
  replay_compacted =
      rw (replay_header q b.kept.started b.kept.in_range, apply_all)
        (replay_all (live_records q) (headed q b.kept.started b.kept.in_range) records-Below
          ∙ ap
              (λ n.
                ok (record (snapshot_state q) { live = put_all (live_records q) []; enqueued = n }))
              (count_up-eq (live_records q) _ (omega arith) ∙ omega (arith, b.kept.in_range)))

  compacted-IsBacked : IsBacked (compacted q)
  compacted-IsBacked = record {
    kept = relogged-IsKept q _ b.kept;
    replays = record {
      state = record (snapshot_state q) { live = put_all (live_records q) [] };
      replayed = replay_compacted;
      config = refl;
      next_seq = refl;
      enqueued = refl;
      acked = refl;
      live =
          let s = snapshot-Backs q b.kept.valid b.kept.once b.replays.live.unique in
          record { once = s.once; present = s.present; only = s.only; unique = s.unique };
    };
  }

  pub compact_locked-IsBacked : (env : CallEnv) → IsBacked (compact_locked env q).1
  unfolding compact_locked
  compact_locked-IsBacked env = elim (Option-cases env.compact_error) [
    | inl e ↦ simp (e, compact_locked) compacted-IsBacked
    | inr (why, e) ↦ simp (e, compact_locked) b
  ]

keeps_if : (t : Bool) (x y : Queue) → IsBacked x → IsBacked y → IsBacked (if t then x else y)
keeps_if true x y px py = px
keeps_if false x y px py = py

pub maybe_compact-IsBacked :
    (env : CallEnv) (q : Queue) → IsBacked q → IsBacked (maybe_compact env q)
unfolding maybe_compact
maybe_compact-IsBacked env q b =
    keeps_if _ _ _ b (keeps_if _ _ _ b (compact_locked-IsBacked q b env))

-- the flags of Close are none of the log's business
flagged-IsBacked :
    (q : Queue) (closed signalled log_open : Bool)
    → IsBacked q
    → IsBacked (record q { closed = closed; signalled = signalled; log_open = log_open })
flagged-IsBacked q closed signalled log_open b = record {
  kept = record {
    valid = record {
      placed = b.kept.valid.placed;
      received = b.kept.valid.received;
      unused = b.kept.valid.unused;
    };
    once = b.kept.once;
    below = b.kept.below;
    started = b.kept.started;
    in_range = b.kept.in_range;
  };
  replays = record {
    state = b.replays.state;
    replayed = b.replays.replayed;
    config = b.replays.config;
    next_seq = b.replays.next_seq;
    enqueued = b.replays.enqueued;
    acked = b.replays.acked;
    live = record {
      once = b.replays.live.once;
      present = b.replays.live.present;
      only = b.replays.live.only;
      unique = b.replays.live.unique;
    };
  };
}

pub close-IsBacked : (env : CallEnv) (q : Queue) → IsBacked q → IsBacked (close env q)
unfolding close
close-IsBacked env q b =
    let q₁ = mark_closed q in
    let b₁ = flagged-IsBacked q true true q.log_open b in
    let q₂ = if q.compact_threshold == 0 then q₁ else (compact_locked env q₁).1 in
    let b₂ = keeps_if (q.compact_threshold == 0) _ _ b₁ (compact_locked-IsBacked q₁ b₁ env) in
    keeps_if q.closed _ _ b (flagged-IsBacked q₂ q₂.closed q₂.signalled false b₂)

-- createQueue's queue, which has a header for its log
pub new_queue-IsBacked :
    (cfg : Config) (threshold : ℕ)
    → IsBacked (new_queue cfg (header (header_of cfg) ∷ []) 1 0 0 threshold)
unfolding apply_all replay_record
new_queue-IsBacked cfg threshold = record {
  kept = record {
    valid = new_queue-IsValid cfg (header (header_of cfg) ∷ []) 1 0 0 threshold;
    once = tt;
    below = λ a inside. absurd (omega arith);
    started = omega arith;
    in_range = omega arith;
  };
  replays = record {
    state = record replay_start {
      config = some (record cfg { created_at = from_millis (to_millis cfg.created_at) });
    };
    replayed = rw (parse_ordering-text cfg.ordering, replay_record, apply_all) refl;
    config = refl;
    next_seq = refl;
    enqueued = refl;
    acked = refl;
    live = record {
      once = tt;
      present = λ a inside. absurd (omega arith);
      only = λ id m found. absurd (cc (found, find-nil {A = Message} id));
      unique = λ a c in_a in_c e. absurd (omega arith);
    };
  };
}
