-- ===== src/Queue/Engine/Compact.antt =====
-- internal/queue/compaction.go.
use queuemaxxing.Base.{
  ℕ, ◌+◌, ◌-◌, ◌*◌, ◌%◌, ◌^◌, ◌||◌, Option, none, some, List, ◌∷◌, ◌++◌, map, length, ltb, ◌==◌,
  if◌then◌else◌,
}
use queuemaxxing.Storage.Record.{Header, Enqueue, header, enqueue}
use queuemaxxing.Storage.Log.{LogError}
use queuemaxxing.Queue.Clock.{to_millis}
use queuemaxxing.Queue.Message.{Message, ordering_text}
use queuemaxxing.Queue.Engine.State.{Queue, CallEnv, Inflight}

unfoldable pub live_count : Queue → ℕ
live_count q = length q.ready + length q.delayed + length q.inflight

-- the Enqueue record of one live message
unfoldable pub enqueue_of : Message → Enqueue
enqueue_of m = record {
  id = m.id;
  seq = m.seq;
  priority = m.priority;
  created_at = to_millis m.created_at;
  available_at = to_millis m.available_at;
  body = m.body;
}

abbrev pub addresses : Inflight → List ℕ
addresses m = map (λ entry. entry.1) m

-- ready, delayed, then in flight
abbrev pub live_addresses : Queue → List ℕ
live_addresses q = q.ready ++ (q.delayed ++ addresses q.inflight)

unfoldable pub live_records : Queue → List Enqueue
unfolding enqueue_of
live_records q = map (λ p. enqueue_of (q.store p)) (live_addresses q)

-- uint64 subtraction
abbrev pub sub_uint64 : ℕ → ℕ → ℕ
sub_uint64 a b = (a + 2 ^ 64 - b % 2 ^ 64) % 2 ^ 64

unfoldable pub compact_header : Queue → Header
unfolding live_records
compact_header q = record {
  name = q.name;
  ordering = ordering_text q.ordering;
  created_at = to_millis q.created_at;
  next_seq = q.next_seq;
  total_enqueued = sub_uint64 q.enqueued (length (live_records q));
  total_acked = q.acked;
}

-- The records that the log has accepted are the snapshot where Compact returns nil, and the old ones
-- otherwise. Where the directory's sync fails behind the rename, the log's handle is on the file of the
-- old ones, and the path on the snapshot's (Storage.Compaction.StaleHandle).
unfoldable pub compact_locked : CallEnv → Queue → Option LogError × Queue
unfolding compact_header live_records
compact_locked env q = elim env.compact_error [
  | some e ↦ (some e, q)
  | none ↦ (none, record q { log = header (compact_header q) ∷ map enqueue (live_records q) })
]

unfoldable pub maybe_compact : CallEnv → Queue → Queue
unfolding compact_locked live_count
maybe_compact env q =
    let records = length q.log in
    if q.compact_threshold == 0
    then q
    else if ltb records q.compact_threshold || ltb records (2 * (live_count q + 1))
    then q
    else (compact_locked env q).1
