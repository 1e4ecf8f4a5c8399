-- ===== src/Queue/Replay/Snapshot.antt =====
-- Replaying what compaction wrote.
use text.Mathlib.Text.{◌==◌ as str_eq}
use queuemaxxing.Base.{
  ℕ, ◌+◌, ◌%◌, ◌^◌, ◌≤◌, ◌<◌, ◌≡◌, ap, String, false, some, List, [], ◌∷◌, ◌++◌, map, length, ltb,
  if◌then◌else◌, ok, arith,
}
use queuemaxxing.Storage.Record.{Enqueue, header}
use queuemaxxing.Queue.Clock.{from_millis, to_millis}
use queuemaxxing.Queue.Message.{Message, parse_ordering-text}
use queuemaxxing.Queue.Engine.State.{Queue, add_uint64}
use queuemaxxing.Queue.Engine.Compact.{sub_uint64, live_records, compact_header}
use queuemaxxing.Queue.Replay.{Live, Replayed, replay_start, message_of, replay_record}

abbrev pub entry : Enqueue → String × Message
entry e = (e.id, message_of e)

-- every sequence number is below `n`
abbrev pub Below : ℕ → List Enqueue → Type 0
Below n [] = Unit {0}
Below n (e ∷ es) = (e.seq < n) × Below n es

abbrev pub AbsentFrom : String → Live → Type 0
AbsentFrom id [] = Unit {0}
AbsentFrom id ((k, _) ∷ live) = (str_eq k id ≡ false) × AbsentFrom id live

-- no id of `es` is in `live` or twice in `es`
abbrev pub Distinct : Live → List Enqueue → Type 0
Distinct live [] = Unit {0}
Distinct live (e ∷ es) = AbsentFrom e.id live × Distinct (live ++ entry e ∷ []) es

abbrev pub count_up : List Enqueue → ℕ → ℕ
count_up [] n = n
count_up (e ∷ es) n = count_up es (add_uint64 n 1)

pub count_up-eq :
    (es : List Enqueue) (n : ℕ) → n < 2 ^ 64 → count_up es n ≡ (n + length es) % 2 ^ 64
count_up-eq [] n h = omega arith
count_up-eq (e ∷ es) n h = omega (arith, count_up-eq es (add_uint64 n 1) (omega arith))

-- what replaying the snapshot of `q` is to give
abbrev pub snapshot_state : Queue → Replayed
snapshot_state q = record {
  config = some (record {
    name = q.name;
    ordering = q.ordering;
    created_at = from_millis (to_millis q.created_at);
  });
  live = map entry (live_records q);
  next_seq = q.next_seq;
  enqueued = q.enqueued;
  acked = q.acked;
}

module _ (q : Queue) (started : 1 ≤ q.next_seq) (in_range : q.enqueued < 2 ^ 64) where
  abbrev pub headed : Replayed
  headed = record (snapshot_state q) {
    live = [];
    enqueued = sub_uint64 q.enqueued (length (live_records q));
  }

  pub replay_header : replay_record (header (compact_header q)) replay_start ≡ ok headed
  unfolding replay_record compact_header
  replay_header =
      rw (parse_ordering-text q.ordering, replay_record)
        (ap (λ n. ok (record headed { next_seq = n })) floor)
    where
      floor : (if ltb 1 q.next_seq then q.next_seq else 1) ≡ q.next_seq
      floor = ground arith
