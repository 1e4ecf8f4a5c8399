-- ===== src/Queue/Replay.antt =====
-- openQueue of internal/queue/queue.go: the queue that a log's records rebuild.
pub mod Snapshot
use text.Mathlib.Text.{◌==◌ as str_eq}
use queuemaxxing.Base.{
  ℕ, suc, ◌+◌, ◌≡◌, ◌||◌, String, Bool, true, false, not, Option, none, some, List, [], ◌∷◌, ◌++◌,
  ltb, leb, ◌==◌, if◌then◌else◌, Result, ok, err, pos,
}
use queuemaxxing.Storage.Record.{Record, Header, Enqueue, Ack, Nack, header, enqueue, ack, nack}
use queuemaxxing.Storage.Recovery.Replay.{apply_all}
use queuemaxxing.Queue.Clock.{Time, after, from_millis, zero_time}
use queuemaxxing.Queue.Message.{Ordering, fifo, Message, State, ready, delayed, parse_ordering}
use queuemaxxing.Queue.Heap.{update}
use queuemaxxing.Queue.Engine.State.{Queue, add_uint64, push_ready, push_delayed, set_message}

pub record Config : Type 0 where
  pub name : String
  pub ordering : Ordering
  pub created_at : Time

-- Queue.Config
abbrev pub config_of : Queue → Config
config_of q = record { name = q.name; ordering = q.ordering; created_at = q.created_at }

-- `live` by message id
abbrev pub Live : Type 0
Live = List (String × Message)

-- live[id] = m: over the old entry, or behind all others
unfoldable pub put_live : String → Message → Live → Live
put_live id m [] = (id, m) ∷ []
put_live id m ((k, v) ∷ live) =
    let rest = put_live id m live in if str_eq k id then (id, m) ∷ live else (k, v) ∷ rest

unfoldable pub delete_live : String → Live → Live
delete_live id [] = []
delete_live id ((k, v) ∷ live) =
    let rest = delete_live id live in if str_eq k id then rest else (k, v) ∷ rest

-- the entry of a nacked message gets its new time; an absent message is left absent
unfoldable pub delay_live : String → Time → Live → Live
delay_live id t [] = []
delay_live id t ((k, v) ∷ live) =
    (if str_eq k id then (k, record v { available_at = t }) else (k, v)) ∷ delay_live id t live

-- the variables that the callback of openQueue writes
pub record Replayed : Type 0 where
  pub config : Option Config
  pub live : Live
  pub next_seq : ℕ
  pub enqueued : ℕ
  pub acked : ℕ

abbrev pub replay_start : Replayed
replay_start = record { config = none; live = []; next_seq = 1; enqueued = 0; acked = 0 }

-- the errors of openQueue's own
pub data ReplayError : Type 0 where
  bad_ordering : String → ReplayError
  no_header : ReplayError
  other_name : String → ReplayError

unfoldable pub message_of : Enqueue → Message
message_of e = record {
  id = e.id;
  seq = e.seq;
  priority = e.priority;
  body = e.body;
  created_at = from_millis e.created_at;
  available_at = from_millis e.available_at;
  state = ready;
  receive_count = 0;
  receipt = "";
  deadline = zero_time;
  index = pos 0;
}

-- the callback
unfoldable pub replay_record : Record → Replayed → Result ReplayError Replayed
unfolding message_of put_live delete_live delay_live
replay_record (header h) st = elim (parse_ordering h.ordering) [
  | none ↦ err (bad_ordering h.ordering)
  | some ordering ↦ ok (record st {
    config =
        some (record { name = h.name; ordering = ordering; created_at = from_millis h.created_at });
    next_seq = if ltb st.next_seq h.next_seq then h.next_seq else st.next_seq;
    enqueued = h.total_enqueued;
    acked = h.total_acked;
  })
]
replay_record (enqueue e) st = ok (record st {
  live = put_live e.id (message_of e) st.live;
  next_seq = if leb st.next_seq e.seq then add_uint64 e.seq 1 else st.next_seq;
  enqueued = add_uint64 st.enqueued 1;
})
replay_record (ack a) st =
    ok (record st { live = delete_live a.id st.live; acked = add_uint64 st.acked 1 })
replay_record (nack n) st =
    ok (record st { live = delay_live n.id (from_millis n.available_at) st.live })

-- one message of `live` enters its heap, at a new address
unfoldable pub revive : Time → Queue → Message → Queue
unfolding set_message push_ready push_delayed
revive now q m =
    let p = q.next_address in
    let q' = record q { next_address = p + 1 } in
    if after m.available_at now
    then push_delayed (set_message q' p (record m { state = delayed })) p
    else push_ready (set_message q' p (record m { state = ready })) p

unfoldable pub revive_all : Time → Queue → Live → Queue
unfolding revive
revive_all now q [] = q
revive_all now q ((_, m) ∷ live) = revive_all now (revive now q m) live

abbrev blank_message : Message
blank_message = message_of (record {
  id = "";
  seq = 0;
  priority = pos 0;
  created_at = pos 0;
  available_at = pos 0;
  body = [];
})

-- newQueue, over a log that holds `records`
abbrev pub new_queue : Config → List Record → ℕ → ℕ → ℕ → ℕ → Queue
new_queue cfg records next_seq enqueued acked threshold = record {
  name = cfg.name;
  ordering = cfg.ordering;
  created_at = cfg.created_at;
  store = λ _. blank_message;
  next_address = 0;
  ready = [];
  delayed = [];
  expiry = [];
  inflight = [];
  next_seq = next_seq;
  enqueued = enqueued;
  acked = acked;
  log = records;
  log_open = true;
  closed = false;
  compact_threshold = threshold;
  kick = false;
  signalled = false;
}

unfoldable pub rebuild : String → Time → ℕ → List Record → Replayed → Result ReplayError Queue
unfolding revive_all
rebuild name now threshold records st = elim st.config [
  | none ↦ err no_header
  | some cfg ↦
      if str_eq cfg.name name
      then ok (
          revive_all now (new_queue cfg records st.next_seq st.enqueued st.acked threshold) st.live)
      else err (other_name cfg.name)
]

-- openQueue on the records that storage.Open hands over, as encoding/json gives them back; the
-- order in which Go ranges over `live` is here the order of first enqueue
unfoldable pub open_queue : String → Time → ℕ → List Record → Result ReplayError Queue
unfolding rebuild
open_queue name now threshold records = elim (apply_all replay_record records replay_start) [
  | err e ↦ err e
  | ok st ↦ rebuild name now threshold records st
]
