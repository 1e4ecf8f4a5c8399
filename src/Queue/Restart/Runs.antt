-- ===== src/Queue/Restart/Runs.antt =====
-- A restart of a queue: openQueue of internal/queue/queue.go on the records that the log has accepted
-- in any run of calls and compactions.
use text.Mathlib.TextPositions.{eq_refl}
use queuemaxxing.Base.{
  ℕ, ◌+◌, ◌^◌, ◌<◌, ◌≡◌, ◌≢◌, refl, String, Bool, true, false, Bool-cases, Option-cases, inl, inr,
  Option, none, some, List, map, ℤ, pos, length, ◌==◌, Result, ok, err, arith, if◌then◌else◌,
}
use queuemaxxing.Storage.Record.{Record}
use queuemaxxing.Storage.Recovery.Replay.{apply_all}
use queuemaxxing.Queue.Clock.{Time}
use queuemaxxing.Queue.Message.{Delivery}
use queuemaxxing.Queue.Engine.State.{QueueError, entropy_failed, CallEnv, Queue}
use queuemaxxing.Queue.Engine.Operations.{
  close, enqueue_message, enqueue_appended, pop_with, pop_ready, receive_round,
}
use queuemaxxing.Queue.Engine.Scheduler.{process_due}
use queuemaxxing.Queue.Engine.Calls.{
  Call, enqueue_call, ack_call, nack_call, receive_call, due_call, perform, errors_change_nothing,
}
use queuemaxxing.Queue.Replay.{
  Replayed, replay_start, replay_record, new_queue, revive_all, rebuild, open_queue,
}
use queuemaxxing.Queue.Counters.Books.{process_due_books, pop_with_books}
use queuemaxxing.Queue.Places.Schedule.{places}
use queuemaxxing.Queue.Places.Deliveries.{pop_with-Moved}
use queuemaxxing.Queue.Places.Awake.{process_due-IsAwake}
use queuemaxxing.Queue.Places.Calls.{IsFresh, receive_state, ack_done, nack_done}
use queuemaxxing.Queue.Restart.Live.{Backs}
use queuemaxxing.Queue.Restart.Files.{pop_with-SameFiles, process_due-SameFiles}
use queuemaxxing.Queue.Restart.Inflight.{pop_with-IsMap, process_due-IsMap}
use queuemaxxing.Queue.Restart.Compacted.{filed_config, IsBacked, close-IsBacked}
use queuemaxxing.Queue.Restart.Bodies.{normalised, with_bodies, lifted, apply_all-normalised}
use queuemaxxing.Queue.Restart.Moves.{moved-IsBacked}
use queuemaxxing.Queue.Restart.Sends.{enqueue_appended-IsBacked}
use queuemaxxing.Queue.Restart.Returns.{ack_found-IsBacked, nack_found-IsBacked}

-- an Enqueue without an error has drawn its id
enqueue_drawn :
    (env : CallEnv) (body : List ℕ) (priority delay : ℤ) (q : Queue)
    → (perform env (enqueue_call body priority delay) q).0 ≡ none
    → (id : String) × (env.token ≡ some id)
      × ((perform env (enqueue_call body priority delay) q).1
          ≡ enqueue_appended env body priority delay id q)
unfolding perform enqueue_message
enqueue_drawn env body priority delay q h = elim (Option-cases env.token) [
  | inl e ↦ absurd (ground arith)
  | inr (id, e) ↦ (id, e, ground arith)
]

-- The token that a call draws is neither a receipt in use nor the id of a message of the queue.
abbrev pub IsUnused : CallEnv → Queue → Type 0
IsUnused env q =
    IsFresh env q
    × ((id : String) → env.token ≡ some id → (a : ℕ) → 0 < places a q → (q.store a).id ≢ id)

module _ (env : CallEnv) (q : Queue) (b : IsBacked q) (unused : IsUnused env q) where
  popped-IsBacked :
      (visibility : ℤ)
      → 0 < length q.ready
      → (o : Option String) → env.token ≡ o
      → IsBacked
          (elim o as (λ _. Result QueueError (Option Delivery) × Queue) [
            | none ↦ (err entropy_failed, q)
            | some r ↦ (ok (some (pop_with env visibility r q).0), (pop_with env visibility r q).1)
          ]).1
  popped-IsBacked visibility some_ready none e = b
  popped-IsBacked visibility some_ready (some r) e =
      let moved = pop_with-Moved env visibility r q b.kept.valid some_ready (unused.0 r e) in
      moved-IsBacked q (pop_with env visibility r q).1 b moved.valid
        (pop_with-SameFiles env visibility r q b.kept.valid some_ready (unused.0 r e))
        (λ a. omega (arith, moved.balance a)) (pop_with_books env visibility r q)
        (pop_with-IsMap env visibility r q b.kept.once)

  pop_ready-IsBacked : (visibility : ℤ) → IsBacked (pop_ready env visibility q).1
  unfolding pop_ready
  pop_ready-IsBacked visibility = elim (Bool-cases (length q.ready == 0)) [
    | inl e ↦ simp e b
    | inr e ↦ simp e (popped-IsBacked visibility (ground arith) env.token refl)
  ]

  receive-IsBacked :
      (visibility wait : ℤ) (deadline : Time) (ctx_done : Bool)
      → IsBacked (receive_round env visibility wait deadline ctx_done q).1
  receive-IsBacked visibility wait deadline ctx_done =
      rw (receive_state env visibility q wait deadline ctx_done) (opened q.closed)
    where
      opened : (t : Bool) → IsBacked (if t then q else (pop_ready env visibility q).1)
      opened true = b
      opened false = pop_ready-IsBacked visibility

  done-IsBacked :
      (c : Call)
      → q.next_seq + 1 < 2 ^ 64
      → (perform env c q).0 ≡ none
      → IsBacked (perform env c q).1
  done-IsBacked (enqueue_call body priority delay) room h =
      let (id, token, e) = enqueue_drawn env body priority delay q h in
      rw e (enqueue_appended-IsBacked env q b body priority delay id (unused.1 id token) room)
  done-IsBacked (ack_call r) room h =
      let (p, found, e) = ack_done env r q h in rw e (ack_found-IsBacked env q b r p found)
  done-IsBacked (nack_call r delay) room h =
      let (p, found, e) = nack_done env r delay q h in
      rw e (nack_found-IsBacked env q b r p found delay)
  done-IsBacked (receive_call visibility) room h =
      unfold perform in receive-IsBacked visibility (pos 0) env.now false
  done-IsBacked due_call room h =
      let moved = (process_due-IsAwake env.now q b.kept.valid).0 in
      unfold perform in
      moved-IsBacked q (process_due env.now q).1 b moved.valid
        (process_due-SameFiles env.now q b.kept.valid) (λ a. omega (arith, moved.balance a))
        (process_due_books env.now q) (process_due-IsMap env.now q b.kept.once)

  perform-IsBacked : (c : Call) → q.next_seq + 1 < 2 ^ 64 → IsBacked (perform env c q).1
  perform-IsBacked c room = by_error (perform env c q).0 refl
    where
      by_error : (o : Option QueueError) → (perform env c q).0 ≡ o → IsBacked (perform env c q).1
      by_error none e = done-IsBacked c room e
      by_error (some x) e = rw (errors_change_nothing env c q x e) b

-- `s` is what some calls, and Close, make of `q`, whatever each returns and whatever is compacted
-- between, with unused tokens and fewer than 2 ^ 64 sequence numbers.
pub data Runs (q : Queue) : Queue → Type 0 where
  idle : Runs q q
  next :
      {r s : Queue} (env : CallEnv) (c : Call)
      → Runs q r
      → IsUnused env r
      → r.next_seq + 1 < 2 ^ 64
      → s ≡ (perform env c r).1
      → Runs q s
  shut : {r s : Queue} (env : CallEnv) → Runs q r → s ≡ close env r → Runs q s

pub Runs-IsBacked : {q r : Queue} → IsBacked q → Runs q r → IsBacked r
Runs-IsBacked b idle = b
Runs-IsBacked b (next {r = r} env c before unused room e) =
    rw e (perform-IsBacked env r (Runs-IsBacked b before) unused c room)
Runs-IsBacked b (shut {r = r} env before e) = rw e (close-IsBacked env r (Runs-IsBacked b before))

-- What openQueue makes of the records `handed` that storage.Open hands over: the messages of
-- `state.live`, which are exactly those that `q` has in memory, with the bodies that JSON gives back,
-- under its configuration and with its sequence floor and counters.
pub record Restarted (normal : List ℕ → List ℕ) (q : Queue) (now : Time) (threshold : ℕ)
    (handed : List Record) : Type 0 where
  pub state : Replayed
  pub opened :
      open_queue q.name now threshold handed
      ≡ ok (
          revive_all now
            (new_queue (filed_config q) handed q.next_seq q.enqueued q.acked threshold)
            (with_bodies normal state.live))
  pub live : Backs state.live q

-- From a queue whose log and memory agree, let any calls, rounds of the scheduler and a Close follow
-- one another, with compactions at any threshold between them, each with an error or none. The tokens
-- drawn are in use neither as receipt nor as id, and fewer than 2 ^ 64 numbers are handed out. Where
-- storage.Open then hands over exactly the records that the log has accepted, each body as JSON gives
-- it back (`normal`), openQueue succeeds: with the configuration, the sequence floor and the counters
-- that are in memory, and it revives exactly the messages that are in memory, each with the body that
-- JSON gives back, and the priority, the number and, in milliseconds, the times that it has there.
-- Open does not hand over exactly those records where a failed Append has left its frame in the file,
-- or a Compact has failed behind its rename.
pub restart_finds_all :
    (normal : List ℕ → List ℕ) (q r : Queue) (now : Time) (threshold : ℕ) (handed : List Record)
    → IsBacked q
    → Runs q r
    → handed ≡ map (normalised normal) r.log
    → Restarted normal r now threshold handed
unfolding open_queue rebuild
restart_finds_all normal q r now threshold handed b run intact =
    let c = (Runs-IsBacked b run).replays in
    let replayed : apply_all replay_record handed replay_start ≡ ok (lifted normal c.state) =
      rw intact (apply_all-normalised normal r.log replay_start c.state c.replayed) in
    record {
      state = c.state;
      opened =
          rw
            (
              replayed,
              open_queue,
              c.config,
              rebuild,
              eq_refl r.name,
              c.next_seq,
              c.enqueued,
              c.acked,
            )
            refl;
      live = c.live;
    }
