-- ===== src/Queue/Restart/Sends.antt =====
-- Enqueue of internal/queue/queue.go keeps the log and the messages in memory in agreement.
use queuemaxxing.Base.{
  ℕ, ◌+◌, ◌^◌, ◌<◌, ◌≡◌, ◌≢◌, refl, sym, ap, ◌∙◌, String, Bool-cases, inl, inr, List, ℤ, ◌+ℤ◌, ◌==◌,
  ==_refl, le→leb, arith,
}
use queuemaxxing.Storage.Record.{Enqueue}
use queuemaxxing.Queue.Heap.{update}
use queuemaxxing.Queue.Engine.State.{CallEnv, Queue, add_uint64, broadcast, set_message}
use queuemaxxing.Queue.Engine.Receipts.{inflight-schedule}
use queuemaxxing.Queue.Engine.Compact.{enqueue_of}
use queuemaxxing.Queue.Engine.Operations.{
  schedule, settle, enqueue_record, enqueue_booked, enqueue_appended,
}
use queuemaxxing.Queue.Replay.{put_live, message_of, replay_record}
use queuemaxxing.Queue.Counters.{SameBooks, settle_books}
use queuemaxxing.Queue.Places.Schedule.{places, schedule-Scheduled}
use queuemaxxing.Queue.Places.Steps.{one}
use queuemaxxing.Queue.Places.Changes.{
  update_other, booked-IsPlaced, booked-Loose, new_Loose, booked-Moved,
}
use queuemaxxing.Queue.Restart.Live.{SameFiles}
use queuemaxxing.Queue.Restart.Files.{mail-SameFiles}
use queuemaxxing.Queue.Restart.Compacted.{IsBacked, maybe_compact-IsBacked}
use queuemaxxing.Queue.Restart.Changes.{added-Backs}
use queuemaxxing.Queue.Restart.Moves.{seq-file, same_seq, books-Replays, logged}

module _ (env : CallEnv) (q : Queue) (b : IsBacked q) where
  module _ (body : List ℕ) (priority delay : ℤ) (id : String)
      (new : (a : ℕ) → 0 < places a q → (q.store a).id ≢ id) (room : q.next_seq + 1 < 2 ^ 64) where
    abbrev booked : Queue
    booked = enqueue_booked env body priority delay id q

    abbrev sent : Queue
    sent = broadcast (schedule booked q.next_address delay)

    abbrev sent_record : Enqueue
    sent_record = enqueue_record id q.next_seq priority body env.now (env.now +ℤ delay)

    sent-SameFiles : SameFiles booked.store sent.store
    sent-SameFiles =
        mail-SameFiles booked.store sent.store
          (schedule-Scheduled q.next_address booked
            (booked-IsPlaced env q b.kept.valid body priority delay id)
            (booked-Loose env q b.kept.valid body priority delay id) delay).mail

    sent_new : enqueue_of (sent.store q.next_address) ≡ sent_record
    sent_new =
        sent-SameFiles q.next_address
        ∙ (unfold enqueue_booked set_message update enqueue_of in rw (==_refl q.next_address) refl)

    sent_old : (a : ℕ) → a ≢ q.next_address → enqueue_of (sent.store a) ≡ enqueue_of (q.store a)
    sent_old a other =
        sent-SameFiles a
        ∙ ap enqueue_of
            (unfold enqueue_booked set_message in update_other q.store q.next_address a _ other)

    sent-places : (a : ℕ) → places a sent ≡ places a q + one q.next_address a
    sent-places a =
        omega (arith, (booked-Moved env q b.kept.valid body priority delay id).balance a)

    sent_absent : places q.next_address q ≡ 0
    sent_absent =
        let loose = new_Loose env q b.kept.valid body priority delay id in
        omega (arith, loose.0, loose.1, loose.2)

    sent_books : SameBooks sent booked
    sent_books = settle_books booked q.next_address delay

    sent_next : sent.next_seq ≡ q.next_seq + 1
    sent_next =
        let is : booked.next_seq ≡ add_uint64 q.next_seq 1 =
          unfold enqueue_booked set_message in refl in
        sent_books.next_seq ∙ is ∙ omega (arith, room)

    sent_below : (a : ℕ) → 0 < places a sent → (sent.store a).seq < sent.next_seq
    sent_below a inside = elim (Bool-cases (q.next_address == a)) [
      | inl h ↦
          let is : q.next_address ≡ a = ground arith in
          let number : (sent.store a).seq ≡ q.next_seq =
            ap (λ x. (sent.store x).seq) (sym is)
            ∙ sym (seq-file (sent.store q.next_address))
            ∙ ap (λ (x : Enqueue). x.seq) sent_new in
          omega (arith, number, sent_next)
      | inr h ↦
          let other : a ≢ q.next_address = (λ e. ground arith) in
          let number = same_seq (sent.store a) (q.store a) (sent_old a other) in
          let before = b.kept.below a (ground (arith, sent-places a)) in
          omega (arith, number, sent_next, before)
    ]

    sent-IsBacked : IsBacked sent
    sent-IsBacked = record {
      kept = record {
        valid = (booked-Moved env q b.kept.valid body priority delay id).valid;
        once =
            let is : booked.inflight ≡ q.inflight = unfold enqueue_booked set_message in refl in
            rw (inflight-schedule booked q.next_address delay, is) b.kept.once;
        below = sent_below;
        started = omega (arith, sent_next);
        in_range =
            let is : booked.enqueued ≡ add_uint64 q.enqueued 1 =
              unfold enqueue_booked set_message in refl in
            omega (arith, sent_books.enqueued, is);
      };
      replays =
          books-Replays sent booked sent_books
            (record b.replays.state {
              live = put_live id (message_of sent_record) b.replays.state.live;
              next_seq = add_uint64 q.next_seq 1;
              enqueued = add_uint64 b.replays.state.enqueued 1;
            })
            (unfold enqueue_booked set_message replay_record in
              logged q b _ _ (
                rw
                  (le→leb b.replays.state.next_seq q.next_seq (omega (arith, b.replays.next_seq)))))
            (unfold enqueue_booked set_message in b.replays.config)
            (unfold enqueue_booked set_message in refl)
            (unfold enqueue_booked set_message in ap (λ n. add_uint64 n 1) b.replays.enqueued)
            (unfold enqueue_booked set_message in b.replays.acked)
            (added-Backs b.replays.state.live q sent q.next_address b.replays.live sent_record
              sent_new sent_old sent-places sent_absent new);
    }

    pub enqueue_appended-IsBacked : IsBacked (enqueue_appended env body priority delay id q)
    unfolding enqueue_appended settle
    enqueue_appended-IsBacked = maybe_compact-IsBacked env sent sent-IsBacked
