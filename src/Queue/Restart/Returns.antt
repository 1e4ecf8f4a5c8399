-- ===== src/Queue/Restart/Returns.antt =====
-- Ack and Nack of internal/queue/queue.go keep the log and the messages in memory in agreement.
use queuemaxxing.Base.{
  ℕ, ◌+◌, ◌≡◌, ◌≢◌, refl, sym, ap, ◌∙◌, String, Bool-cases, inl, inr, some, ℤ, ◌+ℤ◌, ◌==◌, ==_refl,
  arith,
}
use queuemaxxing.Storage.Record.{Enqueue}
use queuemaxxing.Queue.Clock.{to_millis, from_millis}
use queuemaxxing.Queue.Heap.{update}
use queuemaxxing.Queue.Engine.State.{
  CallEnv, Queue, lookup, delete, add_uint64, broadcast, set_message, remove_expiry,
}
use queuemaxxing.Queue.Engine.Receipts.{inflight-schedule}
use queuemaxxing.Queue.Engine.Compact.{enqueue_of}
use queuemaxxing.Queue.Engine.Operations.{schedule, settle, ack_found, nack_booked, nack_found}
use queuemaxxing.Queue.Replay.{delete_live, delay_live, replay_record}
use queuemaxxing.Queue.Counters.{SameBooks, settle_books}
use queuemaxxing.Queue.Places.Schedule.{places, schedule-Scheduled}
use queuemaxxing.Queue.Places.Steps.{one}
use queuemaxxing.Queue.Places.Changes.{
  update_other, removed, removed-Popped, removed-IsPlaced, remaining_acked, remaining-Moved,
  returned, returned-IsPlaced, returned-Loose, returned-Moved, delivered,
}
use queuemaxxing.Queue.Restart.Live.{SameFiles}
use queuemaxxing.Queue.Restart.Files.{messages-SameFiles, mail-SameFiles}
use queuemaxxing.Queue.Restart.Inflight.{delete-IsMap}
use queuemaxxing.Queue.Restart.Compacted.{IsBacked, maybe_compact-IsBacked}
use queuemaxxing.Queue.Restart.Changes.{removed-Backs, delayed-Backs}
use queuemaxxing.Queue.Restart.Moves.{seq-file, same_seq, books-Replays, logged}

module _ (env : CallEnv) (q : Queue) (b : IsBacked q) where
  module _ (r : String) (p : ℕ) (found : lookup r q.inflight ≡ some p) where
    abbrev acked_queue : Queue
    acked_queue = remaining_acked env q b.kept.valid r p found

    removed-SameFiles : SameFiles q.store acked_queue.store
    removed-SameFiles =
        messages-SameFiles q.store acked_queue.store
          (removed-Popped env q b.kept.valid r p found).messages

    acked_places : (a : ℕ) → places a acked_queue + one p a ≡ places a q
    acked_places a = omega (arith, (remaining-Moved env q b.kept.valid r p found).balance a)

    acked-IsBacked : IsBacked acked_queue
    acked-IsBacked = record {
      kept = record {
        valid = (remaining-Moved env q b.kept.valid r p found).valid;
        once = delete-IsMap r q.inflight b.kept.once;
        below = λ a inside. ground (
          arith,
          same_seq (acked_queue.store a) (q.store a) (removed-SameFiles a),
          b.kept.below a (omega (arith, acked_places a)),
        );
        started = b.kept.started;
        in_range = b.kept.in_range;
      };
      replays = record {
        state = record b.replays.state {
          live = delete_live (q.store p).id b.replays.state.live;
          acked = add_uint64 b.replays.state.acked 1;
        };
        replayed = unfold replay_record in logged q b _ _ refl;
        config = b.replays.config;
        next_seq = b.replays.next_seq;
        enqueued = b.replays.enqueued;
        acked = ap (λ n. add_uint64 n 1) b.replays.acked;
        live =
            removed-Backs b.replays.state.live q acked_queue p b.replays.live removed-SameFiles
              acked_places
              (let loose = (removed-IsPlaced env q b.kept.valid r p found).1 in
                omega (arith, loose.0, loose.1, loose.2));
      };
    }

    pub ack_found-IsBacked : IsBacked (ack_found env r p q)
    unfolding ack_found remove_expiry
    ack_found-IsBacked = maybe_compact-IsBacked env acked_queue acked-IsBacked

    module _ (delay : ℤ) where
      abbrev back : Queue
      back = returned env q b.kept.valid r p found delay

      abbrev rescheduled : Queue
      rescheduled = broadcast (schedule back p delay)

      back-SameFiles : SameFiles back.store rescheduled.store
      back-SameFiles =
          mail-SameFiles back.store rescheduled.store
            (schedule-Scheduled p back (returned-IsPlaced env q b.kept.valid r p found delay)
              (returned-Loose env q b.kept.valid r p found delay) delay).mail

      abbrev available : ℤ
      available = to_millis (env.now +ℤ delay)

      back_new :
          enqueue_of (rescheduled.store p)
          ≡ record (enqueue_of (q.store p)) { available_at = available }
      back_new =
          back-SameFiles p
          ∙ changed
          ∙ ap (λ (e : Enqueue). record e { available_at = available }) (removed-SameFiles p)
        where
          changed :
              enqueue_of (back.store p)
              ≡ record (enqueue_of ((removed env q b.kept.valid r p found).store p)) {
                available_at = available;
              }
          changed =
              unfold nack_booked remove_expiry set_message update enqueue_of in rw (==_refl p) refl

      back_old : (a : ℕ) → a ≢ p → enqueue_of (rescheduled.store a) ≡ enqueue_of (q.store a)
      back_old a other =
          let kept : back.store a ≡ (removed env q b.kept.valid r p found).store a =
            unfold nack_booked remove_expiry set_message in
            update_other (removed env q b.kept.valid r p found).store p a _ other in
          back-SameFiles a ∙ ap enqueue_of kept ∙ removed-SameFiles a

      back_books : SameBooks rescheduled back
      back_books = settle_books back p delay

      back-places : (a : ℕ) → places a rescheduled ≡ places a q
      back-places a = omega (arith, (returned-Moved env q b.kept.valid r p found delay).balance a)

      back_seq : (a : ℕ) → (rescheduled.store a).seq ≡ (q.store a).seq
      back_seq a = elim (Bool-cases (p == a)) [
        | inl h ↦
            let is : p ≡ a = ground arith in
            ap (λ x. (rescheduled.store x).seq) (sym is)
            ∙ sym (seq-file (rescheduled.store p))
            ∙ ap (λ (e : Enqueue). e.seq) back_new
            ∙ seq-file (q.store p)
            ∙ ap (λ x. (q.store x).seq) is
        | inr h ↦ same_seq (rescheduled.store a) (q.store a) (back_old a (λ e. ground arith))
      ]

      rescheduled-IsBacked : IsBacked rescheduled
      rescheduled-IsBacked = record {
        kept = record {
          valid = (returned-Moved env q b.kept.valid r p found delay).valid;
          once =
              let is : back.inflight ≡ delete r q.inflight =
                unfold nack_booked remove_expiry set_message in refl in
              rw (inflight-schedule back p delay, is) (delete-IsMap r q.inflight b.kept.once);
          below = λ a inside.
              let is : back.next_seq ≡ q.next_seq =
                unfold nack_booked remove_expiry set_message in refl in
              omega (
                arith,
                back_seq a,
                b.kept.below a (rw (back-places a) at inside),
                back_books.next_seq,
                is,
              );
          started =
              let is : back.next_seq ≡ q.next_seq =
                unfold nack_booked remove_expiry set_message in refl in
              omega (arith, b.kept.started, back_books.next_seq, is);
          in_range =
              let is : back.enqueued ≡ q.enqueued =
                unfold nack_booked remove_expiry set_message in refl in
              omega (arith, b.kept.in_range, back_books.enqueued, is);
        };
        replays =
            books-Replays rescheduled back back_books
              (record b.replays.state {
                live = delay_live (q.store p).id (from_millis available) b.replays.state.live;
              })
              (unfold nack_booked remove_expiry set_message replay_record in logged q b _ _ refl)
              (unfold nack_booked remove_expiry set_message in b.replays.config)
              (unfold nack_booked remove_expiry set_message in b.replays.next_seq)
              (unfold nack_booked remove_expiry set_message in b.replays.enqueued)
              (unfold nack_booked remove_expiry set_message in b.replays.acked)
              (delayed-Backs b.replays.state.live q rescheduled p b.replays.live available
                (let here = delivered env q b.kept.valid r p found in omega arith) back_new back_old
                back-places);
      }

      pub nack_found-IsBacked : IsBacked (nack_found env r p delay q)
      unfolding nack_found settle
      nack_found-IsBacked = maybe_compact-IsBacked env rescheduled rescheduled-IsBacked
