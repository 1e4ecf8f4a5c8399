-- ===== src/Queue/Places/Changes.antt =====
-- Enqueue, Ack and Nack of queue.go, once their checks have passed and the append has succeeded.
use queuemaxxing.Base.{
  ℕ, ◌+◌, ◌<◌, ◌≤◌, ◌≡◌, ◌≢◌, refl, sym, ap, ◌∙◌, String, ℤ, pos_part, some, List, [], ◌∷◌, ◌++◌,
  count, count-perm, ne→==, arith,
}
use queuemaxxing.Storage.Record.{ack}
use queuemaxxing.Queue.Message.{Message}
use queuemaxxing.Queue.Heap.{Store, Heap, expiry_less, update, heap_remove}
use queuemaxxing.Queue.Heap.Contract.{Popped}
use queuemaxxing.Queue.Engine.State.{
  Queue, CallEnv, lookup, delete, heap_of, with_expiry, remove_expiry, set_message, broadcast,
  add_uint64,
}
use queuemaxxing.Queue.Engine.Operations.{
  schedule, settle, enqueue_booked, enqueue_appended, ack_found, nack_booked, nack_found,
}
use queuemaxxing.Queue.Places.{Received, IsValid}
use queuemaxxing.Queue.Places.Moves.{IsPlaced, Loose, set_message-IsPlaced, with_expiry-pop}
use queuemaxxing.Queue.Places.Receipts.{Received-same, Received-delete}
use queuemaxxing.Queue.Places.Schedule.{places}
use queuemaxxing.Queue.Places.Steps.{
  one, nothing, Moved, maybe_compact-Moved, remove_expiry-Popped, scheduled-Moved,
}

pub update_other : (s : Store) (p a : ℕ) (m : Message) → a ≢ p → update s p m a ≡ s a
unfolding update
update_other s p a m other = rw (ne→== p a (λ e. other (sym e)))

module _ (env : CallEnv) (q : Queue) (v : IsValid q) where
  module _ (body : List ℕ) (priority delay : ℤ) (id : String) where
    abbrev pub booked : Queue
    booked = enqueue_booked env body priority delay id q

    pub new_Loose : Loose q.next_address q
    new_Loose =
        let none_there = v.unused q.next_address (omega arith) in
        (omega arith, omega arith, omega arith)

    pub booked-IsPlaced : IsPlaced booked
    unfolding enqueue_booked set_message
    booked-IsPlaced =
        unfold set_message in set_message-IsPlaced q q.next_address v.placed _ new_Loose

    pub booked-Loose : Loose q.next_address booked
    unfolding enqueue_booked set_message
    booked-Loose = new_Loose

    booked-Received : Received booked.store booked.expiry booked.inflight
    unfolding enqueue_booked set_message
    booked-Received =
        Received-same q.store _ q.expiry q.inflight
          (λ a inside.
            ap (λ (m : Message). m.receipt)
              (update_other q.store q.next_address a _
                (λ e. omega (arith, ap (λ x. count x q.expiry) e, new_Loose.2))))
          v.received

    pub booked-Moved :
        Moved q (broadcast (schedule booked q.next_address delay)) (one q.next_address) nothing
    booked-Moved =
        let done =
          scheduled-Moved q.next_address delay booked booked-IsPlaced booked-Loose booked-Received
            booked_unused in
        record { valid = done.valid; balance = λ a. omega (arith, done.balance a, booked_places a) }
      where
        booked_places : (a : ℕ) → places a booked ≡ places a q
        booked_places a = unfold enqueue_booked set_message in refl

        booked_next : booked.next_address ≡ q.next_address + 1
        booked_next = unfold enqueue_booked set_message in refl

        booked_unused :
            (a : ℕ) → booked.next_address ≤ a → one q.next_address a + places a booked ≡ 0
        booked_unused a far =
            let older : q.next_address ≤ a = omega (arith, booked_next) in
            ground (arith, booked_next, booked_places a, v.unused a older)

    pub enqueue_appended-Moved :
        Moved q (enqueue_appended env body priority delay id q) (one q.next_address) nothing
    unfolding enqueue_appended settle
    enqueue_appended-Moved =
        maybe_compact-Moved env q (broadcast (schedule booked q.next_address delay)) _ _
          booked-Moved

  module _ (r : String) (p : ℕ) (found : lookup r q.inflight ≡ some p) where
    pub delivered : 0 < count p q.expiry
    delivered = (v.received.real r p found).0

    abbrev pub removed : Heap
    removed = (heap_remove expiry_less (heap_of q q.expiry) (pos_part (q.store p).index)).1

    pub removed-Popped : Popped expiry_less (heap_of q q.expiry) p removed
    removed-Popped = remove_expiry-Popped q p v.placed delivered

    pub removed-IsPlaced : IsPlaced (with_expiry q removed) × Loose p (with_expiry q removed)
    removed-IsPlaced = with_expiry-pop q p v.placed removed removed-Popped

    pub removed_count : (a : ℕ) → count a q.expiry ≡ one p a + count a removed.items
    removed_count a = sym (count-perm a removed-Popped.items)

    abbrev remaining : Queue
    remaining = record (with_expiry q removed) { inflight = delete r q.inflight }

    remaining-Received : Received removed.store removed.items (delete r q.inflight)
    remaining-Received =
        Received-delete q.store removed.store q.expiry removed.items q.inflight p r v.received
          (λ a other. ap (λ (m : Message). m.receipt) (removed-Popped.messages a)) found
          removed-Popped.gone removed_count

    abbrev pub remaining_acked : Queue
    remaining_acked = record remaining {
      log = q.log ++ (ack (record { id = (q.store p).id }) ∷ []);
      acked = add_uint64 q.acked 1;
    }

    pub remaining-Moved : Moved q remaining_acked nothing (one p)
    remaining-Moved = record {
      valid = record {
        placed = removed-IsPlaced.0;
        received = remaining-Received;
        unused = λ a far. omega (arith, v.unused a far, removed_count a);
      };
      balance = λ a. omega (arith, removed_count a);
    }

    pub ack_found-Moved : Moved q (ack_found env r p q) nothing (one p)
    unfolding ack_found remove_expiry
    ack_found-Moved = maybe_compact-Moved env q remaining_acked nothing (one p) remaining-Moved

    module _ (delay : ℤ) where
      abbrev pub returned : Queue
      returned = nack_booked env r p delay q

      pub returned-places : (a : ℕ) → places a q ≡ one p a + places a returned
      unfolding nack_booked remove_expiry set_message
      returned-places a = omega (arith, removed_count a)

      pub returned-IsPlaced : IsPlaced returned
      unfolding nack_booked remove_expiry set_message
      returned-IsPlaced =
          unfold set_message in
          set_message-IsPlaced (with_expiry q removed) p removed-IsPlaced.0 _ removed-IsPlaced.1

      pub returned-Loose : Loose p returned
      unfolding nack_booked remove_expiry set_message
      returned-Loose = removed-IsPlaced.1

      returned-Received : Received returned.store returned.expiry returned.inflight
      unfolding nack_booked remove_expiry set_message
      returned-Received =
          Received-same removed.store _ removed.items (delete r q.inflight)
            (λ a inside.
              ap (λ (m : Message). m.receipt)
                (update_other removed.store p a _
                  (λ e. omega (arith, ap (λ x. count x removed.items) e, removed-Popped.gone))))
            remaining-Received

      returned_next : returned.next_address ≡ q.next_address
      unfolding nack_booked remove_expiry set_message
      returned_next = refl

      pub returned-Moved : Moved q (broadcast (schedule returned p delay)) nothing nothing
      returned-Moved =
          let done =
            scheduled-Moved p delay returned returned-IsPlaced returned-Loose returned-Received
              (λ a far. sym (returned-places a) ∙ v.unused a (rw returned_next at far)) in
          record {
            valid = done.valid;
            balance = λ a. omega (arith, done.balance a, returned-places a);
          }

      pub nack_found-Moved : Moved q (nack_found env r p delay q) nothing nothing
      unfolding nack_found settle
      nack_found-Moved =
          maybe_compact-Moved env q (broadcast (schedule returned p delay)) _ _ returned-Moved
