-- ===== src/Queue/Counters/Calls.antt =====
-- The counters along a run of the calls of queue.go.
use queuemaxxing.Base.{
  ℕ, ◌≡◌, refl, ◌∙◌, String, none, Option-cases, inl, inr, List, [], ◌∷◌, ℤ, arith,
}
use queuemaxxing.Queue.Engine.State.{CallEnv, Queue, lookup, remove_expiry, set_message}
use queuemaxxing.Queue.Engine.Compact.{maybe_compact}
use queuemaxxing.Queue.Engine.Operations.{
  settle, enqueue_booked, enqueue_appended, enqueue_message, nack_booked, nack_found, nack_message,
  ack_found, ack_message,
}
use queuemaxxing.Queue.Engine.Calls.{
  Call, enqueue_call, ack_call, nack_call, receive_call, due_call, perform, errors_change_nothing,
}
use queuemaxxing.Queue.Counters.Books.{receive_books, process_due_books}
use queuemaxxing.Queue.Counters.{
  SameBooks, IsCounted, SameBooks-IsCounted, settle_books, settle-IsCounted,
  enqueue_booked-IsCounted, ack_found-IsCounted, nack_booked-IsCounted,
}

-- one call after another, whatever each returns
unfoldable pub run_calls : List (CallEnv × Call) → Queue → Queue
run_calls [] q = q
run_calls ((env, c) ∷ rest) q = run_calls rest (perform env c q).1

-- a queue that does not compact, and whose log replays to its counters
pub record IsBooked (q : Queue) : Type 0 where
  pub off : q.compact_threshold ≡ 0
  pub counted : IsCounted q

SameBooks-IsBooked : (q r : Queue) → SameBooks q r → IsBooked r → IsBooked q
SameBooks-IsBooked q r s b = record {
  off = s.threshold ∙ b.off;
  counted = SameBooks-IsCounted q r s b.counted;
}

threshold-maybe_compact :
    (env : CallEnv) (q : Queue) → (maybe_compact env q).compact_threshold ≡ q.compact_threshold
unfolding maybe_compact
threshold-maybe_compact env q = ground arith

threshold-settle :
    (env : CallEnv) (p : ℕ) (d : ℤ) (q : Queue)
    → (settle env p d q).compact_threshold ≡ q.compact_threshold
unfolding settle
threshold-settle env p d q = threshold-maybe_compact env _ ∙ (settle_books q p d).threshold

settle-IsBooked :
    (env : CallEnv) (p : ℕ) (d : ℤ) (q : Queue) → IsBooked q → IsBooked (settle env p d q)
settle-IsBooked env p d q b = record {
  off = threshold-settle env p d q ∙ b.off;
  counted = settle-IsCounted env p d q b.off b.counted;
}

ack_found-IsBooked :
    (env : CallEnv) (r : String) (p : ℕ) (q : Queue) → IsBooked q → IsBooked (ack_found env r p q)
ack_found-IsBooked env r p q b = record {
  off = same ∙ b.off;
  counted = ack_found-IsCounted env q b.off b.counted r p;
}
  where
    same : (ack_found env r p q).compact_threshold ≡ q.compact_threshold
    same = unfold ack_found remove_expiry in threshold-maybe_compact env _

enqueue_appended-IsBooked :
    (env : CallEnv) (body : List ℕ) (priority delay : ℤ) (id : String) (q : Queue)
    → IsBooked q
    → IsBooked (enqueue_appended env body priority delay id q)
unfolding enqueue_appended
enqueue_appended-IsBooked env body priority delay id q b =
    settle-IsBooked env q.next_address delay (enqueue_booked env body priority delay id q) (record {
      off = same ∙ b.off;
      counted = enqueue_booked-IsCounted env q b.off b.counted body priority delay id;
    })
  where
    same : (enqueue_booked env body priority delay id q).compact_threshold ≡ q.compact_threshold
    same = unfold enqueue_booked set_message in refl

nack_found-IsBooked :
    (env : CallEnv) (r : String) (p : ℕ) (delay : ℤ) (q : Queue)
    → IsBooked q
    → IsBooked (nack_found env r p delay q)
unfolding nack_found
nack_found-IsBooked env r p delay q b =
    settle-IsBooked env p delay (nack_booked env r p delay q) (record {
      off = same ∙ b.off;
      counted = nack_booked-IsCounted env q b.off b.counted r p delay;
    })
  where
    same : (nack_booked env r p delay q).compact_threshold ≡ q.compact_threshold
    same = unfold nack_booked remove_expiry set_message in refl

-- the states after the calls that return no error
enqueue_done :
    (env : CallEnv) (body : List ℕ) (priority delay : ℤ) (q : Queue)
    → (perform env (enqueue_call body priority delay) q).0 ≡ none
    → (id : String) × ((perform env (enqueue_call body priority delay) q).1
        ≡ enqueue_appended env body priority delay id q)
unfolding perform enqueue_message
enqueue_done env body priority delay q h = elim (Option-cases env.token) [
  | inl e ↦ absurd (ground arith)
  | inr (id, e) ↦ (id, ground arith)
]

ack_done :
    (env : CallEnv) (r : String) (q : Queue)
    → (perform env (ack_call r) q).0 ≡ none
    → (p : ℕ) × ((perform env (ack_call r) q).1 ≡ ack_found env r p q)
unfolding perform ack_message
ack_done env r q h = elim (Option-cases (lookup r q.inflight)) [
  | inl e ↦ absurd (ground arith)
  | inr (p, e) ↦ (p, ground arith)
]

nack_done :
    (env : CallEnv) (r : String) (delay : ℤ) (q : Queue)
    → (perform env (nack_call r delay) q).0 ≡ none
    → (p : ℕ) × ((perform env (nack_call r delay) q).1 ≡ nack_found env r p delay q)
unfolding perform nack_message
nack_done env r delay q h = elim (Option-cases (lookup r q.inflight)) [
  | inl e ↦ absurd (ground arith)
  | inr (p, e) ↦ (p, ground arith)
]

done-IsBooked :
    (env : CallEnv) (c : Call) (q : Queue)
    → (perform env c q).0 ≡ none
    → IsBooked q
    → IsBooked (perform env c q).1
done-IsBooked env (enqueue_call body priority delay) q h b =
    let (id, e) = enqueue_done env body priority delay q h in
    rw e (enqueue_appended-IsBooked env body priority delay id q b)
done-IsBooked env (ack_call r) q h b =
    let (p, e) = ack_done env r q h in rw e (ack_found-IsBooked env r p q b)
done-IsBooked env (nack_call r delay) q h b =
    let (p, e) = nack_done env r delay q h in rw e (nack_found-IsBooked env r p delay q b)
done-IsBooked env (receive_call visibility) q h b =
    SameBooks-IsBooked _ q (unfold perform in receive_books env visibility q) b
done-IsBooked env due_call q h b =
    SameBooks-IsBooked _ q (unfold perform in process_due_books env.now q) b

perform-IsBooked :
    (env : CallEnv) (c : Call) (q : Queue) → IsBooked q → IsBooked (perform env c q).1
perform-IsBooked env c q b = elim (Option-cases (perform env c q).0) [
  | inl h ↦ done-IsBooked env c q h b
  | inr (e, h) ↦ rw (errors_change_nothing env c q e h) b
]

-- With compaction off, let any calls follow one another, each with whatever clock, tokens and
-- append errors, failed calls included. The records that the log has accepted replay without error,
-- to exactly the sequence floor and the two counters that the queue has in memory.
pub run_calls-IsBooked :
    (calls : List (CallEnv × Call)) (q : Queue) → IsBooked q → IsBooked (run_calls calls q)
unfolding run_calls
run_calls-IsBooked [] q b = b
run_calls-IsBooked ((env, c) ∷ rest) q b =
    run_calls-IsBooked rest (perform env c q).1 (perform-IsBooked env c q b)
