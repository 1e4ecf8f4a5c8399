-- ===== src/Queue/Places/First.antt =====
-- The message that Receive of queue.go hands out.
use queuemaxxing.Base.{
  ℕ, ◌<◌, ◌≤◌, ◌≡◌, ap, ◌∙◌, String, Bool, false, some, ℤ, ◌+ℤ◌, ltb_ℤ, length, count, ◌==◌, ok,
  arith,
}
use queuemaxxing.Queue.Clock.{Time}
use queuemaxxing.Queue.Message.{Message, Ordering, fifo, lifo, delivery}
use queuemaxxing.Queue.Heap.{ready_less}
use queuemaxxing.Queue.Engine.State.{CallEnv, Queue}
use queuemaxxing.Queue.Engine.Operations.{taken, pop_with, pop_ready, returned, receive_round}
use queuemaxxing.Queue.Places.{IsValid}
use queuemaxxing.Queue.Places.Deliveries.{root, ready_root-IsLeast, pop_with-delivery}
use queuemaxxing.Queue.Places.Calls.{IsFresh}

-- `m` has at least the priority of `n`; at the same priority the earlier number goes first in a FIFO
-- queue, and the later one in a LIFO queue.
abbrev pub BySeq : Ordering → ℕ → ℕ → Type 0
BySeq fifo m n = m ≤ n
BySeq lifo m n = n ≤ m

pub record GoesFirst (o : Ordering) (m n : Message) : Type 0 where
  pub priority : ltb_ℤ m.priority n.priority ≡ false
  pub sequence : ltb_ℤ n.priority m.priority ≡ false → BySeq o m.seq n.seq

less_GoesFirst : (o : Ordering) (m n : Message) → ready_less o n m ≡ false → GoesFirst o m n
unfolding ready_less
less_GoesFirst fifo m n h = record { priority = ground arith; sequence = λ e. ground arith }
less_GoesFirst lifo m n h = record { priority = ground arith; sequence = λ e. ground arith }

-- A Receive on an open queue in order that has a ready message, with a fresh token, returns at once,
-- whatever its wait: with a ready message that goes first among all ready ones, its count of
-- deliveries raised, the token as its receipt and the visibility timeout as its deadline.
pub receive_first :
    (env : CallEnv) (visibility wait : ℤ) (deadline : Time) (ctx_done : Bool) (r : String)
    (q : Queue)
    → IsValid q
    → IsFresh env q
    → q.closed ≡ false
    → env.token ≡ some r
    → 0 < length q.ready
    → (p : ℕ) × (0 < count p q.ready)
      × ((a : ℕ) → 0 < count a q.ready → GoesFirst q.ordering (q.store p) (q.store a))
      × ((receive_round env visibility wait deadline ctx_done q).0
          ≡ returned (ok (some (delivery (taken (q.store p) r (env.now +ℤ visibility))))))
receive_first env visibility wait deadline ctx_done r q v fresh open_ token some_ready =
    let least = ready_root-IsLeast env visibility r q v some_ready (fresh r token) in
    (
      root env visibility r q v some_ready (fresh r token),
      least.inside,
      (λ a inside. less_GoesFirst q.ordering _ (q.store a) (least.least a inside)),
      handed,
    )
  where
    popped :
        pop_ready env visibility q
        ≡ (ok (some (pop_with env visibility r q).0), (pop_with env visibility r q).1)
    popped =
        let busy : (length q.ready == 0) ≡ false = ground arith in
        unfold pop_ready in simp (busy, token)

    answered :
        (receive_round env visibility wait deadline ctx_done q).0
        ≡ returned (ok (some (pop_with env visibility r q).0))
    answered = unfold receive_round in simp (open_, popped)

    handed :
        (receive_round env visibility wait deadline ctx_done q).0
        ≡ returned (
            ok (
              some (
                delivery (
                  taken
                    (q.store (root env visibility r q v some_ready (fresh r token)))
                    r
                    (env.now +ℤ visibility)))))
    handed =
        answered
        ∙ ap (λ d. returned (ok (some d)))
            (pop_with-delivery env visibility r q v some_ready (fresh r token))
