-- ===== src/Api/Answers.antt =====
-- What an answer of internal/api says about what its request has done.
use queuemaxxing.Base.{
  ℕ, ◌≤◌, ◌≡◌, refl, String, Bool, Bool-cases, inl, inr, Option, none, some, List, ℤ, length, ◌==◌,
  Result, ok, err, arith,
}
use text.Mathlib.Text.{◌==◌ as str_eq}
use queuemaxxing.Queue.Engine.State.{QueueError, CallEnv, Queue}
use queuemaxxing.Queue.Engine.Operations.{
  enqueue_message, ack_message, nack_message, pop_ready, Round, returned, waits, receive_round,
}
use queuemaxxing.Queue.Manager.{Manager}
use queuemaxxing.Queue.Clock.{Time}
use queuemaxxing.Api.Seconds.{
  SecondsError, seconds, max_delay, max_wait, default_visibility, max_visibility,
}
use queuemaxxing.Api.Handlers.{
  bad_seconds, Payload, acked, nacked, Reply, answer, no_answer, write_error,
}
use queuemaxxing.Api.Messages.{
  with_seconds, SendRequest, reply_sent, send, ReceiveRequest, Context, reply_round, first_round,
  refused_seconds, priority_of, deadline_of, receive, reply_done, ack_request, NackRequest,
  nack_request,
}

-- the status of an answer, and 0 where there is none
abbrev pub status_of : Option Reply → ℕ
status_of none = 0
status_of (some (answer s _)) = s
status_of (some no_answer) = 0

-- an answer with an error status says that the queues are as they were
abbrev pub Kept : Manager → Option Reply × Manager → Type 0
Kept m x = 400 ≤ status_of x.0 → x.1.queues ≡ m.queues

-- the same of one queue, for the part of a handler behind the lookup
abbrev pub QueueKept : Queue → Option Reply × Queue → Type 0
QueueKept q x = 400 ≤ status_of x.0 → x.1 ≡ q

module _ (env : CallEnv) (q : Queue) where
  sent-QueueKept :
      (r : Result QueueError String) (q' : Queue)
      → ((e : QueueError) → r ≡ err e → q' ≡ q)
      → QueueKept q (some (reply_sent r), q')
  sent-QueueKept (ok id) q' f h = absurd (omega arith)
  sent-QueueKept (err e) q' f h = f e refl

  done-QueueKept :
      (p : Payload) (r : Result QueueError (Unit {0})) (q' : Queue)
      → ((e : QueueError) → r ≡ err e → q' ≡ q)
      → QueueKept q (some (reply_done p r), q')
  done-QueueKept p (ok id) q' f h = absurd (omega arith)
  done-QueueKept p (err e) q' f h = f e refl

  round-QueueKept :
      (gone : Bool) (r : Round) (q' : Queue)
      → ((e : QueueError) → r ≡ returned (err e) → q' ≡ q)
      → QueueKept q (reply_round gone r, q')
  round-QueueKept gone waits q' f h = absurd (omega arith)
  round-QueueKept gone (returned (ok (some d))) q' f h = absurd (omega arith)
  round-QueueKept gone (returned (ok none)) q' f h = absurd (omega arith)
  round-QueueKept gone (returned (err e)) q' f h = f e refl

  enqueue_message-error :
      (body : List ℕ) (priority delay : ℤ) (e : QueueError)
      → (enqueue_message env body priority delay q).0 ≡ err e
      → (enqueue_message env body priority delay q).1 ≡ q
  unfolding enqueue_message
  enqueue_message-error body priority delay e h = ground arith

  ack_message-error :
      (r : String) (e : QueueError) → (ack_message env r q).0 ≡ err e → (ack_message env r q).1 ≡ q
  unfolding ack_message
  ack_message-error r e h = ground arith

  nack_message-error :
      (r : String) (delay : ℤ) (e : QueueError)
      → (nack_message env r delay q).0 ≡ err e
      → (nack_message env r delay q).1 ≡ q
  unfolding nack_message
  nack_message-error r delay e h = ground arith

  receive_round-error :
      (visibility wait : ℤ) (deadline : Time) (ctx_done : Bool) (e : QueueError)
      → (receive_round env visibility wait deadline ctx_done q).0 ≡ returned (err e)
      → (receive_round env visibility wait deadline ctx_done q).1 ≡ q
  unfolding receive_round pop_ready
  receive_round-error visibility wait deadline ctx_done e h = ground arith

  with_seconds-QueueKept :
      (v : Option ℤ) (def max : ℕ) (go : ℤ → Reply × Queue)
      → ((d : ℤ) → QueueKept q (some (go d).0, (go d).1))
      → QueueKept q (some (with_seconds v def max go q).0, (with_seconds v def max go q).1)
  with_seconds-QueueKept v def max go f = timed (seconds v def max)
    where
      timed :
          (r : Result SecondsError ℤ)
          → QueueKept q (
            some
                (elim r as (λ _. Reply × Queue) [
                  | err e ↦ (write_error 400 (bad_seconds e), q)
                  | ok d ↦ go d
                ]).0,
            (elim r as (λ _. Reply × Queue) [
              | err e ↦ (write_error 400 (bad_seconds e), q)
              | ok d ↦ go d
            ]).1,
          )
      timed (err e) h = refl
      timed (ok d) h = f d h

  pub send-QueueKept :
      (req : SendRequest) → QueueKept q (some (send env req q).0, (send env req q).1)
  unfolding send
  send-QueueKept req = elim (Bool-cases (length req.body == 0)) [
    | inl e ↦ rw e (λ h. refl)
    | inr e ↦ rw e (
        with_seconds-QueueKept req.delay_seconds 0 max_delay _ (λ d.
          sent-QueueKept (enqueue_message env req.body (priority_of req.priority) d q).0 _
            (enqueue_message-error req.body (priority_of req.priority) d)))
  ]

  pub ack_request-QueueKept :
      (r : String) → QueueKept q (some (ack_request env r q).0, (ack_request env r q).1)
  unfolding ack_request
  ack_request-QueueKept r = elim (Bool-cases (str_eq r "")) [
    | inl e ↦ rw e (λ h. refl)
    | inr e ↦ rw e (done-QueueKept acked (ack_message env r q).0 _ (ack_message-error r))
  ]

  pub nack_request-QueueKept :
      (req : NackRequest)
      → QueueKept q (some (nack_request env req q).0, (nack_request env req q).1)
  unfolding nack_request
  nack_request-QueueKept req = elim (Bool-cases (str_eq req.receipt "")) [
    | inl e ↦ rw e (λ h. refl)
    | inr e ↦ rw e (
        with_seconds-QueueKept req.delay_seconds 0 max_delay _ (λ d.
          done-QueueKept nacked (nack_message env req.receipt d q).0 _
            (nack_message-error req.receipt d)))
  ]

  pub receive-QueueKept :
      (ctx : Context) (req : ReceiveRequest) → QueueKept q (receive env ctx req q)
  unfolding receive
  receive-QueueKept ctx req =
      seen (seconds req.visibility_timeout_seconds default_visibility max_visibility)
    where
      waited :
          (visibility : ℤ) (r : Result SecondsError ℤ)
          → QueueKept q (elim r as (λ _. Option Reply × Queue) [
            | err e ↦ refused_seconds e q
            | ok wait ↦ first_round env ctx visibility wait q
          ])
      waited visibility (err e) h = refl
      waited visibility (ok wait) h =
          round-QueueKept ctx.gone
            (receive_round env visibility wait (deadline_of env wait) ctx.done q).0 _
            (receive_round-error visibility wait (deadline_of env wait) ctx.done) h

      seen :
          (r : Result SecondsError ℤ)
          → QueueKept q (elim r as (λ _. Option Reply × Queue) [
            | err e ↦ refused_seconds e q
            | ok visibility ↦
                elim (seconds req.wait_seconds 0 max_wait) as (λ _. Option Reply × Queue) [
                  | err e ↦ refused_seconds e q
                  | ok wait ↦ first_round env ctx visibility wait q
                ]
          ])
      seen (err e) h = refl
      seen (ok visibility) h = waited visibility (seconds req.wait_seconds 0 max_wait) h
