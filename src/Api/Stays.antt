-- ===== src/Api/Stays.antt =====
-- What the parts of the message handlers of internal/api behind the lookup keep of their queue.
use text.Mathlib.Text.{◌==◌ as str_eq}
use queuemaxxing.Base.{
  ℕ, ◌≡◌, refl, String, Bool, Bool-cases, inl, inr, Option, ℤ, length, ◌==◌, Result, ok, err,
}
use queuemaxxing.Queue.Clock.{Time}
use queuemaxxing.Queue.Engine.State.{CallEnv, Queue}
use queuemaxxing.Queue.Engine.Operations.{receive_round}
use queuemaxxing.Queue.Engine.Calls.{Call, enqueue_call, ack_call, nack_call, perform}
use queuemaxxing.Queue.Places.{IsValid}
use queuemaxxing.Queue.Places.Calls.{IsFresh, receive_round-Moved, perform-Performed}
use queuemaxxing.Queue.Places.Reach.{performed-IsValid}
use queuemaxxing.Queue.Manager.Identity.{perform-Alike, receive_round-Alike}
use queuemaxxing.Api.Seconds.{
  SecondsError, seconds, max_delay, max_wait, default_visibility, max_visibility,
}
use queuemaxxing.Api.Handlers.{bad_seconds, Reply, write_error}
use queuemaxxing.Api.Messages.{
  with_seconds, SendRequest, send, ReceiveRequest, Context, first_round, refused_seconds,
  priority_of, deadline_of, receive, ack_request, NackRequest, nack_request,
}

-- `q'` is in order, and of the name and as open as `q`.
pub record Stays (q q' : Queue) : Type 0 where
  pub name : q'.name ≡ q.name
  pub closed : q'.closed ≡ q.closed
  pub valid : IsValid q'

module _ (env : CallEnv) (q : Queue) (v : IsValid q) (fresh : IsFresh env q) where
  Stays-same : Stays q q
  Stays-same = record { name = refl; closed = refl; valid = v }

  pub perform-Stays : (c : Call) → Stays q (perform env c q).1
  perform-Stays c =
      let alike = perform-Alike env c q in
      record {
        name = alike.0;
        closed = alike.1;
        valid = performed-IsValid c q (perform env c q) v (perform-Performed env c q v fresh);
      }

  receive_round-Stays :
      (visibility wait : ℤ) (deadline : Time) (ctx_done : Bool)
      → Stays q (receive_round env visibility wait deadline ctx_done q).1
  receive_round-Stays visibility wait deadline ctx_done =
      let alike = receive_round-Alike env visibility wait deadline ctx_done q in
      record {
        name = alike.0;
        closed = alike.1;
        valid = (receive_round-Moved env visibility q v fresh wait deadline ctx_done).valid;
      }

  with_seconds-Stays :
      (t : Option ℤ) (def max : ℕ) (go : ℤ → Reply × Queue)
      → ((d : ℤ) → Stays q (go d).1)
      → Stays q (with_seconds t def max go q).1
  with_seconds-Stays t def max go f = timed (seconds t def max)
    where
      timed :
          (r : Result SecondsError ℤ)
          → Stays q
              (elim r as (λ _. Reply × Queue) [
                | err e ↦ (write_error 400 (bad_seconds e), q)
                | ok d ↦ go d
              ]).1
      timed (err e) = Stays-same
      timed (ok d) = f d

  pub send-Stays : (req : SendRequest) → Stays q (send env req q).1
  unfolding send perform
  send-Stays req = elim (Bool-cases (length req.body == 0)) [
    | inl e ↦ rw e Stays-same
    | inr e ↦ rw e (
        with_seconds-Stays req.delay_seconds 0 max_delay _
          (λ d. perform-Stays (enqueue_call req.body (priority_of req.priority) d)))
  ]

  pub ack_request-Stays : (r : String) → Stays q (ack_request env r q).1
  unfolding ack_request perform
  ack_request-Stays r = elim (Bool-cases (str_eq r "")) [
    | inl e ↦ rw e Stays-same
    | inr e ↦ rw e (perform-Stays (ack_call r))
  ]

  pub nack_request-Stays : (req : NackRequest) → Stays q (nack_request env req q).1
  unfolding nack_request perform
  nack_request-Stays req = elim (Bool-cases (str_eq req.receipt "")) [
    | inl e ↦ rw e Stays-same
    | inr e ↦ rw e (
        with_seconds-Stays req.delay_seconds 0 max_delay _
          (λ d. perform-Stays (nack_call req.receipt d)))
  ]

  pub receive-Stays : (ctx : Context) (req : ReceiveRequest) → Stays q (receive env ctx req q).1
  unfolding receive
  receive-Stays ctx req =
      seen (seconds req.visibility_timeout_seconds default_visibility max_visibility)
    where
      waited :
          (visibility : ℤ) (r : Result SecondsError ℤ)
          → Stays q
              (elim r as (λ _. Option Reply × Queue) [
                | err e ↦ refused_seconds e q
                | ok wait ↦ first_round env ctx visibility wait q
              ]).1
      waited visibility (err e) = Stays-same
      waited visibility (ok wait) =
          receive_round-Stays visibility wait (deadline_of env wait) ctx.done

      seen :
          (r : Result SecondsError ℤ)
          → Stays q
              (elim r as (λ _. Option Reply × Queue) [
                | err e ↦ refused_seconds e q
                | ok visibility ↦
                    elim (seconds req.wait_seconds 0 max_wait) as (λ _. Option Reply × Queue) [
                      | err e ↦ refused_seconds e q
                      | ok wait ↦ first_round env ctx visibility wait q
                    ]
              ]).1
      seen (err e) = Stays-same
      seen (ok visibility) = waited visibility (seconds req.wait_seconds 0 max_wait)
