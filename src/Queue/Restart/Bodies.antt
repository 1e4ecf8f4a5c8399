-- ===== src/Queue/Restart/Bodies.antt =====
-- What encoding/json makes of a body on its way through the log, by internal/storage/record.go, and
-- what openQueue of internal/queue/queue.go then replays.
use text.Mathlib.Text.{◌==◌ as str_eq}
use queuemaxxing.Base.{
  ℕ, ◌≡◌, refl, ap, String, Bool-cases, inl, inr, List, [], ◌∷◌, map, Result, ok, err, arith,
}
use queuemaxxing.Storage.Record.{Record, header, enqueue, ack, nack}
use queuemaxxing.Storage.Recovery.Replay.{apply_all, apply_all-cons}
use queuemaxxing.Queue.Clock.{Time}
use queuemaxxing.Queue.Message.{Message}
use queuemaxxing.Queue.Replay.{
  Live, Replayed, ReplayError, put_live, delete_live, delay_live, message_of, replay_record,
}

-- `normal` is json.Marshal and json.Unmarshal at a json.RawMessage.
module _ (normal : List ℕ → List ℕ) where
  -- the record that is read back
  abbrev pub normalised : Record → Record
  normalised (enqueue e) = enqueue (record e { body = normal e.body })
  normalised (header h) = header h
  normalised (ack a) = ack a
  normalised (nack n) = nack n

  abbrev pub with_body : Message → Message
  with_body m = record m { body = normal m.body }

  abbrev pub with_bodies : Live → Live
  with_bodies [] = []
  with_bodies ((k, m) ∷ live) = (k, with_body m) ∷ with_bodies live

  abbrev pub lifted : Replayed → Replayed
  lifted st = record st { live = with_bodies st.live }

  abbrev lifted_result : Result ReplayError Replayed → Result ReplayError Replayed
  lifted_result (ok st) = ok (lifted st)
  lifted_result (err e) = err e

  with_bodies-put_live :
      (id : String) (m : Message) (live : Live)
      → with_bodies (put_live id m live) ≡ put_live id (with_body m) (with_bodies live)
  unfolding put_live
  with_bodies-put_live id m [] = refl
  with_bodies-put_live id m ((k, v) ∷ live) = elim (Bool-cases (str_eq k id)) [
    | inl e ↦ rw e refl
    | inr e ↦ rw e (ap (◌∷◌ (k, with_body v)) (with_bodies-put_live id m live))
  ]

  with_bodies-delete_live :
      (id : String) (live : Live)
      → with_bodies (delete_live id live) ≡ delete_live id (with_bodies live)
  unfolding delete_live
  with_bodies-delete_live id [] = refl
  with_bodies-delete_live id ((k, v) ∷ live) = elim (Bool-cases (str_eq k id)) [
    | inl e ↦ rw e (with_bodies-delete_live id live)
    | inr e ↦ rw e (ap (◌∷◌ (k, with_body v)) (with_bodies-delete_live id live))
  ]

  with_bodies-delay_live :
      (id : String) (t : Time) (live : Live)
      → with_bodies (delay_live id t live) ≡ delay_live id t (with_bodies live)
  unfolding delay_live
  with_bodies-delay_live id t [] = refl
  with_bodies-delay_live id t ((k, v) ∷ live) = elim (Bool-cases (str_eq k id)) [
    | inl e ↦
        rw e (
          ap (◌∷◌ (k, with_body (record v { available_at = t })))
            (with_bodies-delay_live id t live))
    | inr e ↦ rw e (ap (◌∷◌ (k, with_body v)) (with_bodies-delay_live id t live))
  ]

  replay_record-normalised :
      (r : Record) (st mid : Replayed)
      → replay_record r st ≡ ok mid
      → replay_record (normalised r) (lifted st) ≡ ok (lifted mid)
  unfolding replay_record message_of
  replay_record-normalised (header h) st mid e = ground arith
  replay_record-normalised (enqueue e) st mid h = rw with_bodies-put_live at (ap lifted_result h)
  replay_record-normalised (ack a) st mid h = rw with_bodies-delete_live at (ap lifted_result h)
  replay_record-normalised (nack n) st mid h = rw with_bodies-delay_live at (ap lifted_result h)

  -- replaying the records that are read back gives the same messages with the bodies that are
  pub apply_all-normalised :
      (rs : List Record) (st st' : Replayed)
      → apply_all replay_record rs st ≡ ok st'
      → apply_all replay_record (map normalised rs) (lifted st) ≡ ok (lifted st')
  unfolding apply_all
  apply_all-normalised [] st st' h = ap lifted_result h
  apply_all-normalised (r ∷ rs) st st' h =
      let (mid, first, rest) = apply_all-cons replay_record r rs st st' h in
      rw (replay_record-normalised r st mid first, apply_all) (apply_all-normalised rs mid st' rest)
