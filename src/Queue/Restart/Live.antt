-- ===== src/Queue/Restart/Live.antt =====
-- The live map of openQueue in internal/queue/queue.go, and the messages that a queue has in memory.
use text.Mathlib.Text.{◌==◌ as str_eq}
use text.Mathlib.TextEquality.{eq_iff}
use queuemaxxing.Base.{
  ℕ, ◌<◌, ◌≡◌, refl, ap, ◌∙◌, sym, String, Option, none, some, [], ◌∷◌, if◌then◌else◌, arith, find,
  find-nil, Bool-cases, inl, inr,
}
use queuemaxxing.Storage.Record.{Enqueue}
use queuemaxxing.Queue.Clock.{Time}
use queuemaxxing.Queue.Message.{Message}
use queuemaxxing.Queue.Heap.{Store}
use queuemaxxing.Queue.Engine.State.{Queue}
use queuemaxxing.Queue.Engine.Compact.{enqueue_of}
use queuemaxxing.Queue.Replay.{Live, put_live, delete_live, delay_live, message_of}
use queuemaxxing.Queue.Places.Schedule.{places}

abbrev pub delayed_to : Time → Option Message → Option Message
delayed_to t none = none
delayed_to t (some m) = some (record m { available_at = t })

pub find-put_live :
    (k j : String) (m : Message) (live : Live)
    → find j (put_live k m live) ≡ (if str_eq k j then some m else find j live)
unfolding find put_live
find-put_live k j m [] = refl
find-put_live k j m ((i, v) ∷ live) =
    ground (arith, eq_iff k j, eq_iff i k, eq_iff i j, find-put_live k j m live)

pub find-delete_live :
    (k j : String) (live : Live)
    → find j (delete_live k live) ≡ (if str_eq k j then none else find j live)
unfolding find delete_live
find-delete_live k j [] = ground arith
find-delete_live k j ((i, v) ∷ live) =
    ground (arith, eq_iff k j, eq_iff i k, eq_iff i j, find-delete_live k j live)

pub find-delay_live :
    (k j : String) (t : Time) (live : Live)
    → find j (delay_live k t live)
      ≡ (if str_eq k j then delayed_to t (find j live) else find j live)
unfolding find delay_live
find-delay_live k j t [] = ground arith
find-delay_live k j t ((i, v) ∷ live) =
    ground (arith, eq_iff k j, eq_iff i k, eq_iff i j, find-delay_live k j t live)

-- no id stands twice
abbrev pub IsOnce : Live → Type 0
IsOnce [] = Unit {0}
IsOnce ((id, m) ∷ live) = (find id live ≡ none) × IsOnce live

pub put_live-IsOnce :
    (k : String) (m : Message) (live : Live) → IsOnce live → IsOnce (put_live k m live)
unfolding put_live
put_live-IsOnce k m [] h = (find-nil k, tt)
put_live-IsOnce k m ((i, v) ∷ live) h = elim (Bool-cases (str_eq i k)) [
  | inl e ↦ let is : i ≡ k = (eq_iff i k).0 e in rw e (rw is at h.0, h.1)
  | inr e ↦ rw e (
    ground (arith, find-put_live k i m live, eq_iff i k, eq_iff k i, h.0),
    put_live-IsOnce k m live h.1,
  )
]

pub delete_live-IsOnce : (k : String) (live : Live) → IsOnce live → IsOnce (delete_live k live)
unfolding delete_live
delete_live-IsOnce k [] h = tt
delete_live-IsOnce k ((i, v) ∷ live) h = elim (Bool-cases (str_eq i k)) [
  | inl e ↦ rw e (delete_live-IsOnce k live h.1)
  | inr e ↦ rw e (ground (arith, find-delete_live k i live, h.0), delete_live-IsOnce k live h.1)
]

pub delay_live-IsOnce :
    (k : String) (t : Time) (live : Live) → IsOnce live → IsOnce (delay_live k t live)
unfolding delay_live
delay_live-IsOnce k t [] h = tt
delay_live-IsOnce k t ((i, v) ∷ live) h =
    let missing : find i (delay_live k t live) ≡ none =
      ground (arith, find-delay_live k i t live, h.0) in
    elim (Bool-cases (str_eq i k)) [
      | inl e ↦ rw e (missing, delay_live-IsOnce k t live h.1)
      | inr e ↦ rw e (missing, delay_live-IsOnce k t live h.1)
    ]

-- what a restart makes of a message
abbrev pub restored : Message → Message
restored m = message_of (enqueue_of m)

-- The map has each message of the queue once, under its id, and no other; no two messages have one
-- id.
pub record Backs (live : Live) (q : Queue) : Type 0 where
  pub once : IsOnce live
  pub present : (a : ℕ) → 0 < places a q → find (q.store a).id live ≡ some (restored (q.store a))
  pub only :
      (id : String) (m : Message)
      → find id live ≡ some m
      → (a : ℕ) × (0 < places a q) × ((q.store a).id ≡ id)
  pub unique : (a b : ℕ) → 0 < places a q → 0 < places b q → (q.store a).id ≡ (q.store b).id → a ≡ b

-- the stores agree on what goes into a log
abbrev pub SameFiles : Store → Store → Type 0
SameFiles s t = (a : ℕ) → enqueue_of (t a) ≡ enqueue_of (s a)

pub SameFiles-id : (s t : Store) → SameFiles s t → (a : ℕ) → (t a).id ≡ (s a).id
unfolding enqueue_of
SameFiles-id s t f a = ap (λ (e : Enqueue). e.id) (f a)

-- Messages that only move about are backed as before.
pub moved-Backs :
    (live : Live) (q q' : Queue)
    → SameFiles q.store q'.store
    → ((a : ℕ) → places a q' ≡ places a q)
    → Backs live q
    → Backs live q'
moved-Backs live q q' files same b =
    let ids = SameFiles-id q.store q'.store files in
    record {
      once = b.once;
      present = λ a inside.
          ap (λ id. find id live) (ids a)
          ∙ b.present a (rw (same a) at inside)
          ∙ ap (λ e. some (message_of e)) (sym (files a));
      only = λ id m found.
          let (a, inside, is) = b.only id m found in (a, rw (same a) inside, ids a ∙ is);
      unique = λ a c in_a in_c e.
          b.unique a c (rw (same a) at in_a) (rw (same c) at in_c) (sym (ids a) ∙ e ∙ ids c);
    }
