-- ===== src/Queue/Restart/Snapshot.antt =====
-- The log that compactLocked of internal/queue/compaction.go writes, replayed by openQueue.
use text.Mathlib.Text.{◌==◌ as str_eq}
use text.Mathlib.TextEquality.{eq_iff}
use queuemaxxing.Base.{
  ℕ, ◌<◌, ◌≡◌, ap, ◌∙◌, String, Bool-cases, Option-cases, inl, inr, none, some, List, [], ◌∷◌, ◌++◌,
  map, count, count-append, ◌==◌, arith, find, find-nil,
}
use queuemaxxing.Storage.Record.{Enqueue}
use queuemaxxing.Queue.Message.{Message}
use queuemaxxing.Queue.Heap.{Store}
use queuemaxxing.Queue.Engine.State.{Queue}
use queuemaxxing.Queue.Engine.Compact.{enqueue_of, live_addresses, live_records, addresses}
use queuemaxxing.Queue.Replay.{Live, put_live, message_of}
use queuemaxxing.Queue.Places.{IsValid}
use queuemaxxing.Queue.Places.Schedule.{places}
use queuemaxxing.Queue.Restart.Live.{IsOnce, put_live-IsOnce, find-put_live, restored, Backs}
use queuemaxxing.Queue.Restart.Inflight.{IsMap, in_flight-expiry, expiry-in_flight}

-- the live map behind the Enqueue records
abbrev pub put_all : List Enqueue → Live → Live
put_all [] live = live
put_all (e ∷ es) live = put_all es (put_live e.id (message_of e) live)

abbrev pub filed : Store → List ℕ → List Enqueue
filed s ps = map (λ a. enqueue_of (s a)) ps

put_all-IsOnce : (es : List Enqueue) (live : Live) → IsOnce live → IsOnce (put_all es live)
put_all-IsOnce [] live h = h
put_all-IsOnce (e ∷ es) live h = put_all-IsOnce es _ (put_live-IsOnce e.id (message_of e) live h)

-- each entry of the map is the message that one of `ps` has
abbrev pub From : Store → (ℕ → Type 0) → Live → Type 0
From s In live =
    (id : String) (m : Message)
    → find id live ≡ some m
    → (a : ℕ) × In a × ((s a).id ≡ id) × (m ≡ restored (s a))

module _ (s : Store) (In : ℕ → Type 0) where
  put-From :
      (a : ℕ) (live : Live)
      → In a
      → From s In live
      → From s In (put_live (s a).id (restored (s a)) live)
  put-From a live inside from id m found = elim (Bool-cases (str_eq (s a).id id)) [
    | inl e ↦ (
      a,
      inside,
      (eq_iff (s a).id id).0 e,
      ground (arith, find-put_live (s a).id id (restored (s a)) live),
    )
    | inr e ↦ from id m (ground (arith, find-put_live (s a).id id (restored (s a)) live))
  ]

  pub put_all-From :
      (ps : List ℕ) (live : Live)
      → ((a : ℕ) → 0 < count a ps → In a)
      → From s In live
      → From s In (put_all (filed s ps) live)
  unfolding enqueue_of
  put_all-From [] live inside from = from
  put_all-From (a ∷ ps) live inside from =
      put_all-From ps _ (λ b h. inside b (ground arith))
        (put-From a live (inside a (ground arith)) from)

-- what is in the map stays there, under its id
put_live-there :
    (k id : String) (m : Message) (live : Live)
    → (find id live ≡ none → ⊥)
    → find id (put_live k m live) ≡ none
    → ⊥
put_live-there k id m live there missing = elim (Bool-cases (str_eq k id)) [
  | inl e ↦ ground (arith, find-put_live k id m live)
  | inr e ↦ there (ground (arith, find-put_live k id m live))
]

put_all-there :
    (es : List Enqueue) (id : String) (live : Live)
    → (find id live ≡ none → ⊥)
    → find id (put_all es live) ≡ none
    → ⊥
put_all-there [] id live there = there
put_all-there (e ∷ es) id live there =
    put_all-there es id (put_live e.id (message_of e) live)
      (put_live-there e.id id (message_of e) live there)

pub put_all-has :
    (s : Store) (ps : List ℕ) (live : Live) (a : ℕ)
    → 0 < count a ps
    → find (s a).id (put_all (filed s ps) live) ≡ none
    → ⊥
unfolding enqueue_of
put_all-has s [] live a inside = absurd (omega arith)
put_all-has s (b ∷ ps) live a inside = elim (Bool-cases (b == a)) [
  | inl e ↦
      let is : b ≡ a = ground arith in
      put_all-there (filed s ps) (s a).id _ (λ missing. ground (
        arith,
        find-put_live (s b).id (s a).id (restored (s b)) live,
        ap (λ x. (s x).id) is,
        eq_iff (s b).id (s a).id,
      ))
  | inr e ↦ put_all-has s ps (put_live (s b).id (restored (s b)) live) a (ground arith)
]

module _ (q : Queue) (v : IsValid q) (h : IsMap q.inflight) where
  -- the addresses that compaction writes are those of the messages
  pub live-places : (a : ℕ) → 0 < count a (live_addresses q) → 0 < places a q
  live-places a inside = elim (Bool-cases (count a (addresses q.inflight) == 0)) [
    | inl e ↦ ground (
      arith,
      count-append a q.ready (q.delayed ++ addresses q.inflight),
      count-append a q.delayed (addresses q.inflight),
    )
    | inr e ↦ omega (arith, in_flight-expiry q a v h (ground arith))
  ]

  pub places-live : (a : ℕ) → 0 < places a q → 0 < count a (live_addresses q)
  places-live a inside = elim (Bool-cases (count a q.expiry == 0)) [
    | inl e ↦ ground (
      arith,
      count-append a q.ready (q.delayed ++ addresses q.inflight),
      count-append a q.delayed (addresses q.inflight),
    )
    | inr e ↦ omega (
      arith,
      expiry-in_flight q a v (ground arith),
      count-append a q.ready (q.delayed ++ addresses q.inflight),
      count-append a q.delayed (addresses q.inflight),
    )
  ]

  -- Where no two messages have one id, the records of a compaction put exactly the messages.
  pub snapshot-Backs :
      ((a b : ℕ) → 0 < places a q → 0 < places b q → (q.store a).id ≡ (q.store b).id → a ≡ b)
      → Backs (put_all (live_records q) []) q
  unfolding live_records
  snapshot-Backs unique = record {
    once = put_all-IsOnce (live_records q) [] tt;
    present = λ a inside.
        elim (Option-cases (find (q.store a).id (put_all (filed q.store (live_addresses q)) []))) [
          | inl e ↦ absurd (put_all-has q.store (live_addresses q) [] a (places-live a inside) e)
          | inr (m, e) ↦
              let (b, in_b, same, is) = from (q.store a).id m e in
              let one : b ≡ a = unique b a in_b inside same in
              e ∙ ap some (is ∙ ap (λ x. restored (q.store x)) one)
        ];
    only = λ id m found. let (a, inside, is, _) = from id m found in (a, inside, is);
    unique = unique;
  }
    where
      from : From q.store (λ a. 0 < places a q) (put_all (filed q.store (live_addresses q)) [])
      from =
          put_all-From q.store (λ a. 0 < places a q) (live_addresses q) [] live-places
            (λ id m found. absurd (cc (found, find-nil {A = Message} id)))
