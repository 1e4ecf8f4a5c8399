-- ===== src/Queue/Restart/Changes.antt =====
-- The live map of openQueue behind the record of an Enqueue, an Ack or a Nack.
use text.Mathlib.Text.{◌==◌ as str_eq}
use text.Mathlib.TextEquality.{eq_iff}
use queuemaxxing.Base.{
  ℕ, ◌+◌, ◌<◌, ◌≡◌, ◌≢◌, refl, ap, ◌∙◌, sym, String, Bool-cases, inl, inr, Option, none, some,
  false, ℤ, ◌==◌, find, arith,
}
use queuemaxxing.Storage.Record.{Enqueue}
use queuemaxxing.Queue.Clock.{from_millis}
use queuemaxxing.Queue.Message.{Message}
use queuemaxxing.Queue.Engine.State.{Queue}
use queuemaxxing.Queue.Engine.Compact.{enqueue_of}
use queuemaxxing.Queue.Replay.{Live, put_live, delete_live, delay_live, message_of}
use queuemaxxing.Queue.Places.Schedule.{places}
use queuemaxxing.Queue.Places.Steps.{one}
use queuemaxxing.Queue.Restart.Live.{
  put_live-IsOnce, delete_live-IsOnce, delay_live-IsOnce, Backs, SameFiles, SameFiles-id, restored,
  find-put_live, find-delete_live, find-delay_live,
}

-- an entry under another name of its id and its message
carried :
    (live : Live) (id id' : String) (m m' : Message)
    → id' ≡ id
    → m' ≡ m
    → find id live ≡ some m
    → find id' live ≡ some m'
carried live id id' m m' e f h = ap (λ k. find k live) e ∙ h ∙ ap some (sym f)

module _ (live : Live) (q q' : Queue) (p : ℕ) (b : Backs live q) where
  module _ (e : Enqueue) (new : enqueue_of (q'.store p) ≡ e)
      (old : (a : ℕ) → a ≢ p → enqueue_of (q'.store a) ≡ enqueue_of (q.store a))
      (moved : (a : ℕ) → places a q' ≡ places a q + one p a) (absent : places p q ≡ 0)
      (fresh : (a : ℕ) → 0 < places a q → (q.store a).id ≢ e.id) where
    new_id : (q'.store p).id ≡ e.id
    unfolding enqueue_of
    new_id = ap (λ (x : Enqueue). x.id) new

    old_id : (a : ℕ) → a ≢ p → (q'.store a).id ≡ (q.store a).id
    unfolding enqueue_of
    old_id a other = ap (λ (x : Enqueue). x.id) (old a other)

    was : (a : ℕ) → 0 < places a q' → (p == a) ≡ false → 0 < places a q
    was a inside h = ground (arith, moved a)

    apart : (a : ℕ) → (p == a) ≡ false → a ≢ p
    apart a h e = ground arith

    not_same : (a : ℕ) → 0 < places a q → str_eq e.id (q.store a).id ≡ false
    not_same a inside = elim (Bool-cases (str_eq e.id (q.store a).id)) [
      | inl h ↦ absurd (fresh a inside (sym ((eq_iff e.id (q.store a).id).0 h)))
      | inr h ↦ h
    ]

    pub added-Backs : Backs (put_live e.id (message_of e) live) q'
    added-Backs = record {
      once = put_live-IsOnce e.id (message_of e) live b.once;
      present = λ a inside. elim (Bool-cases (p == a)) [
        | inl h ↦
            let is : p ≡ a = ground arith in
            carried _ e.id _ (message_of e) _ (ap (λ x. (q'.store x).id) (sym is) ∙ new_id)
              (ap (λ x. restored (q'.store x)) (sym is) ∙ ap message_of new)
              (find-put_live e.id e.id (message_of e) live ∙ ground (arith, eq_iff e.id e.id))
        | inr h ↦
            let before = was a inside h in
            carried _ (q.store a).id _ (restored (q.store a)) _ (old_id a (apart a h))
              (ap message_of (old a (apart a h)))
              (find-put_live e.id (q.store a).id (message_of e) live
                ∙ rw (not_same a before) (b.present a before))
      ];
      only = λ id m found. elim (Bool-cases (str_eq e.id id)) [
        | inl h ↦ (p, ground (arith, moved p), new_id ∙ (eq_iff e.id id).0 h)
        | inr h ↦
            let (a, inside, is) =
              b.only id m (ground (arith, find-put_live e.id id (message_of e) live)) in
            let other : a ≢ p = (λ same. omega (arith, ap (λ x. places x q) same)) in
            (a, omega (arith, moved a), old_id a other ∙ is)
      ];
      unique = λ a c in_a in_c same. elim (Bool-cases (p == a)) [
        | inl h ↦ elim (Bool-cases (p == c)) [
          | inl g ↦ ground arith
          | inr g ↦
              let is : p ≡ a = ground arith in
              absurd (
                fresh c (was c in_c g) (
                  sym (old_id c (apart c g))
                  ∙ sym same
                  ∙ ap (λ x. (q'.store x).id) (sym is)
                  ∙ new_id))
        ]
        | inr h ↦ elim (Bool-cases (p == c)) [
          | inl g ↦
              let is : p ≡ c = ground arith in
              absurd (
                fresh a (was a in_a h)
                  (sym (old_id a (apart a h)) ∙ same ∙ ap (λ x. (q'.store x).id) (sym is) ∙ new_id))
          | inr g ↦
              b.unique a c (was a in_a h) (was c in_c g)
                (sym (old_id a (apart a h)) ∙ same ∙ old_id c (apart c g))
        ]
      ];
    }

  -- the id of another message is another one
  other_id :
      (a : ℕ)
      → 0 < places p q
      → 0 < places a q
      → a ≢ p
      → str_eq (q.store p).id (q.store a).id ≡ false
  other_id a here inside other = elim (Bool-cases (str_eq (q.store p).id (q.store a).id)) [
    | inl h ↦
        absurd (other (b.unique a p inside here (sym ((eq_iff (q.store p).id (q.store a).id).0 h))))
    | inr h ↦ h
  ]

  module _ (files : SameFiles q.store q'.store)
      (moved : (a : ℕ) → places a q' + one p a ≡ places a q) (gone : places p q' ≡ 0) where
    still : (a : ℕ) → 0 < places a q' → 0 < places a q
    still a inside = omega (arith, moved a)

    elsewhere : (a : ℕ) → 0 < places a q' → a ≢ p
    elsewhere a inside same = omega (arith, ap (λ x. places x q') same)

    pub removed-Backs : Backs (delete_live (q.store p).id live) q'
    removed-Backs =
        let ids = SameFiles-id q.store q'.store files in
        let here : 0 < places p q = ground (arith, moved p) in
        record {
          once = delete_live-IsOnce (q.store p).id live b.once;
          present = λ a inside.
              carried _ (q.store a).id _ (restored (q.store a)) _ (ids a) (ap message_of (files a))
                (find-delete_live (q.store p).id (q.store a).id live
                  ∙ rw (other_id a here (still a inside) (elsewhere a inside))
                      (b.present a (still a inside)));
          only = λ id m found.
              let differ : str_eq (q.store p).id id ≡ false =
                ground (arith, find-delete_live (q.store p).id id live) in
              let (a, inside, is) =
                b.only id m (ground (arith, find-delete_live (q.store p).id id live)) in
              let other : (p == a) ≡ false =
                ground (arith, eq_iff (q.store p).id id, ap (λ x. (q.store x).id)) in
              (a, ground (arith, moved a), ids a ∙ is);
          unique = λ a c in_a in_c same.
              b.unique a c (still a in_a) (still c in_c) (sym (ids a) ∙ same ∙ ids c);
        }

  module _ (t : ℤ) (here : 0 < places p q)
      (new : enqueue_of (q'.store p) ≡ record (enqueue_of (q.store p)) { available_at = t })
      (old : (a : ℕ) → a ≢ p → enqueue_of (q'.store a) ≡ enqueue_of (q.store a))
      (moved : (a : ℕ) → places a q' ≡ places a q) where
    ids : (a : ℕ) → (q'.store a).id ≡ (q.store a).id
    unfolding enqueue_of
    ids a = elim (Bool-cases (p == a)) [
      | inl h ↦ let is : p ≡ a = ground arith in rw (← is) (ap (λ (x : Enqueue). x.id) new)
      | inr h ↦ ap (λ (x : Enqueue). x.id) (old a (λ e. ground arith))
    ]

    delayed_message :
        restored (q'.store p) ≡ record (restored (q.store p)) { available_at = from_millis t }
    unfolding message_of
    delayed_message = ap message_of new

    pub delayed-Backs : Backs (delay_live (q.store p).id (from_millis t) live) q'
    delayed-Backs = record {
      once = delay_live-IsOnce (q.store p).id (from_millis t) live b.once;
      present = λ a inside.
          let before : 0 < places a q = rw (moved a) at inside in
          elim (Bool-cases (p == a)) [
            | inl h ↦
                let is : p ≡ a = ground arith in
                carried _ (q.store p).id _ _ _ (ap (λ x. (q'.store x).id) (sym is) ∙ ids p)
                  (ap (λ x. restored (q'.store x)) (sym is) ∙ delayed_message)
                  (find-delay_live (q.store p).id (q.store p).id (from_millis t) live
                    ∙ ground (arith, eq_iff (q.store p).id (q.store p).id, b.present p here))
            | inr h ↦
                let other : a ≢ p = (λ e. ground arith) in
                carried _ (q.store a).id _ (restored (q.store a)) _ (ids a)
                  (ap message_of (old a other))
                  (find-delay_live (q.store p).id (q.store a).id (from_millis t) live
                    ∙ rw (other_id a here before other) (b.present a before))
          ];
      only = λ id m found. kept id m (find id live) refl found;
      unique = λ a c in_a in_c same.
          b.unique a c (rw (moved a) at in_a) (rw (moved c) at in_c) (sym (ids a) ∙ same ∙ ids c);
    }
      where
        kept :
            (id : String) (m : Message) (o : Option Message)
            → find id live ≡ o
            → find id (delay_live (q.store p).id (from_millis t) live) ≡ some m
            → (a : ℕ) × (0 < places a q') × ((q'.store a).id ≡ id)
        kept id m none e found =
            absurd (ground (arith, find-delay_live (q.store p).id id (from_millis t) live))
        kept id m (some x) e found =
            let (a, inside, is) = b.only id x e in (a, rw (moved a) inside, ids a ∙ is)
