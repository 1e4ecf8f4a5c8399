-- ===== src/Queue/Places/Receipts.antt =====
-- The in-flight map of queue.go under the operations that hand out, drop and return deliveries.
use text.Mathlib.Text.{◌==◌ as str_eq}
use text.Mathlib.TextEquality.{eq_iff}
use queuemaxxing.Base.{
  ℕ, ◌+◌, ◌<◌, ◌≡◌, ◌≢◌, ap, ◌∙◌, String, false, Bool-cases, inl, inr, none, some, List, count,
  ◌==◌, if◌then◌else◌, arith,
}
use queuemaxxing.Queue.Heap.{Store}
use queuemaxxing.Queue.Engine.State.{Inflight, lookup, delete, insert, lookup-delete}
use queuemaxxing.Queue.Places.{Received}

pub lookup-insert :
    (r s : String) (p : ℕ) (m : Inflight)
    → lookup s (insert r p m) ≡ (if str_eq r s then some p else lookup s m)
unfolding lookup insert
lookup-insert r s p m = ground (arith, lookup-delete r s m)

-- the stores agree on the receipts of all messages but `p`
abbrev pub SameReceipts : ℕ → Store → Store → Type 0
SameReceipts p s t = (a : ℕ) → a ≢ p → (t a).receipt ≡ (s a).receipt

pub Received-same :
    (s t : Store) (es : List ℕ) (m : Inflight)
    → ((a : ℕ) → 0 < count a es → (t a).receipt ≡ (s a).receipt)
    → Received s es m
    → Received t es m
Received-same s t es m same v = record {
  known = λ p inside. rw (same p inside) (v.known p inside);
  real = λ r p found. let was = v.real r p found in (was.0, same p was.0 ∙ was.1);
}

module _ (s t : Store) (es es' : List ℕ) (m : Inflight) (p : ℕ) (r : String) (v : Received s es m)
    (same : SameReceipts p s t) where
  -- a delivery of `p` with the new receipt `r`
  pub Received-insert :
      lookup r m ≡ none
      → (t p).receipt ≡ r
      → count p es ≡ 0
      → ((a : ℕ) → count a es' ≡ (if p == a then 1 else 0) + count a es)
      → Received t es' (insert r p m)
  Received-insert fresh new absent counts = record {
    known = λ a inside. elim (Bool-cases (p == a)) [
      | inl e ↦
          let is : p ≡ a = ground arith in
          rw (← is) (rw new (lookup-insert r r p m ∙ ground (arith, eq_iff r r)))
      | inr e ↦
          let other : a ≢ p = ground arith in
          let was : 0 < count a es = ground (arith, counts a) in
          rw (same a other) (
            lookup-insert r (s a).receipt p m
            ∙ ground (arith, eq_iff r (s a).receipt, v.known a was))
    ];
    real = λ r' a found. elim (Bool-cases (str_eq r r')) [
      | inl e ↦
          let is : p ≡ a = ground (arith, lookup-insert r r' p m) in
          (ground (arith, counts a), rw is at new ∙ ground (arith, eq_iff r r'))
      | inr e ↦
          let old : lookup r' m ≡ some a = ground (arith, lookup-insert r r' p m) in
          let was = v.real r' a old in
          let other : a ≢ p = (λ is. omega (arith, ap (λ x. count x es) is, was.0)) in
          (omega (arith, counts a, was.0), same a other ∙ was.1)
    ];
  }

  -- the delivery of `p` with the receipt `r` is over
  pub Received-delete :
      lookup r m ≡ some p
      → count p es' ≡ 0
      → ((a : ℕ) → count a es ≡ (if p == a then 1 else 0) + count a es')
      → Received t es' (delete r m)
  Received-delete found gone counts = record {
    known = λ a inside.
        let other : a ≢ p = (λ is. omega (arith, ap (λ x. count x es') is)) in
        let was : lookup (s a).receipt m ≡ some a = v.known a (omega (arith, counts a)) in
        rw (same a other)
          (lookup-delete r (s a).receipt m ∙ ground (arith, eq_iff r (s a).receipt));
    real = λ r' a here.
        let differ : str_eq r r' ≡ false = ground (arith, lookup-delete r r' m) in
        let old : lookup r' m ≡ some a = ground (arith, lookup-delete r r' m) in
        let was = v.real r' a old in
        let mine = (v.real r p found).1 in
        let other : a ≢ p =
          (λ is. ground (arith, eq_iff r r', ap (λ x. (s x).receipt) is, was.1, mine)) in
        (ground (arith, counts a, was.0), same a other ∙ was.1);
  }
