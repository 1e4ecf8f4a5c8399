-- ===== src/Queue/Manager/Listing.antt =====
-- Manager.List of internal/queue/manager.go. The standard library's sort.Slice is a parameter.
use queuemaxxing.Base.{
  ◌≡◌, ◌<◌, ◌⊎◌, refl, Bool, true, false, Bool-cases, inl, inr, List, [], ◌∷◌, map, Perm, String, ℕ,
  ltb, if◌then◌else◌, arith,
}
use queuemaxxing.Queue.Engine.State.{Queue}
use queuemaxxing.Queue.Manager.{Queues, Manager, code_points}

-- Go's `<` on strings, by code points
unfoldable pub text_less : List ℕ → List ℕ → Bool
text_less [] [] = false
text_less [] (d ∷ ds) = true
text_less (c ∷ cs) [] = false
text_less (c ∷ cs) (d ∷ ds) =
    let rest = text_less cs ds in if ltb c d then true else if ltb d c then false else rest

-- the order that List gives to sort.Slice
abbrev pub name_less : Queue → Queue → Bool
name_less q r = text_less (code_points q.name) (code_points r.name)

abbrev pub values : Queues → List Queue
values queues = map (λ (e : String × Queue). e.1) queues

-- sort.Slice at a slice of queues
abbrev pub SortSlice : Type 0
SortSlice = (Queue → Queue → Bool) → List Queue → List Queue

-- Manager.List
abbrev pub list : SortSlice → Manager → List Queue
list sort_slice m = sort_slice name_less (values m.queues)

-- What sort.Slice wants of its function, a strict weak order: no item is less than itself, and `less`
-- and its negation are transitive.
abbrev pub IsOrder : (Queue → Queue → Bool) → Type 0
IsOrder less =
    ((q : Queue) → less q q ≡ false)
    × ((q r s : Queue) → less q r ≡ true → less r s ≡ true → less q s ≡ true)
    × ((q r s : Queue) → less q r ≡ false → less r s ≡ false → less q s ≡ false)

-- `less` puts nothing before the item in front of it
abbrev pub InOrder : (Queue → Queue → Bool) → List Queue → Type 0
InOrder less [] = Unit {0}
InOrder less (q ∷ []) = Unit {0}
InOrder less (q ∷ r ∷ rs) = (less r q ≡ false) × InOrder less (r ∷ rs)

-- The documented behaviour of sort.Slice: it puts the items of the slice in order.
abbrev pub Sorts : SortSlice → Type 0
Sorts sort_slice =
    (less : Queue → Queue → Bool) (qs : List Queue)
    → IsOrder less
    → InOrder less (sort_slice less qs) × Perm (sort_slice less qs) qs

-- The text `cs` does not come behind `ds` in a dictionary: where they first differ, `cs` ends or has
-- the smaller code point.
abbrev pub UpTo : List ℕ → List ℕ → Type 0
UpTo [] ds = Unit {0}
UpTo (c ∷ cs) [] = ⊥
UpTo (c ∷ cs) (d ∷ ds) = (c < d) ⊎ ((c ≡ d) × UpTo cs ds)

-- `q`'s name does not come behind that of any queue of the list
abbrev pub Leads : Queue → List Queue → Type 0
Leads q [] = Unit {0}
Leads q (r ∷ rs) = UpTo (code_points q.name) (code_points r.name) × Leads q rs

-- No queue's name comes behind the name of a later one.
abbrev pub IsSorted : List Queue → Type 0
IsSorted [] = Unit {0}
IsSorted (q ∷ qs) = Leads q qs × IsSorted qs

text_less-UpTo : (cs ds : List ℕ) → text_less ds cs ≡ false → UpTo cs ds
unfolding text_less
text_less-UpTo [] ds h = tt
text_less-UpTo (c ∷ cs) [] h = absurd (cc h)
text_less-UpTo (c ∷ cs) (d ∷ ds) h = elim (Bool-cases (ltb c d)) [
  | inl e ↦ inl (ground arith)
  | inr e ↦ elim (Bool-cases (ltb d c)) [
    | inl f ↦ absurd (ground arith)
    | inr f ↦ inr (ground arith, text_less-UpTo cs ds (ground arith))
  ]
]

UpTo-text_less : (cs ds : List ℕ) → UpTo cs ds → text_less ds cs ≡ false
unfolding text_less
UpTo-text_less [] [] u = refl
UpTo-text_less [] (d ∷ ds) u = refl
UpTo-text_less (c ∷ cs) [] u = absurd u
UpTo-text_less (c ∷ cs) (d ∷ ds) (inl h) = ground arith
UpTo-text_less (c ∷ cs) (d ∷ ds) (inr (h, u)) = ground (arith, UpTo-text_less cs ds u)

UpTo-trans : (cs ds es : List ℕ) → UpTo cs ds → UpTo ds es → UpTo cs es
UpTo-trans [] ds es u v = tt
UpTo-trans (c ∷ cs) [] es u v = absurd u
UpTo-trans (c ∷ cs) (d ∷ ds) [] u v = absurd v
UpTo-trans (c ∷ cs) (d ∷ ds) (e ∷ es) (inl h) (inl k) = inl (omega arith)
UpTo-trans (c ∷ cs) (d ∷ ds) (e ∷ es) (inl h) (inr (k, v)) = inl (omega arith)
UpTo-trans (c ∷ cs) (d ∷ ds) (e ∷ es) (inr (h, u)) (inl k) = inl (omega arith)
UpTo-trans (c ∷ cs) (d ∷ ds) (e ∷ es) (inr (h, u)) (inr (k, v)) =
    inr (omega arith, UpTo-trans cs ds es u v)

-- a text before another is not behind it
text_less-asym : (cs ds : List ℕ) → text_less cs ds ≡ true → text_less ds cs ≡ false
unfolding text_less
text_less-asym [] [] h = cc
text_less-asym [] (d ∷ ds) h = refl
text_less-asym (c ∷ cs) [] h = cc
text_less-asym (c ∷ cs) (d ∷ ds) h = ground (arith, text_less-asym cs ds)

text_less-not_trans :
    (cs ds es : List ℕ)
    → text_less cs ds ≡ false
    → text_less ds es ≡ false
    → text_less cs es ≡ false
text_less-not_trans cs ds es h k =
    UpTo-text_less es cs (UpTo-trans es ds cs (text_less-UpTo es ds k) (text_less-UpTo ds cs h))

text_less_trans :
    (cs ds es : List ℕ) → text_less cs ds ≡ true → text_less ds es ≡ true → text_less cs es ≡ true
text_less_trans cs ds es h k = elim (Bool-cases (text_less cs es)) [
  | inl e ↦ e
  | inr e ↦ absurd (cc (text_less-not_trans ds cs es (text_less-asym cs ds h) e, k))
]

text_less_irrefl : (cs : List ℕ) → text_less cs cs ≡ false
unfolding text_less
text_less_irrefl [] = refl
text_less_irrefl (c ∷ cs) = ground (arith, text_less_irrefl cs)

name_less-IsOrder : IsOrder name_less
name_less-IsOrder = (
  (λ q. text_less_irrefl (code_points q.name)),
  (λ q r s. text_less_trans (code_points q.name) (code_points r.name) (code_points s.name)),
  (λ q r s. text_less-not_trans (code_points q.name) (code_points r.name) (code_points s.name)),
)

Leads-trans :
    (q r : Queue) (rs : List Queue)
    → UpTo (code_points q.name) (code_points r.name)
    → Leads r rs
    → Leads q rs
Leads-trans q r [] u f = tt
Leads-trans q r (s ∷ rs) u (v, f) = (
  UpTo-trans (code_points q.name) (code_points r.name) (code_points s.name) u v,
  Leads-trans q r rs u f,
)

InOrder-IsSorted : (qs : List Queue) → InOrder name_less qs → IsSorted qs
InOrder-IsSorted [] o = tt
InOrder-IsSorted (q ∷ []) o = (tt, tt)
InOrder-IsSorted (q ∷ r ∷ rs) (h, o) =
    let s = InOrder-IsSorted (r ∷ rs) o in
    let u = text_less-UpTo (code_points q.name) (code_points r.name) h in
    ((u, Leads-trans q r rs u s.0), s)

-- Where sort.Slice puts any slice in order by any strict weak order, List hands out each queue of
-- the registry as often as it is there, no name behind a later one in the order of a dictionary by
-- code points.
pub list-IsSorted :
    (sort_slice : SortSlice) (m : Manager)
    → Sorts sort_slice
    → IsSorted (list sort_slice m) × Perm (list sort_slice m) (values m.queues)
list-IsSorted sort_slice m sorts =
    let (o, same) = sorts name_less (values m.queues) name_less-IsOrder in
    (InOrder-IsSorted (sort_slice name_less (values m.queues)) o, same)
