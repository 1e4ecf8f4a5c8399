-- ===== src/Examples/Sorting.antt =====
-- A sort.Slice for Manager.List of internal/queue/manager.go: insertion sort.
use mathlib.Core.List.Perm
use queuemaxxing.Base.{
  ◌≡◌, Bool, true, false, Bool-cases, inl, inr, List, [], ◌∷◌, Perm, if◌then◌else◌,
}
use queuemaxxing.Queue.Engine.State.{Queue}
use queuemaxxing.Queue.Manager.Listing.{SortSlice, IsOrder, InOrder, Sorts}

unfoldable pub insert_sorted : (Queue → Queue → Bool) → Queue → List Queue → List Queue
insert_sorted less q [] = q ∷ []
insert_sorted less q (r ∷ rs) =
    let rest = insert_sorted less q rs in if less q r then q ∷ r ∷ rs else r ∷ rest

unfoldable pub insertion_sort : SortSlice
unfolding insert_sorted
insertion_sort less [] = []
insertion_sort less (q ∷ qs) = insert_sorted less q (insertion_sort less qs)

module _ (less : Queue → Queue → Bool) (order : IsOrder less) where
  less-asym : (q r : Queue) → less q r ≡ true → less r q ≡ false
  less-asym q r h = elim (Bool-cases (less r q)) [
    | inl e ↦ absurd (cc (order.1 q r q h e, order.0 q))
    | inr e ↦ e
  ]

  insert-perm : (q : Queue) (rs : List Queue) → Perm (insert_sorted less q rs) (q ∷ rs)
  unfolding insert_sorted
  insert-perm q [] = Perm.refl (q ∷ [])
  insert-perm q (r ∷ rs) = elim (Bool-cases (less q r)) [
    | inl e ↦ rw e (Perm.refl (q ∷ r ∷ rs))
    | inr e ↦ rw e (Perm.trans (Perm.cons r (insert-perm q rs)) (Perm.swap q r rs))
  ]

  insert-InOrder :
      (q : Queue) (rs : List Queue) → InOrder less rs → InOrder less (insert_sorted less q rs)
  unfolding insert_sorted
  insert-InOrder q [] o = tt
  insert-InOrder q (r ∷ []) o = elim (Bool-cases (less q r)) [
    | inl e ↦ rw e (less-asym q r e, tt)
    | inr e ↦ rw e (e, tt)
  ]
  insert-InOrder q (r ∷ s ∷ rs) (h, o) = elim (Bool-cases (less q r)) [
    | inl e ↦ rw e (less-asym q r e, (h, o))
    | inr e ↦ rw e (behind (insert-InOrder q (s ∷ rs) o) e)
  ]
    where
      behind :
          InOrder less (insert_sorted less q (s ∷ rs))
          → less q r ≡ false
          → InOrder less (r ∷ insert_sorted less q (s ∷ rs))
      behind v e = elim (Bool-cases (less q s)) [
        | inl f ↦ rw f (e, rw f at v)
        | inr f ↦ rw f (h, rw f at v)
      ]

  sort-Sorts :
      (qs : List Queue) → InOrder less (insertion_sort less qs) × Perm (insertion_sort less qs) qs
  unfolding insertion_sort
  sort-Sorts [] = (tt, Perm.refl [])
  sort-Sorts (q ∷ qs) =
      let (o, same) = sort-Sorts qs in
      (
        insert-InOrder q (insertion_sort less qs) o,
        Perm.trans (insert-perm q (insertion_sort less qs)) (Perm.cons q same),
      )

pub insertion_sort-Sorts : Sorts insertion_sort
insertion_sort-Sorts less qs order = sort-Sorts less order qs
