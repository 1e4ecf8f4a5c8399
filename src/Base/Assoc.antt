-- ===== src/Base/Assoc.antt =====
-- Maps from names as association lists with at most one entry for a key.
use Prim.Native.String.{String}
use mathlib.Core.Path.{◌≡◌, refl}
use mathlib.Core.Option.{Option, none, some}
use mathlib.Core.List.{List, [], ◌∷◌}
use text.Mathlib.Text.{◌==◌}
use text.Mathlib.TextEquality.{eq_iff}
use queuemaxxing.Base.Tests.{if◌then◌else◌, Bool-cases}
use mathlib.Core.Logic.{inl, inr}
use native.Mathlib.Omega.{arith}

module _ {ℓ} {A : Type ℓ} where
  unfoldable pub find : String → List (String × A) → Option A
  find k [] = none
  find k ((j, v) ∷ m) = if j == k then some v else find k m

  -- m[k] = v: over the old entry, or behind all others
  unfoldable pub put : String → A → List (String × A) → List (String × A)
  put k v [] = (k, v) ∷ []
  put k v ((j, w) ∷ m) = let rest = put k v m in if j == k then (k, v) ∷ m else (j, w) ∷ rest

  -- delete(m, k)
  unfoldable pub drop_key : String → List (String × A) → List (String × A)
  drop_key k [] = []
  drop_key k ((j, w) ∷ m) = let rest = drop_key k m in if j == k then rest else (j, w) ∷ rest

  pub find-nil : (k : String) → find k [] ≡ none
  unfolding find
  find-nil k = refl

  pub find-put :
      (k j : String) (v : A) (m : List (String × A))
      → find j (put k v m) ≡ (if k == j then some v else find j m)
  unfolding find put
  find-put k j v [] = refl
  find-put k j v ((i, w) ∷ m) = ground (arith, eq_iff k j, eq_iff i k, eq_iff i j, find-put k j v m)

  pub find-drop_key :
      (k j : String) (m : List (String × A))
      → find j (drop_key k m) ≡ (if k == j then none else find j m)
  unfolding find drop_key
  find-drop_key k j [] = ground arith
  find-drop_key k j ((i, w) ∷ m) =
      ground (arith, eq_iff k j, eq_iff i k, eq_iff i j, find-drop_key k j m)

  -- writing back what is there
  pub put-found : (k : String) (v : A) (m : List (String × A)) → find k m ≡ some v → put k v m ≡ m
  unfolding find put
  put-found k v [] h = cc
  put-found k v ((i, w) ∷ m) h = elim (Bool-cases (i == k)) [
    | inl e ↦
        let is : w ≡ v = cc (h, e) in let same : i ≡ k = (eq_iff i k).0 e in rw (e, same, is) refl
    | inr e ↦ rw (e, put-found k v m (rw e at h)) refl
  ]
