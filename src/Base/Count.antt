-- ===== src/Base/Count.antt =====
-- How often a number stands in a list.
use Prim.Native.Nat.{ℕ, zero, suc, ◌+◌, ◌<◌}
use native.Mathlib.Nat.{ℕ_set}
use mathlib.Core.Path.{◌≡◌, refl, ap, ◌∙◌}
use mathlib.Core.Logic.{◌≢◌, ∥∥₁_elim, inl, inr}
use mathlib.Core.List.{List, [], ◌∷◌, ◌++◌, Perm, Permᴰ}
use native.Mathlib.Omega.{arith}
use queuemaxxing.Base.Tests.{Bool-cases, ◌==◌, if◌then◌else◌}
use queuemaxxing.Base.Lists.{length, get_or}

abbrev pub count : ℕ → List ℕ → ℕ
count p [] = 0
count p (q ∷ ps) = (if q == p then 1 else 0) + count p ps

pub count-append : (p : ℕ) (ps qs : List ℕ) → count p (ps ++ qs) ≡ count p ps + count p qs
count-append p [] qs = omega arith
count-append p (q ∷ ps) qs = let rest = count-append p ps qs in omega arith

Permᴰ-count : (a : ℕ) {xs ys : List ℕ} → Permᴰ xs ys → count a xs ≡ count a ys
Permᴰ-count a Permᴰ.nil = refl
Permᴰ-count a (Permᴰ.cons e p) = ground (arith, Permᴰ-count a p)
Permᴰ-count a (Permᴰ.swap e f) = ground arith
Permᴰ-count a (Permᴰ.trans p q) = Permᴰ-count a p ∙ Permᴰ-count a q

pub count-perm : (a : ℕ) {xs ys : List ℕ} → Perm xs ys → count a xs ≡ count a ys
count-perm a p = ∥∥₁_elim p (ℕ_set _ _) (Permᴰ-count a)

-- an entry is counted
pub count-get_or : (xs : List ℕ) (c d : ℕ) → c < length xs → 0 < count (get_or xs c d) xs
count-get_or [] c d h = absurd (omega arith)
count-get_or (x ∷ xs) zero d h = ground arith
count-get_or (x ∷ xs) (suc c) d h = omega (arith, count-get_or xs c d (omega arith))

-- what is counted stands somewhere
pub get_or-count :
    (a : ℕ) (xs : List ℕ) (d : ℕ) → 0 < count a xs → (c : ℕ) × (c < length xs) × (get_or xs c d ≡ a)
get_or-count a [] d h = absurd (omega arith)
get_or-count a (x ∷ xs) d h = elim (Bool-cases (x == a)) [
  | inl e ↦ (0, omega arith, ground arith)
  | inr e ↦ let (c, inside, same) = get_or-count a xs d (ground arith) in (suc c, omega arith, same)
]

pub count_zero :
    (a : ℕ) (xs : List ℕ) (d : ℕ) → ((c : ℕ) → c < length xs → get_or xs c d ≢ a) → count a xs ≡ 0
count_zero a xs d h = elim (Bool-cases (count a xs == 0)) [
  | inl e ↦ ground arith
  | inr e ↦ let (c, inside, same) = get_or-count a xs d (ground arith) in absurd (h c inside same)
]

Permᴰ-length {ℓ} : {A : Type ℓ} {xs ys : List A} → Permᴰ xs ys → length xs ≡ length ys
Permᴰ-length Permᴰ.nil = refl
Permᴰ-length (Permᴰ.cons e p) = ap suc (Permᴰ-length p)
Permᴰ-length (Permᴰ.swap e f) = refl
Permᴰ-length (Permᴰ.trans p q) = Permᴰ-length p ∙ Permᴰ-length q

pub length-perm {ℓ} : {A : Type ℓ} {xs ys : List A} → Perm xs ys → length xs ≡ length ys
length-perm p = ∥∥₁_elim p (ℕ_set _ _) Permᴰ-length
