-- ===== src/Base/Arrays.antt =====
-- Lists as arrays: writes, swaps and the last entry.
use Prim.Native.Nat.{ℕ, zero, suc, ◌<◌}
use mathlib.Core.Path.{◌≡◌, refl, ap, ◌∙◌}
use mathlib.Core.List.{List, [], ◌∷◌, ◌++◌, Perm}
use mathlib.Core.List.Perm
use native.Mathlib.Omega.{arith}
use queuemaxxing.Base.Tests.{◌==◌, if◌then◌else◌}
use queuemaxxing.Base.Lists.{length, take, get_or, set}

module _ {ℓ} {A : Type ℓ} where
  pub length-set : (xs : List A) (n : ℕ) (y : A) → length (set xs n y) ≡ length xs
  length-set [] n y = refl
  length-set (x ∷ xs) (suc n) y = let rest = length-set xs n y in ap suc rest
  length-set (x ∷ xs) zero y = refl

  pub get_or-set :
      (a : List A) (i j : ℕ) (v d : A)
      → i < length a
      → get_or (set a i v) j d ≡ (if i == j then v else get_or a j d)
  get_or-set [] i j v d h = absurd (omega arith)
  get_or-set (x ∷ a) zero zero v d h = refl
  get_or-set (x ∷ a) zero (suc j) v d h = ground arith
  get_or-set (x ∷ a) (suc i) zero v d h = ground arith
  get_or-set (x ∷ a) (suc i) (suc j) v d h = ground (arith, get_or-set a i j v d)

  pub get_or-append :
      (a b : List A) (i : ℕ) (d : A) → i < length a → get_or (a ++ b) i d ≡ get_or a i d
  get_or-append [] b i d h = absurd (omega arith)
  get_or-append (x ∷ a) b zero d h = refl
  get_or-append (x ∷ a) b (suc i) d h = get_or-append a b i d (omega arith)

  pub get_or-concat : (a : List A) (x d : A) → get_or (a ++ x ∷ []) (length a) d ≡ x
  get_or-concat [] x d = refl
  get_or-concat (y ∷ a) x d = get_or-concat a x d

  pub get_or-take :
      (n : ℕ) (a : List A) (i : ℕ) (d : A) → i < n → get_or (take n a) i d ≡ get_or a i d
  get_or-take zero a i d h = absurd (omega arith)
  get_or-take (suc n) [] i d h = refl
  get_or-take (suc n) (x ∷ a) zero d h = refl
  get_or-take (suc n) (x ∷ a) (suc i) d h = get_or-take n a i d (omega arith)

  pub take-append-get_or :
      (n : ℕ) (a : List A) (d : A) → length a ≡ suc n → take n a ++ get_or a n d ∷ [] ≡ a
  take-append-get_or zero (x ∷ []) d h = refl
  take-append-get_or (suc n) (x ∷ a) d h = ap (◌∷◌ x) (take-append-get_or n a d (omega arith))
  take-append-get_or n [] d h = absurd (omega arith)
  take-append-get_or zero (x ∷ y ∷ a) d h = absurd (omega arith)

  pub concat-perm : (xs : List A) (y : A) → Perm (xs ++ y ∷ []) (y ∷ xs)
  concat-perm [] y = Perm.refl (y ∷ [])
  concat-perm (x ∷ xs) y = Perm.trans (Perm.cons x (concat-perm xs y)) (Perm.swap y x xs)

  -- the entry that a write takes out, against the one that it brings in
  set-perm :
      (xs : List A) (n : ℕ) (y d : A) → n < length xs → Perm (get_or xs n d ∷ set xs n y) (y ∷ xs)
  set-perm [] n y d inside = absurd (omega arith)
  set-perm (x ∷ xs) zero y d inside = Perm.swap y x xs
  set-perm (x ∷ xs) (suc n) y d inside =
      let rest = set-perm xs n y d (omega arith) in
      Perm.trans (Perm.swap x _ _) (Perm.trans (Perm.cons x rest) (Perm.swap y x xs))

  -- the two writes of an exchange
  abbrev pub exchange : List A → ℕ → ℕ → A → List A
  exchange a i j d = set (set a i (get_or a j d)) j (get_or a i d)

  pub length-exchange : (a : List A) (i j : ℕ) (d : A) → length (exchange a i j d) ≡ length a
  length-exchange a i j d = length-set _ j _ ∙ length-set a i _

  module _ (a : List A) (i j : ℕ) (d : A) (hi : i < length a) (hj : j < length a) where
    pub get_or-exchange :
        (c : ℕ)
        → get_or (exchange a i j d) c d
          ≡ (if j == c then get_or a i d else if i == c then get_or a j d else get_or a c d)
    get_or-exchange c =
        get_or-set (set a i (get_or a j d)) j c (get_or a i d) d
          (omega (arith, length-set a i (get_or a j d)))
        ∙ ap (λ x. if j == c then get_or a i d else x) (get_or-set a i c (get_or a j d) d hi)

    pub exchange-perm : Perm (exchange a i j d) a
    exchange-perm =
        let b = set a i (get_or a j d) in
        let kept : get_or b j d ≡ get_or a j d =
          ground (arith, get_or-set a i j (get_or a j d) d) in
        let size : length b ≡ length a = length-set a i (get_or a j d) in
        let second = rw kept at (set-perm b j (get_or a i d) d (omega arith)) in
        Perm.cons_inv (Perm.trans second (set-perm a i (get_or a j d) d hi))
