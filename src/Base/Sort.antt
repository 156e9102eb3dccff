-- ===== src/Base/Sort.antt =====
-- Python's `list.sort`: stable, by a strict order `lt` on the elements. Equal elements stay in
-- their order, also under `reverse=True`, which is the sort by the order turned round.
use mathlib.Core.Path.{◌≡◌, refl}
use Prim.Native.Nat.{suc}
use mathlib.Core.Logic.{inl, inr}
use mathlib.Core.Bool.{Bool, true, false}
use mathlib.Core.List.{List, [], ◌∷◌, Perm}
use mathlib.Core.List.Perm
use native.Mathlib.Omega.{arith}
use ai_microservices.Base.Lists.{length, All}
use ai_microservices.Base.Tests.{Bool-cases, if◌then◌else◌}

module _ {ℓ} {A : Type ℓ} (lt : A → A → Bool) where
  insert_sorted : A → List A → List A
  insert_sorted x [] = x ∷ []
  insert_sorted x (y ∷ ys) = if lt y x then y ∷ insert_sorted x ys else x ∷ y ∷ ys

  unfoldable pub sort : List A → List A
  unfolding insert_sorted
  sort [] = []
  sort (x ∷ xs) = insert_sorted x (sort xs)

  -- No element is followed at once by one that belongs before it.
  abbrev pub IsSorted : List A → Type 0
  IsSorted [] = Unit
  IsSorted (x ∷ []) = Unit
  IsSorted (x ∷ y ∷ ys) = (lt y x ≡ false) × IsSorted (y ∷ ys)

  insert_sorted-Perm : (x : A) (ys : List A) → Perm (insert_sorted x ys) (x ∷ ys)
  unfolding insert_sorted
  insert_sorted-Perm x [] = Perm.refl (x ∷ [])
  insert_sorted-Perm x (y ∷ ys) = elim (Bool-cases (lt y x)) [
    | inr h ↦ rw h (Perm.refl (x ∷ y ∷ ys))
    | inl h ↦ rw h (Perm.trans (Perm.cons y (insert_sorted-Perm x ys)) (Perm.swap x y ys))
  ]

  pub sort-Perm : (xs : List A) → Perm (sort xs) xs
  unfolding sort
  sort-Perm [] = Perm.refl []
  sort-Perm (x ∷ xs) = Perm.trans (insert_sorted-Perm x (sort xs)) (Perm.cons x (sort-Perm xs))

  insert_sorted-IsSorted :
      ((a b : A) → lt a b ≡ true → lt b a ≡ false)
      → (x : A) (ys : List A) → IsSorted ys
      → IsSorted (insert_sorted x ys)
  unfolding insert_sorted
  insert_sorted-IsSorted asym x [] h = tt
  insert_sorted-IsSorted asym x (y ∷ []) h = ground (arith, asym y x)
  insert_sorted-IsSorted asym x (y ∷ z ∷ zs) h =
      ground (arith, asym y x, asym z x, insert_sorted-IsSorted asym x (z ∷ zs) h.1)

  pub sort-IsSorted :
      ((a b : A) → lt a b ≡ true → lt b a ≡ false) → (xs : List A) → IsSorted (sort xs)
  unfolding sort
  sort-IsSorted asym [] = tt
  sort-IsSorted asym (x ∷ xs) = insert_sorted-IsSorted asym x (sort xs) (sort-IsSorted asym xs)

  length-insert_sorted : (x : A) (ys : List A) → length (insert_sorted x ys) ≡ suc (length ys)
  unfolding insert_sorted
  length-insert_sorted x [] = refl
  length-insert_sorted x (y ∷ ys) = ground (arith, length-insert_sorted x ys)

  pub length-sort : (xs : List A) → length (sort xs) ≡ length xs
  unfolding sort
  length-sort [] = refl
  length-sort (x ∷ xs) = omega (arith, length-insert_sorted x (sort xs), length-sort xs)

  insert_sorted-All :
      (P : A → Type 0) (x : A) (ys : List A) → P x → All P ys → All P (insert_sorted x ys)
  unfolding insert_sorted
  insert_sorted-All P x [] p h = (p, tt)
  insert_sorted-All P x (y ∷ ys) p h = elim (Bool-cases (lt y x)) [
    | inl e ↦ rw e (h.0, insert_sorted-All P x ys p h.1)
    | inr e ↦ rw e (p, h)
  ]

  pub sort-All : (P : A → Type 0) (xs : List A) → All P xs → All P (sort xs)
  unfolding sort
  sort-All P [] h = tt
  sort-All P (x ∷ xs) h = insert_sorted-All P x (sort xs) h.0 (sort-All P xs h.1)
