-- ===== src/Prelude/Sort.antt =====
-- Rust's `slice::sort_by`, as a stable insertion sort by a Boolean order, and Rust's order on texts.
use mathlib.Core.Path.{◌≡◌, refl}
use mathlib.Core.Logic.{inl, inr}
use mathlib.Core.Bool.{Bool, true, false, ◌&&◌, ◌||◌}
use mathlib.Core.List.{List, [], ◌∷◌, Perm}
use mathlib.Core.List.Perm
use native.Mathlib.Omega.{arith}
use isahc.Prelude.Tests.{ltb, ◌==◌, if◌then◌else◌, Bool-cases}
use isahc.Prelude.Bytes.{Bytes}

-- Lexicographic, by bytes: not after.
unfoldable pub bytes_le : Bytes → Bytes → Bool
bytes_le [] ys = true
bytes_le (x ∷ xs) [] = false
bytes_le (x ∷ xs) (y ∷ ys) = ltb x y || (x == y && bytes_le xs ys)

pub bytes_le_total : (xs ys : Bytes) → bytes_le xs ys ≡ false → bytes_le ys xs ≡ true
unfolding bytes_le
bytes_le_total [] ys h = cc
bytes_le_total (x ∷ xs) [] h = refl
bytes_le_total (x ∷ xs) (y ∷ ys) h = ground (arith, bytes_le_total xs ys)

pub bytes_le_trans :
    (xs ys zs : Bytes) → bytes_le xs ys ≡ true → bytes_le ys zs ≡ true → bytes_le xs zs ≡ true
unfolding bytes_le
bytes_le_trans [] ys zs h k = refl
bytes_le_trans (x ∷ xs) [] zs h k = cc
bytes_le_trans (x ∷ xs) (y ∷ ys) [] h k = cc
bytes_le_trans (x ∷ xs) (y ∷ ys) (z ∷ zs) h k = ground (arith, bytes_le_trans xs ys zs)

module _ {ℓ} {A : Type ℓ} (le : A → A → Bool) where
  unfoldable pub insert : A → List A → List A
  insert a [] = a ∷ []
  insert a (x ∷ xs) = let rest = insert a xs in if le a x then a ∷ x ∷ xs else x ∷ rest

  unfoldable pub sort_by : List A → List A
  unfolding insert
  sort_by [] = []
  sort_by (x ∷ xs) = insert x (sort_by xs)

  -- No element is after the one that follows it.
  abbrev pub IsSorted : List A → Type 0
  IsSorted [] = Unit
  IsSorted (x ∷ []) = Unit
  IsSorted (x ∷ y ∷ ys) = (le x y ≡ true) × IsSorted (y ∷ ys)

  insert-perm : (a : A) (xs : List A) → Perm (insert a xs) (a ∷ xs)
  unfolding insert
  insert-perm a [] = Perm.refl _
  insert-perm a (x ∷ xs) = elim (Bool-cases (le a x)) [
    | inl e ↦ rw e (Perm.refl _)
    | inr e ↦ rw e (Perm.trans (Perm.cons x (insert-perm a xs)) (Perm.swap a x xs))
  ]

  pub sort_by-perm : (xs : List A) → Perm (sort_by xs) xs
  unfolding sort_by
  sort_by-perm [] = Perm.refl _
  sort_by-perm (x ∷ xs) = Perm.trans (insert-perm x (sort_by xs)) (Perm.cons x (sort_by-perm xs))

module _ {ℓ} {A : Type ℓ} (le : A → A → Bool)
    (total : (x y : A) → le x y ≡ false → le y x ≡ true) where
  insert-IsSorted : (a : A) (xs : List A) → IsSorted le xs → IsSorted le (insert le a xs)
  unfolding insert
  insert-IsSorted a [] h = tt
  insert-IsSorted a (x ∷ []) h = ground (arith, total a x)
  insert-IsSorted a (x ∷ y ∷ ys) h = ground (arith, total a x, insert-IsSorted a (y ∷ ys))

  pub sort_by-IsSorted : (xs : List A) → IsSorted le (sort_by le xs)
  unfolding sort_by
  sort_by-IsSorted [] = tt
  sort_by-IsSorted (x ∷ xs) = insert-IsSorted x (sort_by le xs) (sort_by-IsSorted xs)
