-- ===== src/Prelude/Has.antt =====
-- Membership by recursion, which computes to sums, and its laws for the lists that the program makes.
use mathlib.Core.Path.{◌≡◌, refl, sym, ap, subst}
use mathlib.Core.Logic.{◌⊎◌, inl, inr}
use mathlib.Core.Bool.{Bool, true}
use mathlib.Core.List.{List, [], ◌∷◌, ◌++◌, map}
use native.Mathlib.Omega.{arith}
use isahc.Prelude.Tests.{Bool-cases}
use isahc.Prelude.Lists.{filter, All}
use isahc.Prelude.Sort.{insert, sort_by}

module _ {A : Type 0} where
  abbrev pub Has : A → List A → Type 0
  Has a [] = ⊥
  Has a (x ∷ xs) = (a ≡ x) ⊎ Has a xs

module _ {A : Type 0} where
  pub Has-filter :
      (p : A → Bool) (a : A) (xs : List A) → p a ≡ true → Has a xs → Has a (filter p xs)
  Has-filter p a [] h m = m
  Has-filter p a (x ∷ xs) h (inl e) = ground (arith, ap p e)
  Has-filter p a (x ∷ xs) h (inr m) = ground (arith, Has-filter p a xs h m)

  Has-insert_self : (le : A → A → Bool) (a : A) (xs : List A) → Has a (insert le a xs)
  unfolding insert
  Has-insert_self le a [] = inl refl
  Has-insert_self le a (x ∷ xs) = ground (arith, Has-insert_self le a xs)

  Has-insert : (le : A → A → Bool) (a b : A) (xs : List A) → Has a xs → Has a (insert le b xs)
  unfolding insert
  Has-insert le a b [] m = absurd m
  Has-insert le a b (x ∷ xs) m = ground (arith, Has-insert le a b xs)

  pub Has-sort_by : (le : A → A → Bool) (a : A) (xs : List A) → Has a xs → Has a (sort_by le xs)
  unfolding sort_by
  Has-sort_by le a [] m = m
  Has-sort_by le a (x ∷ xs) (inl e) =
      subst (λ y. Has y (insert le x (sort_by le xs))) (sym e)
        (Has-insert_self le x (sort_by le xs))
  Has-sort_by le a (x ∷ xs) (inr m) = Has-insert le a x (sort_by le xs) (Has-sort_by le a xs m)

  pub All-map {κ μ} :
      (P : A → Type κ) (Q : A → Type μ) (xs : List A) → ((a : A) → P a → Q a) → All P xs → All Q xs
  All-map P Q [] f p = tt
  All-map P Q (x ∷ xs) f p = (f x p.0, All-map P Q xs f p.1)

  pub All-both {κ μ} :
      (P : A → Type κ) (Q : A → Type μ) (xs : List A)
      → All P xs
      → All Q xs
      → All (λ a. P a × Q a) xs
  All-both P Q [] p q = tt
  All-both P Q (x ∷ xs) p q = ((p.0, q.0), All-both P Q xs p.1 q.1)

  insert-All {κ} :
      (P : A → Type κ) (le : A → A → Bool) (a : A) (xs : List A)
      → P a
      → All P xs
      → All P (insert le a xs)
  unfolding insert
  insert-All P le a [] h k = (h, tt)
  insert-All P le a (x ∷ xs) h k = elim (Bool-cases (le a x)) [
    | inl e ↦ rw e (h, (k.0, k.1))
    | inr e ↦ rw e (k.0, insert-All P le a xs h k.1)
  ]

  pub sort_by-All {κ} :
      (P : A → Type κ) (le : A → A → Bool) (xs : List A) → All P xs → All P (sort_by le xs)
  unfolding sort_by
  sort_by-All P le [] k = tt
  sort_by-All P le (x ∷ xs) k = insert-All P le x _ k.0 (sort_by-All P le xs k.1)

  pub Has-map : {B : Type 0} (f : A → B) (a : A) (xs : List A) → Has a xs → Has (f a) (map f xs)
  Has-map f a [] m = m
  Has-map f a (x ∷ xs) (inl e) = inl (ap f e)
  Has-map f a (x ∷ xs) (inr m) = inr (Has-map f a xs m)

module _ {A : Type 0} where
  pub Has-append_left : (a : A) (xs ys : List A) → Has a xs → Has a (xs ++ ys)
  Has-append_left a (x ∷ xs) ys (inl e) = inl e
  Has-append_left a (x ∷ xs) ys (inr m) = inr (Has-append_left a xs ys m)
  Has-append_left a [] ys m = absurd m

  pub Has-append_right : (a : A) (xs ys : List A) → Has a ys → Has a (xs ++ ys)
  Has-append_right a [] ys m = m
  Has-append_right a (x ∷ xs) ys m = inr (Has-append_right a xs ys m)
