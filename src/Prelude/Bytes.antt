-- ===== src/Prelude/Bytes.antt =====
-- Rust's `&[u8]` and `&str` as lists of bytes, with the searches that the program uses.
use Prim.Native.Char.{code}
use Prim.Native.String.{String}
use Prim.Native.Nat.{ℕ}
use mathlib.Core.Path.{◌≡◌, refl, sym, ap, ◌∙◌}
use mathlib.Core.Logic.{◌↔◌, inl, inr}
use mathlib.Core.Bool.{Bool, true, false, ◌&&◌}
use mathlib.Core.List.{List, [], ◌∷◌, ◌++◌, map, reverse, reverse-append, reverse-reverse}
use mathlib.Core.Option.{Option, none, some}
use native.Mathlib.Omega.{arith}
use isahc.Prelude.Tests.{◌==◌, if◌then◌else◌, Option-cases}
use isahc.Prelude.Lists.{any}
use isahc.Prelude.Ascii.{to_ascii_lowercase}

abbrev pub Bytes : Type 0
Bytes = List ℕ

-- The bytes of an ASCII literal.
abbrev pub codes : String → Bytes
codes String.[] = []
codes (String.◌∷◌ c s) = code c ∷ codes s

unfoldable pub bytes_eq : Bytes → Bytes → Bool
bytes_eq [] [] = true
bytes_eq (x ∷ xs) (y ∷ ys) = x == y && bytes_eq xs ys
bytes_eq _ _ = false

pub bytes_eq_iff : (xs ys : Bytes) → (bytes_eq xs ys ≡ true) ↔ (xs ≡ ys)
unfolding bytes_eq
bytes_eq_iff [] [] = ground arith
bytes_eq_iff [] (y ∷ ys) = ground arith
bytes_eq_iff (x ∷ xs) [] = ground arith
bytes_eq_iff (x ∷ xs) (y ∷ ys) = ground (arith, bytes_eq_iff xs ys)

pub bytes_eq_refl : (xs : Bytes) → bytes_eq xs xs ≡ true
bytes_eq_refl xs = (bytes_eq_iff xs xs).1 refl

abbrev pub contains : Bytes → ℕ → Bool
contains xs c = any (λ x. x == c) xs

unfoldable pub eq_ignore_ascii_case : Bytes → Bytes → Bool
unfolding bytes_eq
eq_ignore_ascii_case xs ys = bytes_eq (map to_ascii_lowercase xs) (map to_ascii_lowercase ys)

pub eq_ignore_ascii_case_refl : (s : Bytes) → eq_ignore_ascii_case s s ≡ true
unfolding eq_ignore_ascii_case
eq_ignore_ascii_case_refl s = bytes_eq_refl (map to_ascii_lowercase s)

-- What follows the prefix, if it is one (`str::strip_prefix`).
unfoldable pub strip_prefix : Bytes → Bytes → Option Bytes
strip_prefix [] xs = some xs
strip_prefix (p ∷ ps) [] = none
strip_prefix (p ∷ ps) (x ∷ xs) = if p == x then strip_prefix ps xs else none

unfoldable pub starts_with : Bytes → Bytes → Bool
unfolding strip_prefix
starts_with xs ps = elim (strip_prefix ps xs) [ none ↦ false | some _ ↦ true ]

unfoldable pub ends_with : Bytes → Bytes → Bool
unfolding starts_with
ends_with xs ss = starts_with (reverse xs) (reverse ss)

pub strip_prefix-append : (ps xs : Bytes) → strip_prefix ps (ps ++ xs) ≡ some xs
unfolding strip_prefix
strip_prefix-append [] xs = refl
strip_prefix-append (p ∷ ps) xs = ground (arith, strip_prefix-append ps xs)

pub strip_prefix-eq : (ps xs rest : Bytes) → strip_prefix ps xs ≡ some rest → xs ≡ ps ++ rest
unfolding strip_prefix
strip_prefix-eq [] xs rest h = ground arith
strip_prefix-eq (p ∷ ps) [] rest h = cc
strip_prefix-eq (p ∷ ps) (x ∷ xs) rest h = ground (arith, strip_prefix-eq ps xs rest)

pub starts_with-append : (ps xs : Bytes) → starts_with (ps ++ xs) ps ≡ true
unfolding starts_with
starts_with-append ps xs = ground (arith, strip_prefix-append ps xs)

pub starts_with-eq : (xs ps : Bytes) → starts_with xs ps ≡ true → (rest : Bytes) × (xs ≡ ps ++ rest)
unfolding starts_with
starts_with-eq xs ps h = elim (Option-cases (strip_prefix ps xs)) [
  | inl e ↦ absurd (ground arith)
  | inr (r, e) ↦ (r, strip_prefix-eq ps xs r e)
]

pub ends_with-append : (xs ss : Bytes) → ends_with (xs ++ ss) ss ≡ true
unfolding ends_with
ends_with-append xs ss = rw (reverse-append xs ss) (starts_with-append (reverse ss) (reverse xs))

pub ends_with-eq : (xs ss : Bytes) → ends_with xs ss ≡ true → (before : Bytes) × (xs ≡ before ++ ss)
unfolding ends_with
ends_with-eq xs ss h = elim (Option-cases (strip_prefix (reverse ss) (reverse xs))) [
  | inl e ↦ absurd (ground arith)
  | inr (r, e) ↦ (reverse r, backwards r (strip_prefix-eq (reverse ss) (reverse xs) r e))
]
  where
    backwards : (r : Bytes) → reverse xs ≡ reverse ss ++ r → xs ≡ reverse r ++ ss
    backwards r e =
        sym (reverse-reverse xs)
        ∙ ap reverse e
        ∙ reverse-append (reverse ss) r
        ∙ ap (λ (t : Bytes). reverse r ++ t) (reverse-reverse ss)
