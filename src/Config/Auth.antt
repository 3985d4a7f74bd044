-- ===== src/Config/Auth.antt =====
-- src/auth.rs: the sets of schemes, and the union of two of them.
use isahc.Prelude.{
  ℕ, zero, suc, ◌+◌, ◌*◌, ◌/◌, ◌%◌, ◌≡◌, refl, Bool, true, false, ◌||◌, ◌&&◌, ◌==◌, if◌then◌else◌,
  arith, Bool-cases, inl, inr, ap, ◌∙◌,
}
use isahc.Config.{Authentication}
use isahc.Config.Options.{Auth, as_auth, has_bit}

-- The disjunction of two words, bit by bit, from the lowest.
unfoldable pub bit_or : ℕ → ℕ → ℕ → ℕ
bit_or zero a b = 0
bit_or (suc width) a b =
    (if a % 2 == 1 || b % 2 == 1 then 1 else 0) + 2 * bit_or width (a / 2) (b / 2)

-- `BitOr for Authentication`, on a u8.
unfoldable pub union : Authentication → Authentication → Authentication
union a b = bit_or 8 a b

abbrev pub no_schemes : Authentication
no_schemes = 0

abbrev pub basic_scheme : Authentication
basic_scheme = 1

abbrev pub digest_scheme : Authentication
digest_scheme = 2

abbrev pub negotiate_scheme : Authentication
negotiate_scheme = 4

unfoldable pub all_schemes : Bool → Authentication
all_schemes spnego =
    let all = bit_or 8 basic_scheme digest_scheme in
    if spnego then bit_or 8 all negotiate_scheme else all

abbrev both : Auth → Auth → Auth
both a b = record {
  basic = a.basic || b.basic;
  digest = a.digest || b.digest;
  gssnegotiate = a.gssnegotiate || b.gssnegotiate;
}

bit_or-low : (w a b : ℕ) → (bit_or (suc w) a b % 2 == 1) ≡ (a % 2 == 1 || b % 2 == 1)
unfolding bit_or
bit_or-low w a b = elim (Bool-cases (a % 2 == 1 || b % 2 == 1)) [
  | inl e ↦ rw e (ground arith)
  | inr e ↦ rw e (ground arith)
]

bit_or-half : (w a b : ℕ) → bit_or (suc w) a b / 2 ≡ bit_or w (a / 2) (b / 2)
unfolding bit_or
bit_or-half w a b = elim (Bool-cases (a % 2 == 1 || b % 2 == 1)) [
  | inl e ↦ rw e (omega arith)
  | inr e ↦ rw e (omega arith)
]

half_twice : (a : ℕ) → a / 4 ≡ a / 2 / 2
half_twice a = omega arith

whole : (a : ℕ) → a / 1 ≡ a
whole a = omega arith

-- A union has the schemes of both sets, and curl is told of each of them.
as_auth-union :
    (spnego : Bool) (a b : Authentication)
    → as_auth spnego (union a b) ≡ both (as_auth spnego a) (as_auth spnego b)
unfolding as_auth union
as_auth-union spnego a b =
    auth_cong (rw (whole (bit_or 8 a b), whole a, whole b) (bit_or-low 7 a b))
      (rw (bit_or-half 7 a b) (bit_or-low 6 (a / 2) (b / 2)))
      (ap (λ x. spnego && x)
          (rw
            (
              half_twice (bit_or 8 a b),
              half_twice a,
              half_twice b,
              bit_or-half 7 a b,
              bit_or-half 6 (a / 2) (b / 2),
            )
            (bit_or-low 5 (a / 2 / 2) (b / 2 / 2)))
        ∙ distribute spnego (has_bit 4 a) (has_bit 4 b))
  where
    distribute : (s x y : Bool) → (s && (x || y)) ≡ ((s && x) || (s && y))
    distribute true x y = refl
    distribute false x y = refl

    auth_cong :
        {x y z x' y' z' : Bool}
        → x ≡ x'
        → y ≡ y'
        → z ≡ z'
        → ◌≡◌ {A = Auth}
            (record { basic = x; digest = y; gssnegotiate = z })
            (record { basic = x'; digest = y'; gssnegotiate = z' })
    auth_cong p q r = λ i. record { basic = p i; digest = q i; gssnegotiate = r i }
