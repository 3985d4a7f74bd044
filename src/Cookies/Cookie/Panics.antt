-- ===== src/Cookies/Cookie/Panics.antt =====
-- The headers on which the parser of src/cookies/cookie.rs panics.
use isahc.Prelude.{
  ℕ, ◌+◌, ◌<◌, ◌≡◌, ◌⊎◌, ap, inl, inr, map, ◌∷◌, ◌++◌, [], arith, List, Option-cases, some, true,
  refl,
}
use isahc.Prelude.Bytes.{Bytes, codes, eq_ignore_ascii_case}
use isahc.Prelude.Has.{Has}
use isahc.Prelude.Outcome.{panic, Panic-cases, Outcome-cases}
use isahc.Prelude.Text.{parse_u64}
use isahc.Platform.{Platform}
use isahc.Cookies.Syntax.{quote, split, split_at_first, trim_left_ascii, parse_token}
use isahc.Cookies.Syntax.Laws.{split_at_first-eq_some, parse_cookie_value_panics}
use isahc.Cookies.Cookie.{
  Attributes, parse, parse_parts, parse_pair, set_attributes, set_attribute, set_named, set_max_age,
  after_secs, no_attributes, nanos,
}

module _ (p : Platform) (now : ℕ) where
  -- The attribute is a `Max-Age` of so many seconds that the clock cannot hold the time after them.
  pub record IsTooLong (attribute : Bytes) : Type 0 where
    name : Bytes
    value : Bytes
    seconds : ℕ
    halves : split_at_first attribute b'=' ≡ some (name, value)
    is_max_age : eq_ignore_ascii_case name (codes "Max-Age") ≡ true
    number : parse_u64 value ≡ some seconds
    passes : p.max_time < now + nanos seconds

  set_max_age_panics :
      (value : Bytes) (a : Attributes)
      → set_max_age p now value a ≡ panic
      → (seconds : ℕ) × (parse_u64 value ≡ some seconds) × (p.max_time < now + nanos seconds)
  unfolding set_max_age after_secs
  set_max_age_panics value a e = elim (Option-cases (parse_u64 value)) [
    | inl none_there ↦ absurd (ground (arith, none_there))
    | inr (seconds, at) ↦ (seconds, at, ground (arith, at))
  ]

  set_named_panics :
      (name value : Bytes) (a : Attributes)
      → set_named p now name value a ≡ panic
      → (eq_ignore_ascii_case name (codes "Max-Age") ≡ true) × (set_max_age p now value a ≡ panic)
  unfolding set_named
  set_named_panics name value a e = ground arith

  set_attribute_panics :
      (attribute : Bytes) (a : Attributes)
      → set_attribute p now attribute a ≡ panic
      → IsTooLong attribute
  unfolding set_attribute
  set_attribute_panics attribute a e = elim (Option-cases (split_at_first attribute b'=')) [
    | inl whole ↦ absurd (ground (arith, whole))
    | inr ((name, value), at) ↦
        let (named, hit) = set_named_panics name value a (ground (arith, at)) in
        let (seconds, number, passes) = set_max_age_panics value a hit in
        record {
          name = name;
          value = value;
          seconds = seconds;
          halves = at;
          is_max_age = named;
          number = number;
          passes = passes;
        }
  ]

  set_attributes_panics :
      (attributes : List Bytes) (a : Attributes)
      → set_attributes p now attributes a ≡ panic
      → (attribute : Bytes) × Has attribute attributes × IsTooLong attribute
  unfolding set_attributes
  set_attributes_panics [] a e = cc
  set_attributes_panics (attribute ∷ more) a e =
      elim (Outcome-cases (set_attribute p now attribute a)) [
        | inl (next, fine) ↦
            let (found, there, long) = set_attributes_panics more next (ground (arith, fine)) in
            (found, inr there, long)
        | inr (inl (x, refused)) ↦ absurd (ground (arith, refused))
        | inr (inr hit) ↦ (attribute, inl refl, set_attribute_panics attribute a hit)
      ]

  parse_pair_panics :
      (pair : Bytes)
      → parse_pair p now pair ≡ panic
      → (name : Bytes) × (pair ≡ name ++ b'=' ∷ quote)
  unfolding parse_pair parse_token
  parse_pair_panics pair e = elim (Option-cases (split_at_first pair b'=')) [
    | inl missing ↦ absurd (ground arith)
    | inr (found, at) ↦ (
      found.0,
      ground (
        arith,
        split_at_first-eq_some pair found.0 found.1 b'=',
        (parse_cookie_value_panics found.1).0,
      ),
    )
  ]

  parse_parts_panics :
      (parts : List Bytes)
      → parse_parts p now parts ≡ panic
      → ((name : Bytes) × (more : List Bytes) × (parts ≡ (name ++ b'=' ∷ quote) ∷ more))
        ⊎ ((pair : Bytes) × (more : List Bytes) × (parts ≡ pair ∷ more)
            × (attribute : Bytes) × Has attribute more
            × IsTooLong attribute)
  unfolding parse_parts
  parse_parts_panics [] e = cc
  parse_parts_panics (pair ∷ attributes) e = elim (Panic-cases (parse_pair p now pair)) [
    | inl first ↦
        let (name, at) = parse_pair_panics pair first in
        inl (name, attributes, ap (λ (s : Bytes). s ∷ attributes) at)
    | inr fine ↦
        let (attribute, there, long) =
          set_attributes_panics attributes no_attributes (ground (arith, fine)) in
        inr (pair, attributes, refl, attribute, there, long)
  ]

  -- The parser panics on two kinds of headers only: where the value of the first pair is a lone
  -- double quote, and where a later attribute is a `Max-Age` of so many seconds that the clock cannot
  -- hold the time after them.
  pub parse_panics :
      (header : Bytes)
      → parse p now header ≡ panic
      → ((name : Bytes) × (more : List Bytes) × (map trim_left_ascii
              (split (trim_left_ascii header) b';')
            ≡ (name ++ b'=' ∷ quote) ∷ more))
        ⊎ ((pair : Bytes) × (more : List Bytes) × (map trim_left_ascii
                (split (trim_left_ascii header) b';')
              ≡ pair ∷ more)
            × (attribute : Bytes) × Has attribute more
            × IsTooLong attribute)
  unfolding parse
  parse_panics header e = parse_parts_panics _ e
