-- ===== src/Cookies/Cookie/Expiry.antt =====
-- How the attributes of a `Set-Cookie` header decide when a cookie expires, in
-- src/cookies/cookie.rs.
use isahc.Prelude.{ℕ, ◌+◌, ◌≡◌, refl, map, ◌∷◌, [], arith, List, Option, none, some, if◌then◌else◌}
use isahc.Prelude.Bytes.{Bytes, codes, eq_ignore_ascii_case}
use isahc.Prelude.Outcome.{ok, >>=-eq-ok}
use isahc.Prelude.Text.{is_utf8, parse_u64}
use isahc.Platform.{Platform}
use isahc.Cookies.Syntax.{split_at_first, split, trim_left_ascii}
use isahc.Cookies.Cookie.{
  Cookie, Attributes, parse, parse_parts, parse_pair, set_attributes, set_attribute, set_named,
  set_expires, set_domain, set_path, set_max_age, after_secs, no_attributes, nanos,
}

-- An attribute as it bears on the expiration.
pub data Lifetime : Type 0 where
  expires_at : ℕ → Lifetime
  lasts : ℕ → Lifetime
  silent : Lifetime

abbrev lasting : Option ℕ → Lifetime
lasting none = silent
lasting (some seconds) = lasts seconds

abbrev expiring : Option ℕ → Lifetime
expiring none = silent
expiring (some time) = expires_at time

module _ (p : Platform) where
  named_lifetime : Bytes → Bytes → Lifetime
  named_lifetime name value =
      if is_utf8 value
      then (if eq_ignore_ascii_case name (codes "Expires")
          then expiring (p.parse_http_date value)
          else if eq_ignore_ascii_case name (codes "Domain")
          then silent
          else if eq_ignore_ascii_case name (codes "Max-Age")
          then lasting (parse_u64 value)
          else silent)
      else silent

  pub lifetime : Bytes → Lifetime
  unfolding named_lifetime
  lifetime attribute = elim (split_at_first attribute b'=') [
    | none ↦ silent
    | some (name, value) ↦ named_lifetime name value
  ]

-- A later `Max-Age` replaces an earlier one.
abbrev newer : Lifetime → Option ℕ → Option ℕ
newer (lasts seconds) found = some seconds
newer other found = found

-- A later `Expires` does not replace an earlier one.
abbrev older : Lifetime → Option ℕ → Option ℕ
older life (some time) = some time
older (expires_at time) none = some time
older other none = none

module _ (p : Platform) where
  -- The last `Max-Age` that is a number, if there is one.
  pub last_max_age : List Bytes → Option ℕ → Option ℕ
  last_max_age [] found = found
  last_max_age (a ∷ more) found = last_max_age more (newer (lifetime p a) found)

  -- The first `Expires` that is a date, if there is one.
  pub first_expires : List Bytes → Option ℕ → Option ℕ
  first_expires [] found = found
  first_expires (a ∷ more) found = first_expires more (older (lifetime p a) found)

module _ (p : Platform) (now : ℕ) where
  -- `Max-Age` takes precedence.
  abbrev pub deadline : Option ℕ → Option ℕ → Option ℕ
  deadline (some seconds) expires = some (now + nanos seconds)
  deadline none expires = expires

  set_named-expiration :
      (name value : Bytes) (a b : Attributes) (m e : Option ℕ)
      → set_named p now name value a ≡ ok b
      → a.expiration ≡ deadline m e
      → b.expiration
        ≡ deadline (newer (named_lifetime p name value) m) (older (named_lifetime p name value) e)
  unfolding set_named set_expires set_domain set_path set_max_age after_secs named_lifetime
  set_named-expiration name value a b m e h k = ground arith

  set_attribute-expiration :
      (attribute : Bytes) (a b : Attributes) (m e : Option ℕ)
      → set_attribute p now attribute a ≡ ok b
      → a.expiration ≡ deadline m e
      → b.expiration ≡ deadline (newer (lifetime p attribute) m) (older (lifetime p attribute) e)
  unfolding set_attribute lifetime
  set_attribute-expiration attribute a b m e h k = grind (arith, set_named-expiration)

  set_attributes-expiration :
      (attributes : List Bytes) (a b : Attributes) (m e : Option ℕ)
      → set_attributes p now attributes a ≡ ok b
      → a.expiration ≡ deadline m e
      → b.expiration ≡ deadline (last_max_age p attributes m) (first_expires p attributes e)
  unfolding set_attributes last_max_age first_expires
  set_attributes-expiration [] a b m e h k = ground arith
  set_attributes-expiration (attribute ∷ more) a b m e h k =
      let (next, hit, rest) = >>=-eq-ok (set_attribute p now attribute a) _ h in
      set_attributes-expiration more next b _ _ rest
        (set_attribute-expiration attribute a next m e hit k)

  parse_parts-expiration :
      (pair : Bytes) (attributes : List Bytes) (c : Cookie)
      → parse_parts p now (pair ∷ attributes) ≡ ok c
      → c.expiration ≡ deadline (last_max_age p attributes none) (first_expires p attributes none)
  unfolding parse_parts
  parse_parts-expiration pair attributes c h =
      let (found, _, more) = >>=-eq-ok (parse_pair p now pair) _ h in
      let (a, read, made) = >>=-eq-ok (set_attributes p now attributes no_attributes) _ more in
      ground (arith, made, set_attributes-expiration attributes no_attributes a none none read refl)

  -- A parsed cookie expires by the last `Max-Age` that is a number, from now on; if there is none,
  -- at the first `Expires` that is a date; and otherwise with the session.
  pub parse-expiration :
      (header pair : Bytes) (attributes : List Bytes) (c : Cookie)
      → map trim_left_ascii (split (trim_left_ascii header) b';') ≡ pair ∷ attributes
      → parse p now header ≡ ok c
      → c.expiration ≡ deadline (last_max_age p attributes none) (first_expires p attributes none)
  unfolding parse
  parse-expiration header pair attributes c e h =
      parse_parts-expiration pair attributes c (rw e at h)
