-- ===== src/Cookies/Cookie.antt =====
-- src/cookies/cookie.rs: cookies, their builder, and the parser of `Set-Cookie` headers.
pub mod Valid
pub mod RoundTrip
pub mod Print
pub mod Panics
pub mod Expiry
use isahc.Prelude.{
  ℕ, ◌+◌, ◌*◌, Bool, true, false, ◌&&◌, Option, none, some, List, [], ◌∷◌, map, ltb, leb, ◌==◌,
  if◌then◌else◌,
}
use isahc.Prelude.Bytes.{Bytes, codes, eq_ignore_ascii_case}
use isahc.Prelude.Outcome.{Outcome, ok, err, panic, ◌>>=◌, ok_or}
use isahc.Prelude.Text.{is_utf8, parse_u64}
use isahc.Platform.{Platform}
use isahc.Cookies.Syntax.{
  ParseError, parse_error, is_valid_token, is_valid_cookie_value, parse_token, parse_cookie_value,
  trim_left_ascii, split_at_first, split,
}

pub record Cookie : Type 0 where
  pub name : Bytes
  pub value : Bytes
  pub domain : Option Bytes
  pub path : Option Bytes
  pub secure : Bool
  pub expiration : Option ℕ

pub record CookieBuilder : Type 0 where
  pub name : Bytes
  pub value : Bytes
  pub domain : Option Bytes
  pub path : Option Bytes
  pub secure : Option Bool
  pub expiration : Option ℕ

-- `Cookie::new`
unfoldable pub new_cookie : Bytes → Bytes → Outcome ParseError Cookie
new_cookie name value =
    if is_valid_token name && is_valid_cookie_value value
    then ok (record {
      name = name;
      value = value;
      domain = none;
      path = none;
      secure = false;
      expiration = none;
    })
    else err parse_error

-- `CookieBuilder::new`
unfoldable pub new_builder : Bytes → Bytes → CookieBuilder
new_builder name value = record {
  name = name;
  value = value;
  domain = none;
  path = none;
  secure = none;
  expiration = none;
}

abbrev or_keep : Bool → Option Bool → Bool
or_keep old none = old
or_keep old (some new) = new

unfoldable pub build : CookieBuilder → Outcome ParseError Cookie
build b = do
  cookie ← new_cookie b.name b.value
  ok (record cookie {
    domain = b.domain;
    path = b.path;
    expiration = b.expiration;
    secure = or_keep cookie.secure b.secure;
  })

unfoldable pub is_expired : ℕ → Cookie → Bool
is_expired now c = elim c.expiration [ none ↦ false | some time ↦ ltb time now ]

abbrev pub is_persistent : Cookie → Bool
is_persistent c = elim c.expiration [ none ↦ false | some time ↦ true ]

-- The attributes read so far.
pub record Attributes : Type 0 where
  pub domain : Option Bytes
  pub path : Option Bytes
  pub secure : Bool
  pub expiration : Option ℕ

abbrev pub no_attributes : Attributes
no_attributes = record { domain = none; path = none; secure = false; expiration = none }

-- `str::trim_start_matches('.')`
unfoldable pub trim_dots : Bytes → Bytes
trim_dots [] = []
trim_dots (c ∷ cs) = if c == b'.' then trim_dots cs else c ∷ cs

abbrev pub nanos : ℕ → ℕ
nanos seconds = seconds * 1_000_000_000

module _ (p : Platform) (now : ℕ) where
  -- `SystemTime::now() + Duration::from_secs(seconds)`, which panics past the last time.
  unfoldable pub after_secs : ℕ → Outcome ParseError ℕ
  after_secs seconds =
      if leb (now + nanos seconds) p.max_time then ok (now + nanos seconds) else panic

  abbrev first_time : Option ℕ → Option ℕ → Option ℕ
  first_time (some time) other = some time
  first_time none other = other

  unfoldable pub set_expires : Bytes → Attributes → Attributes
  set_expires value a = record a {
    expiration = first_time a.expiration (if is_utf8 value then p.parse_http_date value else none);
  }

  unfoldable pub set_domain : Bytes → Attributes → Attributes
  set_domain value a =
      if is_utf8 value then record a { domain = some (p.to_lowercase (trim_dots value)) } else a

  unfoldable pub set_max_age : Bytes → Attributes → Outcome ParseError Attributes
  set_max_age value a =
      if is_utf8 value
      then elim (parse_u64 value) [
        | none ↦ ok a
        | some seconds ↦ do time ← after_secs seconds; ok (record a { expiration = some time })
      ]
      else ok a

  unfoldable pub set_path : Bytes → Attributes → Attributes
  set_path value a = if is_utf8 value then record a { path = some value } else a

  unfoldable pub set_named : Bytes → Bytes → Attributes → Outcome ParseError Attributes
  set_named name value a =
      if eq_ignore_ascii_case name (codes "Expires")
      then ok (set_expires value a)
      else if eq_ignore_ascii_case name (codes "Domain")
      then ok (set_domain value a)
      else if eq_ignore_ascii_case name (codes "Max-Age")
      then set_max_age value a
      else if eq_ignore_ascii_case name (codes "Path")
      then ok (set_path value a)
      else ok a

  -- One turn of the loop over the attributes.
  unfoldable pub set_attribute : Bytes → Attributes → Outcome ParseError Attributes
  set_attribute attribute a = elim (split_at_first attribute b'=') [
    | some (name, value) ↦ set_named name value a
    | none ↦
        ok (
          if eq_ignore_ascii_case attribute (codes "Secure") then record a { secure = true } else a)
  ]

  unfoldable pub set_attributes : List Bytes → Attributes → Outcome ParseError Attributes
  set_attributes [] a = ok a
  set_attributes (attribute ∷ more) a = set_attribute attribute a >>= set_attributes more

  unfoldable pub parse_pair : Bytes → Outcome ParseError (Bytes × Bytes)
  parse_pair pair = do
    (name, value) ← ok_or (split_at_first pair b'=') parse_error
    cookie_name ← parse_token name
    cookie_value ← parse_cookie_value value
    ok (cookie_name, cookie_value)

  parse_parts : List Bytes → Outcome ParseError Cookie
  parse_parts [] = err parse_error
  parse_parts (pair ∷ attributes) = do
    (name, value) ← parse_pair pair
    a ← set_attributes attributes no_attributes
    ok (record {
      name = name;
      value = value;
      secure = a.secure;
      expiration = a.expiration;
      domain = a.domain;
      path = a.path;
    })

  -- `Cookie::parse`
  unfoldable pub parse : Bytes → Outcome ParseError Cookie
  unfolding parse_parts
  parse header = parse_parts (map trim_left_ascii (split (trim_left_ascii header) b';'))
