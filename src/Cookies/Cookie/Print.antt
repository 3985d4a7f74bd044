-- ===== src/Cookies/Cookie/Print.antt =====
-- A printer of cookies in the syntax of `Set-Cookie`, and its round trip through the parser of
-- src/cookies/cookie.rs.
use isahc.Prelude.{
  ℕ, ◌≡◌, refl, true, false, Bool, ◌∷◌, ◌++◌, [], arith, List, All, Option, none, some,
}
use isahc.Prelude.Bytes.{Bytes, codes, contains, eq_ignore_ascii_case}
use isahc.Prelude.Outcome.{ok}
use isahc.Prelude.Text.{is_utf8}
use isahc.Platform.{Platform}
use isahc.Cookies.Syntax.{trim_left_ascii, split_at_first}
use isahc.Cookies.Syntax.Laws.{parse_cookie_value-plain, value_free_semicolon}
use isahc.Cookies.Cookie.{
  Cookie, parse, set_attributes, set_attribute, set_named, set_domain, set_path, no_attributes,
  trim_dots,
}
use isahc.Cookies.Cookie.Valid.{IsValid}
use isahc.Cookies.Cookie.RoundTrip.{print_header, IsAttribute, parse-print_header}

domain_attribute : Option Bytes → List Bytes
domain_attribute none = []
domain_attribute (some d) = (codes "Domain=" ++ d) ∷ []

path_attribute : Option Bytes → List Bytes
path_attribute none = []
path_attribute (some d) = (codes "Path=" ++ d) ∷ []

secure_attribute : Bool → List Bytes
secure_attribute false = []
secure_attribute true = codes "Secure" ∷ []

attributes_of : Cookie → List Bytes
unfolding domain_attribute path_attribute secure_attribute
attributes_of c = domain_attribute c.domain ++ (path_attribute c.path ++ secure_attribute c.secure)

unfoldable pub print_cookie : Cookie → Bytes
unfolding attributes_of print_header
print_cookie c = print_header c.name c.value (attributes_of c)

abbrev pub PrintsPath : Option Bytes → Type 0
PrintsPath none = Unit
PrintsPath (some s) = (is_utf8 s ≡ true) × (contains s b';' ≡ false)

-- A domain as the parser stores it: with no leading dot, and in lower case.
abbrev pub PrintsDomain : Platform → Option Bytes → Type 0
PrintsDomain p none = Unit
PrintsDomain p (some d) =
    (is_utf8 d ≡ true) × (contains d b';' ≡ false) × (trim_dots d ≡ d) × (p.to_lowercase d ≡ d)

pub record IsPrintable (p : Platform) (c : Cookie) : Type 0 where
  pub valid : IsValid c
  pub domain : PrintsDomain p c.domain
  pub path : PrintsPath c.path
  pub session : c.expiration ≡ none

attributes_of-IsAttribute :
    (d s : Option Bytes) (b : Bool) (p : Platform)
    → PrintsDomain p d
    → PrintsPath s
    → All IsAttribute (domain_attribute d ++ (path_attribute s ++ secure_attribute b))
unfolding domain_attribute path_attribute secure_attribute trim_left_ascii
attributes_of-IsAttribute d s b p hd hs = ground arith

module _ (p : Platform) (now : ℕ) where
  set_attributes-print :
      (d s : Option Bytes) (b : Bool)
      → PrintsDomain p d
      → PrintsPath s
      → set_attributes p now
          (domain_attribute d ++ (path_attribute s ++ secure_attribute b))
          no_attributes
        ≡ ok (record { domain = d; path = s; secure = b; expiration = none })
  unfolding domain_attribute path_attribute secure_attribute set_attributes set_attribute set_named
      set_domain set_path split_at_first eq_ignore_ascii_case
  set_attributes-print none none false hd hs = refl
  set_attributes-print none none true hd hs = refl
  set_attributes-print none (some s) false hd hs = ground arith
  set_attributes-print none (some s) true hd hs = ground arith
  set_attributes-print (some d) none false hd hs = ground arith
  set_attributes-print (some d) none true hd hs = ground arith
  set_attributes-print (some d) (some s) false hd hs = ground arith
  set_attributes-print (some d) (some s) true hd hs = ground arith

  -- A session cookie that prints is read back whole, its attributes included.
  pub parse-print_cookie : (c : Cookie) → IsPrintable p c → parse p now (print_cookie c) ≡ ok c
  unfolding print_cookie attributes_of
  parse-print_cookie c h =
      rw
        (parse-print_header p now c.name c.value _ h.valid.name
          (value_free_semicolon c.value h.valid.value)
          (attributes_of-IsAttribute c.domain c.path c.secure p h.domain h.path))
        (ground (
          arith,
          parse_cookie_value-plain c.value h.valid.value,
          set_attributes-print c.domain c.path c.secure h.domain h.path,
        ))
