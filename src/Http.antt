-- ===== src/Http.antt =====
-- The values of the http crate that the program reads through accessors: URIs.
pub mod Assoc
use isahc.Prelude.{
  ℕ, ◌≡◌, Bool, true, false, Option, none, some, List, [], ◌∷◌, ◌++◌, any, between, ◌==◌,
  if◌then◌else◌,
}
use isahc.Prelude.Bytes.{Bytes, codes, bytes_eq, eq_ignore_ascii_case}

pub data Scheme : Type 0 where
  http https : Scheme
  other : Bytes → Scheme

-- A port has its number and the digits that it was written with.
pub record Port : Type 0 where
  pub number : ℕ
  pub digits : Bytes

pub record Authority : Type 0 where
  pub userinfo : Option Bytes
  pub host : Bytes
  pub port : Option Port

pub record Uri : Type 0 where
  pub scheme : Option Scheme
  pub authority : Option Authority
  pub path : Bytes
  pub query : Option Bytes

unfoldable pub scheme_eq : Scheme → Scheme → Bool
scheme_eq http http = true
scheme_eq https https = true
scheme_eq (other a) (other b) = eq_ignore_ascii_case a b
scheme_eq _ _ = false

abbrev pub is_https : Uri → Bool
is_https uri = elim uri.scheme [ some https ↦ true | _ ↦ false ]

abbrev pub uri_host : Uri → Option Bytes
uri_host uri = elim uri.authority [ none ↦ none | some a ↦ some a.host ]

abbrev pub uri_port : Uri → Option Port
uri_port uri = elim uri.authority [ none ↦ none | some a ↦ a.port ]

-- `Uri` has no fragment: the http crate drops it. A method and a header name are their bytes, a name
-- in lower case as the crate keeps it, and a status is its number.
abbrev pub Method : Type 0
Method = Bytes

abbrev pub HeaderName : Type 0
HeaderName = Bytes

pub data Version : Type 0 where
  http_09 http_10 http_11 http_2 http_3 : Version

abbrev pub scheme_as_str : Scheme → Bytes
scheme_as_str http = codes "http"
scheme_as_str https = codes "https"
scheme_as_str (other s) = s

-- `StatusCode::is_redirection`
abbrev pub is_redirection : ℕ → Bool
is_redirection status = between 300 399 status

-- `Option` of a scheme, a host or a port compared by `==`; ports are compared by their numbers.
unfoldable pub option_eq : {A : Type 0} → (A → A → Bool) → Option A → Option A → Bool
option_eq eq none none = true
option_eq eq (some a) (some b) = eq a b
option_eq eq _ _ = false

unfoldable pub port_eq : Port → Port → Bool
port_eq a b = a.number == b.number

-- The header map of the http crate: names with their values in order, with its documented laws.
pub record HeaderMap : Type 1 where
  pub Map : Type 0
  pub new : Map
  pub keys : Map → List HeaderName
  pub get_all : HeaderName → Map → List Bytes
  pub insert : HeaderName → Bytes → Map → Map
  pub append : HeaderName → Bytes → Map → Map
  pub remove : HeaderName → Map → Map

-- Has a list of values any?
abbrev pub is_some_value : List Bytes → Bool
is_some_value [] = false
is_some_value (value ∷ more) = true

pub record HeaderLaws (h : HeaderMap) : Type 0 where
  pub get_all-new : (name : HeaderName) → h.get_all name h.new ≡ []
  pub get_all-insert :
      (name other : HeaderName) (value : Bytes) (map : h.Map)
      → h.get_all other (h.insert name value map)
        ≡ (if bytes_eq name other then value ∷ [] else h.get_all other map)
  pub get_all-append :
      (name other : HeaderName) (value : Bytes) (map : h.Map)
      → h.get_all other (h.append name value map)
        ≡ (if bytes_eq name other then h.get_all other map ++ value ∷ [] else h.get_all other map)
  pub get_all-remove :
      (name other : HeaderName) (map : h.Map)
      → h.get_all other (h.remove name map)
        ≡ (if bytes_eq name other then [] else h.get_all other map)
  pub keys_iff :
      (name : HeaderName) (map : h.Map)
      → any (λ key. bytes_eq key name) (h.keys map) ≡ is_some_value (h.get_all name map)

-- `HeaderMap::get`: the first value.
abbrev pub first : List Bytes → Option Bytes
first [] = none
first (value ∷ more) = some value

-- `HeaderMap::contains_key`
abbrev pub contains_key : (h : HeaderMap) → HeaderName → h.Map → Bool
contains_key h name map = is_some_value (h.get_all name map)

-- The texts of the http crate: whether `HeaderValue::to_str` succeeds, whether a text is a header
-- value, what header name it is, and what status it names.
pub record HeaderText : Type 0 where
  pub is_str : Bytes → Bool
  pub is_header_value : Bytes → Bool
  pub to_header_name : Bytes → Option HeaderName
  pub to_status : Bytes → Option ℕ
