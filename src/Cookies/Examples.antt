-- ===== src/Cookies/Examples.antt =====
-- Cookies, hosts and jars on which the theorems about src/cookies are applied, and tests that follow
-- the source's own.
use isahc.Prelude.{
  ◌^◌, ◌≡◌, refl, ◌↔◌, ◌⊎◌, inr, true, false, none, some, List, [], ◌∷◌, ◌++◌, map, take, drop,
  if◌then◌else◌,
}
use isahc.Prelude.Ascii.{to_ascii_lowercase}
use isahc.Prelude.Bytes.{Bytes, codes, bytes_eq, eq_ignore_ascii_case, starts_with, ends_with}
use isahc.Prelude.Has.{Has}
use isahc.Prelude.Outcome.{ok, panic}
use isahc.Prelude.Text.{is_utf8, parse_u64}
use isahc.Platform.{Platform, LowersAscii}
use isahc.Http.{Uri, https}
use isahc.Cookies.Syntax.{
  is_valid_token, is_valid_cookie_value, quote, split, trim_left_ascii, split_at_first,
  parse_cookie_value, parse_token, strip_quotes,
}
use isahc.Cookies.Cookie.{
  Cookie, parse, parse_pair, set_attributes, set_attribute, set_named, set_max_age, set_expires,
  after_secs, nanos, trim_dots,
}
use isahc.Cookies.Cookie.Valid.{IsValid, parse-IsValid}
use isahc.Cookies.Cookie.RoundTrip.{print_header}
use isahc.Cookies.Cookie.Print.{print_cookie, IsPrintable, parse-print_cookie}
use isahc.Cookies.Cookie.Panics.{parse_panics, IsTooLong}
use isahc.Cookies.Cookie.Expiry.{parse-expiration, deadline, last_max_age, first_expires}
use isahc.Cookies.Matching.Domain.{
  DomainMatches, domain_matches-DomainMatches, domain_matches_panics,
}
use isahc.Cookies.Matching.Paths.{PathMatches, path_matches-PathMatches}
use isahc.Cookies.Matching.{rfind, domain_matches, path_matches, default_path}

abbrev pub ascii_platform : Platform
ascii_platform = record {
  to_lowercase = map to_ascii_lowercase;
  is_ip_addr = λ s. bytes_eq s (codes "127.0.0.1");
  parse_http_date =
      λ s. if bytes_eq s (codes "Thu, 01 Jan 1970 00:00:09 GMT") then some 9 else none;
  is_public_suffix = λ s. bytes_eq s (codes "co.uk");
  max_time = nanos (2 ^ 63);
}

pub ascii_platform-LowersAscii : LowersAscii ascii_platform
ascii_platform-LowersAscii = record { lowers = λ s h. refl }

abbrev session : Cookie
session = record {
  name = codes "sid";
  value = codes "31d4d96e407aad42";
  domain = some (codes "example.com");
  path = some (codes "/docs");
  secure = true;
  expiration = none;
}

session-IsPrintable : IsPrintable ascii_platform session
unfolding is_valid_token is_valid_cookie_value is_utf8 trim_dots
session-IsPrintable = record {
  valid = record { name = refl; value = refl };
  domain = (refl, refl, refl, refl);
  path = (refl, refl);
  session = refl;
}

parse-print_cookie_example : parse ascii_platform 7 (print_cookie session) ≡ ok session
parse-print_cookie_example = parse-print_cookie ascii_platform 7 session session-IsPrintable

printed :
    print_cookie session ≡ codes "sid=31d4d96e407aad42; Domain=example.com; Path=/docs; Secure"
unfolding print_cookie print_header
printed = refl

-- A lifetime that the clock cannot hold.
abbrev endless : Bytes
endless = codes "a=b; Max-Age=18446744073709551615"

endless_panics : parse ascii_platform 7 endless ≡ panic
unfolding parse parse_pair set_attributes set_attribute set_named set_max_age after_secs split
    trim_left_ascii split_at_first parse_token is_valid_token is_valid_cookie_value
    parse_cookie_value strip_quotes starts_with ends_with eq_ignore_ascii_case is_utf8 parse_u64
endless_panics = refl

parse_panics_example :
    ((name : Bytes) × (more : List Bytes) × (map trim_left_ascii
          (split (trim_left_ascii endless) b';')
        ≡ (name ++ b'=' ∷ quote) ∷ more))
    ⊎ ((pair : Bytes) × (more : List Bytes) × (map trim_left_ascii
            (split (trim_left_ascii endless) b';')
          ≡ pair ∷ more)
        × (attribute : Bytes) × Has attribute more
        × IsTooLong ascii_platform 7 attribute)
parse_panics_example = parse_panics ascii_platform 7 endless endless_panics

abbrev lasting_header : Bytes
lasting_header = codes "a=b; Max-Age=60; Expires=Thu, 01 Jan 1970 00:00:09 GMT"

abbrev lasting_attributes : List Bytes
lasting_attributes = codes "Max-Age=60" ∷ codes "Expires=Thu, 01 Jan 1970 00:00:09 GMT" ∷ []

abbrev lasting : Cookie
lasting = record {
  name = codes "a";
  value = codes "b";
  domain = none;
  path = none;
  secure = false;
  expiration = some 60_000_000_007;
}

lasting-parse : parse ascii_platform 7 lasting_header ≡ ok lasting
unfolding parse parse_pair set_attributes set_attribute set_named set_max_age set_expires after_secs
    split trim_left_ascii split_at_first parse_token is_valid_token parse_cookie_value strip_quotes
    is_valid_cookie_value starts_with ends_with eq_ignore_ascii_case is_utf8 parse_u64
lasting-parse = refl

lasting-split :
    map trim_left_ascii (split (trim_left_ascii lasting_header) b';')
    ≡ codes "a=b" ∷ lasting_attributes
unfolding split trim_left_ascii
lasting-split = refl

parse-expiration_example :
    some 60_000_000_007
    ≡ deadline ascii_platform 7
        (last_max_age ascii_platform lasting_attributes none)
        (first_expires ascii_platform lasting_attributes none)
parse-expiration_example =
    parse-expiration ascii_platform 7 lasting_header (codes "a=b") lasting_attributes lasting
      lasting-split lasting-parse

parse-IsValid_example : IsValid lasting
parse-IsValid_example = parse-IsValid ascii_platform 7 lasting_header lasting lasting-parse

abbrev www : Bytes
www = codes "www.Example.com"

domain_matches-DomainMatches_example :
    (domain_matches ascii_platform www (codes "example.com") ≡ ok true)
    ↔ DomainMatches ascii_platform www (codes "example.com")
domain_matches-DomainMatches_example =
    domain_matches-DomainMatches ascii_platform www (codes "example.com")

subdomain_matches : domain_matches ascii_platform www (codes "example.com") ≡ ok true
unfolding bytes_eq
subdomain_matches = domain_matches-DomainMatches_example.1 (inr (codes "www", refl, refl))

-- U+212A, the Kelvin sign, whose lower case is the letter k.
abbrev pub kelvin_lower : Bytes → Bytes
kelvin_lower s =
    if bytes_eq (take 3 s) (0xE2 ∷ 0x84 ∷ 0xAA ∷ [])
    then b'k' ∷ map to_ascii_lowercase (drop 3 s)
    else map to_ascii_lowercase s

abbrev pub kelvin_platform : Platform
kelvin_platform = record ascii_platform { to_lowercase = kelvin_lower }

abbrev pub kelvin_org : Bytes
kelvin_org = 0xE2 ∷ 0x84 ∷ 0xAA ∷ codes ".org"

domain_matches_panics_example :
    (domain_matches kelvin_platform (codes "k.org") kelvin_org ≡ panic) ↔ (
      (eq_ignore_ascii_case kelvin_org (codes "k.org") ≡ false)
      × (kelvin_platform.to_lowercase (codes "k.org") ≡ kelvin_platform.to_lowercase kelvin_org))
domain_matches_panics_example = domain_matches_panics kelvin_platform (codes "k.org") kelvin_org

kelvin_panics : domain_matches kelvin_platform (codes "k.org") kelvin_org ≡ panic
unfolding eq_ignore_ascii_case
kelvin_panics = domain_matches_panics_example.1 (refl, unfold bytes_eq in refl)

path_matches-PathMatches_example :
    (path_matches (codes "/docs/web") (codes "/docs") ≡ true)
    ↔ PathMatches (codes "/docs/web") (codes "/docs")
path_matches-PathMatches_example = path_matches-PathMatches (codes "/docs/web") (codes "/docs")

sibling_path : path_matches (codes "/docsets") (codes "/docs") ≡ false
unfolding path_matches bytes_eq starts_with ends_with
sibling_path = refl

abbrev pub page : Uri
page = record {
  scheme = some https;
  authority = some (record { userinfo = none; host = codes "www.example.com"; port = none });
  path = codes "/docs/web/index";
  query = none;
}

default_path-page : default_path page ≡ ok (codes "/docs/web")
unfolding default_path rfind starts_with
default_path-page = refl
