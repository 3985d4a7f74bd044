-- ===== src/Cookies/Matching.antt =====
-- src/cookies/jar.rs: the domain and path tests of RFC 6265, and the default path of a URI.
pub mod Domain
pub mod Paths
use isahc.Prelude.{
  ℕ, zero, suc, ◌-◌, Bool, true, false, not, ◌&&◌, ◌||◌, Option, none, some, [], ◌∷◌, length, take,
  drop, get_elem?, ltb, ◌==◌, if◌then◌else◌,
}
use isahc.Prelude.Bytes.{Bytes, codes, bytes_eq, eq_ignore_ascii_case, starts_with, ends_with}
use isahc.Prelude.Outcome.{Outcome, Infallible, ok, err, panic, ◌>>=◌}
use isahc.Platform.{Platform}
use isahc.Http.{Uri}

-- `string.as_bytes()[string.len() - suffix.len() - 1]`: the subtraction and the index both panic
-- where there is no such byte.
unfoldable pub byte_before : Bytes → Bytes → Outcome Infallible ℕ
byte_before string suffix =
    if ltb (length suffix) (length string)
    then elim (get_elem? string (length string - length suffix - 1)) [
      | none ↦ panic
      | some byte ↦ ok byte
    ]
    else panic

unfoldable pub is_subdomain : Platform → Bytes → Bytes → Outcome Infallible Bool
unfolding byte_before
is_subdomain p string domain =
    if ends_with string domain
    then (do byte ← byte_before string domain; ok (byte == b'.' && not (p.is_ip_addr string)))
    else ok false

unfoldable pub domain_matches : Platform → Bytes → Bytes → Outcome Infallible Bool
domain_matches p string domain =
    if eq_ignore_ascii_case domain string
    then ok true
    else is_subdomain p (p.to_lowercase string) (p.to_lowercase domain)

abbrev pub slash : Bytes
slash = b'/' ∷ []

unfoldable pub path_matches : Bytes → Bytes → Bool
path_matches request_path cookie_path =
    bytes_eq request_path cookie_path
    || (starts_with request_path cookie_path
        && (ends_with cookie_path slash
            || starts_with (drop (length cookie_path) request_path) slash))

-- `str::rfind`: the last index of a byte.
unfoldable pub rfind : Bytes → ℕ → Option ℕ
rfind [] byte = none
rfind (c ∷ cs) byte = elim (rfind cs byte) [
  | some i ↦ some (suc i)
  | none ↦ if c == byte then some 0 else none
]

-- The `unwrap` panics where there is no slash.
unfoldable pub default_path : Uri → Outcome Infallible Bytes
default_path uri =
    if starts_with uri.path slash
    then elim (rfind uri.path b'/') [
      | none ↦ panic
      | some i ↦ ok (if i == 0 then slash else take i uri.path)
    ]
    else ok slash
