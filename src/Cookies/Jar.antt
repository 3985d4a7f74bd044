-- ===== src/Cookies/Jar.antt =====
-- src/cookies/jar.rs: the cookie jar. Its hash set is the list of its entries in the order in which
-- the set hands them out; which order that is no theorem depends on. The lock is not modelled: each
-- operation holds it throughout, so that the operations on a shared jar come one after another.
pub mod Keys
pub mod Store
pub mod History
pub mod Requests
pub mod Flow
pub mod Examples
use isahc.Prelude.{
  ℕ, Bool, true, false, not, ◌&&◌, Option, none, some, List, [], ◌∷◌, map, filter, ◌==◌,
  if◌then◌else◌,
}
use isahc.Prelude.Bytes.{Bytes, bytes_eq, eq_ignore_ascii_case, contains}
use isahc.Prelude.Outcome.{Outcome, Infallible, ok, err, panic, ◌>>=◌, lift, ok_or}
use isahc.Prelude.Sort.{bytes_le, sort_by}
use isahc.Platform.{Platform}
use isahc.Http.{Uri, is_https, uri_host}
use isahc.Cookies.Cookie.{Cookie, is_expired}
use isahc.Cookies.Matching.{domain_matches, path_matches, default_path}

pub data CookieRejectedErrorKind : Type 0 where
  invalid_request_domain invalid_cookie_domain domain_mismatch : CookieRejectedErrorKind

pub record CookieRejectedError : Type 0 where
  pub kind : CookieRejectedErrorKind
  pub cookie : Cookie

pub record CookieWithContext : Type 0 where
  pub domain_value : Bytes
  pub path_value : Bytes
  pub cookie : Cookie

abbrev pub CookieJar : Type 0
CookieJar = List CookieWithContext

abbrev pub is_host_only : CookieWithContext → Bool
is_host_only entry = elim entry.cookie.domain [ none ↦ true | some _ ↦ false ]

-- `PartialEq for CookieWithContext`
unfoldable pub same_entry : CookieWithContext → CookieWithContext → Bool
same_entry a b =
    bytes_eq a.domain_value b.domain_value
    && bytes_eq a.path_value b.path_value
    && bytes_eq a.cookie.name b.cookie.name

abbrev pub or_empty : Option Bytes → Bytes
or_empty none = []
or_empty (some s) = s

-- `HashSet::replace`: the equal element that was there, and the set with the new one in its place.
unfoldable pub replace : CookieWithContext → CookieJar → Option CookieWithContext × CookieJar
replace new [] = (none, new ∷ [])
replace new (entry ∷ more) =
    let (old, rest) = replace new more in
    if same_entry new entry then (some entry, new ∷ more) else (old, entry ∷ rest)

reject : CookieRejectedErrorKind → Cookie → CookieRejectedError
reject kind cookie = record { kind = kind; cookie = cookie }

-- `HashSet::retain`, of the entries that have not expired.
abbrev pub retain_unexpired : ℕ → CookieJar → CookieJar
retain_unexpired now jar = filter (λ entry. not (is_expired now entry.cookie)) jar

-- The second half of `CookieJar::set`, under the write lock.
unfoldable pub store : ℕ → CookieWithContext → CookieJar → Option Cookie × CookieJar
store now entry jar =
    let (old, replaced) = replace entry jar in
    (elim old [ none ↦ none | some o ↦ some o.cookie ], retain_unexpired now replaced)

module _ (p : Platform) (now : ℕ) where
  matches_domain : CookieWithContext → Bytes → Outcome Infallible Bool
  matches_domain entry request_host =
      if is_host_only entry
      then ok (eq_ignore_ascii_case entry.domain_value request_host)
      else domain_matches p request_host entry.domain_value

  -- `CookieWithContext::matches`
  unfoldable pub matches : CookieWithContext → Uri → Outcome Infallible Bool
  unfolding matches_domain
  matches entry uri = if entry.cookie.secure && not (is_https uri) then ok false else do
    found ← matches_domain entry (or_empty (uri_host uri))
    ok (found && path_matches uri.path entry.path_value && not (is_expired now entry.cookie))

  -- The lazy search of `get_by_name` stops at the first hit.
  unfoldable pub get_by_name : CookieJar → Uri → Bytes → Outcome Infallible (Option Cookie)
  get_by_name [] uri cookie_name = ok none
  get_by_name (entry ∷ more) uri cookie_name =
      let rest = get_by_name more uri cookie_name in
      do
        found ← matches entry uri
        if found && bytes_eq entry.cookie.name cookie_name then ok (some entry.cookie) else rest

  unfoldable pub matching : CookieJar → Uri → Outcome Infallible (List Cookie)
  matching [] uri = ok []
  matching (entry ∷ more) uri = do
    found ← matches entry uri
    rest ← matching more uri
    ok (if found then entry.cookie ∷ rest else rest)

  unfoldable pub get_for_uri : CookieJar → Uri → Outcome Infallible (List Cookie)
  get_for_uri jar uri = do
    cookies ← matching jar uri
    ok (sort_by (λ a b. bytes_le a.name b.name) cookies)

  -- The validations of the domain; the value of the domain to keep.
  check_domain : Cookie → Bytes → Option Bytes → Outcome CookieRejectedError Bytes
  check_domain cookie request_host none = ok request_host
  check_domain cookie request_host (some domain) = do
    found ← lift (domain_matches p request_host domain)
    if not found
        then err (reject domain_mismatch cookie)
        else if not (contains domain b'.')
        then err (reject invalid_cookie_domain cookie)
        else if p.is_public_suffix domain
        then err (reject invalid_cookie_domain cookie)
        else ok domain

  path_value_of : Option Bytes → Uri → Outcome CookieRejectedError Bytes
  path_value_of none uri = lift (default_path uri)
  path_value_of (some path) uri = ok path

  -- The entry that `set` makes of an accepted cookie.
  unfoldable pub with_context : Cookie → Uri → Outcome CookieRejectedError CookieWithContext
  unfolding check_domain path_value_of reject
  with_context cookie uri = do
    request_host ← ok_or (uri_host uri) (reject invalid_request_domain cookie)
    domain_value ← check_domain cookie request_host cookie.domain
    path_value ← path_value_of cookie.path uri
    ok (record { domain_value = domain_value; path_value = path_value; cookie = cookie })

  -- `CookieJar::set`: the cookie that was replaced, and the jar after the call. A call that returns
  -- an error has not touched the jar.
  unfoldable pub set :
      Cookie → Uri → CookieJar → Outcome CookieRejectedError (Option Cookie × CookieJar)
  set cookie uri jar = do entry ← with_context cookie uri; ok (store now entry jar)

  -- The jar after a call of `set`, whatever it returns.
  unfoldable pub after_set : Cookie → Uri → CookieJar → CookieJar
  after_set cookie uri jar = elim (set cookie uri jar) [
    | ok (old, new) ↦ new
    | err e ↦ jar
    | panic ↦ jar
  ]

-- `CookieJar::clear`
unfoldable pub clear : CookieJar → CookieJar
clear jar = []
