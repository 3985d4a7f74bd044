-- ===== src/Cookies/Jar/Requests.antt =====
-- The queries of the jar of src/cookies/jar.rs: which cookies go with a request.
use isahc.Prelude.{
  ℕ, ◌≡◌, ◌≢◌, refl, sym, subst, ◌↔◌, ◌⊎◌, inl, inr, Bool, true, false, Option, none, some, List,
  [], ◌∷◌, map, filter, all, All, arith, Bool-cases, Option-cases, if◌then◌else◌,
}
use mathlib.Core.List.{Perm}
use isahc.Prelude.Ascii.{is_ascii}
use isahc.Prelude.Bytes.{Bytes, bytes_eq, eq_ignore_ascii_case}
use isahc.Prelude.Outcome.{ok, panic, >>=-eq-ok, Outcome-cases}
use isahc.Prelude.Sort.{bytes_le, bytes_le_total, sort_by, sort_by-perm, IsSorted, sort_by-IsSorted}
use isahc.Prelude.Has.{Has, Has-filter, Has-sort_by, Has-map}
use isahc.Platform.{Platform, LowersAscii}
use isahc.Http.{Uri, is_https, uri_host}
use isahc.Cookies.Cookie.{Cookie, is_expired}
use isahc.Cookies.Matching.{domain_matches, path_matches}
use isahc.Cookies.Matching.Domain.{
  DomainMatches, domain_matches-DomainMatches, domain_matches_ascii,
}
use isahc.Cookies.Jar.{
  CookieWithContext, CookieJar, or_empty, matches_domain, matches, matching, get_for_uri,
  get_by_name,
}

module _ (p : Platform) (now : ℕ) where
  -- The host of a request against the domain of a stored cookie.
  abbrev pub HostApplies : CookieWithContext → Bytes → Type 0
  HostApplies entry host =
      ((entry.cookie.domain ≡ none) × (eq_ignore_ascii_case entry.domain_value host ≡ true))
      ⊎ ((entry.cookie.domain ≢ none) × DomainMatches p host entry.domain_value)

  matches_domain-HostApplies :
      (entry : CookieWithContext) (host : Bytes)
      → matches_domain p now entry host ≡ ok true
      → HostApplies entry host
  unfolding matches_domain
  matches_domain-HostApplies entry host h = elim (Option-cases entry.cookie.domain) [
    | inl missing ↦ inl (missing, ground (arith, missing))
    | inr (domain, e) ↦ inr (
      λ n. ground (arith, e, n),
      (domain_matches-DomainMatches p host entry.domain_value).0 (ground (arith, e)),
    )
  ]

  HostApplies-matches_domain :
      (entry : CookieWithContext) (host : Bytes)
      → HostApplies entry host
      → matches_domain p now entry host ≡ ok true
  unfolding matches_domain
  HostApplies-matches_domain entry host (inl (missing, same)) = ground arith
  HostApplies-matches_domain entry host (inr (given, m)) = elim (Option-cases entry.cookie.domain) [
    | inl missing ↦ absurd (given missing)
    | inr (domain, e) ↦
        ground (arith, e, (domain_matches-DomainMatches p host entry.domain_value).1 m)
  ]

  -- RFC 6265, section 5.4: which stored cookies go with a request.
  pub record Applies (entry : CookieWithContext) (uri : Uri) : Type 0 where
    pub secure : entry.cookie.secure ≡ true → is_https uri ≡ true
    pub host : HostApplies entry (or_empty (uri_host uri))
    pub path : path_matches uri.path entry.path_value ≡ true
    pub unexpired : is_expired now entry.cookie ≡ false

  -- The test of the jar answers yes exactly for the cookies that go with the request by the rule of
  -- RFC 6265, section 5.4.
  pub matches-Applies :
      (entry : CookieWithContext) (uri : Uri)
      → (matches p now entry uri ≡ ok true) ↔ Applies entry uri
  unfolding matches
  matches-Applies entry uri = (
    λ h. record {
      secure = ground arith;
      host = matches_domain-HostApplies entry (or_empty (uri_host uri)) (ground arith);
      path = ground arith;
      unexpired = ground arith;
    },
    λ a. ground (
      arith,
      HostApplies-matches_domain entry (or_empty (uri_host uri)) a.host,
      a.secure,
      a.path,
      a.unexpired,
    ),
  )

  -- Does the jar's test answer yes?
  pub answers : Uri → CookieWithContext → Bool
  answers uri entry = elim (matches p now entry uri) [ ok found ↦ found | _ ↦ false ]

  answers-eq-ok :
      (uri : Uri) (entry : CookieWithContext)
      → answers uri entry ≡ true
      → matches p now entry uri ≡ ok true
  unfolding answers
  answers-eq-ok uri entry h = ground arith

  abbrev by_name : Cookie → Cookie → Bool
  by_name a b = bytes_le a.name b.name

  matching-filter :
      (jar : CookieJar) (uri : Uri) (cookies : List Cookie)
      → matching p now jar uri ≡ ok cookies
      → cookies ≡ map (λ entry. entry.cookie) (filter (answers uri) jar)
  unfolding matching answers
  matching-filter [] uri cookies h = ground arith
  matching-filter (entry ∷ more) uri cookies h =
      let (found, a, rest) = >>=-eq-ok (matches p now entry uri) _ h in
      let (others, b, made) = >>=-eq-ok (matching p now more uri) _ rest in
      ground (arith, a, made, matching-filter more uri others b)

  answers-Applies :
      (jar : CookieJar) (uri : Uri) → All (λ entry. Applies entry uri) (filter (answers uri) jar)
  answers-Applies [] uri = tt
  answers-Applies (entry ∷ more) uri = elim (Bool-cases (answers uri entry)) [
    | inl hit ↦
        rw hit
          ((matches-Applies entry uri).0 (answers-eq-ok uri entry hit), answers-Applies more uri)
    | inr miss ↦ rw miss (answers-Applies more uri)
  ]

  -- The cookies for a request are sorted by name, and are exactly those of the entries that go with
  -- the request.
  pub get_for_uri-Perm :
      (jar : CookieJar) (uri : Uri) (cookies : List Cookie)
      → get_for_uri p now jar uri ≡ ok cookies
      → IsSorted by_name cookies
        × Perm cookies (map (λ entry. entry.cookie) (filter (answers uri) jar))
        × All (λ entry. Applies entry uri) (filter (answers uri) jar)
  unfolding get_for_uri
  get_for_uri-Perm jar uri cookies h =
      let (found, a, made) = >>=-eq-ok (matching p now jar uri) _ h in
      let sorted : sort_by by_name found ≡ cookies = ground arith in
      (
        subst (IsSorted by_name) sorted
            (sort_by-IsSorted by_name (λ x y. bytes_le_total x.name y.name) found),
        subst (λ l. Perm l (map (λ entry. entry.cookie) (filter (answers uri) jar))) sorted
            (subst (Perm (sort_by by_name found)) (matching-filter jar uri found a)
              (sort_by-perm by_name found)),
        answers-Applies jar uri,
      )

  abbrev first : List Cookie → Option Cookie
  first [] = none
  first (c ∷ cs) = some c

  -- Where the whole jar can be read, the lookup by name finds the first of the cookies for the
  -- request that has the name, in the order of the set.
  pub get_by_name-first :
      (jar : CookieJar) (uri : Uri) (cookies : List Cookie) (name : Bytes)
      → matching p now jar uri ≡ ok cookies
      → get_by_name p now jar uri name ≡ ok (first (filter (λ c. bytes_eq c.name name) cookies))
  unfolding matching get_by_name
  get_by_name-first [] uri cookies name h = ground arith
  get_by_name-first (entry ∷ more) uri cookies name h =
      let (found, a, rest) = >>=-eq-ok (matches p now entry uri) _ h in
      let (others, b, made) = >>=-eq-ok (matching p now more uri) _ rest in
      ground (arith, a, made, get_by_name-first more uri others name b)

  matches_panics :
      (entry : CookieWithContext) (uri : Uri)
      → matches p now entry uri ≡ panic
      → domain_matches p (or_empty (uri_host uri)) entry.domain_value ≡ panic
  unfolding matches matches_domain
  matches_panics entry uri h = ground arith

  matches-eq-ok :
      (entry : CookieWithContext) (uri : Uri)
      → LowersAscii p
      → all is_ascii (or_empty (uri_host uri)) ≡ true
      → all is_ascii entry.domain_value ≡ true
      → (found : Bool) × (matches p now entry uri ≡ ok found)
  matches-eq-ok entry uri lower host h = elim (Outcome-cases (matches p now entry uri)) [
    | inl found ↦ found
    | inr (inl (e, _)) ↦ elim e [ ]
    | inr (inr f) ↦
        absurd
          (domain_matches_ascii p _ entry.domain_value lower host h (matches_panics entry uri f))
  ]

  matching-eq-ok :
      (jar : CookieJar) (uri : Uri)
      → LowersAscii p
      → all is_ascii (or_empty (uri_host uri)) ≡ true
      → All (λ entry. all is_ascii entry.domain_value ≡ true) jar
      → (cookies : List Cookie) × (matching p now jar uri ≡ ok cookies)
  unfolding matching
  matching-eq-ok [] uri lower host h = ([], refl)
  matching-eq-ok (entry ∷ more) uri lower host h =
      let (found, e) = matches-eq-ok entry uri lower host h.0 in
      let (rest, f) = matching-eq-ok more uri lower host h.1 in
      ((if found then entry.cookie ∷ rest else rest), ground (arith, e, f))

  -- With ASCII hosts and domains a request always gets its cookies: no query panics.
  pub get_for_uri-eq-ok :
      (jar : CookieJar) (uri : Uri)
      → LowersAscii p
      → all is_ascii (or_empty (uri_host uri)) ≡ true
      → All (λ entry. all is_ascii entry.domain_value ≡ true) jar
      → (cookies : List Cookie) × (get_for_uri p now jar uri ≡ ok cookies)
  unfolding get_for_uri
  get_for_uri-eq-ok jar uri lower host h =
      let (found, e) = matching-eq-ok jar uri lower host h in
      (sort_by by_name found, ground (arith, e))

  -- What the query hands out holds the cookie of every entry that goes with the request.
  pub get_for_uri-Has :
      (jar : CookieJar) (uri : Uri) (cookies : List Cookie) (entry : CookieWithContext)
      → get_for_uri p now jar uri ≡ ok cookies
      → Has entry jar
      → Applies entry uri
      → Has entry.cookie cookies
  unfolding get_for_uri
  get_for_uri-Has jar uri cookies entry h m a =
      let (found, e, made) = >>=-eq-ok (matching p now jar uri) _ h in
      let sorted : sort_by by_name found ≡ cookies = ground arith in
      let hit : answers uri entry ≡ true =
        unfold answers in ground (arith, (matches-Applies entry uri).1 a) in
      subst (Has entry.cookie) sorted (
        Has-sort_by by_name entry.cookie found (
          subst (Has entry.cookie) (sym (matching-filter jar uri found e))
            (Has-map (λ e. e.cookie) entry _ (Has-filter (answers uri) entry jar hit m))))
