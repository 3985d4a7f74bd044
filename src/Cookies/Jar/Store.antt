-- ===== src/Cookies/Jar/Store.antt =====
-- `CookieJar::set` of src/cookies/jar.rs: what it accepts, what it stores, what it refuses.
use isahc.Prelude.{
  ℕ, ◌≡◌, ◌≢◌, refl, subst, ap, ◌∙◌, ◌⊎◌, true, false, Option, none, some, arith, if◌then◌else◌,
}
use isahc.Prelude.Bytes.{Bytes, contains}
use isahc.Prelude.Outcome.{Outcome, ok, err, lift, ◌>>=◌, >>=-eq-ok, ok_or}
use isahc.Platform.{Platform}
use isahc.Http.{Uri, uri_host}
use isahc.Cookies.Cookie.{Cookie}
use isahc.Cookies.Matching.{domain_matches, default_path}
use isahc.Cookies.Jar.{
  CookieWithContext, CookieJar, CookieRejectedError, CookieRejectedErrorKind,
  invalid_request_domain, invalid_cookie_domain, domain_mismatch, reject, replace, store,
  with_context, check_domain, path_value_of, set,
}
use isahc.Cookies.Jar.Keys.{
  Key, key, key_eq, view, IsDistinct, live, view-replace, replaced-view, replace-IsDistinct,
  view-retain, retain-IsDistinct,
}

-- The abstract store: a map in which the cookie is put, and from which what has expired is dropped.
abbrev pub put : ℕ → Key → Cookie → (Key → Option Cookie) → Key → Option Cookie
put now k cookie map j = live now (if key_eq k j then some cookie else map j)

pub store-view :
    (now : ℕ) (entry : CookieWithContext) (jar : CookieJar) (j : Key)
    → IsDistinct jar
    → view (store now entry jar).1 j ≡ put now (key entry) entry.cookie (view jar) j
unfolding store
store-view now entry jar j h =
    view-retain now (replace entry jar).1 j (replace-IsDistinct entry jar h)
    ∙ ap (live now) (view-replace entry jar j)

pub store-IsDistinct :
    (now : ℕ) (entry : CookieWithContext) (jar : CookieJar)
    → IsDistinct jar
    → IsDistinct (store now entry jar).1
unfolding store
store-IsDistinct now entry jar h = retain-IsDistinct now _ (replace-IsDistinct entry jar h)

store_old :
    (now : ℕ) (entry : CookieWithContext) (jar : CookieJar)
    → (store now entry jar).0 ≡ view jar (key entry)
unfolding store
store_old now entry jar = ground (arith, replaced-view entry jar)

abbrev context : Bytes → Bytes → Cookie → CookieWithContext
context domain path cookie = record { domain_value = domain; path_value = path; cookie = cookie }

found_host :
    (o : Option Bytes) (e : CookieRejectedError) (host : Bytes)
    → ok_or o e ≡ ok host
    → o ≡ some host
found_host o e host h = ground arith

ok_injective :
    (a b : CookieWithContext)
    → ◌≡◌ {A = Outcome CookieRejectedError CookieWithContext} (ok a) (ok b)
    → a ≡ b
ok_injective a b h = cc

module _ (p : Platform) (now : ℕ) where
  -- An accepted cookie is put into the map under its key, cookies that have expired are dropped,
  -- all else stays, the cookie that was there is returned, and keys stay distinct.
  pub set-put :
      (cookie : Cookie) (uri : Uri) (jar : CookieJar) (entry : CookieWithContext)
      → IsDistinct jar
      → with_context p now cookie uri ≡ ok entry
      → (new : CookieJar) × (set p now cookie uri jar ≡ ok (view jar (key entry), new))
        × ((j : Key) → view new j ≡ put now (key entry) entry.cookie (view jar) j)
        × IsDistinct new
  unfolding set
  set-put cookie uri jar entry d e = (
    (store now entry jar).1,
    ground (arith, e, store_old now entry jar),
    λ j. store-view now entry jar j d,
    store-IsDistinct now entry jar d,
  )

  -- What a cookie and a URI must be for the cookie to be stored as the entry.
  pub record Accepted (cookie : Cookie) (uri : Uri) (entry : CookieWithContext) : Type 0 where
    pub host : Bytes
    pub from : uri_host uri ≡ some host
    pub same : entry.cookie ≡ cookie
    pub domain :
        ((cookie.domain ≡ none) × (entry.domain_value ≡ host))
        ⊎ ((cookie.domain ≡ some entry.domain_value)
            × (domain_matches p host entry.domain_value ≡ ok true)
            × (contains entry.domain_value b'.' ≡ true)
            × (p.is_public_suffix entry.domain_value ≡ false))
    pub path :
        ((cookie.path ≡ none) × (default_path uri ≡ ok entry.path_value))
        ⊎ (cookie.path ≡ some entry.path_value)

  check_domain_cases :
      (cookie : Cookie) (host : Bytes) (domain : Option Bytes) (v : Bytes)
      → check_domain p now cookie host domain ≡ ok v
      → ((domain ≡ none) × (v ≡ host))
        ⊎ ((domain ≡ some v)
            × (domain_matches p host v ≡ ok true)
            × (contains v b'.' ≡ true)
            × (p.is_public_suffix v ≡ false))
  unfolding check_domain lift
  check_domain_cases cookie host none v h = ground arith
  check_domain_cases cookie host (some domain) v h = ground arith

  path_value_of_cases :
      (path : Option Bytes) (uri : Uri) (v : Bytes)
      → path_value_of p now path uri ≡ ok v
      → ((path ≡ none) × (default_path uri ≡ ok v)) ⊎ (path ≡ some v)
  unfolding path_value_of lift
  path_value_of_cases none uri v h = ground arith
  path_value_of_cases (some path) uri v h = ground arith

  pub with_context-Accepted :
      (cookie : Cookie) (uri : Uri) (entry : CookieWithContext)
      → with_context p now cookie uri ≡ ok entry
      → Accepted cookie uri entry
  unfolding with_context
  with_context-Accepted cookie uri entry h =
      let (host, from, rest) = >>=-eq-ok (ok_or (uri_host uri) _) _ h in
      let (domain, a, more) = >>=-eq-ok (check_domain p now cookie host cookie.domain) _ rest in
      let (path, b, made) = >>=-eq-ok (path_value_of p now cookie.path uri) _ more in
      let same = ok_injective _ entry made in
      subst (Accepted cookie uri) same (record {
        host = host;
        from = found_host (uri_host uri) _ host from;
        same = refl;
        domain = check_domain_cases cookie host cookie.domain domain a;
        path = path_value_of_cases cookie.path uri path b;
      })

  -- Why a cookie is refused, by the host of the request and the domain of the cookie.
  abbrev pub Refused : CookieRejectedErrorKind → Option Bytes → Option Bytes → Type 0
  Refused invalid_request_domain none domain = Unit
  Refused domain_mismatch (some host) (some domain) = domain_matches p host domain ≡ ok false
  Refused invalid_cookie_domain (some host) (some domain) =
      (domain_matches p host domain ≡ ok true)
      × ((contains domain b'.' ≡ false) ⊎ (p.is_public_suffix domain ≡ true))
  Refused _ _ _ = ⊥

  check_domain_refuses :
      (cookie back : Cookie) (host : Bytes) (domain : Option Bytes) (k : CookieRejectedErrorKind)
      → check_domain p now cookie host domain ≡ err (record { kind = k; cookie = back })
      → (back ≡ cookie) × Refused k (some host) domain
  unfolding check_domain lift reject
  check_domain_refuses cookie back host none k h = absurd (ground arith)
  check_domain_refuses cookie back host (some domain) invalid_request_domain h =
      absurd (ground arith)
  check_domain_refuses cookie back host (some domain) domain_mismatch h = ground arith
  check_domain_refuses cookie back host (some domain) invalid_cookie_domain h = ground arith

  path_value_of-ne-err :
      (path : Option Bytes) (uri : Uri) (e : CookieRejectedError)
      → path_value_of p now path uri ≢ err e
  unfolding path_value_of lift
  path_value_of-ne-err none uri e h = ground arith
  path_value_of-ne-err (some path) uri e h = ground arith

  context_refuses :
      (cookie back : Cookie) (uri : Uri) (host : Option Bytes) (k : CookieRejectedErrorKind)
      → (do
        request_host ← ok_or host (reject invalid_request_domain cookie)
        domain_value ← check_domain p now cookie request_host cookie.domain
        path_value ← path_value_of p now cookie.path uri
        ok (context domain_value path_value cookie))
        ≡ err (record { kind = k; cookie = back })
      → (back ≡ cookie) × Refused k host cookie.domain
  unfolding reject
  context_refuses cookie back uri none invalid_request_domain h = ground arith
  context_refuses cookie back uri none domain_mismatch h = absurd (ground arith)
  context_refuses cookie back uri none invalid_cookie_domain h = absurd (ground arith)
  context_refuses cookie back uri (some host) k h =
      check_domain_refuses cookie back host cookie.domain k
        (ground (arith, path_value_of-ne-err cookie.path uri (record { kind = k; cookie = back })))

  -- A refusal gives the cookie back, and names its reason.
  pub set_refuses :
      (cookie : Cookie) (uri : Uri) (jar : CookieJar) (e : CookieRejectedError)
      → set p now cookie uri jar ≡ err e
      → (e.cookie ≡ cookie) × Refused e.kind (uri_host uri) cookie.domain
  unfolding set with_context
  set_refuses cookie uri jar e h =
      context_refuses cookie e.cookie uri (uri_host uri) e.kind (ground arith)
