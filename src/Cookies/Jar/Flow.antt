-- ===== src/Cookies/Jar/Flow.antt =====
-- Cookies on their way from a response into the jar of src/cookies/jar.rs and back out.
use isahc.Prelude.{
  ℕ, ◌≤◌, ◌≡◌, refl, sym, subst, ap, ◌∙◌, ◌⊎◌, inl, inr, true, false, not, Option, none, some, List,
  [], ◌∷◌, arith,
}
use isahc.Prelude.Bytes.{
  Bytes, eq_ignore_ascii_case, eq_ignore_ascii_case_refl, starts_with, contains,
}
use isahc.Prelude.Outcome.{ok, panic, lift, >>=-eq-ok}
use isahc.Prelude.Has.{Has, Has-filter}
use isahc.Platform.{Platform}
use isahc.Http.{Uri, is_https, uri_host}
use isahc.Cookies.Cookie.{Cookie, is_expired}
use isahc.Cookies.Matching.{domain_matches, slash}
use isahc.Cookies.Matching.Domain.{
  DomainMatches, domain_matches-DomainMatches, domain_matches_panics,
}
use isahc.Cookies.Matching.Paths.{path_matches-default_path}
use isahc.Cookies.Jar.{
  CookieWithContext, CookieJar, replace, store, or_empty, matches, get_for_uri, with_context,
  check_domain, set,
}
use isahc.Cookies.Jar.Store.{Accepted, with_context-Accepted}
use isahc.Cookies.Jar.Requests.{Applies, HostApplies, get_for_uri-Has, matches-Applies}

module _ (p : Platform) (now later : ℕ) where
  -- A stored cookie goes out only to the host that set it, or to the domain that it names, to which
  -- the host that set it belongs.
  pub isolation :
      (cookie : Cookie) (origin target : Uri) (entry : CookieWithContext)
      → with_context p now cookie origin ≡ ok entry
      → matches p later entry target ≡ ok true
      → ((cookie.domain ≡ none)
          × (eq_ignore_ascii_case (or_empty (uri_host origin)) (or_empty (uri_host target)) ≡ true))
        ⊎ ((cookie.domain ≡ some entry.domain_value)
            × DomainMatches p (or_empty (uri_host origin)) entry.domain_value
            × DomainMatches p (or_empty (uri_host target)) entry.domain_value)
  isolation cookie origin target entry made hit =
      let a = with_context-Accepted p now cookie origin entry made in
      let r = (matches-Applies p later entry target).0 hit in
      let origin_host : or_empty (uri_host origin) ≡ a.host = ap or_empty a.from in
      let named : entry.cookie.domain ≡ cookie.domain = ap (λ (c : Cookie). c.domain) a.same in
      elim a.domain [
        | inl (missing, at) ↦ elim r.host [
          | inl (_, same) ↦ inl (
            missing,
            subst (λ h. eq_ignore_ascii_case h (or_empty (uri_host target)) ≡ true)
                (at ∙ sym origin_host) same,
          )
          | inr (given, _) ↦ absurd (given (named ∙ missing))
        ]
        | inr (domain, m, _, _) ↦ elim r.host [
          | inl (missing, _) ↦ absurd (cc (domain, missing, named))
          | inr (_, goes) ↦ inr (
            domain,
            subst (λ h. DomainMatches p h entry.domain_value) (sym origin_host)
                ((domain_matches-DomainMatches p a.host entry.domain_value).0 m),
            goes,
          )
        ]
      ]

  is_expired_earlier :
      (c : Cookie) → now ≤ later → is_expired later c ≡ false → is_expired now c ≡ false
  unfolding is_expired
  is_expired_earlier c h e = ground arith

  Has-replace : (entry : CookieWithContext) (jar : CookieJar) → Has entry (replace entry jar).1
  unfolding replace
  Has-replace entry [] = inl refl
  Has-replace entry (other ∷ more) = ground (arith, Has-replace entry more)

  Has-store :
      (entry : CookieWithContext) (jar : CookieJar)
      → is_expired now entry.cookie ≡ false
      → Has entry (store now entry jar).1
  unfolding store
  Has-store entry jar h =
      Has-filter (λ e. not (is_expired now e.cookie)) entry (replace entry jar).1 (ground arith)
        (Has-replace entry jar)

  Accepted-Applies :
      (cookie : Cookie) (uri : Uri) (entry : CookieWithContext)
      → Accepted p now cookie uri entry
      → cookie.path ≡ none
      → starts_with uri.path slash ≡ true
      → (cookie.secure ≡ true → is_https uri ≡ true)
      → is_expired later cookie ≡ false
      → Applies p later entry uri
  Accepted-Applies cookie uri entry a no_path absolute secure fresh =
      let at : a.host ≡ or_empty (uri_host uri) = sym (ap or_empty a.from) in
      let named : entry.cookie.domain ≡ cookie.domain = ap (λ (c : Cookie). c.domain) a.same in
      record {
        secure = λ s. secure (ap (λ (c : Cookie). c.secure) (sym a.same) ∙ s);
        host = subst (HostApplies p later entry) at (host_applies a.host named a.domain);
        path = elim a.path [
          | inl (_, e) ↦ path_matches-default_path uri entry.path_value absolute e
          | inr e ↦ absurd (cc (e, no_path))
        ];
        unexpired = ap (is_expired later) a.same ∙ fresh;
      }
    where
      host_applies :
          (host : Bytes)
          → entry.cookie.domain ≡ cookie.domain
          → ((cookie.domain ≡ none) × (entry.domain_value ≡ host))
            ⊎ ((cookie.domain ≡ some entry.domain_value)
                × (domain_matches p host entry.domain_value ≡ ok true)
                × (contains entry.domain_value b'.' ≡ true)
                × (p.is_public_suffix entry.domain_value ≡ false))
          → HostApplies p later entry host
      host_applies host named (inl (missing, same)) =
          inl (named ∙ missing, rw same (eq_ignore_ascii_case_refl host))
      host_applies host named (inr (domain, m, _, _)) = inr (
        λ missing. cc (domain, missing, named),
        (domain_matches-DomainMatches p host entry.domain_value).0 m,
      )

  -- What a response sets comes back with the next request: a cookie with no path of its own that
  -- the jar takes from a URI with an absolute path is among the cookies for that URI until it
  -- expires, unless it is for HTTPS only and the URI is not, or the query for the cookies panics.
  pub set-get_for_uri :
      (cookie : Cookie) (uri : Uri) (jar new : CookieJar) (old : Option Cookie)
      (cookies : List Cookie)
      → set p now cookie uri jar ≡ ok (old, new)
      → get_for_uri p later new uri ≡ ok cookies
      → cookie.path ≡ none
      → starts_with uri.path slash ≡ true
      → (cookie.secure ≡ true → is_https uri ≡ true)
      → now ≤ later
      → is_expired later cookie ≡ false
      → Has cookie cookies
  unfolding set
  set-get_for_uri cookie uri jar new old cookies h g no_path absolute secure order fresh =
      let (entry, made, stored) = >>=-eq-ok (with_context p now cookie uri) _ h in
      let a = with_context-Accepted p now cookie uri entry made in
      let kept : (store now entry jar).1 ≡ new = ground arith in
      let still : is_expired now entry.cookie ≡ false =
        ap (is_expired now) a.same ∙ is_expired_earlier cookie order fresh in
      subst (λ c. Has c cookies) a.same
        (get_for_uri-Has p later new uri cookies entry g
          (subst (Has entry) kept (Has-store entry jar still))
          (Accepted-Applies cookie uri entry a no_path absolute secure fresh))

  -- A cookie whose domain differs from the host by more than ASCII case, while Unicode lower case
  -- makes them one, makes the call panic.
  pub set_panics :
      (cookie : Cookie) (uri : Uri) (jar : CookieJar) (host domain : Bytes)
      → uri_host uri ≡ some host
      → cookie.domain ≡ some domain
      → eq_ignore_ascii_case domain host ≡ false
      → p.to_lowercase host ≡ p.to_lowercase domain
      → set p now cookie uri jar ≡ panic
  unfolding set with_context check_domain lift
  set_panics cookie uri jar host domain at own differ same =
      ground (arith, (domain_matches_panics p host domain).1 (differ, same))
