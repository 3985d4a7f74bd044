-- ===== src/Client/Chain/Cookies.antt =====
-- Which cookies the servers see of a call of `HttpClient::send_async_inner` of src/client.rs.
use isahc.Prelude.{
  ℕ, ◌≡◌, refl, sym, ap, subst, ◌∙◌, ◌⊎◌, inl, inr, Bool, true, Option, none, some, List, [], map,
  All, or_else, unwrap_or,
}
use isahc.Prelude.Bytes.{Bytes, bytes_eq}
use isahc.Prelude.Outcome.{Outcome, ok}
use isahc.Prelude.Has.{All-both}
use isahc.Http.{HeaderMap, HeaderLaws, first}
use isahc.Error.{ErrorKind}
use isahc.Request.{Request, Response}
use isahc.Config.Options.{Opt}
use isahc.Cookies.Cookie.{Cookie}
use isahc.Cookies.Jar.{get_for_uri}
use isahc.Cookies.Interceptor.{World, cookie_name, pair_of}
use isahc.Cookies.Interceptor.Header.{cookie_values, join, parts}
use isahc.Redirect.Uris.{is_same_authority}
use isahc.Redirect.Uris.Laws.{SameOrigin, is_same_authority-SameOrigin}
use isahc.Redirect.Follow.Hops.{is_sensitive}
use isahc.Redirect.Follow.Leaks.{Confined, intercept-Confined, intercept-cookie_jar}
use isahc.Client.{populate}
use isahc.Client.Builder.{HttpClient, HttpClientBuilder, build}
use isahc.Client.Chain.{Surroundings, replies, world_after, send_async_inner}
use isahc.Client.Chain.Given.{filled, Given, WithCookies}
use isahc.Client.Chain.Wire.{build-layers, wire-AllFrom, AllFrom-Place, Place}
use isahc.Client.Chain.Hop.{begun}

module _ (h : HeaderMap) (laws : HeaderLaws h) (around : Surroundings h) (is_spawned : Bool)
    (b : HttpClientBuilder h) (client : HttpClient h)
    (is_built : build around.texts h is_spawned b ≡ ok client) where
  -- Where the `Cookie` header of a request comes from that goes to another authority: from the jar
  -- that the request names or that the client has, as it is in the world `w`, of the cookies for the
  -- address that the request goes to.
  abbrev pub FromJar : World h → Option ℕ → Request h → List Bytes → Type 0
  FromJar w none given values = values ≡ []
  FromJar w (some handle) given values =
      (cookies : List Cookie) × (get_for_uri around.platform (around.now w) (w.jars handle)
          given.uri
        ≡ ok cookies)
      × (values ≡ cookie_values around.texts (join (map pair_of cookies)))

  -- What curl is given is for one of the requests that are sent: after those before it, and after what
  -- other calls have done to the jars by then.
  abbrev pub CookiesKept : Request h → World h → List (Request h) → List Opt × Request h → Type 0
  CookiesKept request world sent given =
      SameOrigin request.uri given.1.uri
      ⊎ ((before : List (Request h)) × (next : Request h) × Place sent before next
          × (given.1.uri ≡ next.uri)
          × (values : List Bytes) × FromJar
              (begun h laws around client (world_after h around client world before))
              (or_else request.extensions.cookie_jar b.cookie_jar) given.1 values
          × (h.get_all cookie_name given.1.headers
              ≡ filled values (h.get_all cookie_name b.default_headers)))

  WithCookies-FromJar :
      (jar : Option ℕ) (w : World h) (r given : Request h) (values : List Bytes)
      → h.get_all cookie_name r.headers ≡ []
      → given.uri ≡ r.uri
      → WithCookies h laws around client jar w r values
      → FromJar w jar given values
  WithCookies-FromJar none w r given values gone u e = e ∙ gone
  WithCookies-FromJar (some handle) w r given values gone u (cookies, found, e) = (
    cookies,
    ap (λ x. get_for_uri around.platform (around.now w) (w.jars handle) x) u ∙ found,
    e
        ∙ ap (λ own. cookie_values around.texts (join (parts (unwrap_or (first own) []) cookies)))
            gone,
  )

  -- Whatever the servers answer and whatever redirects are followed: the `Cookie` header of the request
  -- itself goes to its own scheme, host and port only. To any other, curl is given the cookies that the jar of the
  -- request, or else of the client, has for that address when the request there is sent, and no
  -- others; where these make no header, it is given the client's default header.
  pub send_async_inner-cookies :
      (request : Request h) (world : World h) (sent : List (Request h))
      (outcome : Outcome ErrorKind (Response h))
      → world.wire ≡ []
      → send_async_inner h around client request world ≡ some (sent, outcome)
      → All (CookiesKept request world sent) (world_after h around client world sent).wire
  unfolding send_async_inner populate
  send_async_inner-cookies request world sent outcome empty ran =
      wire-AllFrom h laws around client b.cookie_jar b.default_headers
        (build-layers h laws around is_spawned b client is_built)
        (λ before r. IsOurs r × Place sent before r) (CookiesKept request world sent) world sent
        (λ before r opts given p g. kept before r opts given p.0.0 p.0.1 p.1 g)
        (AllFrom-Place IsOurs sent [] sent refl (
          All-both _ _ sent
            (intercept-Confined around.urls h (replies h around client world) laws _ sent outcome
              cookie_name cookie_name-is_sensitive ran)
            (intercept-cookie_jar around.urls h (replies h around client world) laws _ sent outcome
              ran)))
        (subst (All (CookiesKept request world sent)) (sym empty) tt)
    where
      cookie_name-is_sensitive : is_sensitive cookie_name ≡ true
      cookie_name-is_sensitive = unfold bytes_eq in refl

      IsOurs : Request h → Type 0
      IsOurs r =
          Confined around.urls h (replies h around client world) cookie_name
            (populate around.texts h client.request_config request) r
          × (r.extensions.cookie_jar ≡ request.extensions.cookie_jar)

      kept :
          (before : List (Request h)) (r : Request h) (opts : List Opt) (given : Request h)
          → Confined around.urls h
              (replies h around client world)
              cookie_name
              (populate around.texts h client.request_config request)
              r
          → r.extensions.cookie_jar ≡ request.extensions.cookie_jar
          → Place sent before r
          → Given h laws around client b.cookie_jar b.default_headers
              (begun h laws around client (world_after h around client world before))
              r
              given
              opts
          → CookiesKept request world sent (opts, given)
      kept before r opts given (inr (same, here)) jar place g = inl (
          is_same_authority-SameOrigin request.uri given.uri
            (ap (λ u. is_same_authority request.uri u) g.uri ∙ here))
      kept before r opts given (inl gone) jar place g =
          let (values, from, header) = g.cookies in
          let w = begun h laws around client (world_after h around client world before) in
          inr (
            before,
            r,
            place,
            g.uri,
            values,
            WithCookies-FromJar (or_else request.extensions.cookie_jar b.cookie_jar) w r given
                values gone g.uri
                (subst (λ j. WithCookies h laws around client (or_else j b.cookie_jar) w r values)
                  jar from),
            header,
          )
