-- ===== src/Client/Chain/Sends.antt =====
-- What the servers see of a call of `HttpClient::send_async_inner` of src/client.rs, over all redirects
-- and through all interceptors of a client that `HttpClientBuilder::build` made.
use isahc.Prelude.{
  ◌+◌, ◌≤◌, ◌≡◌, refl, sym, ap, subst, ◌∙◌, ◌⊎◌, inl, inr, Bool, true, false, not, ◌||◌, Option,
  none, some, List, [], ◌∷◌, length, All, arith,
}
use isahc.Prelude.Bytes.{Bytes, bytes_eq, codes}
use isahc.Prelude.Outcome.{Outcome, ok}
use isahc.Prelude.Has.{All-map}
use isahc.Http.{HeaderMap, HeaderLaws, HeaderName}
use isahc.Error.{ErrorKind}
use isahc.Request.{Request, Response}
use isahc.Config.{RequestConfig, merge}
use isahc.Config.Options.{Opt}
use isahc.Tls.{TlsConfigBuilder, build_tls}
use isahc.Tls.Options.{verify_peer, verify_host}
use isahc.Cookies.Interceptor.{World, cookie_name}
use isahc.Redirect.Uris.{is_same_authority}
use isahc.Redirect.Uris.Laws.{SameOrigin, is_same_authority-SameOrigin}
use isahc.Redirect.Follow.{policy_of}
use isahc.Redirect.Follow.Hops.{is_sensitive}
use isahc.Redirect.Follow.Runs.{most_sends, intercept-eq-some}
use isahc.Redirect.Follow.Leaks.{Confined, intercept-Confined, intercept-config}
use isahc.Client.{populate}
use isahc.Client.Gather.{for_origin}
use isahc.Client.Verified.{create_easy_handle-verifies}
use isahc.Client.Builder.{HttpClient, HttpClientBuilder, build}
use isahc.Client.Chain.{Surroundings, replies, world_after, send_async_inner}
use isahc.Client.Chain.Given.{filled}
use isahc.Client.Chain.Hop.{built_layers}
use isahc.Client.Chain.Wire.{
  is_sensitive-ne-agent, build-request_config, build-layers, wire-All, wire-length,
}

-- The headers by which a user is known to a server or a proxy.
abbrev pub authenticates : HeaderName → Bool
authenticates name =
    bytes_eq (codes "authorization") name
    || bytes_eq (codes "cookie") name
    || bytes_eq (codes "cookie2") name
    || bytes_eq (codes "proxy-authorization") name
    || bytes_eq (codes "www-authenticate") name

authenticates-is_sensitive :
    (name : HeaderName) → authenticates name ≡ true → is_sensitive name ≡ true
authenticates-is_sensitive name e = ground arith

-- The configuration of a request, completed by that of the client.
abbrev pub completed : Option RequestConfig → RequestConfig → RequestConfig
completed none defaults = defaults
completed (some config) defaults = merge config defaults

module _ (h : HeaderMap) (laws : HeaderLaws h) (around : Surroundings h) (is_spawned : Bool)
    (b : HttpClientBuilder h) (client : HttpClient h)
    (is_built : build around.texts h is_spawned b ≡ ok client) where
  layers : client.interceptors ≡ built_layers h laws around client b.cookie_jar b.default_headers
  layers = build-layers h laws around is_spawned b client is_built

  -- Where a header comes from that may not leave the authority of the request: from the client, or
  -- from the request, to whose authority it goes.
  abbrev pub Kept : HeaderName → Request h → List Opt × Request h → Type 0
  Kept name request (opts, given) =
      (h.get_all name given.headers ≡ h.get_all name b.default_headers)
      ⊎ ((h.get_all name given.headers ≡ h.get_all name request.headers)
          × SameOrigin request.uri given.uri)

  filled-cases :
      (own defaults : List Bytes) → (filled own defaults ≡ defaults) ⊎ (filled own defaults ≡ own)
  filled-cases [] defaults = inl refl
  filled-cases (v ∷ own) defaults = inr refl

  -- Whatever the servers answer and whatever redirects are followed: a header of the request that
  -- authenticates the user, other than `Cookie`, is given to curl for addresses of the request's own
  -- scheme, host and port only. Any other request has the values that the client's default headers
  -- have for it.
  pub send_async_inner-Kept :
      (request : Request h) (world : World h) (sent : List (Request h))
      (outcome : Outcome ErrorKind (Response h)) (name : HeaderName)
      → authenticates name ≡ true
      → bytes_eq cookie_name name ≡ false
      → world.wire ≡ []
      → send_async_inner h around client request world ≡ some (sent, outcome)
      → All (Kept name request) (world_after h around client world sent).wire
  unfolding send_async_inner populate
  send_async_inner-Kept request world sent outcome name a c empty ran =
      let s = authenticates-is_sensitive name a in
      wire-All h laws around client b.cookie_jar b.default_headers layers
        (Confined around.urls h (replies h around client world) name
          (populate around.texts h client.request_config request))
        (Kept name request) world sent
        (λ r w opts given confined g.
          kept r given confined (g.headers name c (is_sensitive-ne-agent name s))
            (ap (λ u. is_same_authority request.uri u) g.uri))
        (intercept-Confined around.urls h (replies h around client world) laws _ sent outcome name s
          ran)
        (subst (All (Kept name request)) (sym empty) tt)
    where
      kept :
          (r given : Request h)
          → Confined around.urls h (replies h around client world) name request r
          → h.get_all name given.headers
            ≡ filled (h.get_all name r.headers) (h.get_all name b.default_headers)
          → is_same_authority request.uri given.uri ≡ is_same_authority request.uri r.uri
          → Kept name request ([], given)
      kept r given (inl gone) headers same_uri = inl (headers ∙ rw gone refl)
      kept r given (inr (same, here)) headers same_uri =
          elim (filled-cases (h.get_all name r.headers) (h.get_all name b.default_headers)) [
            | inl e ↦ inl (headers ∙ e)
            | inr e ↦ inr (
              headers ∙ e ∙ same,
              is_same_authority-SameOrigin request.uri given.uri (same_uri ∙ here),
            )
          ]

  -- A configured request whose TLS configuration comes from `tls`, be it its own or the client's: at
  -- every redirect, to whatever server, curl is told to verify the certificate and the name as far as
  -- `tls` accepts no invalid ones.
  pub send_async_inner-verifies :
      (request : Request h) (world : World h) (sent : List (Request h))
      (outcome : Outcome ErrorKind (Response h)) (tls : TlsConfigBuilder)
      → (completed request.extensions.request_config b.request_config).tls_config
        ≡ some (build_tls tls)
      → world.wire ≡ []
      → send_async_inner h around client request world ≡ some (sent, outcome)
      → All
          (λ given.
            for_origin given.0
            ≡ verify_peer (not tls.danger_accept_invalid_certs)
              ∷ verify_host (not tls.danger_accept_invalid_hosts)
              ∷ [])
          (world_after h around client world sent).wire
  unfolding send_async_inner populate
  send_async_inner-verifies request world sent outcome tls t empty ran =
      wire-All h laws around client b.cookie_jar b.default_headers layers
        (λ r. r.extensions.request_config ≡ some config)
        (λ given.
          for_origin given.0
          ≡ verify_peer (not tls.danger_accept_invalid_certs)
            ∷ verify_host (not tls.danger_accept_invalid_hosts)
            ∷ [])
        world sent
        (λ r w opts given c g.
          create_easy_handle-verifies around.texts h around.features client.client_config
            around.debug config given opts tls (ap (λ e. e.request_config) g.extensions ∙ c) t
            g.options)
        (All-map _ _ sent (λ r e. e ∙ populated)
          (intercept-config around.urls h (replies h around client world) laws _ sent outcome ran))
        (subst (All _) (sym empty) tt)
    where
      config : RequestConfig
      config = completed request.extensions.request_config b.request_config

      configured :
          (own : Option RequestConfig) (defaults : RequestConfig)
          → elim own [ none ↦ some defaults | some c ↦ some (merge c defaults) ]
            ≡ some (completed own defaults)
      configured none defaults = refl
      configured (some c) defaults = refl

      populated :
          (populate around.texts h client.request_config request).extensions.request_config
          ≡ some config
      populated =
          configured request.extensions.request_config client.request_config
          ∙ ap (λ d. some (completed request.extensions.request_config d))
              (build-request_config h laws around is_spawned b client is_built)

  -- A call ends, whatever the servers answer, and curl is given at most as many requests for it as
  -- its policy allows: one without redirects, and one more than the limit with them.
  pub send_async_inner-bounded :
      (request : Request h) (world : World h)
      → (sent : List (Request h)) × (outcome : Outcome ErrorKind (Response h)) × (send_async_inner h
            around client request world
          ≡ some (sent, outcome))
        × (length (world_after h around client world sent).wire
            ≤ most_sends (policy_of h (populate around.texts h b.request_config request))
              + length world.wire)
  unfolding send_async_inner
  send_async_inner-bounded request world =
      let (sent, outcome, ran, few) =
        intercept-eq-some around.urls h (replies h around client world) laws
          (populate around.texts h client.request_config request) in
      let given =
        wire-length h laws around client b.cookie_jar b.default_headers layers world sent in
      let config = build-request_config h laws around is_spawned b client is_built in
      let same = ap (λ c. most_sends (policy_of h (populate around.texts h c request))) config in
      (sent, outcome, ran, omega (arith, few, given, same))
