-- ===== src/Redirect/Follow/Leaks.antt =====
-- Which headers and which configuration reach whom, over the redirects of src/redirect.rs.
use isahc.Prelude.{
  ◌≡◌, refl, sym, subst, ◌∙◌, ◌⊎◌, inl, inr, Bool, true, false, ◌&&◌, none, some, if◌then◌else◌,
  List, [], ◌∷◌, All, Bool-cases,
}
use isahc.Prelude.Bytes.{Bytes, bytes_eq, bytes_eq_iff}
use isahc.Prelude.Outcome.{Outcome}
use isahc.Http.{Uri, HeaderMap, HeaderLaws, HeaderName}
use isahc.Error.{ErrorKind}
use isahc.Request.{Request, Response}
use isahc.Redirect.Uris.{Urls, create_referer, is_same_authority}
use isahc.Redirect.Uris.Laws.{is_same_authority_refl, is_same_authority_trans}
use isahc.Redirect.Follow.{referer_name, intercept, auto_referer_of}
use isahc.Redirect.Follow.Hops.{is_sensitive, next_values, Hop}
use isahc.Redirect.Follow.Chain.{Chain}
use isahc.Redirect.Follow.Runs.{intercept-Chain}

-- The referer is no sensitive header.
is_sensitive-ne-referer :
    (name : HeaderName) → is_sensitive name ≡ true → bytes_eq referer_name name ≡ false
is_sensitive-ne-referer name s = elim (Bool-cases (bytes_eq referer_name name)) [
  | inl e ↦ absurd (
      not_referer
        (subst (λ n. is_sensitive n ≡ true) (sym ((bytes_eq_iff referer_name name).0 e)) s))
  | inr e ↦ e
]
  where
    not_referer : is_sensitive referer_name ≡ true → ⊥
    not_referer e = unfold bytes_eq in cc e

-- A sensitive header keeps its values over a hop that stays at the authority.
next_values_kept :
    (urls : Urls) (auto_referer : Bool) (uri location : Uri) (name : HeaderName)
    (values : List Bytes)
    → is_sensitive name ≡ true
    → is_same_authority uri location ≡ true
    → next_values urls auto_referer uri location name values ≡ values
next_values_kept urls auto_referer uri location name values s e =
    rw (e, is_sensitive-ne-referer name s) (no_referer auto_referer)
  where
    no_referer :
        (auto : Bool)
        → (if auto && false
            then elim (create_referer urls uri location) [
              | none ↦ values
              | some referer ↦ referer ∷ []
            ]
            else values)
          ≡ values
    no_referer true = refl
    no_referer false = refl

module _ (urls : Urls) (h : HeaderMap)
    (send : List (Request h) → Request h → Outcome ErrorKind (Response h)) where
  -- What a request in the chain has of a header of the first request: nothing; or what the first
  -- request has, at the authority of the first request.
  abbrev pub Confined : HeaderName → Request h → Request h → Type 0
  Confined name origin request =
      (h.get_all name request.headers ≡ [])
      ⊎ ((h.get_all name request.headers ≡ h.get_all name origin.headers)
          × (is_same_authority origin.uri request.uri ≡ true))

  Hop-Confined :
      (auto_referer : Bool) (name : HeaderName) (origin last next : Request h)
      (response : Response h) (location : Uri)
      → is_sensitive name ≡ true
      → Hop urls h auto_referer last.uri last response location next
      → Confined name origin last
      → Confined name origin next
  Hop-Confined auto_referer name origin last next response location s hop c =
      elim (Bool-cases (is_same_authority last.uri location)) [
        | inr e ↦ inl (hop.headers name ∙ rw (e, s) refl)
        | inl e ↦
            let kept =
              hop.headers name
              ∙ next_values_kept urls auto_referer last.uri location name
                  (h.get_all name last.headers) s e in
            elim c [
              | inl gone ↦ inl (kept ∙ gone)
              | inr (same, here) ↦ inr (
                kept ∙ same,
                is_same_authority_trans origin.uri last.uri next.uri here
                    (subst (λ (u : Uri). is_same_authority last.uri u ≡ true) (sym hop.uri) e),
              )
            ]
      ]

  -- What holds of the first request and is kept by each hop holds of all requests.
  Chain-All :
      (auto_referer : Bool) (P : Request h → Type 0) (origin : Request h) (sent : List (Request h))
      → P origin
      → ((last next : Request h) (response : Response h) (location : Uri)
          → Hop urls h auto_referer last.uri last response location next
          → P last
          → P next)
      → Chain urls h send auto_referer origin sent
      → All P sent
  Chain-All auto_referer P origin [] p hops c = absurd c
  Chain-All auto_referer P origin (first ∷ []) p hops c = (subst P (sym c) p, tt)
  Chain-All auto_referer P origin (next ∷ last ∷ before) p hops (followed, c) =
      let rest = Chain-All auto_referer P origin (last ∷ before) p hops c in
      (hops last next followed.0 followed.1 followed.4 rest.0, rest)

  -- A request header that authenticates the user (`Authorization`, `Cookie`, `Cookie2`,
  -- `Proxy-Authorization`, `WWW-Authenticate`) goes to no other authority than that of the first
  -- request: each request that is sent has no such header, or has the first request's at an address
  -- of the first request's scheme, host and port.
  pub intercept-Confined :
      HeaderLaws h
      → (request : Request h) (sent : List (Request h)) (outcome : Outcome ErrorKind (Response h))
        (name : HeaderName)
      → is_sensitive name ≡ true
      → intercept urls h send request ≡ some (sent, outcome)
      → All (Confined name request) sent
  intercept-Confined laws request sent outcome name s ran =
      Chain-All (auto_referer_of h request) (Confined name request) request sent
        (inr (refl, is_same_authority_refl request.uri))
        (λ last next response location hop.
          Hop-Confined (auto_referer_of h request) name request last next response location s hop)
        (intercept-Chain urls h send laws request sent outcome ran)

  -- The configuration of the first request, with the credentials and the authentication schemes that
  -- it sets, goes along with every request of the chain, also to another authority.
  pub intercept-config :
      HeaderLaws h
      → (request : Request h) (sent : List (Request h)) (outcome : Outcome ErrorKind (Response h))
      → intercept urls h send request ≡ some (sent, outcome)
      → All (λ r. r.extensions.request_config ≡ request.extensions.request_config) sent
  intercept-config laws request sent outcome ran =
      Chain-All (auto_referer_of h request)
        (λ r. r.extensions.request_config ≡ request.extensions.request_config) request sent refl
        (λ last next response location hop kept. hop.config ∙ kept)
        (intercept-Chain urls h send laws request sent outcome ran)

  -- So does its jar.
  pub intercept-cookie_jar :
      HeaderLaws h
      → (request : Request h) (sent : List (Request h)) (outcome : Outcome ErrorKind (Response h))
      → intercept urls h send request ≡ some (sent, outcome)
      → All (λ r. r.extensions.cookie_jar ≡ request.extensions.cookie_jar) sent
  intercept-cookie_jar laws request sent outcome ran =
      Chain-All (auto_referer_of h request)
        (λ r. r.extensions.cookie_jar ≡ request.extensions.cookie_jar) request sent refl
        (λ last next response location hop kept. hop.cookie_jar ∙ kept)
        (intercept-Chain urls h send laws request sent outcome ran)
