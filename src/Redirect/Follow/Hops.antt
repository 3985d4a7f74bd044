-- ===== src/Redirect/Follow/Hops.antt =====
-- One hop of src/redirect.rs: from a request and its response to the request that follows.
use isahc.Prelude.{
  ℕ, ◌≤◌, ◌<◌, ◌≡◌, refl, ap, ◌⊎◌, inl, inr, Bool, true, false, not, ◌&&◌, ◌||◌, none, some, List,
  [], ◌∷◌, any, arith, Bool-cases, Option-cases, leb, ◌==◌, if◌then◌else◌,
}
use isahc.Prelude.Bytes.{Bytes, codes, bytes_eq}
use isahc.Prelude.Outcome.{ok, err}
use isahc.Http.{Uri, Method, HeaderMap, HeaderLaws, HeaderName}
use isahc.Error.{too_many_redirects, request_body_not_rewindable}
use isahc.Body.{reset}
use isahc.Request.{Request, Response, Extensions, Builder, to_builder, with_body}
use isahc.Redirect.Uris.{Urls, create_referer, is_same_authority}
use isahc.Redirect.Follow.{
  sensitive_headers, referer_name, remove_all, scrub_sensitive_headers, set_method, set_referer,
  leave_authority, redirected, body_or_default, get_redirect_location, done, again, handle,
}

abbrev pub is_sensitive : HeaderName → Bool
is_sensitive name = any (λ s. bytes_eq s name) sensitive_headers

-- 301, 302 and 303 turn every method into GET.
abbrev pub next_method : ℕ → Method → Method
next_method status method =
    if status == 301 || status == 302 || status == 303 then codes "GET" else method

-- The values that a header has after a hop: none if it is sensitive and the authority changes, and
-- a referer of its own if one is to be made.
abbrev pub next_values : Urls → Bool → Uri → Uri → HeaderName → List Bytes → List Bytes
next_values urls auto_referer uri location name values =
    if not (is_same_authority uri location) && is_sensitive name
    then []
    else if auto_referer && bytes_eq referer_name name
    then elim (create_referer urls uri location) [ none ↦ values | some referer ↦ referer ∷ [] ]
    else values

pub record Hop (urls : Urls) (h : HeaderMap) (auto_referer : Bool) (base : Uri)
    (request : Request h) (response : Response h) (location : Uri) (next : Request h) : Type 0 where
  pub uri : next.uri ≡ location
  pub method : next.method ≡ next_method response.status request.method
  pub version : next.version ≡ request.version
  pub headers :
      (name : HeaderName)
      → h.get_all name next.headers
        ≡ next_values urls auto_referer base location name (h.get_all name request.headers)
  pub config : next.extensions.request_config ≡ request.extensions.request_config
  pub cookie_jar : next.extensions.cookie_jar ≡ request.extensions.cookie_jar
  pub authentication : next.extensions.authentication ≡ none
  pub body : reset (body_or_default response.request_body) ≡ (true, next.body)

module _ (h : HeaderMap) (laws : HeaderLaws h) where
  get_all-remove_all :
      (names : List HeaderName) (name : HeaderName) (map : h.Map)
      → h.get_all name (remove_all h names map)
        ≡ (if any (λ s. bytes_eq s name) names then [] else h.get_all name map)
  unfolding remove_all
  get_all-remove_all [] name map = refl
  get_all-remove_all (n ∷ names) name map =
      ground (arith, get_all-remove_all names name (h.remove n map), laws.get_all-remove n name map)

module _ (urls : Urls) (h : HeaderMap) (laws : HeaderLaws h) where
  get_all-set_referer :
      (auto_referer : Bool) (uri location : Uri) (name : HeaderName) (builder : Builder h)
      → h.get_all name (set_referer urls h auto_referer uri location builder).headers ≡ (
          if auto_referer && bytes_eq referer_name name
          then elim (create_referer urls uri location) [
            | none ↦ h.get_all name builder.headers
            | some referer ↦ referer ∷ []
          ]
          else h.get_all name builder.headers)
  unfolding set_referer
  get_all-set_referer false uri location name builder = refl
  get_all-set_referer true uri location name builder =
      elim (Option-cases (create_referer urls uri location)) [
        | inl e ↦ rw e (ground arith)
        | inr (referer, e) ↦ rw e (laws.get_all-insert referer_name name referer builder.headers)
      ]

  get_all-leave_authority :
      (uri location : Uri) (name : HeaderName) (builder : Builder h)
      → h.get_all name (leave_authority h uri location builder).headers ≡ (
          if not (is_same_authority uri location) && is_sensitive name
          then []
          else h.get_all name builder.headers)
  unfolding leave_authority scrub_sensitive_headers
  get_all-leave_authority uri location name builder =
      elim (Bool-cases (is_same_authority uri location)) [
        | inl e ↦ rw e refl
        | inr e ↦ rw e (get_all-remove_all h laws sensitive_headers name builder.headers)
      ]

  set_method-headers :
      (status : ℕ) (builder : Builder h) → (set_method h status builder).headers ≡ builder.headers
  unfolding set_method
  set_method-headers status builder = ground arith

  redirected-method :
      (auto_referer : Bool) (uri location : Uri) (status : ℕ) (request : Request h)
      → (redirected urls h auto_referer uri location status request).method
        ≡ next_method status request.method
  unfolding redirected leave_authority set_method set_referer to_builder
  redirected-method auto_referer uri location status request = ground arith

  redirected-version :
      (auto_referer : Bool) (uri location : Uri) (status : ℕ) (request : Request h)
      → (redirected urls h auto_referer uri location status request).version ≡ request.version
  unfolding redirected leave_authority set_method set_referer to_builder
  redirected-version auto_referer uri location status request = ground arith

  redirected-extensions :
      (auto_referer : Bool) (uri location : Uri) (status : ℕ) (request : Request h)
      → (redirected urls h auto_referer uri location status request).extensions
        ≡ record request.extensions { authentication = none }
  unfolding redirected leave_authority set_method set_referer to_builder
  redirected-extensions auto_referer uri location status request = ground arith

  redirected-headers :
      (auto_referer : Bool) (uri location : Uri) (status : ℕ) (request : Request h)
      (name : HeaderName)
      → h.get_all name (redirected urls h auto_referer uri location status request).headers
        ≡ next_values urls auto_referer uri location name (h.get_all name request.headers)
  unfolding redirected to_builder
  redirected-headers auto_referer uri location status request name =
      let referred = set_referer urls h auto_referer uri location (to_builder request) in
      rw
        (
          get_all-leave_authority uri location name (set_method h status referred),
          set_method-headers status referred,
          get_all-set_referer auto_referer uri location name (to_builder request),
        )
        refl

  abbrev next_request : Bool → Uri → Uri → Request h → Response h → Request h
  next_request auto_referer uri location request response =
      with_body
        (record (redirected urls h auto_referer uri location response.status request) {
          uri = location;
        })
        (reset (body_or_default response.request_body)).1

  next_request-Hop :
      (auto_referer : Bool) (uri location : Uri) (request : Request h) (response : Response h)
      → (reset (body_or_default response.request_body)).0 ≡ true
      → Hop urls h auto_referer uri request response location
          (next_request auto_referer uri location request response)
  next_request-Hop auto_referer uri location request response rewound =
      let extensions = redirected-extensions auto_referer uri location response.status request in
      record {
        uri = refl;
        method = redirected-method auto_referer uri location response.status request;
        version = redirected-version auto_referer uri location response.status request;
        headers = redirected-headers auto_referer uri location response.status request;
        config = ap (λ (e : Extensions). e.request_config) extensions;
        cookie_jar = ap (λ (e : Extensions). e.cookie_jar) extensions;
        authentication = ap (λ (e : Extensions). e.authentication) extensions;
        body = ap (λ (b : Bool). (b, (reset (body_or_default response.request_body)).1)) rewound;
      }

  -- What the body of the loop does with a response, on every branch: it returns a response that is no
  -- redirect, with the address that gave it; it refuses a redirect beyond the limit, or one whose
  -- request has a body that cannot be rewound; and else it goes on with the request that the hop
  -- makes. It never panics.
  pub handle-Hop :
      (auto_referer : Bool) (limit redirect_count : ℕ) (uri : Uri) (request : Request h)
      (response : Response h)
      → ((get_redirect_location urls h uri response ≡ none)
          × (handle urls h auto_referer limit redirect_count uri request response
              ≡ ok (done (record response { effective_uri = some uri }))))
        ⊎ ((location : Uri) × (get_redirect_location urls h uri response ≡ some location)
            × (((limit ≤ redirect_count)
                  × (handle urls h auto_referer limit redirect_count uri request response
                      ≡ err too_many_redirects))
                ⊎ (((redirect_count < limit)
                      × ((reset (body_or_default response.request_body)).0 ≡ false)
                      × (handle urls h auto_referer limit redirect_count uri request response
                          ≡ err request_body_not_rewindable))
                    ⊎ ((redirect_count < limit)
                        × (next : Request h) × Hop urls h auto_referer uri request response location
                            next
                        × (handle urls h auto_referer limit redirect_count uri request response
                            ≡ ok (again location next))))))
  unfolding handle
  handle-Hop auto_referer limit redirect_count uri request response =
      elim (Option-cases (get_redirect_location urls h uri response)) [
        | inl e ↦ inl (e, rw (handle, e) refl)
        | inr (location, e) ↦ inr (
          location,
          e,
          elim (Bool-cases (leb limit redirect_count)) [
            | inl over ↦ inl (ground arith, rw (handle, e, over) refl)
            | inr under ↦ inr (elim (Bool-cases (reset (body_or_default response.request_body)).0) [
              | inl rewound ↦ inr (
                ground arith,
                next_request auto_referer uri location request response,
                next_request-Hop auto_referer uri location request response rewound,
                rw (handle, e, under, rewound) refl,
              )
              | inr stuck ↦ inl (ground arith, stuck, rw (handle, e, under, stuck) refl)
            ])
          ],
        )
      ]
