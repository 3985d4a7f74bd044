-- ===== src/Client/Chain/Given.antt =====
-- What curl is given for a request behind the cookie interceptor of a client: the default headers of
-- src/default_headers.rs and the client's name, in `HttpClient::invoke` of src/client.rs.
use isahc.Prelude.{
  ℕ, ◌≡◌, refl, sym, ap, ◌∙◌, ◌⊎◌, inl, inr, false, Option, none, some, List, [], ◌∷◌, arith,
  Bool-cases, if◌then◌else◌, or_else, unwrap_or,
}
use isahc.Prelude.Bytes.{Bytes, codes, bytes_eq}
use isahc.Prelude.Outcome.{ok, Outcome-cases}
use isahc.Http.{HeaderMap, HeaderLaws, HeaderName, first, is_some_value, contains_key}
use isahc.Request.{Request}
use isahc.Config.Options.{Opt}
use isahc.Cookies.Cookie.{Cookie}
use isahc.Cookies.Jar.{get_for_uri}
use isahc.Cookies.Interceptor.{World, cookie_name}
use isahc.Cookies.Interceptor.Header.{cookie_values, join, parts}
use isahc.Client.{default_user_agent, add_defaults}
use isahc.Client.Defaults.{add_defaults-keys}
use isahc.Client.Easy.{create_easy_handle}
use isahc.Client.Builder.{HttpClient, default_headers_layer, default_headers_layers}
use isahc.Client.Chain.{Surroundings, invoke, context_send}

abbrev pub user_agent_name : HeaderName
user_agent_name = codes "user-agent"

-- The values of a header that a request has, or else those of the client.
abbrev pub filled : List Bytes → List Bytes → List Bytes
filled own defaults = if is_some_value own then own else defaults

List-cases {ℓ} :
    {A : Type ℓ} (xs : List A) → (xs ≡ []) ⊎ ((x : A) × (rest : List A) × (xs ≡ x ∷ rest))
List-cases [] = inl refl
List-cases (x ∷ xs) = inr (x, xs, refl)

module _ (h : HeaderMap) (laws : HeaderLaws h) (around : Surroundings h)
    (client : HttpClient h) where
  -- What a request has of the header `Cookie` behind the cookie interceptor.
  abbrev pub WithCookies : Option ℕ → World h → Request h → List Bytes → Type 0
  WithCookies none world request values = values ≡ h.get_all cookie_name request.headers
  WithCookies (some handle) world request values =
      (cookies : List Cookie) × (get_for_uri around.platform (around.now world) (world.jars handle)
          request.uri
        ≡ ok cookies)
      × (values
          ≡ cookie_values around.texts
              (join (parts (unwrap_or (first (h.get_all cookie_name request.headers)) []) cookies)))

  -- The request that curl is given for `request`, and its options.
  pub record Given (jar : Option ℕ) (defaults : h.Map) (world : World h) (request sent : Request h)
      (opts : List Opt) : Type 0 where
    pub uri : sent.uri ≡ request.uri
    pub extensions : sent.extensions ≡ request.extensions
    pub options :
        create_easy_handle around.texts h around.features client.client_config around.debug sent
        ≡ ok opts
    pub headers :
        (name : HeaderName)
        → bytes_eq cookie_name name ≡ false
        → bytes_eq user_agent_name name ≡ false
        → h.get_all name sent.headers
          ≡ filled (h.get_all name request.headers) (h.get_all name defaults)
    pub cookies :
        (values : List Bytes) × WithCookies
          (or_else request.extensions.cookie_jar jar)
          world
          request
          values
        × (h.get_all cookie_name sent.headers ≡ filled values (h.get_all cookie_name defaults))

  -- Curl is given nothing, or one request with this property.
  abbrev pub Puts : (Request h → List Opt → Type 0) → World h → World h → Type 0
  Puts is_given world next =
      (next.wire ≡ world.wire)
      ⊎ ((opts : List Opt) × (sent : Request h) × (next.wire ≡ (opts, sent) ∷ world.wire)
          × is_given sent opts)

  named : Request h → Request h
  named request = record request {
    headers = default_user_agent around.texts h around.user_agent request.headers;
  }

  get_all-default_user_agent :
      (name : HeaderName) (headers : h.Map)
      → bytes_eq user_agent_name name ≡ false
      → h.get_all name (default_user_agent around.texts h around.user_agent headers)
        ≡ h.get_all name headers
  unfolding default_user_agent
  get_all-default_user_agent name headers e =
      elim (Bool-cases (contains_key h user_agent_name headers)) [
        | inl has ↦ rw has refl
        | inr lacks ↦
            rw lacks
              (laws.get_all-insert user_agent_name name around.user_agent headers ∙ rw e refl)
      ]

  invoke-Puts :
      (request : Request h) (world : World h)
      → Puts
          (λ sent opts.
            (sent ≡ named request)
            × (create_easy_handle around.texts h around.features client.client_config around.debug
                  sent
                ≡ ok opts))
          world
          (invoke h around client request world).1
  unfolding named invoke default_user_agent
  invoke-Puts request world =
      elim (Outcome-cases (
        create_easy_handle around.texts h around.features client.client_config around.debug
          (named request))) [
            | inl (opts, e) ↦ inr (opts, named request, rw (invoke, e) refl, (refl, e))
            | inr (inl (x, e)) ↦ inl (rw (invoke, e) refl)
            | inr (inr e) ↦ inl (rw (invoke, e) refl)
          ]

  -- Names that the client's headers do not have.
  no_defaults :
      (defaults : h.Map) (name : HeaderName) → h.keys defaults ≡ [] → h.get_all name defaults ≡ []
  no_defaults defaults name e =
      let absent : is_some_value (h.get_all name defaults) ≡ false =
        sym (laws.keys_iff name defaults) ∙ rw e refl in
      ground (arith, absent)

  filled_nothing : (values : List Bytes) → filled values [] ≡ values
  filled_nothing [] = refl
  filled_nothing (v ∷ values) = refl

  -- Behind the cookie interceptor: the defaults fill up the headers of the request.
  abbrev pub Filled : h.Map → Request h → Request h → Type 0
  Filled defaults request sent =
      (sent.uri ≡ request.uri)
      × (sent.extensions ≡ request.extensions)
      × ((name : HeaderName)
          → bytes_eq user_agent_name name ≡ false
          → h.get_all name sent.headers
            ≡ filled (h.get_all name request.headers) (h.get_all name defaults))

  -- Behind the cookie interceptor, and set up for curl.
  abbrev pub FilledGiven : h.Map → Request h → Request h → List Opt → Type 0
  FilledGiven defaults request sent opts =
      Filled defaults request sent
      × (create_easy_handle around.texts h around.features client.client_config around.debug sent
          ≡ ok opts)

  prepared-Puts :
      (defaults : h.Map) (request prepared : Request h) (world : World h)
      → prepared.uri ≡ request.uri
      → prepared.extensions ≡ request.extensions
      → ((name : HeaderName)
          → h.get_all name prepared.headers
            ≡ filled (h.get_all name request.headers) (h.get_all name defaults))
      → Puts (FilledGiven defaults request) world (invoke h around client prepared world).1
  unfolding named
  prepared-Puts defaults request prepared world same_uri same_extensions headers =
      elim (invoke-Puts prepared world) [
        | inl same ↦ inl same
        | inr (opts, sent, put, (e, set)) ↦ inr (
          opts,
          sent,
          put,
          (
            (
              ap (λ (r : Request h). r.uri) e ∙ same_uri,
              ap (λ (r : Request h). r.extensions) e ∙ same_extensions,
              λ name other.
                  ap (λ (r : Request h). h.get_all name r.headers) e
                  ∙ get_all-default_user_agent name prepared.headers other
                  ∙ headers name,
            ),
            set,
          ),
        )
      ]

  with_defaults : h.Map → Request h → Request h
  with_defaults defaults request = record request {
    headers = add_defaults around.texts h defaults (h.keys defaults) request.headers;
  }

  context_send-defaults :
      (defaults : h.Map) (request : Request h) (world : World h)
      → ((h.keys defaults ≡ [])
          × (context_send h around client
                (default_headers_layers around.texts h defaults)
                request
                world
              ≡ invoke h around client request world))
        ⊎ (context_send h around client
              (default_headers_layers around.texts h defaults)
              request
              world
            ≡ invoke h around client (with_defaults defaults request) world)
  unfolding context_send with_defaults
  context_send-defaults defaults request world = elim (List-cases (h.keys defaults)) [
    | inl e ↦ inl (e, rw (default_headers_layers, e) refl)
    | inr (key, keys, e) ↦
        inr
          (ap (λ layers. context_send h around client layers request world) (one_layer key keys e))
  ]
    where
      one_layer :
          (key : HeaderName) (keys : List HeaderName)
          → h.keys defaults ≡ key ∷ keys
          → default_headers_layers around.texts h defaults ≡ default_headers_layer defaults ∷ []
      one_layer key keys e = rw (default_headers_layers, e) refl

  pub defaults-Puts :
      (defaults : h.Map) (request : Request h) (world : World h)
      → Puts
          (FilledGiven defaults request)
          world
          (context_send h around client
            (default_headers_layers around.texts h defaults)
            request
            world).1
  unfolding with_defaults
  defaults-Puts defaults request world = elim (context_send-defaults defaults request world) [
    | inl (e, bare) ↦ rw bare (
        prepared-Puts defaults request request world refl refl (λ name.
          sym (rw (no_defaults defaults name e) (filled_nothing (h.get_all name request.headers)))))
    | inr full ↦ rw full (
        prepared-Puts defaults request (with_defaults defaults request) world refl refl
          (λ name. add_defaults-keys around.texts h laws defaults request.headers name))
  ]
