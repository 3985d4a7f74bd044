-- ===== src/Client/Builder/Headers.antt =====
-- The default headers of `HttpClientBuilder` in src/client.rs, and what their errors do to `build`.
use isahc.Prelude.{
  ◌≡◌, refl, sym, ap, ◌∙◌, ◌⊎◌, inl, inr, Bool, true, false, none, some, List, [], ◌∷◌, ◌++◌, all,
  ◌&&◌, arith, Bool-cases, Option-cases, if◌then◌else◌, append-nil, append_assoc,
}
use isahc.Prelude.Bytes.{Bytes, bytes_eq}
use isahc.Prelude.Outcome.{ok, err}
use isahc.Http.{HeaderMap, HeaderLaws, HeaderText, HeaderName, contains_key}
use isahc.Client.{add_defaults}
use isahc.Client.Defaults.{add_defaults-keys}
use isahc.Error.{ErrorKind, client_initialization}
use isahc.Client.Builder.{
  HttpClient, HttpClientBuilder, cookie_layer, default_headers_layers, default_header,
  add_default_headers, set_default_headers, build,
}

module _ (texts : HeaderText) (h : HeaderMap) where
  -- Is the pair a name and a value of a header?
  abbrev pub is_header : Bytes × Bytes → Bool
  is_header (key, value) = elim (texts.to_header_name key) [
    | none ↦ false
    | some name ↦ texts.is_header_value value
  ]

  -- The values that pairs give to a name, in order.
  abbrev pub values_for : HeaderName → List (Bytes × Bytes) → List Bytes
  values_for name [] = []
  values_for name ((key, value) ∷ more) = elim (texts.to_header_name key) [
    | none ↦ values_for name more
    | some n ↦ if bytes_eq n name then value ∷ values_for name more else values_for name more
  ]

  default_header-error :
      (pair : Bytes × Bytes) (b : HttpClientBuilder h)
      → (default_header texts h pair.0 pair.1 b).error
        ≡ (if is_header pair then b.error else some client_initialization)
  unfolding default_header
  default_header-error pair b = ground arith

  add_default_headers-error :
      (pairs : List (Bytes × Bytes)) (b : HttpClientBuilder h)
      → (add_default_headers texts h pairs b).error
        ≡ (if all is_header pairs then b.error else some client_initialization)
  unfolding add_default_headers
  add_default_headers-error [] b = refl
  add_default_headers-error ((key, value) ∷ more) b =
      add_default_headers-error more (default_header texts h key value b)
      ∙ rw (default_header-error (key, value) b) (ground arith)

  add_default_headers-cookie_jar :
      (pairs : List (Bytes × Bytes)) (b : HttpClientBuilder h)
      → (add_default_headers texts h pairs b).cookie_jar ≡ b.cookie_jar
  unfolding add_default_headers
  add_default_headers-cookie_jar [] b = refl
  add_default_headers-cookie_jar ((key, value) ∷ more) b =
      add_default_headers-cookie_jar more (default_header texts h key value b) ∙ kept
    where
      kept : (default_header texts h key value b).cookie_jar ≡ b.cookie_jar
      kept = unfold default_header in ground arith

  build-err :
      (is_spawned : Bool) (b : HttpClientBuilder h) (e : ErrorKind)
      → b.error ≡ some e
      → build texts h is_spawned b ≡ err e
  unfolding build
  build-err is_spawned b e f = rw f refl

  build-unspawned :
      (b : HttpClientBuilder h) → b.error ≡ none → build texts h false b ≡ err client_initialization
  unfolding build
  build-unspawned b f = rw f refl

  build-ok :
      (b : HttpClientBuilder h)
      → b.error ≡ none
      → (client : HttpClient h) × (build texts h true b ≡ ok client)
        × (client.interceptors
            ≡ cookie_layer b.cookie_jar ∷ default_headers_layers texts h b.default_headers)
  unfolding build
  build-ok b f = (
    record {
      agent = b.agent_builder;
      client_config = b.client_config;
      request_config = b.request_config;
      interceptors = cookie_layer b.cookie_jar ∷ default_headers_layers texts h b.default_headers;
      cookie_jar = b.cookie_jar;
    },
    rw f refl,
    refl,
  )

  module _ (laws : HeaderLaws h) where
    default_header-get_all :
        (key value : Bytes) (b : HttpClientBuilder h) (name : HeaderName)
        → is_header (key, value) ≡ true
        → h.get_all name (default_header texts h key value b).default_headers
          ≡ h.get_all name b.default_headers ++ values_for name ((key, value) ∷ [])
    unfolding default_header
    default_header-get_all key value b name e = elim (Option-cases (texts.to_header_name key)) [
      | inl no_name ↦ ground (arith, e, no_name)
      | inr (n, named) ↦ ground (
        arith,
        e,
        named,
        laws.get_all-append n name value b.default_headers,
        append-nil (h.get_all name b.default_headers),
      )
    ]

    values_for-cons :
        (name : HeaderName) (pair : Bytes × Bytes) (more : List (Bytes × Bytes))
        → values_for name (pair ∷ more) ≡ values_for name (pair ∷ []) ++ values_for name more
    values_for-cons name (key, value) more = ground arith

    add_default_headers-get_all :
        (pairs : List (Bytes × Bytes)) (b : HttpClientBuilder h) (name : HeaderName)
        → all is_header pairs ≡ true
        → h.get_all name (add_default_headers texts h pairs b).default_headers
          ≡ h.get_all name b.default_headers ++ values_for name pairs
    unfolding add_default_headers
    add_default_headers-get_all [] b name e = sym (append-nil _)
    add_default_headers-get_all ((key, value) ∷ more) b name e =
        let both : (is_header (key, value) ≡ true) × (all is_header more ≡ true) =
          ground (arith, e) in
        add_default_headers-get_all more (default_header texts h key value b) name both.1
        ∙ ap (λ v. v ++ values_for name more) (default_header-get_all key value b name both.0)
        ∙ append_assoc (h.get_all name b.default_headers) (values_for name ((key, value) ∷ []))
            (values_for name more)
        ∙ ap (λ v. h.get_all name b.default_headers ++ v)
            (sym (values_for-cons name (key, value) more))

    -- A builder without an error that is given default headers: `build` returns the error of the
    -- initialisation of a client if one of them is no name or no value of a header, or if the agent
    -- cannot be spawned; otherwise a client, whose interceptor of default headers has for a name what
    -- the pairs say, all values in their order, whatever default headers the builder had before, and
    -- gives these to the headers of a request that do not have the name, and no others.
    pub set_default_headers-build :
        (is_spawned : Bool) (pairs : List (Bytes × Bytes)) (b : HttpClientBuilder h)
        (name : HeaderName) (headers : h.Map)
        → b.error ≡ none
        → (((all is_header pairs && is_spawned) ≡ false)
            × (build texts h is_spawned (set_default_headers texts h pairs b)
                ≡ err client_initialization))
          ⊎ (((all is_header pairs && is_spawned) ≡ true)
              × (defaults : h.Map) × (client : HttpClient h) × (build texts h is_spawned
                    (set_default_headers texts h pairs b)
                  ≡ ok client)
              × (client.interceptors
                  ≡ cookie_layer b.cookie_jar ∷ default_headers_layers texts h defaults)
              × (h.get_all name defaults ≡ values_for name pairs)
              × (h.get_all name (add_defaults texts h defaults (h.keys defaults) headers) ≡ (
                  if contains_key h name headers
                  then h.get_all name headers
                  else values_for name pairs)))
    set_default_headers-build is_spawned pairs b name headers fine =
        elim (Bool-cases (all is_header pairs)) [
          | inr e ↦
              inl
                (rw e refl, build-err is_spawned given client_initialization (error_of ∙ rw e refl))
          | inl e ↦ spawned is_spawned e
        ]
      where
        cleared : HttpClientBuilder h
        cleared = record b { default_headers = h.new }

        given : HttpClientBuilder h
        given = set_default_headers texts h pairs b

        error_of :
            given.error ≡ (if all is_header pairs then b.error else some client_initialization)
        error_of = add_default_headers-error pairs cleared

        names :
            all is_header pairs ≡ true
            → h.get_all name given.default_headers ≡ values_for name pairs
        names e = add_default_headers-get_all pairs cleared name e ∙ rw (laws.get_all-new name) refl

        spawned :
            (is_spawned : Bool)
            → all is_header pairs ≡ true
            → (((all is_header pairs && is_spawned) ≡ false)
                × (build texts h is_spawned given ≡ err client_initialization))
              ⊎ (((all is_header pairs && is_spawned) ≡ true)
                  × (defaults : h.Map) × (client : HttpClient h) × (build texts h is_spawned given
                      ≡ ok client)
                  × (client.interceptors
                      ≡ cookie_layer b.cookie_jar ∷ default_headers_layers texts h defaults)
                  × (h.get_all name defaults ≡ values_for name pairs)
                  × (h.get_all name (add_defaults texts h defaults (h.keys defaults) headers) ≡ (
                      if contains_key h name headers
                      then h.get_all name headers
                      else values_for name pairs)))
        spawned false e = inl (rw e refl, build-unspawned given (error_of ∙ rw (e, fine) refl))
        spawned true e =
            let (client, makes, layers) = build-ok given (error_of ∙ rw (e, fine) refl) in
            inr (
              rw e refl,
              given.default_headers,
              client,
              makes,
              layers
                  ∙ ap (λ j. cookie_layer j ∷ default_headers_layers texts h given.default_headers)
                      (add_default_headers-cookie_jar pairs cleared),
              names e,
              add_defaults-keys texts h laws given.default_headers headers name
                  ∙ ap (λ v. if contains_key h name headers then h.get_all name headers else v)
                      (names e),
            )
