-- ===== src/Client/Chain/Hop.antt =====
-- What curl is given in one turn of the redirect interceptor, by a client of `HttpClientBuilder::build`.
use isahc.Prelude.{
  ℕ, ◌≡◌, refl, sym, subst, ◌∙◌, inl, inr, false, Option, none, some, List, [], ◌∷◌, Option-cases,
  if◌then◌else◌, or_else, unwrap_or,
}
use isahc.Prelude.Bytes.{bytes_eq, bytes_eq_refl}
use isahc.Prelude.Outcome.{Outcome, ok, err, panic, Outcome-cases, >>=-eq-ok, ok-eq}
use isahc.Http.{HeaderMap, HeaderLaws, HeaderName, first}
use isahc.Error.{ErrorKind}
use isahc.Request.{Request, Response}
use isahc.Config.Options.{Opt}
use isahc.Cookies.Cookie.{Cookie}
use isahc.Cookies.Jar.{CookieJar, get_for_uri}
use isahc.Cookies.Interceptor.{World, cookie_name, intercept, persist, attach}
use isahc.Cookies.Interceptor.Header.{attach-sends, cookie_values, join, parts}
use isahc.Client.Builder.{HttpClient, Layer, cookie_layer, default_headers_layers}
use isahc.Client.Chain.{Surroundings, context_send, hop}
use isahc.Client.Chain.Given.{user_agent_name, Puts, Given, FilledGiven, defaults-Puts}

module _ (h : HeaderMap) (laws : HeaderLaws h) (around : Surroundings h)
    (client : HttpClient h) where
  -- The interceptors that `HttpClientBuilder::build` leaves to a client, with the jar and the default
  -- headers of the builder.
  abbrev pub built_layers : Option ℕ → h.Map → List (Layer h)
  built_layers jar defaults = cookie_layer jar ∷ default_headers_layers around.texts h defaults

  -- The cookie interceptor puts nothing on the wire itself.
  persist-wire :
      (clock : ℕ → ℕ) (handle : ℕ) (request : Request h)
      (result : Outcome ErrorKind (Response h) × World h)
      → (persist around.platform around.texts h clock handle request.uri result).1.wire
        ≡ result.1.wire
  unfolding persist
  persist-wire clock handle request (err e, world) = refl
  persist-wire clock handle request (panic, world) = refl
  persist-wire clock handle request (ok response, world) = refl

  cookie_agent_differ : bytes_eq user_agent_name cookie_name ≡ false
  unfolding bytes_eq
  cookie_agent_differ = refl

  -- Without a jar.
  Filled-Given :
      (jar : Option ℕ) (defaults : h.Map) (world : World h) (request : Request h)
      → or_else request.extensions.cookie_jar jar ≡ none
      → (sent : Request h) (opts : List Opt)
      → FilledGiven h laws around client defaults request sent opts
      → Given h laws around client jar defaults world request sent opts
  Filled-Given jar defaults world request e sent opts ((uri, extensions, headers), set) = record {
    uri = uri;
    extensions = extensions;
    options = set;
    headers = λ name other agent. headers name agent;
    cookies =
        (h.get_all cookie_name request.headers, rw e refl, headers cookie_name cookie_agent_differ);
  }

  attach-found :
      (now : ℕ) (jar : CookieJar) (request attached : Request h)
      → attach around.platform around.texts h now jar request ≡ ok attached
      → (cookies : List Cookie) × (get_for_uri around.platform now jar request.uri ≡ ok cookies)
  unfolding attach
  attach-found now jar request attached e =
      let (cookies, found, rest) =
        >>=-eq-ok (get_for_uri around.platform now jar request.uri) _ e in
      (cookies, found)

  -- What the request has of a header behind the cookie interceptor.
  attach-headers :
      (now : ℕ) (jar : CookieJar) (request attached : Request h) (cookies : List Cookie)
      → attach around.platform around.texts h now jar request ≡ ok attached
      → get_for_uri around.platform now jar request.uri ≡ ok cookies
      → (attached.uri ≡ request.uri)
        × (attached.extensions ≡ request.extensions)
        × ((name : HeaderName)
            → h.get_all name attached.headers ≡ (
                if bytes_eq cookie_name name
                then cookie_values around.texts (
                    join (
                      parts (unwrap_or (first (h.get_all cookie_name request.headers)) []) cookies))
                else h.get_all name request.headers))
  attach-headers now jar request attached cookies e found =
      ((of cookie_name).0, (of cookie_name).1, λ name. (of name).2)
    where
      of :
          (name : HeaderName)
          → (attached.uri ≡ request.uri)
            × (attached.extensions ≡ request.extensions)
            × (h.get_all name attached.headers ≡ (
                if bytes_eq cookie_name name
                then cookie_values around.texts (
                    join (
                      parts (unwrap_or (first (h.get_all cookie_name request.headers)) []) cookies))
                else h.get_all name request.headers))
      of name =
          let (next, made, header, uri, _, _, extensions) =
            attach-sends around.platform around.texts h laws now jar request cookies name found in
          let same : attached ≡ next = ok-eq (sym e ∙ made) in rw same (uri, extensions, header)

  attached-Given :
      (jar : Option ℕ) (defaults : h.Map) (world : World h) (request attached : Request h)
      (handle : ℕ)
      → or_else request.extensions.cookie_jar jar ≡ some handle
      → attach around.platform around.texts h (around.now world) (world.jars handle) request
        ≡ ok attached
      → (sent : Request h) (opts : List Opt)
      → FilledGiven h laws around client defaults attached sent opts
      → Given h laws around client jar defaults world request sent opts
  attached-Given jar defaults world request attached handle e a sent opts
        ((uri, extensions, headers), set) =
      let (cookies, found) =
        attach-found (around.now world) (world.jars handle) request attached a in
      let (same_uri, same_extensions, own) =
        attach-headers (around.now world) (world.jars handle) request attached cookies a found in
      record {
        uri = uri ∙ same_uri;
        extensions = extensions ∙ same_extensions;
        options = set;
        headers = λ name other agent. headers name agent ∙ rw (own name, other) refl;
        cookies = (
          cookie_values around.texts
              (join (parts (unwrap_or (first (h.get_all cookie_name request.headers)) []) cookies)),
          rw e (cookies, found, refl),
          headers cookie_name cookie_agent_differ
              ∙ rw (own cookie_name, bytes_eq_refl cookie_name) refl,
        );
      }

  -- The world behind the cookie interceptor.
  abbrev behind : h.Map → Request h → World h → World h
  behind defaults request world =
      (context_send h around client (default_headers_layers around.texts h defaults) request
        world).1

  cookie-Puts :
      (jar : Option ℕ) (defaults : h.Map) (request : Request h) (world : World h)
      → Puts h laws around client
          (Given h laws around client jar defaults world request)
          world
          (context_send h around client (built_layers jar defaults) request world).1
  unfolding context_send intercept
  cookie-Puts jar defaults request world =
      elim (Option-cases (or_else request.extensions.cookie_jar jar)) [
        | inl e ↦
            rw (intercept, e)
              (through (behind defaults request world) (Filled-Given jar defaults world request e)
                (defaults-Puts h laws around client defaults request world))
        | inr (handle, e) ↦
            elim (Outcome-cases (
              attach around.platform around.texts h (around.now world) (world.jars handle)
                request)) [
                  | inl (attached, a) ↦
                      rw (intercept, e, a)
                        (through_persist handle attached (
                          through (behind defaults attached world)
                            (attached-Given jar defaults world request attached handle e a)
                            (defaults-Puts h laws around client defaults attached world)))
                  | inr (inl (f, _)) ↦ elim f [ ]
                  | inr (inr f) ↦ inl (rw (intercept, e, f) refl)
                ]
      ]
    where
      through :
          {P Q : Request h → List Opt → Type 0} (next : World h)
          → ((sent : Request h) (opts : List Opt) → P sent opts → Q sent opts)
          → Puts h laws around client P world next
          → Puts h laws around client Q world next
      through next f (inl same) = inl same
      through next f (inr (opts, sent, put, q)) = inr (opts, sent, put, f sent opts q)

      through_persist :
          {Q : Request h → List Opt → Type 0} (handle : ℕ) (attached : Request h)
          → Puts h laws around client Q world
              (context_send h around client
                (default_headers_layers around.texts h defaults)
                attached
                world).1
          → Puts h laws around client Q world
              (persist around.platform around.texts h (around.clock world) handle request.uri (
                context_send h around client
                  (default_headers_layers around.texts h defaults)
                  attached
                  world)).1
      through_persist handle attached (inl same) =
          inl (persist-wire (around.clock world) handle request _ ∙ same)
      through_persist handle attached (inr (opts, sent, put, q)) =
          inr (opts, sent, persist-wire (around.clock world) handle request _ ∙ put, q)

  -- The world in which a turn of the redirect interceptor begins.
  abbrev pub begun : World h → World h
  begun world = record world { jars = around.others world }

  pub hop-Puts :
      (jar : Option ℕ) (defaults : h.Map) (request : Request h) (world : World h)
      → client.interceptors ≡ built_layers jar defaults
      → Puts h laws around client
          (Given h laws around client jar defaults (begun world) request)
          world
          (hop h around client request world).1
  unfolding hop
  hop-Puts jar defaults request world e =
      subst
        (λ layers.
          Puts h laws around client (Given h laws around client jar defaults (begun world) request)
            world (context_send h around client layers request (begun world)).1)
        (sym e) (cookie-Puts jar defaults request (begun world))
