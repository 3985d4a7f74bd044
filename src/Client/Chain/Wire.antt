-- ===== src/Client/Chain/Wire.antt =====
-- What curl is given over a whole call of `HttpClient::send_async_inner` of src/client.rs, redirects
-- included, by a client of `HttpClientBuilder::build`.
use isahc.Prelude.{
  ℕ, ◌+◌, ◌≤◌, ◌≡◌, sym, ap, subst, inl, inr, Bool, true, false, Option, List, [], ◌∷◌, ◌++◌, ◌∙◌,
  append_assoc, length, All, arith, Bool-cases,
}
use isahc.Prelude.Bytes.{bytes_eq, bytes_eq_iff}
use isahc.Prelude.Outcome.{ok}
use isahc.Http.{HeaderMap, HeaderLaws, HeaderName}
use isahc.Request.{Request}
use isahc.Config.Options.{Opt}
use isahc.Cookies.Interceptor.{World}
use isahc.Redirect.Follow.Hops.{is_sensitive}
use isahc.Client.Builder.{HttpClient, HttpClientBuilder, build}
use isahc.Client.Chain.{Surroundings, world_after}
use isahc.Client.Chain.Given.{user_agent_name, Given}
use isahc.Client.Chain.Hop.{built_layers, begun, hop-Puts}

-- No sensitive header names the client.
pub is_sensitive-ne-agent :
    (name : HeaderName) → is_sensitive name ≡ true → bytes_eq user_agent_name name ≡ false
is_sensitive-ne-agent name s = elim (Bool-cases (bytes_eq user_agent_name name)) [
  | inl e ↦ absurd (
      not_agent
        (subst (λ n. is_sensitive n ≡ true) (sym ((bytes_eq_iff user_agent_name name).0 e)) s))
  | inr e ↦ e
]
  where
    not_agent : is_sensitive user_agent_name ≡ true → ⊥
    not_agent e = unfold bytes_eq in cc e

module _ {A : Type 0} where
  -- A property of each element and of those behind it.
  abbrev pub AllFrom : (List A → A → Type 0) → List A → Type 0
  AllFrom P [] = Unit
  AllFrom P (x ∷ xs) = P xs x × AllFrom P xs

  All-AllFrom : (P : A → Type 0) (xs : List A) → All P xs → AllFrom (λ before x. P x) xs
  All-AllFrom P [] p = tt
  All-AllFrom P (x ∷ xs) p = (p.0, All-AllFrom P xs p.1)

  -- Where an element stands in a list.
  abbrev pub Place : List A → List A → A → Type 0
  Place whole before x = (later : List A) × (whole ≡ later ++ x ∷ before)

  pub AllFrom-Place :
      (P : A → Type 0) (whole later xs : List A)
      → whole ≡ later ++ xs
      → All P xs
      → AllFrom (λ before x. P x × Place whole before x) xs
  AllFrom-Place P whole later [] e p = tt
  AllFrom-Place P whole later (x ∷ xs) e p = (
    (p.0, (later, e)),
    AllFrom-Place P whole (later ++ x ∷ []) xs (e ∙ sym (append_assoc later (x ∷ []) xs)) p.1,
  )

module _ (h : HeaderMap) (laws : HeaderLaws h) (around : Surroundings h) where
  -- The client that a builder makes.
  pub build-layers :
      (is_spawned : Bool) (b : HttpClientBuilder h) (client : HttpClient h)
      → build around.texts h is_spawned b ≡ ok client
      → client.interceptors ≡ built_layers h laws around client b.cookie_jar b.default_headers
  unfolding build
  build-layers is_spawned b client e = ground (arith, e)

  pub build-request_config :
      (is_spawned : Bool) (b : HttpClientBuilder h) (client : HttpClient h)
      → build around.texts h is_spawned b ≡ ok client
      → client.request_config ≡ b.request_config
  unfolding build
  build-request_config is_spawned b client e = ground (arith, e)

  module _ (client : HttpClient h) (jar : Option ℕ) (defaults : h.Map)
      (layers : client.interceptors ≡ built_layers h laws around client jar defaults) where
    -- What holds of all that curl has been given before holds of all that it is given by the
    -- requests of the redirect interceptor, if each of them, with those sent before it, makes it hold
    -- of what it puts there.
    pub wire-AllFrom :
        (P : List (Request h) → Request h → Type 0) (Q : List Opt × Request h → Type 0)
        (world : World h) (sent : List (Request h))
        → ((before : List (Request h)) (request : Request h) (opts : List Opt) (given : Request h)
            → P before request
            → Given h laws around client jar defaults
                (begun h laws around client (world_after h around client world before))
                request
                given
                opts
            → Q (opts, given))
        → AllFrom P sent
        → All Q world.wire
        → All Q (world_after h around client world sent).wire
    unfolding world_after
    wire-AllFrom P Q world [] makes p q = q
    wire-AllFrom P Q world (request ∷ before) makes p q =
        let rest = wire-AllFrom P Q world before makes p.1 q in
        let start = world_after h around client world before in
        elim (hop-Puts h laws around client jar defaults request start layers) [
          | inl same ↦ subst (All Q) (sym same) rest
          | inr (opts, given, put, g) ↦
              subst (All Q) (sym put) (makes before request opts given p.0 g, rest)
        ]

    pub wire-All :
        (P : Request h → Type 0) (Q : List Opt × Request h → Type 0) (world : World h)
        (sent : List (Request h))
        → ((request : Request h) (w : World h) (opts : List Opt) (given : Request h)
            → P request
            → Given h laws around client jar defaults w request given opts
            → Q (opts, given))
        → All P sent
        → All Q world.wire
        → All Q (world_after h around client world sent).wire
    wire-All P Q world sent makes p q =
        wire-AllFrom (λ before r. P r) Q world sent
          (λ before r opts given here g. makes r _ opts given here g) (All-AllFrom P sent p) q

    -- Each request of the redirect interceptor puts one request on the wire at most.
    pub wire-length :
        (world : World h) (sent : List (Request h))
        → length (world_after h around client world sent).wire ≤ length sent + length world.wire
    unfolding world_after
    wire-length world [] = omega arith
    wire-length world (request ∷ before) =
        let rest = wire-length world before in
        elim (hop-Puts h laws around client jar defaults request
          (world_after h around client world before) layers) [
            | inl same ↦ omega (arith, ap length same, rest)
            | inr (opts, given, put, g) ↦ omega (arith, ap length put, rest)
          ]
