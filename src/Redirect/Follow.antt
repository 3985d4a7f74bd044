-- ===== src/Redirect/Follow.antt =====
-- src/redirect.rs: the loop that follows redirects. The rest of the chain is a function of all the
-- requests sent so far: servers may answer the same request differently each time.
pub mod Hops
pub mod Chain
pub mod Runs
pub mod Leaks
use isahc.Prelude.{
  ℕ, zero, suc, Bool, false, not, ◌||◌, Option, none, some, List, [], ◌∷◌, leb, ◌==◌, if◌then◌else◌,
}
use isahc.Prelude.Bytes.{codes}
use isahc.Prelude.Outcome.{Outcome, ok, err, panic, ◌>>=◌}
use isahc.Http.{Uri, HeaderMap, HeaderName, is_redirection, first}
use isahc.Error.{ErrorKind, too_many_redirects, request_body_not_rewindable}
use isahc.Body.{AsyncBody, empty, reset}
use isahc.Config.{RedirectPolicy, no_redirects, follow_redirects, limit_redirects, default_policy}
use isahc.Request.{Request, Response, Builder, to_builder, with_body}
use isahc.Redirect.Uris.{Urls, parse_location, resolve, create_referer, is_same_authority}

abbrev pub default_redirect_limit : ℕ
default_redirect_limit = 1024

abbrev pub sensitive_headers : List HeaderName
sensitive_headers =
    codes "authorization"
    ∷ codes "cookie"
    ∷ codes "cookie2"
    ∷ codes "proxy-authorization"
    ∷ codes "www-authenticate"
    ∷ []

abbrev pub location_name : HeaderName
location_name = codes "location"

abbrev pub referer_name : HeaderName
referer_name = codes "referer"

module _ (h : HeaderMap) where
  unfoldable pub remove_all : List HeaderName → h.Map → h.Map
  remove_all [] headers = headers
  remove_all (name ∷ more) headers = remove_all more (h.remove name headers)

  unfoldable pub scrub_sensitive_headers : h.Map → h.Map
  unfolding remove_all
  scrub_sensitive_headers headers = remove_all sensitive_headers headers

  unfoldable pub set_method : ℕ → Builder h → Builder h
  set_method status builder =
      if status == 301 || status == 302 || status == 303
      then record builder { method = codes "GET" }
      else builder

  -- `extensions.remove::<Authentication>()` included.
  unfoldable pub leave_authority : Uri → Uri → Builder h → Builder h
  leave_authority uri location builder =
      if not (is_same_authority uri location)
      then record builder {
        headers = scrub_sensitive_headers builder.headers;
        extensions = record builder.extensions { authentication = none };
      }
      else builder

  -- The configuration that the interceptor reads.
  unfoldable pub policy_of : Request h → RedirectPolicy
  policy_of request = elim request.extensions.request_config [
    | none ↦ default_policy
    | some config ↦ elim config.redirect_policy [ none ↦ default_policy | some policy ↦ policy ]
  ]

  unfoldable pub auto_referer_of : Request h → Bool
  auto_referer_of request = elim request.extensions.request_config [
    | none ↦ false
    | some config ↦ elim config.auto_referer [ none ↦ false | some auto_referer ↦ auto_referer ]
  ]

unfoldable pub limit_of : RedirectPolicy → ℕ
limit_of (limit_redirects limit) = limit
limit_of _ = default_redirect_limit

abbrev pub body_or_default : Option AsyncBody → AsyncBody
body_or_default none = empty
body_or_default (some body) = body

-- What the body of the loop comes to: the response to return, or the URI and the request of the
-- next turn.
pub data Step (h : HeaderMap) : Type 0 where
  done : Response h → Step h
  again : Uri → Request h → Step h

module _ (urls : Urls) (h : HeaderMap) where
  unfoldable pub get_redirect_location : Uri → Response h → Option Uri
  get_redirect_location request_uri response =
      if is_redirection response.status
      then elim (first (h.get_all location_name response.headers)) [
        | none ↦ none
        | some value ↦ elim (parse_location urls value) [
          | none ↦ none
          | some location ↦ resolve urls request_uri location
        ]
      ]
      else none

  unfoldable pub set_referer : Bool → Uri → Uri → Builder h → Builder h
  set_referer auto_referer uri location builder =
      if auto_referer
      then elim (create_referer urls uri location) [
        | none ↦ builder
        | some referer ↦ record builder { headers = h.insert referer_name referer builder.headers }
      ]
      else builder

  -- The builder of the request that follows a redirect from `uri`, before its URI is set.
  unfoldable pub redirected : Bool → Uri → Uri → ℕ → Request h → Builder h
  redirected auto_referer uri location status request =
      leave_authority h uri location
        (set_method h status (set_referer auto_referer uri location (to_builder request)))

  unfoldable pub handle : Bool → ℕ → ℕ → Uri → Request h → Response h → Outcome ErrorKind (Step h)
  handle auto_referer limit redirect_count uri request response =
      elim (get_redirect_location uri response) [
        | none ↦ ok (done (record response { effective_uri = some uri }))
        | some location ↦
            let builder = redirected auto_referer uri location response.status request in
            let (rewound, body) = reset (body_or_default response.request_body) in
            if leb limit redirect_count
            then err too_many_redirects
            else if not rewound
            then err request_body_not_rewindable
            else ok (again location (with_body (record builder { uri = location }) body))
      ]

  -- `send` is the rest of the chain: it is given the requests sent before, the last one first.
  module _ (send : List (Request h) → Request h → Outcome ErrorKind (Response h)) where
    -- The loop, on fuel: what has been sent at its end, and what it returns.
    unfoldable pub follow :
        Bool
        → ℕ
        → ℕ
        → ℕ
        → List (Request h)
        → Uri
        → Request h
        → Option (List (Request h) × Outcome ErrorKind (Response h))
    follow auto_referer limit zero redirect_count sent uri request = none
    follow auto_referer limit (suc fuel) redirect_count sent uri request =
        elim (send sent request >>= handle auto_referer limit redirect_count uri request) [
          | err e ↦ some (request ∷ sent, err e)
          | panic ↦ some (request ∷ sent, panic)
          | ok (done response) ↦ some (request ∷ sent, ok response)
          | ok (again location next) ↦
              follow auto_referer limit fuel (suc redirect_count) (request ∷ sent) location next
        ]

    send_once : Request h → List (Request h) × Outcome ErrorKind (Response h)
    send_once request = (
      request ∷ [],
      do response ← send [] request; ok (record response { effective_uri = some request.uri }),
    )

    follow_all : Request h → ℕ → Option (List (Request h) × Outcome ErrorKind (Response h))
    follow_all request limit =
        follow (auto_referer_of h request) limit (suc limit) 0 [] request.uri request

    -- `RedirectInterceptor::intercept`
    unfoldable pub intercept :
        Request h → Option (List (Request h) × Outcome ErrorKind (Response h))
    unfolding send_once follow_all
    intercept request = elim (policy_of h request) [
      | no_redirects ↦ some (send_once request)
      | follow_redirects ↦ follow_all request (limit_of follow_redirects)
      | limit_redirects limit ↦ follow_all request (limit_of (limit_redirects limit))
    ]
