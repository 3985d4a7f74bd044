-- ===== src/Client/Gather.antt =====
-- The options about TLS that `create_easy_handle` of src/client.rs gives to curl, among all the others.
use isahc.Prelude.{
  ℕ, ◌≡◌, refl, sym, ap, ◌∙◌, inl, inr, Bool, true, false, not, Option, none, some, List, [], ◌∷◌,
  ◌++◌, map, all, arith, Bool-cases, if◌then◌else◌, append-nil, append_assoc,
}
use isahc.Prelude.Outcome.{ok}
use isahc.Prelude.Bytes.{codes, bytes_eq}
use isahc.Http.{Method, HeaderMap, HeaderText}
use isahc.Client.{uri_to_string}
use isahc.Body.{is_empty}
use isahc.Config.{RequestConfig, ClientConfig}
use isahc.Config.Options.{
  Opt, Features, origin_tls, via_proxy_tls, http_headers, plain_opts, progress, given, client_opts,
  verbose, signal, url, post_field_size, in_filesize,
}
use isahc.Request.{Request}
use isahc.Tls.Options.{TlsOpt, given_tls, tls_opts, proxy_tls_opts}
use isahc.Tls.Says.{verifications, verifications-append}
use isahc.Client.Easy.{create_easy_handle, front_opts, method_opts, size_opts, body_length}
use isahc.Client.Plain.{
  is_plain, IsPlain, method_opts-IsPlain, plain_opts-IsPlain, client_opts-IsPlain,
}
use isahc.Client.Sizes.{is_size, request_opts-eq-ok}
use isahc.Client.Framing.{create_easy_handle-parts}

-- What is picked from a list of options.
abbrev pub gather : (Opt → List TlsOpt) → List Opt → List TlsOpt
gather pick [] = []
gather pick (x ∷ opts) = pick x ++ gather pick opts

abbrev pub of_origin : Opt → List TlsOpt
of_origin (origin_tls opt) = verifications (opt ∷ [])
of_origin _ = []

abbrev pub of_proxy : Opt → List TlsOpt
of_proxy (via_proxy_tls opt) = verifications (opt ∷ [])
of_proxy _ = []

-- The options about verification that curl is given for servers, and for proxies.
abbrev pub for_origin : List Opt → List TlsOpt
for_origin opts = gather of_origin opts

abbrev pub for_proxy : List Opt → List TlsOpt
for_proxy opts = gather of_proxy opts

gather-append :
    (pick : Opt → List TlsOpt) (a b : List Opt)
    → gather pick (a ++ b) ≡ gather pick a ++ gather pick b
gather-append pick [] b = refl
gather-append pick (x ∷ a) b =
    ap (λ r. pick x ++ r) (gather-append pick a b)
    ∙ sym (append_assoc (pick x) (gather pick a) (gather pick b))

pub gather-origin_tls : (opts : List TlsOpt) → for_origin (map origin_tls opts) ≡ verifications opts
gather-origin_tls [] = refl
gather-origin_tls (x ∷ opts) =
    rw (gather-origin_tls opts) (sym (verifications-append (x ∷ []) opts))

pub gather-via_proxy_tls :
    (opts : List TlsOpt) → for_proxy (map via_proxy_tls opts) ≡ verifications opts
gather-via_proxy_tls [] = refl
gather-via_proxy_tls (x ∷ opts) =
    rw (gather-via_proxy_tls opts) (sym (verifications-append (x ∷ []) opts))

pub gather-others :
    (opts : List TlsOpt)
    → (for_proxy (map origin_tls opts) ≡ []) × (for_origin (map via_proxy_tls opts) ≡ [])
gather-others [] = (refl, refl)
gather-others (x ∷ opts) = gather-others opts

-- Nothing is picked from the options that are not about TLS.
pub record Picks (pick : Opt → List TlsOpt) : Type 0 where
  from_plain : (x : Opt) → is_plain x ≡ true → pick x ≡ []
  from_size : (x : Opt) → is_size x ≡ true → pick x ≡ []

pub origin-Picks : Picks of_origin
origin-Picks = record {
  from_plain = λ x e. ground (arith, e);
  from_size = λ x e. ground (arith, e);
}

pub proxy-Picks : Picks of_proxy
proxy-Picks = record { from_plain = λ x e. ground (arith, e); from_size = λ x e. ground (arith, e) }

module _ (pick : Opt → List TlsOpt) (picks : Picks pick) where
  gather-IsPlain : (opts : List Opt) → IsPlain opts → gather pick opts ≡ []
  gather-IsPlain [] p = refl
  gather-IsPlain (x ∷ opts) p =
      let e : (is_plain x ≡ true) × (all is_plain opts ≡ true) = ground (arith, p.plain) in
      rw (picks.from_plain x e.0) (gather-IsPlain opts (record { plain = e.1 }))

  gather-size_opts : (method : Method) (len : Option ℕ) → gather pick (size_opts method len) ≡ []
  unfolding size_opts
  gather-size_opts method none = refl
  gather-size_opts method (some len) = elim (Bool-cases (bytes_eq method (codes "POST"))) [
    | inl e ↦ rw (e, picks.from_size (post_field_size len) refl) refl
    | inr e ↦ rw (e, picks.from_size (in_filesize len) refl) refl
  ]

  gather-progress :
      (enabled : Option Bool) → gather pick (given enabled (λ x. progress x ∷ [])) ≡ []
  gather-progress none = refl
  gather-progress (some x) = rw (picks.from_plain (progress x) refl) refl

  module _ (texts : HeaderText) (h : HeaderMap) (features : Features) (client : ClientConfig)
      (debug : Bool) where
    gather-front_opts :
        (request : Request h) (configured : List Opt)
        → gather pick (front_opts texts h features client debug request configured)
          ≡ gather pick configured
    unfolding front_opts
    gather-front_opts request configured =
        rw (picks.from_plain (verbose debug) refl, picks.from_plain (signal false) refl)
          (gather-append pick configured _
            ∙ rw
                (
                  gather-append pick (client_opts client) (
                      method_opts request.method (not (is_empty request.body))
                      ++ (url (uri_to_string request.uri) ∷ sized)),
                  gather-IsPlain (client_opts client) (client_opts-IsPlain client),
                  gather-append pick (method_opts request.method (not (is_empty request.body)))
                      (url (uri_to_string request.uri) ∷ sized),
                  gather-IsPlain _
                      (method_opts-IsPlain request.method (not (is_empty request.body))),
                  picks.from_plain (url (uri_to_string request.uri)) refl,
                  sized-gather,
                )
                (append-nil (gather pick configured)))
      where
        sized : List Opt
        sized =
            if is_empty request.body
            then []
            else size_opts request.method (body_length texts h request)

        sized-gather : gather pick sized ≡ []
        sized-gather = elim (Bool-cases (is_empty request.body)) [
          | inl e ↦ rw e refl
          | inr e ↦ rw e (gather-size_opts request.method (body_length texts h request))
        ]

    pub gather-create_easy_handle :
        (config : RequestConfig) (request : Request h) (opts : List Opt)
        → request.extensions.request_config ≡ some config
        → create_easy_handle texts h features client debug request ≡ ok opts
        → (origin via_proxy : List TlsOpt) × (given_tls config.tls_config
              (tls_opts features.answers features.engine)
            ≡ ok origin)
          × (given_tls config.proxy_tls_config (proxy_tls_opts features.proxy_answers)
              ≡ ok via_proxy)
          × (gather pick opts
              ≡ gather pick (map origin_tls origin) ++ gather pick (map via_proxy_tls via_proxy))
    gather-create_easy_handle config request opts c e =
        let (configured, lines, more, set, made, parts) =
          create_easy_handle-parts texts h features client debug config request opts c e in
        let (origin, via_proxy, first, second, same) =
          request_opts-eq-ok features config configured set in
        (
          origin,
          via_proxy,
          first,
          second,
          ap (gather pick) parts
              ∙ gather-append pick (front_opts texts h features client debug request configured)
                  (http_headers (lines ++ more) ∷ [])
              ∙ rw (picks.from_plain (http_headers (lines ++ more)) refl) (
                  append-nil _
                  ∙ gather-front_opts request configured
                  ∙ ap (gather pick) same
                  ∙ in_config origin via_proxy),
        )
      where
        in_config :
            (origin via_proxy : List TlsOpt)
            → gather pick (
                plain_opts features config
                ++ (map origin_tls origin
                    ++ (map via_proxy_tls via_proxy
                        ++ given config.enable_metrics (λ x. progress x ∷ []))))
              ≡ gather pick (map origin_tls origin) ++ gather pick (map via_proxy_tls via_proxy)
        in_config origin via_proxy =
            gather-append pick (plain_opts features config) _
            ∙ rw (gather-IsPlain _ (plain_opts-IsPlain features config)) (
                gather-append pick (map origin_tls origin) _
                ∙ ap (λ r. gather pick (map origin_tls origin) ++ r)
                    (gather-append pick (map via_proxy_tls via_proxy) _
                      ∙ rw (gather-progress config.enable_metrics) (append-nil _)))
