-- ===== src/Client/Verified.antt =====
-- How a request makes curl verify the servers and the proxies it meets over TLS: the TLS configuration
-- of src/tls, through `RequestConfig` of src/config/request.rs and `create_easy_handle` of src/client.rs.
use isahc.Prelude.{
  ◌≡◌, sym, ap, ◌∙◌, Bool, not, Option, none, some, List, [], ◌∷◌, subst, append-nil,
}
use isahc.Prelude.Outcome.{ok, ok-eq}
use isahc.Http.{HeaderMap, HeaderText}
use isahc.Config.{RequestConfig, ClientConfig}
use isahc.Config.Options.{Opt, Features}
use isahc.Request.{Request}
use isahc.Tls.{TlsConfig, TlsConfigBuilder, build_tls}
use isahc.Tls.Options.{TlsOpt, given_tls, tls_opts, proxy_tls_opts, verify_peer, verify_host}
use isahc.Tls.Says.{verifications, tls_opts-Says, proxy_tls_opts-Says}
use isahc.Client.Easy.{create_easy_handle}
use isahc.Client.Gather.{
  of_origin, of_proxy, for_origin, for_proxy, origin-Picks, proxy-Picks, gather-others,
  gather-origin_tls, gather-via_proxy_tls, gather-create_easy_handle,
}

-- What curl is told of a proxy for HTTPS by its configuration, if there is one.
abbrev pub told_of_proxy : Option TlsConfigBuilder → List TlsOpt
told_of_proxy none = []
told_of_proxy (some b) =
    verify_peer b.danger_accept_invalid_certs ∷ verify_host b.danger_accept_invalid_hosts ∷ []

abbrev pub built : Option TlsConfigBuilder → Option TlsConfig
built none = none
built (some b) = some (build_tls b)

module _ (texts : HeaderText) (h : HeaderMap) (features : Features) (client : ClientConfig)
    (debug : Bool) where
  -- Of a request whose TLS configuration is built by `b`, whatever else it is configured with, curl is
  -- told exactly once whether to verify the certificate of the server and once whether to verify its
  -- name: it is to, except as far as `b` accepts invalid ones.
  pub create_easy_handle-verifies :
      (config : RequestConfig) (request : Request h) (opts : List Opt) (b : TlsConfigBuilder)
      → request.extensions.request_config ≡ some config
      → config.tls_config ≡ some (build_tls b)
      → create_easy_handle texts h features client debug request ≡ ok opts
      → for_origin opts
        ≡ verify_peer (not b.danger_accept_invalid_certs)
          ∷ verify_host (not b.danger_accept_invalid_hosts)
          ∷ []
  create_easy_handle-verifies config request opts b c t e =
      let (origin, via_proxy, first, second, gathered) =
        gather-create_easy_handle of_origin origin-Picks texts h features client debug config
          request opts c e in
      let set : tls_opts features.answers features.engine (build_tls b) ≡ ok origin =
        subst (λ x. given_tls x (tls_opts features.answers features.engine) ≡ ok origin) t first in
      gathered
      ∙ rw ((gather-others via_proxy).1, gather-origin_tls origin)
          (append-nil _
            ∙ unfold build_tls in
              (tls_opts-Says features.answers features.engine (build_tls b)).says origin set)

  -- Of a proxy that is spoken to over TLS, configured by `b`, curl is told the opposite: it is to
  -- verify the certificate and the name of the proxy exactly if `b` accepts invalid ones. Where no
  -- proxy is configured so, it is told nothing.
  pub create_easy_handle-verifies_proxy :
      (config : RequestConfig) (request : Request h) (opts : List Opt) (b : Option TlsConfigBuilder)
      → request.extensions.request_config ≡ some config
      → config.proxy_tls_config ≡ built b
      → create_easy_handle texts h features client debug request ≡ ok opts
      → for_proxy opts ≡ told_of_proxy b
  create_easy_handle-verifies_proxy config request opts b c t e =
      let (origin, via_proxy, first, second, gathered) =
        gather-create_easy_handle of_proxy proxy-Picks texts h features client debug config request
          opts c e in
      gathered
      ∙ rw ((gather-others origin).0, gather-via_proxy_tls via_proxy)
          (told b via_proxy (
            subst (λ x. given_tls x (proxy_tls_opts features.proxy_answers) ≡ ok via_proxy) t
              second))
    where
      told :
          (b : Option TlsConfigBuilder) (opts : List TlsOpt)
          → given_tls (built b) (proxy_tls_opts features.proxy_answers) ≡ ok opts
          → verifications opts ≡ told_of_proxy b
      told none opts e = ap verifications (sym (ok-eq e))
      told (some b) opts e =
          unfold build_tls in (proxy_tls_opts-Says features.proxy_answers (build_tls b)).says opts e
