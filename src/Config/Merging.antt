-- ===== src/Config/Merging.antt =====
-- What the merging of configurations in src/config/request.rs does to the settings of `Configurable`.
use isahc.Prelude.{◌≡◌, refl, ap, ◌∙◌, List, [], ◌∷◌}
use isahc.Config.{RequestConfig, no_config, merge}
use isahc.Config.Configurable.{
  with_timeout, with_connect_timeout, with_low_speed_timeout, with_version_negotiation,
  with_redirect_policy, with_auto_referer, with_automatic_decompression, with_expect_continue,
  with_authentication, with_credentials, with_tcp_keepalive, with_tcp_nodelay, with_interface,
  with_ip_version, with_dial, with_proxy, with_proxy_blacklist, with_proxy_authentication,
  with_proxy_credentials, with_max_upload_speed, with_max_download_speed, with_tls_config,
  with_proxy_tls_config, with_title_case_headers, with_metrics, Setting, configure, configure_all,
}

merge-configure :
    (setting : Setting) (c defaults : RequestConfig)
    → merge (configure setting c) defaults ≡ configure setting (merge c defaults)
unfolding merge configure
merge-configure (with_timeout t) c defaults = refl
merge-configure (with_connect_timeout t) c defaults = refl
merge-configure (with_low_speed_timeout l) c defaults = refl
merge-configure (with_version_negotiation n) c defaults = refl
merge-configure (with_redirect_policy p) c defaults = refl
merge-configure with_auto_referer c defaults = refl
merge-configure (with_automatic_decompression b) c defaults = refl
merge-configure (with_expect_continue e) c defaults = refl
merge-configure (with_authentication a) c defaults = refl
merge-configure (with_credentials x) c defaults = refl
merge-configure (with_tcp_keepalive t) c defaults = refl
merge-configure with_tcp_nodelay c defaults = refl
merge-configure (with_interface s) c defaults = refl
merge-configure (with_ip_version v) c defaults = refl
merge-configure (with_dial x) c defaults = refl
merge-configure (with_proxy u) c defaults = refl
merge-configure (with_proxy_blacklist hosts) c defaults = refl
merge-configure (with_proxy_authentication a) c defaults = refl
merge-configure (with_proxy_credentials x) c defaults = refl
merge-configure (with_max_upload_speed m) c defaults = refl
merge-configure (with_max_download_speed m) c defaults = refl
merge-configure (with_tls_config t) c defaults = refl
merge-configure (with_proxy_tls_config t) c defaults = refl
merge-configure (with_title_case_headers b) c defaults = refl
merge-configure (with_metrics b) c defaults = refl

merge-configured :
    (settings : List Setting) (c defaults : RequestConfig)
    → merge (configure_all settings c) defaults ≡ configure_all settings (merge c defaults)
unfolding configure_all
merge-configured [] c defaults = refl
merge-configured (setting ∷ more) c defaults =
    merge-configured more (configure setting c) defaults
    ∙ ap (configure_all more) (merge-configure setting c defaults)

-- A request that is configured by some calls and sent by a client is sent with the configuration that
-- the same calls make of the client's: each setting that the request makes stands, the last of several,
-- and all others are those of the client.
pub merge-configure_all :
    (settings : List Setting) (defaults : RequestConfig)
    → merge (configure_all settings no_config) defaults ≡ configure_all settings defaults
merge-configure_all settings defaults =
    merge-configured settings no_config defaults ∙ ap (configure_all settings) (nothing defaults)
  where
    nothing : (c : RequestConfig) → merge no_config c ≡ c
    nothing c = unfold merge in refl
