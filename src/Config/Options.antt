-- ===== src/Config/Options.antt =====
-- The `SetOpt` implementations of src/config, src/auth.rs and src/net/interface.rs: the options that a
-- configuration gives to a curl handle, in their order. Curl may refuse an option; the source stops
-- there with its error.
use isahc.Prelude.{
  ℕ, ◌-◌, ◌/◌, ◌%◌, ◌^◌, ltb, Bool, true, ◌&&◌, Option, none, some, List, [], ◌∷◌, ◌++◌, map, ◌==◌,
  if◌then◌else◌,
}
use isahc.Prelude.Bytes.{Bytes}
use isahc.Prelude.Outcome.{Outcome, ok, ◌>>=◌}
use isahc.Error.{ErrorKind}
use isahc.Http.{Uri}
use isahc.Tls.{Engine}
use isahc.Tls.Options.{TlsOpt, given_tls, Answers, tls_opts, proxy_tls_opts}
use isahc.Config.{
  Authentication, Credentials, HttpVersion, v2_tls, VersionNegotiation, latest_compatible, strict,
  IpVersion, Dialer, default_dialer, ip_socket, unix_socket, DnsCache, disable_cache, cache_forever,
  cache_timeout, RequestConfig, ClientConfig,
}

-- `curl::easy::Auth`, of the schemes that the program sets.
pub record Auth : Type 0 where
  pub basic : Bool
  pub digest : Bool
  pub gssnegotiate : Bool

-- An `i64`: `n`, or `-n`.
pub data Seconds : Type 0 where
  seconds minus : ℕ → Seconds

-- `u64 as i64`
abbrev pub as_i64 : ℕ → Seconds
as_i64 n = if ltb n (2 ^ 63) then seconds n else minus (2 ^ 64 - n)

pub data Opt : Type 0 where
  verbose signal get nobody post upload tcp_keepalive tcp_nodelay progress forbid_reuse : Bool → Opt
  timeout low_speed_limit low_speed_time connect_timeout expect_100_timeout tcp_keepintvl : ℕ → Opt
  max_send_speed max_recv_speed maxage_conn post_field_size in_filesize : ℕ → Opt
  username password proxy_username proxy_password proxy noproxy custom_request url : Bytes → Opt
  accept_encoding interface unix_socket_path : Option Bytes → Opt
  http_version : HttpVersion → Opt
  http_auth proxy_auth : Auth → Opt
  ip_resolve : IpVersion → Opt
  connect_to resolve http_headers : List Bytes → Opt
  dns_cache_timeout : Seconds → Opt
  origin_tls via_proxy_tls : TlsOpt → Opt

-- `if let Some(value) = ... { value.set_opt(easy)? }`
abbrev pub given {ℓ} : {A : Type ℓ} → Option A → (A → List Opt) → List Opt
given none opts = []
given (some value) opts = opts value

abbrev pub has_bit : ℕ → Authentication → Bool
has_bit bit auth = auth / bit % 2 == 1

-- `Authentication::as_auth`; the scheme negotiate is behind the feature `spnego`.
unfoldable pub as_auth : Bool → Authentication → Auth
as_auth spnego auth = record {
  basic = has_bit 1 auth;
  digest = has_bit 2 auth;
  gssnegotiate = spnego && has_bit 4 auth;
}

-- `SetOpt` and `SetOptProxy` for `Authentication` and `Credentials`
unfoldable pub authentication_opts : Bool → Authentication → List Opt
authentication_opts spnego auth =
    (if spnego && has_bit 4 auth then username [] ∷ password [] ∷ [] else [])
    ++ http_auth (as_auth spnego auth) ∷ []

unfoldable pub proxy_authentication_opts : Bool → Authentication → List Opt
proxy_authentication_opts spnego auth =
    (if spnego && has_bit 4 auth then proxy_username [] ∷ proxy_password [] ∷ [] else [])
    ++ proxy_auth (as_auth spnego auth) ∷ []

abbrev pub credentials_opts : Credentials → List Opt
credentials_opts c = username c.username ∷ password c.password ∷ []

abbrev pub proxy_credentials_opts : Credentials → List Opt
proxy_credentials_opts c = proxy_username c.username ∷ proxy_password c.password ∷ []

unfoldable pub version_opts : Bool → VersionNegotiation → List Opt
version_opts http2 latest_compatible = if http2 then http_version v2_tls ∷ [] else []
version_opts http2 (strict version) = http_version version ∷ []

unfoldable pub dialer_opts : Dialer → List Opt
dialer_opts default_dialer = connect_to [] ∷ unix_socket_path none ∷ []
dialer_opts (ip_socket address) = connect_to (address ∷ []) ∷ unix_socket_path none ∷ []
dialer_opts (unix_socket path) = connect_to [] ∷ unix_socket_path (some path) ∷ []

unfoldable pub cache_opts : DnsCache → List Opt
cache_opts disable_cache = dns_cache_timeout (seconds 0) ∷ []
cache_opts (cache_timeout duration) = dns_cache_timeout (as_i64 (duration / 1000000000)) ∷ []
cache_opts cache_forever = dns_cache_timeout (minus 1) ∷ []

abbrev pub proxy_text : (Uri → Bytes) → Option Uri → Bytes
proxy_text show none = []
proxy_text show (some uri) = show uri

-- The features of the build and of curl that decide, and `Display for Uri` of the http crate.
pub record Features : Type 0 where
  pub spnego : Bool
  pub http2 : Bool
  pub engine : Engine
  pub answers : Answers
  pub proxy_answers : Answers
  pub show_uri : Uri → Bytes

module _ (features : Features) where
  -- `SetOpt for RequestConfig`: how the connection is made, and who asks.
  connection_opts : RequestConfig → List Opt
  connection_opts c =
      given c.timeout (λ t. timeout t ∷ [])
      ++ (given c.low_speed_timeout (λ l. low_speed_limit l.0 ∷ low_speed_time l.1 ∷ [])
          ++ (given c.connect_timeout (λ t. connect_timeout t ∷ [])
              ++ (given c.version_negotiation (version_opts features.http2)
                  ++ (given c.automatic_decompression
                        (λ enable. accept_encoding (if enable then some [] else none) ∷ [])
                      ++ given c.expect_continue
                          (λ expect. given expect.timeout (λ t. expect_100_timeout t ∷ []))))))

  user_opts : RequestConfig → List Opt
  user_opts c =
      given c.authentication (authentication_opts features.spnego)
      ++ given c.credentials credentials_opts

  socket_opts : RequestConfig → List Opt
  socket_opts c =
      given c.tcp_keepalive (λ t. tcp_keepalive true ∷ tcp_keepintvl t ∷ [])
      ++ (given c.tcp_nodelay (λ enable. tcp_nodelay enable ∷ [])
          ++ (given c.interface (λ name. interface name ∷ [])
              ++ (given c.ip_version (λ version. ip_resolve version ∷ [])
                  ++ given c.dial dialer_opts)))

  proxy_opts : RequestConfig → List Opt
  proxy_opts c =
      given c.proxy (λ uri. proxy (proxy_text features.show_uri uri) ∷ [])
      ++ (given c.proxy_blacklist (λ hosts. noproxy hosts ∷ [])
          ++ (given c.proxy_authentication (proxy_authentication_opts features.spnego)
              ++ given c.proxy_credentials proxy_credentials_opts))

  speed_opts : RequestConfig → List Opt
  speed_opts c =
      given c.max_upload_speed (λ max. max_send_speed max ∷ [])
      ++ given c.max_download_speed (λ max. max_recv_speed max ∷ [])

  progress_opts : RequestConfig → List Opt
  progress_opts c = given c.enable_metrics (λ enable. progress enable ∷ [])

  -- The options in front of those about TLS.
  unfoldable pub plain_opts : RequestConfig → List Opt
  unfolding connection_opts user_opts socket_opts proxy_opts speed_opts
  plain_opts c =
      connection_opts c ++ (user_opts c ++ (socket_opts c ++ (proxy_opts c ++ speed_opts c)))

  unfoldable pub request_opts : RequestConfig → Outcome ErrorKind (List Opt)
  unfolding progress_opts
  request_opts c = do
    origin ← given_tls c.tls_config (tls_opts features.answers features.engine)
    via_proxy ← given_tls c.proxy_tls_config (proxy_tls_opts features.proxy_answers)
    ok (plain_opts c ++ (map origin_tls origin ++ (map via_proxy_tls via_proxy ++ progress_opts c)))

-- `SetOpt for ClientConfig`
unfoldable pub client_opts : ClientConfig → List Opt
client_opts c =
    given c.connection_cache_ttl (λ ttl. maxage_conn ttl ∷ [])
    ++ (given c.dns_cache cache_opts
        ++ (given c.dns_resolve (λ entries. resolve entries ∷ [])
            ++ forbid_reuse c.close_connections ∷ []))
