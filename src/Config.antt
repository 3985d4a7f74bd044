-- ===== src/Config.antt =====
-- src/config/request.rs, src/config/redirect.rs, src/config/client.rs and the types that they take
-- from src/config: what a request or a client is configured with. A duration is its nanoseconds.
pub mod Options
pub mod Configurable
pub mod Merging
pub mod Dial
pub mod Auth
mod Examples
use isahc.Prelude.{ℕ, ◌*◌, Bool, true, false, Option, none, some, List, or_else}
use isahc.Prelude.Bytes.{Bytes}
use isahc.Http.{Uri}
use isahc.Tls.{TlsConfig, Engine, default_tls}

pub data RedirectPolicy : Type 0 where
  no_redirects follow_redirects : RedirectPolicy
  limit_redirects : ℕ → RedirectPolicy

abbrev pub default_policy : RedirectPolicy
default_policy = no_redirects

-- `auth::Authentication` is a set of bits.
abbrev pub Authentication : Type 0
Authentication = ℕ

pub record Credentials : Type 0 where
  pub username : Bytes
  pub password : Bytes

-- `curl::easy::HttpVersion`
pub data HttpVersion : Type 0 where
  v10 v11 v2_prior_knowledge v2_tls v3 : HttpVersion

pub data VersionNegotiation : Type 0 where
  latest_compatible : VersionNegotiation
  strict : HttpVersion → VersionNegotiation

pub data IpVersion : Type 0 where
  ip_v4 ip_v6 ip_any : IpVersion

pub record ExpectContinue : Type 0 where
  pub timeout : Option ℕ

abbrev pub expect_enabled : ExpectContinue
expect_enabled = record { timeout = some (1 * 1000000000) }

abbrev pub expect_disabled : ExpectContinue
expect_disabled = record { timeout = none }

-- `ExpectContinue::is_disabled`
abbrev pub is_disabled : ExpectContinue → Bool
is_disabled expect = elim expect.timeout [ none ↦ true | some timeout ↦ false ]

pub data Dialer : Type 0 where
  default_dialer : Dialer
  ip_socket unix_socket : Bytes → Dialer

pub data DnsCache : Type 0 where
  disable_cache cache_forever : DnsCache
  cache_timeout : ℕ → DnsCache

pub record RequestConfig : Type 0 where
  pub timeout : Option ℕ
  pub connect_timeout : Option ℕ
  pub low_speed_timeout : Option (ℕ × ℕ)
  pub version_negotiation : Option VersionNegotiation
  pub automatic_decompression : Option Bool
  pub expect_continue : Option ExpectContinue
  pub authentication : Option Authentication
  pub credentials : Option Credentials
  pub tcp_keepalive : Option ℕ
  pub tcp_nodelay : Option Bool
  pub interface : Option (Option Bytes)
  pub ip_version : Option IpVersion
  pub dial : Option Dialer
  pub proxy : Option (Option Uri)
  pub proxy_blacklist : Option Bytes
  pub proxy_authentication : Option Authentication
  pub proxy_credentials : Option Credentials
  pub max_upload_speed : Option ℕ
  pub max_download_speed : Option ℕ
  pub enable_metrics : Option Bool
  pub tls_config : Option TlsConfig
  pub proxy_tls_config : Option TlsConfig
  pub redirect_policy : Option RedirectPolicy
  pub auto_referer : Option Bool
  pub title_case_headers : Option Bool

-- `RequestConfig::default`
abbrev pub no_config : RequestConfig
no_config = record {
  timeout = none;
  connect_timeout = none;
  low_speed_timeout = none;
  version_negotiation = none;
  automatic_decompression = none;
  expect_continue = none;
  authentication = none;
  credentials = none;
  tcp_keepalive = none;
  tcp_nodelay = none;
  interface = none;
  ip_version = none;
  dial = none;
  proxy = none;
  proxy_blacklist = none;
  proxy_authentication = none;
  proxy_credentials = none;
  max_upload_speed = none;
  max_download_speed = none;
  enable_metrics = none;
  tls_config = none;
  proxy_tls_config = none;
  redirect_policy = none;
  auto_referer = none;
  title_case_headers = none;
}

-- `RequestConfig::client_defaults`
abbrev pub client_defaults : Engine → RequestConfig
client_defaults engine = record no_config {
  version_negotiation = some latest_compatible;
  automatic_decompression = some true;
  authentication = some 0;
  tls_config = some (default_tls engine);
}

-- `RequestConfig::merge`
unfoldable pub merge : RequestConfig → RequestConfig → RequestConfig
merge c defaults = record {
  timeout = or_else c.timeout defaults.timeout;
  connect_timeout = or_else c.connect_timeout defaults.connect_timeout;
  low_speed_timeout = or_else c.low_speed_timeout defaults.low_speed_timeout;
  version_negotiation = or_else c.version_negotiation defaults.version_negotiation;
  automatic_decompression = or_else c.automatic_decompression defaults.automatic_decompression;
  expect_continue = or_else c.expect_continue defaults.expect_continue;
  authentication = or_else c.authentication defaults.authentication;
  credentials = or_else c.credentials defaults.credentials;
  tcp_keepalive = or_else c.tcp_keepalive defaults.tcp_keepalive;
  tcp_nodelay = or_else c.tcp_nodelay defaults.tcp_nodelay;
  interface = or_else c.interface defaults.interface;
  ip_version = or_else c.ip_version defaults.ip_version;
  dial = or_else c.dial defaults.dial;
  proxy = or_else c.proxy defaults.proxy;
  proxy_blacklist = or_else c.proxy_blacklist defaults.proxy_blacklist;
  proxy_authentication = or_else c.proxy_authentication defaults.proxy_authentication;
  proxy_credentials = or_else c.proxy_credentials defaults.proxy_credentials;
  max_upload_speed = or_else c.max_upload_speed defaults.max_upload_speed;
  max_download_speed = or_else c.max_download_speed defaults.max_download_speed;
  enable_metrics = or_else c.enable_metrics defaults.enable_metrics;
  tls_config = or_else c.tls_config defaults.tls_config;
  proxy_tls_config = or_else c.proxy_tls_config defaults.proxy_tls_config;
  redirect_policy = or_else c.redirect_policy defaults.redirect_policy;
  auto_referer = or_else c.auto_referer defaults.auto_referer;
  title_case_headers = or_else c.title_case_headers defaults.title_case_headers;
}

pub record ClientConfig : Type 0 where
  pub connection_cache_ttl : Option ℕ
  pub close_connections : Bool
  pub dns_cache : Option DnsCache
  pub dns_resolve : Option (List Bytes)
