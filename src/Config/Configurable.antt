-- ===== src/Config/Configurable.antt =====
-- `Configurable` of src/config/mod.rs: the settings that a request and a client are configured with,
-- and what they are made from. An address is its text.
use isahc.Prelude.{ℕ, ◌*◌, Bool, true, Option, none, some, List, [], ◌∷◌, ◌++◌, if◌then◌else◌}
use isahc.Prelude.Bytes.{Bytes, codes}
use isahc.Http.{Uri}
use isahc.Tls.{TlsConfig}
use isahc.Config.{
  RequestConfig, VersionNegotiation, strict, v10, v11, v2_prior_knowledge, v3, RedirectPolicy,
  ExpectContinue, expect_enabled, expect_disabled, Authentication, Credentials, IpVersion, Dialer,
  DnsCache, cache_timeout,
}

-- `net::interface`: what names a network interface.
pub data Selector : Type 0 where
  any_interface : Selector
  ip_addr if_name : Bytes → Selector
  name_and_addr : Bytes → Bytes → Selector

-- `Selector::into_interface_string`
unfoldable pub into_interface_string : Selector → Option Bytes
into_interface_string any_interface = none
into_interface_string (ip_addr address) = some (codes "host!" ++ address)
into_interface_string (if_name name) = some (codes "if!" ++ name)
into_interface_string (name_and_addr name address) =
    some (codes "ifhost!" ++ name ++ b'!' ∷ address)

-- `FromIterator for Blacklist`
unfoldable pub join_commas : List Bytes → Bytes
join_commas [] = []
join_commas (host ∷ []) = host
join_commas (host ∷ next ∷ more) = host ++ b',' ∷ join_commas (next ∷ more)

-- `From<bool>` and `From<Duration>` for `ExpectContinue`
abbrev pub expect_from_bool : Bool → ExpectContinue
expect_from_bool value = if value then expect_enabled else expect_disabled

abbrev pub expect_from_duration : ℕ → ExpectContinue
expect_from_duration t = record { timeout = some t }

-- The constructors of `VersionNegotiation`.
abbrev pub negotiate_http10 : VersionNegotiation
negotiate_http10 = strict v10

abbrev pub negotiate_http11 : VersionNegotiation
negotiate_http11 = strict v11

abbrev pub negotiate_http2 : VersionNegotiation
negotiate_http2 = strict v2_prior_knowledge

abbrev pub negotiate_http3 : VersionNegotiation
negotiate_http3 = strict v3

-- `Default for DnsCache`, of a duration.
abbrev pub default_dns_cache : DnsCache
default_dns_cache = cache_timeout (60 * 1000000000)

-- `ResolveMap::add`, of a port and an address in text.
abbrev pub add_resolve : List Bytes → Bytes → Bytes → Bytes → List Bytes
add_resolve entries host port address = entries ++ (host ++ b':' ∷ port ++ b':' ∷ address) ∷ []

abbrev pub set_timeout : ℕ → RequestConfig → RequestConfig
set_timeout t c = record c { timeout = some t }

abbrev pub set_connect_timeout : ℕ → RequestConfig → RequestConfig
set_connect_timeout t c = record c { connect_timeout = some t }

abbrev pub set_low_speed_timeout : (ℕ × ℕ) → RequestConfig → RequestConfig
set_low_speed_timeout l c = record c { low_speed_timeout = some l }

abbrev pub set_version_negotiation : VersionNegotiation → RequestConfig → RequestConfig
set_version_negotiation n c = record c { version_negotiation = some n }

abbrev pub set_redirect_policy : RedirectPolicy → RequestConfig → RequestConfig
set_redirect_policy p c = record c { redirect_policy = some p }

abbrev pub set_auto_referer : RequestConfig → RequestConfig
set_auto_referer c = record c { auto_referer = some true }

abbrev pub set_automatic_decompression : Bool → RequestConfig → RequestConfig
set_automatic_decompression b c = record c { automatic_decompression = some b }

abbrev pub set_expect_continue : ExpectContinue → RequestConfig → RequestConfig
set_expect_continue e c = record c { expect_continue = some e }

abbrev pub set_authentication : Authentication → RequestConfig → RequestConfig
set_authentication a c = record c { authentication = some a }

abbrev pub set_credentials : Credentials → RequestConfig → RequestConfig
set_credentials x c = record c { credentials = some x }

abbrev pub set_tcp_keepalive : ℕ → RequestConfig → RequestConfig
set_tcp_keepalive t c = record c { tcp_keepalive = some t }

abbrev pub set_tcp_nodelay : RequestConfig → RequestConfig
set_tcp_nodelay c = record c { tcp_nodelay = some true }

abbrev pub set_interface : Selector → RequestConfig → RequestConfig
set_interface s c = record c { interface = some (into_interface_string s) }

abbrev pub set_ip_version : IpVersion → RequestConfig → RequestConfig
set_ip_version v c = record c { ip_version = some v }

abbrev pub set_dial : Dialer → RequestConfig → RequestConfig
set_dial x c = record c { dial = some x }

abbrev pub set_proxy : Option Uri → RequestConfig → RequestConfig
set_proxy u c = record c { proxy = some u }

abbrev pub set_proxy_blacklist : List Bytes → RequestConfig → RequestConfig
set_proxy_blacklist hosts c = record c { proxy_blacklist = some (join_commas hosts) }

abbrev pub set_proxy_authentication : Authentication → RequestConfig → RequestConfig
set_proxy_authentication a c = record c { proxy_authentication = some a }

abbrev pub set_proxy_credentials : Credentials → RequestConfig → RequestConfig
set_proxy_credentials x c = record c { proxy_credentials = some x }

abbrev pub set_max_upload_speed : ℕ → RequestConfig → RequestConfig
set_max_upload_speed m c = record c { max_upload_speed = some m }

abbrev pub set_max_download_speed : ℕ → RequestConfig → RequestConfig
set_max_download_speed m c = record c { max_download_speed = some m }

abbrev pub set_tls_config : TlsConfig → RequestConfig → RequestConfig
set_tls_config t c = record c { tls_config = some t }

abbrev pub set_proxy_tls_config : TlsConfig → RequestConfig → RequestConfig
set_proxy_tls_config t c = record c { proxy_tls_config = some t }

abbrev pub set_title_case_headers : Bool → RequestConfig → RequestConfig
set_title_case_headers b c = record c { title_case_headers = some b }

abbrev pub set_metrics : Bool → RequestConfig → RequestConfig
set_metrics b c = record c { enable_metrics = some b }

-- One call of a setter.
pub data Setting : Type 0 where
  with_timeout : ℕ → Setting
  with_connect_timeout : ℕ → Setting
  with_low_speed_timeout : (ℕ × ℕ) → Setting
  with_version_negotiation : VersionNegotiation → Setting
  with_redirect_policy : RedirectPolicy → Setting
  with_auto_referer : Setting
  with_automatic_decompression : Bool → Setting
  with_expect_continue : ExpectContinue → Setting
  with_authentication : Authentication → Setting
  with_credentials : Credentials → Setting
  with_tcp_keepalive : ℕ → Setting
  with_tcp_nodelay : Setting
  with_interface : Selector → Setting
  with_ip_version : IpVersion → Setting
  with_dial : Dialer → Setting
  with_proxy : Option Uri → Setting
  with_proxy_blacklist : List Bytes → Setting
  with_proxy_authentication : Authentication → Setting
  with_proxy_credentials : Credentials → Setting
  with_max_upload_speed : ℕ → Setting
  with_max_download_speed : ℕ → Setting
  with_tls_config : TlsConfig → Setting
  with_proxy_tls_config : TlsConfig → Setting
  with_title_case_headers : Bool → Setting
  with_metrics : Bool → Setting

unfoldable pub configure : Setting → RequestConfig → RequestConfig
configure (with_timeout t) c = set_timeout t c
configure (with_connect_timeout t) c = set_connect_timeout t c
configure (with_low_speed_timeout l) c = set_low_speed_timeout l c
configure (with_version_negotiation n) c = set_version_negotiation n c
configure (with_redirect_policy p) c = set_redirect_policy p c
configure with_auto_referer c = set_auto_referer c
configure (with_automatic_decompression b) c = set_automatic_decompression b c
configure (with_expect_continue e) c = set_expect_continue e c
configure (with_authentication a) c = set_authentication a c
configure (with_credentials x) c = set_credentials x c
configure (with_tcp_keepalive t) c = set_tcp_keepalive t c
configure with_tcp_nodelay c = set_tcp_nodelay c
configure (with_interface s) c = set_interface s c
configure (with_ip_version v) c = set_ip_version v c
configure (with_dial x) c = set_dial x c
configure (with_proxy u) c = set_proxy u c
configure (with_proxy_blacklist hosts) c = set_proxy_blacklist hosts c
configure (with_proxy_authentication a) c = set_proxy_authentication a c
configure (with_proxy_credentials x) c = set_proxy_credentials x c
configure (with_max_upload_speed m) c = set_max_upload_speed m c
configure (with_max_download_speed m) c = set_max_download_speed m c
configure (with_tls_config t) c = set_tls_config t c
configure (with_proxy_tls_config t) c = set_proxy_tls_config t c
configure (with_title_case_headers b) c = set_title_case_headers b c
configure (with_metrics b) c = set_metrics b c

-- Calls one after another, the first one first.
unfoldable pub configure_all : List Setting → RequestConfig → RequestConfig
configure_all [] c = c
configure_all (setting ∷ more) c = configure_all more (configure setting c)
