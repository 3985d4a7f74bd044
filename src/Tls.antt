-- ===== src/Tls.antt =====
-- src/tls: what a client trusts and shows in a TLS handshake, and how it is built. Certificates and keys
-- are bytes that go to curl unread.
pub mod Options
pub mod Says
pub mod Verify
mod Examples
use isahc.Prelude.{
  ℕ, ◌+◌, ◌*◌, ◌/◌, ◌%◌, ◌^◌, leb, Bool, true, false, ◌&&◌, ◌||◌, Option, none, some, List, [], ◌∷◌,
  ◌++◌, if◌then◌else◌,
}
use isahc.Prelude.Bytes.{Bytes, codes, starts_with}

-- `ProtocolVersion`
pub data ProtocolVersion : Type 0 where
  sslv2 sslv3 tlsv10 tlsv11 tlsv12 tlsv13 : ProtocolVersion

-- `curl::easy::SslVersion`, of the versions that the program asks for.
pub data SslVersion : Type 0 where
  default_version : SslVersion
  curl_version : ProtocolVersion → SslVersion

-- `curl::easy::SslOpt`, of the flags that the program sets.
pub record SslOpt : Type 0 where
  pub no_revoke : Bool
  pub native_ca : Bool

pub data TrustStore : Type 0 where
  no_op unset native_store : TrustStore
  file_path pem_bundle : Bytes → TrustStore

pub data CertFormat : Type 0 where
  pem der pkcs12 : CertFormat

-- `CertFormat::as_str`
abbrev pub format_as_str : CertFormat → Bytes
format_as_str pem = codes "PEM"
format_as_str der = codes "DER"
format_as_str pkcs12 = codes "P12"

pub data PathOrBlob : Type 0 where
  path blob : Bytes → PathOrBlob

pub record PrivateKey : Type 0 where
  pub format : CertFormat
  pub data_of : PathOrBlob
  pub password : Option Bytes

pub record Identity : Type 0 where
  pub format : CertFormat
  pub data_of : PathOrBlob
  pub private_key : Option PrivateKey
  pub password : Option Bytes

-- The constructors of `Identity` and `PrivateKey`, by what they are given: bytes or the path of a file.
abbrev pub identity_from_pem : PathOrBlob → Option PrivateKey → Identity
identity_from_pem at key = record { format = pem; data_of = at; private_key = key; password = none }

abbrev pub identity_from_der : PathOrBlob → Option PrivateKey → Identity
identity_from_der at key = record { format = der; data_of = at; private_key = key; password = none }

abbrev pub identity_from_pkcs12 : PathOrBlob → Option Bytes → Identity
identity_from_pkcs12 at password = record {
  format = pkcs12;
  data_of = at;
  private_key = none;
  password = password;
}

abbrev pub key_from_pem : PathOrBlob → Option Bytes → PrivateKey
key_from_pem at password = record { format = pem; data_of = at; password = password }

abbrev pub key_from_der : PathOrBlob → Option Bytes → PrivateKey
key_from_der at password = record { format = der; data_of = at; password = password }

-- What the build and the environment decide: the feature `rustls-tls-webpki-roots` with its roots, the
-- version of curl, the text of its TLS engine, the variable `SSL_CERT_FILE`, and the encoder of the
-- crate pem_rfc7468.
pub record Engine : Type 0 where
  pub webpki_roots : Option (List Bytes)
  pub version_num : ℕ
  pub ssl_version : Option Bytes
  pub ssl_cert_file : Option Bytes
  pub encode_pem : Bytes → Bytes → Bytes

-- `str::contains`
unfoldable pub contains_text : Bytes → Bytes → Bool
contains_text [] part = starts_with [] part
contains_text (c ∷ cs) part = starts_with (c ∷ cs) part || contains_text cs part

-- `TlsEngine::is_available`, of the text that names the engine.
unfoldable pub is_available : Engine → Bytes → Bool
is_available engine name = elim engine.ssl_version [
  | none ↦ false
  | some version ↦ contains_text version name
]

abbrev pub rustls : Bytes
rustls = codes "rustls/"

abbrev pub schannel : Bytes
schannel = codes "Schannel"

abbrev pub secure_transport : Bytes
secure_transport = codes "SecureTransport"

-- `info::curl_version`: each part is cut to eight bits.
unfoldable pub curl_version_of : ℕ → ℕ × ℕ × ℕ
curl_version_of bits = (bits / 2 ^ 16 % 256, bits / 2 ^ 8 % 256, bits % 256)

-- `curl_version() >= (8, 13, 0)`
unfoldable pub has_native_ca : ℕ × ℕ × ℕ → Bool
has_native_ca (major, minor, patch) = leb 9 major || leb 8 major && leb 13 minor

-- `TrustStore::new_native`
unfoldable pub new_native : Engine → TrustStore
new_native engine = elim engine.ssl_cert_file [
  | some (c ∷ cs) ↦ file_path (c ∷ cs)
  | _ ↦
      if is_available engine rustls && has_native_ca (curl_version_of engine.version_num)
      then native_store
      else if is_available engine schannel || is_available engine secure_transport
      then unset
      else no_op
]

-- `TrustStoreBuilder`: the bundle so far.
abbrev pub certificate_from_pem : Bytes → Bytes → Bytes
certificate_from_pem bundle text = bundle ++ text

abbrev pub certificate_from_der : Engine → Bytes → Bytes → Bytes
certificate_from_der engine bundle bytes = bundle ++ engine.encode_pem (codes "CERTIFICATE") bytes

-- The fold of `TrustStore::webpki_roots`.
unfoldable pub bundle_of : Engine → List Bytes → Bytes → Bytes
bundle_of engine [] bundle = bundle
bundle_of engine (cert ∷ more) bundle =
    bundle_of engine more (certificate_from_der engine bundle cert)

-- `TrustStore::default`
unfoldable pub default_store : Engine → TrustStore
default_store engine = elim engine.webpki_roots [
  | none ↦ new_native engine
  | some roots ↦ pem_bundle (bundle_of engine roots [])
]

-- A certificate is its PEM text.
pub record TlsConfigBuilder : Type 0 where
  pub trust_store : TrustStore
  pub issuer_cert : Option Bytes
  pub identity : Option Identity
  pub ciphers : Option Bytes
  pub min_version : Option ProtocolVersion
  pub max_version : Option ProtocolVersion
  pub danger_accept_invalid_certs : Bool
  pub danger_accept_invalid_hosts : Bool
  pub danger_accept_revoked_certs : Bool

pub record TlsConfig : Type 0 where
  pub trust_store : TrustStore
  pub issuer_cert : Option Bytes
  pub identity : Option Identity
  pub ciphers : Option Bytes
  pub min_version : Option SslVersion
  pub max_version : Option SslVersion
  pub danger_accept_invalid_certs : Bool
  pub danger_accept_invalid_hosts : Bool
  pub curl_flags : SslOpt

-- `TlsConfigBuilder::default`
abbrev pub default_builder : Engine → TlsConfigBuilder
default_builder engine = record {
  trust_store = default_store engine;
  issuer_cert = none;
  identity = none;
  ciphers = none;
  min_version = none;
  max_version = none;
  danger_accept_invalid_certs = false;
  danger_accept_invalid_hosts = false;
  danger_accept_revoked_certs = false;
}

-- The setters of `TlsConfigBuilder`.
abbrev pub set_trust_store : TrustStore → TlsConfigBuilder → TlsConfigBuilder
set_trust_store store b = record b { trust_store = store }

abbrev pub set_issuer_certificate : Bytes → TlsConfigBuilder → TlsConfigBuilder
set_issuer_certificate cert b = record b { issuer_cert = some cert }

abbrev pub set_identity : Identity → TlsConfigBuilder → TlsConfigBuilder
set_identity i b = record b { identity = some i }

abbrev pub set_min_version : ProtocolVersion → TlsConfigBuilder → TlsConfigBuilder
set_min_version version b = record b { min_version = some version }

abbrev pub set_max_version : ProtocolVersion → TlsConfigBuilder → TlsConfigBuilder
set_max_version version b = record b { max_version = some version }

abbrev pub accept_invalid_certs : Bool → TlsConfigBuilder → TlsConfigBuilder
accept_invalid_certs accept b = record b { danger_accept_invalid_certs = accept }

abbrev pub accept_invalid_hosts : Bool → TlsConfigBuilder → TlsConfigBuilder
accept_invalid_hosts accept b = record b { danger_accept_invalid_hosts = accept }

abbrev pub accept_revoked_certs : Bool → TlsConfigBuilder → TlsConfigBuilder
accept_revoked_certs accept b = record b { danger_accept_revoked_certs = accept }

joined_by_colons : Bytes → List Bytes → Bytes
joined_by_colons text [] = text
joined_by_colons text (cipher ∷ more) = joined_by_colons (text ++ b':' ∷ cipher) more

-- `TlsConfigBuilder::ciphers`
unfoldable pub set_ciphers : List Bytes → TlsConfigBuilder → TlsConfigBuilder
unfolding joined_by_colons
set_ciphers [] b = record b { ciphers = none }
set_ciphers (first ∷ more) b = record b { ciphers = some (joined_by_colons first more) }

-- `TrustStore::configure_ssl_options`
abbrev pub wants_native_ca : TrustStore → Bool
wants_native_ca native_store = true
wants_native_ca _ = false

-- `ProtocolVersion::as_curl_ssl_version`, of a version that is set.
abbrev pub as_curl : Option ProtocolVersion → Option SslVersion
as_curl none = none
as_curl (some version) = some (curl_version version)

-- `TlsConfigBuilder::build`
unfoldable pub build_tls : TlsConfigBuilder → TlsConfig
build_tls b = record {
  trust_store = b.trust_store;
  issuer_cert = b.issuer_cert;
  identity = b.identity;
  ciphers = b.ciphers;
  min_version = as_curl b.min_version;
  max_version = as_curl b.max_version;
  danger_accept_invalid_certs = b.danger_accept_invalid_certs;
  danger_accept_invalid_hosts = b.danger_accept_invalid_hosts;
  curl_flags = record {
    no_revoke = b.danger_accept_revoked_certs;
    native_ca = wants_native_ca b.trust_store;
  };
}

-- `TlsConfig::default`
abbrev pub default_tls : Engine → TlsConfig
default_tls engine = build_tls (default_builder engine)
