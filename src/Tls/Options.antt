-- ===== src/Tls/Options.antt =====
-- The `SetOpt` and `SetOptProxy` implementations of src/tls: the options that curl is given for TLS, to
-- the server or to a proxy, in their order, or the error that stops them.
use isahc.Prelude.{
  Bool, true, false, not, ◌&&◌, Option, none, some, List, [], ◌∷◌, ◌++◌, if◌then◌else◌, unwrap_or,
}
use isahc.Prelude.Bytes.{Bytes}
use isahc.Prelude.Text.{is_utf8}
use isahc.Prelude.Outcome.{Outcome, ok, err, panic, ◌>>=◌}
use isahc.Error.{ErrorKind, tls_engine, invalid_tls_configuration}
use isahc.Tls.{
  tlsv12, tlsv13, SslVersion, default_version, curl_version, SslOpt, TrustStore, no_op, unset,
  native_store, file_path, pem_bundle, format_as_str, PathOrBlob, path, blob, PrivateKey, Identity,
  Engine, is_available, rustls, TlsConfig,
}

-- The options, each of which curl has once for the server and once for a proxy. A file that is `none`
-- is set to null.
pub data TlsOpt : Type 0 where
  cipher_list cainfo_blob issuer_cert_blob cert_type cert cert_blob : Bytes → TlsOpt
  key_type key key_blob key_password : Bytes → TlsOpt
  cainfo capath : Option Bytes → TlsOpt
  ssl_options : SslOpt → TlsOpt
  verify_peer verify_host : Bool → TlsOpt
  min_max_version : SslVersion → SslVersion → TlsOpt

abbrev pub Set : Type 0
Set = Outcome ErrorKind (List TlsOpt)

abbrev pub given_tls {ℓ} : {A : Type ℓ} → Option A → (A → Set) → Set
given_tls none set = ok []
given_tls (some value) set = set value

-- One call after another.
infixr 5 ◌then_set◌
abbrev pub ◌then_set◌ : Set → Set → Set
a then_set b = do first ← a; rest ← b; ok (first ++ rest)

-- The text of a path, which the proxy options unwrap.
abbrev pub to_str_unwrap : Bytes → (Bytes → Set) → Set
to_str_unwrap file set = if is_utf8 file then set file else panic

-- The maximum versions that rustls has.
unfoldable pub is_modern : Option SslVersion → Bool
is_modern none = true
is_modern (some default_version) = true
is_modern (some (curl_version tlsv12)) = true
is_modern (some (curl_version tlsv13)) = true
is_modern (some (curl_version _)) = false

-- Rustls is asked for no version that it has.
abbrev pub refuse_old : Bool → Set
refuse_old true = err tls_engine
refuse_old false = ok []

-- What curl says to an option: nothing, or the error with which it refuses it.
abbrev pub Answers : Type 0
Answers = TlsOpt → Option ErrorKind

module _ (curl : Answers) where
  -- One call of a setter of curl, and its `?`.
  unfoldable pub offer : TlsOpt → Set
  offer opt = elim (curl opt) [ none ↦ ok (opt ∷ []) | some kind ↦ err kind ]

  -- Where a certificate or a key is.
  unfoldable pub cert_at : PathOrBlob → Set
  cert_at (path file) = offer (cert file)
  cert_at (blob bytes) = offer (cert_blob bytes)

  unfoldable pub key_at : PathOrBlob → Set
  key_at (path file) = offer (key file)
  key_at (blob bytes) = offer (key_blob bytes)

  unfoldable pub proxy_cert_at : PathOrBlob → Set
  proxy_cert_at (path file) = to_str_unwrap file (λ text. offer (cert text))
  proxy_cert_at (blob bytes) = offer (cert_blob bytes)

  unfoldable pub proxy_key_at : PathOrBlob → Set
  proxy_key_at (path file) = to_str_unwrap file (λ text. offer (key text))
  proxy_key_at (blob bytes) = offer (key_blob bytes)

  abbrev pub password_opts : Option Bytes → Set
  password_opts password = given_tls password (λ text. offer (key_password text))

  -- `SetOpt for PrivateKey`, `SetOpt for Identity`
  unfoldable pub key_opts : PrivateKey → Set
  key_opts k =
      offer (key_type (format_as_str k.format))
      then_set key_at k.data_of
      then_set password_opts k.password

  unfoldable pub identity_opts : Identity → Set
  identity_opts i =
      offer (cert_type (format_as_str i.format))
      then_set cert_at i.data_of
      then_set given_tls i.private_key key_opts
      then_set password_opts i.password

  unfoldable pub trust_opts : TrustStore → Set
  trust_opts native_store = ok []
  trust_opts no_op = ok []
  trust_opts (file_path file) = offer (cainfo (some file))
  trust_opts (pem_bundle bytes) = offer (cainfo_blob bytes)
  trust_opts unset = offer (cainfo none) then_set offer (capath none)

  -- `SetOptProxy for PrivateKey`, `SetOptProxy for Identity`
  unfoldable pub proxy_key_opts : PrivateKey → Set
  proxy_key_opts k =
      offer (key_type (format_as_str k.format))
      then_set proxy_key_at k.data_of
      then_set password_opts k.password

  unfoldable pub proxy_identity_opts : Identity → Set
  proxy_identity_opts i =
      offer (cert_type (format_as_str i.format))
      then_set proxy_cert_at i.data_of
      then_set given_tls i.private_key proxy_key_opts
      then_set password_opts i.password

  unfoldable pub proxy_trust_opts : TrustStore → Set
  proxy_trust_opts native_store = ok []
  proxy_trust_opts no_op = ok []
  proxy_trust_opts (file_path file) =
      if is_utf8 file then offer (cainfo (some file)) else err invalid_tls_configuration
  proxy_trust_opts (pem_bundle bytes) = offer (cainfo_blob bytes)
  proxy_trust_opts unset = offer (cainfo none) then_set offer (capath none)

  -- The parts that both implementations share: what stands before the verification, and after it.
  abbrev pub cipher_opts : TlsConfig → Set
  cipher_opts c =
      given_tls c.ciphers (λ text. offer (cipher_list text))
      then_set offer (ssl_options c.curl_flags)

  abbrev pub min_max_opts : TlsConfig → Set
  min_max_opts c = offer (
      min_max_version (unwrap_or c.min_version default_version)
        (unwrap_or c.max_version default_version))

  abbrev pub issuer_opts : TlsConfig → Set
  issuer_opts c = given_tls c.issuer_cert (λ text. offer (issuer_cert_blob text))

  -- `SetOpt for TlsConfig`
  unfoldable pub tls_opts : Engine → TlsConfig → Set
  tls_opts engine c =
      cipher_opts c
      then_set offer (verify_peer (not c.danger_accept_invalid_certs))
      then_set offer (verify_host (not c.danger_accept_invalid_hosts))
      then_set refuse_old (is_available engine rustls && not (is_modern c.max_version))
      then_set min_max_opts c
      then_set trust_opts c.trust_store
      then_set issuer_opts c
      then_set given_tls c.identity identity_opts

  -- `SetOptProxy for TlsConfig`
  unfoldable pub proxy_tls_opts : TlsConfig → Set
  proxy_tls_opts c =
      cipher_opts c
      then_set offer (verify_peer c.danger_accept_invalid_certs)
      then_set offer (verify_host c.danger_accept_invalid_hosts)
      then_set min_max_opts c
      then_set proxy_trust_opts c.trust_store
      then_set issuer_opts c
      then_set given_tls c.identity proxy_identity_opts
