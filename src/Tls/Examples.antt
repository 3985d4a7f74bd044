-- ===== src/Tls/Examples.antt =====
-- The theorems on TLS at a client built for rustls.
use isahc.Prelude.{refl, ◌≡◌, ◌⊎◌, true, false, none, some, List, [], ◌∷◌, ◌++◌}
use isahc.Prelude.Bytes.{codes, starts_with}
use isahc.Prelude.Outcome.{ok, err}
use isahc.Error.{ErrorKind, tls_engine, bad_client_certificate}
use isahc.Tls.{
  Engine, TlsConfigBuilder, default_builder, tlsv12, set_min_version, set_ciphers,
  accept_invalid_certs, build_tls, identity_from_pem, key_from_pem, path, blob, set_identity,
  is_available, contains_text, default_store, bundle_of,
}
use isahc.Tls.Options.{
  TlsOpt, Answers, cert, tls_opts, offer, verify_peer, verify_host, is_modern, trust_opts,
  identity_opts, cert_at,
}
use isahc.Tls.Says.{verifications}
use isahc.Tls.Verify.{IsRefusal, is_refused, tls_opts-verifications}

-- Rustls as the TLS engine of curl 8.13.0, with one root certificate.
abbrev rustls_engine : Engine
rustls_engine = record {
  webpki_roots = some (codes "root" ∷ []);
  version_num = 527616;
  ssl_version = some (codes "rustls-ffi/0.14.0/rustls/0.23.13");
  ssl_cert_file = none;
  encode_pem = λ label bytes. label ++ bytes;
}

abbrev with_identity : TlsConfigBuilder
with_identity = set_min_version tlsv12 (
    set_ciphers (codes "A" ∷ codes "B" ∷ []) (
      set_identity
        (identity_from_pem (path (codes "client.pem"))
          (some (key_from_pem (blob (codes "key")) (some (codes "secret")))))
        (accept_invalid_certs true (default_builder rustls_engine))))

-- A curl that takes no certificate from a file.
abbrev curl : Answers
curl (cert file) = some bad_client_certificate
curl _ = none

refused_file : tls_opts curl rustls_engine (build_tls with_identity) ≡ err bad_client_certificate
unfolding tls_opts build_tls set_ciphers offer is_available contains_text starts_with is_modern
    trust_opts identity_opts cert_at default_store bundle_of
refused_file = refl

tls_opts-verifications_example :
    ((kind : ErrorKind) × IsRefusal curl kind
      × (tls_opts curl rustls_engine (build_tls with_identity) ≡ err kind))
    ⊎ ((is_refused rustls_engine (build_tls with_identity) ≡ true)
        × (tls_opts curl rustls_engine (build_tls with_identity) ≡ err tls_engine))
    ⊎ ((is_refused rustls_engine (build_tls with_identity) ≡ false)
        × (opts : List TlsOpt) × (tls_opts curl rustls_engine (build_tls with_identity) ≡ ok opts)
        × (verifications opts ≡ verify_peer false ∷ verify_host true ∷ []))
unfolding set_ciphers
tls_opts-verifications_example = tls_opts-verifications curl rustls_engine with_identity
