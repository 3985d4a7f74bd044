-- ===== src/Client/Plain.antt =====
-- The options of src/client.rs and src/config that are about neither the length of a body nor TLS.
use isahc.Prelude.{
  ℕ, ◌≡◌, refl, ◌∙◌, Bool, true, false, Option, none, some, List, ◌++◌, all, all-append, arith,
}
use isahc.Http.{Method}
use isahc.Config.{RequestConfig, ClientConfig, Dialer, DnsCache, VersionNegotiation}
use isahc.Config.Options.{
  Opt, post_field_size, in_filesize, origin_tls, via_proxy_tls, Features, plain_opts, client_opts,
  given, authentication_opts, proxy_authentication_opts, version_opts, dialer_opts, cache_opts,
}
use isahc.Client.Easy.{method_opts}

abbrev pub is_plain : Opt → Bool
is_plain (post_field_size len) = false
is_plain (in_filesize len) = false
is_plain (origin_tls opt) = false
is_plain (via_proxy_tls opt) = false
is_plain _ = true

pub record IsPlain (opts : List Opt) : Type 0 where
  pub plain : all is_plain opts ≡ true

both : (a b : List Opt) → IsPlain a → IsPlain b → IsPlain (a ++ b)
both a b e f = record { plain = all-append is_plain a b ∙ rw (e.plain, f.plain) refl }

given-IsPlain {ℓ} :
    {A : Type ℓ} (value : Option A) (opts : A → List Opt)
    → ((a : A) → IsPlain (opts a))
    → IsPlain (given value opts)
given-IsPlain none opts e = record { plain = refl }
given-IsPlain (some a) opts e = e a

version_opts-IsPlain : (http2 : Bool) (v : VersionNegotiation) → IsPlain (version_opts http2 v)
unfolding version_opts
version_opts-IsPlain http2 v = record { plain = ground arith }

authentication_opts-IsPlain :
    (spnego : Bool) (auth : ℕ)
    → IsPlain (authentication_opts spnego auth) × IsPlain (proxy_authentication_opts spnego auth)
unfolding authentication_opts proxy_authentication_opts
authentication_opts-IsPlain spnego auth =
    (record { plain = ground arith }, record { plain = ground arith })

dialer_opts-IsPlain : (dialer : Dialer) → IsPlain (dialer_opts dialer)
unfolding dialer_opts
dialer_opts-IsPlain dialer = record { plain = ground arith }

cache_opts-IsPlain : (cache : DnsCache) → IsPlain (cache_opts cache)
unfolding cache_opts
cache_opts-IsPlain cache = record { plain = ground arith }

pub method_opts-IsPlain :
    (method : Method) (has_body : Bool) → IsPlain (method_opts method has_body)
unfolding method_opts
method_opts-IsPlain method has_body = record { plain = ground arith }

pub plain_opts-IsPlain : (f : Features) (c : RequestConfig) → IsPlain (plain_opts f c)
unfolding plain_opts
plain_opts-IsPlain f c =
    both _ _
      (both _ _ (given-IsPlain c.timeout _ (λ t. record { plain = refl })) (
        both _ _ (given-IsPlain c.low_speed_timeout _ (λ l. record { plain = refl })) (
          both _ _ (given-IsPlain c.connect_timeout _ (λ t. record { plain = refl })) (
            both _ _ (given-IsPlain c.version_negotiation _ (version_opts-IsPlain f.http2)) (
              both _ _ (given-IsPlain c.automatic_decompression _ (λ b. record { plain = refl })) (
                given-IsPlain c.expect_continue _
                  (λ x. given-IsPlain x.timeout _ (λ t. record { plain = refl }))))))))
      (both _ _
        (both _ _
          (given-IsPlain c.authentication _ (λ a. (authentication_opts-IsPlain f.spnego a).0))
          (given-IsPlain c.credentials _ (λ x. record { plain = refl })))
        (both _ _
          (both _ _ (given-IsPlain c.tcp_keepalive _ (λ t. record { plain = refl })) (
            both _ _ (given-IsPlain c.tcp_nodelay _ (λ b. record { plain = refl })) (
              both _ _ (given-IsPlain c.interface _ (λ x. record { plain = refl })) (
                both _ _ (given-IsPlain c.ip_version _ (λ v. record { plain = refl }))
                  (given-IsPlain c.dial _ dialer_opts-IsPlain)))))
          (both _ _
            (both _ _ (given-IsPlain c.proxy _ (λ u. record { plain = refl })) (
              both _ _ (given-IsPlain c.proxy_blacklist _ (λ b. record { plain = refl })) (
                both _ _
                  (given-IsPlain c.proxy_authentication _
                    (λ a. (authentication_opts-IsPlain f.spnego a).1))
                  (given-IsPlain c.proxy_credentials _ (λ x. record { plain = refl })))))
            (both _ _ (given-IsPlain c.max_upload_speed _ (λ m. record { plain = refl }))
              (given-IsPlain c.max_download_speed _ (λ m. record { plain = refl }))))))

pub client_opts-IsPlain : (c : ClientConfig) → IsPlain (client_opts c)
unfolding client_opts
client_opts-IsPlain c =
    both _ _ (given-IsPlain c.connection_cache_ttl _ (λ t. record { plain = refl })) (
      both _ _ (given-IsPlain c.dns_cache _ cache_opts-IsPlain) (
        both _ _ (given-IsPlain c.dns_resolve _ (λ r. record { plain = refl }))
          (record { plain = refl })))
