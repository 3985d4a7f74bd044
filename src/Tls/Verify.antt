-- ===== src/Tls/Verify.antt =====
-- When the options of src/tls are refused, and what else curl is told of verification.
use isahc.Prelude.{
  ◌≡◌, refl, ◌⊎◌, inl, inr, Bool, true, false, not, ◌&&◌, Option, none, some, List, [], ◌∷◌, ◌++◌,
  Bool-cases, Option-cases,
}
use isahc.Prelude.Bytes.{Bytes}
use isahc.Prelude.Outcome.{ok, err}
use isahc.Error.{ErrorKind, tls_engine}
use isahc.Tls.{
  PathOrBlob, path, blob, PrivateKey, Identity, TrustStore, no_op, unset, native_store, file_path,
  pem_bundle, Engine, is_available, rustls, TlsConfig, TlsConfigBuilder, build_tls,
}
use isahc.Tls.Says.{verifications, tls_opts-Says}
use isahc.Tls.Options.{
  TlsOpt, verify_peer, verify_host, cert_at, key_at, password_opts, Set, Answers, offer, given_tls,
  ◌then_set◌, key_opts, identity_opts, trust_opts, is_modern, cipher_opts, tls_opts,
}

-- Does the configuration ask rustls for no version above 1.1?
abbrev pub is_refused : Engine → TlsConfig → Bool
is_refused engine c = is_available engine rustls && not (is_modern c.max_version)

module _ (curl : Answers) where
  -- A call of setters sets options that curl takes, or returns the error with which curl refuses one.
  abbrev pub IsRefusal : ErrorKind → Type 0
  IsRefusal kind = (opt : TlsOpt) × (curl opt ≡ some kind)

  abbrev pub Ends : Set → Type 0
  Ends set =
      ((opts : List TlsOpt) × (set ≡ ok opts))
      ⊎ ((kind : ErrorKind) × IsRefusal kind × (set ≡ err kind))

  set-Ends : (opts : List TlsOpt) → Ends (ok opts)
  set-Ends opts = inl (opts, refl)

  offer-Ends : (opt : TlsOpt) → Ends (offer curl opt)
  unfolding offer
  offer-Ends opt = elim (Option-cases (curl opt)) [
    | inl takes ↦ inl (opt ∷ [], rw (offer, takes) refl)
    | inr (kind, refuses) ↦ inr (kind, (opt, refuses), rw (offer, refuses) refl)
  ]

  then-Ends : (a b : Set) → Ends a → Ends b → Ends (a then_set b)
  then-Ends a b (inl (x, e)) (inl (y, f)) = inl (x ++ y, rw (e, f) refl)
  then-Ends a b (inl (x, e)) (inr (kind, refusal, f)) = inr (kind, refusal, rw (e, f) refl)
  then-Ends a b (inr (kind, refusal, e)) other = inr (kind, refusal, rw e refl)

  given-Ends {ℓ} :
      {A : Type ℓ} (value : Option A) (set : A → Set)
      → ((a : A) → Ends (set a))
      → Ends (given_tls value set)
  given-Ends none set o = set-Ends []
  given-Ends (some a) set o = o a

  key_at-Ends : (at : PathOrBlob) → Ends (key_at curl at)
  unfolding key_at
  key_at-Ends (path file) = offer-Ends _
  key_at-Ends (blob bytes) = offer-Ends _

  cert_at-Ends : (at : PathOrBlob) → Ends (cert_at curl at)
  unfolding cert_at
  cert_at-Ends (path file) = offer-Ends _
  cert_at-Ends (blob bytes) = offer-Ends _

  password-Ends : (password : Option Bytes) → Ends (password_opts curl password)
  password-Ends password = given-Ends password _ (λ text. (offer-Ends _))

  key_opts-Ends : (k : PrivateKey) → Ends (key_opts curl k)
  unfolding key_opts
  key_opts-Ends k =
      then-Ends _ _ (offer-Ends _)
        (then-Ends _ _ (key_at-Ends k.data_of) (password-Ends k.password))

  identity_opts-Ends : (i : Identity) → Ends (identity_opts curl i)
  unfolding identity_opts
  identity_opts-Ends i = then-Ends _ _ (offer-Ends _) (
      then-Ends _ _ (cert_at-Ends i.data_of) (
        then-Ends _ _ (given-Ends i.private_key (key_opts curl) key_opts-Ends)
          (password-Ends i.password)))

  trust_opts-Ends : (store : TrustStore) → Ends (trust_opts curl store)
  unfolding trust_opts
  trust_opts-Ends native_store = set-Ends _
  trust_opts-Ends no_op = set-Ends _
  trust_opts-Ends (file_path file) = offer-Ends _
  trust_opts-Ends (pem_bundle bytes) = offer-Ends _
  trust_opts-Ends unset = then-Ends _ _ (offer-Ends _) (offer-Ends _)

  cipher_opts-Ends : (c : TlsConfig) → Ends (cipher_opts curl c)
  cipher_opts-Ends c =
      then-Ends _ _ (given-Ends c.ciphers _ (λ text. (offer-Ends _))) (offer-Ends _)

  -- A call of setters that does not succeed.
  abbrev Errs : Set → Type 0
  Errs set = ((kind : ErrorKind) × IsRefusal kind × (set ≡ err kind)) ⊎ (set ≡ err tls_engine)

  then-Errs : (a b : Set) → Ends a → Errs b → Errs (a then_set b)
  then-Errs a b (inl (x, e)) (inl (kind, refusal, f)) = inl (kind, refusal, rw (e, f) refl)
  then-Errs a b (inl (x, e)) (inr f) = inr (rw (e, f) refl)
  then-Errs a b (inr (kind, refusal, e)) other = inl (kind, refusal, rw e refl)

  tls_opts-Errs :
      (engine : Engine) (c : TlsConfig) → is_refused engine c ≡ true → Errs (tls_opts curl engine c)
  unfolding tls_opts
  tls_opts-Errs engine c e =
      then-Errs _ _ (cipher_opts-Ends c)
        (then-Errs _ _ (offer-Ends _) (then-Errs _ _ (offer-Ends _) (inr (rw e refl))))

  tls_opts-Ends :
      (engine : Engine) (c : TlsConfig)
      → is_refused engine c ≡ false
      → Ends (tls_opts curl engine c)
  unfolding tls_opts
  tls_opts-Ends engine c e = then-Ends _ _ (cipher_opts-Ends c) (
      then-Ends _ _ (offer-Ends _) (
        then-Ends _ _ (offer-Ends _) (
          then-Ends _ _ (rw e (set-Ends [])) (
            then-Ends _ _ (offer-Ends _) (
              then-Ends _ _ (trust_opts-Ends c.trust_store) (
                then-Ends _ _ (given-Ends c.issuer_cert _ (λ text. (offer-Ends _)))
                  (given-Ends c.identity (identity_opts curl) identity_opts-Ends)))))))

  -- The options of a configuration are set; or the error of the TLS engine is returned, as rustls is
  -- asked for no version above TLS 1.1; or the error is that with which curl refuses an option. Where
  -- the options are set, rustls is not asked for such a version only, and curl verifies the server's
  -- certificate and name exactly as far as the builder has not been told to accept invalid ones.
  pub tls_opts-verifications :
      (engine : Engine) (b : TlsConfigBuilder)
      → ((kind : ErrorKind) × IsRefusal kind × (tls_opts curl engine (build_tls b) ≡ err kind))
        ⊎ ((is_refused engine (build_tls b) ≡ true)
            × (tls_opts curl engine (build_tls b) ≡ err tls_engine))
        ⊎ ((is_refused engine (build_tls b) ≡ false)
            × (opts : List TlsOpt) × (tls_opts curl engine (build_tls b) ≡ ok opts)
            × (verifications opts
                ≡ verify_peer (not b.danger_accept_invalid_certs)
                  ∷ verify_host (not b.danger_accept_invalid_hosts)
                  ∷ []))
  tls_opts-verifications engine b = elim (Bool-cases (is_refused engine (build_tls b))) [
    | inl old ↦ elim (tls_opts-Errs engine (build_tls b) old) [
      | inl refusal ↦ inl refusal
      | inr e ↦ inr (inl (old, e))
    ]
    | inr recent ↦ elim (tls_opts-Ends engine (build_tls b) recent) [
      | inl (opts, e) ↦ inr (
          inr (
            recent,
            opts,
            e,
            unfold build_tls in (tls_opts-Says curl engine (build_tls b)).says opts e,
          ))
      | inr refusal ↦ inl refusal
    ]
  ]
