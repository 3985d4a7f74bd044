-- ===== src/Tls/Says.antt =====
-- What the options of src/tls say to curl about the verification of its peer.
use isahc.Prelude.{
  ◌≡◌, refl, sym, ap, ◌∙◌, inl, inr, Bool, true, false, not, Option, none, some, List, [], ◌∷◌,
  ◌++◌, filter, Bool-cases, Option-cases, subst,
}
use isahc.Prelude.Bytes.{Bytes}
use isahc.Prelude.Text.{is_utf8}
use isahc.Prelude.Outcome.{ok, err, panic, ok-eq}
use isahc.Tls.{
  PathOrBlob, path, blob, PrivateKey, Identity, TrustStore, no_op, unset, native_store, file_path,
  pem_bundle, Engine, TlsConfig,
}
use isahc.Tls.Options.{
  TlsOpt, verify_peer, verify_host, cert, cert_blob, cert_type, key, key_blob, key_type,
  key_password, cipher_list, cainfo_blob, capath, ssl_options, issuer_cert_blob, min_max_version,
  cainfo, cert_at, key_at, proxy_cert_at, proxy_key_at, password_opts, refuse_old, Set, Answers,
  offer, given_tls, ◌then_set◌, to_str_unwrap, key_opts, identity_opts, trust_opts, proxy_key_opts,
  proxy_identity_opts, proxy_trust_opts, cipher_opts, issuer_opts, tls_opts, proxy_tls_opts,
}

abbrev pub is_verification : TlsOpt → Bool
is_verification (verify_peer b) = true
is_verification (verify_host b) = true
is_verification _ = false

-- The options about verification, in the order in which curl is given them.
abbrev pub verifications : List TlsOpt → List TlsOpt
verifications opts = filter is_verification opts

pub verifications-append :
    (a b : List TlsOpt) → verifications (a ++ b) ≡ verifications a ++ verifications b
verifications-append [] b = refl
verifications-append (x ∷ a) b = elim (Bool-cases (is_verification x)) [
  | inl e ↦ rw e (ap (λ r. x ∷ r) (verifications-append a b))
  | inr e ↦ rw e (verifications-append a b)
]

-- Where the calls all succeed, they are about verification as said.
pub record Says (said : List TlsOpt) (set : Set) : Type 0 where
  pub says : (opts : List TlsOpt) → set ≡ ok opts → verifications opts ≡ said

Says-ok : (opts said : List TlsOpt) → verifications opts ≡ said → Says said (ok opts)
Says-ok opts said e = record { says = λ opts' f. ap verifications (sym (ok-eq f)) ∙ e }

Says-then :
    (said more : List TlsOpt) (a b : Set)
    → Says said a
    → Says more b
    → Says (said ++ more) (a then_set b)
Says-then said more (ok x) (ok y) s t =
    Says-ok (x ++ y) (said ++ more)
      (verifications-append x y ∙ rw (s.says x refl, t.says y refl) refl)
Says-then said more (ok x) (err e) s t = record { says = λ opts f. cc }
Says-then said more (ok x) panic s t = record { says = λ opts f. cc }
Says-then said more (err e) b s t = record { says = λ opts f. cc }
Says-then said more panic b s t = record { says = λ opts f. cc }

Says-given {ℓ} :
    {A : Type ℓ} (value : Option A) (set : A → Set)
    → ((a : A) → Says [] (set a))
    → Says [] (given_tls value set)
Says-given none set s = Says-ok [] [] refl
Says-given (some a) set s = s a

refuse_old-Says : (old : Bool) → Says [] (refuse_old old)
refuse_old-Says true = record { says = λ opts f. cc }
refuse_old-Says false = Says-ok [] [] refl

-- What curl is told about a peer that it is to verify or not.
abbrev pub told : Bool → Bool → List TlsOpt
told peer host = verify_peer peer ∷ verify_host host ∷ []

module _ (curl : Answers) where
  offered : (opt : TlsOpt) → Says (verifications (opt ∷ [])) (offer curl opt)
  unfolding offer
  offered opt = elim (Option-cases (curl opt)) [
    | inl takes ↦ rw (offer, takes) (Says-ok (opt ∷ []) _ refl)
    | inr (kind, refuses) ↦ rw (offer, refuses) (record { says = λ opts f. cc })
  ]

  silent : (opt : TlsOpt) → is_verification opt ≡ false → Says [] (offer curl opt)
  silent opt e = subst (λ said. Says said (offer curl opt)) (rw e refl) (offered opt)

  Says-unwrap :
      (file : Bytes) (opt : Bytes → TlsOpt)
      → is_verification (opt file) ≡ false
      → Says [] (to_str_unwrap file (λ text. offer curl (opt text)))
  Says-unwrap file opt e = elim (Bool-cases (is_utf8 file)) [
    | inl u ↦ rw u (silent (opt file) e)
    | inr u ↦ rw u (record { says = λ opts f. cc })
  ]

  password-Says : (password : Option Bytes) → Says [] (password_opts curl password)
  password-Says password = Says-given password _ (λ text. silent (key_password text) refl)

  key_at-Says : (at : PathOrBlob) → Says [] (key_at curl at) × Says [] (proxy_key_at curl at)
  unfolding key_at proxy_key_at
  key_at-Says (path file) = (silent (key file) refl, Says-unwrap file key refl)
  key_at-Says (blob bytes) = (silent (key_blob bytes) refl, silent (key_blob bytes) refl)

  cert_at-Says : (at : PathOrBlob) → Says [] (cert_at curl at) × Says [] (proxy_cert_at curl at)
  unfolding cert_at proxy_cert_at
  cert_at-Says (path file) = (silent (cert file) refl, Says-unwrap file cert refl)
  cert_at-Says (blob bytes) = (silent (cert_blob bytes) refl, silent (cert_blob bytes) refl)

  key_opts-Says : (k : PrivateKey) → Says [] (key_opts curl k) × Says [] (proxy_key_opts curl k)
  unfolding key_opts proxy_key_opts
  key_opts-Says k = (
    Says-then [] [] _ _ (silent (key_type _) refl)
        (Says-then [] [] _ _ (key_at-Says k.data_of).0 (password-Says k.password)),
    Says-then [] [] _ _ (silent (key_type _) refl)
        (Says-then [] [] _ _ (key_at-Says k.data_of).1 (password-Says k.password)),
  )

  identity_opts-Says :
      (i : Identity) → Says [] (identity_opts curl i) × Says [] (proxy_identity_opts curl i)
  unfolding identity_opts proxy_identity_opts
  identity_opts-Says i = (
    Says-then [] [] _ _ (silent (cert_type _) refl) (
        Says-then [] [] _ _ (cert_at-Says i.data_of).0 (
          Says-then [] [] _ _ (Says-given i.private_key (key_opts curl) (λ k. (key_opts-Says k).0))
            (password-Says i.password))),
    Says-then [] [] _ _ (silent (cert_type _) refl) (
        Says-then [] [] _ _ (cert_at-Says i.data_of).1 (
          Says-then [] [] _ _
            (Says-given i.private_key (proxy_key_opts curl) (λ k. (key_opts-Says k).1))
            (password-Says i.password))),
  )

  trust_opts-Says : (store : TrustStore) → Says [] (trust_opts curl store)
  unfolding trust_opts
  trust_opts-Says native_store = Says-ok [] [] refl
  trust_opts-Says no_op = Says-ok [] [] refl
  trust_opts-Says (file_path file) = silent (cainfo (some file)) refl
  trust_opts-Says (pem_bundle bytes) = silent (cainfo_blob bytes) refl
  trust_opts-Says unset =
      Says-then [] [] _ _ (silent (cainfo none) refl) (silent (capath none) refl)

  proxy_trust_opts-Says : (store : TrustStore) → Says [] (proxy_trust_opts curl store)
  unfolding proxy_trust_opts
  proxy_trust_opts-Says native_store = Says-ok [] [] refl
  proxy_trust_opts-Says no_op = Says-ok [] [] refl
  proxy_trust_opts-Says (file_path file) = elim (Bool-cases (is_utf8 file)) [
    | inl u ↦ rw u (silent (cainfo (some file)) refl)
    | inr u ↦ rw u (record { says = λ opts f. cc })
  ]
  proxy_trust_opts-Says (pem_bundle bytes) = silent (cainfo_blob bytes) refl
  proxy_trust_opts-Says unset =
      Says-then [] [] _ _ (silent (cainfo none) refl) (silent (capath none) refl)

  cipher_opts-Says : (c : TlsConfig) → Says [] (cipher_opts curl c)
  cipher_opts-Says c =
      Says-then [] [] _ _ (Says-given c.ciphers _ (λ text. silent (cipher_list text) refl))
        (silent (ssl_options c.curl_flags) refl)

  issuer_opts-Says : (c : TlsConfig) → Says [] (issuer_opts curl c)
  issuer_opts-Says c = Says-given c.issuer_cert _ (λ text. silent (issuer_cert_blob text) refl)

  pub tls_opts-Says :
      (engine : Engine) (c : TlsConfig)
      → Says
          (told (not c.danger_accept_invalid_certs) (not c.danger_accept_invalid_hosts))
          (tls_opts curl engine c)
  unfolding tls_opts
  tls_opts-Says engine c = Says-then [] _ _ _ (cipher_opts-Says c) (
      Says-then (verify_peer (not c.danger_accept_invalid_certs) ∷ []) _ _ _ (offered _) (
        Says-then (verify_host (not c.danger_accept_invalid_hosts) ∷ []) [] _ _ (offered _) (
          Says-then [] [] _ _ (refuse_old-Says _) (
            Says-then [] [] _ _ (silent (min_max_version _ _) refl) (
              Says-then [] [] _ _ (trust_opts-Says c.trust_store) (
                Says-then [] [] _ _ (issuer_opts-Says c)
                  (Says-given c.identity (identity_opts curl) (λ i. (identity_opts-Says i).0))))))))

  pub proxy_tls_opts-Says :
      (c : TlsConfig)
      → Says
          (told c.danger_accept_invalid_certs c.danger_accept_invalid_hosts)
          (proxy_tls_opts curl c)
  unfolding proxy_tls_opts
  proxy_tls_opts-Says c = Says-then [] _ _ _ (cipher_opts-Says c) (
      Says-then (verify_peer c.danger_accept_invalid_certs ∷ []) _ _ _ (offered _) (
        Says-then (verify_host c.danger_accept_invalid_hosts ∷ []) [] _ _ (offered _) (
          Says-then [] [] _ _ (silent (min_max_version _ _) refl) (
            Says-then [] [] _ _ (proxy_trust_opts-Says c.trust_store) (
              Says-then [] [] _ _ (issuer_opts-Says c) (
                Says-given c.identity (proxy_identity_opts curl)
                  (λ i. (identity_opts-Says i).1)))))))
