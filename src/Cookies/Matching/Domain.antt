-- ===== src/Cookies/Matching/Domain.antt =====
-- The domain test of src/cookies/jar.rs against the domain-match of RFC 6265, section 5.1.3.
use mathlib.Core.Bool.{false≢true}
use isahc.Prelude.{
  ℕ, ◌-◌, ◌≡◌, ◌≢◌, sym, ap, ◌∙◌, ◌↔◌, ◌⊎◌, inl, inr, true, false, not, ◌&&◌, [], ◌∷◌, ◌++◌,
  append_assoc, length, length-append, get_elem?-append, snoc_cases, arith, ◌==◌, Bool-cases, all,
  map,
}
use isahc.Prelude.Ascii.{is_ascii, to_ascii_lowercase}
use isahc.Prelude.Bytes.{
  Bytes, bytes_eq_iff, eq_ignore_ascii_case, ends_with, ends_with-append, ends_with-eq,
}
use isahc.Prelude.Outcome.{ok, panic}
use isahc.Platform.{Platform, LowersAscii}
use isahc.Cookies.Matching.{byte_before, is_subdomain, domain_matches}

byte_before-append :
    (before : Bytes) (byte : ℕ) (suffix : Bytes)
    → byte_before (before ++ byte ∷ suffix) suffix ≡ ok byte
unfolding byte_before
byte_before-append before byte suffix =
    let index : length (before ++ byte ∷ suffix) - length suffix - 1 ≡ length before =
      omega (arith, length-append before (byte ∷ suffix)) in
    rw index
      (ground (arith, length-append before (byte ∷ suffix), get_elem?-append before byte suffix))

byte_before_self : (s : Bytes) → byte_before s s ≡ panic
unfolding byte_before
byte_before_self s = ground arith

module _ (p : Platform) where
  is_subdomain_self : (s : Bytes) → is_subdomain p s s ≡ panic
  unfolding is_subdomain
  is_subdomain_self s = ground (arith, ends_with-append [] s, byte_before_self s)

  is_subdomain-append :
      (before : Bytes) (byte : ℕ) (domain : Bytes)
      → let s = before ++ byte ∷ domain in
        is_subdomain p s domain ≡ ok (byte == b'.' && not (p.is_ip_addr s))
  unfolding is_subdomain
  is_subdomain-append before byte domain = ground (
    arith,
    append_assoc before (byte ∷ []) domain,
    ends_with-append (before ++ byte ∷ []) domain,
    byte_before-append before byte domain,
  )

  -- How a text ends: not in the domain, in all of it, or behind one more byte.
  ends_cases :
      (s domain : Bytes)
      → (ends_with s domain ≡ false)
        ⊎ (s ≡ domain)
        ⊎ ((before : Bytes) × (byte : ℕ) × (s ≡ before ++ byte ∷ domain))
  ends_cases s domain = elim (Bool-cases (ends_with s domain)) [
    | inr e ↦ inl e
    | inl e ↦
        let (before, at) = ends_with-eq s domain e in
        elim (snoc_cases before) [
          | inl empty ↦ inr (inl (at ∙ ap (λ (b : Bytes). b ++ domain) empty))
          | inr (init, last, more) ↦ inr (
              inr (
                init,
                last,
                at ∙ ap (λ (b : Bytes). b ++ domain) more ∙ append_assoc init (last ∷ []) domain,
              ))
        ]
  ]

  is_subdomain-false :
      (s domain : Bytes) → ends_with s domain ≡ false → is_subdomain p s domain ≡ ok false
  unfolding is_subdomain
  is_subdomain-false s domain e = ground arith

  abbrev IsSubdomain : Bytes → Bytes → Type 0
  IsSubdomain s domain = (before : Bytes) × (s ≡ before ++ b'.' ∷ domain) × (p.is_ip_addr s ≡ false)

  is_subdomain-IsSubdomain :
      (s domain : Bytes) → is_subdomain p s domain ≡ ok true → IsSubdomain s domain
  is_subdomain-IsSubdomain s domain h = elim (ends_cases s domain) [
    | inl e ↦ absurd (cc (is_subdomain-false s domain e))
    | inr (inl e) ↦ absurd (cc (is_subdomain_self domain))
    | inr (inr (before, byte, e)) ↦
        let dot : byte ≡ b'.' = ground (arith, is_subdomain-append before byte domain) in
        let name : p.is_ip_addr s ≡ false =
          ground (arith, is_subdomain-append before byte domain) in
        (before, e ∙ ap (λ (b : ℕ). before ++ b ∷ domain) dot, name)
  ]

  IsSubdomain-is_subdomain :
      (s domain : Bytes) → IsSubdomain s domain → is_subdomain p s domain ≡ ok true
  IsSubdomain-is_subdomain s domain (before, e, k) =
      ground (arith, is_subdomain-append before b'.' domain)

  is_subdomain_panics : (s domain : Bytes) → (is_subdomain p s domain ≡ panic) ↔ (s ≡ domain)
  is_subdomain_panics s domain = (
    λ h. elim (ends_cases s domain) [
      | inl e ↦ absurd (cc (is_subdomain-false s domain e))
      | inr (inl e) ↦ e
      | inr (inr (before, byte, e)) ↦
          absurd (ground (arith, is_subdomain-append before byte domain))
    ],
    λ e. cc (is_subdomain_self domain),
  )

  -- RFC 6265: the two names are the same but for case, or the domain is a suffix behind a dot of a
  -- host that is no IP address.
  abbrev pub DomainMatches : Bytes → Bytes → Type 0
  DomainMatches host domain =
      (eq_ignore_ascii_case domain host ≡ true)
      ⊎ ((before : Bytes) × (p.to_lowercase host ≡ before ++ b'.' ∷ p.to_lowercase domain)
          × (p.is_ip_addr (p.to_lowercase host) ≡ false))

  -- The domain test answers yes exactly for the pairs that match in the sense of RFC 6265, section
  -- 5.1.3.
  pub domain_matches-DomainMatches :
      (host domain : Bytes) → (domain_matches p host domain ≡ ok true) ↔ DomainMatches host domain
  unfolding domain_matches
  domain_matches-DomainMatches host domain = elim (Bool-cases (eq_ignore_ascii_case domain host)) [
    | inl same ↦ (λ h. inl same, λ m. ground (arith, same))
    | inr differ ↦ (
      λ h. inr (is_subdomain-IsSubdomain _ _ (ground (arith, differ))),
      λ m. elim m [
        | inl same ↦ absurd (cc differ)
        | inr sub ↦ ground (arith, differ, IsSubdomain-is_subdomain _ _ sub)
      ],
    )
  ]

  -- The domain test panics exactly for two names that Unicode lower case makes equal, and ASCII
  -- case does not.
  pub domain_matches_panics :
      (host domain : Bytes)
      → (domain_matches p host domain ≡ panic) ↔ (
          (eq_ignore_ascii_case domain host ≡ false)
          × (p.to_lowercase host ≡ p.to_lowercase domain))
  unfolding domain_matches
  domain_matches_panics host domain = (
    λ h.
        let differ : eq_ignore_ascii_case domain host ≡ false = ground arith in
        (differ, (is_subdomain_panics _ _).0 (ground (arith, differ))),
    λ h. ground (arith, (is_subdomain_panics _ _).1 h.1),
  )

  -- On ASCII names it never panics.
  pub domain_matches_ascii :
      (host domain : Bytes)
      → LowersAscii p
      → all is_ascii host ≡ true
      → all is_ascii domain ≡ true
      → domain_matches p host domain ≢ panic
  unfolding eq_ignore_ascii_case
  domain_matches_ascii host domain lower a b h =
      let (differ, same) = (domain_matches_panics host domain).0 h in
      let same_ascii : map to_ascii_lowercase domain ≡ map to_ascii_lowercase host =
        cc (same, lower.lowers host a, lower.lowers domain b) in
      false≢true (sym differ ∙ (bytes_eq_iff _ _).1 same_ascii)
