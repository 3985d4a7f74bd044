-- ===== src/Cookies/Matching/Paths.antt =====
-- The path test of src/cookies/jar.rs against RFC 6265, section 5.1.4, and the default path.
use mathlib.Core.Bool.{false≢true}
use isahc.Prelude.{
  ℕ, zero, suc, ◌≡◌, ◌≢◌, refl, sym, subst, ap, ◌∙◌, ◌↔◌, ◌⊎◌, inl, inr, true, false, none, some,
  [], ◌∷◌, ◌++◌, length, take, drop, drop-append, arith, Bool-cases, Option-cases,
}
use isahc.Prelude.Bytes.{
  Bytes, bytes_eq, bytes_eq_iff, starts_with, starts_with-append, starts_with-eq, ends_with,
  ends_with-append, ends_with-eq, contains,
}
use isahc.Prelude.Outcome.{ok}
use isahc.Http.{Uri}
use isahc.Cookies.Matching.{slash, path_matches, rfind, default_path}

-- RFC 6265: the paths are the same, or the cookie's path is a prefix of the other that ends with a
-- slash, or a prefix behind which a slash stands.
abbrev pub PathMatches : Bytes → Bytes → Type 0
PathMatches request cookie =
    (request ≡ cookie)
    ⊎ ((parent rest : Bytes) × (cookie ≡ parent ++ slash) × (request ≡ cookie ++ rest))
    ⊎ ((rest : Bytes) × (request ≡ cookie ++ b'/' ∷ rest))

-- The path test answers yes exactly for the pairs that match in the sense of RFC 6265, section
-- 5.1.4.
pub path_matches-PathMatches :
    (request cookie : Bytes) → (path_matches request cookie ≡ true) ↔ PathMatches request cookie
unfolding path_matches
path_matches-PathMatches request cookie = (forth, back)
  where
    forth : path_matches request cookie ≡ true → PathMatches request cookie
    forth h = elim (Bool-cases (bytes_eq request cookie)) [
      | inl same ↦ inl ((bytes_eq_iff request cookie).0 same)
      | inr differ ↦
          let prefix : starts_with request cookie ≡ true = ground (arith, differ) in
          let (rest, e) = starts_with-eq request cookie prefix in
          elim (Bool-cases (ends_with cookie slash)) [
            | inl closed ↦
                let (parent, k) = ends_with-eq cookie slash closed in inr (inl (parent, rest, k, e))
            | inr open' ↦
                let left : drop (length cookie) request ≡ rest =
                  ap (drop (length cookie)) e ∙ drop-append cookie rest in
                let (more, f) = starts_with-eq rest slash (ground (arith, differ, prefix, left)) in
                inr (inr (more, e ∙ ap (λ (r : Bytes). cookie ++ r) f))
          ]
    ]

    back : PathMatches request cookie → path_matches request cookie ≡ true
    back (inl e) = ground (arith, bytes_eq_iff request cookie)
    back (inr (inl (parent, rest, k, e))) =
        ground (arith, starts_with-append cookie rest, ends_with-append parent slash)
    back (inr (inr (rest, e))) = ground (
      arith,
      starts_with-append cookie (b'/' ∷ rest),
      drop-append cookie (b'/' ∷ rest),
      starts_with-append slash rest,
    )

rfind-eq_none : (s : Bytes) (byte : ℕ) → rfind s byte ≡ none → contains s byte ≡ false
unfolding rfind
rfind-eq_none [] byte e = refl
rfind-eq_none (c ∷ cs) byte e = ground (arith, rfind-eq_none cs byte)

-- What stands before and behind the last slash.
rfind-eq_some :
    (s : Bytes) (byte i : ℕ)
    → rfind s byte ≡ some i
    → (s ≡ take i s ++ byte ∷ drop (suc i) s) × (contains (drop (suc i) s) byte ≡ false)
unfolding rfind
rfind-eq_some [] byte i e = absurd (ground arith)
rfind-eq_some (c ∷ cs) byte zero e = ground (arith, rfind-eq_none cs byte)
rfind-eq_some (c ∷ cs) byte (suc i) e = ground (arith, rfind-eq_some cs byte i)

rfind-slash : (path : Bytes) → starts_with path slash ≡ true → (i : ℕ) × (rfind path b'/' ≡ some i)
rfind-slash path h = elim (Option-cases (rfind path b'/')) [
  | inl missing ↦
      let (rest, e) = starts_with-eq path slash h in
      absurd
        (false≢true (sym (rfind-eq_none path b'/' missing) ∙ ap (λ (s : Bytes). contains s b'/') e))
  | inr found ↦ found
]

take-ne-nil : (i : ℕ) (path : Bytes) → starts_with path slash ≡ true → take (suc i) path ≢ []
unfolding starts_with
take-ne-nil i [] h e = cc
take-ne-nil i (c ∷ cs) h e = cc

-- The default path of RFC 6265: everything before the last slash, unless that is nothing.
abbrev pub DefaultPath : Bytes → Bytes → Type 0
DefaultPath path result =
    (rest : Bytes) × (contains rest b'/' ≡ false)
    × (((path ≡ slash ++ rest) × (result ≡ slash))
        ⊎ ((path ≡ result ++ b'/' ∷ rest) × (result ≢ [])))

-- The default path is defined for every URI: it is a slash for a path that does not start with
-- one, and otherwise what the RFC says.
pub default_path-DefaultPath :
    (uri : Uri)
    → ((starts_with uri.path slash ≡ false) × (default_path uri ≡ ok slash))
      ⊎ ((starts_with uri.path slash ≡ true)
          × ((r : Bytes) × (default_path uri ≡ ok r) × DefaultPath uri.path r))
unfolding default_path
default_path-DefaultPath uri = elim (Bool-cases (starts_with uri.path slash)) [
  | inr relative ↦ inl (relative, ground (arith, relative))
  | inl absolute ↦
      let (i, found) = rfind-slash uri.path absolute in
      let (at, free) = rfind-eq_some uri.path b'/' i found in
      inr (absolute, split_at i found at free absolute)
]
  where
    split_at :
        (i : ℕ)
        → rfind uri.path b'/' ≡ some i
        → uri.path ≡ take i uri.path ++ b'/' ∷ drop (suc i) uri.path
        → contains (drop (suc i) uri.path) b'/' ≡ false
        → starts_with uri.path slash ≡ true
        → (r : Bytes) × (default_path uri ≡ ok r) × DefaultPath uri.path r
    split_at zero found at free absolute =
        (slash, ground arith, (drop 1 uri.path, free, inl (at, refl)))
    split_at (suc i) found at free absolute = (
      take (suc i) uri.path,
      ground arith,
      (drop (suc (suc i)) uri.path, free, inr (at, take-ne-nil i uri.path absolute)),
    )

DefaultPath-PathMatches : (path r : Bytes) → DefaultPath path r → PathMatches path r
DefaultPath-PathMatches path r (rest, free, inl (e, k)) =
    inr (inl ([], rest, k, e ∙ ap (λ (s : Bytes). s ++ rest) (sym k)))
DefaultPath-PathMatches path r (rest, free, inr (e, k)) = inr (inr (rest, e))

-- A path that starts with a slash matches its own default path.
pub path_matches-default_path :
    (uri : Uri) (r : Bytes)
    → starts_with uri.path slash ≡ true
    → default_path uri ≡ ok r
    → path_matches uri.path r ≡ true
path_matches-default_path uri r absolute e = elim (default_path-DefaultPath uri) [
  | inl (relative, _) ↦ absurd (false≢true (sym relative ∙ absolute))
  | inr (_, (r', e', d)) ↦
      let same : r' ≡ r = cc in
      (path_matches-PathMatches uri.path r).1
        (DefaultPath-PathMatches uri.path r (subst (DefaultPath uri.path) same d))
]
