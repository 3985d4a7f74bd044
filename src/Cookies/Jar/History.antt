-- ===== src/Cookies/Jar/History.antt =====
-- Invariants of a jar of src/cookies/jar.rs over any history of calls of `set`.
use isahc.Prelude.{ℕ, ◌≡◌, ◌⊎◌, inl, inr, true, false, none, some, List, [], ◌∷◌, All, arith}
use isahc.Prelude.Bytes.{contains}
use isahc.Prelude.Outcome.{ok, Outcome-cases}
use isahc.Platform.{Platform}
use isahc.Http.{Uri}
use isahc.Cookies.Cookie.{Cookie}
use isahc.Cookies.Jar.{
  CookieWithContext, CookieJar, replace, retain_unexpired, store, with_context, set, after_set,
}
use isahc.Cookies.Jar.Keys.{IsDistinct}
use isahc.Cookies.Jar.Store.{store-IsDistinct, with_context-Accepted, Accepted}

module _ (p : Platform) where
  -- A cookie with a domain of its own is kept under that domain, which is neither a top-level
  -- domain nor a public suffix.
  abbrev pub IsAllowed : CookieWithContext → Type 0
  IsAllowed entry =
      (entry.cookie.domain ≡ none)
      ⊎ ((entry.cookie.domain ≡ some entry.domain_value)
          × (contains entry.domain_value b'.' ≡ true)
          × (p.is_public_suffix entry.domain_value ≡ false))

  pub record IsSound (jar : CookieJar) : Type 0 where
    pub distinct : IsDistinct jar
    pub allowed : All IsAllowed jar

  replace-IsAllowed :
      (new : CookieWithContext) (jar : CookieJar)
      → IsAllowed new
      → All IsAllowed jar
      → All IsAllowed (replace new jar).1
  unfolding replace
  replace-IsAllowed new [] a h = (a, tt)
  replace-IsAllowed new (entry ∷ more) a h = ground (arith, replace-IsAllowed new more)

  retain-IsAllowed :
      (now : ℕ) (jar : CookieJar) → All IsAllowed jar → All IsAllowed (retain_unexpired now jar)
  retain-IsAllowed now [] h = tt
  retain-IsAllowed now (entry ∷ more) h = ground (arith, retain-IsAllowed now more)

  store-IsSound :
      (now : ℕ) (entry : CookieWithContext) (jar : CookieJar)
      → IsAllowed entry
      → IsSound jar
      → IsSound (store now entry jar).1
  store-IsSound now entry jar a h = record {
    distinct = store-IsDistinct now entry jar h.distinct;
    allowed = unfold store in retain-IsAllowed now _ (replace-IsAllowed entry jar a h.allowed);
  }

  Accepted-IsAllowed :
      (now : ℕ) (cookie : Cookie) (uri : Uri) (entry : CookieWithContext)
      → Accepted p now cookie uri entry
      → IsAllowed entry
  Accepted-IsAllowed now cookie uri entry a = ground (arith, a.domain, a.same)

  -- What a call leaves behind: the jar with the entry stored, or the jar as it was.
  after_set_cases :
      (now : ℕ) (cookie : Cookie) (uri : Uri) (jar : CookieJar)
      → ((entry : CookieWithContext) × (with_context p now cookie uri ≡ ok entry)
          × (after_set p now cookie uri jar ≡ (store now entry jar).1))
        ⊎ (after_set p now cookie uri jar ≡ jar)
  unfolding after_set set
  after_set_cases now cookie uri jar = elim (Outcome-cases (with_context p now cookie uri)) [
    | inl (entry, e) ↦ inl (entry, e, ground (arith, e))
    | inr other ↦ inr (ground (arith, other))
  ]

  pub after_set-IsSound :
      (now : ℕ) (cookie : Cookie) (uri : Uri) (jar : CookieJar)
      → IsSound jar
      → IsSound (after_set p now cookie uri jar)
  after_set-IsSound now cookie uri jar h = elim (after_set_cases now cookie uri jar) [
    | inr e ↦ rw e h
    | inl (entry, made, e) ↦ rw e (
        store-IsSound now entry jar
          (Accepted-IsAllowed now cookie uri entry
            (with_context-Accepted p now cookie uri entry made))
          h)
  ]

  -- A history: when, with which cookie and for which request `set` is called.
  pub run : CookieJar → List (ℕ × Cookie × Uri) → CookieJar
  run jar [] = jar
  run jar ((now, cookie, uri) ∷ more) = run (after_set p now cookie uri jar) more

  -- Whatever the calls and whatever they return, a sound jar stays sound: no two entries have the
  -- same domain, path and name, and every cookie with a domain of its own stands under that domain,
  -- which has a dot and is no public suffix.
  pub run-IsSound :
      (jar : CookieJar) (calls : List (ℕ × Cookie × Uri)) → IsSound jar → IsSound (run jar calls)
  unfolding run
  run-IsSound jar [] h = h
  run-IsSound jar ((now, cookie, uri) ∷ more) h =
      run-IsSound (after_set p now cookie uri jar) more (after_set-IsSound now cookie uri jar h)
