-- ===== src/Cookies/Interceptor/Sound.antt =====
-- What src/cookies/interceptor.rs does to the jars.
use isahc.Prelude.{
  ℕ, ◌≡◌, inl, inr, Option, List, [], ◌∷◌, length, arith, Bool-cases, Option-cases, ◌==◌, or_else,
  ◌⊎◌,
}
use isahc.Prelude.Bytes.{Bytes}
use isahc.Prelude.Outcome.{Outcome, ok, err, panic, Outcome-cases}
use isahc.Platform.{Platform}
use isahc.Http.{Uri, HeaderMap, HeaderText}
use isahc.Error.{ErrorKind}
use isahc.Request.{Request, Response}
use isahc.Cookies.Cookie.{Cookie, parse}
use isahc.Cookies.Jar.{CookieJar, after_set}
use isahc.Cookies.Jar.History.{IsSound, after_set-IsSound}
use isahc.Cookies.Interceptor.{Jars, World, update, accept, accept_all, persist, attach, intercept}

module _ (p : Platform) (texts : HeaderText) (h : HeaderMap) where
  -- One header: the jar stays as it was, or it is as a call of `set` leaves it.
  accept_cases :
      (now : ℕ) (uri : Uri) (header : Bytes) (jar new : CookieJar)
      → accept p texts h now uri header jar ≡ ok new
      → (new ≡ jar) ⊎ ((cookie : Cookie) × (new ≡ after_set p now cookie uri jar))
  unfolding accept after_set
  accept_cases now uri header jar new e = elim (Bool-cases (texts.is_str header)) [
    | inr no_text ↦ inl (ground (arith, no_text))
    | inl text ↦ elim (Outcome-cases (parse p now header)) [
      | inl (cookie, made) ↦ inr (cookie, ground (arith, text, made))
      | inr refused ↦ inl (ground (arith, text, refused))
    ]
  ]

  accept-IsSound :
      (now : ℕ) (uri : Uri) (header : Bytes) (jar new : CookieJar)
      → accept p texts h now uri header jar ≡ ok new
      → IsSound p jar
      → IsSound p new
  accept-IsSound now uri header jar new e s = elim (accept_cases now uri header jar new e) [
    | inl same ↦ rw same s
    | inr (cookie, called) ↦ rw called (after_set-IsSound p now cookie uri jar s)
  ]

  accept_all-IsSound :
      (clock : ℕ → ℕ) (uri : Uri) (headers : List Bytes) (jar : CookieJar)
      → IsSound p jar
      → IsSound p (accept_all p texts h clock uri headers jar).1
  unfolding accept_all
  accept_all-IsSound clock uri [] jar s = s
  accept_all-IsSound clock uri (header ∷ more) jar s =
      elim (Outcome-cases (accept p texts h (clock (length more)) uri header jar)) [
        | inl (next, e) ↦
            rw (accept_all, e)
              (accept_all-IsSound clock uri more next
                (accept-IsSound (clock (length more)) uri header jar next e s))
        | inr (inl (e, _)) ↦ elim e [ ]
        | inr (inr e) ↦ rw (accept_all, e) s
      ]

  abbrev pub AreSound : Jars → Type 0
  AreSound jars = (handle : ℕ) → IsSound p (jars handle)

  update-AreSound :
      (jars : Jars) (handle : ℕ) (jar : CookieJar)
      → IsSound p jar
      → AreSound jars
      → AreSound (update jars handle jar)
  unfolding update
  update-AreSound jars handle jar s all other = elim (Bool-cases (handle == other)) [
    | inl e ↦ rw e s
    | inr e ↦ rw e (all other)
  ]

  persist-AreSound :
      (clock : ℕ → ℕ) (handle : ℕ) (uri : Uri) (result : Outcome ErrorKind (Response h) × World h)
      → AreSound result.1.jars
      → AreSound (persist p texts h clock handle uri result).1.jars
  unfolding persist
  persist-AreSound clock handle uri (err e, world) s = s
  persist-AreSound clock handle uri (panic, world) s = s
  persist-AreSound clock handle uri (ok response, world) s =
      update-AreSound world.jars handle _
        (accept_all-IsSound clock _ _ (world.jars handle) (s handle)) s

  kept-AreSound :
      (default : Option ℕ) (clock : ℕ → ℕ)
      (send : Request h → World h → Outcome ErrorKind (Response h) × World h) (now : ℕ)
      (request : Request h) (world : World h)
      → ((r : Request h) (w : World h) → AreSound w.jars → AreSound (send r w).1.jars)
      → AreSound world.jars
      → AreSound (intercept p texts h default clock send now request world).1.jars
  unfolding intercept
  kept-AreSound default clock send now request world keeps s =
      elim (Option-cases (or_else request.extensions.cookie_jar default)) [
        | inl e ↦ rw (intercept, e) (keeps request world s)
        | inr (handle, e) ↦
            elim (Outcome-cases (attach p texts h now (world.jars handle) request)) [
              | inl (attached, a) ↦
                  rw (intercept, e, a)
                    (persist-AreSound clock handle request.uri (send attached world)
                      (keeps attached world s))
              | inr (inl (f, _)) ↦ elim f [ ]
              | inr (inr f) ↦ rw (intercept, e, f) s
            ]
      ]

  -- Whatever the request, the response and the cookies in it: if the rest of the chain keeps all
  -- jars sound, so does the interceptor, also where it returns an error or panics.
  pub intercept-AreSound :
      (default : Option ℕ) (clock : ℕ → ℕ)
      (send : Request h → World h → Outcome ErrorKind (Response h) × World h) (now : ℕ)
      (request : Request h) (world : World h)
      → ((r : Request h) (w : World h) → AreSound w.jars → AreSound (send r w).1.jars)
      → AreSound world.jars
      → (handle : ℕ)
      → IsSound p ((intercept p texts h default clock send now request world).1.jars handle)
  intercept-AreSound default clock send now request world keeps s handle =
      kept-AreSound default clock send now request world keeps s handle
