-- ===== src/Cookies/Interceptor.antt =====
-- src/cookies/interceptor.rs: the interceptor that sends the cookies of a jar, and that puts the
-- cookies of the response into it. The shared jars are a function of their handles; the rest of the
-- chain may change them. `clock` gives the time at each header that is still to be read.
pub mod Header
pub mod Sound
use isahc.Prelude.{
  ℕ, suc, Bool, Option, none, some, List, [], ◌∷◌, ◌++◌, length, ◌==◌, if◌then◌else◌, or_else,
  unwrap_or,
}
use isahc.Prelude.Bytes.{Bytes, codes}
use isahc.Prelude.Outcome.{Outcome, Infallible, ok, err, panic, ◌>>=◌, lift}
use isahc.Platform.{Platform}
use isahc.Http.{Uri, HeaderMap, HeaderName, HeaderText, first}
use isahc.Error.{ErrorKind}
use isahc.Config.Options.{Opt}
use isahc.Request.{Request, Response}
use isahc.Cookies.Cookie.{Cookie, parse}
use isahc.Cookies.Jar.{CookieJar, CookieRejectedError, get_for_uri, set}

abbrev pub cookie_name : HeaderName
cookie_name = codes "cookie"

abbrev pub set_cookie_name : HeaderName
set_cookie_name = codes "set-cookie"

abbrev pub Jars : Type 0
Jars = ℕ → CookieJar

-- What the calls of a program share: the jars, and what curl has been given so far, the last first:
-- each request with its options.
pub record World (h : HeaderMap) : Type 0 where
  pub jars : Jars
  pub wire : List (List Opt × Request h)

unfoldable pub update : Jars → ℕ → CookieJar → Jars
update jars handle jar other = if handle == other then jar else jars other

-- `name=value`
abbrev pub pair_of : Cookie → Bytes
pair_of cookie = cookie.name ++ b'=' ∷ cookie.value

abbrev pub separated : Bytes → Bytes
separated [] = []
separated (c ∷ cs) = (c ∷ cs) ++ codes "; "

unfoldable pub append_cookies : Bytes → List Cookie → Bytes
append_cookies header [] = header
append_cookies header (cookie ∷ more) = append_cookies (separated header ++ pair_of cookie) more

module _ (p : Platform) (texts : HeaderText) (h : HeaderMap) where
  -- `try_into` of an empty text is not tried.
  insert_cookie : Bytes → h.Map → h.Map
  insert_cookie [] headers = headers
  insert_cookie (c ∷ cs) headers =
      if texts.is_header_value (c ∷ cs) then h.insert cookie_name (c ∷ cs) headers else headers

  -- What is done with the request: its own `Cookie` header is taken off, and comes back with the
  -- cookies of the jar behind it.
  unfoldable pub attach : ℕ → CookieJar → Request h → Outcome Infallible (Request h)
  unfolding insert_cookie
  attach now jar request = do
    cookies ← get_for_uri p now jar request.uri
    let existing = unwrap_or (first (h.get_all cookie_name request.headers)) []
    ok (record request {
      headers =
          insert_cookie (append_cookies existing cookies) (h.remove cookie_name request.headers);
    })

  -- The jar after a call of `set` whose error is dropped.
  after_call :
      CookieJar
      → Outcome CookieRejectedError (Option Cookie × CookieJar)
      → Outcome Infallible CookieJar
  after_call jar (ok (old, new)) = ok new
  after_call jar (err e) = ok jar
  after_call jar panic = panic

  -- One `Set-Cookie` header.
  unfoldable pub accept : ℕ → Uri → Bytes → CookieJar → Outcome Infallible CookieJar
  unfolding after_call
  accept now uri header jar =
      if texts.is_str header
      then elim (parse p now header) [
        | ok cookie ↦ after_call jar (set p now cookie uri jar)
        | err e ↦ ok jar
        | panic ↦ panic
      ]
      else ok jar

  -- The loop over the headers, and the jar behind it: where a header makes it panic, the cookies of
  -- the headers before are in the jar already.
  unfoldable pub accept_all :
      (ℕ → ℕ) → Uri → List Bytes → CookieJar → Outcome Infallible (Unit {0}) × CookieJar
  accept_all clock uri [] jar = (ok tt, jar)
  accept_all clock uri (header ∷ more) jar = elim (accept (clock (length more)) uri header jar) [
    | ok next ↦ accept_all clock uri more next
    | err e ↦ elim e [ ]
    | panic ↦ (panic, jar)
  ]

  -- What is done with the response, and with the world that the rest of the chain left.
  unfoldable pub persist :
      (ℕ → ℕ)
      → ℕ
      → Uri
      → Outcome ErrorKind (Response h) × World h
      → Outcome ErrorKind (Response h) × World h
  persist clock handle request_uri (err e, world) = (err e, world)
  persist clock handle request_uri (panic, world) = (panic, world)
  persist clock handle request_uri (ok response, world) =
      let (result, jar) =
        accept_all clock (unwrap_or response.effective_uri request_uri)
          (h.get_all set_cookie_name response.headers) (world.jars handle) in
      (
        lift result >>= (λ done. ok (record response { cookie_jar = some handle })),
        record world { jars = update world.jars handle jar },
      )

  -- `CookieInterceptor::intercept`, with the jar of the client and the rest of the chain.
  unfoldable pub intercept :
      Option ℕ
      → (ℕ → ℕ)
      → (Request h → World h → Outcome ErrorKind (Response h) × World h)
      → ℕ
      → Request h
      → World h
      → Outcome ErrorKind (Response h) × World h
  intercept default clock send now request world =
      elim (or_else request.extensions.cookie_jar default) [
        | none ↦ send request world
        | some handle ↦ elim (attach now (world.jars handle) request) [
          | ok attached ↦ persist clock handle request.uri (send attached world)
          | err e ↦ elim e [ ]
          | panic ↦ (panic, world)
        ]
      ]
