-- ===== src/Cookies/Interceptor/Header.antt =====
-- The `Cookie` header that src/cookies/interceptor.rs sends.
use isahc.Prelude.{
  ℕ, ◌≡◌, refl, ◌∙◌, List, [], ◌∷◌, ◌++◌, map, append_assoc, arith, if◌then◌else◌, unwrap_or,
}
use isahc.Prelude.Bytes.{Bytes, codes, bytes_eq}
use isahc.Prelude.Outcome.{ok}
use isahc.Platform.{Platform}
use isahc.Http.{HeaderMap, HeaderLaws, HeaderName, HeaderText, first}
use isahc.Request.{Request}
use isahc.Cookies.Cookie.{Cookie}
use isahc.Cookies.Jar.{CookieJar, get_for_uri}
use isahc.Cookies.Interceptor.{
  cookie_name, pair_of, separated, append_cookies, insert_cookie, attach,
}

-- Texts with "; " between them.
abbrev pub join : List Bytes → Bytes
join [] = []
join (text ∷ []) = text
join (text ∷ next ∷ more) = text ++ codes "; " ++ join (next ∷ more)

-- What the header is made of: the text that the request had, if it had one, and the pairs.
abbrev pub parts : Bytes → List Cookie → List Bytes
parts [] cookies = map pair_of cookies
parts (c ∷ cs) cookies = (c ∷ cs) ∷ map pair_of cookies

separated-pair :
    (before name after : Bytes)
    → separated (before ++ (name ++ b'=' ∷ after))
      ≡ (before ++ (name ++ b'=' ∷ after)) ++ codes "; "
separated-pair [] [] after = refl
separated-pair [] (n ∷ name) after = refl
separated-pair (b ∷ before) name after = refl

-- A text that is not empty, with the pairs of cookies behind it.
append_cookies-pair :
    (before : Bytes) (cookie : Cookie) (cookies : List Cookie)
    → append_cookies (before ++ pair_of cookie) cookies
      ≡ before ++ join (pair_of cookie ∷ map pair_of cookies)
unfolding append_cookies
append_cookies-pair before cookie [] = refl
append_cookies-pair before cookie (next ∷ cookies) =
    rw (separated-pair before cookie.name cookie.value) (
      append_cookies-pair ((before ++ pair_of cookie) ++ codes "; ") next cookies
      ∙ simp append_assoc)

append_cookies-join :
    (header : Bytes) (cookies : List Cookie)
    → append_cookies header cookies ≡ join (parts header cookies)
unfolding append_cookies
append_cookies-join [] [] = refl
append_cookies-join (c ∷ cs) [] = refl
append_cookies-join [] (cookie ∷ cookies) = append_cookies-pair [] cookie cookies
append_cookies-join (c ∷ cs) (cookie ∷ cookies) =
    append_cookies-pair ((c ∷ cs) ++ codes "; ") cookie cookies ∙ simp append_assoc

-- The values of the `Cookie` header that a text makes.
abbrev pub cookie_values : HeaderText → Bytes → List Bytes
cookie_values texts [] = []
cookie_values texts (c ∷ cs) = if texts.is_header_value (c ∷ cs) then (c ∷ cs) ∷ [] else []

module _ (p : Platform) (texts : HeaderText) (h : HeaderMap) (laws : HeaderLaws h) where
  get_all-insert_cookie :
      (name : HeaderName) (text : Bytes) (headers : h.Map)
      → h.get_all name (insert_cookie p texts h text (h.remove cookie_name headers))
        ≡ (if bytes_eq cookie_name name then cookie_values texts text else h.get_all name headers)
  unfolding insert_cookie
  get_all-insert_cookie name [] headers = laws.get_all-remove cookie_name name headers
  get_all-insert_cookie name (c ∷ cs) headers = ground (
    arith,
    laws.get_all-remove cookie_name name headers,
    laws.get_all-insert cookie_name name (c ∷ cs) (h.remove cookie_name headers),
  )

  -- A request that can read its jar is sent with one `Cookie` header: the first that it had, and
  -- `name=value` of each cookie for its address in their order, with "; " between them; with none if
  -- that is empty or no header value. Its other headers, its address and its body stay as they are.
  pub attach-sends :
      (now : ℕ) (jar : CookieJar) (request : Request h) (cookies : List Cookie) (name : HeaderName)
      → get_for_uri p now jar request.uri ≡ ok cookies
      → (next : Request h) × (attach p texts h now jar request ≡ ok next)
        × (h.get_all name next.headers ≡ (
            if bytes_eq cookie_name name
            then cookie_values texts (
                join (parts (unwrap_or (first (h.get_all cookie_name request.headers)) []) cookies))
            else h.get_all name request.headers))
        × (next.uri ≡ request.uri)
        × (next.method ≡ request.method)
        × (next.body ≡ request.body)
        × (next.extensions ≡ request.extensions)
  unfolding attach
  attach-sends now jar request cookies name found =
      let existing = unwrap_or (first (h.get_all cookie_name request.headers)) [] in
      (
        record request {
          headers =
              insert_cookie p texts h (append_cookies existing cookies)
                (h.remove cookie_name request.headers);
        },
        rw found refl,
        rw (append_cookies-join existing cookies)
            (get_all-insert_cookie name (join (parts existing cookies)) request.headers),
        refl,
        refl,
        refl,
        refl,
      )
