-- ===== src/Client/Framing.antt =====
-- How `HttpClient::create_easy_handle` of src/client.rs tells curl where a request body ends.
use isahc.Prelude.{
  ℕ, ◌≡◌, refl, sym, ap, ◌∙◌, ◌⊎◌, inl, inr, Bool, true, false, none, some, List, [], ◌∷◌, ◌++◌,
  map, any, arith, Bool-cases, Option-cases, if◌then◌else◌, unwrap_or, subst, append-nil,
}
use isahc.Prelude.Bytes.{Bytes, codes, bytes_eq, bytes_eq_iff, bytes_eq_refl}
use isahc.Prelude.Has.{Has, Has-map, Has-append_left, Has-append_right}
use isahc.Prelude.Outcome.{ok, lift, lift-eq-ok, >>=-eq-ok, ok-eq}
use isahc.Error.{ErrorKind}
use isahc.Http.{HeaderMap, HeaderLaws, HeaderName, HeaderText, Method}
use isahc.Body.{is_empty}
use isahc.Config.{RequestConfig, ClientConfig}
use isahc.Config.Options.{Opt, http_headers, post_field_size, in_filesize, Features, request_opts}
use isahc.Request.{Request}
use isahc.Parsing.{header_to_curl_string}
use isahc.Client.Easy.{
  size_opts, body_length, framed_headers, pairs, header_lines, front_opts, easy_opts,
  create_easy_handle, expect_is_disabled,
}
use isahc.Client.Plain.{method_opts-IsPlain, client_opts-IsPlain}
use isahc.Client.Sizes.{
  sizes, sizes-append, NoSize, IsPlain-NoSize, size_opts-sizes, request_opts-sizes,
}

-- The lines that curl is given as headers.
abbrev pub lines_given : List Opt → List Bytes
lines_given [] = []
lines_given (http_headers lines ∷ more) = lines ++ lines_given more
lines_given (_ ∷ more) = lines_given more

lines_given-cons :
    (opt : Opt) (more : List Opt)
    → (lines : List Bytes) × (lines_given (opt ∷ more) ≡ lines ++ lines_given more)
lines_given-cons (http_headers lines) more = (lines, refl)
lines_given-cons _ more = ([], refl)

lines_given-Has :
    (front : List Opt) (line : Bytes) (lines : List Bytes)
    → Has line lines
    → Has line (lines_given (front ++ http_headers lines ∷ []))
lines_given-Has [] line lines m = Has-append_left line lines [] m
lines_given-Has (opt ∷ front) line lines m =
    let (before, same) = lines_given-cons opt (front ++ http_headers lines ∷ []) in
    subst (λ x. Has line x) (sym same)
      (Has-append_right line before _ (lines_given-Has front line lines m))

any-Has :
    (name : HeaderName) (names : List HeaderName)
    → any (λ key. bytes_eq key name) names ≡ true
    → Has name names
any-Has name [] e = ground arith
any-Has name (n ∷ names) e = elim (Bool-cases (bytes_eq n name)) [
  | inl same ↦ inl (sym ((bytes_eq_iff n name).0 same))
  | inr other ↦ inr (any-Has name names (ground (arith, e, other)))
]

-- A known length is told by one option, which the method decides.
size_opts-told :
    (method : Method) (len : ℕ) (opts : List Opt)
    → sizes opts ≡ size_opts method (some len)
    → ((bytes_eq method (codes "POST") ≡ true) × (sizes opts ≡ post_field_size len ∷ []))
      ⊎ ((bytes_eq method (codes "POST") ≡ false) × (sizes opts ≡ in_filesize len ∷ []))
unfolding size_opts
size_opts-told method len opts e = elim (Bool-cases (bytes_eq method (codes "POST"))) [
  | inl post ↦ inl (post, e ∙ rw post refl)
  | inr other ↦ inr (other, e ∙ rw other refl)
]

skip : (a b : List Opt) → NoSize a → sizes (a ++ b) ≡ sizes b
skip a b e = sizes-append a b ∙ rw e.quiet refl

module _ (texts : HeaderText) (h : HeaderMap) where
  pairs-Has :
      (headers : h.Map) (name : HeaderName) (value : Bytes) (names : List HeaderName)
      → Has name names
      → h.get_all name headers ≡ value ∷ []
      → Has (name, value) (pairs texts h headers names)
  pairs-Has headers name value (n ∷ names) (inl e) v =
      Has-append_left (name, value) (map (λ x. (n, x)) (h.get_all n headers))
        (pairs texts h headers names)
        (subst
          (λ k.
            Has {A = HeaderName × Bytes} (name, value) (map (λ x. (k, x)) (h.get_all k headers)))
          e
          (Has-map (λ x. (name, x)) value (h.get_all name headers)
            (subst (λ xs. Has value xs) (sym v) (inl refl))))
  pairs-Has headers name value (n ∷ names) (inr m) v =
      Has-append_right (name, value) (map (λ x. (n, x)) (h.get_all n headers))
        (pairs texts h headers names) (pairs-Has headers name value names m v)
  pairs-Has headers name value [] m v = absurd m

  header_lines-Has :
      (title_case : Bool) (name : HeaderName) (value : Bytes) (fields : List (HeaderName × Bytes))
      (lines : List Bytes)
      → header_lines texts h title_case fields ≡ ok lines
      → Has (name, value) fields
      → (line : Bytes) × (header_to_curl_string texts name value title_case ≡ ok line)
        × Has line lines
  unfolding header_lines
  header_lines-Has title_case name value [] lines e m = absurd m
  header_lines-Has title_case name value ((n, v) ∷ more) lines e m =
      let (line, first, e') = >>=-eq-ok (header_to_curl_string texts n v title_case) _ e in
      let (rest, second, e'') = >>=-eq-ok (header_lines texts h title_case more) _ e' in
      subst
        (λ x. (l : Bytes) × (header_to_curl_string texts name value title_case ≡ ok l) × Has l x)
        (ok-eq e'')
        (found line rest first m
          (λ later. header_lines-Has title_case name value more rest second later))
    where
      found :
          (line : Bytes) (rest : List Bytes)
          → header_to_curl_string texts n v title_case ≡ ok line
          → Has {A = HeaderName × Bytes} (name, value) ((n, v) ∷ more)
          → (Has {A = HeaderName × Bytes} (name, value) more
              → (l : Bytes) × (header_to_curl_string texts name value title_case ≡ ok l)
                × Has l rest)
          → (l : Bytes) × (header_to_curl_string texts name value title_case ≡ ok l)
            × Has l (line ∷ rest)
      found line rest first (inl same) again =
          (line, ap (λ q. header_to_curl_string texts q.0 q.1 title_case) same ∙ first, inl refl)
      found line rest first (inr later) again =
          let (l, made, there) = again later in (l, made, inr there)

  -- A body of unknown length makes the map hold one value `chunked`.
  framed-Has :
      HeaderLaws h
      → (request : Request h) → is_empty request.body ≡ false
      → body_length texts h request ≡ none
      → Has
          (codes "transfer-encoding", codes "chunked")
          (pairs texts h (framed_headers texts h request) (h.keys (framed_headers texts h request)))
  unfolding framed_headers
  framed-Has laws request full unknown =
      rw (full, unknown)
        (pairs-Has inserted te (codes "chunked") (h.keys inserted)
          (any-Has te (h.keys inserted) (laws.keys_iff te inserted ∙ rw one refl)) one)
    where
      te : HeaderName
      te = codes "transfer-encoding"

      inserted : h.Map
      inserted = h.insert (codes "transfer-encoding") (codes "chunked") request.headers

      one : h.get_all te inserted ≡ codes "chunked" ∷ []
      one = laws.get_all-insert te te (codes "chunked") request.headers ∙ rw (bytes_eq_refl te) refl

  module _ (features : Features) (client : ClientConfig) (debug : Bool) where
    front_opts-sizes :
        (request : Request h) (configured : List Opt)
        → NoSize configured
        → is_empty request.body ≡ false
        → sizes (front_opts texts h features client debug request configured)
          ≡ size_opts request.method (body_length texts h request)
    unfolding front_opts
    front_opts-sizes request configured small full =
        skip _ _ small
        ∙ skip _ _ (IsPlain-NoSize _ (client_opts-IsPlain client))
        ∙ skip _ _ (IsPlain-NoSize _ (method_opts-IsPlain request.method _))
        ∙ rw full (size_opts-sizes request.method (body_length texts h request))

    -- What the options are made of, where they are returned.
    pub create_easy_handle-parts :
        (config : RequestConfig) (request : Request h) (opts : List Opt)
        → request.extensions.request_config ≡ some config
        → create_easy_handle texts h features client debug request ≡ ok opts
        → (configured : List Opt) × (lines more : List Bytes) × (request_opts features config
            ≡ ok configured)
          × (header_lines texts h (unwrap_or config.title_case_headers false) (
                pairs texts h
                  (framed_headers texts h request)
                  (h.keys (framed_headers texts h request)))
              ≡ ok lines)
          × (opts
              ≡ front_opts texts h features client debug request configured
                ++ http_headers (lines ++ more) ∷ [])
    create_easy_handle-parts config request opts c e =
        let e' : easy_opts texts h features client debug config request ≡ ok opts =
          sym (opened c) ∙ e in
        unfold easy_opts in
        let (configured, set, e'') = >>=-eq-ok (request_opts features config) _ e' in
        let (lines, lifted, rest) =
          >>=-eq-ok
            (lift {E = ErrorKind} (
              header_lines texts h (unwrap_or config.title_case_headers false) (
                pairs texts h (framed_headers texts h request)
                  (h.keys (framed_headers texts h request)))))
            _ e'' in
        (
          configured,
          lines,
          (if expect_is_disabled config then codes "Expect:" ∷ [] else []),
          set,
          lift-eq-ok _ lines lifted,
          sym (ok-eq rest),
        )
      where
        opened :
            request.extensions.request_config ≡ some config
            → create_easy_handle texts h features client debug request
              ≡ easy_opts texts h features client debug config request
        opened c = unfold create_easy_handle in rw c refl

    -- Of a body that is not empty, where the options are returned, curl is told where it ends: either
    -- its length is known, and exactly one option tells that length, of a post field for POST and of
    -- an input file for any other method; or it is not known, no option tells a length, and one of
    -- the header lines asks for chunks.
    pub create_easy_handle-framed :
        HeaderLaws h
        → (config : RequestConfig) (request : Request h) (opts : List Opt)
        → request.extensions.request_config ≡ some config
        → is_empty request.body ≡ false
        → create_easy_handle texts h features client debug request ≡ ok opts
        → ((len : ℕ) × (body_length texts h request ≡ some len)
            × (((bytes_eq request.method (codes "POST") ≡ true)
                  × (sizes opts ≡ post_field_size len ∷ []))
                ⊎ ((bytes_eq request.method (codes "POST") ≡ false)
                    × (sizes opts ≡ in_filesize len ∷ []))))
          ⊎ ((body_length texts h request ≡ none)
              × (sizes opts ≡ [])
              × (line : Bytes) × (header_to_curl_string texts
                    (codes "transfer-encoding")
                    (codes "chunked")
                    (unwrap_or config.title_case_headers false)
                  ≡ ok line)
              × Has line (lines_given opts))
    unfolding size_opts
    create_easy_handle-framed laws config request opts c full e =
        let (configured, lines, more, set, made, parts) =
          create_easy_handle-parts config request opts c e in
        let front = front_opts texts h features client debug request configured in
        let told : sizes opts ≡ size_opts request.method (body_length texts h request) =
          ap sizes parts
          ∙ sizes-append front (http_headers (lines ++ more) ∷ [])
          ∙ append-nil (sizes front)
          ∙ front_opts-sizes request configured (request_opts-sizes features config configured set)
              full in
        elim (Option-cases (body_length texts h request)) [
          | inr (len, known) ↦ inl (
            len,
            known,
            size_opts-told request.method len opts (told ∙ ap (size_opts request.method) known),
          )
          | inl unknown ↦
              let (line, printed, there) =
                header_lines-Has (unwrap_or config.title_case_headers false)
                  (codes "transfer-encoding") (codes "chunked") _ lines made
                  (framed-Has laws request full unknown) in
              inr (
                unknown,
                told ∙ ap (size_opts request.method) unknown,
                line,
                printed,
                subst (λ x. Has line (lines_given x)) (sym parts)
                    (lines_given-Has front line (lines ++ more)
                      (Has-append_left line lines more there)),
              )
        ]
