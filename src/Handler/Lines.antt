-- ===== src/Handler/Lines.antt =====
-- The lines of a response, as `Handler::header` of src/handler.rs takes them one after another.
use isahc.Prelude.{
  ℕ, ◌≡◌, refl, sym, ap, ◌∙◌, Bool, true, false, ◌&&◌, none, some, List, [], ◌∷◌, ◌++◌, map,
  append-nil, append_assoc, All, arith, if◌then◌else◌, Bool-cases, ◌⊎◌, inl, inr,
}
use isahc.Prelude.Bytes.{Bytes, bytes_eq}
use isahc.Http.{HeaderMap, HeaderLaws, HeaderName, HeaderText, Version}
use isahc.Cookies.Syntax.{split_at_first}
use isahc.Parsing.{parse_header, parse_status_line, split_whitespace, parse_version}
use isahc.Handler.{RequestHandler, crlf, header, response_line}

-- A line, and the header that it is.
abbrev pub Field : Type 0
Field = Bytes × HeaderName × Bytes

abbrev pub lines_of : List Field → List Bytes
lines_of fields = map (λ f. f.0) fields

-- The values that the fields give a header, in their order.
abbrev pub values_in : HeaderName → List Field → List Bytes
values_in name [] = []
values_in name ((line, n, value) ∷ more) =
    let rest = values_in name more in if bytes_eq n name then value ∷ rest else rest

crlf-status : (texts : HeaderText) → parse_status_line texts crlf ≡ none
unfolding parse_status_line split_whitespace parse_version bytes_eq
crlf-status texts = refl

crlf-header : (texts : HeaderText) → parse_header texts crlf ≡ none
unfolding parse_header split_at_first
crlf-header texts = refl

module _ (texts : HeaderText) (h : HeaderMap) where
  -- Curl hands over the lines until one is refused.
  unfoldable pub feed : List Bytes → RequestHandler h → Bool × RequestHandler h
  feed [] s = (true, s)
  feed (line ∷ more) s =
      let (taken, s') = header texts h line s in
      let (rest, s'') = feed more s' in (taken && rest, s'')

  abbrev pub IsField : Field → Type 0
  IsField (line, name, value) =
      (parse_status_line texts line ≡ none) × (parse_header texts line ≡ some (name, value))

  header-status :
      (line : Bytes) (version : Version) (status : ℕ) (s : RequestHandler h)
      → s.sender ≡ true
      → s.canceled ≡ false
      → parse_status_line texts line ≡ some (version, status)
      → header texts h line s ≡ (
        true,
        record s {
          response_version = some version;
          response_status_code = some status;
          response_headers = h.new;
        },
      )
  unfolding header response_line
  header-status line version status s there kept e = ground arith

  header-field :
      (line : Bytes) (name : HeaderName) (value : Bytes) (s : RequestHandler h)
      → s.sender ≡ true
      → s.canceled ≡ false
      → IsField (line, name, value)
      → header texts h line s
        ≡ (true, record s { response_headers = h.append name value s.response_headers })
  unfolding header response_line
  header-field line name value s there kept (a, b) = ground arith

  header-crlf :
      (s : RequestHandler h)
      → s.sender ≡ true
      → s.canceled ≡ false
      → header texts h crlf s ≡ (true, s)
  unfolding header response_line bytes_eq
  header-crlf s there kept = ground (arith, crlf-status texts, crlf-header texts)

  -- What the header lines of one response make of a state that waits for them.
  pub record Fed (s : RequestHandler h) (fields : List Field) (name : HeaderName)
      (fed : Bool × RequestHandler h) : Type 0 where
    pub taken : fed.0 ≡ true
    pub sender : fed.1.sender ≡ true
    pub canceled : fed.1.canceled ≡ false
    pub status : fed.1.response_status_code ≡ s.response_status_code
    pub version : fed.1.response_version ≡ s.response_version
    pub values :
        h.get_all name fed.1.response_headers
        ≡ h.get_all name s.response_headers ++ values_in name fields

  feed-field :
      (line : Bytes) (n : HeaderName) (value : Bytes) (more : List Bytes) (s : RequestHandler h)
      → s.sender ≡ true
      → s.canceled ≡ false
      → IsField (line, n, value)
      → feed (line ∷ more) s
        ≡ feed more (record s { response_headers = h.append n value s.response_headers })
  unfolding feed
  feed-field line n value more s there kept f = rw (header-field line n value s there kept f) refl

  feed-end :
      (s : RequestHandler h) → s.sender ≡ true → s.canceled ≡ false → feed (crlf ∷ []) s ≡ (true, s)
  unfolding feed
  feed-end s there kept = rw (header-crlf s there kept) refl

  feed-Fed :
      HeaderLaws h
      → (fields : List Field) (name : HeaderName) (s : RequestHandler h) → s.sender ≡ true
      → s.canceled ≡ false
      → All IsField fields
      → Fed s fields name (feed (lines_of fields ++ crlf ∷ []) s)
  feed-Fed laws [] name s there kept fs = rw (feed-end s there kept) (record {
    taken = refl;
    sender = there;
    canceled = kept;
    status = refl;
    version = refl;
    values = sym (append-nil (h.get_all name s.response_headers));
  })
  feed-Fed laws ((line, n, value) ∷ more) name s there kept (f, fs) =
      let s' : RequestHandler h = record s {
        response_headers = h.append n value s.response_headers;
      } in
      let fed = feed-Fed laws more name s' there kept fs in
      rw (feed-field line n value (lines_of more ++ crlf ∷ []) s there kept f) (record {
        taken = fed.taken;
        sender = fed.sender;
        canceled = fed.canceled;
        status = fed.status;
        version = fed.version;
        values = fed.values ∙ one_more (Bool-cases (bytes_eq n name));
      })
    where
      one_more :
          (bytes_eq n name ≡ true) ⊎ (bytes_eq n name ≡ false)
          → h.get_all name (h.append n value s.response_headers) ++ values_in name more
            ≡ h.get_all name s.response_headers ++ values_in name ((line, n, value) ∷ more)
      one_more (inl e) =
          rw (laws.get_all-append n name value s.response_headers, e)
            (append_assoc (h.get_all name s.response_headers) (value ∷ []) (values_in name more))
      one_more (inr e) = rw (laws.get_all-append n name value s.response_headers, e) refl

  -- A response whose lines are a status line, headers and an empty line is taken whole, whatever
  -- responses came before it: the response future waits on, the status and the version are those of
  -- the status line, and each header has the values of its lines, in their order, and no others.
  pub feed-response :
      HeaderLaws h
      → (line : Bytes) (version : Version) (status : ℕ) (fields : List Field) (name : HeaderName)
        (s : RequestHandler h)
      → s.sender ≡ true
      → s.canceled ≡ false
      → parse_status_line texts line ≡ some (version, status)
      → All IsField fields
      → (s' : RequestHandler h) × (feed (line ∷ (lines_of fields ++ crlf ∷ [])) s ≡ (true, s'))
        × (s'.sender ≡ true)
        × (s'.response_status_code ≡ some status)
        × (s'.response_version ≡ some version)
        × (h.get_all name s'.response_headers ≡ values_in name fields)
  unfolding feed
  feed-response laws line version status fields name s there kept e fs =
      let started : RequestHandler h = record s {
        response_version = some version;
        response_status_code = some status;
        response_headers = h.new;
      } in
      let fed = feed-Fed laws fields name started there kept fs in
      (
        (feed (lines_of fields ++ crlf ∷ []) started).1,
        rw (header-status line version status s there kept e)
            (ap (λ (b : Bool). (b, (feed (lines_of fields ++ crlf ∷ []) started).1)) fed.taken),
        fed.sender,
        fed.status,
        fed.version,
        fed.values ∙ ap (λ (vs : List Bytes). vs ++ values_in name fields) (laws.get_all-new name),
      )
