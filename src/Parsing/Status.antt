-- ===== src/Parsing/Status.antt =====
-- `parse_status_line` of src/parsing.rs: which lines are status lines, and what they say.
use isahc.Prelude.{
  ℕ, ◌≡◌, ◌≢◌, refl, sym, ap, subst, ◌∙◌, ◌↔◌, ◌⊎◌, inl, inr, Bool, true, false, not, some, List,
  [], ◌∷◌, ◌++◌, append-nil, all, arith, Bool-cases, Option-cases,
}
use isahc.Prelude.Ascii.{is_ascii_whitespace}
use isahc.Prelude.Bytes.{Bytes, codes, bytes_eq, bytes_eq_iff}
use isahc.Http.{HeaderText, Version, http_09, http_10, http_11, http_2, http_3}
use isahc.Parsing.{split_whitespace, find_text, parse_version, parse_status_line, status_of}
use isahc.Parsing.Lines.{is_space}

abbrev pub version_text : Version → Bytes
version_text http_09 = codes "HTTP/0.9"
version_text http_10 = codes "HTTP/1.0"
version_text http_11 = codes "HTTP/1.1"
version_text http_2 = codes "HTTP/2"
version_text http_3 = codes "HTTP/3"

-- A text without white space.
abbrev pub is_word : Bytes → Bool
is_word text = all (λ c. not (is_ascii_whitespace c)) text

-- Nothing, or white space first.
abbrev pub ends_word : Bytes → Bool
ends_word [] = true
ends_word (c ∷ more) = is_ascii_whitespace c

parse_version-text : (v : Version) → parse_version (version_text v) ≡ some v
unfolding parse_version bytes_eq
parse_version-text http_09 = refl
parse_version-text http_10 = refl
parse_version-text http_11 = refl
parse_version-text http_2 = refl
parse_version-text http_3 = refl

parse_version-eq_some :
    (text : Bytes) (v : Version) → parse_version text ≡ some v → text ≡ version_text v
unfolding parse_version
parse_version-eq_some text v e = ground (
  arith,
  bytes_eq_iff text (codes "HTTP/3"),
  bytes_eq_iff text (codes "HTTP/2"),
  bytes_eq_iff text (codes "HTTP/1.1"),
  bytes_eq_iff text (codes "HTTP/1.0"),
  bytes_eq_iff text (codes "HTTP/0.9"),
)

-- The first part is a word; there is no more, or white space and then the other parts.
first_part :
    (s : Bytes)
    → (word : Bytes) × (is_word word ≡ true)
      × (((s ≡ word) × (split_whitespace s ≡ word ∷ []))
          ⊎ ((c : ℕ) × (rest : Bytes) × (is_ascii_whitespace c ≡ true)
              × (s ≡ word ++ c ∷ rest)
              × (split_whitespace s ≡ word ∷ split_whitespace rest)))
unfolding split_whitespace
first_part [] = ([], refl, inl (refl, refl))
first_part (c ∷ s) = elim (Bool-cases (is_ascii_whitespace c)) [
  | inl e ↦ ([], refl, inr (c, s, e, refl, rw e refl))
  | inr e ↦
      let (word, w, parted) = first_part s in
      elim parted [
        | inl (whole, one) ↦ (c ∷ word, rw (e, w) refl, inl (ap (◌∷◌ c) whole, rw (e, one) refl))
        | inr (d, rest, space, there, more) ↦
            (c ∷ word, rw (e, w) refl, inr (d, rest, space, ap (◌∷◌ c) there, rw (e, more) refl))
      ]
]

split_whitespace-word : (s : Bytes) → is_word s ≡ true → split_whitespace s ≡ s ∷ []
unfolding split_whitespace
split_whitespace-word [] w = refl
split_whitespace-word (c ∷ s) w = ground (arith, split_whitespace-word s)

split_whitespace-append :
    (s : Bytes) (c : ℕ) (rest : Bytes)
    → is_word s ≡ true
    → is_ascii_whitespace c ≡ true
    → split_whitespace (s ++ c ∷ rest) ≡ s ∷ split_whitespace rest
unfolding split_whitespace
split_whitespace-append [] c rest w h = rw h refl
split_whitespace-append (b ∷ s) c rest w h = ground (arith, split_whitespace-append s c rest)

-- What `find` finds, and what stands before and behind it.
abbrev Found : Bytes → Bytes → Type 0
Found s code =
    (lead trail : Bytes) × (s ≡ lead ++ (code ++ trail))
    × (is_space lead ≡ true)
    × (is_word code ≡ true)
    × (code ≢ [])
    × (ends_word trail ≡ true)

word-Found :
    (c : ℕ) (s code : Bytes)
    → is_ascii_whitespace c ≡ false
    → find_text (split_whitespace (c ∷ s)) ≡ some code
    → Found (c ∷ s) code
unfolding find_text
word-Found c s code h e =
    let (word, w, parted) = first_part (c ∷ s) in
    elim parted [
      | inl (whole, one) ↦ alone word w whole (subst (λ ps. find_text ps ≡ some code) one e)
      | inr (d, rest, space, there, more) ↦
          followed word w d rest space there (subst (λ ps. find_text ps ≡ some code) more e)
    ]
  where
    alone :
        (word : Bytes)
        → is_word word ≡ true
        → c ∷ s ≡ word
        → find_text (word ∷ []) ≡ some code
        → Found (c ∷ s) code
    alone [] w whole found = cc
    alone (b ∷ word) w whole found =
        let same : b ∷ word ≡ code = cc in
        (
          [],
          [],
          whole ∙ same ∙ sym (append-nil code),
          refl,
          subst (λ t. is_word t ≡ true) same w,
          (λ z. cc),
          refl,
        )

    followed :
        (word : Bytes)
        → is_word word ≡ true
        → (d : ℕ) (rest : Bytes) → is_ascii_whitespace d ≡ true
        → c ∷ s ≡ word ++ d ∷ rest
        → find_text (word ∷ split_whitespace rest) ≡ some code
        → Found (c ∷ s) code
    followed [] w d rest space there found =
        let same : c ≡ d = cc in absurd (ground (arith, h, space, same))
    followed (b ∷ word) w d rest space there found =
        let same : b ∷ word ≡ code = cc in
        (
          [],
          d ∷ rest,
          there ∙ ap (λ (t : Bytes). t ++ d ∷ rest) same,
          refl,
          subst (λ t. is_word t ≡ true) same w,
          (λ z. cc),
          space,
        )

find_text-Found : (s code : Bytes) → find_text (split_whitespace s) ≡ some code → Found s code
unfolding find_text split_whitespace
find_text-Found [] code e = cc
find_text-Found (c ∷ s) code e = elim (Bool-cases (is_ascii_whitespace c)) [
  | inr h ↦ word-Found c s code h e
  | inl h ↦
      let (lead, trail, there, l, w, n, t) = find_text-Found s code (ground (arith, e, h)) in
      (c ∷ lead, trail, ap (λ (t : Bytes). c ∷ t) there, rw (h, l) refl, w, n, t)
]

find_text-made :
    (lead code trail : Bytes)
    → is_space lead ≡ true
    → is_word code ≡ true
    → code ≢ []
    → ends_word trail ≡ true
    → find_text (split_whitespace (lead ++ (code ++ trail))) ≡ some code
unfolding find_text split_whitespace
find_text-made (c ∷ lead) code trail l w n t = ground (arith, find_text-made lead code trail)
find_text-made [] [] trail l w n t = absurd (n refl)
find_text-made [] (b ∷ code) [] l w n t =
    ap (λ (t : Bytes). find_text (split_whitespace t)) (append-nil (b ∷ code))
    ∙ ap find_text (split_whitespace-word (b ∷ code) w)
find_text-made [] (b ∷ code) (c ∷ trail) l w n t =
    ap find_text (split_whitespace-append (b ∷ code) c trail w t)

version-is_word : (v : Version) → is_word (version_text v) ≡ true
version-is_word http_09 = refl
version-is_word http_10 = refl
version-is_word http_11 = refl
version-is_word http_2 = refl
version-is_word http_3 = refl

module _ (texts : HeaderText) where
  status_of-parts :
      (first : Bytes) (more : List Bytes) (version : Version) (status : ℕ)
      → status_of texts (first ∷ more) ≡ some (version, status)
      → (code : Bytes) × (parse_version first ≡ some version)
        × (find_text more ≡ some code)
        × (texts.to_status code ≡ some status)
  unfolding status_of
  status_of-parts first more version status e = elim (Option-cases (parse_version first)) [
    | inl a ↦ absurd (ground (arith, a))
    | inr (v, a) ↦ elim (Option-cases (find_text more)) [
      | inl b ↦ absurd (ground (arith, a, b))
      | inr (code, b) ↦ elim (Option-cases (texts.to_status code)) [
        | inl c ↦ absurd (ground (arith, a, b, c))
        | inr (k, c) ↦ (code, ground (arith, a, b, c), b, ground (arith, a, b, c))
      ]
    ]
  ]

  -- A line that is put together as a status line.
  abbrev pub IsStatusLine : Bytes → Version → ℕ → Type 0
  IsStatusLine line version status =
      (c : ℕ) × (lead code trail : Bytes) × (line
        ≡ version_text version ++ c ∷ (lead ++ (code ++ trail)))
      × (is_ascii_whitespace c ≡ true)
      × (is_space lead ≡ true)
      × (is_word code ≡ true)
      × (code ≢ [])
      × (ends_word trail ≡ true)
      × (texts.to_status code ≡ some status)

  status_of-IsStatusLine :
      (line : Bytes) (version : Version) (status : ℕ)
      → parse_status_line texts line ≡ some (version, status)
      → IsStatusLine line version status
  unfolding parse_status_line
  status_of-IsStatusLine line version status e =
      let (word, w, parted) = first_part line in
      elim parted [
        | inl (whole, one) ↦
            let (code, a, b, d) =
              status_of-parts word [] version status
                (subst (λ ps. status_of texts ps ≡ some (version, status)) one e) in
            absurd (unfold find_text in cc b)
        | inr (c, rest, space, there, more) ↦
            let (code, a, b, d) =
              status_of-parts word (split_whitespace rest) version status
                (subst (λ ps. status_of texts ps ≡ some (version, status)) more e) in
            let (lead, trail, made, l, k, n, t) = find_text-Found rest code b in
            (
              c,
              lead,
              code,
              trail,
              there
                  ∙ ap (λ (s : Bytes). s ++ c ∷ rest) (parse_version-eq_some word version a)
                  ∙ ap (λ (s : Bytes). version_text version ++ c ∷ s) made,
              space,
              l,
              k,
              n,
              t,
              d,
            )
      ]

  IsStatusLine-made :
      (line : Bytes) (version : Version) (status : ℕ)
      → IsStatusLine line version status
      → parse_status_line texts line ≡ some (version, status)
  unfolding parse_status_line status_of
  IsStatusLine-made line version status (c, lead, code, trail, made, space, l, k, n, t, d) = rw (
    made,
    split_whitespace-append (version_text version) c (lead ++ (code ++ trail))
        (version-is_word version) space,
    parse_version-text version,
    find_text-made lead code trail l k n t,
    d,
  )

  -- A line is read as a status line exactly if it is the name of a version, white space, and a word
  -- that is a status code, which ends the line or has white space behind it.
  pub parse_status_line_iff :
      (line : Bytes) (version : Version) (status : ℕ)
      → (parse_status_line texts line ≡ some (version, status)) ↔ IsStatusLine line version status
  parse_status_line_iff line version status =
      (status_of-IsStatusLine line version status, IsStatusLine-made line version status)
