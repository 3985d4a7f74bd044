-- ===== src/Parsing/Lines.antt =====
-- `parse_header` of src/parsing.rs: which lines are headers, and what they say.
use isahc.Prelude.{
  ℕ, ◌≤◌, ◌≡◌, refl, ap, subst, ◌∙◌, ◌↔◌, ◌⊎◌, inl, inr, Bool, true, false, some, [], ◌∷◌, ◌++◌,
  all, length, arith, Bool-cases, Option-cases, if◌then◌else◌, List-cases,
}
use isahc.Prelude.Ascii.{is_ascii_whitespace}
use isahc.Prelude.Bytes.{Bytes, contains}
use isahc.Http.{HeaderName, HeaderText}
use isahc.Cookies.Syntax.{split_at_first}
use isahc.Cookies.Syntax.Laws.{split_at_first-append, split_at_first-eq_some, split_at_first-free}
use isahc.Parsing.{trim_start, trim_end, parse_header}

-- No white space at either end.
abbrev pub IsTrimmed : Bytes → Type 0
IsTrimmed text = (trim_start text ≡ text) × (trim_end text ≡ text)

abbrev pub is_space : Bytes → Bool
is_space text = all is_ascii_whitespace text

trim_start-le : (s : Bytes) → length (trim_start s) ≤ length s
unfolding trim_start
trim_start-le [] = omega arith
trim_start-le (c ∷ s) = ground (arith, trim_start-le s)

pub trim_start-head :
    (c : ℕ) (s : Bytes) → trim_start (c ∷ s) ≡ c ∷ s → is_ascii_whitespace c ≡ false
unfolding trim_start
trim_start-head c s e = elim (Bool-cases (is_ascii_whitespace c)) [
  | inr no_space ↦ no_space
  | inl space ↦
      let short : trim_start s ≡ c ∷ s = ground (arith, space) in
      absurd (omega (arith, trim_start-le s, ap (λ (t : Bytes). length t) short))
]

trim_start-cons : (c : ℕ) (s : Bytes) → is_ascii_whitespace c ≡ false → trim_start (c ∷ s) ≡ c ∷ s
unfolding trim_start
trim_start-cons c s h = rw h refl

trim_end-cons :
    (c : ℕ) (s : Bytes) → is_ascii_whitespace c ≡ false → trim_end (c ∷ s) ≡ c ∷ trim_end s
unfolding trim_end
trim_end-cons c s h = elim (List-cases (trim_end s)) [
  | inl e ↦ rw (e, h) refl
  | inr (x, xs, e) ↦ rw e refl
]

trim_end_twice : (s : Bytes) → trim_end (trim_end s) ≡ trim_end s
unfolding trim_end
trim_end_twice [] = refl
trim_end_twice (c ∷ s) = elim (List-cases (trim_end s)) [
  | inr (x, xs, e) ↦ rw e (step x xs (subst (λ t. trim_end t ≡ t) e (trim_end_twice s)))
  | inl e ↦ rw e (last (Bool-cases (is_ascii_whitespace c)))
]
  where
    step : (x : ℕ) (xs : Bytes) → trim_end (x ∷ xs) ≡ x ∷ xs → trim_end (c ∷ x ∷ xs) ≡ c ∷ x ∷ xs
    step x xs e = rw (trim_end, e) refl

    last :
        (is_ascii_whitespace c ≡ true) ⊎ (is_ascii_whitespace c ≡ false)
        → trim_end (if is_ascii_whitespace c then [] else c ∷ [])
          ≡ (if is_ascii_whitespace c then [] else c ∷ [])
    last (inl e) = rw e refl
    last (inr e) = rw e (rw e refl)

all-head : (c : ℕ) (s : Bytes) → is_space (c ∷ s) ≡ true → is_ascii_whitespace c ≡ true
all-head c s h = ground arith

all-tail : (c : ℕ) (s : Bytes) → is_space (c ∷ s) ≡ true → is_space s ≡ true
all-tail c s h = ground arith

trim_start_cases :
    (s : Bytes)
    → (trim_start s ≡ [])
      ⊎ ((c : ℕ) × (cs : Bytes) × (trim_start s ≡ c ∷ cs) × (is_ascii_whitespace c ≡ false))
unfolding trim_start
trim_start_cases [] = inl refl
trim_start_cases (c ∷ s) = elim (Bool-cases (is_ascii_whitespace c)) [
  | inl e ↦ rw e (trim_start_cases s)
  | inr e ↦ rw e (inr (c, s, refl, e))
]

trim-IsTrimmed : (s : Bytes) → IsTrimmed (trim_end (trim_start s))
unfolding trim_start trim_end
trim-IsTrimmed s = elim (trim_start_cases s) [
  | inl e ↦ rw e (refl, refl)
  | inr (c, cs, e, h) ↦
      rw (e, trim_end-cons c cs h)
        (
          trim_start-cons c (trim_end cs) h,
          trim_end-cons c (trim_end cs) h ∙ ap (λ (t : Bytes). c ∷ t) (trim_end_twice cs),
        )
]

trim_start-append : (lead s : Bytes) → is_space lead ≡ true → trim_start (lead ++ s) ≡ trim_start s
unfolding trim_start
trim_start-append [] s h = refl
trim_start-append (c ∷ lead) s h = ground (arith, trim_start-append lead s)

trim_end-space : (trail : Bytes) → is_space trail ≡ true → trim_end trail ≡ []
unfolding trim_end
trim_end-space [] h = refl
trim_end-space (c ∷ trail) h = ground (arith, trim_end-space trail)

trim_end-append : (s trail : Bytes) → is_space trail ≡ true → trim_end (s ++ trail) ≡ trim_end s
unfolding trim_end
trim_end-append [] trail h = trim_end-space trail h
trim_end-append (c ∷ s) trail h = rw (trim_end-append s trail h) refl

trim-space : (s : Bytes) → is_space s ≡ true → trim_end (trim_start s) ≡ []
unfolding trim_start trim_end
trim-space [] k = refl
trim-space (c ∷ s) k = rw (all-head c s k) (trim-space s (all-tail c s k))

pub trim-around :
    (lead text trail : Bytes)
    → is_space lead ≡ true
    → is_space trail ≡ true
    → IsTrimmed text
    → trim_end (trim_start (lead ++ (text ++ trail))) ≡ text
trim-around lead [] trail h k t = rw (trim_start-append lead trail h) (trim-space trail k)
trim-around lead (c ∷ text) trail h k t =
    let no_space = trim_start-head c text t.0 in
    rw (trim_start-append lead (c ∷ text ++ trail) h, trim_start-cons c (text ++ trail) no_space)
      (trim_end-append (c ∷ text) trail k ∙ t.1)

-- What the trims take off.
trim_start-split :
    (s : Bytes) → (lead : Bytes) × (is_space lead ≡ true) × (s ≡ lead ++ trim_start s)
unfolding trim_start
trim_start-split [] = ([], refl, refl)
trim_start-split (c ∷ s) = elim (Bool-cases (is_ascii_whitespace c)) [
  | inl e ↦
      let (lead, h, k) = trim_start-split s in
      (c ∷ lead, ground (arith, e, h), rw e (ap (λ (t : Bytes). c ∷ t) k))
  | inr e ↦ ([], refl, rw e refl)
]

trim_end-split : (s : Bytes) → (trail : Bytes) × (is_space trail ≡ true) × (s ≡ trim_end s ++ trail)
unfolding trim_end
trim_end-split [] = ([], refl, refl)
trim_end-split (c ∷ s) =
    let (trail, h, k) = trim_end-split s in
    elim (List-cases (trim_end s)) [
      | inr (x, xs, e) ↦ (trail, h, rw e (ap (λ (t : Bytes). c ∷ t) (k ∙ rw e refl)))
      | inl e ↦ elim (Bool-cases (is_ascii_whitespace c)) [
        | inl space ↦ (
          c ∷ trail,
          ground (arith, space, h),
          rw (e, space) (ap (λ (t : Bytes). c ∷ t) (k ∙ rw e refl)),
        )
        | inr other ↦ (trail, h, rw (e, other) (ap (λ (t : Bytes). c ∷ t) (k ∙ rw e refl)))
      ]
    ]

module _ (texts : HeaderText) where
  parse_header-parts :
      (line : Bytes) (name : HeaderName) (value : Bytes)
      → parse_header texts line ≡ some (name, value)
      → (before after : Bytes) × (split_at_first line b':' ≡ some (before, after))
        × (texts.to_header_name before ≡ some name)
        × (trim_end (trim_start after) ≡ value)
        × (texts.is_header_value value ≡ true)
  unfolding parse_header
  parse_header-parts line name value e = elim (Option-cases (split_at_first line b':')) [
    | inl none_found ↦ absurd (ground (arith, none_found))
    | inr ((before, after), found) ↦ elim (Option-cases (texts.to_header_name before)) [
      | inl bad ↦ absurd (ground (arith, found, bad))
      | inr (n, good) ↦ elim (Bool-cases (texts.is_header_value (trim_end (trim_start after)))) [
        | inr bad ↦ absurd (ground (arith, found, good, bad))
        | inl valid ↦ (
          before,
          after,
          found,
          ground (arith, found, good, valid),
          ground (arith, found, good, valid),
          ground (arith, found, good, valid),
        )
      ]
    ]
  ]

  pub parse_header-made :
      (name : HeaderName) (value before lead trail : Bytes)
      → contains before b':' ≡ false
      → is_space lead ≡ true
      → is_space trail ≡ true
      → IsTrimmed value
      → texts.to_header_name before ≡ some name
      → texts.is_header_value value ≡ true
      → parse_header texts (before ++ b':' ∷ (lead ++ (value ++ trail))) ≡ some (name, value)
  unfolding parse_header
  parse_header-made name value before lead trail free l t trimmed named valid = rw (
    split_at_first-append before (lead ++ (value ++ trail)) b':' free,
    named,
    trim-around lead value trail l t trimmed,
    valid,
  )

  -- A line is read as a header exactly if it is a header name, a colon, white space, the value with
  -- no white space at its ends, and white space again. The name has no colon, and the value is one
  -- that the http crate takes.
  pub parse_header_iff :
      (line : Bytes) (name : HeaderName) (value : Bytes)
      → (parse_header texts line ≡ some (name, value)) ↔ (
          (before lead trail : Bytes) × (line ≡ before ++ b':' ∷ (lead ++ (value ++ trail)))
          × (contains before b':' ≡ false)
          × (is_space lead ≡ true)
          × (is_space trail ≡ true)
          × IsTrimmed value
          × (texts.to_header_name before ≡ some name)
          × (texts.is_header_value value ≡ true))
  parse_header_iff line name value = (
    λ e.
        let (before, after, found, named, trimmed, valid) = parse_header-parts line name value e in
        let (lead, l, a) = trim_start-split after in
        let (trail, t, b) = trim_end-split (trim_start after) in
        (
          before,
          lead,
          trail,
          split_at_first-eq_some line before after b':' found
              ∙ ap (λ (s : Bytes). before ++ b':' ∷ s)
                  (a ∙ ap (λ (s : Bytes). lead ++ s) (b ∙ ap (λ (s : Bytes). s ++ trail) trimmed)),
          split_at_first-free line before after b':' found,
          l,
          t,
          subst IsTrimmed trimmed (trim-IsTrimmed after),
          named,
          valid,
        ),
    λ (before, lead, trail, made, free, l, t, trimmed, named, valid).
        rw made (parse_header-made name value before lead trail free l t trimmed named valid),
  )
