-- ===== src/Client/Defaults.antt =====
-- The default headers that src/default_headers.rs adds to a request.
use isahc.Prelude.{
  ◌≡◌, refl, sym, ◌∙◌, inl, inr, true, false, not, ◌||◌, List, [], ◌∷◌, ◌++◌, any, arith,
  Bool-cases, if◌then◌else◌, append-nil, append_assoc, subst,
}
use isahc.Prelude.Bytes.{Bytes, bytes_eq, bytes_eq_iff}
use isahc.Http.{HeaderMap, HeaderLaws, HeaderName, HeaderText, is_some_value, contains_key}
use isahc.Client.{append_values, add_defaults}

module _ (texts : HeaderText) (h : HeaderMap) (laws : HeaderLaws h) where
  get_all-append_values :
      (name other : HeaderName) (values : List Bytes) (headers : h.Map)
      → h.get_all other (append_values texts h name values headers) ≡ (
          if bytes_eq name other
          then h.get_all other headers ++ values
          else h.get_all other headers)
  unfolding append_values
  get_all-append_values name other [] headers = elim (Bool-cases (bytes_eq name other)) [
    | inl e ↦ rw e (sym (append-nil (h.get_all other headers)))
    | inr e ↦ rw e refl
  ]
  get_all-append_values name other (value ∷ more) headers =
      get_all-append_values name other more (h.append name value headers)
      ∙ rw (laws.get_all-append name other value headers) (elim (Bool-cases (bytes_eq name other)) [
        | inl e ↦ rw e (append_assoc (h.get_all other headers) (value ∷ []) more)
        | inr e ↦ rw e refl
      ])

  -- What a name has after the defaults for some names have been added.
  abbrev filled : h.Map → List HeaderName → h.Map → HeaderName → List Bytes
  filled defaults names headers name =
      if is_some_value (h.get_all name headers) || not (any (λ key. bytes_eq key name) names)
      then h.get_all name headers
      else h.get_all name defaults

  get_all-add_defaults :
      (defaults : h.Map) (names : List HeaderName) (headers : h.Map) (name : HeaderName)
      → h.get_all name (add_defaults texts h defaults names headers)
        ≡ filled defaults names headers name
  unfolding add_defaults
  get_all-add_defaults defaults [] headers name = ground arith
  get_all-add_defaults defaults (n ∷ names) headers name =
      elim (Bool-cases (contains_key h n headers)) [
        | inl has ↦ rw has (get_all-add_defaults defaults names headers name ∙ present has)
        | inr lacks ↦ rw lacks (
            get_all-add_defaults defaults names
              (append_values texts h n (h.get_all n defaults) headers) name
            ∙ absent lacks)
      ]
    where
      present :
          contains_key h n headers ≡ true
          → filled defaults names headers name ≡ filled defaults (n ∷ names) headers name
      present has = elim (Bool-cases (bytes_eq n name)) [
        | inl e ↦
            let here : is_some_value (h.get_all name headers) ≡ true =
              subst (λ x. is_some_value (h.get_all x headers) ≡ true) ((bytes_eq_iff n name).0 e)
                has in
            rw here refl
        | inr e ↦ rw e refl
      ]

      absent :
          contains_key h n headers ≡ false
          → filled defaults names (append_values texts h n (h.get_all n defaults) headers) name
            ≡ filled defaults (n ∷ names) headers name
      absent lacks = elim (Bool-cases (bytes_eq n name)) [
        | inl e ↦ ground (
          arith,
          e,
          get_all-append_values n name (h.get_all n defaults) headers,
          subst
              (λ x.
                (is_some_value (h.get_all x headers) ≡ false)
                × (h.get_all n defaults ≡ h.get_all x defaults))
              ((bytes_eq_iff n name).0 e) (lacks, refl),
        )
        | inr e ↦ rw (get_all-append_values n name (h.get_all n defaults) headers, e) refl
      ]

  -- A header that the request has is left as it is; any other one gets the values of the defaults.
  pub add_defaults-keys :
      (defaults headers : h.Map) (name : HeaderName)
      → h.get_all name (add_defaults texts h defaults (h.keys defaults) headers)
        ≡ (if contains_key h name headers then h.get_all name headers else h.get_all name defaults)
  add_defaults-keys defaults headers name =
      get_all-add_defaults defaults (h.keys defaults) headers name
      ∙ rw (laws.keys_iff name defaults) (ground arith)
