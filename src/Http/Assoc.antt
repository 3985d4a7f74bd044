-- ===== src/Http/Assoc.antt =====
-- A header map that meets the laws of Http.antt, a list of names with values, and tests of header
-- texts for ASCII. The theorems are applied to them in the examples.
use isahc.Prelude.{all, between, map, some, none}
use isahc.Prelude.Ascii.{is_ascii, to_ascii_lowercase}
use isahc.Prelude.{
  ◌≡◌, refl, ◌∙◌, inl, inr, false, not, List, [], ◌∷◌, ◌++◌, any, filter, if◌then◌else◌, arith,
  Bool-cases,
}
use isahc.Prelude.Bytes.{Bytes, codes, bytes_eq, bytes_eq_iff}
use isahc.Http.{HeaderName, HeaderMap, HeaderLaws, HeaderText, is_some_value}

abbrev pub Pairs : Type 0
Pairs = List (HeaderName × Bytes)

abbrev pub values_of : HeaderName → Pairs → List Bytes
values_of name [] = []
values_of name ((n, value) ∷ more) =
    let rest = values_of name more in if bytes_eq n name then value ∷ rest else rest

abbrev pub without : HeaderName → Pairs → Pairs
without name [] = []
without name ((n, value) ∷ more) =
    let rest = without name more in if bytes_eq name n then rest else (n, value) ∷ rest

abbrev pub names_of : Pairs → List HeaderName
names_of [] = []
names_of ((n, value) ∷ more) = n ∷ filter (λ k. not (bytes_eq n k)) (names_of more)

abbrev pub assoc : HeaderMap
assoc = record {
  Map = Pairs;
  new = [];
  keys = names_of;
  get_all = values_of;
  insert = λ name value map. without name map ++ (name, value) ∷ [];
  append = λ name value map. map ++ (name, value) ∷ [];
  remove = without;
}

values_of-append :
    (name other : HeaderName) (value : Bytes) (map : Pairs)
    → values_of other (map ++ (name, value) ∷ [])
      ≡ (if bytes_eq name other then values_of other map ++ value ∷ [] else values_of other map)
values_of-append name other value [] = ground arith
values_of-append name other value ((n, v) ∷ more) =
    ground (arith, values_of-append name other value more)

values_of-without :
    (name other : HeaderName) (map : Pairs)
    → values_of other (without name map) ≡ (if bytes_eq name other then [] else values_of other map)
values_of-without name other [] = ground arith
values_of-without name other ((n, v) ∷ more) = ground (
  arith,
  values_of-without name other more,
  bytes_eq_iff name other,
  bytes_eq_iff n other,
  bytes_eq_iff name n,
)

values_of-insert :
    (name other : HeaderName) (value : Bytes) (map : Pairs)
    → values_of other (without name map ++ (name, value) ∷ [])
      ≡ (if bytes_eq name other then value ∷ [] else values_of other map)
values_of-insert name other value map =
    ground (
      arith,
      values_of-append name other value (without name map),
      values_of-without name other map,
    )

any-filter :
    (n name : HeaderName) (names : List HeaderName)
    → bytes_eq n name ≡ false
    → any (λ k. bytes_eq k name) (filter (λ k. not (bytes_eq n k)) names)
      ≡ any (λ k. bytes_eq k name) names
any-filter n name [] e = refl
any-filter n name (k ∷ names) e =
    ground
      (arith, any-filter n name names e, bytes_eq_iff n k, bytes_eq_iff k name, bytes_eq_iff n name)

names_of_iff :
    (name : HeaderName) (map : Pairs)
    → any (λ key. bytes_eq key name) (names_of map) ≡ is_some_value (values_of name map)
names_of_iff name [] = refl
names_of_iff name ((n, v) ∷ more) = elim (Bool-cases (bytes_eq n name)) [
  | inl e ↦ rw e refl
  | inr e ↦ rw e (any-filter n name (names_of more) e ∙ names_of_iff name more)
]

pub assoc-HeaderLaws : HeaderLaws assoc
assoc-HeaderLaws = record {
  get_all-new = λ name. refl;
  get_all-insert = values_of-insert;
  get_all-append = values_of-append;
  get_all-remove = values_of-without;
  keys_iff = names_of_iff;
}

abbrev pub ascii_texts : HeaderText
ascii_texts = record {
  is_str = λ text. all (between 32 126) text;
  is_header_value = λ text. all is_ascii text;
  to_header_name = λ text. some (map to_ascii_lowercase text);
  to_status = λ text.
      if bytes_eq text (codes "200")
      then some 200
      else if bytes_eq text (codes "302")
      then some 302
      else none;
}
