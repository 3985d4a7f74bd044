-- ===== src/Cookies/Jar/Keys.antt =====
-- A cookie jar of src/cookies/jar.rs as a map from domain, path and name to cookies.
use isahc.Prelude.{
  ℕ, ◌≡◌, refl, ◌↔◌, Bool, true, ◌&&◌, Option, none, some, [], ◌∷◌, arith, if◌then◌else◌,
}
use isahc.Prelude.Bytes.{Bytes, bytes_eq, bytes_eq_iff}
use isahc.Cookies.Cookie.{Cookie, is_expired}
use isahc.Cookies.Jar.{CookieWithContext, CookieJar, same_entry, replace, retain_unexpired}

pub record Key : Type 0 where
  pub domain : Bytes
  pub path : Bytes
  pub name : Bytes

abbrev pub key : CookieWithContext → Key
key entry = record {
  domain = entry.domain_value;
  path = entry.path_value;
  name = entry.cookie.name;
}

unfoldable pub key_eq : Key → Key → Bool
key_eq k j = bytes_eq k.domain j.domain && bytes_eq k.path j.path && bytes_eq k.name j.name

pub key_eq_iff : (k j : Key) → (key_eq k j ≡ true) ↔ (k ≡ j)
unfolding key_eq
key_eq_iff k j =
    ground (
      arith,
      bytes_eq_iff k.domain j.domain,
      bytes_eq_iff k.path j.path,
      bytes_eq_iff k.name j.name,
    )

pub key_eq_refl : (k : Key) → key_eq k k ≡ true
key_eq_refl k = (key_eq_iff k k).1 refl

same_entry-key_eq : (a b : CookieWithContext) → same_entry a b ≡ key_eq (key a) (key b)
unfolding same_entry key_eq
same_entry-key_eq a b = refl

-- The cookie under a key.
unfoldable pub view : CookieJar → Key → Option Cookie
view [] k = none
view (entry ∷ more) k = if key_eq (key entry) k then some entry.cookie else view more k

-- No two entries have one key.
abbrev pub IsDistinct : CookieJar → Type 0
IsDistinct [] = Unit
IsDistinct (entry ∷ more) = (view more (key entry) ≡ none) × IsDistinct more

-- What is left of a cookie at a time.
abbrev pub live : ℕ → Option Cookie → Option Cookie
live now none = none
live now (some cookie) = if is_expired now cookie then none else some cookie

pub view-replace :
    (new : CookieWithContext) (jar : CookieJar) (k : Key)
    → view (replace new jar).1 k ≡ (if key_eq (key new) k then some new.cookie else view jar k)
unfolding view replace
view-replace new [] k = refl
view-replace new (entry ∷ more) k = ground (
  arith,
  view-replace new more k,
  same_entry-key_eq new entry,
  key_eq_iff (key new) (key entry),
  key_eq_iff (key entry) k,
  key_eq_iff (key new) k,
)

abbrev pub cookie_of : Option CookieWithContext → Option Cookie
cookie_of none = none
cookie_of (some entry) = some entry.cookie

pub replaced-view :
    (new : CookieWithContext) (jar : CookieJar) → cookie_of (replace new jar).0 ≡ view jar (key new)
unfolding view replace
replaced-view new [] = refl
replaced-view new (entry ∷ more) = ground (
  arith,
  replaced-view new more,
  same_entry-key_eq new entry,
  key_eq_iff (key new) (key entry),
  key_eq_iff (key entry) (key new),
)

pub replace-IsDistinct :
    (new : CookieWithContext) (jar : CookieJar) → IsDistinct jar → IsDistinct (replace new jar).1
unfolding replace
replace-IsDistinct new [] h = (unfold view in refl, tt)
replace-IsDistinct new (entry ∷ more) h = ground (
  arith,
  replace-IsDistinct new more h.1,
  view-replace new more (key entry),
  same_entry-key_eq new entry,
  key_eq_iff (key new) (key entry),
)

pub view-retain :
    (now : ℕ) (jar : CookieJar) (k : Key)
    → IsDistinct jar
    → view (retain_unexpired now jar) k ≡ live now (view jar k)
unfolding view
view-retain now [] k h = refl
view-retain now (entry ∷ more) k h =
    ground (arith, view-retain now more k h.1, key_eq_iff (key entry) k)

pub retain-IsDistinct :
    (now : ℕ) (jar : CookieJar) → IsDistinct jar → IsDistinct (retain_unexpired now jar)
retain-IsDistinct now [] h = tt
retain-IsDistinct now (entry ∷ more) h =
    ground (arith, view-retain now more (key entry) h.1, retain-IsDistinct now more h.1)
