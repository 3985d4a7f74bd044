-- ===== src/Cookies/Jar/Examples.antt =====
-- Jars on which the theorems about src/cookies/jar.rs are applied.
use mathlib.Core.List.{Perm}
use isahc.Prelude.{◌≡◌, refl, ◌↔◌, ◌⊎◌, true, none, some, [], ◌∷◌, map, filter, All, arith}
use isahc.Prelude.Bytes.{codes, bytes_eq, eq_ignore_ascii_case, starts_with, ends_with}
use isahc.Prelude.Has.{Has}
use isahc.Prelude.Outcome.{ok, err, lift}
use isahc.Prelude.Sort.{bytes_le, sort_by, IsSorted}
use isahc.Http.{Uri, uri_host}
use isahc.Cookies.Cookie.{Cookie, is_expired}
use isahc.Cookies.Matching.Domain.{DomainMatches}
use isahc.Cookies.Jar.{
  CookieWithContext, CookieJar, domain_mismatch, with_context, store, set, get_for_uri, matches,
  matching, get_by_name, replace,
}
use isahc.Cookies.Jar.Keys.{Key, key, view, IsDistinct}
use isahc.Cookies.Matching.{rfind, is_subdomain, domain_matches, path_matches, default_path}
use isahc.Cookies.Jar.Keys.{key_eq}
use isahc.Cookies.Jar.Store.{set-put, put, Refused, set_refuses}
use isahc.Cookies.Jar.History.{IsSound, run, run-IsSound}
use isahc.Cookies.Jar.Requests.{
  Applies, matches-Applies, answers, get_for_uri-Perm, get_by_name-first,
}
use isahc.Cookies.Jar.Flow.{isolation, set-get_for_uri}
use isahc.Cookies.Examples.{ascii_platform, page}

-- A cookie with a domain of its own, and the entry that the jar makes of it.
abbrev pub shared : Cookie
shared = record {
  name = codes "lang";
  value = codes "en";
  domain = some (codes "example.com");
  path = none;
  secure = true;
  expiration = some 90;
}

abbrev pub shared_entry : CookieWithContext
shared_entry = record {
  domain_value = codes "example.com";
  path_value = codes "/docs/web";
  cookie = shared;
}

shared-with_context : with_context ascii_platform 7 shared page ≡ ok shared_entry
unfolding with_context lift domain_matches is_subdomain default_path rfind bytes_eq starts_with
    ends_with eq_ignore_ascii_case
shared-with_context = refl

-- An older cookie under the same key, and one that has expired.
abbrev stocked : CookieJar
stocked =
    record shared_entry { cookie = record shared { value = codes "de" } }
    ∷ record shared_entry { cookie = record shared { name = codes "old"; expiration = some 3 } }
    ∷ []

stocked-IsDistinct : IsDistinct stocked
unfolding view key_eq bytes_eq
stocked-IsDistinct = (refl, (refl, tt))

set-put_example :
    (new : CookieJar) × (set ascii_platform 7 shared page stocked
      ≡ ok (view stocked (key shared_entry), new))
    × ((j : Key) → view new j ≡ put 7 (key shared_entry) shared (view stocked) j)
    × IsDistinct new
set-put_example =
    set-put ascii_platform 7 shared page stocked shared_entry stocked-IsDistinct shared-with_context

abbrev foreign : Cookie
foreign = record shared { domain = some (codes "example.org") }

foreign-set :
    set ascii_platform 7 foreign page stocked
    ≡ err (record { kind = domain_mismatch; cookie = foreign })
unfolding set with_context lift domain_matches is_subdomain starts_with ends_with
    eq_ignore_ascii_case
foreign-set = refl

set_refuses_example :
    (foreign ≡ foreign)
    × Refused ascii_platform 7 domain_mismatch (uri_host page) (some (codes "example.org"))
set_refuses_example =
    set_refuses ascii_platform 7 foreign page stocked
      (record { kind = domain_mismatch; cookie = foreign }) foreign-set

run-IsSound_example :
    IsSound ascii_platform (run ascii_platform [] ((7, shared, page) ∷ (8, foreign, page) ∷ []))
run-IsSound_example =
    run-IsSound ascii_platform [] ((7, shared, page) ∷ (8, foreign, page) ∷ [])
      (record { distinct = tt; allowed = tt })

matches-Applies_example :
    (matches ascii_platform 8 shared_entry page ≡ ok true)
    ↔ Applies ascii_platform 8 shared_entry page
matches-Applies_example = matches-Applies ascii_platform 8 shared_entry page

shared_matches : matches ascii_platform 8 shared_entry page ≡ ok true
unfolding matches domain_matches is_subdomain path_matches is_expired bytes_eq starts_with ends_with
    eq_ignore_ascii_case
shared_matches = refl

abbrev pub one : CookieJar
one = shared_entry ∷ []

one-matching : matching ascii_platform 8 one page ≡ ok (shared ∷ [])
unfolding matching
one-matching = rw shared_matches

pub one-get_for_uri : get_for_uri ascii_platform 8 one page ≡ ok (shared ∷ [])
unfolding get_for_uri sort_by
one-get_for_uri = rw one-matching

get_for_uri-Perm_example :
    IsSorted (λ (a b : Cookie). bytes_le a.name b.name) (shared ∷ [])
    × Perm (shared ∷ []) (map (λ entry. entry.cookie) (filter (answers ascii_platform 8 page) one))
    × All
        (λ entry. Applies ascii_platform 8 entry page)
        (filter (answers ascii_platform 8 page) one)
get_for_uri-Perm_example = get_for_uri-Perm ascii_platform 8 one page (shared ∷ []) one-get_for_uri

get_by_name-first_example : get_by_name ascii_platform 8 one page (codes "lang") ≡ ok (some shared)
unfolding bytes_eq
get_by_name-first_example =
    get_by_name-first ascii_platform 8 one page (shared ∷ []) (codes "lang") one-matching

isolation_example :
    ((shared.domain ≡ none)
      × (eq_ignore_ascii_case (codes "www.example.com") (codes "www.example.com") ≡ true))
    ⊎ ((shared.domain ≡ some (codes "example.com"))
        × DomainMatches ascii_platform (codes "www.example.com") (codes "example.com")
        × DomainMatches ascii_platform (codes "www.example.com") (codes "example.com"))
isolation_example =
    isolation ascii_platform 7 8 shared page page shared_entry shared-with_context shared_matches

one-set : set ascii_platform 7 shared page [] ≡ ok (none, one)
unfolding set store replace is_expired
one-set = rw shared-with_context

set-get_for_uri_example : Has shared (shared ∷ [])
unfolding starts_with is_expired
set-get_for_uri_example =
    set-get_for_uri ascii_platform 7 8 shared page [] one none (shared ∷ []) one-set one-get_for_uri
      refl refl (λ _. refl) (omega arith) refl

abbrev kelvin_page : Uri
kelvin_page = record page {
  authority = some (record { userinfo = none; host = codes "k.org"; port = none });
}
