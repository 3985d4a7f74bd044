-- ===== src/Client/Sizes.antt =====
-- Which of the options that src/client.rs and src/config give to curl tell the length of a body.
use isahc.Prelude.{
  ℕ, ◌≡◌, refl, sym, subst, map, ap, ◌∙◌, inl, inr, Bool, true, false, Option, none, some, List, [],
  ◌∷◌, ◌++◌, filter, all, arith, Bool-cases,
}
use isahc.Prelude.Outcome.{ok, >>=-eq-ok, ok-eq}
use isahc.Http.{Method}
use isahc.Tls.Options.{TlsOpt, given_tls, tls_opts, proxy_tls_opts}
use isahc.Config.{RequestConfig}
use isahc.Config.Options.{
  Opt, post_field_size, in_filesize, Features, plain_opts, request_opts, progress, origin_tls,
  via_proxy_tls, given,
}
use isahc.Client.Easy.{size_opts}
use isahc.Client.Plain.{is_plain, IsPlain, plain_opts-IsPlain}

-- The options that tell curl how long a body is.
abbrev pub is_size : Opt → Bool
is_size (post_field_size len) = true
is_size (in_filesize len) = true
is_size _ = false

abbrev pub sizes : List Opt → List Opt
sizes opts = filter is_size opts

pub sizes-append : (a b : List Opt) → sizes (a ++ b) ≡ sizes a ++ sizes b
sizes-append [] b = refl
sizes-append (x ∷ a) b = elim (Bool-cases (is_size x)) [
  | inl e ↦ rw e (ap (λ r. x ∷ r) (sizes-append a b))
  | inr e ↦ rw e (sizes-append a b)
]

-- No option of the list tells a length.
pub record NoSize (opts : List Opt) : Type 0 where
  pub quiet : sizes opts ≡ []

none_in : (a b : List Opt) → NoSize a → NoSize b → NoSize (a ++ b)
none_in a b e f = record { quiet = sizes-append a b ∙ rw (e.quiet, f.quiet) refl }

not_size : (opt : Opt) → is_plain opt ≡ true → is_size opt ≡ false
not_size opt e = ground (arith, e)

pub IsPlain-NoSize : (opts : List Opt) → IsPlain opts → NoSize opts
IsPlain-NoSize [] p = record { quiet = refl }
IsPlain-NoSize (x ∷ opts) p =
    let e : (is_plain x ≡ true) × (all is_plain opts ≡ true) = ground (arith, p.plain) in
    record { quiet = rw (not_size x e.0) (IsPlain-NoSize opts (record { plain = e.1 })).quiet }

pub size_opts-sizes :
    (method : Method) (len : Option ℕ) → sizes (size_opts method len) ≡ size_opts method len
unfolding size_opts
size_opts-sizes method len = ground arith

origin_tls-sizes : (opts : List TlsOpt) → NoSize (map origin_tls opts)
origin_tls-sizes [] = record { quiet = refl }
origin_tls-sizes (x ∷ opts) = record { quiet = (origin_tls-sizes opts).quiet }

via_proxy_tls-sizes : (opts : List TlsOpt) → NoSize (map via_proxy_tls opts)
via_proxy_tls-sizes [] = record { quiet = refl }
via_proxy_tls-sizes (x ∷ opts) = record { quiet = (via_proxy_tls-sizes opts).quiet }

-- What the options of a request's configuration are made of.
pub request_opts-eq-ok :
    (f : Features) (c : RequestConfig) (opts : List Opt)
    → request_opts f c ≡ ok opts
    → (origin via_proxy : List TlsOpt) × (given_tls c.tls_config (tls_opts f.answers f.engine)
        ≡ ok origin)
      × (given_tls c.proxy_tls_config (proxy_tls_opts f.proxy_answers) ≡ ok via_proxy)
      × (opts
          ≡ plain_opts f c
            ++ (map origin_tls origin
                ++ (map via_proxy_tls via_proxy
                    ++ given c.enable_metrics (λ enable. progress enable ∷ []))))
unfolding request_opts
request_opts-eq-ok f c opts e =
    let (origin, first, e') =
      >>=-eq-ok (given_tls c.tls_config (tls_opts f.answers f.engine)) _ e in
    let (via_proxy, second, e'') =
      >>=-eq-ok (given_tls c.proxy_tls_config (proxy_tls_opts f.proxy_answers)) _ e' in
    (origin, via_proxy, first, second, sym (ok-eq e''))

progress-NoSize : (enabled : Option Bool) → NoSize (given enabled (λ enable. progress enable ∷ []))
progress-NoSize none = record { quiet = refl }
progress-NoSize (some enable) = record { quiet = refl }

pub request_opts-sizes :
    (f : Features) (c : RequestConfig) (opts : List Opt) → request_opts f c ≡ ok opts → NoSize opts
request_opts-sizes f c opts e =
    let (origin, via_proxy, first, second, same) = request_opts-eq-ok f c opts e in
    subst NoSize (sym same) (
      none_in _ _ (IsPlain-NoSize _ (plain_opts-IsPlain f c)) (
        none_in _ _ (origin_tls-sizes origin)
          (none_in _ _ (via_proxy_tls-sizes via_proxy) (progress-NoSize c.enable_metrics))))
