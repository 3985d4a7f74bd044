-- ===== src/Config/Examples.antt =====
-- Settings on which the theorems about src/config are applied.
use isahc.Prelude.{◌≡◌, refl, true, false, some, List, [], ◌∷◌}
use isahc.Prelude.Bytes.{codes}
use isahc.Config.{RequestConfig, no_config, merge, no_redirects, limit_redirects}
use isahc.Config.Configurable.{
  Setting, with_redirect_policy, with_proxy_blacklist, configure_all, configure, join_commas,
}
use isahc.Config.Merging.{merge-configure_all}
use isahc.Config.Auth.{all_schemes, union, bit_or}

abbrev settings : List Setting
settings =
    with_redirect_policy no_redirects
    ∷ with_proxy_blacklist (codes "a.org" ∷ codes "b.org" ∷ [])
    ∷ with_redirect_policy (limit_redirects 3)
    ∷ []

abbrev of_client : RequestConfig
of_client = record no_config { timeout = some 7; redirect_policy = some no_redirects }

merge-configure_all_example :
    merge (configure_all settings no_config) of_client ≡ record no_config {
      timeout = some 7;
      redirect_policy = some (limit_redirects 3);
      proxy_blacklist = some (codes "a.org,b.org");
    }
unfolding configure_all configure join_commas
merge-configure_all_example = merge-configure_all settings of_client

-- All schemes, with and without the feature `spnego`.
every_scheme : (all_schemes true ≡ 7) × (all_schemes false ≡ 3) × (union 5 6 ≡ 7)
unfolding all_schemes union bit_or
every_scheme = (refl, refl, refl)
