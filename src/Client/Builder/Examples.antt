-- ===== src/Client/Builder/Examples.antt =====
-- Default headers on which the theorem about `HttpClientBuilder` of src/client.rs is applied.
use isahc.Prelude.{◌≡◌, refl, ◌⊎◌, true, false, none, List, [], ◌∷◌, ◌&&◌, all}
use isahc.Prelude.Bytes.{Bytes, codes, bytes_eq}
use isahc.Prelude.Outcome.{ok, err}
use isahc.Http.Assoc.{assoc, assoc-HeaderLaws, ascii_texts}
use isahc.Error.{client_initialization}
use isahc.Client.{add_defaults}
use isahc.Client.Examples.{openssl_engine}
use isahc.Client.Builder.{
  HttpClient, new_builder, cookie_layer, default_headers_layers, set_default_headers, build,
}
use isahc.Client.Builder.Headers.{is_header, set_default_headers-build}

abbrev pairs : List (Bytes × Bytes)
pairs =
    (codes "Accept", codes "text")
    ∷ (codes "X-Key", codes "1")
    ∷ (codes "accept", codes "html")
    ∷ []

-- The headers of a request that has a key of its own.
abbrev own : assoc.Map
own = (codes "x-key", codes "2") ∷ []

set_default_headers-build_example :
    (((all (is_header ascii_texts assoc) pairs && true) ≡ false)
      × (build ascii_texts assoc true (
            set_default_headers ascii_texts assoc pairs
              (new_builder ascii_texts assoc openssl_engine))
          ≡ err client_initialization))
    ⊎ (((all (is_header ascii_texts assoc) pairs && true) ≡ true)
        × (defaults : assoc.Map) × (client : HttpClient assoc) × (build ascii_texts assoc true (
              set_default_headers ascii_texts assoc pairs
                (new_builder ascii_texts assoc openssl_engine))
            ≡ ok client)
        × (client.interceptors
            ≡ cookie_layer none ∷ default_headers_layers ascii_texts assoc defaults)
        × (assoc.get_all (codes "accept") defaults ≡ codes "text" ∷ codes "html" ∷ [])
        × (assoc.get_all
              (codes "accept")
              (add_defaults ascii_texts assoc defaults (assoc.keys defaults) own)
            ≡ codes "text" ∷ codes "html" ∷ []))
unfolding bytes_eq
set_default_headers-build_example =
    set_default_headers-build ascii_texts assoc assoc-HeaderLaws true pairs
      (new_builder ascii_texts assoc openssl_engine) (codes "accept") own refl
