-- ===== src/Client/Builder.antt =====
-- `HttpClientBuilder` of src/client.rs. The interceptors of a client are those behind the redirect
-- interceptor, which is always the first; a builder has none but that one, since the interceptors that
-- a program adds of its own are not modelled. A jar
-- is the handle that its copies share, and whether the agent's thread starts is given.
pub mod Headers
mod Examples
use isahc.Prelude.{ℕ, Bool, false, Option, none, some, List, [], ◌∷◌, ◌==◌, if◌then◌else◌}
use isahc.Prelude.Bytes.{Bytes}
use isahc.Prelude.Outcome.{Outcome, ok, err}
use isahc.Http.{HeaderMap, HeaderText}
use isahc.Error.{ErrorKind, client_initialization}
use isahc.Config.{RequestConfig, ClientConfig, DnsCache, client_defaults}
use isahc.Tls.{Engine}

pub record AgentBuilder : Type 0 where
  pub max_connections : ℕ
  pub max_connections_per_host : ℕ
  pub connection_cache_size : ℕ

pub data Layer (h : HeaderMap) : Type 0 where
  cookie_layer : Option ℕ → Layer h
  default_headers_layer : h.Map → Layer h

pub record HttpClientBuilder (h : HeaderMap) : Type 0 where
  pub agent_builder : AgentBuilder
  pub client_config : ClientConfig
  pub request_config : RequestConfig
  pub default_headers : h.Map
  pub error : Option ErrorKind
  pub cookie_jar : Option ℕ

-- The client: `Inner` of the source.
pub record HttpClient (h : HeaderMap) : Type 0 where
  pub agent : AgentBuilder
  pub client_config : ClientConfig
  pub request_config : RequestConfig
  pub interceptors : List (Layer h)
  pub cookie_jar : Option ℕ

abbrev no_client_config : ClientConfig
no_client_config = record {
  connection_cache_ttl = none;
  close_connections = false;
  dns_cache = none;
  dns_resolve = none;
}

module _ (texts : HeaderText) (h : HeaderMap) where
  -- `HttpClientBuilder::new`
  abbrev pub new_builder : Engine → HttpClientBuilder h
  new_builder engine = record {
    agent_builder = record {
      max_connections = 0;
      max_connections_per_host = 0;
      connection_cache_size = 0;
    };
    client_config = no_client_config;
    request_config = client_defaults engine;
    default_headers = h.new;
    error = none;
    cookie_jar = none;
  }

  abbrev pub set_cookie_jar : ℕ → HttpClientBuilder h → HttpClientBuilder h
  set_cookie_jar jar b = record b { cookie_jar = some jar }

  abbrev pub set_max_connections : ℕ → HttpClientBuilder h → HttpClientBuilder h
  set_max_connections max b = record b {
    agent_builder = record b.agent_builder { max_connections = max };
  }

  abbrev pub set_max_connections_per_host : ℕ → HttpClientBuilder h → HttpClientBuilder h
  set_max_connections_per_host max b = record b {
    agent_builder = record b.agent_builder { max_connections_per_host = max };
  }

  abbrev pub set_connection_cache_size : ℕ → HttpClientBuilder h → HttpClientBuilder h
  set_connection_cache_size size b = record b {
    agent_builder = record b.agent_builder { connection_cache_size = size };
    client_config = record b.client_config { close_connections = size == 0 };
  }

  abbrev pub set_connection_cache_ttl : ℕ → HttpClientBuilder h → HttpClientBuilder h
  set_connection_cache_ttl ttl b = record b {
    client_config = record b.client_config { connection_cache_ttl = some ttl };
  }

  abbrev pub set_dns_cache : DnsCache → HttpClientBuilder h → HttpClientBuilder h
  set_dns_cache cache b = record b {
    client_config = record b.client_config { dns_cache = some cache };
  }

  abbrev pub set_dns_resolve : List Bytes → HttpClientBuilder h → HttpClientBuilder h
  set_dns_resolve map b = record b {
    client_config = record b.client_config { dns_resolve = some map };
  }

  -- `WithRequestConfig::with_config`
  abbrev pub with_config :
      (RequestConfig → RequestConfig) → HttpClientBuilder h → HttpClientBuilder h
  with_config f b = record b { request_config = f b.request_config }

  -- A name that is none, or a value that is none, is kept as an error for `build`.
  unfoldable pub default_header : Bytes → Bytes → HttpClientBuilder h → HttpClientBuilder h
  default_header key value b = elim (texts.to_header_name key) [
    | none ↦ record b { error = some client_initialization }
    | some name ↦
        if texts.is_header_value value
        then record b { default_headers = h.append name value b.default_headers }
        else record b { error = some client_initialization }
  ]

  unfoldable pub add_default_headers :
      List (Bytes × Bytes) → HttpClientBuilder h → HttpClientBuilder h
  add_default_headers [] b = b
  add_default_headers ((key, value) ∷ more) b =
      add_default_headers more (default_header key value b)

  -- `HttpClientBuilder::default_headers`
  abbrev pub set_default_headers : List (Bytes × Bytes) → HttpClientBuilder h → HttpClientBuilder h
  set_default_headers pairs b = add_default_headers pairs (record b { default_headers = h.new })

  -- The interceptor for default headers, if there are any.
  abbrev pub default_headers_layers : h.Map → List (Layer h)
  default_headers_layers headers = elim (h.keys headers) [
    | [] ↦ []
    | _ ∷ _ ↦ default_headers_layer headers ∷ []
  ]

  unfoldable pub build : Bool → HttpClientBuilder h → Outcome ErrorKind (HttpClient h)
  build is_spawned b = elim b.error [
    | some e ↦ err e
    | none ↦
        if is_spawned
        then ok (record {
          agent = b.agent_builder;
          client_config = b.client_config;
          request_config = b.request_config;
          interceptors = cookie_layer b.cookie_jar ∷ default_headers_layers b.default_headers;
          cookie_jar = b.cookie_jar;
        })
        else err client_initialization
  ]
