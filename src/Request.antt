-- ===== src/Request.antt =====
-- src/request.rs: the request that passes through the interceptors, and the copy that
-- `RequestExt::to_builder` makes of it. The typed map of extensions is one field for each type that
-- the program puts there; a cookie jar is the handle of the shared jar.
use isahc.Prelude.{ℕ, Option, none}
use isahc.Http.{Uri, Method, Version, HeaderMap}
use isahc.Body.{AsyncBody}
use isahc.Config.{RequestConfig, Authentication}

pub record Extensions : Type 0 where
  pub request_config : Option RequestConfig
  pub cookie_jar : Option ℕ
  pub authentication : Option Authentication

pub record Request (h : HeaderMap) : Type 0 where
  pub method : Method
  pub uri : Uri
  pub version : Version
  pub headers : h.Map
  pub extensions : Extensions
  pub body : AsyncBody

-- A response: `request_body` and `effective_uri` are the extensions `RequestBody` and `EffectiveUri`; a cookie jar is a handle again.
pub record Response (h : HeaderMap) : Type 0 where
  pub status : ℕ
  pub headers : h.Map
  pub request_body : Option AsyncBody
  pub effective_uri : Option Uri
  pub cookie_jar : Option ℕ

-- A builder is a request that has no body yet: it stays in the state in which `body` succeeds,
-- since what the program puts into it are values and no texts to parse.
pub record Builder (h : HeaderMap) : Type 0 where
  pub method : Method
  pub uri : Uri
  pub version : Version
  pub headers : h.Map
  pub extensions : Extensions

-- Of the extensions, the configuration and the cookie jar are copied.
unfoldable pub to_builder : {h : HeaderMap} → Request h → Builder h
to_builder request = record {
  method = request.method;
  uri = request.uri;
  version = request.version;
  headers = request.headers;
  extensions = record {
    request_config = request.extensions.request_config;
    cookie_jar = request.extensions.cookie_jar;
    authentication = none;
  };
}

abbrev pub with_body : {h : HeaderMap} → Builder h → AsyncBody → Request h
with_body builder body = record {
  method = builder.method;
  uri = builder.uri;
  version = builder.version;
  headers = builder.headers;
  extensions = builder.extensions;
  body = body;
}
