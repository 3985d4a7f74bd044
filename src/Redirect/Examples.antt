-- ===== src/Redirect/Examples.antt =====
-- Requests and responses on which the theorems about src/redirect.rs are applied: a request with a
-- password at a.org, which redirects to b.org.
use isahc.Prelude.{◌≡◌, refl, true, none, some, List, [], ◌∷◌, All, all, if◌then◌else◌}
use isahc.Prelude.Ascii.{is_ascii}
use isahc.Prelude.Bytes.{Bytes, codes, bytes_eq, eq_ignore_ascii_case}
use isahc.Prelude.Outcome.{Outcome, ok}
use isahc.Http.{http_11, Scheme, http, https, Uri, scheme_eq, option_eq, port_eq, is_https}
use isahc.Http.Assoc.{assoc, assoc-HeaderLaws}
use isahc.Error.{ErrorKind}
use isahc.Body.{buffer, reset}
use isahc.Config.{no_config, RequestConfig, limit_redirects}
use isahc.Request.{Request, Response, to_builder}
use isahc.Redirect.Uris.{Urls, parsed, is_same_authority, parse_location, resolve, create_referer}
use isahc.Redirect.Follow.{
  intercept, follow, handle, get_redirect_location, redirected, leave_authority, set_method,
  set_referer, scrub_sensitive_headers, policy_of, auto_referer_of, limit_of,
}
use isahc.Redirect.Follow.Chain.{Chain, Ending}
use isahc.Redirect.Follow.Runs.{intercept-Chain, intercept-Ending}
use isahc.Redirect.Follow.Leaks.{intercept-config}

abbrev at : Scheme → Bytes → Uri
at scheme host = record {
  scheme = some scheme;
  authority = some (record { userinfo = none; host = host; port = none });
  path = codes "/";
  query = none;
}

abbrev pub home : Uri
home = at https (codes "a.org")

abbrev pub away : Uri
away = at http (codes "b.org")

-- Every location leads away.
abbrev pub urls : Urls
urls = record {
  parse_url = λ text. parsed text;
  join = λ base text. some text;
  to_uri = λ text. some away;
  uri_to_string = λ uri. uri.path;
  is_str = λ text. all is_ascii text;
  is_header_value = λ text. true;
}

abbrev config : RequestConfig
config = record no_config {
  redirect_policy = some (limit_redirects 2);
  auto_referer = some true;
  authentication = some 1;
  credentials = some (record { username = codes "me"; password = codes "secret" });
}

abbrev origin : Request assoc
origin = record {
  method = codes "POST";
  uri = home;
  version = http_11;
  headers = (codes "authorization", codes "secret") ∷ (codes "accept", codes "text") ∷ [];
  extensions = record { request_config = some config; cookie_jar = none; authentication = none };
  body = buffer (codes "hi") 0;
}

abbrev pub moved : Response assoc
moved = record {
  status = 302;
  headers = (codes "location", codes "http://b.org/") ∷ [];
  request_body = some (buffer (codes "hi") 2);
  effective_uri = none;
  cookie_jar = none;
}

abbrev pub fine : Response assoc
fine = record {
  status = 200;
  headers = [];
  request_body = none;
  effective_uri = none;
  cookie_jar = none;
}

abbrev send : List (Request assoc) → Request assoc → Outcome ErrorKind (Response assoc)
send before request = if is_https request.uri then ok moved else ok fine

abbrev second : Request assoc
second = record origin {
  method = codes "GET";
  uri = away;
  headers = (codes "accept", codes "text") ∷ [];
}

abbrev answer : Response assoc
answer = record fine { effective_uri = some away }

origin-runs : intercept urls assoc send origin ≡ some (second ∷ origin ∷ [], ok answer)
unfolding intercept follow handle get_redirect_location redirected leave_authority set_method
    set_referer scrub_sensitive_headers policy_of auto_referer_of limit_of to_builder reset
    parse_location resolve create_referer is_same_authority scheme_eq option_eq port_eq bytes_eq
    eq_ignore_ascii_case
origin-runs = refl

intercept-Chain_example :
    Chain urls assoc send (auto_referer_of assoc origin) origin (second ∷ origin ∷ [])
intercept-Chain_example =
    intercept-Chain urls assoc send assoc-HeaderLaws origin (second ∷ origin ∷ []) (ok answer)
      origin-runs

intercept-Ending_example :
    Ending urls assoc send (limit_of (policy_of assoc origin)) 2 (origin ∷ []) second (ok answer)
unfolding policy_of
intercept-Ending_example =
    intercept-Ending urls assoc send assoc-HeaderLaws origin second (origin ∷ []) (ok answer)
      (λ e. cc) origin-runs

intercept-config_example :
    All
      (λ (r : Request assoc). r.extensions.request_config ≡ origin.extensions.request_config)
      (second ∷ origin ∷ [])
intercept-config_example =
    intercept-config urls assoc send assoc-HeaderLaws origin (second ∷ origin ∷ []) (ok answer)
      origin-runs
