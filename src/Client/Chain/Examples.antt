-- ===== src/Client/Chain/Examples.antt =====
-- A call over one redirect on which the theorems about the chain of src/client.rs are applied.
use isahc.Prelude.{
  ◌+◌, ◌≤◌, ◌≡◌, refl, true, false, Option, none, some, if◌then◌else◌, List, [], ◌∷◌, length, map,
  All, arith,
}
use isahc.Prelude.Bytes.{Bytes, codes, bytes_eq}
use isahc.Prelude.Outcome.{Outcome, ok}
use isahc.Http.{http_11, is_https}
use isahc.Http.Assoc.{assoc, assoc-HeaderLaws, ascii_texts}
use isahc.Error.{ErrorKind}
use isahc.Body.{buffer}
use isahc.Request.{Request, Response}
use isahc.Config.{no_config, limit_redirects}
use isahc.Config.Options.{Opt}
use isahc.Cookies.Examples.{ascii_platform}
use isahc.Cookies.Interceptor.{World}
use isahc.Redirect.Examples.{home, urls, moved, fine}
use isahc.Client.Examples.{features, openssl_engine}
use isahc.Client.Builder.{
  HttpClient, HttpClientBuilder, new_builder, set_cookie_jar, default_header, build,
}
use isahc.Prelude.Outcome.{lift}
use isahc.Prelude.Sort.{sort_by}
use isahc.Prelude.Bytes.{eq_ignore_ascii_case, starts_with}
use isahc.Http.{scheme_eq, option_eq, port_eq}
use isahc.Body.{reset, is_empty, body_len}
use isahc.Request.{to_builder}
use isahc.Config.{merge}
use isahc.Config.Options.{request_opts, plain_opts, client_opts, version_opts, authentication_opts}
use isahc.Tls.{default_builder, is_available, contains_text, default_store, bundle_of, build_tls}
use isahc.Tls.Options.{verify_peer, verify_host, tls_opts, offer, is_modern, trust_opts}
use isahc.Parsing.{header_to_curl_string, is_blank}
use isahc.Cookies.Jar.{get_for_uri, matching}
use isahc.Cookies.Interceptor.{attach, intercept, persist, update, append_cookies, accept_all}
use isahc.Redirect.Uris.{parse_location, resolve, create_referer, is_same_authority}
use isahc.Redirect.Follow
use isahc.Redirect.Follow.{
  follow, handle, get_redirect_location, redirected, leave_authority, set_method, set_referer,
  scrub_sensitive_headers, policy_of, auto_referer_of, limit_of,
}
use isahc.Client.{populate, content_length, add_defaults, default_user_agent}
use isahc.Client.Easy.{
  create_easy_handle, method_opts, size_opts, body_length, framed_headers, header_lines, front_opts,
  easy_opts,
}
use isahc.Client.Chain.{Surroundings, send_async_inner, world_after, hop, context_send, invoke}
use isahc.Cookies.Jar.History.{IsSound}
use isahc.Cookies.Interceptor.Sound.{AreSound}
use isahc.Client.Gather.{for_origin}
use isahc.Client.Chain.Sends.{
  send_async_inner-Kept, send_async_inner-bounded, send_async_inner-verifies, Kept,
}
use isahc.Client.Chain.Cookies.{send_async_inner-cookies, CookiesKept}
use isahc.Client.Chain.Sound.{world_after-AreSound}

-- Servers at HTTPS redirect away, others answer.
abbrev around : Surroundings assoc
around = record {
  platform = ascii_platform;
  texts = ascii_texts;
  urls = urls;
  features = features;
  user_agent = codes "curl";
  debug = false;
  now = λ world. length world.wire;
  clock = λ world n. length world.wire;
  answer = λ world. elim world.wire [
    | [] ↦ (ok fine, world.jars)
    | (opts, request) ∷ more ↦ (ok (if is_https request.uri then moved else fine), world.jars)
  ];
  others = λ world. world.jars;
}

-- A client with a jar and a default header.
abbrev builder : HttpClientBuilder assoc
builder =
    default_header ascii_texts assoc (codes "Accept") (codes "html")
      (set_cookie_jar ascii_texts assoc 0 (new_builder ascii_texts assoc openssl_engine))

abbrev start : World assoc
start = record { jars = λ handle. []; wire = [] }

abbrev login : Request assoc
login = record {
  method = codes "POST";
  uri = home;
  version = http_11;
  headers = (codes "authorization", codes "secret") ∷ (codes "cookie", codes "a=b") ∷ [];
  extensions = record {
    request_config = some (record no_config { redirect_policy = some (limit_redirects 2) });
    cookie_jar = none;
    authentication = none;
  };
  body = buffer (codes "hi") 0;
}

abbrev client_or : Outcome ErrorKind (HttpClient assoc) → HttpClient assoc
client_or (ok client) = client
client_or _ = record {
  agent = builder.agent_builder;
  client_config = builder.client_config;
  request_config = builder.request_config;
  interceptors = [];
  cookie_jar = none;
}

abbrev client : HttpClient assoc
client = client_or (build ascii_texts assoc true builder)

builds : build ascii_texts assoc true builder ≡ ok client
unfolding build default_header
builds = refl

abbrev run_or :
    Option (List (Request assoc) × Outcome ErrorKind (Response assoc))
    → List (Request assoc) × Outcome ErrorKind (Response assoc)
run_or (some run) = run
run_or none = ([], ok fine)

abbrev run : List (Request assoc) × Outcome ErrorKind (Response assoc)
run = run_or (send_async_inner assoc around client login start)

abbrev given : List (List Opt × Request assoc)
given = (world_after assoc around client start run.0).wire

runs : send_async_inner assoc around client login start ≡ some (run.0, run.1)
unfolding send_async_inner hop context_send invoke world_after build default_header Follow.intercept
    policy_of auto_referer_of populate merge follow handle get_redirect_location redirected
    leave_authority set_method set_referer scrub_sensitive_headers limit_of to_builder reset
    parse_location resolve create_referer is_same_authority scheme_eq option_eq port_eq bytes_eq
    eq_ignore_ascii_case add_defaults default_user_agent attach intercept persist get_for_uri
    matching append_cookies accept_all create_easy_handle easy_opts front_opts request_opts
    plain_opts lift tls_opts build_tls is_available contains_text is_modern offer trust_opts
    default_store bundle_of client_opts version_opts authentication_opts method_opts size_opts
    body_length body_len content_length framed_headers header_lines header_to_curl_string is_empty
    is_blank starts_with sort_by update
runs = refl

abbrev seen : List Opt × Request assoc → List Bytes × List Bytes × List Bytes
seen (opts, request) = (
  assoc.get_all (codes "authorization") request.headers,
  assoc.get_all (codes "accept") request.headers,
  assoc.get_all (codes "cookie") request.headers,
)

-- The second request, at another authority, comes first.
sees :
    map seen given
    ≡ ([], codes "html" ∷ [], []) ∷ (codes "secret" ∷ [], codes "html" ∷ [], codes "a=b" ∷ []) ∷ []
unfolding send_async_inner hop context_send invoke world_after build default_header Follow.intercept
    policy_of auto_referer_of populate merge follow handle get_redirect_location redirected
    leave_authority set_method set_referer scrub_sensitive_headers limit_of to_builder reset
    parse_location resolve create_referer is_same_authority scheme_eq option_eq port_eq bytes_eq
    eq_ignore_ascii_case add_defaults default_user_agent attach intercept persist get_for_uri
    matching append_cookies accept_all create_easy_handle easy_opts front_opts request_opts
    plain_opts lift tls_opts build_tls is_available contains_text is_modern offer trust_opts
    default_store bundle_of client_opts version_opts authentication_opts method_opts size_opts
    body_length body_len content_length framed_headers header_lines header_to_curl_string is_empty
    is_blank starts_with sort_by update
sees = refl

send_async_inner-Kept_example :
    All
      (Kept assoc assoc-HeaderLaws around true builder client builds (codes "authorization") login)
      given
send_async_inner-Kept_example =
    send_async_inner-Kept assoc assoc-HeaderLaws around true builder client builds login start run.0
      run.1 (codes "authorization") (unfold bytes_eq in refl) (unfold bytes_eq in refl) refl runs

send_async_inner-cookies_example :
    All
      (CookiesKept assoc assoc-HeaderLaws around true builder client builds login start run.0)
      given
send_async_inner-cookies_example =
    send_async_inner-cookies assoc assoc-HeaderLaws around true builder client builds login start
      run.0 run.1 refl runs

send_async_inner-verifies_example :
    All (λ g. for_origin g.0 ≡ verify_peer true ∷ verify_host true ∷ []) given
unfolding merge
send_async_inner-verifies_example =
    send_async_inner-verifies assoc assoc-HeaderLaws around true builder client builds login start
      run.0 run.1 (default_builder openssl_engine) (unfold default_header in refl) refl runs

send_async_inner-bounded_example :
    (sent : List (Request assoc)) × (outcome : Outcome ErrorKind (Response assoc))
    × (send_async_inner assoc around client login start ≡ some (sent, outcome))
    × (length (world_after assoc around client start sent).wire ≤ 3 + 0)
unfolding populate policy_of limit_of merge
send_async_inner-bounded_example =
    send_async_inner-bounded assoc assoc-HeaderLaws around true builder client builds login start

empty-AreSound : AreSound ascii_platform ascii_texts assoc start.jars
empty-AreSound handle = record { distinct = tt; allowed = tt }

answer-AreSound :
    (w : World assoc)
    → AreSound ascii_platform ascii_texts assoc w.jars
    → AreSound ascii_platform ascii_texts assoc (around.others w)
      × AreSound ascii_platform ascii_texts assoc (around.answer w).1
answer-AreSound w s = (s, λ handle. ground (arith, s handle))

world_after-AreSound_example :
    IsSound ascii_platform ((world_after assoc around client start run.0).jars 0)
world_after-AreSound_example =
    world_after-AreSound assoc around client start run.0 answer-AreSound empty-AreSound 0
