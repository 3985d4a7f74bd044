-- ===== src/Lib.antt =====
-- isahc, an HTTP client over libcurl: a model of the parts of src/ that decide something, with the
-- theorems that make them correct.
--
-- A request passes through a chain of interceptors (src/redirect.rs, src/cookies/interceptor.rs,
-- src/default_headers.rs), and then to curl with the options that src/client.rs and src/config make.
-- The agent thread (src/agent) drives curl, which calls back the handler of the request
-- (src/handler.rs). The handler parses the lines of the response (src/parsing.rs), completes the
-- response future, and publishes the trailer (src/trailer.rs). Errors are of the kinds of src/error.rs.
--
--   Http, Request, Body   values of the http crate, src/request.rs and src/body/mod.rs: the request
--                         with its extensions as fields (Request), AsyncBody, poll_read, reset;
--                         Body.Sync: the synchronous body, and send of src/client.rs
--   Error                 ErrorKind, its categories, from_io and to_io for the From implementations
--   Config                RequestConfig, merge, client_defaults; Config.Options: each set_opt as the
--                         list of options that it gives to curl, in order; Config.Configurable: the
--                         setters of Configurable; Config.Dial: the text form of a Dialer;
--                         Config.Auth: the sets of authentication schemes
--   Tls                   TlsConfigBuilder and what it takes (src/tls); Tls.Options: set_opt and
--                         set_opt_proxy of TlsConfig, with their errors and panics and
--                         with the options that curl refuses
--   Client                create_easy_handle (Client.Easy), the default headers, the length of a
--                         response body; HttpClientBuilder (Client.Builder); send_async_inner, invoke
--                         and Context::send (Client.Chain), which put the parts together: World has
--                         the jars, and all that curl has been given
--   Redirect              RedirectInterceptor::intercept as Redirect.Follow.intercept; the addresses
--                         are in Redirect.Uris
--   Cookies               Cookie::parse (Cookies.Cookie), domain_matches and path_matches
--                         (Cookies.Matching), CookieJar (Cookies.Jar), CookieInterceptor::intercept
--                         (Cookies.Interceptor)
--   Parsing               parse_status_line, parse_header, header_to_curl_string
--   Handler               RequestHandler: each callback is a function of the state, and a run is a
--                         list of events (run); ResponseBodyReader::poll_read is poll_response
--   Trailer               TrailerWriter, and Trailer::wait beside it as interleaved steps
--   Agent                 Selector::register, deregister and poll of src/agent/selector.rs; the main
--                         loop of src/agent/mod.rs as a list of turns (Agent.Loop), and what
--                         AgentContext::poll does in a turn (Agent.Poll)
--   Prelude, Platform     numbers, lists, byte texts, outcomes; the clock and Unicode lower case
--
-- Rust's Result is Outcome, which also has the panic. A u64 is a natural number with its wrap-around
-- written out. The loop of the redirects runs on fuel, one more than the limit; that is shown to be
-- enough. All other loops are structural.
--
-- Parameters stand for code that is not here: the crates http, url and polling, curl, the system
-- clock, the list of public suffixes, the TLS engine and environment, and what servers answer. What is
-- assumed of them stands in HeaderLaws, PollerLaws, DrainLaws (the order of a hash map) and the
-- hypotheses of the theorems.
--
-- Not modelled: how the agent thread starts and ends, the metrics, the text decoder, addresses and
-- logs, and interceptors that a program adds of its own. Where curl refuses an option, the source
-- stops with its error. The options for TLS show that: what curl answers to each of them is a
-- parameter (Answers). The lists of the other options do not.
pub mod Prelude
pub mod Platform
pub mod Http
pub mod Error
pub mod Parsing
pub mod Trailer
pub mod Handler
pub mod Body
pub mod Config
pub mod Request
pub mod Redirect
pub mod Cookies
pub mod Agent
pub mod Client
pub mod Tls
