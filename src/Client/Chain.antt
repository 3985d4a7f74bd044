-- ===== src/Client/Chain.antt =====
-- `HttpClient::send_async_inner` and `HttpClient::invoke` of src/client.rs, with `Context::send` of
-- src/interceptor/context.rs: a request goes through the interceptors of a client to curl. What curl
-- and the servers answer, and what other calls do to the shared jars, depends on all that curl has
-- been given so far.
pub mod Given
pub mod Hop
pub mod Wire
pub mod Sends
pub mod Cookies
pub mod Sound
mod Examples
use isahc.Prelude.{ℕ, Bool, Option, none, some, List, [], ◌∷◌, if◌then◌else◌}
use isahc.Prelude.Bytes.{Bytes}
use isahc.Prelude.Outcome.{Outcome, ok, err, panic}
use isahc.Platform.{Platform}
use isahc.Http.{HeaderMap, HeaderText}
use isahc.Error.{ErrorKind}
use isahc.Request.{Request, Response}
use isahc.Config.Options.{Features}
use isahc.Cookies.Interceptor.{World, Jars, intercept}
use isahc.Redirect.Uris.{Urls}
use isahc.Redirect.Follow
use isahc.Client.{populate, add_defaults, default_user_agent}
use isahc.Client.Easy.{create_easy_handle}
use isahc.Client.Builder.{HttpClient, Layer, cookie_layer, default_headers_layer}

-- What is around the client: the crates, the features of the build, the text that names the client,
-- the clock, what curl answers to the last request it has been given (with the jars as other calls
-- leave them), and what other calls do to the jars before a request.
pub record Surroundings (h : HeaderMap) : Type 0 where
  pub platform : Platform
  pub texts : HeaderText
  pub urls : Urls
  pub features : Features
  pub user_agent : Bytes
  pub debug : Bool
  pub now : World h → ℕ
  pub clock : World h → ℕ → ℕ
  pub answer : World h → Outcome ErrorKind (Response h) × Jars
  pub others : World h → Jars

module _ (h : HeaderMap) (around : Surroundings h) (client : HttpClient h) where
  -- `HttpClient::invoke`: the request and its options are put on the wire if curl can be set up for
  -- them.
  unfoldable pub invoke : Request h → World h → Outcome ErrorKind (Response h) × World h
  invoke request world =
      let named = record request {
        headers = default_user_agent around.texts h around.user_agent request.headers;
      } in
      elim (create_easy_handle around.texts h around.features client.client_config around.debug
        named) [
          | err e ↦ (err e, world)
          | panic ↦ (panic, world)
          | ok opts ↦
              let given = record world { wire = (opts, named) ∷ world.wire } in
              let (outcome, jars) = around.answer given in (outcome, record given { jars = jars })
        ]

  -- `Context::send`
  unfoldable pub context_send :
      List (Layer h) → Request h → World h → Outcome ErrorKind (Response h) × World h
  context_send [] request world = invoke request world
  context_send (cookie_layer jar ∷ more) request world =
      intercept around.platform around.texts h jar (around.clock world) (context_send more)
        (around.now world) request world
  context_send (default_headers_layer defaults ∷ more) request world =
      context_send more
        (record request {
          headers = add_defaults around.texts h defaults (h.keys defaults) request.headers;
        })
        world

  -- One turn of the redirect interceptor, after whatever other calls have done to the jars.
  unfoldable pub hop : Request h → World h → Outcome ErrorKind (Response h) × World h
  hop request world =
      context_send client.interceptors request (record world { jars = around.others world })

  -- The world after the requests that the redirect interceptor has sent, the last one first.
  unfoldable pub world_after : World h → List (Request h) → World h
  world_after world [] = world
  world_after world (request ∷ before) = (hop request (world_after world before)).1

  -- The rest of the chain behind the redirect interceptor, of what it has sent before.
  abbrev pub replies : World h → List (Request h) → Request h → Outcome ErrorKind (Response h)
  replies world before next = (hop next (world_after world before)).0

  -- `HttpClient::send_async_inner`: the requests that the redirect interceptor sends, and the outcome.
  unfoldable pub send_async_inner :
      Request h → World h → Option (List (Request h) × Outcome ErrorKind (Response h))
  send_async_inner request world =
      Follow.intercept around.urls h (replies world)
        (populate around.texts h client.request_config request)
