-- ===== src/Client/Chain/Sound.antt =====
-- The jars over a call of `HttpClient::send_async_inner` of src/client.rs.
use isahc.Prelude.{ℕ, inl, inr, List, [], ◌∷◌}
use isahc.Http.{HeaderMap}
use isahc.Request.{Request}
use isahc.Cookies.Interceptor.{World}
use isahc.Client.Builder.{HttpClient}
use isahc.Client.Chain.{Surroundings, world_after}
use isahc.Prelude.Outcome.{Outcome-cases}
use isahc.Client.{add_defaults, default_user_agent}
use isahc.Client.Easy.{create_easy_handle}
use isahc.Client.Builder.{Layer, cookie_layer, default_headers_layer}
use isahc.Client.Chain.{invoke, context_send, hop}
use isahc.Cookies.Jar.History.{IsSound}
use isahc.Cookies.Interceptor.Sound.{AreSound, intercept-AreSound}

module _ (h : HeaderMap) (around : Surroundings h) (client : HttpClient h) where
  invoke-AreSound :
      ((w : World h)
        → AreSound around.platform around.texts h w.jars
        → AreSound around.platform around.texts h (around.answer w).1)
      → (request : Request h) (world : World h) → AreSound around.platform around.texts h world.jars
      → AreSound around.platform around.texts h (invoke h around client request world).1.jars
  unfolding invoke default_user_agent
  invoke-AreSound keeps request world s =
      elim (Outcome-cases (
        create_easy_handle around.texts h around.features client.client_config around.debug
          (named request))) [
            | inl (opts, e) ↦
                rw (invoke, e)
                  (keeps (record world { wire = (opts, named request) ∷ world.wire }) s)
            | inr (inl (x, e)) ↦ rw (invoke, e) s
            | inr (inr e) ↦ rw (invoke, e) s
          ]
    where
      named : Request h → Request h
      named request = record request {
        headers = default_user_agent around.texts h around.user_agent request.headers;
      }

  context_send-AreSound :
      ((w : World h)
        → AreSound around.platform around.texts h w.jars
        → AreSound around.platform around.texts h (around.answer w).1)
      → (layers : List (Layer h)) (request : Request h) (world : World h)
      → AreSound around.platform around.texts h world.jars
      → AreSound around.platform around.texts h
          (context_send h around client layers request world).1.jars
  unfolding context_send
  context_send-AreSound keeps [] request world s = invoke-AreSound keeps request world s
  context_send-AreSound keeps (cookie_layer jar ∷ more) request world s =
      intercept-AreSound around.platform around.texts h jar (around.clock world)
        (context_send h around client more) (around.now world) request world
        (λ r w x. context_send-AreSound keeps more r w x) s
  context_send-AreSound keeps (default_headers_layer defaults ∷ more) request world s =
      context_send-AreSound keeps more
        (record request {
          headers = add_defaults around.texts h defaults (h.keys defaults) request.headers;
        })
        world s

  kept-AreSound :
      (world : World h) (sent : List (Request h))
      → ((w : World h)
          → AreSound around.platform around.texts h w.jars
          → AreSound around.platform around.texts h (around.others w)
            × AreSound around.platform around.texts h (around.answer w).1)
      → AreSound around.platform around.texts h world.jars
      → AreSound around.platform around.texts h (world_after h around client world sent).jars
  unfolding world_after hop
  kept-AreSound world [] keeps s = s
  kept-AreSound world (request ∷ before) keeps s =
      let before_sound = kept-AreSound world before keeps s in
      let start = world_after h around client world before in
      context_send-AreSound (λ w x. (keeps w x).1) client.interceptors request
        (record start { jars = around.others start }) (keeps start before_sound).0

  -- All jars of a program stay sound over a call, whatever redirects it follows and whatever is in the
  -- responses, if they are sound before and other calls keep them so. They are sound also where one of
  -- the headers makes the interceptor panic, with the cookies of the headers before it.
  pub world_after-AreSound :
      (world : World h) (sent : List (Request h))
      → ((w : World h)
          → AreSound around.platform around.texts h w.jars
          → AreSound around.platform around.texts h (around.others w)
            × AreSound around.platform around.texts h (around.answer w).1)
      → AreSound around.platform around.texts h world.jars
      → (handle : ℕ)
      → IsSound around.platform ((world_after h around client world sent).jars handle)
  world_after-AreSound world sent keeps s handle = kept-AreSound world sent keeps s handle
