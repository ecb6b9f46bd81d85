-- ===== src/Server.antt =====
-- Server.h and Server.cpp: the options of the server, and its threads (Server.Threads).
pub mod Threads
pub mod Safety
pub mod Races
pub mod Early
use nozomi.Common.{
  ℕ, ◌<◌, ◌≡◌, refl, sym, ◌∙◌, ◌≢◌, Bool, true, Option, List, [], ◌∷◌, arith, All, Str, ℤ,
}
use nozomi.Libs.{Libs}
use nozomi.Config.{Config, IpConfig, get_worker_threads, get_http_addresses}
use nozomi.Config.Laws.{IsStored}
use nozomi.Routing.Match.{BaseRoute, Handler}
use nozomi.Routing.Router.{Router, make_router}
use nozomi.Routing.Factory.{
  Factory, null, make_factory, on_request, AreConsistent, on_request-ne-null,
}

-- proxygen::HTTPServerOptions, of which the program sets three fields.
pub record ServerOptions (L : Libs) : Type 0 where
  pub threads : ℕ
  pub handler_factories : List (Factory L)
  pub enable_content_compression : Bool

-- class Server, without its thread; `options` is what `server_` is made from, and `bound` what it is
-- bound to.
pub record Server (L : Libs) : Type 0 where
  pub config : Config L
  pub options : ServerOptions L
  pub bound : List (IpConfig L)

module _ (L : Libs) where
  unfoldable pub get_http_server_options : Config L → Router L → ServerOptions L
  get_http_server_options config router = record {
    threads = get_worker_threads L config;
    handler_factories = make_factory L config router ∷ [];
    enable_content_compression = true;
  }

  -- The constructor.
  unfoldable pub make_server : Config L → Router L → Server L
  unfolding get_http_server_options
  make_server config router = record {
    config = config;
    options = get_http_server_options config router;
    bound = [];
  }

  -- `server_.bind(addresses)` of `start`.
  unfoldable pub bind : Server L → Server L
  bind server = record server { bound = get_http_addresses L server.config }

  -- A server over an accepted configuration and consistent routes has worker threads, is bound to the
  -- addresses that were given, of which there are some, and its factory never falls through to the null
  -- pointer at the end of `onRequest`.
  pub make_server-ne-null :
      (addresses : List (IpConfig L)) (threads : ℕ) (dir : Option Str) (timeout : ℤ) (size : ℕ)
      (config : Config L) (error_routes : List (ℕ × Handler L)) (routes : List (BaseRoute L))
      → IsStored L addresses threads dir timeout size config
      → AreConsistent L routes
      → let server = bind (make_server config (make_router L error_routes routes)) in
        (0 < server.options.threads)
        × (server.bound ≡ addresses)
        × (server.bound ≢ [])
        × All
            (λ factory. (message : L.Message) → on_request L factory message ≢ null)
            server.options.handler_factories
  unfolding make_factory bind make_server
  make_server-ne-null addresses threads dir timeout size config error_routes routes stored
        consistent =
      (
        omega (arith, stored.threads_kept, stored.some_thread),
        stored.addresses_kept,
        (λ e. stored.some_address (sym stored.addresses_kept ∙ e)),
        (
          (λ message.
              on_request-ne-null L (make_factory L config (make_router L error_routes routes))
                error_routes routes message refl consistent),
          tt,
        ),
      )
