-- ===== src/SimpleServer.antt =====
-- examples/simple_server.cpp: the server that `main` makes, before it starts the server and stops it once.
-- Code that does not compile is `none`.
pub mod Routes
pub mod Requests
pub mod Answers
pub mod Files
pub mod Contents
pub mod Main
use nozomi.Common.{◌*◌, ◌≡◌, Option, none, some, List, [], ◌∷◌, Str, codes, Result, ok, ◌>>=◌, ◌>>◌}
use nozomi.Libs.{Libs}
use nozomi.Http.{Request, Response, response_of_status, response_of_text, future}
use nozomi.Config.{Config, make_config_from_hosts_by_default, default_file_reader_buffer_size}
use nozomi.Routing.Match.{BaseRoute}
use nozomi.Routing.Params.{int64_type, string_type, ArgType}
use nozomi.Routing.Params
use nozomi.Routing.Deduction.{
  Callable, Maker, ParamType, request, argument, make_route_of_callable, make_streaming_route,
}
use nozomi.Routing.Router.Building.{make_router_of}
use nozomi.Server.{Server, make_server}
use nozomi.Files.{FileHandler, make_file_handler, set_request_args}

-- A StreamingFileHandler as the proxygen::RequestHandler that it is, and the call of its setRequestArgs
-- through that.
pub record FileObjects (L : Libs) : Type 0 where
  pub as_request_handler : FileHandler L → L.RequestHandler
  pub set_args : L.RequestHandler → Str → Result L.RequestHandler
  pub set_args-as :
      (handler : FileHandler L) (path : Str)
      → set_args (as_request_handler handler) path
        ≡ ok (as_request_handler (set_request_args L path handler))

-- The arguments of a call, evaluated in order: C++ leaves the order open.
unfoldable pub in_order : {A : Type 0} → List (Option (Result A)) → Option (Result (List A))
in_order [] = some (ok [])
in_order (none ∷ rest) = none
in_order (some first ∷ rest) = elim (in_order rest) [
  | none ↦ none
  | some others ↦ some (do value ← first; values ← others; ok (value ∷ values))
]

module _ (L : Libs) where
  -- The configuration, with the default arguments of the constructor.
  unfoldable pub configure : Result (Config L)
  configure = make_config_from_hosts_by_default L ((codes "0.0.0.0", 8080, L.http) ∷ []) 2

  -- The handlers of the first three routes.
  abbrev pub show_home : Callable L
  show_home = record {
    types = request ∷ [];
    call = λ (r, _). ok (future L (response_of_status L 200));
  }

  abbrev pub create_user : Callable L
  create_user = record {
    types = request ∷ [];
    call = λ (r, _). ok (future L (response_of_text L 200 (codes "Created user!")));
  }

  abbrev pub show_user : Callable L
  show_user = record {
    types = request ∷ argument (Params.ArgType.plain int64_type) ∷ [];
    call = λ (r, (user_id, _)). ok (future L (response_of_text L 200 []));
  }

  module _ (O : FileObjects L) where
    -- `new StreamingFileHandler("public")`
    abbrev pub public_files : FileHandler L
    public_files =
        make_file_handler L (L.to_path (codes "public")) default_file_reader_buffer_size none

    abbrev pub make_files : Maker L
    make_files = record {
      types = argument (Params.ArgType.plain string_type) ∷ [];
      make = λ _. ok (some (O.as_request_handler public_files));
      set_request_args = λ handler (path, _). O.set_args handler path;
    }

    unfoldable pub make_routes : Option (Result (List (BaseRoute L)))
    make_routes = in_order (
        make_route_of_callable L (codes "/") (L.get ∷ []) show_home
        ∷ make_route_of_callable L (codes "/user") (L.post ∷ []) create_user
        ∷ make_route_of_callable L (codes "/user/{{i}}") (L.post ∷ []) show_user
        ∷ make_streaming_route L (codes "/{{s:.*}}") (L.get ∷ []) make_files
        ∷ [])

    -- The first two declarations of `main`, and the server.
    unfoldable pub make_simple_server : Option (Result (Server L))
    make_simple_server = elim make_routes [
      | none ↦ none
      | some made ↦ some (do
        config ← configure
        routes ← made
        ok (make_server L config (make_router_of L [] routes)))
    ]
