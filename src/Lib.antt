-- ===== src/Lib.antt =====
-- nozomi: an HTTP server library over proxygen. A router picks a route for each request, a factory
-- makes the handler object that answers it, and a configuration says how the server listens.
--
-- The parts, and the files that model them:
-- - Libs: what the program takes from proxygen, folly, Boost.Regex and Boost.Filesystem, as records
--   of types and operations. Every component is a function of a value of `Libs`; what a theorem
--   needs of these libraries is a hypothesis of it (Libs.Laws for messages and buffers), and
--   Libs.Sample is a concrete instance on which the witnesses run.
-- - Http: src/HTTPRequest.h, src/HTTPRequest.cpp, src/HTTPResponse.h, src/HTTPResponse.cpp, and in
--   Http.Text src/StringUtils.h. `get_query_param` is QueryParams::getQueryParam, `get_header` and
--   `get_cookie` are those of the other views, the `response_of_` functions are the constructors of
--   HTTPResponse by their kind of body.
-- - Config: src/Config.h and src/Config.cpp. `make_config` and `make_config_from_hosts` are the two
--   constructors, which run the setters in the order of the source.
-- - Forms: src/PostParser.h and src/PostParser.cpp. `fields` is the chain of generators that makes
--   the pairs of a url-encoded body, `group` the loop that pushes them into the map.
-- - Streaming: src/StreamingHTTPHandler.h and src/StreamingHTTPHandler-inl.h. A handler keeps the tasks
--   that it has queued; Streaming.Lifetime is the step relation of callbacks, sends and the event base.
-- - Files: src/StreamingFileHandler.h and src/StreamingFileHandler.cpp, a client of Streaming.
-- - HttpHandler: src/HTTPHandler.h and src/HTTPHandler.cpp. `answer` is the chain of futures of onEOM;
--   Libs.Futures says what is taken from folly's futures. HttpHandler.Lifetime is the step relation of
--   the callbacks that hold the handler object and of its deletion.
-- - Routing.Match: src/RouteMatch.h, src/BaseRoute.h, and the closures that src/StaticRoute-inl.h
--   and src/Route-inl.h give to a match (`start` for a streaming handler).
-- - Routing.Static: src/StaticRoute.h and src/StaticRoute-inl.h.
-- - Routing.Params: src/RouteParsing.h, the types of parameters and `get_handler_args`.
-- - Routing.Pattern: src/RouteParsing.cpp. `collect` is the first loop of parse_route_pattern, and
--   `apply` the second. Pattern.Template says how patterns are documented to be written, and
--   Pattern.Expression what the expression matches that finds the parameters.
-- - Routing.Dynamic: src/Route.h and src/Route-inl.h; `make_route` is the constructor of Route.
-- - Routing.Router: src/Router.h and src/Router.cpp.
-- - Routing.Factory: src/HTTPHandlerFactory.h.
-- - Routing.Deduction: the helpers of src/Util.h and the overloads of make_route in src/Route.h, with
--   the types of a handler's parameters as a list; Routing.Router.Building is make_router.
-- - Service: the factory and the handlers that it makes, from a request to the calls on the builder.
-- - Server: src/Server.h and src/Server.cpp; Server.Threads is the step relation of the main thread,
--   which `start` makes, and of the threads of the calls of `stop`.
-- - SimpleServer: src/examples/simple_server.cpp, the server that `main` makes, as a composition of the
--   others; SimpleServer.Main is the step relation of `main` and the threads of the server.
-- - Examples: a run of each theorem that has conditions, and tests.
--
-- How the pieces work together: a route answers a message by a RouteMatch, which carries a closure
-- over the user's handler; the router asks its routes in turn; the factory turns the match into a
-- handler object.
--
-- Conventions. Strings are lists of bytes. `size_t`, `int` status codes and `int` offsets are
-- natural numbers, with their wrap-around written out where the source depends on it (`to_int16`,
-- and the offset of `to_string`); signed counts are integers. A call that may throw returns a
-- `Result` with the exception, of the classes that the source tells apart; all of them derive from
-- std::exception. Objects made by a user's factory are values, and a deletion is recorded by name.
-- Loops are structural recursion over the container, but for `read_loop`, which runs on fuel; more
-- fuel than the file has bytes is enough, when the file can be read to its end and the buffer is not
-- empty. An `unordered_map` or `unordered_set` is a list.
--
-- Not modelled: what HTTPServer does when it is stopped while it does not serve; the hash of src/EnumHash.h, on which nothing depends; logging; tests, documents and the
-- vendored googletest.
pub mod Common
pub mod Libs
pub mod Http
pub mod Config
pub mod Routing
pub mod Forms
pub mod Streaming
pub mod Files
pub mod HttpHandler
pub mod Server
pub mod Service
pub mod SimpleServer
mod Examples
