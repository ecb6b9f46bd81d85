-- ===== src/Service/Matched.antt =====
-- Requests for a route that has a handler of requests.
use nozomi.Common.{ℕ, ◌≡◌, ap, ◌∙◌, true, some, List, ◌∷◌, ◌++◌, All, Str, Result, ok, ◌>>=◌}
use nozomi.Libs.{Libs}
use nozomi.Libs.Laws.{BufferLaws}
use nozomi.Libs.Futures.{FutureLaws}
use nozomi.Http.{Request, Response, get_method_and_path}
use nozomi.Config.{Config}
use nozomi.Routing.Match.{route_matched, match_with, BaseRoute, Handler, IsMatched, plain, accepts}
use nozomi.Routing.Static.{make_plain_static_route, make_static_route-handler}
use nozomi.Routing.Router.{make_router}
use nozomi.Routing.Params.{ArgType, Values, RouteParamType}
use nozomi.Routing.Pattern.{parse_route_pattern}
use nozomi.Routing.Dynamic.{make_route}
use nozomi.Routing.Dynamic.Laws.{make_route-handle}
use nozomi.Routing.Dynamic.Arguments.{handle-runs}
use nozomi.Routing.Params.Conversions.{IsConversion}
use nozomi.Routing.Router.Scanning.{get_handler_first}
use nozomi.Routing.Router.Priority.{by_priority}
use nozomi.Routing.Router.Building.{make_router_of, make_router_of-make_router}
use nozomi.Service.Answered.{IsAnswered, handler-IsAnswered}

module _ (L : Libs) (B : BufferLaws L) (Yields : (A : Type 0) → L.Future A → Result A → Type 0)
    (F : FutureLaws L Yields) where
  module _ (config : Config L) (error_routes : List (ℕ × Handler L))
      (routes before after : List (BaseRoute L)) (current : L.EventBase) (executor : L.Executor)
      (message : L.Message) (bufs : List L.IOBuf) where
    -- The first route that matches in full gives its handler to the object that answers.
    matched-IsAnswered :
        (route : BaseRoute L) (handler : Handler L)
        → by_priority L routes ≡ before ++ route ∷ after
        → All (λ r. ¬ IsMatched L message r) before
        → route.handler message ≡ match_with L route_matched handler
        → IsAnswered L Yields config
            (make_router_of L error_routes routes)
            current
            executor
            message
            bufs
            handler
    matched-IsAnswered route handler e missed taken =
        let first =
          get_handler_first L message error_routes routes before route after e missed
            (ap (λ m. m.result) taken) in
        rw (make_router_of-make_router L error_routes routes) (
          handler-IsAnswered L Yields B F config (make_router L error_routes routes) current
            executor message bufs handler (ap (λ m. m.handler) (first ∙ taken)))

    -- A request for the path and a method of a static route, before which no route matches in full,
    -- is answered by the user's handler: it is given the headers of the request and the whole
    -- body, and whatever the future completes with is a response, which is sent: the handler's own, or
    -- one of the error handlers after it failed or the timeout came.
    -- It is assumed that buffers and futures behave as documented.
    pub static-IsAnswered :
        (pattern : Str) (methods : List L.Method)
        (f : Request L → Unit {0} → Result (L.Future (Response L)))
        → by_priority L routes ≡ before ++ make_plain_static_route L pattern methods f ∷ after
        → All (λ r. ¬ IsMatched L message r) before
        → (get_method_and_path L message).1 ≡ pattern
        → accepts L methods (get_method_and_path L message).0 ≡ true
        → IsAnswered L Yields config
            (make_router_of L error_routes routes)
            current
            executor
            message
            bufs
            (λ request. f request tt)
    static-IsAnswered pattern methods f e missed path method =
        matched-IsAnswered (make_plain_static_route L pattern methods f) _ e missed
          (make_static_route-handler L pattern methods f message path method)

    -- A request for the path and a method of a route that make_route has made, before which no route
    -- matches in full, is answered by the user's handler: it is given the headers of the request, the
    -- whole body, and the conversions of the groups `__0`, `__1`, and so on, of the match, but for a
    -- double that does not convert, whose exception stands for the call; and whatever the future completes
    -- with is a response, which is sent: the handler's own, or one of the error handlers after it
    -- failed or the timeout came.
    -- It is assumed that buffers and futures behave as documented.
    pub route-IsAnswered :
        (pattern : Str) (methods : List L.Method) (args : List ArgType)
        (f : Request L → Values L args → Result (L.Future (Response L))) (route : BaseRoute L)
        (regex : L.Regex) (params : List RouteParamType) (matches : L.Matches)
        → parse_route_pattern L pattern ≡ ok (regex, params)
        → make_route L pattern methods args (plain f) ≡ ok route
        → by_priority L routes ≡ before ++ route ∷ after
        → All (λ r. ¬ IsMatched L message r) before
        → L.regex_match regex (get_method_and_path L message).1 ≡ some matches
        → accepts L methods (get_method_and_path L message).0 ≡ true
        → (values : Result (Values L args)) × IsConversion L args matches values
          × IsAnswered L Yields config
              (make_router_of L error_routes routes)
              current
              executor
              message
              bufs
              (λ request. values >>= f request)
    route-IsAnswered pattern methods args f route regex params matches parsed made e missed path
          method =
        let (values, are, runs) =
          handle-runs L args regex methods (plain f) message matches path method in
        (
          values,
          are,
          matched-IsAnswered route _ e missed (
              ap (λ g. g message)
                (make_route-handle L pattern methods args (plain f) regex params route parsed made)
              ∙ runs),
        )
