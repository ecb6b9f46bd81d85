-- ===== src/Service/Streamed.antt =====
-- A request for which a streaming handler is made.
use nozomi.Common.{
  ℕ, ◌+◌, ◌≡◌, ap, ◌∙◌, ◌↔◌, true, Option, some, List, ◌∷◌, ◌++◌, length, All, Str, Result, ok,
  ◌>>=◌,
}
use nozomi.Libs.{Libs}
use nozomi.Http.{get_method_and_path}
use nozomi.Config.{Config}
use nozomi.Routing.Match.{
  BaseRoute, Handler, Started, IsMatched, streaming, accepts, start, made_count, returned_count,
  start_conserves,
}
use nozomi.Routing.Params.{ArgType, Values, RouteParamType}
use nozomi.Routing.Params.Conversions.{IsConversion}
use nozomi.Routing.Pattern.{parse_route_pattern}
use nozomi.Routing.Dynamic.{make_route}
use nozomi.Routing.Dynamic.Laws.{make_route-handle}
use nozomi.Routing.Dynamic.Arguments.{handle-runs}
use nozomi.Routing.Router.{make_router}
use nozomi.Routing.Router.Scanning.{get_handler_first}
use nozomi.Routing.Router.Priority.{by_priority}
use nozomi.Routing.Router.Building.{make_router_of, make_router_of-make_router}
use nozomi.Routing.Factory.{make_factory, on_request, on_request_streaming, streaming_handler}

module _ (L : Libs) where
  -- A request for the path and a method of a streaming route, before which no route matches in full:
  -- the factory returns the object that the user's factory makes, if there is one and it takes the
  -- conversions of the groups of the match; and else, which is also when a double does not convert, a
  -- null pointer, and the object that was made is deleted.
  pub streaming-Started :
      (config : Config L) (error_routes : List (ℕ × Handler L))
      (routes before after : List (BaseRoute L)) (message : L.Message) (pattern : Str)
      (methods : List L.Method) (args : List ArgType)
      (make : Unit {0} → Result (Option L.RequestHandler))
      (set : L.RequestHandler → Values L args → Result L.RequestHandler) (route : BaseRoute L)
      (regex : L.Regex) (params : List RouteParamType) (matches : L.Matches)
      → parse_route_pattern L pattern ≡ ok (regex, params)
      → make_route L pattern methods args (streaming make set) ≡ ok route
      → by_priority L routes ≡ before ++ route ∷ after
      → All (λ r. ¬ IsMatched L message r) before
      → L.regex_match regex (get_method_and_path L message).1 ≡ some matches
      → accepts L methods (get_method_and_path L message).0 ≡ true
      → (values : Result (Values L args)) × (s : Started L) × IsConversion L args matches values
        × (on_request L (make_factory L config (make_router_of L error_routes routes)) message
            ≡ streaming_handler s)
        × ((ready : L.RequestHandler)
            → (s.returned ≡ some ready) ↔ (
                (h : L.RequestHandler) × (make tt ≡ ok (some h)) × ((values >>= set h) ≡ ok ready)))
        × (returned_count L s + length s.deleted ≡ made_count L (make tt))
  unfolding make_factory
  streaming-Started config error_routes routes before after message pattern methods args make set
        route regex params matches parsed made e missed path method =
      let (values, are, runs) =
        handle-runs L args regex methods (streaming make set) message matches path method in
      let taken =
        ap (λ g. g message)
          (make_route-handle L pattern methods args (streaming make set) regex params route parsed
            made)
        ∙ runs in
      let first =
        get_handler_first L message error_routes routes before route after e missed
          (ap (λ m. m.result) taken) in
      let answered = first ∙ taken in
      let (count, ready) = start_conserves L (make tt) (λ h. values >>= set h) in
      (
        values,
        start L (make tt) (λ h. values >>= set h),
        are,
        rw (make_router_of-make_router L error_routes routes) (
            on_request_streaming L (make_factory L config (make_router L error_routes routes))
              message _ (ap (λ m. m.handler) answered) (ap (λ m. m.streaming_handler) answered)),
        ready,
        count,
      )
