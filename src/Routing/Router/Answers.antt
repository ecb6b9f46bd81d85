-- ===== src/Routing/Router/Answers.antt =====
-- What `getHandler` answers, against the order and the outcomes of the routes.
use nozomi.Common.{◌≡◌, List, ◌∷◌, ◌++◌, All, inl, true, inr, ℕ, false}
use nozomi.Libs.{Libs}
use nozomi.Routing.Match.{
  path_not_matched, method_not_matched, RouteMatch, BaseRoute, match_with, IsMatched, Handler,
}
use nozomi.Routing.Router.{
  Router, get_error_handler, get_handler, make_router, Scan, found, missed, not_found,
}
use nozomi.Routing.Router.Priority.{by_priority, make_router-lists}
use nozomi.Routing.Router.Scanning.{Scanned, scan-Scanned, finish, get_handler-scan}

module _ (L : Libs) where
  -- The possible answers for a request, over the routes in the order in which they are asked.
  pub data Answer (router : Router L) (request : L.Message) (routes : List (BaseRoute L))
      : RouteMatch L → Type 0 where
    first_match :
        (before : List (BaseRoute L)) (route : BaseRoute L) (after : List (BaseRoute L))
        → routes ≡ before ++ route ∷ after
        → All (λ r. ¬ IsMatched L request r) before
        → IsMatched L request route
        → Answer router request routes (route.handler request)
    wrong_method :
        All (λ r. ¬ IsMatched L request r) routes
        → (before : List (BaseRoute L)) (route : BaseRoute L) (after : List (BaseRoute L))
        → routes ≡ before ++ route ∷ after
        → (route.handler request).result ≡ method_not_matched
        → Answer router request routes
            (match_with L method_not_matched (get_error_handler L router 405))
    no_path :
        All (λ r. (r.handler request).result ≡ path_not_matched) routes
        → Answer router request routes
            (match_with L path_not_matched (get_error_handler L router 404))

  module _ (request : L.Message) where
    finish-Answer :
        (router : Router L) (routes : List (BaseRoute L)) (result : Scan L)
        → Scanned L request routes false result
        → Answer router request routes (finish L request router result)
    unfolding not_found
    finish-Answer router routes (found m) ((before, route, after, e, missed_all, here), same) =
        rw same (first_match before route after e missed_all here)
    finish-Answer router routes (missed true) (all, inl e) = cc
    finish-Answer router routes (missed true) (all, inr (before, route, after, e, _, here)) =
        wrong_method all before route after e here
    finish-Answer router routes (missed false) (_, all) = no_path all

  -- `getHandler` returns the answer of the first route that matches in full, static routes first; if
  -- none does, the 405 handler when some route matched but for the method; and the 404 handler when
  -- no route matched the path.
  pub get_handler-Answer :
      (error_routes : List (ℕ × Handler L)) (routes : List (BaseRoute L)) (request : L.Message)
      → let router = make_router L error_routes routes in
        Answer router request (by_priority L routes) (get_handler L router request)
  get_handler-Answer error_routes routes request =
      let router = make_router L error_routes routes in
      rw (get_handler-scan L request router, make_router-lists L error_routes routes)
        (finish-Answer request router (by_priority L routes) _
          (scan-Scanned L request (by_priority L routes) false))
