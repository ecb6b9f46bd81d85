-- ===== src/Routing/Router.antt =====
-- Router.h and Router.cpp.
pub mod Priority
pub mod Scanning
pub mod Answers
pub mod Building
use nozomi.Common.{
  [], ℕ, Bool, true, false, Option, none, some, List, ◌∷◌, ◌++◌, ◌==◌, if◌then◌else◌, ok,
}
use nozomi.Libs.{Libs}
use nozomi.Http.{Request, response_of_status, future}
use nozomi.Routing.Match.{
  RouteMatchResult, path_not_matched, method_not_matched, route_matched, RouteMatch, BaseRoute,
  Handler, match_with,
}

module _ (L : Libs) where
  -- class Router. An `int` is its bit pattern; the error routes are an association list.
  pub record Router : Type 0 where
    pub static_routes : List (BaseRoute L)
    pub routes : List (BaseRoute L)
    pub error_routes : List (ℕ × Handler L)

  -- What a loop of `getHandler` leaves behind: a match that it returned, or `methodNotFound`.
  pub data Scan : Type 0 where
    found : RouteMatch L → Scan
    missed : Bool → Scan

module _ (L : Libs) where
  -- The loop of the constructor.
  distribute : List (BaseRoute L) → Router L → Router L
  distribute [] router = router
  distribute (route ∷ rest) router = distribute rest (
      if route.is_static_route
      then record router { static_routes = router.static_routes ++ route ∷ [] }
      else record router { routes = router.routes ++ route ∷ [] })

  -- The constructor.
  unfoldable pub make_router : List (ℕ × Handler L) → List (BaseRoute L) → Router L
  unfolding distribute
  make_router error_routes routes =
      distribute routes (record { static_routes = []; routes = []; error_routes = error_routes })

  find_error_route : ℕ → List (ℕ × Handler L) → Option (Handler L)
  find_error_route status_code [] = none
  find_error_route status_code ((code, handler) ∷ rest) =
      if code == status_code then some handler else find_error_route status_code rest

  unfoldable pub get_error_handler : Router L → ℕ → Handler L
  unfolding find_error_route
  get_error_handler router status_code = elim (find_error_route status_code router.error_routes) [
    | none ↦ λ request. ok (future L (response_of_status L status_code))
    | some handler ↦ λ request. handler request
  ]

  -- One of the two loops of `getHandler`.
  pub scan : L.Message → List (BaseRoute L) → Bool → Scan L
  scan request [] method_not_found = missed method_not_found
  scan request (route ∷ rest) method_not_found =
      let match = route.handler request in
      elim match.result [
        | path_not_matched ↦ scan request rest method_not_found
        | method_not_matched ↦ scan request rest true
        | route_matched ↦ found match
      ]

  -- The code behind the loops of `getHandler`.
  pub not_found : Router L → Bool → RouteMatch L
  not_found router true = match_with L method_not_matched (get_error_handler router 405)
  not_found router false = match_with L path_not_matched (get_error_handler router 404)

  second_loop : Router L → L.Message → Bool → RouteMatch L
  second_loop router request method_not_found = elim (scan request router.routes method_not_found) [
    | found match ↦ match
    | missed method_not_found' ↦ not_found router method_not_found'
  ]

  unfoldable pub get_handler : Router L → L.Message → RouteMatch L
  unfolding scan not_found second_loop
  get_handler router request = elim (scan request router.static_routes false) [
    | found match ↦ match
    | missed method_not_found ↦ second_loop router request method_not_found
  ]
