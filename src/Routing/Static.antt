-- ===== src/Routing/Static.antt =====
-- StaticRoute.h and StaticRoute-inl.h.
use nozomi.Common.{
  Option, ◌≡◌, refl, ◌≢◌, ◌↔◌, true, false, not, List, arith, if◌then◌else◌, Str, str_eq,
  eq_of_str_eq, str_eq_iff, str_eq_of_ne, Result,
}
use nozomi.Libs.{Libs}
use nozomi.Http.{Request, Response, get_method_and_path}
use nozomi.Routing.Match.{
  path_not_matched, method_not_matched, route_matched, RouteMatch, BaseRoute, UserHandler, plain,
  streaming, no_match, match_with, match_streaming, accepts, start, IsConsistent, guarded-result,
  guarded-IsConsistent,
}

module _ (L : Libs) where
  -- StaticRouteMatchMaker, for both values of IsStreaming.
  make_match : UserHandler L (Unit {0}) → RouteMatch L
  make_match (plain f) = match_with L route_matched (λ request. f request tt)
  make_match (streaming make set_args) =
      match_streaming L route_matched (λ _. start L (make tt) (λ h. set_args h tt))

  -- StaticRoute::handler.
  handle : Str → List L.Method → UserHandler L (Unit {0}) → L.Message → RouteMatch L
  unfolding make_match
  handle pattern methods user message =
      let method_and_path = get_method_and_path L message in
      if not (str_eq method_and_path.1 pattern)
      then no_match L path_not_matched
      else if not (accepts L methods method_and_path.0)
      then no_match L method_not_matched
      else make_match user

  -- The constructor of StaticRoute, for both values of IsStreaming.
  unfoldable pub make_static_route : Str → List L.Method → UserHandler L (Unit {0}) → BaseRoute L
  unfolding handle
  make_static_route pattern methods user = record {
    original_pattern = pattern;
    methods = methods;
    is_static_route = true;
    handler = handle pattern methods user;
  }

  -- make_static_route and make_streaming_static_route of StaticRoute.h.
  abbrev pub make_plain_static_route :
      Str → List L.Method → (Request L → Unit {0} → Result (L.Future (Response L))) → BaseRoute L
  make_plain_static_route pattern methods f = make_static_route pattern methods (plain f)

  abbrev pub make_streaming_static_route :
      Str
      → List L.Method
      → (Unit {0} → Result (Option L.RequestHandler))
      → (L.RequestHandler → Unit {0} → Result L.RequestHandler)
      → BaseRoute L
  make_streaming_static_route pattern methods make set_args =
      make_static_route pattern methods (streaming make set_args)

  make_match-matched : (user : UserHandler L (Unit {0})) → (make_match user).result ≡ route_matched
  unfolding make_match
  make_match-matched (plain f) = refl
  make_match-matched (streaming make set_args) = refl

  make_match-IsConsistent : (user : UserHandler L (Unit {0})) → IsConsistent L (make_match user)
  unfolding make_match
  make_match-IsConsistent (plain f) = ground arith
  make_match-IsConsistent (streaming make set_args) = ground arith

  module _ (pattern : Str) (methods : List L.Method) (user : UserHandler L (Unit {0})) where
    -- A static route answers "matched" exactly when the decoded path is its pattern and the method
    -- is one of its own, "method not matched" exactly when only the path agrees, and "path not
    -- matched" exactly when the path differs.
    make_static_route-result :
        (message : L.Message)
        → let answer = ((make_static_route pattern methods user).handler message).result in
          let method_and_path = get_method_and_path L message in
          ((answer ≡ route_matched)
            ↔ ((method_and_path.1 ≡ pattern) × (accepts L methods method_and_path.0 ≡ true)))
          × ((answer ≡ method_not_matched)
              ↔ ((method_and_path.1 ≡ pattern) × (accepts L methods method_and_path.0 ≡ false)))
          × ((answer ≡ path_not_matched) ↔ (method_and_path.1 ≢ pattern))
    unfolding make_static_route
    make_static_route-result message =
        let (method, path) = get_method_and_path L message in
        let q = accepts L methods method in
        let (matched, method_only, neither) =
          guarded-result L (str_eq path pattern) q (make_match user) (make_match-matched user) in
        (
          (
            λ e. (eq_of_str_eq path pattern (matched.0 e).0, (matched.0 e).1),
            λ (e, m). matched.1 ((str_eq_iff path pattern).1 e, m),
          ),
          (
            λ e. (eq_of_str_eq path pattern (method_only.0 e).0, (method_only.0 e).1),
            λ (e, m). method_only.1 ((str_eq_iff path pattern).1 e, m),
          ),
          (
            λ e same. cc (neither.0 e, (str_eq_iff path pattern).1 same),
            λ differ. neither.1 (str_eq_of_ne path pattern differ),
          ),
        )

    pub make_static_route-IsConsistent :
        (message : L.Message)
        → IsConsistent L ((make_static_route pattern methods user).handler message)
    unfolding make_static_route
    make_static_route-IsConsistent message =
        guarded-IsConsistent L (str_eq (get_method_and_path L message).1 pattern)
          (accepts L methods (get_method_and_path L message).0) (make_match user)
          (make_match-IsConsistent user)

  -- A request for the path and a method of a static route is handed to the user's handler.
  pub make_static_route-handler :
      (pattern : Str) (methods : List L.Method)
      (f : Request L → Unit {0} → Result (L.Future (Response L))) (message : L.Message)
      → let method_and_path = get_method_and_path L message in
        method_and_path.1 ≡ pattern
        → accepts L methods method_and_path.0 ≡ true
        → (make_static_route pattern methods (plain f)).handler message
          ≡ match_with L route_matched (λ request. f request tt)
  unfolding make_static_route
  make_static_route-handler pattern methods f message same admitted =
      rw ((str_eq_iff _ _).1 same, admitted, handle) refl
