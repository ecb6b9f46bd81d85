-- ===== src/Routing/Router/Priority.antt =====
-- How the constructor of Router sorts its routes, and what it keeps.
use nozomi.Common.{
  [], ◌≡◌, refl, sym, not, List, ◌∷◌, ◌++◌, append-nil, append_assoc, arith, keep, ℕ, ok,
}
use mathlib.Core.Path.{ap₂}
use nozomi.Libs.{Libs}
use nozomi.Http.{future, response_of_status}
use nozomi.Routing.Match.{BaseRoute, Handler}
use nozomi.Routing.Router.{Router, distribute, get_error_handler, make_router}

module _ (L : Libs) where
  -- Static routes before the others, each kind in the order of registration.
  abbrev pub by_priority : List (BaseRoute L) → List (BaseRoute L)
  by_priority routes =
      keep (λ r. r.is_static_route) routes ++ keep (λ r. not r.is_static_route) routes

  distribute_lem :
      (routes : List (BaseRoute L)) (router : Router L)
      → ((distribute L routes router).static_routes
          ≡ router.static_routes ++ keep (λ r. r.is_static_route) routes)
        × ((distribute L routes router).routes
            ≡ router.routes ++ keep (λ r. not r.is_static_route) routes)
        × ((distribute L routes router).error_routes ≡ router.error_routes)
  unfolding distribute
  distribute_lem [] router = (sym (append-nil _), sym (append-nil _), refl)
  distribute_lem (r ∷ rest) router = ground (
    arith,
    distribute_lem rest (record router { static_routes = router.static_routes ++ r ∷ [] }),
    distribute_lem rest (record router { routes = router.routes ++ r ∷ [] }),
    append_assoc router.static_routes (r ∷ []) (keep (λ r. r.is_static_route) rest),
    append_assoc router.routes (r ∷ []) (keep (λ r. not r.is_static_route) rest),
  )

  -- The constructor sorts the routes into the two lists, and keeps their order.
  pub make_router-lists :
      (error_routes : List (ℕ × Handler L)) (routes : List (BaseRoute L))
      → let router = make_router L error_routes routes in
        router.static_routes ++ router.routes ≡ by_priority routes
  unfolding make_router
  make_router-lists error_routes routes =
      let (statics, others, _) =
        distribute_lem routes
          (record { static_routes = []; routes = []; error_routes = error_routes }) in
      ap₂ ◌++◌ statics others

  pub make_router-errors :
      (error_routes : List (ℕ × Handler L)) (routes : List (BaseRoute L))
      → (make_router L error_routes routes).error_routes ≡ error_routes
  unfolding make_router
  make_router-errors error_routes routes =
      (distribute_lem routes
        (record { static_routes = []; routes = []; error_routes = error_routes })).2

  -- A router without error routes answers an error by its status alone.
  pub make_router-default :
      (routes : List (BaseRoute L)) (code : ℕ)
      → get_error_handler L (make_router L [] routes) code
        ≡ (λ request. ok (future L (response_of_status L code)))
  unfolding get_error_handler
  make_router-default routes code = rw (make_router-errors [] routes, get_error_handler) refl
