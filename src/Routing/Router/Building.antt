-- ===== src/Routing/Router/Building.antt =====
-- push_back_move of Util.h, and the templates make_router of Router.h, which take the routes one by one.
use nozomi.Common.{ℕ, ◌≡◌, sym, ap, ◌∙◌, List, [], ◌∷◌, ◌++◌, append-nil, append_assoc}
use nozomi.Libs.{Libs}
use nozomi.Routing.Match.{BaseRoute, Handler}
use nozomi.Routing.Router.{Router, make_router}

-- Moves the values to the end of a container, first to last.
unfoldable pub push_back_move {ℓ} : {A : Type ℓ} → List A → List A → List A
push_back_move container [] = container
push_back_move container (value ∷ values) = push_back_move (container ++ value ∷ []) values

push_back_move_lem {ℓ} :
    {A : Type ℓ} (container values : List A) → push_back_move container values ≡ container ++ values
unfolding push_back_move
push_back_move_lem container [] = sym (append-nil container)
push_back_move_lem container (value ∷ values) =
    push_back_move_lem (container ++ value ∷ []) values ∙ append_assoc container (value ∷ []) values

module _ (L : Libs) where
  -- Both templates, for pointers and for references that are moved from.
  unfoldable pub make_router_of : List (ℕ × Handler L) → List (BaseRoute L) → Router L
  unfolding push_back_move
  make_router_of error_routes routes = make_router L error_routes (push_back_move [] routes)

  -- The router that is made is that of the constructor over the routes, in order.
  pub make_router_of-make_router :
      (error_routes : List (ℕ × Handler L)) (routes : List (BaseRoute L))
      → make_router_of error_routes routes ≡ make_router L error_routes routes
  unfolding make_router_of
  make_router_of-make_router error_routes routes =
      ap (make_router L error_routes) (push_back_move_lem [] routes)
