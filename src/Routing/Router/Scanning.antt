-- ===== src/Routing/Router/Scanning.antt =====
-- What the two loops of `getHandler` find.
use nozomi.Common.{
  [], ◌≡◌, refl, List, ◌∷◌, ◌++◌, arith, All, ap, Bool, inl, true, inr, ℕ, ◌⊎◌, false,
}
use nozomi.Libs.{Libs}
use nozomi.Routing.Match.{
  path_not_matched, method_not_matched, RouteMatch, BaseRoute, IsMatched, RouteMatchResult, Handler,
  route_matched,
}
use nozomi.Routing.Router.{Router, get_handler, scan, make_router, Scan, found, missed, not_found}
use nozomi.Routing.Router.Priority.{by_priority, make_router-lists}

module _ (L : Libs) where
  module _ (request : L.Message) where
    -- A route stands in the list at some place, with what holds of those before it.
    abbrev pub Split : (BaseRoute L → Type 0) → (BaseRoute L → Type 0) → List (BaseRoute L) → Type 0
    Split Before P routes =
        (before : List (BaseRoute L)) × (route : BaseRoute L) × (after : List (BaseRoute L))
        × (routes ≡ before ++ route ∷ after)
        × All Before before
        × P route

    abbrev pub IsMissed : BaseRoute L → Type 0
    IsMissed r = ¬ IsMatched L request r

    abbrev pub IsPathMissed : BaseRoute L → Type 0
    IsPathMissed r = (r.handler request).result ≡ path_not_matched

    abbrev pub IsMethodMissed : BaseRoute L → Type 0
    IsMethodMissed r = (r.handler request).result ≡ method_not_matched

    abbrev pub Scanned : List (BaseRoute L) → Bool → Scan L → Type 0
    Scanned routes b (found m) =
        (s : Split IsMissed (IsMatched L request) routes) × (m ≡ s.1.handler request)
    Scanned routes b (missed true) =
        All IsMissed routes × ((b ≡ true) ⊎ Split IsMissed IsMethodMissed routes)
    Scanned routes b (missed false) = (b ≡ false) × All IsPathMissed routes

    Split-cons :
        {Before P : BaseRoute L → Type 0} {rest : List (BaseRoute L)} (r : BaseRoute L)
        → Before r
        → Split Before P rest
        → Split Before P (r ∷ rest)
    Split-cons r h (before, route, after, e, hs, p) =
        (r ∷ before, route, after, ap (λ l. r ∷ l) e, (h, hs), p)

    -- Passing a route that does not match.
    Scanned-cons :
        (r : BaseRoute L) (rest : List (BaseRoute L)) (b b' : Bool) (result : Scan L)
        → IsMissed r
        → (b' ≡ true → (b ≡ true) ⊎ IsMethodMissed r)
        → (b' ≡ false → (b ≡ false) × IsPathMissed r)
        → Scanned rest b' result
        → Scanned (r ∷ rest) b result
    unfolding Split-cons
    Scanned-cons r rest b b' (found m) h _ _ (s, e) = (Split-cons r h s, e)
    Scanned-cons r rest b b' (missed true) h flag _ (all, inl set) = (
      (h, all),
      elim (flag set) [ inl before ↦ inl before | inr here ↦ inr ([], r, rest, refl, tt, here) ],
    )
    Scanned-cons r rest b b' (missed true) h flag _ (all, inr s) =
        ((h, all), inr (Split-cons r h s))
    Scanned-cons r rest b b' (missed false) h _ clear (unset, all) =
        ((clear unset).0, ((clear unset).1, all))

    result_cases :
        (r : RouteMatchResult)
        → (r ≡ path_not_matched) ⊎ ((r ≡ method_not_matched) ⊎ (r ≡ route_matched))
    result_cases path_not_matched = inl refl
    result_cases method_not_matched = inr (inl refl)
    result_cases route_matched = inr (inr refl)

    pub scan-Scanned :
        (routes : List (BaseRoute L)) (b : Bool) → Scanned routes b (scan L request routes b)
    unfolding scan
    scan-Scanned [] true = (tt, inl refl)
    scan-Scanned [] false = (refl, tt)
    scan-Scanned (r ∷ rest) b = elim (result_cases (r.handler request).result) [
      | inl e ↦
          rw (e, scan)
            (Scanned-cons r rest b b _ (λ h. cc) (λ h. inl h) (λ h. (h, e)) (scan-Scanned rest b))
      | inr (inl e) ↦
          rw (e, scan)
            (Scanned-cons r rest b true _ (λ h. cc) (λ _. inr e) (λ h. cc) (scan-Scanned rest true))
      | inr (inr e) ↦ rw (e, scan) (([], r, rest, refl, tt, e), refl)
    ]

    scan-first :
        (before : List (BaseRoute L)) (route : BaseRoute L) (after : List (BaseRoute L)) (b : Bool)
        → All IsMissed before
        → IsMatched L request route
        → scan L request (before ++ route ∷ after) b ≡ found (route.handler request)
    unfolding scan
    scan-first [] route after b h here = simp here refl
    scan-first (r ∷ before) route after b h here = elim (result_cases (r.handler request).result) [
      | inl e ↦ rw (e, scan) (scan-first before route after b h.1 here)
      | inr (inl e) ↦ rw (e, scan) (scan-first before route after true h.1 here)
      | inr (inr e) ↦ absurd (h.0 e)
    ]

    scan-append :
        (s d : List (BaseRoute L)) (b : Bool)
        → scan L request (s ++ d) b
          ≡ elim (scan L request s b) [ found m ↦ found m | missed b' ↦ scan L request d b' ]
    unfolding scan
    scan-append [] d b = refl
    scan-append (r ∷ s) d b = ground (arith, scan-append s d b, scan-append s d true)

    -- What `getHandler` returns once its loops are done.
    abbrev pub finish : Router L → Scan L → RouteMatch L
    finish router (found m) = m
    finish router (missed b) = not_found L router b

    pub get_handler-scan :
        (router : Router L)
        → get_handler L router request
          ≡ finish router (scan L request (router.static_routes ++ router.routes) false)
    unfolding get_handler
    get_handler-scan router =
        rw (scan-append router.static_routes router.routes false) (ground arith)

    -- The first route that matches in full gives the answer.
    pub get_handler_first :
        (error_routes : List (ℕ × Handler L)) (routes : List (BaseRoute L))
        (before : List (BaseRoute L)) (route : BaseRoute L) (after : List (BaseRoute L))
        → by_priority L routes ≡ before ++ route ∷ after
        → All IsMissed before
        → IsMatched L request route
        → get_handler L (make_router L error_routes routes) request ≡ route.handler request
    get_handler_first error_routes routes before route after e h here =
        rw
          (
            get_handler-scan (make_router L error_routes routes),
            make_router-lists L error_routes routes,
            e,
            scan-first before route after false h here,
          )
          refl
