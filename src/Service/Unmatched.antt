-- ===== src/Service/Unmatched.antt =====
-- Requests that no route matches.
use nozomi.Common.{
  ok_inj, ℕ, ◌^◌, ◌<◌, ◌≡◌, refl, ap, ◌∙◌, ◌⊎◌, inl, inr, none, some, List, [], ◌∷◌, ◌++◌, arith,
  All, Result, ok, ℤ, All-at,
}
use nozomi.Libs.{Libs}
use nozomi.Libs.Laws.{MessageLaws, BufferLaws}
use nozomi.Libs.Futures.{CallYields, FutureLaws}
use nozomi.Http.{future, Request, Response, response_of_status, get_status_code}
use nozomi.Http.Building.{get_status_code-response_of_status}
use nozomi.Config.{Config}
use nozomi.Routing.Match.{
  RouteMatch, BaseRoute, Handler, path_not_matched, method_not_matched, IsMatched,
}
use nozomi.Routing.Router.{Router, make_router, get_error_handler}
use nozomi.Routing.Router.Answers.{Answer, first_match, wrong_method, no_path, get_handler-Answer}
use nozomi.Routing.Router.Priority.{by_priority, make_router-default}
use nozomi.Routing.Router.Building.{make_router_of, make_router_of-make_router}
use nozomi.Routing.Factory.{make_factory}
use nozomi.HttpHandler.{HttpHandler, make_http_handler, answer}
use nozomi.HttpHandler.Outcomes.{
  Outcome, handled, failed, timed_out, unknown_error, answer_completes,
}
use nozomi.Service.{receive_request, sent, calls}
use nozomi.Service.Answered.{IsAnswered, handler-IsAnswered}

module _ (L : Libs) where
  -- The status of the error response for a request that no route matches.
  abbrev pub IsErrorStatus : L.Message → List (BaseRoute L) → ℕ → Type 0
  IsErrorStatus message routes code =
      ((code ≡ 404) × All (λ r. (r.handler message).result ≡ path_not_matched) routes)
      ⊎ ((code ≡ 405)
          × ((before : List (BaseRoute L)) × (route : BaseRoute L) × (after : List (BaseRoute L))
              × (routes ≡ before ++ route ∷ after)
              × ((route.handler message).result ≡ method_not_matched)))

  -- The handler of a request that no route matches.
  Answer-error :
      (router : Router L) (message : L.Message) (routes : List (BaseRoute L)) (m : RouteMatch L)
      → Answer L router message routes m
      → All (λ r. ¬ IsMatched L message r) routes
      → (code : ℕ) × IsErrorStatus message routes code
        × (m.handler ≡ some (get_error_handler L router code))
  Answer-error router message routes _ (first_match before route after e missed here) all =
      absurd (All-at _ before route after (rw e at all) here)
  Answer-error router message routes _ (wrong_method missed before route after e here) all =
      (405, inr (refl, (before, route, after, e, here)), refl)
  Answer-error router message routes _ (no_path paths) all = (404, inl (refl, paths), refl)

  module _ (Yields : (A : Type 0) → L.Future A → Result A → Type 0) (F : FutureLaws L Yields) where
    -- What a default error handler completes with.
    default-Yields :
        (call : Result (L.Future (Response L))) (code : ℕ) (result : Result (Response L))
        → call ≡ ok (future L (response_of_status L code))
        → CallYields L Yields (Response L) call result
        → result ≡ ok (response_of_status L code)
    default-Yields call code result e y = F.make_future-yields _ _ _ (rw e at y)

    -- Where every error handler is the default one, only two responses are possible.
    Outcome-default :
        (h : HttpHandler L) (request : Request L) (code : ℕ)
        → h.handler request ≡ ok (future L (response_of_status L code))
        → ((c : ℕ)
            → get_error_handler L h.router c request ≡ ok (future L (response_of_status L c)))
        → (r : Response L) → Outcome L Yields h request r
        → (r ≡ response_of_status L code) ⊎ (r ≡ response_of_status L 503)
    Outcome-default h request code own errors _ (handled r y) =
        inl (ok_inj (default-Yields _ code _ own y))
    Outcome-default h request code own errors _ (failed e r y z) =
        cc (default-Yields _ code _ own y)
    Outcome-default h request code own errors _ (timed_out r y) =
        inr (ok_inj (default-Yields _ 503 _ (errors 503) y))
    Outcome-default h request code own errors _ (unknown_error e (inl (x, y, z))) =
        cc (default-Yields _ code _ own y)
    Outcome-default h request code own errors _ (unknown_error e (inr y)) =
        cc (default-Yields _ 503 _ (errors 503) y)

  -- A result is a response that is sent with the status of an error, or of the timeout.
  abbrev pub Sent : HttpHandler L → L.Message → List (BaseRoute L) → Result (Response L) → Type 0
  Sent h message routes result =
      (r : Response L) × (code : ℕ) × (result ≡ ok r)
      × (sent L h r ≡ calls L code r)
      × ((code ≡ 503) ⊎ IsErrorStatus message routes code)

  module _ (Yields : (A : Type 0) → L.Future A → Result A → Type 0) (B : BufferLaws L)
      (F : FutureLaws L Yields) where
    -- A request that no route matches is answered by an error handler, as by a user's handler: that of
    -- 404 if no route matched the path, and that of 405 if one did.
    -- It is assumed that buffers and futures behave as documented.
    pub unmatched-IsAnswered :
        (config : Config L) (error_routes : List (ℕ × Handler L)) (routes : List (BaseRoute L))
        (current : L.EventBase) (executor : L.Executor) (message : L.Message) (bufs : List L.IOBuf)
        → All (λ r. ¬ IsMatched L message r) (by_priority L routes)
        → let router = make_router_of L error_routes routes in
          (code : ℕ) × IsErrorStatus message (by_priority L routes) code
          × IsAnswered L Yields config router current executor message bufs
              (get_error_handler L router code)
    unmatched-IsAnswered config error_routes routes current executor message bufs all =
        let router = make_router L error_routes routes in
        let (code, is_error, same) =
          Answer-error router message (by_priority L routes) _
            (get_handler-Answer L error_routes routes message) all in
        rw (make_router_of-make_router L error_routes routes) (
          code,
          is_error,
          handler-IsAnswered L Yields B F config router current executor message bufs
              (get_error_handler L router code) same,
        )

    -- The chain of futures of a handler object, of a router without error routes.
    module _ (timeout : ℤ) (routes : List (BaseRoute L)) (code : ℕ) (executor : L.Executor)
        (request : Request L) where
      abbrev fresh : HttpHandler L
      fresh =
          let router = make_router_of L [] routes in
          make_http_handler L timeout router (get_error_handler L router code) none executor

      default :
          (c : ℕ)
          → get_error_handler L (make_router_of L [] routes) c request
            ≡ ok (future L (response_of_status L c))
      default c =
          rw (make_router_of-make_router L [] routes)
            (ap (λ f. f request) (make_router-default L routes c))

      sure_answer : (r : Response L) × Yields (Response L) (answer L fresh request) (ok r)
      unfolding make_http_handler
      sure_answer =
          answer_completes L Yields F fresh request (ok (response_of_status L 503))
            (rw (default 503) (F.yields-make_future (Response L) (response_of_status L 503)))

      Outcome-status :
          (r : Response L)
          → Outcome L Yields fresh request r
          → (r ≡ response_of_status L code) ⊎ (r ≡ response_of_status L 503)
      unfolding make_http_handler
      Outcome-status r outcome =
          Outcome-default Yields F fresh request code (default code) default r outcome

    IsErrorStatus-small :
        (message : L.Message) (routes : List (BaseRoute L)) (code : ℕ)
        → IsErrorStatus message routes code
        → code < 2 ^ 16
    IsErrorStatus-small message routes code h = ground arith

    -- A request that no route matches, on a server without error handlers of its own: it is gathered,
    -- and whatever its future completes with is a response, which is sent with status 404 if no route
    -- matched the path, and 405 if one did, or with 503 if the timeout came first; and it is sure to
    -- complete.
    -- It is assumed that buffers, messages and futures behave as documented.
    pub unmatched-Sent :
        (M : MessageLaws L) (config : Config L) (routes : List (BaseRoute L))
        (current : L.EventBase) (executor : L.Executor) (message : L.Message) (bufs : List L.IOBuf)
        → All (λ r. ¬ IsMatched L message r) (by_priority L routes)
        → (h : HttpHandler L) × (chain : L.Future (Response L)) × (receive_request L
              (make_factory L config (make_router_of L [] routes))
              current
              executor
              message
              bufs
            ≡ some h)
          × (h.response ≡ some (chain, current))
          × ((result : Result (Response L))
              → Yields (Response L) chain result
              → Sent h message (by_priority L routes) result)
          × ((r : Response L) × Yields (Response L) chain (ok r))
    unmatched-Sent M config routes current executor message bufs all =
        let (code, is_error, (h, request, gathered, _, _, response, sends)) =
          unmatched-IsAnswered config [] routes current executor message bufs all in
        let status =
          (λ (c : ℕ) (r : Response L) (small : c < 2 ^ 16) (e : r ≡ response_of_status L c).
            ap (get_status_code L) e ∙ get_status_code-response_of_status L M c small) in
        (
          h,
          _,
          gathered,
          response,
          (λ result y.
              let (r, same, outcome, calls_made) = sends result y in
              elim (Outcome-status config.request_timeout routes code executor request r outcome) [
                | inl e ↦ (
                  r,
                  code,
                  same,
                  calls_made
                      ∙ ap (λ c. calls L c r)
                          (status code r
                            (IsErrorStatus-small message (by_priority L routes) code is_error) e),
                  inr is_error,
                )
                | inr e ↦ (
                  r,
                  503,
                  same,
                  calls_made ∙ ap (λ c. calls L c r) (status 503 r (omega arith) e),
                  inl refl,
                )
              ]),
          sure_answer config.request_timeout routes code executor request,
        )
