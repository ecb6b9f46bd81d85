-- ===== src/Routing/Factory.antt =====
-- HTTPHandlerFactory.h: the handler object for a request.
use nozomi.Common.{
  [], ℕ, ◌≡◌, refl, sym, subst, ◌≢◌, Bool, true, not, ◌||◌, Option, none, some, List, ◌∷◌, arith,
  is_set, keep, All, All-append, All-at, ℤ,
}
use nozomi.Libs.{Libs}
use nozomi.Config.{Config, get_request_timeout}
use nozomi.Routing.Match.{StreamingHandler, RouteMatch, BaseRoute, Handler, Started, IsConsistent}
use nozomi.Routing.Router.{Router, make_router, get_handler}
use nozomi.Routing.Router.Answers.{Answer, first_match, wrong_method, no_path, get_handler-Answer}

module _ (L : Libs) where
  -- class HTTPHandlerFactory
  pub record Factory : Type 0 where
    pub config : Config L
    pub router : Router L
    pub evb : Option L.EventBase

  -- What `onRequest` returns: a new HTTPHandler, what a streaming handler's factory returns, or null.
  pub data Created : Type 0 where
    http_handler : ℤ → Router L → Handler L → Created
    streaming_handler : Started L → Created
    null : Created

module _ (L : Libs) where
  unfoldable pub make_factory : Config L → Router L → Factory L
  make_factory config router = record { config = config; router = router; evb = none }

  pub on_server_start : L.EventBase → Factory L → Factory L
  on_server_start evb factory = record factory { evb = some evb }

  create : Factory L → RouteMatch L → Created L
  create factory match = elim match.handler [
    | some handler ↦ http_handler (get_request_timeout L factory.config) factory.router handler
    | none ↦ elim match.streaming_handler [
      | some start ↦ streaming_handler (start tt)
      | none ↦ null
    ]
  ]

  -- HTTPHandlerFactory::onRequest
  pub on_request : Factory L → L.Message → Created L
  unfolding create
  on_request factory message = create factory (get_handler L factory.router message)

  pub on_request_handler :
      (factory : Factory L) (message : L.Message) (handler : Handler L)
      → (get_handler L factory.router message).handler ≡ some handler
      → on_request factory message
        ≡ http_handler factory.config.request_timeout factory.router handler
  unfolding on_request
  on_request_handler factory message handler e = rw (e, create) refl

  pub on_request_streaming :
      (factory : Factory L) (message : L.Message) (start : StreamingHandler L)
      → (get_handler L factory.router message).handler ≡ none
      → (get_handler L factory.router message).streaming_handler ≡ some start
      → on_request factory message ≡ streaming_handler (start tt)
  unfolding on_request
  on_request_streaming factory message start e f = rw (e, create) (rw f refl)

  -- Each route carries a handler exactly when it matches.
  abbrev pub AreConsistent : List (BaseRoute L) → Type 0
  AreConsistent = All (λ r. (message : L.Message) → IsConsistent L (r.handler message))

  All-keep :
      (P : BaseRoute L → Type 0) (p : BaseRoute L → Bool) (routes : List (BaseRoute L))
      → All P routes
      → All P (keep p routes)
  All-keep P p [] h = tt
  All-keep P p (r ∷ rest) (h, hs) = ground (arith, All-keep P p rest hs)

  create-ne-null :
      (factory : Factory L) (m : RouteMatch L)
      → (is_set m.handler || is_set m.streaming_handler) ≡ true
      → create factory m ≢ null
  unfolding create
  create-ne-null factory m h = ground arith

  Answer-set :
      {router : Router L} {request : L.Message} {routes : List (BaseRoute L)} {m : RouteMatch L}
      → Answer L router request routes m
      → AreConsistent routes
      → (is_set m.handler || is_set m.streaming_handler) ≡ true
  Answer-set {request = request} (first_match before route after e missed here) h =
      (All-at _ before route after (rw e at h) request).0.0 here
  Answer-set (wrong_method all before route after e here) h = refl
  Answer-set (no_path all) h = refl

  -- A factory over consistent routes never falls through to the null pointer at the end of `onRequest`:
  -- it makes an HTTPHandler, or returns what the factory of a streaming handler does.
  pub on_request-ne-null :
      (factory : Factory L) (error_routes : List (ℕ × Handler L)) (routes : List (BaseRoute L))
      (message : L.Message)
      → factory.router ≡ make_router L error_routes routes
      → AreConsistent routes
      → on_request factory message ≢ null
  unfolding on_request
  on_request-ne-null factory error_routes routes message e h =
      subst (λ r. create factory (get_handler L r message) ≢ null) (sym e)
        (create-ne-null factory (get_handler L (make_router L error_routes routes) message) (
          Answer-set (get_handler-Answer L error_routes routes message) (
            All-append _ _ _ (All-keep _ (λ r. r.is_static_route) routes h)
              (All-keep _ (λ r. not r.is_static_route) routes h))))
