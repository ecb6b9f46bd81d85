-- ===== src/SimpleServer/Answers.antt =====
-- The example server as a whole: what `main` makes, and what it does with every request.
use nozomi.Common.{
  ℕ, ◌≡◌, refl, sym, ap, subst, ◌∙◌, ◌≢◌, ◌⊎◌, inl, inr, none, some, List, [], ◌∷◌, arith, All, Str,
  codes, ok,
}
use nozomi.Libs.{Libs}
use nozomi.Http.{response_of_status, future}
use nozomi.Config.{Config, IpConfig, default_request_timeout_ms, default_file_reader_buffer_size}
use nozomi.Routing.Match.{
  BaseRoute, RouteMatch, UserHandler, IsMatched, route_matched, path_not_matched,
  method_not_matched,
}
use nozomi.Routing.Params.{ArgType, Values}
use nozomi.Routing.Dynamic.{handle}
use nozomi.Routing.Dynamic.Laws.{handle-result}
use nozomi.Routing.Router.{Router, make_router}
use nozomi.Routing.Router.Answers.{Answer, first_match, wrong_method, no_path, get_handler-Answer}
use nozomi.Routing.Router.Priority.{make_router-default}
use nozomi.Routing.Factory.{Factory, on_request, on_request_handler, on_request_streaming}
use nozomi.SimpleServer.{FileObjects}
use nozomi.SimpleServer.Routes.{
  Expressions, First, split-First, site, make_routes-site, user_args, files_args,
}
use nozomi.Config.Laws.{
  make_config-ok, make_config-IsStored, IsStored, make_config_from_hosts-make_config,
}
use nozomi.Server.{Server, make_server, bind}
use nozomi.SimpleServer.{configure, make_simple_server}
use nozomi.Routing.Router.Building.{make_router_of, make_router_of-make_router}
use nozomi.Routing.Factory.{make_factory}
use nozomi.SimpleServer.Requests.{
  IsOn, IsA, IsRefused, no_route, no_method, refused, IsServed, handled, started, takes, Outcome,
  first-Outcome,
}

module _ (L : Libs) (O : FileObjects L) (E : Expressions L) (message : L.Message) where
  missed_by :
      (args : List ArgType) (method : L.Method) (regex : L.Regex)
      (user : UserHandler L (Values L args))
      → (handle L args regex (method ∷ []) user message).result ≢ route_matched
      → IsOn L O E message regex
      → ¬ IsA L O E message method
  missed_by args method regex user missed on has =
      missed ((takes L O E message args method regex user).1 (on, has))

  -- A route that misses the path is not on it; one that misses the method alone is.
  misses :
      (args : List ArgType) (method : L.Method) (regex : L.Regex)
      (user : UserHandler L (Values L args))
      → let result = (handle L args regex (method ∷ []) user message).result in
        (result ≡ path_not_matched → ¬ IsOn L O E message regex)
        × (result ≡ method_not_matched → IsOn L O E message regex)
  misses args method regex user =
      let (_, only, neither) = handle-result L args regex (method ∷ []) user message in
      (λ e on. cc (on, neither.0 e), λ e. (only.0 e).0)

  wrong-IsRefused :
      All (λ r. ¬ IsMatched L message r) (site L O E)
      → (r : BaseRoute L) → First L (λ r. Unit) (site L O E) r
      → (r.handler message).result ≡ method_not_matched
      → IsRefused L O E message 405
  wrong-IsRefused (home, (users, (user, (files, _)))) r first e =
      no_method (some_on first)
        (λ on. elim on [
          | inl h ↦ missed_by [] L.get E.home _ home h
          | inr h ↦ missed_by files_args L.get E.files _ files h
        ])
        (λ on. elim on [
          | inl h ↦ missed_by [] L.post E.users _ users h
          | inr h ↦ missed_by user_args L.post E.user _ user h
        ])
    where
      at : (q : BaseRoute L) → r ≡ q → (q.handler message).result ≡ method_not_matched
      at q same = subst (λ q. (q.handler message).result ≡ method_not_matched) same e

      some_on :
          First L (λ r. Unit) (site L O E) r
          → IsOn L O E message E.home
            ⊎ (IsOn L O E message E.users
                ⊎ (IsOn L O E message E.user ⊎ IsOn L O E message E.files))
      some_on (inl q) = inl ((misses [] L.get E.home _).1 (at _ q))
      some_on (inr (_, inl q)) = inr (inl ((misses [] L.post E.users _).1 (at _ q)))
      some_on (inr (_, inr (_, inl q))) =
          inr (inr (inl ((misses user_args L.post E.user _).1 (at _ q))))
      some_on (inr (_, inr (_, inr (_, inl q)))) =
          inr (inr (inr ((misses files_args L.get E.files _).1 (at _ q))))
      some_on (inr (_, inr (_, inr (_, inr (_, none_left))))) = absurd none_left

  Answer-Outcome :
      {m : RouteMatch L}
      → Answer L (make_router L [] (site L O E)) message (site L O E) m
      → Outcome L O E message m
  Answer-Outcome (first_match before r after e missed here) =
      first-Outcome L O E message r (split-First L _ (site L O E) before after r e missed) here
  Answer-Outcome (wrong_method all before r after e here) = inl (
    λ request. ok (future L (response_of_status L 405)),
    ap some (make_router-default L (site L O E) 405),
    refused 405 (
        wrong-IsRefused all r
          (split-First L (λ r. Unit) (site L O E) before after r e (everywhere before)) here),
  )
    where
      everywhere : (rs : List (BaseRoute L)) → All (λ r. Unit {0}) rs
      everywhere [] = tt
      everywhere (r ∷ rs) = (tt, everywhere rs)
  Answer-Outcome (no_path (home, (users, (user, (files, _))))) = inl (
    λ request. ok (future L (response_of_status L 404)),
    ap some (make_router-default L (site L O E) 404),
    refused 404 (
        no_route ((misses [] L.get E.home _).0 home) ((misses [] L.post E.users _).0 users)
          ((misses user_args L.post E.user _).0 user)
          ((misses files_args L.get E.files _).0 files)),
  )

module _ (L : Libs) (O : FileObjects L) (E : Expressions L) where
  -- The factory over a configuration and the routes.
  abbrev factory : Config L → Factory L
  factory config = make_factory L config (make_router_of L [] (site L O E))

  on_request-IsServed :
      (config : Config L) (message : L.Message)
      → IsServed L O E message config.request_timeout
          (factory config).router
          (on_request L (factory config) message)
  unfolding make_factory
  on_request-IsServed config message =
      rw (make_router_of-make_router L [] (site L O E))
        (elim (Answer-Outcome L O E message (get_handler-Answer L [] (site L O E) message)) [
          | inl (h, e, is) ↦
              subst (IsServed L O E message config.request_timeout router)
                (sym (on_request_handler L (make_factory L config router) message h e))
                (handled h is)
          | inr (s, e, e', is) ↦
              subst (IsServed L O E message config.request_timeout router)
                (sym (on_request_streaming L (make_factory L config router) message s e e'))
                (started (s tt) is)
        ])
    where
      router : Router L
      router = make_router L [] (site L O E)

  -- The configuration is accepted.
  configured :
      (address : L.SocketAddress)
      → L.socket_address (codes "0.0.0.0") 8080 ≡ ok address
      → (config : Config L) × (configure L ≡ ok config)
        × IsStored L
            ((address, L.http) ∷ [])
            2
            none
            default_request_timeout_ms
            default_file_reader_buffer_size
            config
  unfolding configure
  configured address resolved =
      let hosts : List (Str × ℕ × L.Protocol) = (codes "0.0.0.0", 8080, L.http) ∷ [] in
      let addresses : List (IpConfig L) = (address, L.http) ∷ [] in
      let (config, accepted) =
        make_config-ok L addresses 2 none default_request_timeout_ms default_file_reader_buffer_size
          (λ e. cc e) (omega arith) refl (omega arith) (omega arith) tt in
      (
        config,
        make_config_from_hosts-make_config L hosts addresses 2 none default_request_timeout_ms
              default_file_reader_buffer_size (resolved, refl, tt)
            ∙ accepted,
        make_config-IsStored L addresses 2 none default_request_timeout_ms
            default_file_reader_buffer_size config accepted,
      )

  -- The program makes a server with two threads and its one address, whose factory serves every
  -- request as the program means it: a GET of the path `/` calls the first handler, a POST of `/user`
  -- the second, a POST of `/user/{{i}}` the third with the number in the path, and any other GET that
  -- the last expression matches starts a new handler of the files below `public`, which is given the
  -- text that was captured; all else is answered by 404 or, when a path matched but for the method, by
  -- 405. The paths are those that the expressions of the patterns match.
  -- It is assumed that the four patterns are parsed to expressions and the types of their parameters,
  -- that the address resolves, and that a file handler is called through its base class as itself.
  pub make_simple_server-IsServed :
      (address : L.SocketAddress)
      → L.socket_address (codes "0.0.0.0") 8080 ≡ ok address
      → (server : Server L) × (f : Factory L) × (make_simple_server L O ≡ some (ok server))
        × (server.options.threads ≡ 2)
        × ((bind L server).bound ≡ (address, L.http) ∷ [])
        × (server.options.handler_factories ≡ f ∷ [])
        × ((message : L.Message)
            → IsServed L O E message default_request_timeout_ms f.router (on_request L f message))
  unfolding make_simple_server make_server bind
  make_simple_server-IsServed address resolved =
      let (config, accepted, stored) = configured address resolved in
      (
        make_server L config (make_router_of L [] (site L O E)),
        factory config,
        rw (make_routes-site L O E, make_simple_server, accepted) refl,
        stored.threads_kept,
        stored.addresses_kept,
        refl,
        λ message.
            subst
              (λ timeout.
                IsServed L O E message timeout (factory config).router
                  (on_request L (factory config) message))
              stored.timeout_kept (on_request-IsServed config message),
      )
