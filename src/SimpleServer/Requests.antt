-- ===== src/SimpleServer/Requests.antt =====
-- What the example server does with a request: which of its routes answers, and how.
use nozomi.Common.{
  ℕ, ◌≡◌, refl, sym, ap, subst, ◌↔◌, ◌⊎◌, inl, inr, true, none, some, List, [], ◌∷◌, Option-cases,
  is_set, All, Result, ok, err, ◌>>=◌, ℤ,
}
use nozomi.Libs.{Libs}
use nozomi.Http.{Request, Response, response_of_status, future, get_method_and_path}
use nozomi.Routing.Match.{
  BaseRoute, Handler, StreamingHandler, RouteMatch, UserHandler, plain, IsMatched, route_matched,
  Started, start,
}
use nozomi.Routing.Params.{
  ArgType, Values, RouteParamType, string, int64, int64_type, string_type, to_route_param_type,
  parameter, text,
}
use nozomi.Routing.Params
use nozomi.Routing.Params.Conversions.{
  IsArgument, AreArguments, IsInfallible, infallible_converts, IsConversion,
}
use nozomi.Routing.Dynamic.{handle}
use nozomi.Routing.Dynamic.Laws.{handle-result}
use nozomi.Routing.Dynamic.Arguments.{handle-calls, handle-runs}
use nozomi.Routing.Router.{Router}
use nozomi.Routing.Factory.{Created, http_handler, streaming_handler}
use nozomi.Routing.Deduction.Types.{as_params}
use nozomi.Files.{set_request_args}
use nozomi.SimpleServer.{FileObjects, show_home, create_user, show_user, public_files, make_files}
use nozomi.SimpleServer.Routes.{
  Expressions, accepts_one, First, home_route, users_route, user_route, files_route, site,
  user_args, files_args,
}

module _ (L : Libs) (O : FileObjects L) (E : Expressions L) (message : L.Message) where
  -- The path of the request matches an expression; the request has a method.
  abbrev pub IsOn : L.Regex → Type 0
  IsOn regex = is_set (L.regex_match regex (get_method_and_path L message).1) ≡ true

  abbrev pub IsA : L.Method → Type 0
  IsA method = method ≡ (get_method_and_path L message).0

  -- No route matches: none has the path, or those that have it have not got the method.
  pub data IsRefused : ℕ → Type 0 where
    no_route : ¬ IsOn E.home → ¬ IsOn E.users → ¬ IsOn E.user → ¬ IsOn E.files → IsRefused 404
    no_method :
        IsOn E.home ⊎ (IsOn E.users ⊎ (IsOn E.user ⊎ IsOn E.files))
        → (IsOn E.home ⊎ IsOn E.files → ¬ IsA L.get)
        → (IsOn E.users ⊎ IsOn E.user → ¬ IsA L.post)
        → IsRefused 405

  -- The handler for a request that is not for a file.
  pub data IsHandler : Handler L → Type 0 where
    at_home : IsA L.get → IsOn E.home → IsHandler (λ r. (show_home L).call (r, tt))
    creates : IsA L.post → IsOn E.users → IsHandler (λ r. (create_user L).call (r, tt))
    shows :
        (matches : L.Matches) (id : ℤ)
        → IsA L.post
        → ¬ IsOn E.users
        → L.regex_match E.user (get_method_and_path L message).1 ≡ some matches
        → IsArgument L (Params.ArgType.plain int64_type) (parameter L 0 matches) id
        → IsHandler (λ r. (show_user L).call (r, (id, tt)))
    refused :
        (code : ℕ) → IsRefused code → IsHandler (λ r. ok (future L (response_of_status L code)))

  -- A request for a file starts a new handler of files, which is given the path that was captured.
  pub data IsFile : Started L → Type 0 where
    opens :
        (matches : L.Matches)
        → IsA L.get
        → ¬ IsOn E.home
        → L.regex_match E.files (get_method_and_path L message).1 ≡ some matches
        → IsFile (record {
          returned = some (
              O.as_request_handler
                (set_request_args L (text (parameter L 0 matches)) (public_files L O)));
          deleted = [];
        })

  -- What the factory returns, with the timeout and the router of an HTTPHandler.
  pub data IsServed (timeout : ℤ) (router : Router L) : Created L → Type 0 where
    handled :
        (handler : Handler L)
        → IsHandler handler
        → IsServed timeout router (http_handler timeout router handler)
    started : (s : Started L) → IsFile s → IsServed timeout router (streaming_handler s)

  pub takes :
      (args : List ArgType) (method : L.Method) (regex : L.Regex)
      (user : UserHandler L (Values L args))
      → ((handle L args regex (method ∷ []) user message).result ≡ route_matched)
        ↔ (IsOn regex × IsA method)
  takes args method regex user =
      let (to, of) = (handle-result L args regex (method ∷ []) user message).0 in
      let (same, accepted) = accepts_one L method (get_method_and_path L message).0 in
      (λ h. ((to h).0, same (to h).1), λ (on, is). of (on, accepted is))

  matches_of :
      (regex : L.Regex)
      → IsOn regex
      → (matches : L.Matches) × (L.regex_match regex (get_method_and_path L message).1
          ≡ some matches)
  matches_of regex on =
      elim (Option-cases (L.regex_match regex (get_method_and_path L message).1)) [
        | inl e ↦ cc (e, on)
        | inr found ↦ found
      ]

  -- A match hands on a handler, or a function that starts one.
  abbrev pub Outcome : RouteMatch L → Type 0
  Outcome m =
      ((h : Handler L) × (m.handler ≡ some h) × IsHandler h)
      ⊎ ((s : StreamingHandler L) × (m.handler ≡ none)
          × (m.streaming_handler ≡ some s)
          × IsFile (s tt))

  -- A route of requests that matches calls its handler on the values of its arguments.
  handle-Outcome :
      (args : List ArgType) (method : L.Method) (regex : L.Regex)
      (f : Request L → Values L args → Result (L.Future (Response L)))
      → All (IsInfallible L) args
      → (handle L args regex (method ∷ []) (plain f) message).result ≡ route_matched
      → ((matches : L.Matches) (vs : Values L args)
          → IsA method
          → L.regex_match regex (get_method_and_path L message).1 ≡ some matches
          → AreArguments L args 0 matches vs
          → IsHandler (λ r. f r vs))
      → Outcome (handle L args regex (method ∷ []) (plain f) message)
  handle-Outcome args method regex f infallible h is =
      let (on, has) = (takes args method regex (plain f)).0 h in
      let (matches, e) = matches_of regex on in
      let (vs, are, same) =
        handle-calls L args regex (method ∷ []) f message matches infallible e
          ((accepts_one L method _).1 has) in
      inl (λ r. f r vs, ap (λ m. m.handler) same, is matches vs has e are)

  home-Outcome :
      IsMatched L message (home_route L O E) → Outcome ((home_route L O E).handler message)
  home-Outcome h =
      handle-Outcome [] L.get E.home _ tt h (λ matches vs has e are. at_home has (rw e refl))

  users-Outcome :
      IsMatched L message (users_route L O E) → Outcome ((users_route L O E).handler message)
  users-Outcome h =
      handle-Outcome [] L.post E.users _ tt h (λ matches vs has e are. creates has (rw e refl))

  user-Outcome :
      ¬ IsMatched L message (users_route L O E)
      → IsMatched L message (user_route L O E)
      → Outcome ((user_route L O E).handler message)
  user-Outcome missed h =
      handle-Outcome user_args L.post E.user _ ((λ e. cc e), tt) h
        (λ matches vs has e are.
          shows matches vs.0 has (λ on. missed ((takes [] L.post E.users _).1 (on, has))) e are.0)

  -- The object is made, and takes the path.
  file_started :
      (matches : L.Matches) (values : Result (Values L files_args))
      → IsConversion L files_args matches values
      → start L
          ((make_files L O).make tt)
          (λ h. values >>= (λ vs. (make_files L O).set_request_args h (as_params L files_args vs)))
        ≡ record {
          returned = some (
              O.as_request_handler
                (set_request_args L (text (parameter L 0 matches)) (public_files L O)));
          deleted = [];
        }
  unfolding start
  file_started matches (ok (path, _)) (is, _) = rw (O.set_args-as (public_files L O) path, is) refl
  file_started matches (err e) fails =
      absurd (infallible_converts L files_args 0 matches e ((λ d. cc d), tt) fails)

  files-Outcome :
      ¬ IsMatched L message (home_route L O E)
      → IsMatched L message (files_route L O E)
      → Outcome ((files_route L O E).handler message)
  files-Outcome missed h =
      let (on, has) = (takes files_args L.get E.files _).0 h in
      let (matches, e) = matches_of E.files on in
      let (values, are, same) =
        handle-runs L files_args E.files (L.get ∷ []) _ message matches e
          ((accepts_one L L.get _).1 has) in
      inr (
        _,
        ap (λ m. m.handler) same,
        ap (λ m. m.streaming_handler) same,
        subst IsFile (sym (file_started matches values are))
            (opens matches has (λ on. missed ((takes [] L.get E.home _).1 (on, has))) e),
      )

  -- The first route of the site that matches.
  pub first-Outcome :
      (r : BaseRoute L)
      → First L (λ r. ¬ IsMatched L message r) (site L O E) r
      → IsMatched L message r
      → Outcome (r.handler message)
  first-Outcome r (inl e) h = rw e (home-Outcome (subst (IsMatched L message) e h))
  first-Outcome r (inr (_, inl e)) h = rw e (users-Outcome (subst (IsMatched L message) e h))
  first-Outcome r (inr (_, inr (missed, inl e))) h =
      rw e (user-Outcome missed (subst (IsMatched L message) e h))
  first-Outcome r (inr (missed, inr (_, inr (_, inl e)))) h =
      rw e (files-Outcome missed (subst (IsMatched L message) e h))
  first-Outcome r (inr (_, inr (_, inr (_, inr (_, none_left))))) h = absurd none_left
