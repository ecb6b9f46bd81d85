-- ===== src/SimpleServer/Routes.antt =====
-- The four routes that the overloads of make_route and make_streaming_route make for the example server.
use nozomi.Common.{
  holds_yes, holds_no, ◌≡◌, refl, ap, subst, ◌∙◌, ◌↔◌, ◌⊎◌, inl, inr, true, false, Option, none,
  some, List, [], ◌∷◌, ◌++◌, map, All, Str, codes, Result, ok,
}
use nozomi.Libs.{Libs}
use nozomi.Http.{Response, response_of_status, future}
use nozomi.Routing.Match.{BaseRoute, UserHandler, plain, streaming, accepts}
use nozomi.Routing.Params.{
  ArgType, Values, RouteParamType, string, int64, int64_type, string_type, to_route_param_type,
  parameter,
}
use nozomi.Routing.Params
use nozomi.Routing.Pattern.{parse_route_pattern}
use nozomi.Routing.Dynamic.{make_route, handle}
use nozomi.Routing.Dynamic.Laws.{make_route_lem}
use nozomi.SimpleServer.{
  FileObjects, show_home, create_user, show_user, make_files, make_routes, in_order,
}
use nozomi.Routing.Deduction.{
  request, argument, Params, make_route_of_callable, make_streaming_route,
}
use nozomi.Routing.Deduction.Types.{as_params, callable, maker, make_route-deduced}

-- The expressions to which the four patterns of the program are parsed, with the types of their
-- parameters.
pub record Expressions (L : Libs) : Type 0 where
  pub home : L.Regex
  pub users : L.Regex
  pub user : L.Regex
  pub files : L.Regex
  pub parsed_home : parse_route_pattern L (codes "/") ≡ ok (home, [])
  pub parsed_users : parse_route_pattern L (codes "/user") ≡ ok (users, [])
  pub parsed_user : parse_route_pattern L (codes "/user/{{i}}") ≡ ok (user, int64 ∷ [])
  pub parsed_files : parse_route_pattern L (codes "/{{s:.*}}") ≡ ok (files, string ∷ [])

module _ (L : Libs) where
  pub accepts_one : (m method : L.Method) → (accepts L (m ∷ []) method ≡ true) ↔ (m ≡ method)
  unfolding accepts
  accepts_one m method = elim (L.Method-discrete m method) [
    | yes same ↦ rw (holds_yes (L.Method-discrete m method) same) (λ _. same, λ _. refl)
    | no differ ↦
        rw (holds_no (L.Method-discrete m method) differ) (λ e. cc e, λ same. absurd (differ same))
  ]

  -- The place of the first element with a property is one of the places of the list.
  abbrev pub First : (BaseRoute L → Type 0) → List (BaseRoute L) → BaseRoute L → Type 0
  First P [] x = ⊥
  First P (y ∷ ys) x = (x ≡ y) ⊎ (P y × First P ys x)

  pub split-First :
      (P : BaseRoute L → Type 0) (ys before after : List (BaseRoute L)) (x : BaseRoute L)
      → ys ≡ before ++ x ∷ after
      → All P before
      → First P ys x
  split-First P [] [] after x e h = cc e
  split-First P [] (b ∷ before) after x e h = cc e
  split-First P (y ∷ ys) [] after x e h = inl (cc e)
  split-First P (y ∷ ys) (b ∷ before) after x e h =
      inr (subst P (cc e) h.0, split-First P ys before after x (cc e) h.1)

  -- A route whose pattern has the types of its handler's arguments.
  abbrev pub route :
      (args : List ArgType) → Str → L.Method → L.Regex → UserHandler L (Values L args) → BaseRoute L
  route args pattern method regex user = record {
    original_pattern = pattern;
    methods = method ∷ [];
    is_static_route = false;
    handler = handle L args regex (method ∷ []) user;
  }

  make_route-route :
      (args : List ArgType) (pattern : Str) (method : L.Method) (regex : L.Regex)
      (user : UserHandler L (Values L args))
      → parse_route_pattern L pattern ≡ ok (regex, map to_route_param_type args)
      → make_route L pattern (method ∷ []) args user ≡ ok (route args pattern method regex user)
  make_route-route args pattern method regex user parsed =
      elim (make_route_lem L pattern (method ∷ []) args user regex _ parsed) [
        | inl (_, made) ↦ made
        | inr (differ, _) ↦ absurd (differ refl)
      ]

module _ (L : Libs) where
  -- The overloads of make_route and make_streaming_route make such routes.
  callable-route :
      (args : List ArgType)
      (call : Params L (request ∷ map argument args) → Result (L.Future (Response L)))
      (pattern : Str) (method : L.Method) (regex : L.Regex)
      → parse_route_pattern L pattern ≡ ok (regex, map to_route_param_type args)
      → make_route_of_callable L pattern (method ∷ []) (callable L args call)
        ≡ some
            (ok (route L args pattern method regex (plain (λ r vs. call (r, as_params L args vs)))))
  callable-route args call pattern method regex parsed =
      (make_route-deduced L pattern (method ∷ []) args call (λ _. ok none) (λ h vs. ok h)).0
      ∙ ap some (make_route-route L args pattern method regex _ parsed)

  maker-route :
      (args : List ArgType) (make : Unit {0} → Result (Option L.RequestHandler))
      (set : L.RequestHandler → Params L (map argument args) → Result L.RequestHandler)
      (pattern : Str) (method : L.Method) (regex : L.Regex)
      → parse_route_pattern L pattern ≡ ok (regex, map to_route_param_type args)
      → make_streaming_route L pattern (method ∷ []) (maker L args make set)
        ≡ some (
            ok (
              route L args pattern method regex
                (streaming make (λ h vs. set h (as_params L args vs)))))
  maker-route args make set pattern method regex parsed =
      (make_route-deduced L pattern (method ∷ []) args
        (λ _. ok (future L (response_of_status L 200))) make set).2
      ∙ ap some (make_route-route L args pattern method regex _ parsed)

abbrev pub user_args : List ArgType
user_args = Params.ArgType.plain int64_type ∷ []

abbrev pub files_args : List ArgType
files_args = Params.ArgType.plain string_type ∷ []

module _ (L : Libs) (O : FileObjects L) (E : Expressions L) where
  -- The four routes of the program.
  abbrev pub home_route : BaseRoute L
  home_route =
      route L [] (codes "/") L.get E.home
        (plain (λ r vs. (show_home L).call (r, as_params L [] vs)))

  abbrev pub users_route : BaseRoute L
  users_route =
      route L [] (codes "/user") L.post E.users
        (plain (λ r vs. (create_user L).call (r, as_params L [] vs)))

  abbrev pub user_route : BaseRoute L
  user_route =
      route L user_args (codes "/user/{{i}}") L.post E.user
        (plain (λ r vs. (show_user L).call (r, as_params L user_args vs)))

  abbrev pub files_route : BaseRoute L
  files_route = route L files_args (codes "/{{s:.*}}") L.get E.files (
      streaming (make_files L O).make
        (λ h vs. (make_files L O).set_request_args h (as_params L files_args vs)))

  abbrev pub site : List (BaseRoute L)
  site = home_route ∷ users_route ∷ user_route ∷ files_route ∷ []

  pub make_routes-site : make_routes L O ≡ some (ok site)
  unfolding make_routes in_order to_route_param_type
  make_routes-site =
      rw
        (
          callable-route L [] (show_home L).call (codes "/") L.get E.home E.parsed_home,
          callable-route L [] (create_user L).call (codes "/user") L.post E.users E.parsed_users,
          callable-route L user_args (show_user L).call (codes "/user/{{i}}") L.post E.user
              E.parsed_user,
          maker-route L files_args (make_files L O).make (make_files L O).set_request_args
              (codes "/{{s:.*}}") L.get E.files E.parsed_files,
        )
        refl
