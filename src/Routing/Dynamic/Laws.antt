-- ===== src/Routing/Dynamic/Laws.antt =====
-- Which routes are accepted, and what an accepted route answers.
use nozomi.Common.{
  [], what, ℕ, ◌+◌, ◌≡◌, refl, ap, ◌≢◌, ◌↔◌, ◌⊎◌, inl, inr, true, false, List, ◌∷◌, map, arith,
  ◌==◌, ==_iff, Bool-cases, Option-cases, is_set, length, Str, runtime_error, ok, err, holds_yes,
  holds_no, ok_inj, sym, ◌∙◌,
}
use nozomi.Libs.{Libs}
use nozomi.Http.{get_method_and_path}
use nozomi.Routing.Match.{
  BaseRoute, path_not_matched, method_not_matched, route_matched, UserHandler, plain, streaming,
  accepts, IsConsistent, guarded-result, guarded-IsConsistent,
}
use nozomi.Routing.Params.{
  RouteParamType, ArgType, Values, to_route_param_type, parse_function_parameters-map,
}
use nozomi.Routing.Pattern.{parse_route_pattern}
use nozomi.Routing.Dynamic.{
  make_match, handle, check_params, compare_params, count_error, type_error, make_route,
  RouteParamType-discrete,
}

module _ (L : Libs) where
  compare_params_self :
      (pattern : Str) (ps : List RouteParamType) (i : ℕ) → compare_params L pattern ps ps i ≡ ok tt
  unfolding compare_params
  compare_params_self pattern [] i = refl
  compare_params_self pattern (p ∷ ps) i =
      rw (holds_yes (RouteParamType-discrete p p) refl) (compare_params_self pattern ps (i + 1))

  compare_params-ne :
      (pattern : Str) (ps fs : List RouteParamType) (i : ℕ)
      → length ps ≡ length fs
      → ps ≢ fs
      → (text : Str) × (compare_params L pattern ps fs i ≡ err (runtime_error text))
  unfolding compare_params type_error
  compare_params-ne pattern [] [] i e differ = absurd (differ refl)
  compare_params-ne pattern [] (f ∷ fs) i e differ = absurd (omega arith)
  compare_params-ne pattern (p ∷ ps) [] i e differ = absurd (omega arith)
  compare_params-ne pattern (p ∷ ps) (f ∷ fs) i e differ = elim (RouteParamType-discrete p f) [
    | yes same ↦
        rw (holds_yes (RouteParamType-discrete p f) same)
          (compare_params-ne pattern ps fs (i + 1) (omega arith) (λ more. differ (cc (same, more))))
    | no different ↦
        (what (type_error L pattern i p f), rw (holds_no (RouteParamType-discrete p f) different))
  ]

  count_error-runtime :
      (pattern : Str) (ps fs : List RouteParamType)
      → count_error L pattern ps fs ≡ runtime_error (what (count_error L pattern ps fs))
  unfolding count_error
  count_error-runtime pattern ps fs = refl

  check_params_self :
      (pattern : Str) (ps : List RouteParamType) → check_params L pattern ps ps ≡ ok tt
  unfolding check_params
  check_params_self pattern ps =
      rw ((==_iff (length ps) (length ps)).1 refl) (compare_params_self pattern ps 0)

  check_params-ne :
      (pattern : Str) (ps fs : List RouteParamType)
      → ps ≢ fs
      → (text : Str) × (check_params L pattern ps fs ≡ err (runtime_error text))
  unfolding check_params
  check_params-ne pattern ps fs differ = elim (Bool-cases (length ps == length fs)) [
    | inl same ↦ rw same (compare_params-ne pattern ps fs 0 ((==_iff _ _).0 same) differ)
    | inr different ↦
        rw different
          (what (count_error L pattern ps fs), ap err (count_error-runtime pattern ps fs))
  ]

  params-discrete : Discrete (List RouteParamType)
  params-discrete = hlevel

  -- A route is accepted exactly when its pattern parses to the types of the handler's arguments, in
  -- order; other lists of types are refused by a `runtime_error`, and so is nothing else.
  pub make_route_lem :
      (pattern : Str) (methods : List L.Method) (args : List ArgType)
      (user : UserHandler L (Values L args)) (regex : L.Regex) (params : List RouteParamType)
      → parse_route_pattern L pattern ≡ ok (regex, params)
      → ((params ≡ map to_route_param_type args)
          × (make_route L pattern methods args user
              ≡ ok (record {
                original_pattern = pattern;
                methods = methods;
                is_static_route = false;
                handler = handle L args regex methods user;
              })))
        ⊎ ((params ≢ map to_route_param_type args)
            × ((text : Str) × (make_route L pattern methods args user ≡ err (runtime_error text))))
  unfolding make_route
  make_route_lem pattern methods args user regex params parsed =
      rw (parsed, parse_function_parameters-map args)
        (elim (params-discrete params (map to_route_param_type args)) [
          | yes same ↦
              inl (same, rw same (rw (check_params_self pattern (map to_route_param_type args))))
          | no different ↦
              let (text, refused) = check_params-ne pattern params _ different in
              inr (different, (text, rw refused))
        ])

  -- A route that was made matches by the expression of its pattern.
  pub make_route-handle :
      (pattern : Str) (methods : List L.Method) (args : List ArgType)
      (user : UserHandler L (Values L args)) (regex : L.Regex) (params : List RouteParamType)
      (route : BaseRoute L)
      → parse_route_pattern L pattern ≡ ok (regex, params)
      → make_route L pattern methods args user ≡ ok route
      → route.handler ≡ handle L args regex methods user
  make_route-handle pattern methods args user regex params route parsed made =
      elim (make_route_lem pattern methods args user regex params parsed) [
        | inl (_, accepted) ↦ ap (λ r. r.handler) (ok_inj (sym made ∙ accepted))
        | inr (_, (text, refused)) ↦ cc (made, refused)
      ]

  module _ (args : List ArgType) where
    make_match-matched :
        (user : UserHandler L (Values L args)) (matches : L.Matches)
        → (make_match L args user matches).result ≡ route_matched
    unfolding make_match
    make_match-matched (plain f) matches = refl
    make_match-matched (streaming make set_request_args) matches = refl

    make_match-IsConsistent :
        (user : UserHandler L (Values L args)) (matches : L.Matches)
        → IsConsistent L (make_match L args user matches)
    unfolding make_match
    make_match-IsConsistent (plain f) matches = ground arith
    make_match-IsConsistent (streaming make set_request_args) matches = ground arith

  module _ (args : List ArgType) (regex : L.Regex) (methods : List L.Method)
      (user : UserHandler L (Values L args)) where
    -- An accepted route answers "matched" exactly when its expression matches the decoded path and
    -- the method is one of its own, "method not matched" exactly when only the path does, and "path
    -- not matched" exactly when the path does not.
    pub handle-result :
        (message : L.Message)
        → let answer = (handle L args regex methods user message).result in
          let method_and_path = get_method_and_path L message in
          let matches = L.regex_match regex method_and_path.1 in
          ((answer ≡ route_matched)
            ↔ ((is_set matches ≡ true) × (accepts L methods method_and_path.0 ≡ true)))
          × ((answer ≡ method_not_matched)
              ↔ ((is_set matches ≡ true) × (accepts L methods method_and_path.0 ≡ false)))
          × ((answer ≡ path_not_matched) ↔ (is_set matches ≡ false))
    unfolding handle
    handle-result message =
        let method_and_path = get_method_and_path L message in
        let q = accepts L methods method_and_path.0 in
        elim (Option-cases (L.regex_match regex method_and_path.1)) [
          | inl e ↦ rw (e, handle) (ground arith)
          | inr (matches, e) ↦
              rw (e, handle)
                (guarded-result L true q (make_match L args user matches)
                  (make_match-matched args user matches))
        ]

    pub handle-IsConsistent :
        (message : L.Message) → IsConsistent L (handle L args regex methods user message)
    unfolding handle
    handle-IsConsistent message =
        let method_and_path = get_method_and_path L message in
        let q = accepts L methods method_and_path.0 in
        elim (Option-cases (L.regex_match regex method_and_path.1)) [
          | inl e ↦ rw (e, handle) (ground arith)
          | inr (matches, e) ↦
              rw (e, handle)
                (guarded-IsConsistent L true q (make_match L args user matches)
                  (make_match-IsConsistent args user matches))
        ]
