-- ===== src/Routing/Deduction/Types.antt =====
-- What the overloads of make_route and make_streaming_route deduce.
use nozomi.Common.{
  ◌≡◌, refl, sym, ap, subst, ◌≢◌, ◌↔◌, inl, inr, Option, none, some, List, [], ◌∷◌, map,
  Option-cases, Str, Result,
}
use nozomi.Libs.{Libs}
use nozomi.Http.{Response}
use nozomi.Routing.Match.{plain, streaming}
use nozomi.Routing.Params.{ArgType, Values}
use nozomi.Routing.Dynamic.{make_route}
use nozomi.Routing.Deduction.{
  ParamType, object, request, argument, Params, deduce, Callable, Maker, make_route_of_sequence,
  make_route_of_pointer, make_route_of_function, make_route_of_callable,
  make_streaming_route_of_sequence, make_streaming_route,
}

module _ (L : Libs) where
  -- The values of arguments, as those of parameters.
  abbrev pub as_params : (args : List ArgType) → Values L args → Params L (map argument args)
  as_params [] v = tt
  as_params (t ∷ args) (v, vs) = (v, as_params args vs)

  deduce-argument :
      (args : List ArgType) → deduce L (map argument args) ≡ some (args, as_params args)
  unfolding deduce
  deduce-argument [] = refl
  deduce-argument (t ∷ args) = rw (deduce-argument args) refl

  deduce_some :
      (types : List ParamType)
      → deduce L types ≢ none
      → (args : List ArgType) × (types ≡ map argument args)
  unfolding deduce
  deduce_some [] h = ([], refl)
  deduce_some (object ∷ types) h = absurd (h refl)
  deduce_some (request ∷ types) h = absurd (h refl)
  deduce_some (argument t ∷ types) h = elim (Option-cases (deduce L types)) [
    | inl e ↦ absurd (h (rw (e, deduce) refl))
    | inr (r, e) ↦
        let (args, same) = deduce_some types (λ n. cc (e, n)) in
        (t ∷ args, ap (λ ts. argument t ∷ ts) same)
  ]

module _ (L : Libs) where
  abbrev pub callable :
      (args : List ArgType)
      → (Params L (request ∷ map argument args) → Result (L.Future (Response L)))
      → Callable L
  callable args call = record { types = request ∷ map argument args; call = call }

  abbrev pub maker :
      (args : List ArgType)
      → (Unit {0} → Result (Option L.RequestHandler))
      → (L.RequestHandler → Params L (map argument args) → Result L.RequestHandler)
      → Maker L
  maker args make set = record { types = map argument args; make = make; set_request_args = set }

module _ (L : Libs) (pattern : Str) (methods : List L.Method) where
  pub sequence-deduced :
      (args : List ArgType)
      (call : Params L (request ∷ map argument args) → Result (L.Future (Response L)))
      → make_route_of_sequence L pattern methods (request ∷ map argument args) call
        ≡ some (make_route L pattern methods args (plain (λ r vs. call (r, as_params L args vs))))
  unfolding make_route_of_sequence
  sequence-deduced args call = rw (deduce-argument L args, make_route_of_sequence) refl

  -- The overloads for a function and for an object make the same route, that of the class template over
  -- the types of the arguments, whose handler is called on the request and the values. The one for a
  -- factory of streaming handlers does so for the parameters of their setRequestArgs.
  pub make_route-deduced :
      (args : List ArgType)
      (call : Params L (request ∷ map argument args) → Result (L.Future (Response L)))
      (make : Unit {0} → Result (Option L.RequestHandler))
      (set : L.RequestHandler → Params L (map argument args) → Result L.RequestHandler)
      → let made =
          make_route L pattern methods args (plain (λ r vs. call (r, as_params L args vs))) in
        (make_route_of_callable L pattern methods (callable L args call) ≡ some made)
        × (make_route_of_function L pattern methods (callable L args call) ≡ some made)
        × (make_streaming_route L pattern methods (maker L args make set)
            ≡ some (
                make_route L pattern methods args
                  (streaming make (λ h vs. set h (as_params L args vs)))))
  unfolding make_route_of_callable make_route_of_function make_streaming_route
  make_route-deduced args call make set = (
    sequence-deduced args call,
    rw (deduce-argument L args, make_route_of_pointer) refl,
    rw (deduce-argument L args, make_streaming_route_of_sequence) refl,
  )

  pub sequence_some :
      (types : List ParamType) (call : Params L types → Result (L.Future (Response L)))
      → make_route_of_sequence L pattern methods types call ≢ none
      → (args : List ArgType) × (types ≡ request ∷ map argument args)
  unfolding make_route_of_sequence
  sequence_some [] call h = absurd (h refl)
  sequence_some (object ∷ types) call h = absurd (h refl)
  sequence_some (argument t ∷ types) call h = absurd (h refl)
  sequence_some (request ∷ types) call h =
      let (args, e) = deduce_some L types (λ n. h (rw (n, make_route_of_sequence) refl)) in
      (args, ap (λ ts. request ∷ ts) e)

  -- A handler is admitted exactly when it takes a request and then arguments of the six types; else
  -- the call does not compile.
  pub make_route_iff :
      (f : Callable L)
      → (make_route_of_callable L pattern methods f ≢ none)
        ↔ ((args : List ArgType) × (f.types ≡ request ∷ map argument args))
  unfolding make_route_of_callable
  make_route_iff f = (
    sequence_some f.types f.call,
    λ (args, e).
        subst
          (λ ts.
            (call : Params L ts → Result (L.Future (Response L)))
            → make_route_of_sequence L pattern methods ts call ≢ none)
          (sym e) (λ call n. cc (n, sequence-deduced args call)) f.call,
  )
