-- ===== src/Routing/Deduction.antt =====
-- Util.h, and the overloads of make_route and make_streaming_route in Route.h: the type arguments of a
-- route are deduced from the type of its handler. Code that does not compile is `none`.
pub mod Types
pub mod Accepted
use nozomi.Common.{Option, none, some, List, [], ◌∷◌, Str, Result}
use nozomi.Libs.{Libs}
use nozomi.Http.{Request, Response}
use nozomi.Routing.Match.{BaseRoute, UserHandler, plain, streaming}
use nozomi.Routing.Params.{ArgType, Value, Values}
use nozomi.Routing.Dynamic.{make_route}

-- The type of a parameter: the object of a member function, a request, or a type of an argument.
pub data ParamType : Type 0 where
  object request : ParamType
  argument : ArgType → ParamType

-- What boost::function_types::parameter_types says of a member function: the object comes first.
abbrev pub parameter_types : List ParamType → List ParamType
parameter_types types = object ∷ types

-- make_type_sequence: all but the zeroth.
abbrev pub make_type_sequence : List ParamType → List ParamType
make_type_sequence [] = []
make_type_sequence (zeroth ∷ rest) = rest

module _ (L : Libs) where
  abbrev pub Param : ParamType → Type 0
  Param object = Unit
  Param request = Request L
  Param (argument t) = Value L t

  abbrev pub Params : List ParamType → Type 0
  Params [] = Unit
  Params (t ∷ ts) = Param t × Params ts

  -- The deduction of `HandlerArgs...`, which get_handler_args and to_RouteParamType must know.
  unfoldable pub deduce :
      (types : List ParamType) → Option ((args : List ArgType) × (Values L args → Params types))
  deduce [] = some ([], λ v. tt)
  deduce (object ∷ types) = none
  deduce (request ∷ types) = none
  deduce (argument t ∷ types) = elim (deduce types) [
    | none ↦ none
    | some (args, pass) ↦ some (t ∷ args, λ (v, vs). (v, pass vs))
  ]

-- A function, or an object with one operator(), by the types of its parameters.
pub record Callable (L : Libs) : Type 0 where
  pub types : List ParamType
  pub call : Params L types → Result (L.Future (Response L))

-- A factory of streaming handlers, with the parameters of their setRequestArgs.
pub record Maker (L : Libs) : Type 0 where
  pub types : List ParamType
  pub make : Unit {0} → Result (Option L.RequestHandler)
  pub set_request_args : L.RequestHandler → Params L types → Result L.RequestHandler

module _ (L : Libs) (pattern : Str) (methods : List L.Method) where
  -- make_route over a type_sequence<Request, HandlerArgs...>; call_handler gives it a request first.
  unfoldable pub make_route_of_sequence :
      (types : List ParamType)
      → (Params L types → Result (L.Future (Response L)))
      → Option (Result (BaseRoute L))
  unfolding deduce
  make_route_of_sequence [] call = none
  make_route_of_sequence (object ∷ types) call = none
  make_route_of_sequence (argument t ∷ types) call = none
  make_route_of_sequence (request ∷ types) call = elim (deduce L types) [
    | none ↦ none
    | some (args, pass) ↦
        some (make_route L pattern methods args (plain (λ r vs. call (r, pass vs))))
  ]

  -- make_route over a function pointer, whose first parameter is the request: `HandlerArgs...` are the
  -- others, and the route is constructed from them.
  unfoldable pub make_route_of_pointer :
      (types : List ParamType)
      → (Params L types → Result (L.Future (Response L)))
      → Option (Result (BaseRoute L))
  unfolding deduce
  make_route_of_pointer [] handler = none
  make_route_of_pointer (object ∷ types) handler = none
  make_route_of_pointer (argument t ∷ types) handler = none
  make_route_of_pointer (request ∷ types) handler = elim (deduce L types) [
    | none ↦ none
    | some (args, pass) ↦
        some (make_route L pattern methods args (plain (λ r vs. handler (r, pass vs))))
  ]

  unfoldable pub make_route_of_function : Callable L → Option (Result (BaseRoute L))
  unfolding make_route_of_pointer
  make_route_of_function f = make_route_of_pointer f.types f.call

  -- make_route over an object with an operator().
  unfoldable pub make_route_of_callable : Callable L → Option (Result (BaseRoute L))
  unfolding make_route_of_sequence
  make_route_of_callable f =
      make_route_of_sequence (make_type_sequence (parameter_types f.types)) f.call

  -- make_streaming_route over a type_sequence<HandlerArgs...>.
  unfoldable pub make_streaming_route_of_sequence :
      (types : List ParamType)
      → (Unit {0} → Result (Option L.RequestHandler))
      → (L.RequestHandler → Params L types → Result L.RequestHandler)
      → Option (Result (BaseRoute L))
  unfolding deduce
  make_streaming_route_of_sequence types make set_request_args = elim (deduce L types) [
    | none ↦ none
    | some (args, pass) ↦
        some (
          make_route L pattern methods args (streaming make (λ h vs. set_request_args h (pass vs))))
  ]

  -- make_streaming_route over a callable, by the parameters of setRequestArgs.
  unfoldable pub make_streaming_route : Maker L → Option (Result (BaseRoute L))
  unfolding make_streaming_route_of_sequence
  make_streaming_route m =
      make_streaming_route_of_sequence (make_type_sequence (parameter_types m.types)) m.make
        m.set_request_args

  -- make_streaming_route over a function pointer, which calls the one over a callable with it.
  unfoldable pub make_streaming_route_of_function : Maker L → Option (Result (BaseRoute L))
  unfolding make_streaming_route
  make_streaming_route_of_function m = make_streaming_route m
