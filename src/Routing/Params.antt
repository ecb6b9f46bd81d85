-- ===== src/Routing/Params.antt =====
-- RouteParsing.h, with the `to_string` of RouteParsing.cpp: the types of a route's parameters, and
-- the arguments that a handler gets out of a match.
pub mod Conversions
use nozomi.Common.{
  [], ℕ, ◌+◌, ◌≡◌, refl, sym, ap, ◌∙◌, Option, none, some, List, ◌∷◌, ◌++◌, map, append-nil,
  append_assoc, value_or, Str, codes, Result, ok, ◌>>=◌, catch, ℤ, pos, int64_max,
}
use nozomi.Libs.{Libs}

pub data RouteParamType : Type 0 where
  int64 double string optional_int64 optional_double optional_string : RouteParamType

pub to_string : RouteParamType → Str
to_string int64 = codes "Int64"
to_string double = codes "Double"
to_string string = codes "String"
to_string optional_int64 = codes "OptionalInt64"
to_string optional_double = codes "OptionalDouble"
to_string optional_string = codes "OptionalString"

-- The C++ types that a handler may take: int64_t, double, std::string, and folly::Optional of them.
pub data Scalar : Type 0 where
  int64_type double_type string_type : Scalar

pub data ArgType : Type 0 where
  plain optional : Scalar → ArgType

unfoldable pub to_route_param_type : ArgType → RouteParamType
to_route_param_type (plain int64_type) = int64
to_route_param_type (optional int64_type) = optional_int64
to_route_param_type (plain double_type) = double
to_route_param_type (optional double_type) = optional_double
to_route_param_type (plain string_type) = string
to_route_param_type (optional string_type) = optional_string

-- The two templates of parse_function_parameters that push onto `params`.
push_parameters : List ArgType → List RouteParamType → List RouteParamType
push_parameters [] params = params
push_parameters (arg ∷ args) params = push_parameters args (params ++ to_route_param_type arg ∷ [])

pub parse_function_parameters : List ArgType → List RouteParamType
unfolding push_parameters
parse_function_parameters args = push_parameters args []

-- `sub_match::str()`
abbrev pub text : Option Str → Str
text m = value_or m []

module _ (L : Libs) where
  abbrev pub ScalarValue : Scalar → Type 0
  ScalarValue int64_type = ℤ
  ScalarValue double_type = L.Double
  ScalarValue string_type = Str

  abbrev pub Value : ArgType → Type 0
  Value (plain t) = ScalarValue t
  Value (optional t) = Option (ScalarValue t)

  -- The arguments of a handler, in order.
  abbrev pub Values : List ArgType → Type 0
  Values [] = Unit
  Values (t ∷ ts) = Value t × Values ts

  -- `matches[sformat("__{}", N)]`
  unfoldable pub parameter : ℕ → L.Matches → Option Str
  parameter n matches = L.group matches (codes "__" ++ L.format_int (pos n))

  -- The conversion of a matched text; only that of an integer swallows exceptions.
  unfoldable pub convert : (t : Scalar) → Str → Result (ScalarValue t)
  convert int64_type s = ok (catch (L.to_int64 s) (λ _. int64_max))
  convert double_type s = L.to_double s
  convert string_type s = ok s

  unfoldable pub convert_optional : (t : Scalar) → Option Str → Result (Option (ScalarValue t))
  convert_optional t none = ok none
  convert_optional t (some s) = do v ← convert t s; ok (some v)

  -- get_handler_args, in its six specialisations.
  unfoldable pub get_handler_args : (t : ArgType) → ℕ → L.Matches → Result (Value t)
  unfolding convert_optional
  get_handler_args (plain t) n matches = convert t (text (parameter n matches))
  get_handler_args (optional t) n matches = convert_optional t (parameter n matches)

  -- `get_handler_args<N, HandlerArgs>(matches)...` from the n-th parameter on.
  unfoldable pub get_all_args : (ts : List ArgType) → ℕ → L.Matches → Result (Values ts)
  get_all_args [] n matches = ok tt
  get_all_args (t ∷ ts) n matches = do
    v ← get_handler_args t n matches
    vs ← get_all_args ts (n + 1) matches
    ok (v, vs)

push_parameters_lem :
    (args : List ArgType) (params : List RouteParamType)
    → push_parameters args params ≡ params ++ map to_route_param_type args
unfolding push_parameters
push_parameters_lem [] params = sym (append-nil params)
push_parameters_lem (a ∷ args) params =
    push_parameters_lem args (params ++ to_route_param_type a ∷ []) ∙ append_assoc params _ _

-- The function parameters are the types of the arguments, in order.
pub parse_function_parameters-map :
    (args : List ArgType) → parse_function_parameters args ≡ map to_route_param_type args
unfolding parse_function_parameters
parse_function_parameters-map args = push_parameters_lem args []

arg_type : RouteParamType → ArgType
arg_type int64 = plain int64_type
arg_type double = plain double_type
arg_type string = plain string_type
arg_type optional_int64 = optional int64_type
arg_type optional_double = optional double_type
arg_type optional_string = optional string_type

arg_type-to_route_param_type : (t : ArgType) → arg_type (to_route_param_type t) ≡ t
unfolding arg_type to_route_param_type
arg_type-to_route_param_type (plain t) =
    elim t as (λ t. arg_type (to_route_param_type (plain t)) ≡ plain t) [
      | int64_type ↦ refl
      | double_type ↦ refl
      | string_type ↦ refl
    ]
arg_type-to_route_param_type (optional t) =
    elim t as (λ t. arg_type (to_route_param_type (optional t)) ≡ optional t) [
      | int64_type ↦ refl
      | double_type ↦ refl
      | string_type ↦ refl
    ]

pub map-to_route_param_type-injective :
    (ss ts : List ArgType) → map to_route_param_type ss ≡ map to_route_param_type ts → ss ≡ ts
map-to_route_param_type-injective ss ts h = sym (inverse ss) ∙ ap (map arg_type) h ∙ inverse ts
  where
    inverse : (ts : List ArgType) → map arg_type (map to_route_param_type ts) ≡ ts
    inverse [] = refl
    inverse (t ∷ ts) = cc (arg_type-to_route_param_type t, inverse ts)
