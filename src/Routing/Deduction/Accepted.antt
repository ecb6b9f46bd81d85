-- ===== src/Routing/Deduction/Accepted.antt =====
-- Which handlers a route over a documented pattern is made for.
use nozomi.Common.{
  ◌≡◌, refl, sym, ap, subst, ◌∙◌, ◌↔◌, inl, inr, Option, some, List, [], ◌∷◌, map, All, Str, Result,
  ok,
}
use nozomi.Libs.{Libs}
use nozomi.Http.{Response}
use nozomi.Routing.Match.{BaseRoute, plain}
use nozomi.Routing.Params.{ArgType, to_route_param_type}
use nozomi.Routing.Pattern.{route_parser}
use nozomi.Routing.Pattern.Template.{Template, write, expand, IsPlain, PrintsDigits}
use nozomi.Routing.Pattern.Parsing.{HasRegexValue, types_of}
use nozomi.Routing.Pattern.Texts.{IsClosed}
use nozomi.Routing.Pattern.Scanned.{IsClear}
use nozomi.Routing.Pattern.Documented.{FindsAll, finds-ReportsAll}
use nozomi.Routing.Dynamic.Arguments.{make_route-write}
use nozomi.Routing.Deduction.{
  ParamType, object, request, argument, Params, Callable, make_route_of_sequence,
  make_route_of_pointer, make_route_of_function, make_route_of_callable,
}
use nozomi.Routing.Deduction.Types.{as_params, sequence-deduced, sequence_some}

module _ (L : Libs) (methods : List L.Method) (template : Template) (tail : Str) where
  abbrev pattern : Str
  pattern = write template tail

  -- The handler takes a request, and then the types that the pattern writes.
  abbrev pub IsFit : List ParamType → Type 0
  IsFit types =
      (args : List ArgType) × (types ≡ request ∷ map argument args)
      × (types_of L template ≡ map to_route_param_type args)

  abbrev pub IsMade : Option (Result (BaseRoute L)) → Type 0
  IsMade r = (route : BaseRoute L) × (r ≡ some (ok route))

  pointer_lem :
      (types : List ParamType) (call : Params L types → Result (L.Future (Response L)))
      → make_route_of_pointer L pattern methods types call
        ≡ make_route_of_sequence L pattern methods types call
  unfolding make_route_of_pointer make_route_of_sequence
  pointer_lem [] call = refl
  pointer_lem (object ∷ types) call = refl
  pointer_lem (argument t ∷ types) call = refl
  pointer_lem (request ∷ types) call = refl

  module _ (parser regex : L.Regex) (digits : PrintsDigits L) (finds : FindsAll L)
      (compiled : L.compile route_parser ≡ ok parser) (plain_texts : All IsPlain template)
      (clear : All IsClear template) (closed : IsClosed tail)
      (valid : All (HasRegexValue L) template)
      (expanded : L.compile (expand L 0 template tail) ≡ ok regex) where
    written_iff :
        (args : List ArgType)
        (call : Params L (request ∷ map argument args) → Result (L.Future (Response L)))
        → IsMade (make_route_of_sequence L pattern methods (request ∷ map argument args) call)
          ↔ (types_of L template ≡ map to_route_param_type args)
    written_iff args call =
        let same = sequence-deduced L pattern methods args call in
        elim (make_route-write L template tail parser regex methods args
          (plain (λ r vs. call (r, as_params L args vs))) digits compiled
          (finds-ReportsAll L template tail parser finds compiled clear closed) plain_texts valid
          expanded) [
            | inl (fit, made) ↦ (λ _. fit, λ _. (_, same ∙ ap some made))
            | inr (unfit, (text, refused)) ↦
                (λ (route, e). cc (e, same, refused), λ fit. absurd (unfit fit))
          ]

    sequence_iff :
        (types : List ParamType) (call : Params L types → Result (L.Future (Response L)))
        → IsMade (make_route_of_sequence L pattern methods types call) ↔ IsFit types
    sequence_iff types call = (
      λ (route, e).
          let (args, shape) =
            sequence_some L pattern methods types call (λ missing. cc (e, missing)) in
          (args, shape, (transported args shape call).0 (route, e)),
      λ (args, shape, fit). (transported args shape call).1 fit,
    )
      where
        transported :
            (args : List ArgType)
            → types ≡ request ∷ map argument args
            → (call : Params L types → Result (L.Future (Response L)))
            → IsMade (make_route_of_sequence L pattern methods types call)
              ↔ (types_of L template ≡ map to_route_param_type args)
        transported args shape =
            subst
              (λ ts.
                (call : Params L ts → Result (L.Future (Response L)))
                → IsMade (make_route_of_sequence L pattern methods ts call)
                  ↔ (types_of L template ≡ map to_route_param_type args))
              (sym shape) (written_iff args)

    -- A handler of a documented pattern, whatever the types of its parameters: the overload for an object
    -- and that for a function pointer compile and make a route exactly when the handler takes a request
    -- first, and then arguments of the types of the parameters of the pattern, in order; every other
    -- handler is refused, by the compiler or by an exception.
    -- The assumptions are those of `parse_route_pattern-expand`, and that the expression compiles.
    pub make_route-IsMade_iff :
        (f : Callable L)
        → (IsMade (make_route_of_callable L pattern methods f) ↔ IsFit f.types)
          × (IsMade (make_route_of_function L pattern methods f) ↔ IsFit f.types)
    unfolding make_route_of_callable make_route_of_function
    make_route-IsMade_iff f = (
      sequence_iff f.types f.call,
      subst (λ r. IsMade r ↔ IsFit f.types) (sym (pointer_lem f.types f.call))
          (sequence_iff f.types f.call),
    )
