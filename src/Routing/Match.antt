-- ===== src/Routing/Match.antt =====
-- RouteMatch.h, BaseRoute.h, and what StaticRoute-inl.h and Route-inl.h share: the handlers that a
-- user registers and the closures that a match carries. A DCHECK is a theorem, not a test.
use nozomi.Common.{
  [], ◌≡◌, ◌↔◌, Bool, true, false, ◌&&◌, ◌||◌, Option, none, some, List, ◌∷◌, holds, is_set, any,
  Str, Result, ok, err, arith, if◌then◌else◌, not, some_inj, ℕ, ◌+◌, refl, ap, ◌∙◌, inl, inr,
  length, Result-cases,
}
use nozomi.Libs.{Libs}
use nozomi.Http.{Request, Response}

pub data RouteMatchResult : Type 0 where
  path_not_matched method_not_matched route_matched : RouteMatchResult

module _ (L : Libs) where
  -- std::function<Future<HTTPResponse>(const HTTPRequest&)>
  abbrev pub Handler : Type 0
  Handler = Request L → Result (L.Future (Response L))

  -- A call of a streaming handler: the pointer it returns, and the objects it has deleted.
  pub record Started : Type 0 where
    pub returned : Option L.RequestHandler
    pub deleted : List L.RequestHandler

  abbrev pub StreamingHandler : Type 0
  StreamingHandler = Unit {0} → Started

  pub record RouteMatch : Type 0 where
    pub result : RouteMatchResult
    pub handler : Option Handler
    pub streaming_handler : Option StreamingHandler

  -- class BaseRoute: `handler` is the virtual method.
  pub record BaseRoute : Type 0 where
    pub original_pattern : Str
    pub methods : List L.Method
    pub is_static_route : Bool
    pub handler : L.Message → RouteMatch

  -- What a user registers for arguments of type `A`: a callable, or a factory of streaming handlers
  -- with the `setRequestArgs` of what it makes. Each of them may throw.
  pub data UserHandler (A : Type 0) : Type 0 where
    plain : (Request L → A → Result (L.Future (Response L))) → UserHandler A
    streaming :
        (Unit {0} → Result (Option L.RequestHandler))
        → (L.RequestHandler → A → Result L.RequestHandler)
        → UserHandler A

module _ (L : Libs) where
  -- The constructors of RouteMatch: with no handler, with one, and with a streaming one.
  abbrev pub no_match : RouteMatchResult → RouteMatch L
  no_match result = record { result = result; handler = none; streaming_handler = none }

  abbrev pub match_with : RouteMatchResult → Handler L → RouteMatch L
  match_with result handler = record {
    result = result;
    handler = some handler;
    streaming_handler = none;
  }

  abbrev pub match_streaming : RouteMatchResult → StreamingHandler L → RouteMatch L
  match_streaming result handler = record {
    result = result;
    handler = none;
    streaming_handler = some handler;
  }

  -- `methods_.find(method) != methods_.end()`
  unfoldable pub accepts : List L.Method → L.Method → Bool
  accepts methods method = any (λ m. holds (L.Method-discrete m method)) methods

  -- The body of the closure of a streaming match: make the object, hand it its arguments, and
  -- delete it if that throws.
  unfoldable pub start :
      Result (Option L.RequestHandler) → (L.RequestHandler → Result L.RequestHandler) → Started L
  start (err e) set_args = record { returned = none; deleted = [] }
  start (ok none) set_args = record { returned = none; deleted = [] }
  start (ok (some made)) set_args = elim (set_args made) [
    | ok ready ↦ record { returned = some ready; deleted = [] }
    | err e ↦ record { returned = none; deleted = made ∷ [] }
  ]

  -- A match carries a handler exactly when the route matched, and never two.
  abbrev pub IsConsistent : RouteMatch L → Type 0
  IsConsistent m =
      ((m.result ≡ route_matched) ↔ ((is_set m.handler || is_set m.streaming_handler) ≡ true))
      × ((is_set m.handler && is_set m.streaming_handler) ≡ false)

  abbrev pub IsMatched : L.Message → BaseRoute L → Type 0
  IsMatched message route = (route.handler message).result ≡ route_matched

module _ (L : Libs) where
  -- The shape of every route's `handler`: a test of the path, then one of the method.
  abbrev pub guarded : Bool → Bool → RouteMatch L → RouteMatch L
  guarded path_ok method_ok match =
      if not path_ok
      then no_match L path_not_matched
      else if not method_ok
      then no_match L method_not_matched
      else match

  pub guarded-result :
      (p q : Bool) (m : RouteMatch L)
      → m.result ≡ route_matched
      → let answer = (guarded p q m).result in
        ((answer ≡ route_matched) ↔ ((p ≡ true) × (q ≡ true)))
        × ((answer ≡ method_not_matched) ↔ ((p ≡ true) × (q ≡ false)))
        × ((answer ≡ path_not_matched) ↔ (p ≡ false))
  guarded-result false q m h = ground arith
  guarded-result true false m h = ground arith
  guarded-result true true m h = ground arith

  pub guarded-IsConsistent :
      (p q : Bool) (m : RouteMatch L) → IsConsistent L m → IsConsistent L (guarded p q m)
  guarded-IsConsistent false q m h = ground arith
  guarded-IsConsistent true false m h = ground arith
  guarded-IsConsistent true true m h = h

module _ (L : Libs) where
  abbrev pub made_count : Result (Option L.RequestHandler) → ℕ
  made_count (ok (some made)) = 1
  made_count _ = 0

  abbrev pub returned_count : Started L → ℕ
  returned_count s = if is_set s.returned then 1 else 0

  -- A streaming handler that was made is either returned, which is when it took its arguments, or
  -- deleted, and never both; nothing else is returned or deleted.
  pub start_conserves :
      (made : Result (Option L.RequestHandler))
      (set_args : L.RequestHandler → Result L.RequestHandler)
      → (returned_count (start L made set_args) + length (start L made set_args).deleted
          ≡ made_count made)
        × ((ready : L.RequestHandler)
            → ((start L made set_args).returned ≡ some ready)
              ↔ ((h : L.RequestHandler) × (made ≡ ok (some h)) × (set_args h ≡ ok ready)))
  unfolding start
  start_conserves (err e) set_args = (refl, λ ready. (λ h. cc, λ (h, p, q). cc))
  start_conserves (ok none) set_args = (refl, λ ready. (λ h. cc, λ (h, p, q). cc))
  start_conserves (ok (some made)) set_args = elim (Result-cases (set_args made)) [
    | inl (r, e) ↦
        rw (e, start) (refl, λ ready. (λ h. (made, refl, e ∙ ap ok (some_inj h)), λ (h, p, q). cc))
    | inr (x, e) ↦ rw (e, start) (refl, λ ready. (λ h. cc, λ (h, p, q). cc))
  ]
