-- ===== src/Routing/Params/Conversions.antt =====
-- What get_handler_args makes of the groups of a match, and when it throws.
use nozomi.Common.{
  Result-cases, ℕ, ◌+◌, ◌≡◌, refl, sym, subst, ◌≢◌, ◌⊎◌, inl, inr, Option, none, some, List, [],
  ◌∷◌, All, Str, Exception, Result, ok, err, ℤ, int64_max,
}
use nozomi.Libs.{Libs}
use nozomi.Routing.Params.{
  Scalar, int64_type, double_type, string_type, ArgType, optional, Values, Value, ScalarValue,
  parameter, text, convert, convert_optional, get_handler_args, get_all_args,
}

module _ (L : Libs) where
  -- A conversion of a captured text; only a double can fail.
  abbrev pub IsInfallible : ArgType → Type 0
  IsInfallible (ArgType.plain t) = t ≢ double_type
  IsInfallible (optional t) = t ≢ double_type

  -- What an argument is, given what its group has captured: a number that does not fit becomes the
  -- largest one, and an optional that was not captured is empty.
  abbrev ScalarOf : (t : Scalar) → Str → ScalarValue L t → Type 0
  ScalarOf int64_type s v =
      ((n : ℤ) × (L.to_int64 s ≡ ok n) × (v ≡ n))
      ⊎ ((e : Exception) × (L.to_int64 s ≡ err e) × (v ≡ int64_max))
  ScalarOf double_type s v = L.to_double s ≡ ok v
  ScalarOf string_type s v = v ≡ s

  abbrev pub IsArgument : (t : ArgType) → Option Str → Value L t → Type 0
  IsArgument (ArgType.plain t) captured v = ScalarOf t (text captured) v
  IsArgument (optional t) none v = v ≡ none
  IsArgument (optional t) (some s) v = (w : ScalarValue L t) × (v ≡ some w) × ScalarOf t s w

  -- The i-th argument comes from the group `__i`.
  abbrev pub AreArguments : (args : List ArgType) → ℕ → L.Matches → Values L args → Type 0
  AreArguments [] n matches vs = Unit
  AreArguments (t ∷ ts) n matches vs =
      IsArgument t (parameter L n matches) vs.0 × AreArguments ts (n + 1) matches vs.1

  -- A conversion that throws: only that of a double passes its exception on.
  abbrev ScalarFails : Scalar → Str → Exception → Type 0
  ScalarFails double_type s e = L.to_double s ≡ err e
  ScalarFails int64_type s e = ⊥
  ScalarFails string_type s e = ⊥

  abbrev pub IsFailure : ArgType → Option Str → Exception → Type 0
  IsFailure (ArgType.plain t) captured e = ScalarFails t (text captured) e
  IsFailure (optional t) none e = ⊥
  IsFailure (optional t) (some s) e = ScalarFails t s e

  -- The exception of the first argument that cannot be converted.
  abbrev pub IsFirstFailure : List ArgType → ℕ → L.Matches → Exception → Type 0
  IsFirstFailure [] n matches e = ⊥
  IsFirstFailure (t ∷ ts) n matches e =
      IsFailure t (parameter L n matches) e
      ⊎ ((v : Value L t) × IsArgument t (parameter L n matches) v
          × IsFirstFailure ts (n + 1) matches e)

  convert-cases :
      (t : Scalar) (s : Str)
      → ((v : ScalarValue L t) × (convert L t s ≡ ok v) × ScalarOf t s v)
        ⊎ ((e : Exception) × (convert L t s ≡ err e) × ScalarFails t s e)
  unfolding convert
  convert-cases int64_type s = elim (Result-cases (L.to_int64 s)) [
    | inl (n, e) ↦ inl (n, rw e, inl (n, e, refl))
    | inr (x, e) ↦ inl (int64_max, rw e, inr (x, e, refl))
  ]
  convert-cases double_type s = elim (Result-cases (L.to_double s)) [
    | inl (v, e) ↦ inl (v, e, e)
    | inr (x, e) ↦ inr (x, e, e)
  ]
  convert-cases string_type s = inl (s, refl, refl)

  convert_optional-cases :
      (t : Scalar) (captured : Option Str)
      → ((v : Option (ScalarValue L t)) × (convert_optional L t captured ≡ ok v)
          × IsArgument (optional t) captured v)
        ⊎ ((e : Exception) × (convert_optional L t captured ≡ err e)
            × IsFailure (optional t) captured e)
  unfolding convert_optional
  convert_optional-cases t none = inl (none, refl, refl)
  convert_optional-cases t (some s) = elim (convert-cases t s) [
    | inl (w, e, is) ↦ inl (some w, rw e, (w, refl, is))
    | inr (x, e, fails) ↦ inr (x, rw e, fails)
  ]

  get_handler_args-cases :
      (t : ArgType) (n : ℕ) (matches : L.Matches)
      → ((v : Value L t) × (get_handler_args L t n matches ≡ ok v)
          × IsArgument t (parameter L n matches) v)
        ⊎ ((e : Exception) × (get_handler_args L t n matches ≡ err e)
            × IsFailure t (parameter L n matches) e)
  unfolding get_handler_args
  get_handler_args-cases (ArgType.plain t) n matches = convert-cases t _
  get_handler_args-cases (optional t) n matches = convert_optional-cases t (parameter L n matches)

  get_all_args-cases :
      (args : List ArgType) (n : ℕ) (matches : L.Matches)
      → ((vs : Values L args) × (get_all_args L args n matches ≡ ok vs)
          × AreArguments args n matches vs)
        ⊎ ((e : Exception) × (get_all_args L args n matches ≡ err e)
            × IsFirstFailure args n matches e)
  unfolding get_all_args
  get_all_args-cases [] n matches = inl (tt, refl, tt)
  get_all_args-cases (t ∷ ts) n matches = elim (get_handler_args-cases t n matches) [
    | inr (x, e, fails) ↦ inr (x, rw e, inl fails)
    | inl (v, e, is) ↦ elim (get_all_args-cases ts (n + 1) matches) [
      | inl (vs, es, are) ↦ inl ((v, vs), rw (e, es), (is, are))
      | inr (x, es, fails) ↦ inr (x, rw (e, es), inr (v, is, fails))
    ]
  ]

  -- What the conversion of the arguments gives: their values, or the first exception.
  abbrev pub IsConversion : (args : List ArgType) → L.Matches → Result (Values L args) → Type 0
  IsConversion args matches (ok vs) = AreArguments args 0 matches vs
  IsConversion args matches (err e) = IsFirstFailure args 0 matches e

  pub get_all_args-IsConversion :
      (args : List ArgType) (matches : L.Matches)
      → IsConversion args matches (get_all_args L args 0 matches)
  get_all_args-IsConversion args matches = elim (get_all_args-cases args 0 matches) [
    | inl (vs, e, are) ↦ subst (IsConversion args matches) (sym e) are
    | inr (x, e, fails) ↦ subst (IsConversion args matches) (sym e) fails
  ]

  -- Arguments of the other types convert.
  pub infallible_converts :
      (args : List ArgType) (n : ℕ) (matches : L.Matches) (e : Exception)
      → All IsInfallible args
      → ¬ IsFirstFailure args n matches e
  infallible_converts [] n matches e h fails = fails
  infallible_converts (t ∷ ts) n matches e (h, hs) (inl fails) =
      infallible_argument t (parameter L n matches) e h fails
    where
      infallible_scalar :
          (t : Scalar) (s : Str) (e : Exception) → t ≢ double_type → ¬ ScalarFails t s e
      infallible_scalar double_type s e h fails = h refl
      infallible_scalar int64_type s e h fails = fails
      infallible_scalar string_type s e h fails = fails

      infallible_argument :
          (t : ArgType) (captured : Option Str) (e : Exception)
          → IsInfallible t
          → ¬ IsFailure t captured e
      infallible_argument (ArgType.plain t) captured e h fails =
          infallible_scalar t (text captured) e h fails
      infallible_argument (optional t) none e h fails = fails
      infallible_argument (optional t) (some s) e h fails = infallible_scalar t s e h fails
  infallible_converts (t ∷ ts) n matches e (h, hs) (inr (v, is, fails)) =
      infallible_converts ts (n + 1) matches e hs fails
