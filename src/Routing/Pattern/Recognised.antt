-- ===== src/Routing/Pattern/Recognised.antt =====
-- What `parameter_expression` matches at a parameter of a documented pattern.
use nozomi.Common.{
  ℕ, ◌≡◌, refl, sym, subst, ◌≢◌, none, some, [], ◌∷◌, ◌++◌, append_assoc, arith, Str, codes,
}
use nozomi.Routing.Pattern.Texts.{opened}
use nozomi.Routing.Pattern.Template.{
  Parameter, int_param, double_param, optional_int_param, optional_double_param, string_param,
  optional_string_param, needle_of, after_colon,
}
use nozomi.Routing.Pattern.Expression.{
  Captures, Next, strip, taken, run, parameter_expression, consumed_as, exactly, followed,
}
use nozomi.Routing.Pattern.Lazily.{
  IsUnended, IsUnended-tail, HasNoColon, taken-append, strip-unended, lazily_first, consumed_group,
  consumed-run, string-run,
}

-- The groups of a match at a parameter.
abbrev pub groups_of : Parameter → Captures
groups_of int_param = (codes "int", codes "{{i}}") ∷ []
groups_of double_param = (codes "double", codes "{{d}}") ∷ []
groups_of (optional_int_param c) =
    (codes "optional_int", opened (needle_of (optional_int_param c)))
    ∷ consumed_group (codes "optional_int_regex") c []
groups_of (optional_double_param c) =
    (codes "optional_double", opened (needle_of (optional_double_param c)))
    ∷ consumed_group (codes "optional_double_regex") c []
groups_of (string_param v) =
    (codes "string", opened (needle_of (string_param v))) ∷ (codes "string_regex", v) ∷ []
groups_of (optional_string_param v c) =
    (codes "optional_string", opened (needle_of (optional_string_param v c)))
    ∷ consumed_group (codes "optional_string_consumed") c ((codes "optional_string_regex", v) ∷ [])

-- A parameter that is read as it is written: no `}}` begins in its value or its consumed text, the value
-- is not empty, and that of an optional text has no colon.
abbrev pub IsReadable : Parameter → Type 0
IsReadable int_param = Unit
IsReadable double_param = Unit
IsReadable (optional_int_param c) = IsUnended c
IsReadable (optional_double_param c) = IsUnended c
IsReadable (string_param v) = (v ≢ []) × IsUnended v
IsReadable (optional_string_param v c) = (v ≢ []) × (IsUnended v × HasNoColon v) × IsUnended c

abbrev pub done : Next
done rest groups = some (groups, rest)

abbrev pub Found : Parameter → Str → Str → Type 0
Found p s t = run parameter_expression s [] done ≡ some (groups_of p, t)

Found-optional_int :
    (c t : Str)
    → IsUnended c
    → Found (optional_int_param c) (codes "{{i?" ++ (after_colon c ++ (codes "}}" ++ t))) t
Found-optional_int c t h =
    rw
      (consumed-run (codes "optional_int_regex") c t []
        (λ s' groups'. done s' (
          (codes "optional_int", taken (codes "{{i?" ++ (after_colon c ++ (codes "}}" ++ t))) s')
          ∷ groups'))
        (groups_of (optional_int_param c), t) h
        (rw
          (taken-append (opened (needle_of (optional_int_param c))) t
            (codes "{{i?" ++ (after_colon c ++ (codes "}}" ++ t))) (simp append_assoc))
          refl))
      refl

Found-optional_double :
    (c t : Str)
    → IsUnended c
    → Found (optional_double_param c) (codes "{{d?" ++ (after_colon c ++ (codes "}}" ++ t))) t
Found-optional_double c t h =
    rw
      (consumed-run (codes "optional_double_regex") c t []
        (λ s' groups'. done s' (
          (codes "optional_double", taken (codes "{{d?" ++ (after_colon c ++ (codes "}}" ++ t))) s')
          ∷ groups'))
        (groups_of (optional_double_param c), t) h
        (rw
          (taken-append (opened (needle_of (optional_double_param c))) t
            (codes "{{d?" ++ (after_colon c ++ (codes "}}" ++ t))) (simp append_assoc))
          refl))
      refl

Found-string :
    (v t : Str)
    → v ≢ []
    → IsUnended v
    → Found (string_param v) (codes "{{s:" ++ (v ++ (codes "}}" ++ t))) t
Found-string v t some_text h =
    rw
      (string-run v t []
        (λ s' groups'.
          done s' ((codes "string", taken (codes "{{s:" ++ (v ++ (codes "}}" ++ t))) s') ∷ groups'))
        (groups_of (string_param v), t) some_text h
        (rw
          (taken-append (opened (needle_of (string_param v))) t
            (codes "{{s:" ++ (v ++ (codes "}}" ++ t))) (simp append_assoc))
          refl))
      refl

abbrev IsValue : Str → Type 0
IsValue v = IsUnended v × HasNoColon v

IsValue-tail : (c : ℕ) (b : Str) → IsValue (c ∷ b) → IsValue b
IsValue-tail c b (h, (_, n)) = (IsUnended-tail c b h, n)

-- Neither a colon nor the end stands where a value goes on.
strip-value : (c : ℕ) (b rest : Str) → c ≢ b':' → strip (codes ":") ((c ∷ b) ++ rest) ≡ none
strip-value c b rest h = ground arith

strip-within :
    (x c : Str) (d : ℕ) (b t : Str)
    → IsUnended (d ∷ b)
    → strip (codes "}}") ((d ∷ b) ++ (after_colon c ++ (codes "}}" ++ t))) ≡ none
strip-within x [] d b t h = strip-unended d b t h
strip-within x (y ∷ c) d [] t h = ground arith
strip-within x (y ∷ c) d (e ∷ b) t (h, _) = ground arith

Found-optional_string :
    (v c t : Str)
    → v ≢ []
    → IsValue v
    → IsUnended c
    → Found
        (optional_string_param v c)
        (codes "{{s?:" ++ (v ++ (after_colon c ++ (codes "}}" ++ t))))
        t
Found-optional_string v c t some_text h k =
    let whole = codes "{{s?:" ++ (v ++ (after_colon c ++ (codes "}}" ++ t))) in
    let close : Next =
      λ s' groups'. done s' ((codes "optional_string", taken whole s') ∷ groups') in
    let rest = after_colon c ++ (codes "}}" ++ t) in
    rw
      (lazily_first IsValue IsValue-tail v rest []
        (λ s' groups'.
          run (followed (consumed_as (codes "optional_string_consumed")) (exactly (codes "}}"))) s'
            ((codes "optional_string_regex", taken (v ++ rest) s') ∷ groups') close)
        (groups_of (optional_string_param v c), t) some_text h
        (λ d b (p, (n, _)). rw (strip-value d b rest n, strip-within [] c d b t p, run) refl)
        (subst
          (λ w.
            run (followed (consumed_as (codes "optional_string_consumed")) (exactly (codes "}}")))
              rest ((codes "optional_string_regex", w) ∷ []) close
            ≡ some (groups_of (optional_string_param v c), t))
          (sym (taken-append v rest (v ++ rest) refl))
          (consumed-run (codes "optional_string_consumed") c t
            ((codes "optional_string_regex", v) ∷ []) close
            (groups_of (optional_string_param v c), t) k
            (rw
              (taken-append (opened (needle_of (optional_string_param v c))) t whole
                (simp append_assoc))
              refl))))
      refl

-- A parameter, with the text behind it.
read_text : Parameter → Str → Str
read_text int_param t = codes "{{i}}" ++ t
read_text double_param t = codes "{{d}}" ++ t
read_text (optional_int_param c) t = codes "{{i?" ++ (after_colon c ++ (codes "}}" ++ t))
read_text (optional_double_param c) t = codes "{{d?" ++ (after_colon c ++ (codes "}}" ++ t))
read_text (string_param v) t = codes "{{s:" ++ (v ++ (codes "}}" ++ t))
read_text (optional_string_param v c) t =
    codes "{{s?:" ++ (v ++ (after_colon c ++ (codes "}}" ++ t)))

read_text_lem : (p : Parameter) (t : Str) → read_text p t ≡ opened (needle_of p) ++ t
unfolding read_text
read_text_lem int_param t = refl
read_text_lem double_param t = refl
read_text_lem (optional_int_param c) t = simp append_assoc
read_text_lem (optional_double_param c) t = simp append_assoc
read_text_lem (string_param v) t = simp append_assoc
read_text_lem (optional_string_param v c) t = simp append_assoc

Found-read_text : (p : Parameter) (t : Str) → IsReadable p → Found p (read_text p t) t
unfolding read_text
Found-read_text int_param t h = rw (taken-append (codes "{{i}}") t (codes "{{i}}" ++ t) refl) refl
Found-read_text double_param t h =
    rw (taken-append (codes "{{d}}") t (codes "{{d}}" ++ t) refl) refl
Found-read_text (optional_int_param c) t h = Found-optional_int c t h
Found-read_text (optional_double_param c) t h = Found-optional_double c t h
Found-read_text (string_param v) t (some_text, h) = Found-string v t some_text h
Found-read_text (optional_string_param v c) t (some_text, h, k) =
    Found-optional_string v c t some_text h k

-- At a parameter that is written, the expression matches it, and no more.
pub Found-parameter :
    (p : Parameter) (t : Str) → IsReadable p → Found p (opened (needle_of p) ++ t) t
Found-parameter p t h = subst (λ s. Found p s t) (read_text_lem p t) (Found-read_text p t h)

-- It matches nowhere else.
abbrev pub Misses : Str → Type 0
Misses s = (w : Str) → strip (b'{' ∷ b'{' ∷ w) s ≡ none

pub missed : (s : Str) → Misses s → run parameter_expression s [] done ≡ none
missed s h =
    rw
      (
        h (codes "i}}"),
        h (codes "i?"),
        h (codes "d}}"),
        h (codes "d?"),
        h (codes "s:"),
        h (codes "s?:"),
      )
      refl
