-- ===== src/Routing/Pattern/Lazily.antt =====
-- Lazy groups, and the optional consumed text: where they end.
use nozomi.Common.{
  ℕ, ◌≡◌, refl, ap, ◌∙◌, ◌≢◌, none, some, [], ◌∷◌, ◌++◌, arith, take, length-append,
  take-length-append, All, Str, codes,
}
use nozomi.Routing.Pattern.Template.{after_colon}
use nozomi.Routing.Pattern.Expression.{
  Captures, Next, or_else, strip, run_lazily, taken, run, consumed_as, lazily, exactly, followed,
  named,
}

-- No `}}` begins in the text, whatever follows it.
abbrev pub IsUnended : Str → Type 0
IsUnended [] = Unit
IsUnended (c ∷ []) = c ≢ b'}'
IsUnended (c ∷ d ∷ s) = (¬ ((c ≡ b'}') × (d ≡ b'}'))) × IsUnended (d ∷ s)

pub IsUnended-tail : (c : ℕ) (s : Str) → IsUnended (c ∷ s) → IsUnended s
IsUnended-tail c [] h = tt
IsUnended-tail c (d ∷ s) (_, h) = h

-- No colon stands in the text.
abbrev pub HasNoColon : Str → Type 0
HasNoColon s = All (λ c. c ≢ b':') s

pub taken-append : (w t s : Str) → s ≡ w ++ t → taken s t ≡ w
taken-append w t s e =
    rw e (ap (λ n. take n (w ++ t)) (omega (arith, length-append w t)) ∙ take-length-append w t)

pub strip-unended :
    (c : ℕ) (b t : Str)
    → IsUnended (c ∷ b)
    → strip (codes "}}") ((c ∷ b) ++ (codes "}}" ++ t)) ≡ none
strip-unended c [] t h = ground arith
strip-unended c (d ∷ b) t (h, _) = ground arith

-- A lazy group ends where the text behind it first goes on.
pub lazily_first :
    (P : Str → Type 0)
    → ((c : ℕ) (b : Str) → P (c ∷ b) → P b)
    → (v t : Str) (groups : Captures) (next : Next) (r : Captures × Str) → v ≢ []
    → P v
    → ((c : ℕ) (b : Str) → P (c ∷ b) → next ((c ∷ b) ++ t) groups ≡ none)
    → next t groups ≡ some r
    → run_lazily (v ++ t) groups next ≡ some r
lazily_first P tail [] t groups next r some_text p fails e = absurd (some_text refl)
lazily_first P tail (c ∷ []) t groups next r some_text p fails e = rw e refl
lazily_first P tail (c ∷ d ∷ v) t groups next r some_text p fails e =
    rw (fails d v (tail c (d ∷ v) p), or_else)
      (lazily_first P tail (d ∷ v) t groups next r (λ x. cc x) (tail c (d ∷ v) p) fails e)

-- The group of a consumed text, if there is one.
abbrev pub consumed_group : Str → Str → Captures → Captures
consumed_group name [] groups = groups
consumed_group name (c ∷ s) groups = (name, c ∷ s) ∷ groups

pub consumed-run :
    (name c t : Str) (groups : Captures) (next : Next) (r : Captures × Str)
    → IsUnended c
    → next t (consumed_group name c groups) ≡ some r
    → run
        (followed (consumed_as name) (exactly (codes "}}")))
        (after_colon c ++ (codes "}}" ++ t))
        groups
        next
      ≡ some r
consumed-run name [] t groups next r h e = e
consumed-run name (c ∷ s) t groups next r h e =
    rw
      (lazily_first IsUnended IsUnended-tail (c ∷ s) (codes "}}" ++ t) groups
        (λ s' groups'.
          run (exactly (codes "}}")) s' ((name, taken ((c ∷ s) ++ (codes "}}" ++ t)) s') ∷ groups')
            next)
        r (λ x. cc x) h (λ d b p. rw (strip-unended d b t p, run) refl)
        (rw (taken-append (c ∷ s) (codes "}}" ++ t) ((c ∷ s) ++ (codes "}}" ++ t)) refl) e))
      refl

pub string-run :
    (v t : Str) (groups : Captures) (next : Next) (r : Captures × Str)
    → v ≢ []
    → IsUnended v
    → next t ((codes "string_regex", v) ∷ groups) ≡ some r
    → run
        (followed (named (codes "string_regex") lazily) (exactly (codes "}}")))
        (v ++ (codes "}}" ++ t))
        groups
        next
      ≡ some r
string-run v t groups next r some_text h e =
    lazily_first IsUnended IsUnended-tail v (codes "}}" ++ t) groups
      (λ s' groups'.
        run (exactly (codes "}}")) s'
          ((codes "string_regex", taken (v ++ (codes "}}" ++ t)) s') ∷ groups') next)
      r some_text h (λ d b p. rw (strip-unended d b t p, run) refl)
      (rw (taken-append v (codes "}}" ++ t) (v ++ (codes "}}" ++ t)) refl) e)
