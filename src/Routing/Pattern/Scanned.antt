-- ===== src/Routing/Pattern/Scanned.antt =====
-- Which parameters the expression finds in a documented pattern: all of them, in order.
use nozomi.Common.{
  ℕ, zero, suc, ◌+◌, ◌-◌, ◌≤◌, ◌≡◌, refl, sym, ap, ◌∙◌, List, [], ◌∷◌, ◌++◌, map, append-nil, arith,
  length, length-append, All, Str,
}
use nozomi.Routing.Pattern.Texts.{opened, IsClosed, IsClosed-drop}
use nozomi.Routing.Pattern.Template.{Parameter, needle_of, Template, write}
use nozomi.Routing.Pattern.Expression.{Captures, run, parameter_expression, matches_of, go_on}
use nozomi.Routing.Pattern.Recognised.{IsReadable, groups_of, Misses, missed, Found-parameter, done}

closed-Misses : (c : ℕ) (gap s : Str) → IsClosed (c ∷ gap) → Misses ((c ∷ gap) ++ s)
closed-Misses c [] s h w = ground arith
closed-Misses c (d ∷ gap) s (h, _) w = ground arith

abbrev pub all_of : ℕ → Str → List Captures
all_of fuel s = matches_of parameter_expression fuel s

all_of_step :
    (fuel k : ℕ) (c : ℕ) (s : Str)
    → fuel ≡ suc k
    → all_of fuel (c ∷ s)
      ≡ go_on (all_of k s) (λ rest. all_of k rest) (run parameter_expression (c ∷ s) [] done)
all_of_step fuel k c s e = ap (λ n. all_of n (c ∷ s)) e

all_of-gap :
    (gap s : Str) (fuel k : ℕ)
    → fuel ≡ length gap + k
    → IsClosed gap
    → all_of fuel (gap ++ s) ≡ all_of k s
all_of-gap [] s fuel k e h = ap (λ n. all_of n s) (omega (arith, e))
all_of-gap (c ∷ gap) s fuel k e h =
    all_of_step fuel (length gap + k) c (gap ++ s) (omega (arith, e))
    ∙ ap (go_on (all_of (length gap + k) (gap ++ s)) (λ rest. all_of (length gap + k) rest))
        (missed ((c ∷ gap) ++ s) (closed-Misses c gap s h))
    ∙ all_of-gap gap s (length gap + k) k refl (IsClosed-drop 1 (c ∷ gap) h)

all_of-parameter :
    (p : Parameter) (s : Str) (fuel k : ℕ)
    → fuel ≡ suc k
    → IsReadable p
    → all_of fuel (opened (needle_of p) ++ s) ≡ groups_of p ∷ all_of k s
all_of-parameter p s fuel k e h =
    all_of_step fuel k b'{' (b'{' ∷ (needle_of p ++ s)) e
    ∙ ap (go_on (all_of k (b'{' ∷ (needle_of p ++ s))) (λ rest. all_of k rest))
        (Found-parameter p s h)

all_of_nothing : (k : ℕ) → all_of k [] ≡ []
all_of_nothing zero = refl
all_of_nothing (suc k) = refl

all_of_tail : (tail : Str) (fuel : ℕ) → length tail ≤ fuel → IsClosed tail → all_of fuel tail ≡ []
all_of_tail tail fuel enough h =
    ap (all_of fuel) (sym (append-nil tail))
    ∙ all_of-gap tail [] fuel (fuel - length tail) (omega (arith, enough)) h
    ∙ all_of_nothing (fuel - length tail)

-- The texts between the parameters of a pattern have no `{{`, and each parameter is read as it is written.
abbrev pub IsClear : Str × Parameter → Type 0
IsClear (gap, p) = IsClosed gap × IsReadable p

abbrev pub all_groups : Template → List Captures
all_groups template = map (λ (gap, p). groups_of p) template

pub all_of-write :
    (template : Template) (tail : Str) (fuel : ℕ)
    → length (write template tail) ≤ fuel
    → All IsClear template
    → IsClosed tail
    → all_of fuel (write template tail) ≡ all_groups template
all_of-write [] tail fuel enough h closed = all_of_tail tail fuel enough closed
all_of-write ((gap, p) ∷ rest) tail fuel enough ((g, r), h) closed =
    let behind = opened (needle_of p) ++ write rest tail in
    let lengths = length-append gap behind in
    let k = fuel - length gap in
    let j = k - 1 in
    let longer : length (write rest tail) + 1 ≤ length behind =
      omega (arith, length-append (needle_of p) (write rest tail)) in
    all_of-gap gap behind fuel k (omega (arith, enough, lengths)) g
    ∙ all_of-parameter p (write rest tail) k j (omega (arith, enough, lengths, longer)) r
    ∙ ap (λ l. groups_of p ∷ l)
        (all_of-write rest tail j (omega (arith, enough, lengths, longer)) h closed)
