-- ===== src/Routing/Pattern/Texts.antt =====
-- `std::string::find` and `replace`, and texts in which no `{{` begins.
use mathlib.Core.Option
use nozomi.Common.{
  [], ℕ, zero, suc, ◌+◌, ◌≡◌, refl, ◌≢◌, Bool, true, false, ◌&&◌, Option, none, some, ◌∷◌, ◌++◌,
  arith, leb, ◌==◌, if◌then◌else◌, length, take, drop, Str, append_assoc, length-append,
  take-length-append, drop-length-append,
}

is_prefix : Str → Str → Bool
is_prefix [] s = true
is_prefix (a ∷ needle) [] = false
is_prefix (a ∷ needle) (b ∷ s) = a == b && is_prefix needle s

-- The first place in `s` where `needle` stands.
search : Str → Str → Option ℕ
search needle [] = if is_prefix needle [] then some 0 else none
search needle (c ∷ s) =
    if is_prefix needle (c ∷ s) then some 0 else Option.map suc (search needle s)

-- `s.find(needle, from)`
unfoldable pub find : Str → Str → ℕ → Option ℕ
unfolding search is_prefix
find needle s from =
    if leb from (length s) then Option.map (λ i. from + i) (search needle (drop from s)) else none

-- `s.replace(at, n, text)`
unfoldable pub replace : ℕ → ℕ → Str → Str → Str
replace at n text s = take at s ++ text ++ drop (at + n) s

-- No `{{` begins in the text, whatever follows it.
abbrev pub IsClosed : Str → Type 0
IsClosed [] = Unit
IsClosed (c ∷ []) = c ≢ b'{'
IsClosed (c ∷ d ∷ s) = (¬ ((c ≡ b'{') × (d ≡ b'{'))) × IsClosed (d ∷ s)

pub IsClosed-append : (s t : Str) → IsClosed s → IsClosed t → IsClosed (s ++ t)
IsClosed-append [] t hs ht = ht
IsClosed-append (c ∷ []) [] hs ht = hs
IsClosed-append (c ∷ []) (d ∷ t) hs ht = (λ (e, _). hs e, ht)
IsClosed-append (c ∷ d ∷ s) t (h, hs) ht = (h, IsClosed-append (d ∷ s) t hs ht)

pub IsClosed-drop : (n : ℕ) (s : Str) → IsClosed s → IsClosed (drop n s)
IsClosed-drop zero s h = h
IsClosed-drop (suc n) [] h = tt
IsClosed-drop (suc n) (c ∷ []) h = IsClosed-drop n [] tt
IsClosed-drop (suc n) (c ∷ d ∷ s) (_, h) = IsClosed-drop n (d ∷ s) h

is_prefix-append : (s t : Str) → is_prefix s (s ++ t) ≡ true
unfolding is_prefix
is_prefix-append [] t = refl
is_prefix-append (c ∷ s) t = ground (arith, is_prefix-append s t)

-- A text that opens with `{{` is first found behind a text in which none begins.
search-closed :
    (s needle rest : Str)
    → IsClosed s
    → search (b'{' ∷ b'{' ∷ needle) (s ++ b'{' ∷ b'{' ∷ (needle ++ rest)) ≡ some (length s)
unfolding search is_prefix
search-closed [] needle rest h = ground (arith, is_prefix-append needle rest)
search-closed (c ∷ []) needle rest h = ground (arith, is_prefix-append needle rest)
search-closed (c ∷ d ∷ s) needle rest (h, hs) = ground (arith, search-closed (d ∷ s) needle rest hs)

abbrev pub opened : Str → Str
opened needle = b'{' ∷ b'{' ∷ needle

leb-length : (a b : Str) → leb (length a) (length (a ++ b)) ≡ true
leb-length a b = ground (arith, length-append a b)

pub find-closed :
    (a s needle rest : Str)
    → IsClosed s
    → find (opened needle) (a ++ (s ++ (opened needle ++ rest))) (length a)
      ≡ some (length a + length s)
unfolding find
find-closed a s needle rest h = rw (
  leb-length a (s ++ (opened needle ++ rest)),
  drop-length-append a,
  search-closed s needle rest h,
)

drop_past : (a old rest : Str) → drop (length a + length old) (a ++ (old ++ rest)) ≡ rest
drop_past a old rest =
    rw (← length-append a old, ← append_assoc a old rest) (drop-length-append (a ++ old) rest)

pub replace-append :
    (a old rest new : Str) (n at : ℕ)
    → at ≡ length a
    → n ≡ length old
    → replace at n new (a ++ (old ++ rest)) ≡ a ++ (new ++ rest)
unfolding replace
replace-append a old rest new n at e k =
    rw (e, k, take-length-append a, drop_past a old rest, append_assoc)
