-- ===== src/Forms/RoundTrip.antt =====
-- Forms that a client writes: pairs of a key and a value, encoded, with `=` between the two and `&`
-- between the pairs.
use nozomi.Common.{
  length, length-append, ℕ, ◌≡◌, refl, ap, ◌∙◌, ◌≢◌, false, not, some, List, [], ◌∷◌, ◌++◌, map,
  arith, keep, All, All-append, Str, codes, str_eq, ok,
}
use nozomi.Libs.{Libs, query}
use nozomi.Forms.{fields, split_key_value, decode_pair}

-- `c` does not stand in `s`.
abbrev pub Avoids : ℕ → Str → Type 0
Avoids c s = All (λ d. d ≢ c) s

-- The pairs, written with `escape`.
abbrev pub write_pair : (Str → Str) → Str × Str → Str
write_pair escape (key, value) = escape key ++ (b'=' ∷ escape value)

abbrev pub write_form : (Str → Str) → List (Str × Str) → Str
write_form escape [] = []
write_form escape (kv ∷ []) = write_pair escape kv
write_form escape (kv ∷ kv' ∷ rest) =
    write_pair escape kv ++ (b'&' ∷ write_form escape (kv' ∷ rest))

module _ (L : Libs) where
  -- folly's splits: an empty text has no piece, any other without the separator is one, and otherwise the
  -- text before the first separator is the first piece; so that no empty piece follows a separator at
  -- the end.
  pub record SplitLaws : Type 0 where
    pub split-empty : L.split (codes "&") [] ≡ []
    pub split-one : (s : Str) → Avoids b'&' s → s ≢ [] → L.split (codes "&") s ≡ s ∷ []
    pub split-next :
        (s t : Str)
        → Avoids b'&' s
        → L.split (codes "&") (s ++ (b'&' ∷ t)) ≡ s ∷ L.split (codes "&") t
    pub split_pair-first :
        (s t : Str) → Avoids b'=' s → L.split_pair (codes "=") (s ++ (b'=' ∷ t)) ≡ some (s, t)

  -- `escape` writes `s` without a separator, and `uriUnescape` reads it back.
  pub record IsEscaped (escape : Str → Str) (s : Str) : Type 0 where
    pub decoded : L.uri_unescape query (escape s) ≡ ok s
    pub no_ampersand : Avoids b'&' (escape s)
    pub no_equals : Avoids b'=' (escape s)

  write_pair-ne : (escape : Str → Str) (kv : Str × Str) → write_pair escape kv ≢ []
  write_pair-ne escape (key, value) e =
      omega (arith, ap length e, length-append (escape key) (b'=' ∷ escape value))

  module _ (S : SplitLaws) (escape : Str → Str) where
    abbrev pub IsEscapedPair : Str × Str → Type 0
    IsEscapedPair kv = IsEscaped escape kv.0 × IsEscaped escape kv.1

    write_pair-Avoids : (kv : Str × Str) → IsEscapedPair kv → Avoids b'&' (write_pair escape kv)
    write_pair-Avoids (key, value) (k, v) =
        All-append _ (escape key) (b'=' ∷ escape value) k.no_ampersand
          ((λ e. omega (arith, e)), v.no_ampersand)

    split-write_form :
        (kv : Str × Str) (rest : List (Str × Str))
        → All IsEscapedPair (kv ∷ rest)
        → L.split (codes "&") (write_form escape (kv ∷ rest)) ≡ map (write_pair escape) (kv ∷ rest)
    split-write_form kv [] (h, _) =
        S.split-one (write_pair escape kv) (write_pair-Avoids kv h) (write_pair-ne escape kv)
    split-write_form kv (kv' ∷ rest) (h, hs) =
        S.split-next (write_pair escape kv) (write_form escape (kv' ∷ rest))
          (write_pair-Avoids kv h)
        ∙ ap (λ l. write_pair escape kv ∷ l) (split-write_form kv' rest hs)

    append_cons-ne : (s t : Str) (c : ℕ) → str_eq (s ++ (c ∷ t)) [] ≡ false
    unfolding str_eq
    append_cons-ne [] t c = refl
    append_cons-ne (d ∷ s) t c = refl

    keep-map-write_pair :
        (kvs : List (Str × Str))
        → keep (λ kv. not (str_eq kv [])) (map (write_pair escape) kvs)
          ≡ map (write_pair escape) kvs
    keep-map-write_pair [] = refl
    keep-map-write_pair ((key, value) ∷ rest) =
        rw (append_cons-ne (escape key) (escape value) b'=')
          (ap (λ l. write_pair escape (key, value) ∷ l) (keep-map-write_pair rest))

    decode-write_pair :
        (kv : Str × Str)
        → IsEscapedPair kv
        → decode_pair L (split_key_value L (write_pair escape kv)) ≡ kv
    unfolding decode_pair split_key_value
    decode-write_pair (key, value) (k, v) =
        rw (S.split_pair-first (escape key) (escape value) k.no_equals, k.decoded, v.decoded) refl

    decode-map-write_pair :
        (kvs : List (Str × Str))
        → All IsEscapedPair kvs
        → map (decode_pair L) (map (split_key_value L) (map (write_pair escape) kvs)) ≡ kvs
    decode-map-write_pair [] h = refl
    decode-map-write_pair (kv ∷ rest) (h, hs) =
        cc (decode-write_pair kv h, decode-map-write_pair rest hs)

    -- The fields of a form that was written from pairs are those pairs, in order; keys and values
    -- may be empty and may repeat. It is assumed that the encoding of each text decodes to it and
    -- has neither separator, and that folly splits at the separators.
    pub fields-write_form :
        (kvs : List (Str × Str)) → All IsEscapedPair kvs → fields L (write_form escape kvs) ≡ kvs
    unfolding fields str_eq
    fields-write_form [] h = rw S.split-empty refl
    fields-write_form (kv ∷ rest) h =
        rw (split-write_form kv rest h, keep-map-write_pair (kv ∷ rest))
          (decode-map-write_pair (kv ∷ rest) h)
