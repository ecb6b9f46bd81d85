-- ===== src/Http/Lookup.antt =====
-- What the views of an HTTPRequest return: query parameters, headers, cookies and the path.
use nozomi.Common.{
  [], some_inj, ◌≡◌, refl, sym, ap, ◌∙◌, ◌≢◌, ◌↔◌, ◌⊎◌, inl, inr, true, false, none, some, List,
  ◌∷◌, arith, Bool-cases, Option-cases, Str, str_eq_refl, eq_of_str_eq, non_empty, ok, catch,
}
use mathlib.Core.List.{cons-ne-nil}
use nozomi.Libs.{Libs, query, UriEscapeMode}
use nozomi.Http.{get_unescaped_path, get_query_param, get_header, try_pair, scan_params}

non_empty_iff : (s v : Str) → (non_empty s ≡ some v) ↔ ((s ≡ v) × (v ≢ []))
non_empty_iff [] v = ((λ h. cc), λ (e, n). absurd (n (sym e)))
non_empty_iff (c ∷ s) v =
    ((λ h. (some_inj h, λ e. absurd (cons-ne-nil c s (some_inj h ∙ e)))), λ (e, n). ap some e)

module _ (L : Libs) where
  -- A pair of the query string whose key decodes to `param` and whose value decodes to `v`.
  abbrev pub Decodes : Str → Str → Str × Str → Type 0
  Decodes param v kvp =
      (L.uri_unescape query kvp.0 ≡ ok param) × (L.uri_unescape query kvp.1 ≡ ok v)

  -- `v` comes from the first pair that decodes for `param`; pairs that do not decode are passed over.
  data FirstIn (param : Str) (v : Str) : List (Str × Str) → Type 0 where
    here :
        {kvp : Str × Str} {rest : List (Str × Str)}
        → Decodes param v kvp
        → FirstIn param v (kvp ∷ rest)
    there :
        {kvp : Str × Str} {rest : List (Str × Str)}
        → ((w : Str) → ¬ Decodes param w kvp)
        → FirstIn param v rest
        → FirstIn param v (kvp ∷ rest)

  try_pair_sound :
      (param v : Str) (kvp : Str × Str)
      → catch (try_pair L param kvp) (λ _. none) ≡ some v
      → Decodes param v kvp
  unfolding try_pair
  try_pair_sound param v (k, w) h =
      ground (arith, eq_of_str_eq (catch (L.uri_unescape query k) (λ _. [])) param)

  try_pair_complete :
      (param v : Str) (kvp : Str × Str)
      → Decodes param v kvp
      → catch (try_pair L param kvp) (λ _. none) ≡ some v
  unfolding try_pair
  try_pair_complete param v (k, w) (dk, dw) = rw (dk, dw, str_eq_refl)

  try_pair-none :
      (param : Str) (kvp : Str × Str)
      → catch (try_pair L param kvp) (λ _. none) ≡ none
      → (w : Str) → ¬ Decodes param w kvp
  try_pair-none param kvp h w d = cc (try_pair_complete param w kvp d)

  scan_params_sound :
      (param v : Str) (kvps : List (Str × Str))
      → scan_params L param kvps ≡ some v
      → FirstIn param v kvps
  unfolding scan_params
  scan_params_sound param v [] h = cc
  scan_params_sound param v (kvp ∷ rest) h =
      elim (Option-cases (catch (try_pair L param kvp) (λ _. none))) [
        | inl e ↦
            there (try_pair-none param kvp e)
              (scan_params_sound param v rest (rw (e, scan_params) at h))
        | inr (w, e) ↦ here (try_pair_sound param v kvp (e ∙ (rw (e, scan_params) at h)))
      ]

  scan_params_complete :
      (param v : Str) (kvps : List (Str × Str))
      → FirstIn param v kvps
      → scan_params L param kvps ≡ some v
  unfolding scan_params
  scan_params_complete param v _ (here d) = rw (try_pair_complete _ _ _ d, scan_params)
  scan_params_complete param v _ (there {kvp = kvp} {rest = rest} n r) =
      elim (Option-cases (catch (try_pair L param kvp) (λ _. none))) [
        | inl e ↦ rw (e, scan_params) (scan_params_complete param v rest r)
        | inr (w, e) ↦ absurd (n w (try_pair_sound param w kvp e))
      ]

  -- A query parameter is answered by proxygen's own lookup when the raw key is there, and otherwise
  -- by the first pair whose key and value decode, passing over the pairs that cannot be decoded; it
  -- is missing in every other case.
  get_query_param_iff :
      (m : L.Message) (param v : Str)
      → (get_query_param L m param ≡ some v) ↔ (
          ((L.has_query_param m param ≡ true) × (L.get_decoded_query_param m param ≡ v))
          ⊎ ((L.has_query_param m param ≡ false) × FirstIn param v (L.get_query_params m)))
  unfolding get_query_param
  get_query_param_iff m param v = elim (Bool-cases (L.has_query_param m param)) [
    | inl raw ↦
        rw raw
          ((λ e. inl (refl, some_inj e)), elim [ inl (_, e) ↦ ap some e | inr (absent, _) ↦ cc ])
    | inr missing ↦ rw missing (
      (λ e. inr (refl, scan_params_sound param v (L.get_query_params m) e)),
      elim [
        | inl (present, _) ↦ cc
        | inr (_, found) ↦ scan_params_complete param v (L.get_query_params m) found
      ],
    )
  ]

  -- A header is reported exactly when proxygen has a non-empty value for it.
  pub get_header_iff :
      (m : L.Message) (key : L.HeaderKey) (v : Str)
      → (get_header L m key ≡ some v) ↔ ((L.get_single_or_empty m key ≡ v) × (v ≢ []))
  unfolding get_header
  get_header_iff m key v = non_empty_iff (L.get_single_or_empty m key) v

  -- The path is never lost: it is decoded, or kept as it came.
  pub get_unescaped_path_cases :
      (s : Str)
      → (L.uri_unescape UriEscapeMode.path s ≡ ok (get_unescaped_path L s))
        ⊎ (get_unescaped_path L s ≡ s)
  unfolding get_unescaped_path
  get_unescaped_path_cases s = ground arith
