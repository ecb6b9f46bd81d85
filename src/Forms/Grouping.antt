-- ===== src/Forms/Grouping.antt =====
-- What the fields of a form are grouped into, key by key.
use nozomi.Common.{
  some_inj, ◌^◌, ◌<◌, ◌≡◌, refl, ap, ◌∙◌, inl, inr, false, Option, none, some, List, [], ◌∷◌, ◌++◌,
  map, append-nil, append_assoc, if◌then◌else◌, Bool-cases, length, flatten, All, Str, codes,
  str_eq, str_eq_refl, eq_of_str_eq, Result, ok,
}
use mathlib.Core.Option
use nozomi.Libs.{Libs}
use nozomi.Libs.Laws.{BufferLaws}
use nozomi.Http.{Request, get_header, get_body_as_bytes}
use nozomi.Http.Text.{to_string, to_string-flatten}
use nozomi.Forms.{
  Form, PostParser, Access, missing, obtained, fields, push_back, group, make_parser, parse_request,
  find, get_string, to_strings, get_string_list,
}

-- The values of a key, in the order of the fields.
abbrev pub values_of : Str → List (Str × Str) → List Str
values_of key [] = []
values_of key ((k, v) ∷ rest) = if str_eq k key then v ∷ values_of key rest else values_of key rest

-- A list that is absent when it is empty.
abbrev pub listed {ℓ} : {A : Type ℓ} → List A → Option (List A)
listed [] = none
listed (x ∷ xs) = some (x ∷ xs)

-- The value that `getString` returns for a key with these values.
abbrev pub first_of : List Str → Access (Result Str)
first_of [] = missing
first_of (v ∷ vs) = obtained (ok v)

listed-append : {A : Type 0} (xs : List A) (x : A) → listed (xs ++ x ∷ []) ≡ some (xs ++ x ∷ [])
listed-append [] x = refl
listed-append (y ∷ xs) x = refl

listed-some : {A : Type 0} (xs ys : List A) → some ys ≡ listed xs → ys ≡ xs
listed-some [] ys h = cc
listed-some (x ∷ xs) ys h = some_inj h

listed-none : {A : Type 0} (xs : List A) → none ≡ listed xs → xs ≡ []
listed-none [] h = refl
listed-none (x ∷ xs) h = cc

module _ (L : Libs) where
  find-push_back :
      (key : Str) (buf : L.IOBuf) (form : Form L) (bufs : List L.IOBuf)
      → find L key form ≡ listed bufs
      → find L key (push_back L key buf form) ≡ listed (bufs ++ buf ∷ [])
  unfolding find push_back
  find-push_back key buf [] bufs h = rw (str_eq_refl, listed-none bufs h) refl
  find-push_back key buf ((k, old) ∷ rest) bufs h = elim (Bool-cases (str_eq k key)) [
    | inl e ↦ rw (e, find, e, listed-append, listed-some bufs old (rw (e, find) at h)) refl
    | inr e ↦ rw (e, find, e) (find-push_back key buf rest bufs (rw (e, find) at h))
  ]

  find-push_back_other :
      (key k : Str) (buf : L.IOBuf) (form : Form L)
      → str_eq k key ≡ false
      → find L key (push_back L k buf form) ≡ find L key form
  unfolding find push_back
  find-push_back_other key k buf [] h = rw h refl
  find-push_back_other key k buf ((j, old) ∷ rest) h = elim (Bool-cases (str_eq j k)) [
    | inl e ↦ rw (e, find, eq_of_str_eq j k e, h) refl
    | inr e ↦ elim (Bool-cases (str_eq j key)) [
      | inl e' ↦ rw (e, find, e') refl
      | inr e' ↦ rw (e, find, e') (find-push_back_other key k buf rest h)
    ]
  ]

  pub find-group :
      (key : Str) (kvps : List (Str × Str)) (form : Form L) (bufs : List L.IOBuf)
      → find L key form ≡ listed bufs
      → find L key (group L kvps form) ≡ listed (bufs ++ map L.copy_buffer (values_of key kvps))
  unfolding group
  find-group key [] form bufs h = rw append-nil h
  find-group key ((k, v) ∷ rest) form bufs h = elim (Bool-cases (str_eq k key)) [
    | inl e ↦
        rw (e, eq_of_str_eq k key e)
          (find-group key rest _ (bufs ++ L.copy_buffer v ∷ []) (find-push_back key _ form bufs h)
            ∙ (rw append_assoc))
    | inr e ↦ rw e (find-group key rest _ bufs (find-push_back_other key k _ form e ∙ h))
  ]

  -- A text that `to_string` can read back.
  abbrev pub IsShort : Str → Type 0
  IsShort s = length s < 2 ^ 31

  -- A request whose body is the url-encoded text `s`.
  pub record IsUrlEncoded (request : Request L) (s : Str) : Type 0 where
    pub type_given :
        get_header L request.message L.content_type
        ≡ some (codes "application/x-www-form-urlencoded")
    pub body_given : flatten (L.chunks request.body) ≡ s
    pub short : IsShort s

  values_of-IsShort :
      (key : Str) (kvps : List (Str × Str))
      → All (λ kv. IsShort kv.1) kvps
      → All IsShort (values_of key kvps)
  values_of-IsShort key [] h = tt
  values_of-IsShort key ((k, v) ∷ rest) (h, hs) = elim (Bool-cases (str_eq k key)) [
    | inl e ↦ rw e (h, values_of-IsShort key rest hs)
    | inr e ↦ rw e (values_of-IsShort key rest hs)
  ]

  module _ (B : BufferLaws L) where
    to_string-copy_buffer : (v : Str) → IsShort v → to_string L (L.copy_buffer v) ≡ ok v
    to_string-copy_buffer v h =
        to_string-flatten L (L.copy_buffer v) (rw (B.bytes-copy_buffer v) h)
        ∙ ap ok (B.bytes-copy_buffer v)

    to_strings-map : (vs : List Str) → All IsShort vs → to_strings L (map L.copy_buffer vs) ≡ ok vs
    unfolding to_strings
    to_strings-map [] h = refl
    to_strings-map (v ∷ vs) (h, hs) = rw (to_string-copy_buffer v h, to_strings-map vs hs) refl

    first-listed :
        (parser : PostParser L) (key : Str) (vs : List Str)
        → All IsShort vs
        → find L key parser.parsed_data ≡ listed (map L.copy_buffer vs)
        → (get_string_list L parser key ≡ Option.map ok (listed vs))
          × (get_string L parser key ≡ first_of vs)
    unfolding get_string_list get_string to_strings
    first-listed parser key [] hs e = (rw e refl, rw (e, get_string) refl)
    first-listed parser key (v ∷ vs) (h, hs) e = (
      rw (e, to_string-copy_buffer v h, to_strings-map vs hs) refl,
      rw (e, get_string, to_string-copy_buffer v h) refl,
    )

    parse_request-fields :
        (request : Request L) (body : L.IOBuf) (s : Str)
        → get_header L request.message L.content_type
          ≡ some (codes "application/x-www-form-urlencoded")
        → to_string L body ≡ ok s
        → parse_request L request body ≡ ok (group L (fields L s) [])
    unfolding parse_request
    parse_request-fields request body s typed read =
        rw (typed, parse_request, read, str_eq_refl) refl

    -- The form of a url-encoded request is read without an exception, and then answers a key by the
    -- values of the fields with that key, in their order in the body: all of them as a list, or the
    -- first alone. A key without a field is missing. The body and the values must fit in an `int`.
    -- It is assumed that buffers behave as documented.
    pub make_parser-values :
        (request : Request L) (s : Str)
        → IsUrlEncoded request s
        → All (λ kv. IsShort kv.1) (fields L s)
        → (parser : PostParser L) × (make_parser L request ≡ ok parser)
          × ((key : Str)
              → (get_string_list L parser key ≡ Option.map ok (listed (values_of key (fields L s))))
                × (get_string L parser key ≡ first_of (values_of key (fields L s))))
    unfolding make_parser get_body_as_bytes find
    make_parser-values request s encoded short = (
      record { original_body = L.clone request.body; parsed_data = group L (fields L s) [] },
      rw
          (
            parse_request-fields request (L.clone request.body) s encoded.type_given read,
            make_parser,
          )
          refl,
      λ key.
          first-listed _ key _ (values_of-IsShort key _ short)
            (find-group key (fields L s) [] [] refl),
    )
      where
        bytes : flatten (L.chunks (L.clone request.body)) ≡ s
        bytes = B.bytes-clone request.body ∙ encoded.body_given

        read : to_string L (L.clone request.body) ≡ ok s
        read = to_string-flatten L (L.clone request.body) (rw bytes encoded.short) ∙ ap ok bytes
