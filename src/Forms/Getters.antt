-- ===== src/Forms/Getters.antt =====
-- What the getters of PostParser may do on any parser that a request gives.
use nozomi.Common.{
  Result-cases, ok_inj, ◌≡◌, refl, ap, subst, ◌≢◌, ◌↔◌, inl, inr, none, List, [], ◌∷◌, arith,
  Bool-cases, Option-cases, Str, codes, str_eq, ok,
}
use nozomi.Libs.{Libs}
use nozomi.Http.{Request, get_header, get_body_as_bytes}
use nozomi.Http.Text.{to_string}
use nozomi.Forms.{
  Form, PostParser, missing, front_of_empty, fields, group, make_parser, parse_request, find,
  get_string, get_string_list, get_binary,
}
use nozomi.Forms.Grouping.{listed, find-group}

module _ (L : Libs) where
  -- No key is there with an empty vector.
  abbrev IsGrouped : Form L → Type 0
  IsGrouped form = (key : Str) → (bufs : List L.IOBuf) × (find L key form ≡ listed bufs)

  empty-IsGrouped : {form : Form L} → ok [] ≡ ok form → IsGrouped form
  unfolding find
  empty-IsGrouped h = subst IsGrouped (ok_inj h) (λ key. ([], refl))

  group-IsGrouped :
      {form : Form L} (s : Str) → ok (group L (fields L s) []) ≡ ok form → IsGrouped form
  unfolding find
  group-IsGrouped s h =
      subst IsGrouped (ok_inj h) (λ key. (_, find-group L key (fields L s) [] [] refl))

  parse_request-IsGrouped :
      (request : Request L) (body : L.IOBuf) {form : Form L}
      → parse_request L request body ≡ ok form
      → IsGrouped form
  unfolding parse_request
  parse_request-IsGrouped request body h =
      elim (Option-cases (get_header L request.message L.content_type)) [
        | inl e ↦ empty-IsGrouped (rw (e, parse_request) at h)
        | inr (t, e) ↦ elim (Bool-cases (str_eq t (codes "application/x-www-form-urlencoded"))) [
          | inl url ↦ elim (Result-cases (to_string L body)) [
            | inl (s, read) ↦ group-IsGrouped s (rw (e, parse_request, url, read) at h)
            | inr (x, thrown) ↦ cc (rw (e, parse_request, url, thrown) at h)
          ]
          | inr other ↦ elim (Bool-cases (str_eq t (codes "multipart/form-data"))) [
            | inl form_data ↦ empty-IsGrouped (rw (e, parse_request, other, form_data) at h)
            | inr neither ↦ empty-IsGrouped (rw (e, parse_request, other, neither) at h)
          ]
        ]
      ]

  make_parser-IsGrouped :
      (request : Request L) (parser : PostParser L)
      → make_parser L request ≡ ok parser
      → IsGrouped parser.parsed_data
  unfolding make_parser
  make_parser-IsGrouped request parser h =
      elim (Result-cases (parse_request L request (get_body_as_bytes L request))) [
        | inl (form, e) ↦
            subst IsGrouped (ap (λ p. p.parsed_data) (ok_inj (rw (e, make_parser) at h)))
              (parse_request-IsGrouped request (get_body_as_bytes L request) e)
        | inr (x, e) ↦ cc (rw (e, make_parser) at h)
      ]

  getters_of_listed :
      (parser : PostParser L) (key : Str) (bufs : List L.IOBuf)
      → find L key parser.parsed_data ≡ listed bufs
      → (get_string L parser key ≢ front_of_empty)
        × (get_binary L parser key ≢ front_of_empty)
        × ((get_string L parser key ≡ missing) ↔ (get_string_list L parser key ≡ none))
  unfolding get_string get_binary get_string_list
  getters_of_listed parser key [] e = ground arith
  getters_of_listed parser key (buf ∷ bufs) e = ground arith

  -- The getters of one value never call `front()` on an empty vector, whatever the request; and a
  -- key is missing for `getString` exactly when it is for `getStringList`.
  pub get_string-ne-front_of_empty :
      (request : Request L) (parser : PostParser L) (key : Str)
      → make_parser L request ≡ ok parser
      → (get_string L parser key ≢ front_of_empty)
        × (get_binary L parser key ≢ front_of_empty)
        × ((get_string L parser key ≡ missing) ↔ (get_string_list L parser key ≡ none))
  get_string-ne-front_of_empty request parser key h =
      let (bufs, e) = make_parser-IsGrouped request parser h key in
      getters_of_listed parser key bufs e
