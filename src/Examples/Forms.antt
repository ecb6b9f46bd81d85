-- ===== src/Examples/Forms.antt =====
-- Forms: a url-encoded request on the sample libraries.
use nozomi.Common.{
  ℕ, ◌≡◌, refl, sym, ◌∙◌, ◌≢◌, ◌↔◌, true, false, none, some, List, [], ◌∷◌, ◌++◌, append-nil,
  append_assoc, arith, ◌==◌, ==_iff, All, Str, codes, str_eq, ok,
}
use mathlib.Core.Option
use nozomi.Libs.Sample.{chain, sample, blank_message, cut, cut_once}
use nozomi.Http.{Request, get_header, make_request, get_body_as_bytes}
use nozomi.Forms.{
  PostParser, missing, front_of_empty, fields, make_parser, get_string, get_string_list, get_binary,
}
use nozomi.Forms.Grouping.{IsUrlEncoded, IsShort, values_of, listed, first_of, make_parser-values}
use nozomi.Forms.Getters.{get_string-ne-front_of_empty}
use nozomi.Forms.RoundTrip.{Avoids, SplitLaws, IsEscaped, write_form, fields-write_form}
use nozomi.Examples.Laws.{sample_buffers}

==-ne : (a b : ℕ) → a ≢ b → (a == b) ≡ false
==-ne a b h = ground (arith, ==_iff a b)

==_self : (a : ℕ) → (a == a) ≡ true
==_self a = (==_iff a a).1 refl

cut_one : (c : ℕ) (cur s : Str) → Avoids c s → cur ++ s ≢ [] → cut c cur s ≡ (cur ++ s) ∷ []
cut_one c [] [] h some_text = absurd (some_text refl)
cut_one c (d ∷ cur) [] h some_text = rw append-nil refl
cut_one c cur (d ∷ s) (h, hs) some_text =
    rw (==-ne d c h, cut)
      (cut_one c (cur ++ d ∷ []) s hs (λ e. some_text (sym (append_assoc cur (d ∷ []) s) ∙ e))
        ∙ (rw append_assoc refl))

cut_next : (c : ℕ) (cur s t : Str) → Avoids c s → cut c cur (s ++ (c ∷ t)) ≡ (cur ++ s) ∷ cut c [] t
cut_next c cur [] t h = rw (==_self c, cut, append-nil) refl
cut_next c cur (d ∷ s) t (h, hs) =
    rw (==-ne d c h, cut) (cut_next c (cur ++ d ∷ []) s t hs ∙ (rw append_assoc refl))

cut_once_first :
    (c : ℕ) (cur s t : Str) → Avoids c s → cut_once c cur (s ++ (c ∷ t)) ≡ some (cur ++ s, t)
cut_once_first c cur [] t h = rw (==_self c, cut_once, append-nil) refl
cut_once_first c cur (d ∷ s) t (h, hs) =
    rw (==-ne d c h, cut_once) (cut_once_first c (cur ++ d ∷ []) s t hs ∙ (rw append_assoc refl))

sample_splits : SplitLaws sample
sample_splits = record {
  split-empty = refl;
  split-one = λ s h some_text. cut_one b'&' [] s h some_text;
  split-next = λ s t h. cut_next b'&' [] s t h;
  split_pair-first = λ s t h. cut_once_first b'=' [] s t h;
}

tag-IsEscaped : IsEscaped sample (λ s. s) (codes "tag")
tag-IsEscaped = record { decoded = refl; no_ampersand = omega arith; no_equals = omega arith }

a-IsEscaped : IsEscaped sample (λ s. s) (codes "a")
a-IsEscaped = record { decoded = refl; no_ampersand = omega arith; no_equals = omega arith }

empty-IsEscaped : IsEscaped sample (λ s. s) []
empty-IsEscaped = record { decoded = refl; no_ampersand = omega arith; no_equals = omega arith }

abbrev fields_given : List (Str × Str)
fields_given = (codes "tag", codes "a") ∷ (codes "tag", []) ∷ []

fields-write_form_example : fields sample (write_form (λ s. s) fields_given) ≡ fields_given
fields-write_form_example =
    fields-write_form sample sample_splits (λ s. s) fields_given
      ((tag-IsEscaped, a-IsEscaped), ((tag-IsEscaped, empty-IsEscaped), tt))

abbrev posted : Request sample
posted =
    make_request sample
      (record blank_message { headers = λ k. codes "application/x-www-form-urlencoded" })
      (chain (codes "tag=a&x" ∷ codes "&&tag=b" ∷ []))

abbrev body : Str
body = codes "tag=a&x&&tag=b"

posted-IsUrlEncoded : IsUrlEncoded sample posted body
unfolding make_request get_header
posted-IsUrlEncoded = record { type_given = refl; body_given = refl; short = omega arith }

fields-IsShort : All (λ kv. IsShort sample kv.1) (fields sample body)
unfolding fields str_eq
fields-IsShort = omega arith

make_parser-values_example :
    (parser : PostParser sample) × (make_parser sample posted ≡ ok parser)
    × ((key : Str)
        → (get_string_list sample parser key
            ≡ Option.map ok (listed (values_of key (fields sample body))))
          × (get_string sample parser key ≡ first_of (values_of key (fields sample body))))
make_parser-values_example =
    make_parser-values sample sample_buffers posted body posted-IsUrlEncoded fields-IsShort

posted_tags : values_of (codes "tag") (fields sample body) ≡ codes "a" ∷ codes "b" ∷ []
unfolding fields str_eq
posted_tags = refl

abbrev parsed : PostParser sample
parsed = record { original_body = chain (codes "x" ∷ []); parsed_data = [] }

parsed_lem :
    make_parser sample (make_request sample blank_message (chain (codes "x" ∷ []))) ≡ ok parsed
unfolding make_parser make_request get_header get_body_as_bytes
parsed_lem = refl

get_string-ne-front_of_empty_example :
    (get_string sample parsed (codes "tag") ≢ front_of_empty)
    × (get_binary sample parsed (codes "tag") ≢ front_of_empty)
    × ((get_string sample parsed (codes "tag") ≡ missing)
        ↔ (get_string_list sample parsed (codes "tag") ≡ none))
get_string-ne-front_of_empty_example =
    get_string-ne-front_of_empty sample (make_request sample blank_message (chain (codes "x" ∷ [])))
      parsed (codes "tag") parsed_lem
