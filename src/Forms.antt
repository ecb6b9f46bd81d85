-- ===== src/Forms.antt =====
-- PostParser.h and PostParser.cpp: the fields of a form that a request carries in its body. The
-- proofs stand in the modules below.
pub mod Grouping
pub mod Getters
pub mod RoundTrip
use nozomi.Common.{
  not, Option, none, some, List, [], ◌∷◌, ◌++◌, map, if◌then◌else◌, value_or, keep, Str, codes,
  str_eq, Result, ok, ◌>>=◌, ◌>>◌, catch,
}
use mathlib.Core.Option
use nozomi.Libs.{Libs, query}
use nozomi.Http.{Request, get_body_as_bytes, get_header}
use nozomi.Http.Text.{to_string}

-- `unordered_map<string, vector<unique_ptr<IOBuf>>>`
abbrev pub Form : Libs → Type 0
Form L = List (Str × List L.IOBuf)

-- class PostParser
pub record PostParser (L : Libs) : Type 0 where
  pub original_body : L.IOBuf
  pub parsed_data : Form L

-- What a getter of one value does: the key is missing, `front()` is called on an empty vector, which
-- is undefined, or a value is returned.
pub data Access (A : Type 0) : Type 0 where
  missing front_of_empty : Access A
  obtained : A → Access A

module _ (L : Libs) where
  -- The function of the first `map`.
  split_key_value : Str → Str × Str
  split_key_value key_value = value_or (L.split_pair (codes "=") key_value) (key_value, [])

  unescape : Str → Str
  unescape s = catch (L.uri_unescape query s) (λ _. s)

  -- The function of the second `map`: what cannot be decoded is kept as it is.
  decode_pair : Str × Str → Str × Str
  unfolding unescape
  decode_pair (key, value) = (unescape key, unescape value)

  -- The chain of generators that makes `kvps`.
  unfoldable pub fields : Str → List (Str × Str)
  unfolding split_key_value decode_pair
  fields s =
      map decode_pair
        (map split_key_value (keep (λ kv. not (str_eq kv [])) (L.split (codes "&") s)))

  -- `ret[key].push_back(buf)`
  push_back : Str → L.IOBuf → Form L → Form L
  push_back key buf [] = (key, buf ∷ []) ∷ []
  push_back key buf ((k, bufs) ∷ rest) =
      let pushed = push_back key buf rest in
      if str_eq k key then (k, bufs ++ buf ∷ []) ∷ rest else (k, bufs) ∷ pushed

  -- The loop over `kvps`.
  unfoldable pub group : List (Str × Str) → Form L → Form L
  unfolding push_back
  group [] ret = ret
  group ((key, value) ∷ rest) ret = group rest (push_back key (L.copy_buffer value) ret)

  parse_url_encoded : L.IOBuf → Result (Form L)
  unfolding group
  parse_url_encoded body = do as_string ← to_string L body; ok (group (fields as_string) [])

  parse_form_data : L.IOBuf → Form L
  parse_form_data body = []

  unfoldable pub parse_request : Request L → L.IOBuf → Result (Form L)
  unfolding parse_url_encoded parse_form_data
  parse_request request body = elim (get_header L request.message L.content_type) [
    | none ↦ ok []
    | some content_type ↦
        if str_eq content_type (codes "application/x-www-form-urlencoded")
        then parse_url_encoded body
        else if str_eq content_type (codes "multipart/form-data")
        then ok (parse_form_data body)
        else ok []
  ]

  -- The constructor.
  unfoldable pub make_parser : Request L → Result (PostParser L)
  unfolding parse_request
  make_parser request = do
    parsed ← parse_request request (get_body_as_bytes L request)
    ok (record { original_body = get_body_as_bytes L request; parsed_data = parsed })

  -- `parsedData_.find(key)`
  unfoldable pub find : Str → Form L → Option (List L.IOBuf)
  find key [] = none
  find key ((k, bufs) ∷ rest) = if str_eq k key then some bufs else find key rest

  -- `it->second.front()`
  front : {A : Type 0} → (L.IOBuf → A) → List L.IOBuf → Access A
  front use_buffer [] = front_of_empty
  front use_buffer (buf ∷ bufs) = obtained (use_buffer buf)

  unfoldable pub get_string : PostParser L → Str → Access (Result Str)
  unfolding find front
  get_string parser key = elim (find key parser.parsed_data) [
    | none ↦ missing
    | some bufs ↦ front (to_string L) bufs
  ]

  unfoldable pub to_strings : List L.IOBuf → Result (List Str)
  to_strings [] = ok []
  to_strings (buf ∷ bufs) = do s ← to_string L buf; rest ← to_strings bufs; ok (s ∷ rest)

  unfoldable pub get_string_list : PostParser L → Str → Option (Result (List Str))
  get_string_list parser key = Option.map to_strings (find key parser.parsed_data)

  unfoldable pub get_binary : PostParser L → Str → Access L.IOBuf
  unfolding find front
  get_binary parser key = elim (find key parser.parsed_data) [
    | none ↦ missing
    | some bufs ↦ front (λ buf. L.clone buf) bufs
  ]

  unfoldable pub get_binary_list : PostParser L → Str → Option (List L.IOBuf)
  get_binary_list parser key = Option.map (map (λ buf. L.clone buf)) (find key parser.parsed_data)
