-- ===== src/Http/Building.antt =====
-- What the constructors of HTTPResponse build.
use nozomi.Common.{
  map, [], ℕ, ◌^◌, ◌<◌, ◌≡◌, refl, ap, ◌∙◌, ◌≢◌, List, ◌∷◌, arith, length, flatten, All, Str, ok,
}
use nozomi.Libs.{Libs}
use nozomi.Libs.Laws.{MessageLaws, BufferLaws}
use nozomi.Http.Text.{to_string, to_string-flatten}
use nozomi.Http.{
  set_headers, response_of_string, response_of_status, get_status_code, get_body_string, to_int16,
  set_headers_by_code, response_of_bytes_by_code, response_of_string_by_code,
  response_of_json_by_code, response_of_bytes, response_of_json,
}

module _ (L : Libs) (M : MessageLaws L) where
  set_headers-status :
      (m : L.Message) (headers : List (L.HeaderKey × Str))
      → L.get_status_code (set_headers L m headers) ≡ L.get_status_code m
  unfolding set_headers
  set_headers-status m [] = refl
  set_headers-status m ((k, v) ∷ rest) =
      set_headers-status (L.set_header m k v) rest ∙ M.status-set_header m k v

  -- The key is not among those of the list.
  abbrev pub Lacks : L.HeaderKey → List (L.HeaderKey × Str) → Type 0
  Lacks k = All (λ kv. kv.0 ≢ k)

  -- The keys of an `unordered_map` are distinct.
  abbrev pub HasDistinctKeys : List (L.HeaderKey × Str) → Type 0
  HasDistinctKeys [] = Unit
  HasDistinctKeys (kv ∷ rest) = Lacks kv.0 rest × HasDistinctKeys rest

  set_headers-other :
      (m : L.Message) (k : L.HeaderKey) (headers : List (L.HeaderKey × Str))
      → Lacks k headers
      → L.get_single_or_empty (set_headers L m headers) k ≡ L.get_single_or_empty m k
  unfolding set_headers
  set_headers-other m k [] h = refl
  set_headers-other m k ((j, v) ∷ rest) h =
      set_headers-other (L.set_header m j v) k rest h.1 ∙ M.header-set_ne m j k v h.0

  set_headers-All :
      (m : L.Message) (headers : List (L.HeaderKey × Str))
      → HasDistinctKeys headers
      → All (λ kv. L.get_single_or_empty (set_headers L m headers) kv.0 ≡ kv.1) headers
  unfolding set_headers
  set_headers-All m [] h = tt
  set_headers-All m ((k, v) ∷ rest) h = (
    set_headers-other (L.set_header m k v) k rest h.0 ∙ M.header-set_self m k v,
    set_headers-All (L.set_header m k v) rest h.1,
  )

  to_int16_of_small : (n status : ℕ) → n ≡ to_int16 status → status < 2 ^ 16 → to_int16 n ≡ status
  to_int16_of_small n status e h = omega arith

  pub get_status_code-response_of_status :
      (status : ℕ) → status < 2 ^ 16 → get_status_code L (response_of_status L status) ≡ status
  unfolding response_of_status get_status_code
  get_status_code-response_of_status status small =
      to_int16_of_small _ status (M.status-set _ _ (omega arith)) small

  to_string_of_bytes :
      (b : L.IOBuf) {s : Str} → flatten (L.chunks b) ≡ s → length s < 2 ^ 31 → to_string L b ≡ ok s
  to_string_of_bytes b e h = to_string-flatten L b (rw e h) ∙ ap ok e

  -- A response built from a status, a text and a header map carries that status, each of those
  -- headers, and that text, if the status fits in 16 bits and the text in an `int`.
  -- It is assumed that messages and buffers behave as documented, and that the keys of the map are
  -- distinct.
  pub response_of_string_lem :
      (B : BufferLaws L) (status : ℕ) (body : Str) (headers : List (L.HeaderKey × Str))
      → status < 2 ^ 16
      → length body < 2 ^ 31
      → HasDistinctKeys headers
      → let r = response_of_string L status body headers in
        (get_status_code L r ≡ status)
        × (get_body_string L r ≡ ok body)
        × All (λ kv. L.get_single_or_empty r.message kv.0 ≡ kv.1) headers
  unfolding response_of_string get_status_code get_body_string
  response_of_string_lem B status body headers small short distinct = (
    to_int16_of_small _ status (set_headers-status _ headers ∙ M.status-set _ _ (omega arith))
        small,
    to_string_of_bytes _ (B.bytes-copy_buffer body) short,
    set_headers-All _ headers distinct,
  )

module _ (L : Libs) where
  -- Headers by their codes, with the names of these.
  abbrev by_name : List (L.HeaderCode × Str) → List (L.HeaderKey × Str)
  by_name = map (λ (code, value). (L.of_code code, value))

  set_headers_by_code_lem :
      (m : L.Message) (headers : List (L.HeaderCode × Str))
      → set_headers_by_code L m headers ≡ set_headers L m (by_name headers)
  unfolding set_headers set_headers_by_code
  set_headers_by_code_lem m [] = refl
  set_headers_by_code_lem m ((code, value) ∷ rest) =
      set_headers_by_code_lem (L.set_header m (L.of_code code) value) rest

  -- A constructor over header codes is the one over their names, for each kind of body.
  response_by_code :
      (status : ℕ) (headers : List (L.HeaderCode × Str))
      → ((b : L.IOBuf)
          → response_of_bytes_by_code L status b headers
            ≡ response_of_bytes L status b (by_name headers))
        × ((s : Str)
            → response_of_string_by_code L status s headers
              ≡ response_of_string L status s (by_name headers))
        × ((j : L.Json)
            → response_of_json_by_code L status j headers
              ≡ response_of_json L status j (by_name headers))
  unfolding response_of_bytes_by_code response_of_string_by_code response_of_json_by_code
      response_of_bytes response_of_string response_of_json
  response_by_code status headers =
      let same =
        set_headers_by_code_lem (L.set_status_code L.new_message (to_int16 status)) headers in
      ((λ b. rw same refl), (λ s. rw same refl), λ j. rw same refl)
