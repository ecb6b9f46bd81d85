-- ===== src/Http.antt =====
-- HTTPRequest.h, HTTPRequest.cpp, HTTPResponse.h, HTTPResponse.cpp and StringUtils.h: requests,
-- responses and their bodies. The proofs stand in the modules below.
pub mod Text
pub mod Lookup
pub mod Building
use nozomi.Common.{
  [], ℕ, ◌%◌, ◌^◌, Option, none, some, List, ◌∷◌, if◌then◌else◌, value_or, Str, str_eq, non_empty,
  Result, ok, ◌>>=◌, ◌>>◌, catch,
}
use nozomi.Libs.{Libs, UriEscapeMode, query}
use Text.{to_string}

-- class HTTPRequest. The views of query parameters, headers and cookies hold only `message`.
pub record Request (L : Libs) : Type 0 where
  pub message : L.Message
  pub body : L.IOBuf
  pub path : Str
  pub method : L.Method

-- class HTTPResponse.
pub record Response (L : Libs) : Type 0 where
  pub message : L.Message
  pub body : L.IOBuf

-- `int16_t` from an `int`, as a bit pattern.
abbrev pub to_int16 : ℕ → ℕ
to_int16 n = n % 2 ^ 16

module _ (L : Libs) where
  -- HTTPRequest::getUnescapedPath: a path that cannot be decoded is kept as it is.
  unfoldable pub get_unescaped_path : Str → Str
  get_unescaped_path original = catch (L.uri_unescape UriEscapeMode.path original) (λ _. original)

  unfoldable pub get_method_and_path : L.Message → L.Method × Str
  unfolding get_unescaped_path
  get_method_and_path m = (value_or (L.get_method m) L.get, get_unescaped_path (L.get_path m))

  -- The constructor of HTTPRequest.
  unfoldable pub make_request : L.Message → L.IOBuf → Request L
  unfolding get_method_and_path
  make_request m b =
      let (method, path) = get_method_and_path m in
      record { message = m; body = b; path = path; method = method }

  pub get_body_as_string : Request L → Result Str
  get_body_as_string request = to_string L request.body

  pub get_body_as_json : Request L → Result L.Json
  get_body_as_json request = do s ← get_body_as_string request; L.parse_json s

  unfoldable pub get_body_as_bytes : Request L → L.IOBuf
  get_body_as_bytes request = L.clone request.body

  -- One round of the loop of `getQueryParam`, without its `catch`.
  try_pair : Str → Str × Str → Result (Option Str)
  try_pair param (key, value) = do
    decoded ← L.uri_unescape query key
    if str_eq decoded param then (do v ← L.uri_unescape query value; ok (some v)) else ok none

  scan_params : Str → List (Str × Str) → Option Str
  scan_params param [] = none
  scan_params param (kvp ∷ rest) = elim (catch (try_pair param kvp) (λ _. none)) [
    | some v ↦ some v
    | none ↦ scan_params param rest
  ]

  -- QueryParams::getQueryParam and its `operator[]`.
  pub get_query_param : L.Message → Str → Option Str
  get_query_param m param =
      if L.has_query_param m param
      then some (L.get_decoded_query_param m param)
      else scan_params param (L.get_query_params m)

  -- Headers::getHeader and its `operator[]`.
  unfoldable pub get_header : L.Message → L.HeaderKey → Option Str
  get_header m key = non_empty (L.get_single_or_empty m key)

  -- Cookies::getCookie and its `operator[]`.
  pub get_cookie : L.Message → Str → Option Str
  get_cookie m param = non_empty (L.get_cookie m param)

  -- The loop of the constructors over the header map, in its order of iteration.
  set_headers : L.Message → List (L.HeaderKey × Str) → L.Message
  set_headers m [] = m
  set_headers m ((key, value) ∷ rest) = set_headers (L.set_header m key value) rest

  -- The constructors of HTTPResponse over the three kinds of body.
  unfoldable pub response_of_bytes : ℕ → L.IOBuf → List (L.HeaderKey × Str) → Response L
  unfolding set_headers
  response_of_bytes status body headers = record {
    message = set_headers (L.set_status_code L.new_message (to_int16 status)) headers;
    body = body;
  }

  pub response_of_string : ℕ → Str → List (L.HeaderKey × Str) → Response L
  response_of_string status body headers = record {
    message = set_headers (L.set_status_code L.new_message (to_int16 status)) headers;
    body = L.copy_buffer body;
  }

  pub response_of_json : ℕ → L.Json → List (L.HeaderKey × Str) → Response L
  response_of_json status body headers = record {
    message = set_headers (L.set_status_code L.new_message (to_int16 status)) headers;
    body = L.copy_buffer (L.to_json body);
  }

  -- The loop of the constructors over a map from codes.
  set_headers_by_code : L.Message → List (L.HeaderCode × Str) → L.Message
  set_headers_by_code m [] = m
  set_headers_by_code m ((code, value) ∷ rest) =
      set_headers_by_code (L.set_header m (L.of_code code) value) rest

  -- The three constructors over such a map.
  pub response_of_bytes_by_code : ℕ → L.IOBuf → List (L.HeaderCode × Str) → Response L
  unfolding set_headers_by_code
  response_of_bytes_by_code status body headers = record {
    message = set_headers_by_code (L.set_status_code L.new_message (to_int16 status)) headers;
    body = body;
  }

  pub response_of_string_by_code : ℕ → Str → List (L.HeaderCode × Str) → Response L
  unfolding set_headers_by_code
  response_of_string_by_code status body headers = record {
    message = set_headers_by_code (L.set_status_code L.new_message (to_int16 status)) headers;
    body = L.copy_buffer body;
  }

  pub response_of_json_by_code : ℕ → L.Json → List (L.HeaderCode × Str) → Response L
  unfolding set_headers_by_code
  response_of_json_by_code status body headers = record {
    message = set_headers_by_code (L.set_status_code L.new_message (to_int16 status)) headers;
    body = L.copy_buffer (L.to_json body);
  }

  pub default_response : Response L
  default_response = record { message = L.set_status_code L.new_message 200; body = L.create 0 }

  unfoldable pub response_of_status : ℕ → Response L
  response_of_status status = record {
    message = L.set_status_code L.new_message (to_int16 status);
    body = L.create 0;
  }

  unfoldable pub response_of_text : ℕ → Str → Response L
  response_of_text status body = record {
    message = L.set_status_code L.new_message (to_int16 status);
    body = L.copy_buffer body;
  }

  pub get_status_code : Response L → ℕ
  get_status_code response = to_int16 (L.get_status_code response.message)

  pub get_body_string : Response L → Result Str
  get_body_string response = to_string L response.body

  unfoldable pub get_body : Response L → L.IOBuf
  get_body response = L.clone response.body

  -- HTTPResponse::future, of a response.
  abbrev pub future : Response L → L.Future (Response L)
  future response = L.make_future (Response L) response

  -- fromJson, fromString and fromBytes.
  abbrev pub from_json : ℕ → L.Json → List (L.HeaderKey × Str) → L.Future (Response L)
  from_json status body headers = future (response_of_json status body headers)

  abbrev pub from_string : ℕ → Str → List (L.HeaderKey × Str) → L.Future (Response L)
  from_string status body headers = future (response_of_string status body headers)

  abbrev pub from_bytes : ℕ → L.IOBuf → List (L.HeaderKey × Str) → L.Future (Response L)
  from_bytes status body headers = future (response_of_bytes status body headers)

  abbrev pub from_json_by_code : ℕ → L.Json → List (L.HeaderCode × Str) → L.Future (Response L)
  from_json_by_code status body headers = future (response_of_json_by_code status body headers)

  abbrev pub from_string_by_code : ℕ → Str → List (L.HeaderCode × Str) → L.Future (Response L)
  from_string_by_code status body headers = future (response_of_string_by_code status body headers)

  abbrev pub from_bytes_by_code : ℕ → L.IOBuf → List (L.HeaderCode × Str) → L.Future (Response L)
  from_bytes_by_code status body headers = future (response_of_bytes_by_code status body headers)
