-- ===== src/Libs.antt =====
-- What the program takes from proxygen, folly and Boost: abstract types and the operations that the
-- source calls. Every component takes a value of `Libs`; the behaviour that a theorem relies on is
-- a hypothesis of that theorem. `Libs.Sample` is a concrete instance, for the tests.
pub mod Laws
pub mod Futures
pub mod Builder
pub mod Sample
use nozomi.Common.{ℕ, Str, Bool, false, Option, List, Result, Exception, ℤ}

-- proxygen::HTTPMethod, HTTPMessage and HTTPHeaders. A header is named by its text, or by its code, as
-- which it has the name `of_code`;
-- `headers` is what `forEach` visits.
pub record Proxygen : Type 1 where
  pub Method : Type 0
  pub get : Method
  pub post : Method
  pub Method-discrete : Discrete Method
  pub HeaderKey : Type 0
  pub HeaderCode : Type 0
  pub of_code : HeaderCode → HeaderKey
  pub content_type : HeaderKey
  pub if_modified_since : HeaderKey
  pub Message : Type 0
  pub get_method : Message → Option Method
  pub get_path : Message → Str
  pub has_query_param : Message → Str → Bool
  pub get_decoded_query_param : Message → Str → Str
  pub get_query_params : Message → List (Str × Str)
  pub get_single_or_empty : Message → HeaderKey → Str
  pub get_cookie : Message → Str → Str
  pub new_message : Message
  pub set_status_code : Message → ℕ → Message
  pub get_status_code : Message → ℕ
  pub set_header : Message → HeaderKey → Str → Message
  pub headers : Message → List (HeaderKey × Str)
  pub RequestHandler : Type 0
  pub Protocol : Type 0
  pub http : Protocol

pub data UriEscapeMode : Type 0 where
  query path : UriEscapeMode

-- folly's buffers, conversions, text functions and futures. `chunks` is what a range-for over a
-- buffer chain visits; `create`, `tailroom`, `append_room` and `trim_end` are IOBuf::create, tailroom,
-- append and trimEnd, and `write_data` is a write through writableData, from the start of the data.
-- `split_pair` is `folly::split<false>` into two pieces. The callbacks of
-- a future are run with `Unit` where they take no argument, and may throw.
pub record Folly : Type 1 where
  pub IOBuf : Type 0
  pub chunks : IOBuf → List Str
  pub create : ℕ → IOBuf
  pub copy_buffer : Str → IOBuf
  pub clone : IOBuf → IOBuf
  pub prepend_chain : IOBuf → IOBuf → IOBuf
  pub tailroom : IOBuf → ℕ
  pub append_room : IOBuf → ℕ → IOBuf
  pub write_data : IOBuf → Str → IOBuf
  pub trim_end : IOBuf → ℕ → IOBuf
  pub Double : Type 0
  pub to_int64 : Str → Result ℤ
  pub to_double : Str → Result Double
  pub format_int : ℤ → Str
  pub uri_unescape : UriEscapeMode → Str → Result Str
  pub split : Str → Str → List Str
  pub split_pair : Str → Str → Option (Str × Str)
  pub Json : Type 0
  pub parse_json : Str → Result Json
  pub to_json : Json → Str
  pub SocketAddress : Type 0
  pub socket_address : Str → ℕ → Result SocketAddress
  pub EventBase : Type 0
  pub Executor : Type 0
  pub Future : Type 0 → Type 0
  pub make_future : (A : Type 0) → A → Future A
  pub via : (A : Type 0) → Executor → (Unit {0} → Result (Future A)) → Future A
  pub on_error : (A : Type 0) → Future A → (Exception → Result (Future A)) → Future A
  pub on_timeout : (A : Type 0) → Future A → ℤ → (Unit {0} → Result (Future A)) → Future A

-- Boost.Regex: `compile` is the constructor of `basic_regex`, `group` a named sub-match, and
-- `iterate` the range of an `sregex_iterator`.
pub record Boost : Type 1 where
  pub Regex : Type 0
  pub compile : Str → Result Regex
  pub Matches : Type 0
  pub regex_match : Regex → Str → Option Matches
  pub iterate : Regex → Str → List Matches
  pub group : Matches → Str → Option Str

-- What a std::ifstream reads: some bytes, and then the end of the file, or an error if it `fails`.
pub record Stream : Type 0 where
  pub text : Str
  pub fails : Bool

abbrev pub readable : Str → Stream
readable text = record { text = text; fails = false }

-- Boost.Filesystem, at one moment. Each call that asks the disk may throw, but `last_write_time`,
-- which reports an error code. `contents` is the stream on a file, if it opens; a path is
-- visited by the texts of its components; `parse_date` is `strptime` and `mktime` from the C library.
pub record Filesystem : Type 1 where
  pub FilePath : Type 0
  pub to_path : Str → FilePath
  pub canonical : FilePath → Result FilePath
  pub is_symlink : FilePath → Result Bool
  pub is_directory : FilePath → Result Bool
  pub read_symlink : FilePath → Result FilePath
  pub is_regular_file : FilePath → Result Bool
  pub last_write_time : FilePath → Option ℤ
  pub contents : FilePath → Option Stream
  pub empty_path : FilePath
  pub components : FilePath → List Str
  pub append : FilePath → Str → FilePath
  pub remove_filename : FilePath → FilePath
  pub join : FilePath → FilePath → FilePath
  pub parse_date : Str → Option ℤ

pub record Libs : Type 1 where
  pub proxygen : Proxygen
  pub open proxygen use *
  pub folly : Folly
  pub open folly use *
  pub boost : Boost
  pub open boost use *
  pub filesystem : Filesystem
  pub open filesystem use *
