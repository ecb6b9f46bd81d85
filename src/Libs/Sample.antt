-- ===== src/Libs/Sample.antt =====
-- A concrete instance of the libraries, on which the tests and examples run: buffers are lists of
-- texts, a future is its outcome, and one form of route pattern is understood.
use nozomi.Common.{
  take, length, [], ℕ, zero, suc, ◌+◌, ◌-◌, ◌*◌, ◌/◌, ◌%◌, ◌^◌, Bool, true, false, ◌&&◌, Option,
  none, some, List, ◌∷◌, ◌++◌, ltb, leb, ◌==◌, if◌then◌else◌, is_set, value_or, drop, any, Str,
  codes, str_eq, Exception, external, Result, ok, err, ℤ, pos, negsuc, not, keep,
}
use nozomi.Libs.{readable, Libs, Proxygen, Folly, Boost, Filesystem}
use native.Mathlib.Decide.{ℕ_discrete}

pub record SampleMessage : Type 0 where
  pub verb : Option ℕ
  pub path : Str
  pub params : List (Str × Str)
  pub status : ℕ
  pub headers : ℕ → Str

abbrev pub blank_message : SampleMessage
blank_message = record { verb = none; path = []; params = []; status = 0; headers = λ _. [] }

abbrev pub find_text : Str → List (Str × Str) → Option Str
find_text k [] = none
find_text k ((j, v) ∷ m) = if str_eq j k then some v else find_text k m

abbrev sample_proxygen : Proxygen
sample_proxygen = record {
  Method = ℕ;
  get = 0;
  post = 1;
  Method-discrete = ℕ_discrete;
  HeaderKey = ℕ;
  HeaderCode = ℕ;
  of_code = λ c. c;
  content_type = 1;
  if_modified_since = 2;
  Message = SampleMessage;
  get_method = λ m. m.verb;
  get_path = λ m. m.path;
  has_query_param = λ m k. is_set (find_text k m.params);
  get_decoded_query_param = λ m k. value_or (find_text k m.params) [];
  get_query_params = λ m. m.params;
  get_single_or_empty = λ m k. m.headers k;
  get_cookie = λ m k. [];
  new_message = blank_message;
  set_status_code = λ m s. record m { status = s };
  get_status_code = λ m. m.status;
  set_header = λ m k v. record m { headers = λ j. if k == j then v else m.headers j };
  headers = λ m.
      keep (λ kv. not (str_eq kv.1 []))
        ((1, m.headers 1) ∷ (2, m.headers 2) ∷ (5, m.headers 5) ∷ []);
  RequestHandler = ℕ;
  Protocol = ℕ;
  http = 0;
}

-- A future: it settles after some milliseconds, or never.
pub data SampleFuture (A : Type 0) : Type 0 where
  settles : ℕ → Result A → SampleFuture A
  never : SampleFuture A

abbrev pub later : {A : Type 0} → ℕ → SampleFuture A → SampleFuture A
later d (settles t r) = settles (d + t) r
later d never = never

abbrev pub run : {A : Type 0} → ℕ → Result (SampleFuture A) → SampleFuture A
run d (ok f) = later d f
run d (err e) = settles d (err e)

abbrev pub recover :
    {A : Type 0} → SampleFuture A → (Exception → Result (SampleFuture A)) → SampleFuture A
recover (settles t (ok a)) h = settles t (ok a)
recover (settles t (err e)) h = run t (h e)
recover never h = never

abbrev pub milliseconds : ℤ → ℕ
milliseconds (pos n) = n
milliseconds (negsuc n) = 0

abbrev pub expire :
    {A : Type 0} → SampleFuture A → ℕ → (Unit {0} → Result (SampleFuture A)) → SampleFuture A
expire (settles t r) limit h = if ltb t limit then settles t r else run limit (h tt)
expire never limit h = run limit (h tt)

unfoldable pub digits : ℕ → ℕ → Str
digits zero n = []
digits (suc fuel) n =
    let more = digits fuel (n / 10) in if n == 0 then [] else more ++ (48 + n % 10) ∷ []

abbrev print_int : ℤ → Str
print_int (pos n) = if n == 0 then codes "0" else digits 20 n
print_int (negsuc n) = codes "-" ++ digits 20 (n + 1)

abbrev is_digit : ℕ → Bool
is_digit c = leb 48 c && leb c 57

-- Digits only, at most `int64_max`.
abbrev read_int : Str → ℕ → Result ℤ
read_int [] n = if leb n (2 ^ 63 - 1) then ok (pos n) else err (external (codes "overflow"))
read_int (c ∷ s) n =
    let rest = read_int s (n * 10 + (c - 48)) in
    if is_digit c then rest else err (external (codes "not a digit"))

abbrev read_number : Str → Result ℤ
read_number [] = err (external (codes "empty"))
read_number (c ∷ s) = read_int (c ∷ s) 0

-- A text with a `%` is refused.
abbrev unescape : Str → Result Str
unescape s = if any (λ c. c == b'%') s then err (external (codes "bad escape")) else ok s

abbrev pub cut : ℕ → Str → Str → List Str
cut sep [] [] = []
cut sep (d ∷ cur) [] = (d ∷ cur) ∷ []
cut sep cur (c ∷ s) = elim (c == sep) [
  | true ↦ cur ∷ cut sep [] s
  | false ↦ cut sep (cur ++ c ∷ []) s
]

abbrev pub cut_once : ℕ → Str → Str → Option (Str × Str)
cut_once sep cur [] = none
cut_once sep cur (c ∷ s) = elim (c == sep) [
  | true ↦ some (cur, s)
  | false ↦ cut_once sep (cur ++ c ∷ []) s
]

abbrev first_of_text : Str → ℕ
first_of_text [] = 0
first_of_text (c ∷ s) = c

-- A chain of buffers, with the room behind the data of its first one, where the memory holds zeros.
pub record SampleBuffer : Type 0 where
  pub chunks : List Str
  pub room : ℕ

abbrev pub chain : List Str → SampleBuffer
chain texts = record { chunks = texts; room = 0 }

abbrev pub on_first : (Str → Str) → List Str → List Str
on_first f [] = []
on_first f (s ∷ rest) = f s ∷ rest

abbrev on_head : (Str → Str) → ℕ → SampleBuffer → SampleBuffer
on_head f room b = record { chunks = on_first f b.chunks; room = room }

abbrev pub zeros : ℕ → Str
zeros zero = []
zeros (suc n) = 0 ∷ zeros n

-- A new buffer has `extra` bytes of room more than was asked for.
abbrev sample_folly : ℕ → Folly
sample_folly extra = record {
  IOBuf = SampleBuffer;
  chunks = λ b. b.chunks;
  create = λ n. record { chunks = [] ∷ []; room = n + extra };
  copy_buffer = λ s. chain (s ∷ []);
  clone = λ b. b;
  prepend_chain = λ a b. record { chunks = a.chunks ++ b.chunks; room = a.room };
  tailroom = λ b. b.room;
  append_room = λ b k. on_head (λ s. s ++ zeros k) (b.room - k) b;
  write_data = λ b text. on_head (λ s. text ++ drop (length text) s) b.room b;
  trim_end = λ b k. on_head (λ s. take (length s - k) s) (b.room + k) b;
  Double = Str;
  to_int64 = read_number;
  to_double = λ s. ok s;
  format_int = print_int;
  uri_unescape = λ mode s. unescape s;
  split = λ sep s. cut (first_of_text sep) [] s;
  split_pair = λ sep s. cut_once (first_of_text sep) [] s;
  Json = Str;
  parse_json = λ s. ok s;
  to_json = λ j. j;
  SocketAddress = Str × ℕ;
  socket_address = λ host port. ok (host, port);
  EventBase = Unit {0};
  Executor = ℕ;
  Future = SampleFuture;
  make_future = λ A a. settles 0 (ok a);
  via = λ A ex f. run ex (f tt);
  on_error = λ A f h. recover f h;
  on_timeout = λ A f limit h. expire f (milliseconds limit) h;
}

abbrev pub begins : Str → Str → Bool
begins [] s = true
begins (a ∷ needle) [] = false
begins (a ∷ needle) (b ∷ s) = a == b && begins needle s

abbrev pub int_needle : Str
int_needle = codes "{{i}}"

-- The iterator finds the parameters `{{i}}` alone.
abbrev find_ints : Str → List (List (Str × Str))
find_ints [] = []
find_ints (c ∷ s) =
    if begins int_needle (c ∷ s)
    then ((codes "int", int_needle) ∷ []) ∷ find_ints s
    else find_ints s

abbrev user_prefix : Str
user_prefix = codes "/user/"

-- Every expression matches the paths under `/user/`, and captures the rest as `__0`.
abbrev sample_boost : Boost
sample_boost = record {
  Regex = Str;
  compile = λ s. ok s;
  Matches = List (Str × Str);
  regex_match = λ re s. if begins user_prefix s then some ((codes "__0", drop 6 s) ∷ []) else none;
  iterate = λ re s. find_ints s;
  group = λ m name. find_text name m;
}

abbrev drop_last : List Str → List Str
drop_last [] = []
drop_last (c ∷ []) = []
drop_last (c ∷ d ∷ p) = c ∷ drop_last (d ∷ p)

-- A path is the list of its components, and every path is a file that holds one text.
abbrev sample_filesystem : Filesystem
sample_filesystem = record {
  FilePath = List Str;
  to_path = λ s. if str_eq s [] then [] else cut b'/' [] s;
  canonical = λ p. ok p;
  is_symlink = λ p. ok false;
  is_directory = λ p. ok true;
  read_symlink = λ p. ok p;
  is_regular_file = λ p. ok true;
  last_write_time = λ p. some (pos 5);
  contents = λ p. some (readable (codes "hello"));
  empty_path = [];
  components = λ p. p;
  append = λ p c. p ++ c ∷ [];
  remove_filename = λ p. drop_last p;
  join = λ p q. p ++ q;
  parse_date = λ s. none;
}

abbrev pub sample : Libs
sample = record {
  proxygen = sample_proxygen;
  folly = sample_folly 0;
  boost = sample_boost;
  filesystem = sample_filesystem;
}

-- The same, but that new buffers have more room.
abbrev pub roomy : ℕ → Libs
roomy extra = record sample { folly = sample_folly extra }
