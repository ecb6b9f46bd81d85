-- ===== src/Examples/SimpleServer.antt =====
-- The example server, on the sample libraries with expressions for its four routes.
use nozomi.Common.{
  append-nil, flatten-append, ap, ◌++◌, ◌-◌, take, ◌≡◌, refl, none, some, List, [], ◌∷◌, arith,
  if◌then◌else◌, drop, Str, codes, str_eq, ok, some_inj, ◌<◌, subst, true, length, ◌≢◌, false,
}
use nozomi.Libs.{Libs, Boost}
use nozomi.Libs.Sample.{sample, begins, int_needle, find_text}
use nozomi.Config.{default_request_timeout_ms}
use nozomi.Routing.Pattern.{route_parser}
use nozomi.Routing.Pattern.Template.{Template, string_param, expand, PrintsDigits, write}
use nozomi.Routing.Pattern.Parsing.{parse_route_pattern-write, ReportsAll}
use nozomi.Routing.Factory.{Factory, on_request}
use nozomi.Server.{Server, bind}
use nozomi.Files.{
  is_unmodified, on_request_received, make_file_handler, set_request_args, FileHandler,
}
use nozomi.SimpleServer.{FileObjects, make_simple_server}
use nozomi.SimpleServer.Routes.{Expressions}
use nozomi.SimpleServer.Requests.{IsServed}
use nozomi.SimpleServer.Contents.{get_file-contents}
use nozomi.Streaming.Bodies.{body_bytes}
use nozomi.Libs.Builder.{BuilderCall}
use nozomi.SimpleServer.Answers.{make_simple_server-IsServed}
use nozomi.Routing.Params.{parameter}
use nozomi.Http.{get_method_and_path}
use nozomi.Routing.Factory.{streaming_handler}
use nozomi.Libs.Sample.{SampleMessage, blank_message}
use nozomi.Streaming.{Task, StreamingHandler}
use nozomi.Streaming.Lifetime.{ended}
use nozomi.Streaming.Sent.{render, IsUpTo}
use nozomi.Files.{sanitize_path, on_eom}
use nozomi.Files.Answers.{Answer}
use nozomi.Files.Serving.{begin, run_queue}
use nozomi.SimpleServer.{public_files}
use nozomi.SimpleServer.Files.{get_file-Answer}
use nozomi.Libs.Laws.{FillLaws, BufferLaws}
use nozomi.Libs.Sample.{on_first}
use nozomi.Examples.Laws.{zeros_behind}
use nozomi.Server.Threads.{astray, started, absent, done, act, quiet}
use nozomi.SimpleServer.Main.{
  State, Event, Execution, Permits, first, next, launched, advance, start_server, got_start, thread,
  returned, thrown,
}
use nozomi.SimpleServer.Main.Ends.{main_ends, left}
use nozomi.Examples.Patterns.{sample_digits, user_template}

abbrev any_needle : Str
any_needle = codes "{{s:.*}}"

-- The iterator finds the parameters of the four patterns.
abbrev find_params : Str → List (List (Str × Str))
find_params [] = []
find_params (c ∷ s) =
    let rest = find_params s in
    if begins int_needle (c ∷ s)
    then ((codes "int", int_needle) ∷ []) ∷ rest
    else if begins any_needle (c ∷ s)
    then ((codes "string", any_needle) ∷ (codes "string_regex", codes ".*") ∷ []) ∷ rest
    else rest

-- An expression matches itself; one that starts with a group captures all behind the first byte.
abbrev site_boost : Boost
site_boost = record {
  Regex = Str;
  compile = λ s. ok s;
  Matches = List (Str × Str);
  regex_match = λ re s.
      if str_eq re s
      then some []
      else if begins (codes "/(") re
      then some ((codes "__0", drop 1 s) ∷ [])
      else none;
  iterate = λ re s. find_params s;
  group = λ m name. find_text name m;
}

-- A handler of requests is a path with the text that was captured.
abbrev site_libs : Libs
site_libs = record sample {
  proxygen = record sample.proxygen { RequestHandler = List Str × Str };
  boost = site_boost;
}

abbrev files : FileObjects site_libs
unfolding set_request_args
files = record {
  as_request_handler = λ h. (h.path, h.raw_path);
  set_args = λ (path, raw_path) s. ok (path, s);
  set_args-as = λ h s. refl;
}

abbrev files_template : Template
files_template = (codes "/", string_param (codes ".*")) ∷ []

site_digits : PrintsDigits site_libs
site_digits = sample_digits

user_reported :
    ReportsAll site_libs (site_libs.iterate route_parser (write user_template [])) user_template
unfolding str_eq
user_reported = (refl, tt)

files_reported :
    ReportsAll site_libs (site_libs.iterate route_parser (write files_template [])) files_template
unfolding str_eq
files_reported = ((refl, refl, refl, refl, refl, refl), tt)

expressions : Expressions site_libs
expressions = record {
  home = codes "/";
  users = codes "/user";
  user = expand site_libs 0 user_template [];
  files = expand site_libs 0 files_template [];
  parsed_home =
      parse_route_pattern-write site_libs [] (codes "/") route_parser site_digits refl tt tt tt;
  parsed_users =
      parse_route_pattern-write site_libs [] (codes "/user") route_parser site_digits refl tt tt tt;
  parsed_user =
      parse_route_pattern-write site_libs user_template [] route_parser site_digits refl
        user_reported (omega arith) (tt, tt);
  parsed_files =
      parse_route_pattern-write site_libs files_template [] route_parser site_digits refl
        files_reported (omega arith) ((codes ".*", refl), tt);
}

make_simple_server-IsServed_example :
    (server : Server site_libs) × (f : Factory site_libs) × (make_simple_server site_libs files
      ≡ some (ok server))
    × (server.options.threads ≡ 2)
    × ((bind site_libs server).bound ≡ ((codes "0.0.0.0", 8080), 0) ∷ [])
    × (server.options.handler_factories ≡ f ∷ [])
    × ((message : site_libs.Message)
        → IsServed site_libs files expressions message default_request_timeout_ms f.router
            (on_request site_libs f message))
make_simple_server-IsServed_example =
    make_simple_server-IsServed site_libs files expressions (codes "0.0.0.0", 8080) refl

fills : FillLaws site_libs
fills = record {
  chunks-create = λ n. refl;
  tailroom-create = λ n. omega arith;
  chunks-append_room = λ b s e. zeros_behind b.chunks s b.room e;
  chunks-write_data = λ b s text e h. ap (on_first (λ r. text ++ drop (length text) r)) e;
  chunks-trim_end = λ b s k e h. ap (on_first (λ r. take (length r - k) r)) e;
}

-- A request for the file `a` below the public directory.
abbrev get_a : SampleMessage
get_a = record blank_message { path = codes "/a" }

abbrev a_matches : List (Str × Str)
a_matches = (codes "__0", codes "a") ∷ []

abbrev made_a : FileHandler site_libs
made_a = set_request_args site_libs (codes "a") (public_files site_libs files)

abbrev asked_a : FileHandler site_libs
asked_a = begin site_libs tt get_a made_a

get_file-Answer_example :
    (server : Server site_libs) × (f : Factory site_libs) × (done : FileHandler site_libs)
    × (ts : List (Task site_libs)) × (s : StreamingHandler site_libs) × (make_simple_server
          site_libs files
        ≡ some (ok server))
    × (server.options.handler_factories ≡ f ∷ [])
    × (on_request site_libs f get_a
        ≡ streaming_handler
            (record { returned = some (files.as_request_handler made_a); deleted = [] }))
    × (asked_a.path
        ≡ site_libs.join (site_libs.to_path (codes "public")) (sanitize_path site_libs (codes "a")))
    × (on_eom site_libs 9 asked_a ≡ ok (some done))
    × (run_queue site_libs done.base ≡ some s)
    × (s.response_builder ≡ some (render site_libs ts))
    × Answer site_libs asked_a ts
    × IsUpTo site_libs ended ts
unfolding get_method_and_path str_eq expressions parameter
get_file-Answer_example =
    get_file-Answer site_libs fills files expressions (codes "0.0.0.0", 8080) get_a a_matches 9 tt
      true (λ e. omega (arith, e)) refl refl (λ e. cc e) refl
      (λ s e. subst (λ s. (length s.text < 9) × (s.fails ≡ false)) (some_inj e) (omega arith, refl))
      refl

buffers : BufferLaws site_libs
buffers = record {
  bytes-create = refl;
  bytes-copy_buffer = λ s. append-nil s;
  bytes-clone = λ b. refl;
  bytes-prepend_chain = λ a b. flatten-append a.chunks b.chunks;
}

get_file-contents_example :
    (server : Server site_libs) × (f : Factory site_libs) × (done : FileHandler site_libs)
    × (s : StreamingHandler site_libs) × (calls : List (BuilderCall site_libs))
    × (make_simple_server site_libs files ≡ some (ok server))
    × (server.options.handler_factories ≡ f ∷ [])
    × (on_request site_libs f get_a
        ≡ streaming_handler
            (record { returned = some (files.as_request_handler made_a); deleted = [] }))
    × (on_eom site_libs 9 asked_a ≡ ok (some done))
    × (run_queue site_libs done.base ≡ some s)
    × (s.response_builder ≡ some calls)
    × (body_bytes site_libs calls ≡ codes "hello")
unfolding get_method_and_path str_eq expressions parameter begin is_unmodified on_request_received
    set_request_args make_file_handler nozomi.Http.get_header nozomi.Streaming.on_request
    nozomi.Http.make_request
get_file-contents_example =
    get_file-contents site_libs fills buffers files expressions (codes "0.0.0.0", 8080) get_a
      a_matches 9 tt (codes "hello") (λ e. omega (arith, e)) refl refl (λ e. cc e) refl refl refl
      refl (omega arith) refl

-- The server serves, and `main` waits for a key.
abbrev served_once : State
served_once = advance got_start (advance (thread started) (advance start_server launched))

served_once-Execution : Execution served_once
unfolding advance launched act quiet
served_once-Execution =
    next got_start (next (thread started) (next start_server first refl) (tt, (λ c. c), refl))
      (refl, tt)

main_ends_example :
    (served_once.world.aborted ≡ false)
    × (served_once.world.stops 0 ≢ astray)
    × (served_once.point ≡ returned
        → (served_once.world.main ≡ absent)
          × (served_once.world.stops 0 ≡ done)
          × (served_once.world.starts ≡ served_once.world.settled))
    × (served_once.point ≢ returned
        → served_once.point ≢ thrown
        → (e : Event) × Permits e served_once)
    × ((e : Event) → Permits e served_once → left (advance e served_once) < left served_once)
main_ends_example = main_ends served_once served_once-Execution
