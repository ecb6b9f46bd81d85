-- ===== src/SimpleServer/Files.antt =====
-- A request for a file to the example server, from the factory to the calls on the builder.
use nozomi.Common.{
  some_inj, ℕ, ◌<◌, ◌≡◌, refl, sym, ap, ◌∙◌, ◌≢◌, inr, Bool, none, some, List, [], ◌∷◌, arith,
  length, codes, ok, ℤ, false,
}
use nozomi.Libs.{Libs, Stream}
use nozomi.Libs.Laws.{FillLaws}
use nozomi.Http.{get_method_and_path}
use nozomi.Routing.Match.{Started, Handler}
use nozomi.Routing.Params.{text, parameter}
use nozomi.Routing.Router.{Router}
use nozomi.Routing.Factory.{Factory, Created, streaming_handler, on_request}
use nozomi.Config.{default_file_reader_buffer_size}
use nozomi.Server.{Server}
use nozomi.Streaming.{Task, StreamingHandler}
use nozomi.Streaming.Lifetime.{ended}
use nozomi.Streaming.Sent.{render, IsUpTo}
use nozomi.Files.{FileHandler, set_request_args, sanitize_path, on_eom}
use nozomi.Files.Answers.{Answer}
use nozomi.Files.Serving.{begin, run_queue, begin-Answer}
use nozomi.SimpleServer.{FileObjects, public_files, make_simple_server}
use nozomi.SimpleServer.Routes.{Expressions}
use nozomi.SimpleServer.Requests.{
  IsOn, IsA, IsRefused, no_route, no_method, IsHandler, at_home, creates, shows, refused, IsFile,
  opens, IsServed, handled, started,
}
use nozomi.SimpleServer.Answers.{make_simple_server-IsServed}

module _ (L : Libs) (O : FileObjects L) (E : Expressions L) (message : L.Message)
    (matches : L.Matches) (distinct : L.get ≢ L.post) (gets : IsA L O E message L.get)
    (elsewhere : ¬ IsOn L O E message E.home)
    (found : L.regex_match E.files (get_method_and_path L message).1 ≡ some matches) where
  -- The handler that is made for the request.
  abbrev asked : FileHandler L
  asked = set_request_args L (text (parameter L 0 matches)) (public_files L O)

  is_refused : {code : ℕ} → ¬ IsRefused L O E message code
  is_refused (no_route _ _ _ no_file) = no_file (rw found refl)
  is_refused (no_method _ not_get _) = not_get (inr (rw found refl)) gets

  is_handled : {h : Handler L} → ¬ IsHandler L O E message h
  is_handled (at_home _ on) = elsewhere on
  is_handled (creates posts _) = distinct (cc (gets, posts))
  is_handled (shows _ _ posts _ _ _) = distinct (cc (gets, posts))
  is_handled (refused code is) = is_refused is

  -- The object that the factory returns for it.
  abbrev pub opened : Started L
  opened = record { returned = some (O.as_request_handler asked); deleted = [] }

  file-opened : {s : Started L} → IsFile L O E message s → s ≡ opened
  file-opened (opens matches' _ _ e) =
      ap
        (λ m. record {
          returned = some (
              O.as_request_handler
                (set_request_args L (text (parameter L 0 m)) (public_files L O)));
          deleted = [];
        })
        (some_inj (sym e ∙ found))

  served-opened :
      {timeout : ℤ} {router : Router L} {c : Created L}
      → IsServed L O E message timeout router c
      → c ≡ streaming_handler opened
  served-opened (handled h is) = absurd (is_handled is)
  served-opened (started s is) = ap (λ s. streaming_handler s) (file-opened is)

module _ (L : Libs) (R : FillLaws L) (O : FileObjects L) (E : Expressions L) where
  -- A GET to the example server, of a path that the expression of its last route matches, and that of
  -- the first does not: the factory returns a new handler of files, which has the text that was
  -- captured; and when this handler has been given the request, and the event base has run what
  -- `onEOM` queued, the calls on the builder are those of one whole response, which answers for the
  -- sanitized text below the directory `public`, in each of the cases of `Answer`.
  -- It is assumed that GET is not POST, that the address resolves, that the file has fewer bytes than
  -- the fuel and can be read to its end, that the question whether the path is a regular file does not
  -- throw, that buffers behave as documented, that the patterns are parsed, and that a file handler is called
  -- through its base class as itself.
  pub get_file-Answer :
      (address : L.SocketAddress) (message : L.Message) (matches : L.Matches) (fuel : ℕ)
      (current : L.EventBase) (regular : Bool)
      → let raw_path = text (parameter L 0 matches) in
        let made = set_request_args L raw_path (public_files L O) in
        let handler = begin L current message made in
        L.get ≢ L.post
        → L.socket_address (codes "0.0.0.0") 8080 ≡ ok address
        → IsA L O E message L.get
        → ¬ IsOn L O E message E.home
        → L.regex_match E.files (get_method_and_path L message).1 ≡ some matches
        → ((stream : Stream)
            → L.contents handler.path ≡ some stream
            → (length stream.text < fuel) × (stream.fails ≡ false))
        → L.is_regular_file handler.path ≡ ok regular
        → (server : Server L) × (f : Factory L) × (done : FileHandler L) × (ts : List (Task L))
          × (s : StreamingHandler L) × (make_simple_server L O ≡ some (ok server))
          × (server.options.handler_factories ≡ f ∷ [])
          × (on_request L f message
              ≡ streaming_handler
                  (record { returned = some (O.as_request_handler made); deleted = [] }))
          × (handler.path ≡ L.join (L.to_path (codes "public")) (sanitize_path L raw_path))
          × (on_eom L fuel handler ≡ ok (some done))
          × (run_queue L done.base ≡ some s)
          × (s.response_builder ≡ some (render L ts))
          × Answer L handler ts
          × IsUpTo L ended ts
  get_file-Answer address message matches fuel current regular distinct resolved gets elsewhere
        found enough e =
      let (server, f, made, _, _, factories, serves) =
        make_simple_server-IsServed L O E address resolved in
      let (done, ts, s, path, same, ran, calls, answer, whole) =
        begin-Answer L R fuel (L.to_path (codes "public")) default_file_reader_buffer_size none
          (text (parameter L 0 matches)) current message regular (omega arith) enough e in
      (
        server,
        f,
        done,
        ts,
        s,
        made,
        factories,
        served-opened L O E message matches distinct gets elsewhere found (serves message),
        path,
        same,
        ran,
        calls,
        answer,
        whole,
      )
