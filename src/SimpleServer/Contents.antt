-- ===== src/SimpleServer/Contents.antt =====
-- The contents of a file that the example server sends.
use nozomi.Common.{
  some_inj, ℕ, ◌<◌, ◌≡◌, refl, sym, subst, ◌∙◌, ◌≢◌, true, false, some, List, [], ◌∷◌, length, Str,
  codes, ok,
}
use nozomi.Libs.{Libs, readable}
use nozomi.Libs.Builder.{BuilderCall}
use nozomi.Libs.Laws.{FillLaws, BufferLaws}
use nozomi.Http.{get_method_and_path}
use nozomi.Routing.Params.{text, parameter}
use nozomi.Routing.Factory.{Factory, streaming_handler, on_request}
use nozomi.Config.{default_file_reader_buffer_size}
use nozomi.Server.{Server}
use nozomi.Streaming.{StreamingHandler}
use nozomi.Streaming.Bodies.{body_bytes}
use nozomi.Streaming.Sent.{render}
use nozomi.Files.{
  FileHandler, set_request_args, is_unmodified, on_eom, on_request_received, make_file_handler,
}
use nozomi.Files.Bytes.{Answer-bytes}
use nozomi.Files.Serving.{begin, run_queue}
use nozomi.SimpleServer.{FileObjects, public_files, make_simple_server}
use nozomi.SimpleServer.Routes.{Expressions}
use nozomi.SimpleServer.Requests.{IsOn, IsA}
use nozomi.SimpleServer.Files.{get_file-Answer}

module _ (L : Libs) (R : FillLaws L) (B : BufferLaws L) (O : FileObjects L)
    (E : Expressions L) where
  -- A GET to the example server, of a path that the expression of its last route matches, and that of
  -- the first does not, for a file that is newer than the date of the request and opens: the factory
  -- returns a new handler of files; and when this handler has been given the request, and the event
  -- base has run what `onEOM` queued, the bodies that the builder has been given are the contents of
  -- the file, each byte once and in order.
  -- It is assumed that GET is not POST, that the address resolves, that the file has fewer bytes than
  -- the fuel and can be read to its end, that new buffers get the room that was asked for and no more,
  -- that buffers behave as documented, that the patterns are parsed, and that a file handler is called
  -- through its base class as itself.
  pub get_file-contents :
      (address : L.SocketAddress) (message : L.Message) (matches : L.Matches) (fuel : ℕ)
      (current : L.EventBase) (contents : Str)
      → let made = set_request_args L (text (parameter L 0 matches)) (public_files L O) in
        let handler = begin L current message made in
        L.get ≢ L.post
        → L.socket_address (codes "0.0.0.0") 8080 ≡ ok address
        → IsA L O E message L.get
        → ¬ IsOn L O E message E.home
        → L.regex_match E.files (get_method_and_path L message).1 ≡ some matches
        → L.is_regular_file handler.path ≡ ok true
        → is_unmodified L handler ≡ false
        → L.contents handler.path ≡ some (readable contents)
        → length contents < fuel
        → L.tailroom (L.create default_file_reader_buffer_size) ≡ default_file_reader_buffer_size
        → (server : Server L) × (f : Factory L) × (done : FileHandler L) × (s : StreamingHandler L)
          × (calls : List (BuilderCall L)) × (make_simple_server L O ≡ some (ok server))
          × (server.options.handler_factories ≡ f ∷ [])
          × (on_request L f message
              ≡ streaming_handler
                  (record { returned = some (O.as_request_handler made); deleted = [] }))
          × (on_eom L fuel handler ≡ ok (some done))
          × (run_queue L done.base ≡ some s)
          × (s.response_builder ≡ some calls)
          × (body_bytes L calls ≡ contents)
  unfolding begin on_request_received set_request_args make_file_handler
  get_file-contents address message matches fuel current contents distinct resolved gets elsewhere
        found regular new opens enough exact =
      let (server, f, done, ts, s, made, factories, serves, _, same, ran, calls, answer, _) =
        get_file-Answer L R O E address message matches fuel current true distinct resolved gets
          elsewhere found
          (λ s e.
            subst (λ s. (length s.text < fuel) × (s.fails ≡ false)) (some_inj (sym opens ∙ e))
              (enough, refl))
          regular in
      (
        server,
        f,
        done,
        s,
        render L ts,
        made,
        factories,
        serves,
        same,
        ran,
        calls,
        Answer-bytes L B
            (begin L current message
              (set_request_args L (text (parameter L 0 matches)) (public_files L O)))
            contents exact regular new opens answer,
      )
