-- ===== src/Streaming.antt =====
-- StreamingHTTPHandler.h and StreamingHTTPHandler-inl.h: a handler that sends its response in
-- pieces, by tasks on an event base.
pub mod Sent
pub mod Kept
pub mod Protocol
pub mod Drained
pub mod Bodies
pub mod Lost
pub mod Lifetime
pub mod Errors
use nozomi.Common.{
  ℕ, Bool, true, false, Option, none, some, List, [], ◌∷◌, ◌++◌, ◌==◌, if◌then◌else◌, value_or,
  length,
}
use nozomi.Libs.{Libs}
use nozomi.Libs.Builder.{BuilderCall, header_calls, status, body, send, send_with_eom}
use nozomi.Http.{Request, Response, make_request, get_status_code, get_body}

-- A function that is queued by `runInEventBaseThread`.
pub data Task (L : Libs) : Type 0 where
  headers_task : Response L → Task L
  body_task : L.IOBuf → Task L
  eof_task : Task L
  delete_task : Task L

-- class StreamingHTTPHandler, with the tasks that it has queued on `evb_`, the oldest first. A
-- pointer is `none` when it is null; `responseBuilder_` is the list of the calls made on it.
pub record StreamingHandler (L : Libs) : Type 0 where
  pub evb : Option L.EventBase
  pub response_builder : Option (List (BuilderCall L))
  pub sent_headers : Bool
  pub queue : List (Task L)

module _ (L : Libs) where
  -- The constructor.
  unfoldable pub make_streaming_handler : Option L.EventBase → StreamingHandler L
  make_streaming_handler evb = record {
    evb = evb;
    response_builder = none;
    sent_headers = false;
    queue = [];
  }

  -- StreamingHTTPHandler::onRequest, with the request that it passes to `onRequestReceived`.
  -- `current` is the event base of the manager.
  unfoldable pub on_request :
      L.EventBase → L.Message → StreamingHandler L → StreamingHandler L × Request L
  on_request current headers s = (
    record s { evb = some (value_or s.evb current); response_builder = some [] },
    make_request L headers (L.create 0),
  )

  -- `evb_->runInEventBaseThread(…)`, of an event base that is not null.
  abbrev pub post : Task L → StreamingHandler L → StreamingHandler L
  post task s = record s { queue = s.queue ++ task ∷ [] }

  -- IOBuf::length, which is that of the first buffer of a chain.
  unfoldable pub head_length : L.IOBuf → ℕ
  head_length buf = elim (L.chunks buf) [ [] ↦ 0 | chunk ∷ rest ↦ length chunk ]

  unfoldable pub send_response_headers : Response L → StreamingHandler L → StreamingHandler L
  send_response_headers response s = record s {
    sent_headers = true;
    queue = s.queue ++ headers_task response ∷ [];
  }

  unfoldable pub send_body : L.IOBuf → StreamingHandler L → StreamingHandler L
  send_body buf s = if head_length buf == 0 then s else post (body_task buf) s

  unfoldable pub send_eof : StreamingHandler L → StreamingHandler L
  send_eof s = post eof_task s

  -- requestComplete and onError, after the virtual function that each of them calls first.
  unfoldable pub request_complete : StreamingHandler L → StreamingHandler L
  request_complete s = post delete_task s

  unfoldable pub on_error : StreamingHandler L → StreamingHandler L
  on_error s = post delete_task s

  -- What a task calls on the builder.
  unfoldable pub calls_of : Task L → List (BuilderCall L)
  calls_of (headers_task response) =
      status (get_status_code L response)
      ∷ (header_calls L (L.headers response.message)
          ++ ((if head_length (get_body L response) == 0
                then []
                else body (get_body L response) ∷ [])
              ++ send ∷ []))
  calls_of (body_task buf) = body buf ∷ send ∷ []
  calls_of eof_task = send_with_eom ∷ []
  calls_of delete_task = []

  -- A task of an object that is there; `none` is a call through a null builder.
  unfoldable pub run_task : Task L → StreamingHandler L → Option (StreamingHandler L)
  run_task task s = elim s.response_builder [
    | none ↦ none
    | some calls ↦ some (record s { response_builder = some (calls ++ calls_of task) })
  ]
