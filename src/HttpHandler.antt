-- ===== src/HttpHandler.antt =====
-- HTTPHandler.h and HTTPHandler.cpp: a request is gathered, then answered by a chain of futures.
pub mod Gathering
pub mod Outcomes
pub mod Lifetime
pub mod Deleted
use nozomi.Common.{value_or, Option, none, some, List, [], ◌∷◌, ◌++◌, codes, ok, ℤ}
use nozomi.Libs.{Libs}
use nozomi.Libs.Builder.{BuilderCall, header_calls, status, body, send_with_eom}
use nozomi.Http.{Request, Response, make_request, get_status_code, get_body, response_of_text}
use nozomi.Routing.Match.{Handler}
use nozomi.Routing.Router.{Router, get_error_handler}

-- class HTTPHandler. A pointer is `none` when it is null or moved from; `response` is the future
-- before its last `then`, with the event base on which that sends the response; `sent` is what was
-- called on the builder.
pub record HttpHandler (L : Libs) : Type 0 where
  pub timeout : ℤ
  pub router : Router L
  pub handler : Handler L
  pub body : Option L.IOBuf
  pub response_evb : Option L.EventBase
  pub io_executor : L.Executor
  pub message : Option L.Message
  pub response : Option (L.Future (Response L) × L.EventBase)
  pub request : Option (Request L)
  pub sent : List (BuilderCall L)

module _ (L : Libs) where
  -- The constructor.
  unfoldable pub make_http_handler :
      ℤ → Router L → Handler L → Option L.EventBase → L.Executor → HttpHandler L
  make_http_handler timeout router handler response_evb io_executor = record {
    timeout = timeout;
    router = router;
    handler = handler;
    body = some (L.create 0);
    response_evb = response_evb;
    io_executor = io_executor;
    message = none;
    response = none;
    request = none;
    sent = [];
  }

  -- HTTPHandler::sendResponse, which `then` runs on the response: its status, headers and body.
  unfoldable pub send_response : Response L → HttpHandler L → HttpHandler L
  send_response response h = record h {
    sent =
        h.sent
        ++ (status (get_status_code L response)
            ∷ (header_calls L (L.headers response.message)
                ++ (body (get_body L response) ∷ send_with_eom ∷ [])));
  }

  unfoldable pub on_request : L.Message → HttpHandler L → HttpHandler L
  on_request headers h = record h { message = some headers }

  -- HTTPHandler::onBody; `none` is a call through a null pointer.
  unfoldable pub on_body : L.IOBuf → HttpHandler L → Option (HttpHandler L)
  on_body buf h = elim h.body [
    | none ↦ none
    | some chain ↦ some (record h { body = some (L.prepend_chain chain buf) })
  ]

  -- The chain of futures of `onEOM`, for a request.
  unfoldable pub answer : HttpHandler L → Request L → L.Future (Response L)
  answer h request =
      let started = L.via (Response L) h.io_executor (λ _. h.handler request) in
      let recovered =
        L.on_error (Response L) started (λ e. get_error_handler L h.router 500 request) in
      let in_time =
        L.on_timeout (Response L) recovered h.timeout
          (λ _. get_error_handler L h.router 503 request) in
      L.on_error (Response L) in_time
        (λ e. ok (L.make_future (Response L) (response_of_text L 500 (codes "Unknown error"))))

  -- HTTPHandler::onEOM; `none` is a use of a null pointer. `current` is the event base of the manager.
  unfoldable pub on_eom : L.EventBase → HttpHandler L → Option (HttpHandler L)
  on_eom current h = elim h.message [
    | none ↦ none
    | some message ↦ elim h.body [
      | none ↦ none
      | some chain ↦
          let request = make_request L message chain in
          some (record h {
            message = none;
            body = none;
            request = some request;
            response = some (answer h request, value_or h.response_evb current);
          })
    ]
  ]
