-- ===== src/Service.antt =====
-- From a request to the response that is sent: the factory (src/HTTPHandlerFactory.h) makes a handler,
-- which gathers the request and answers it (src/HTTPHandler.cpp). The factory gives it no event base, so
-- that it sends on that of its thread, `current`.
pub mod Answered
pub mod Unmatched
pub mod Matched
pub mod Streamed
use nozomi.Common.{ℕ, ◌≡◌, refl, Option, none, List, [], ◌∷◌, ◌++◌}
use nozomi.Libs.{Libs}
use nozomi.Libs.Builder.{BuilderCall, header_calls, status, body, send_with_eom}
use nozomi.Http.{Response, get_status_code, get_body}
use nozomi.Routing.Factory.{Factory, Created, http_handler, streaming_handler, null, on_request}
use nozomi.HttpHandler.{HttpHandler, make_http_handler, send_response}
use nozomi.HttpHandler.Gathering.{gather}

module _ (L : Libs) where
  -- The callbacks on what the factory has made, if it is an HTTPHandler.
  abbrev pub gather_created :
      L.EventBase → L.Executor → L.Message → List L.IOBuf → Created L → Option (HttpHandler L)
  gather_created current executor message bufs (http_handler timeout router handler) =
      gather L current message bufs (make_http_handler L timeout router handler none executor)
  gather_created current executor message bufs (streaming_handler started) = none
  gather_created current executor message bufs null = none

  -- A handler is made for a request, and given its headers, its body and its end.
  abbrev pub receive_request :
      Factory L → L.EventBase → L.Executor → L.Message → List L.IOBuf → Option (HttpHandler L)
  receive_request factory current executor message bufs =
      gather_created current executor message bufs (on_request L factory message)

  -- What the last callback of the chain of futures sends.
  abbrev pub sent : HttpHandler L → Response L → List (BuilderCall L)
  sent h response = (send_response L response h).sent

  -- The calls on the builder for a response: its status, headers and body, and the end.
  abbrev pub calls : ℕ → Response L → List (BuilderCall L)
  calls code r =
      status code
      ∷ (header_calls L (L.headers r.message) ++ (body (get_body L r) ∷ send_with_eom ∷ []))

  pub sent-calls :
      (h : HttpHandler L) (r : Response L) → h.sent ≡ [] → sent h r ≡ calls (get_status_code L r) r
  unfolding send_response
  sent-calls h r fresh = rw fresh refl
