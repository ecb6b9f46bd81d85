-- ===== src/Service/Answered.antt =====
-- A request for which the factory makes an HTTPHandler.
use nozomi.Common.{◌≡◌, ap, ◌∙◌, none, some, List, map, flatten, Result, ok}
use nozomi.Libs.{Libs}
use nozomi.Libs.Laws.{BufferLaws}
use nozomi.Libs.Futures.{FutureLaws}
use nozomi.Http.{Request, Response, get_status_code}
use nozomi.Config.{Config}
use nozomi.Routing.Match.{Handler}
use nozomi.Routing.Router.{Router, get_handler}
use nozomi.Routing.Factory.{make_factory, on_request_handler}
use nozomi.HttpHandler.{HttpHandler, make_http_handler, answer}
use nozomi.HttpHandler.Gathering.{gather-request, bytes}
use nozomi.HttpHandler.Outcomes.{Outcome, answer-Outcome}
use nozomi.Service.{gather_created, receive_request, sent, calls, sent-calls}

module _ (L : Libs) (Yields : (A : Type 0) → L.Future A → Result A → Type 0) where
  -- A request is gathered by a handler object for a handler, which is given its headers and the
  -- whole body, and whatever the future of its response completes with is a response, which is sent
  -- on the event base of the thread: the handler's own, or one of the error handlers after it failed or
  -- the timeout came.
  abbrev pub IsAnswered :
      Config L → Router L → L.EventBase → L.Executor → L.Message → List L.IOBuf → Handler L → Type 0
  IsAnswered config router current executor message bufs handler =
      let fresh = make_http_handler L config.request_timeout router handler none executor in
      (h : HttpHandler L) × (request : Request L) × (receive_request L
          (make_factory L config router) current executor message bufs
        ≡ some h)
      × (request.message ≡ message)
      × (bytes L request.body ≡ flatten (map (bytes L) bufs))
      × (h.response ≡ some (answer L fresh request, current))
      × ((result : Result (Response L))
          → Yields (Response L) (answer L fresh request) result
          → (r : Response L) × (result ≡ ok r)
            × Outcome L Yields fresh request r
            × (sent L h r ≡ calls L (get_status_code L r) r))

  pub handler-IsAnswered :
      (B : BufferLaws L) (F : FutureLaws L Yields) (config : Config L) (router : Router L)
      (current : L.EventBase) (executor : L.Executor) (message : L.Message) (bufs : List L.IOBuf)
      (handler : Handler L)
      → (get_handler L router message).handler ≡ some handler
      → IsAnswered config router current executor message bufs handler
  unfolding make_factory
  handler-IsAnswered B F config router current executor message bufs handler e =
      let created = on_request_handler L (make_factory L config router) message handler e in
      let fresh = make_http_handler L config.request_timeout router handler none executor in
      let (h, request, gathered, asked, headers, whole, response, unsent) =
        gather-request L B config.request_timeout router handler none executor current message
          bufs in
      (
        h,
        request,
        ap (gather_created L current executor message bufs) created ∙ gathered,
        headers,
        whole,
        response,
        λ result y.
            let (r, same, outcome) = answer-Outcome L Yields F fresh request result y in
            (r, same, outcome, sent-calls L h r unsent),
      )
