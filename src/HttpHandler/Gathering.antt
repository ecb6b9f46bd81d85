-- ===== src/HttpHandler/Gathering.antt =====
-- From the callbacks of a connection to the request that is handled.
use nozomi.Common.{
  value_or, ◌≡◌, refl, sym, ap, ◌∙◌, Option, none, some, List, [], ◌∷◌, ◌++◌, map, append-nil,
  append_assoc, flatten, Str, ℤ,
}
use nozomi.Libs.{Libs}
use nozomi.Libs.Laws.{BufferLaws}
use nozomi.Http.{Request, make_request}
use nozomi.Routing.Match.{Handler}
use nozomi.Routing.Router.{Router}
use nozomi.HttpHandler.{HttpHandler, make_http_handler, on_request, on_body, on_eom, answer}

module _ (L : Libs) where
  abbrev pub bytes : L.IOBuf → Str
  bytes b = flatten (L.chunks b)

  -- The calls of `onBody`, in order.
  abbrev pub receive : List L.IOBuf → HttpHandler L → Option (HttpHandler L)
  receive [] h = some h
  receive (buf ∷ bufs) h = elim (on_body L buf h) [ none ↦ none | some h' ↦ receive bufs h' ]

  abbrev finish : L.EventBase → Option (HttpHandler L) → Option (HttpHandler L)
  finish current none = none
  finish current (some h) = on_eom L current h

  -- The callbacks of a request: `onRequest`, `onBody` for each buffer, `onEOM`.
  abbrev pub gather :
      L.EventBase → L.Message → List L.IOBuf → HttpHandler L → Option (HttpHandler L)
  gather current message bufs h = finish current (receive bufs (on_request L message h))

  module _ (B : BufferLaws L) where
    receive_lem :
        (bufs : List L.IOBuf) (h : HttpHandler L) (body : L.IOBuf)
        → (body' : L.IOBuf) × (receive bufs (record h { body = some body })
            ≡ some (record h { body = some body' }))
          × (bytes body' ≡ bytes body ++ flatten (map bytes bufs))
    unfolding on_body
    receive_lem [] h body = (body, refl, sym (append-nil (bytes body)))
    receive_lem (buf ∷ bufs) h body =
        let (body', e, whole) = receive_lem bufs h (L.prepend_chain body buf) in
        (
          body',
          e,
          whole
              ∙ ap (λ s. s ++ flatten (map bytes bufs)) (B.bytes-prepend_chain body buf)
              ∙ append_assoc (bytes body) (bytes buf) _,
        )

    -- A new handler that is given the headers and the buffers of a body uses no null pointer; the
    -- request that it then handles has those headers, and as its body the bytes of the buffers in
    -- order, and the future of its response is that of the handler for this request, to be sent on the
    -- handler's own event base, or the thread's if it has none. Nothing has been sent by then.
    -- It is assumed that buffers behave as documented.
    pub gather-request :
        (timeout : ℤ) (router : Router L) (handler : Handler L) (evb : Option L.EventBase)
        (executor : L.Executor) (current : L.EventBase) (message : L.Message) (bufs : List L.IOBuf)
        → (h : HttpHandler L) × (request : Request L) × (gather current message bufs
              (make_http_handler L timeout router handler evb executor)
            ≡ some h)
          × (h.request ≡ some request)
          × (request.message ≡ message)
          × (bytes request.body ≡ flatten (map bytes bufs))
          × (h.response
              ≡ some (
                answer L (make_http_handler L timeout router handler evb executor) request,
                value_or evb current,
              ))
          × (h.sent ≡ [])
    unfolding make_http_handler on_request on_eom make_request answer
    gather-request timeout router handler evb executor current message bufs =
        let fresh =
          on_request L message (make_http_handler L timeout router handler evb executor) in
        let (body, e, whole) = receive_lem bufs fresh (L.create 0) in
        let request = make_request L message body in
        (
          record fresh {
            message = none;
            body = none;
            request = some request;
            response = some (answer L fresh request, value_or evb current);
          },
          request,
          ap (finish current) e,
          refl,
          refl,
          whole ∙ ap (λ s. s ++ flatten (map bytes bufs)) B.bytes-create,
          refl,
          refl,
        )
