-- ===== src/RequestId.antt =====
-- api/handler.go and logging/logging.go: the request id, from the request's header to the reply's
-- header and to every log entry of the handler. The text of a fresh uuid is an argument.
use k8s_explore.Base.{
  String, str_eq, eq_iff, Option, none, some, ◌≡◌, ◌≢◌, ◌∙◌, arith, if◌then◌else◌, Bool-cases, inl,
  inr,
}
use k8s_explore.Base.Dict.{Dict, lookup, insert, delete, lookup-insert_self, lookup-insert_ne}
use Prim.Native.String.{slice}

-- `HeaderRequestID`
abbrev pub header_request_id : String
header_request_id = "X-Request-ID"

-- What the middleware uses of a `gin.Context`: the request's headers, the request id in its context,
-- and the reply's headers.
pub record GinContext : Type 0 where
  pub request_headers : Dict String
  pub request_id : Option String
  pub reply_headers : Dict String

-- `c.GetHeader(key)`: a missing header reads as "".
abbrev pub get_header : String → GinContext → String
get_header key c = elim (lookup key c.request_headers) [ none ↦ "" | some v ↦ v ]

-- `c.Header(key, value)`: gin takes a header with an empty value out.
abbrev pub set_header : String → String → GinContext → GinContext
set_header key value c = record c {
  reply_headers =
      if str_eq value "" then delete key c.reply_headers else insert key value c.reply_headers;
}

-- `rid` of `MiddlewareRequestID`
unfoldable pub request_id_of : String → GinContext → String
request_id_of uuid c =
    let rid = get_header header_request_id c in if str_eq rid "" then slice uuid 0 8 else rid

-- `MiddlewareRequestID`; `next` is the rest of the chain.
unfoldable pub middleware_request_id : {A : Type 0} → String → (GinContext → A) → GinContext → A
unfolding request_id_of
middleware_request_id uuid next c =
    let rid = request_id_of uuid c in
    next (set_header header_request_id rid (record c { request_id = some rid }))

-- A `logrus.Entry`, by its fields.
abbrev pub Fields : Type 0
Fields = Dict String

-- `WithRequestID`
unfoldable pub with_request_id : Option String → Fields → Fields
with_request_id rid logger = insert "request_id" (elim rid [ none ↦ "none" | some id ↦ id ]) logger

-- `NewHandler`, by the logger of the new handler.
unfoldable pub new_handler : String → Fields → Fields
new_handler name logger = insert "handler" name logger

-- `Handler.Logger`
unfoldable pub handler_logger : Fields → GinContext → Fields
unfolding with_request_id
handler_logger logger c = with_request_id c.request_id logger

request_id_of-ne :
    (uuid : String) (c : GinContext) → slice uuid 0 8 ≢ "" → request_id_of uuid c ≢ ""
unfolding request_id_of
request_id_of-ne uuid c fresh = elim (Bool-cases (str_eq (get_header header_request_id c) "")) [
  | inl blank ↦ rw blank fresh
  | inr full ↦ rw full (λ e. cc (full, (eq_iff (get_header header_request_id c) "").1 e))
]

keys : ◌≢◌ {A = String} "handler" "request_id"
keys e = cc ((eq_iff "handler" "request_id").1 e)

-- In a handler behind the middleware, the log entry and the reply's header have the same request id:
-- the one of the request if it has one, and else the first eight bytes of the uuid; and the entry
-- keeps the handler's name.
pub request_id_lem :
    (uuid name : String) (logger : Fields) (c : GinContext)
    → slice uuid 0 8 ≢ ""
    → let (entry, headers) =
        middleware_request_id {A = Fields × Dict String} uuid
          (λ c'. (handler_logger (new_handler name logger) c', c'.reply_headers))
          c in
      (lookup "request_id" entry ≡ some (request_id_of uuid c))
      × (lookup header_request_id headers ≡ some (request_id_of uuid c))
      × (lookup "handler" entry ≡ some name)
unfolding middleware_request_id handler_logger with_request_id new_handler
request_id_lem uuid name logger c fresh =
    let rid = request_id_of uuid c in
    let full = request_id_of-ne uuid c fresh in
    (
      lookup-insert_self "request_id" rid (insert "handler" name logger),
      ground (arith, eq_iff rid "", lookup-insert_self header_request_id rid c.reply_headers, full),
      lookup-insert_ne "request_id" "handler" rid (insert "handler" name logger) (λ e. keys e)
          ∙ lookup-insert_self "handler" name logger,
    )
