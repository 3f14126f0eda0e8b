-- ===== src/JsonRpc.antt =====
-- internal/jsonrpc/jsonrpc.go and wsmsg.go, over the decoder of encoding/json, which is a parameter
-- (`Codec`): what it makes of a text for each of the types that the code decodes into. A raw message
-- is the text of a value, and `none` where the field is missing.
pub mod Methods
pub mod Tests
use rpc_node_gateway.Prelude.{
  ℕ, suc, ◌+◌, String, Bool, true, false, not, ◌&&◌, ◌||◌, Option, none, some, List, [], ◌∷◌,
  if◌then◌else◌, str_eq, has_prefix, trim_space, length, ◌==◌,
}

abbrev pub RawMessage : Type 0
RawMessage = Option String

-- The value is there, and is not `null`.
abbrev pub present : RawMessage → Bool
present none = false
present (some text) = not (str_eq text "") && not (str_eq text "null")

pub record Request : Type 0 where
  pub method : String
  pub id : RawMessage

-- `Error` is a pointer, which is nil for a missing field and for `null`.
pub record Response : Type 0 where
  pub error : RawMessage
  pub id : RawMessage

pub record Envelope : Type 0 where
  pub jsonrpc : String
  pub method : String
  pub id : RawMessage
  pub error : RawMessage
  pub result : RawMessage
  pub params : RawMessage

-- The structs local to `ParseRequestMeta` and `ParseResponseMeta`.
pub record RequestMeta : Type 0 where
  pub method : String
  pub id : RawMessage
  pub params : RawMessage

pub record ResponseMeta : Type 0 where
  pub id : RawMessage
  pub error : RawMessage
  pub result : RawMessage

-- `Params.Subscription`, where there are parameters.
pub record Notification : Type 0 where
  pub method : String
  pub subscription : Option String
  pub id : RawMessage

-- `json.Unmarshal`, with `none` for an error.
pub record Codec : Type 0 where
  pub request : String → Option Request
  pub requests : String → Option (List Request)
  pub response : String → Option Response
  pub responses : String → Option (List Response)
  pub envelope : String → Option Envelope
  pub request_meta : String → Option RequestMeta
  pub response_meta : String → Option ResponseMeta
  pub notification : String → Option Notification
  pub text : String → Option String
  pub number : String → Option String
  pub array : String → Option (List String)

pub data ParseError : Type 0 where
  empty_body invalid_batch empty_batch invalid_request missing_method batch_not_supported :
      ParseError
  missing_method_at : ℕ → ParseError

pub data Result {ℓ} (A : Type ℓ) : Type ℓ where
  ok : A → Result A
  err : ParseError → Result A

-- `body[0] == '['`
abbrev pub is_batch : String → Bool
is_batch body = has_prefix body "["

-- The loop over a batch, from index `i`, with the methods before it.
unfoldable pub batch_methods : ℕ → List Request → Result (List String)
batch_methods i [] = ok []
batch_methods i (item ∷ items) =
    let rest = batch_methods (suc i) items in
    if str_eq item.method ""
    then err (missing_method_at i)
    else elim rest [ ok ms ↦ ok (item.method ∷ ms) | err e ↦ err e ]

unfoldable pub single_method : Option Request → Result (List String)
single_method none = err invalid_request
single_method (some r) = if str_eq r.method "" then err missing_method else ok (r.method ∷ [])

unfoldable pub batch_of_methods : Option (List Request) → Result (List String)
unfolding batch_methods
batch_of_methods none = err invalid_batch
batch_of_methods (some []) = err empty_batch
batch_of_methods (some (r ∷ rs)) = batch_methods 0 (r ∷ rs)

unfoldable pub parse_methods : Codec → String → Result (List String)
unfolding single_method batch_of_methods
parse_methods codec body =
    let body = trim_space body in
    if str_eq body ""
    then err empty_body
    else if is_batch body
    then batch_of_methods (codec.requests body)
    else single_method (codec.request body)

count_batch : List Response → ℕ × ℕ
count_batch [] = (0, 0)
count_batch (r ∷ rs) =
    let (success, errors) = count_batch rs in
    elim r.error [ none ↦ (success + 1, errors) | some e ↦ (success, errors + 1) ]

count_responses : Option (List Response) → ℕ × ℕ
unfolding count_batch
count_responses none = (0, 0)
count_responses (some rs) = count_batch rs

count_response : Option Response → ℕ × ℕ
count_response none = (0, 0)
count_response (some r) = elim r.error [ none ↦ (1, 0) | some e ↦ (0, 1) ]

-- Successes, and errors.
unfoldable pub count_results : Codec → String → ℕ × ℕ
unfolding count_responses count_response
count_results codec body =
    let body = trim_space body in
    if str_eq body ""
    then (0, 0)
    else if is_batch body
    then count_responses (codec.responses body)
    else count_response (codec.response body)

pub data MessageKind : Type 0 where
  request response notification unknown : MessageKind

unfoldable pub classify_envelope : Option Envelope → MessageKind
classify_envelope none = unknown
classify_envelope (some env) =
    if not (str_eq env.method "") && not (present env.id)
    then notification
    else if not (str_eq env.method "") && present env.id
    then request
    else if present env.id
    then response
    else unknown

unfoldable pub classify : Codec → String → MessageKind
unfolding classify_envelope
classify codec body =
    let body = trim_space body in
    if str_eq body ""
    then unknown
    else if is_batch body
    then request
    else classify_envelope (codec.envelope body)

unfoldable pub normalize_id : Codec → RawMessage → String
normalize_id codec none = ""
normalize_id codec (some id) =
    if str_eq id "" || str_eq id "null" then "" else elim (codec.text id) [
      | some s ↦ s
      | none ↦ elim (codec.number id) [ some n ↦ n | none ↦ id ]
    ]

first_text : Codec → List String → String
first_text codec [] = ""
first_text codec (p ∷ ps) = elim (codec.text p) [ some s ↦ s | none ↦ "" ]

unfoldable pub first_string_param : Codec → RawMessage → String
unfolding first_text
first_string_param codec none = ""
first_string_param codec (some params) =
    if str_eq params ""
    then ""
    else elim (codec.array params) [ some ps ↦ first_text codec ps | none ↦ "" ]

-- The id, the method, and the first parameter of a subscription call.
unfoldable pub request_meta : Codec → Option RequestMeta → Result (String × String × String)
request_meta codec none = err invalid_request
request_meta codec (some raw) =
    let sub_kind =
      if str_eq raw.method "eth_subscribe" || str_eq raw.method "eth_unsubscribe"
      then first_string_param codec raw.params
      else "" in
    if str_eq raw.method ""
    then err missing_method
    else ok (normalize_id codec raw.id, raw.method, sub_kind)

unfoldable pub parse_request_meta : Codec → String → Result (String × String × String)
unfolding request_meta
parse_request_meta codec body =
    let body = trim_space body in
    if str_eq body ""
    then err empty_body
    else if is_batch body
    then err batch_not_supported
    else request_meta codec (codec.request_meta body)

-- The result as a string, or as it stands.
result_text : Codec → RawMessage → String
result_text codec none = ""
result_text codec (some text) =
    let s : String = elim (codec.text text) [ some s ↦ s | none ↦ "" ] in
    if present (some text) then (if str_eq s "" then text else s) else ""

-- The id, whether it succeeded, and the result.
response_meta : Codec → Option ResponseMeta → Result (String × Bool × String)
unfolding result_text
response_meta codec none = err invalid_request
response_meta codec (some raw) =
    let id = normalize_id codec raw.id in
    if present raw.error then ok (id, false, "") else ok (id, true, result_text codec raw.result)

unfoldable pub parse_response_meta : Codec → String → Result (String × Bool × String)
unfolding response_meta
parse_response_meta codec body =
    let body = trim_space body in
    if str_eq body "" then err empty_body else response_meta codec (codec.response_meta body)

unfoldable pub notification_of : Option Notification → Option (String × String)
notification_of none = none
notification_of (some raw) =
    let sub : String = elim raw.subscription [ some s ↦ s | none ↦ "" ] in
    if present raw.id || str_eq raw.method "" then none else some (raw.method, sub)

-- The method and the subscription of a push.
unfoldable pub parse_notification : Codec → String → Option (String × String)
unfolding notification_of
parse_notification codec body = notification_of (codec.notification (trim_space body))
