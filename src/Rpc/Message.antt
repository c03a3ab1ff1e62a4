-- ===== src/Rpc/Message.antt =====
-- Request, Response, WriteResponse and WriteError of pipe/protocol.go, and the state that a
-- handler of pipe/handlers.go works on.
use claude_cowork_service.Base.{
  Bool, Bytes, List, Option, Result, [], codes, err, false, if◌then◌else◌, is_empty, negsuc, none,
  ok, some, true, ℤ, ◌++◌, ◌∷◌,
}
use claude_cowork_service.Json.{Fields, Json, bool, end, field, null, obj, str}
use claude_cowork_service.Json.Decode.{DecodeError, Field, decode, store_str}
use claude_cowork_service.Rpc.Backend.{VmBackend}

-- The text of encoding/json: its parser (`none` for text that is not JSON), its printer, the
-- texts of its errors, and what a value becomes that is decoded into an interface{} and encoded
-- again (numbers pass through float64).
pub record JsonText : Type 0 where
  pub parse : Bytes → Option Json
  pub print : Json → Bytes
  pub error_text : DecodeError → Bytes
  pub to_any : Json → Json

-- `params` is none when the key is absent; a null is kept as it came.
pub record Request : Type 0 where
  pub method : Bytes
  pub params : Option Json
  pub id : Option Json

pub record Response : Type 0 where
  pub id : Option Json
  pub success : Bool
  pub result : Option Json
  pub error : Bytes

abbrev no_request : Request
no_request = record { method = []; params = none; id = none }

-- A null leaves an interface{} nil.
store_id : JsonText → Json → Request → Option Request
store_id text null r = some (record r { id = none })
store_id text v r = some (record r { id = some (text.to_any v) })

abbrev request_fields : JsonText → List (Field Request)
request_fields text =
    record { name = codes "method"; store = store_str (λ s r. record r { method = s }) }
    ∷ (record { name = codes "params"; store = λ v r. some (record r { params = some v }) }
        ∷ (record { name = codes "id"; store = store_id text } ∷ []))

-- json.Unmarshal(payload, &req) of Handle: none is any error.
unfoldable pub unmarshal_request : JsonText → Bytes → Option Request
unfolding decode store_id
unmarshal_request text payload = elim (text.parse payload) [
  | none ↦ none
  | some v ↦ accept (decode (request_fields text) no_request (some v))
]
  where
    accept : Request × Option DecodeError → Option Request
    accept (r, none) = some r
    accept (r, some e) = none

-- The codes -32700, -32602 and -32000.
abbrev pub parse_error_code : ℤ
parse_error_code = negsuc 32699

abbrev pub invalid_params_code : ℤ
invalid_params_code = negsuc 32601

abbrev pub server_error : ℤ
server_error = negsuc 31999

-- What WriteResponse and WriteError hand to json.Marshal. The code of an error is not sent.
unfoldable pub write_response : Option Json → Option Json → Response
write_response id result = record { id = id; success = true; result = result; error = [] }

unfoldable pub write_error : Option Json → ℤ → Bytes → Response
write_error id code message = record { id = id; success = false; result = none; error = message }

abbrev opt_field : Bytes → Option Json → Fields → Fields
opt_field k none rest = rest
opt_field k (some v) rest = field k v rest

-- The object that json.Marshal prints: id, result and error are left out when empty.
unfoldable pub response_json : Response → Json
unfolding is_empty
response_json r = obj (
    opt_field (codes "id") r.id (
      field (codes "success") (bool r.success) (
        opt_field (codes "result") r.result
          (opt_field (codes "error") (if is_empty r.error then none else some (str r.error)) end))))

-- The state behind a handler: the backend's, the handler's own flag and the gate of package logx.
pub record Host (b : VmBackend) : Type 0 where
  pub backend : b.State
  pub debug : Bool
  pub logx_debug : Bool

-- The new state, and the responses written to the connection in order.
abbrev pub Reply : VmBackend → Type 0
Reply b = Host b × List Response

abbrev pub Handler : VmBackend → Type 0
Handler b = Request → Host b → Reply b

module _ {b : VmBackend} where
  abbrev pub with_backend : Host b → b.State → Host b
  with_backend h s = record h { backend = s }

  -- `if err != nil { WriteError(…, -32000, err.Error()); return }; WriteResponse(…)`.
  unfoldable pub answer {ℓ} :
      {A : Type ℓ} → Request → Host b → b.State × Result Bytes A → (A → Option Json) → Reply b
  unfolding write_response write_error
  answer req h (s, err e) show = (with_backend h s, write_error req.id server_error e ∷ [])
  answer req h (s, ok a) show = (with_backend h s, write_response req.id (show a) ∷ [])

  invalid_params : JsonText → Request → Host b → DecodeError → Reply b
  unfolding write_error
  invalid_params text req h e = (
    h,
    write_error req.id invalid_params_code (codes "Invalid params: " ++ text.error_text e) ∷ [],
  )

  -- `if err := json.Unmarshal(req.Params, &p); err != nil { WriteError(…, -32602, …); return }`.
  unfoldable pub with_params :
      {P : Type 0} → JsonText → List (Field P) → P → Request → Host b → (P → Reply b) → Reply b
  unfolding decode invalid_params
  with_params text fields zeros req h run =
      let (p, e) = decode fields zeros req.params in
      elim e [ none ↦ run p | some x ↦ invalid_params text req h x ]

  -- The same under `if len(req.Params) > 0`: without params the zero values stand.
  unfoldable pub with_opt_params :
      {P : Type 0} → JsonText → List (Field P) → P → Request → Host b → (P → Reply b) → Reply b
  unfolding with_params
  with_opt_params text fields zeros req h run = elim req.params [
    | none ↦ run zeros
    | some v ↦ with_params text fields zeros req h run
  ]
