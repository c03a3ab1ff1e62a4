-- ===== src/Rpc/Serve.antt =====
-- handleConnection of pipe/server.go: which payloads of a connection are handed to Handle, and in
-- which order their handlers are started. The quit channel of a stopping server is left out.
pub mod Order
use claude_cowork_service.Base.{
  Bool, Bytes, List, Option, [], codes, eqb, err, false, length, none, ok, some, suc, true, zero, ℕ,
  ◌++◌, ◌<◌, ◌∷◌, ◌≡◌, ◌≤◌,
}
use claude_cowork_service.Json.Decode.{DecodeError, Field, decode, store_str}
use claude_cowork_service.Wire.{MessageError, max_message, read_message, write_message}
use claude_cowork_service.Rpc.Message.{JsonText}

abbrev probe_fields : List (Field Bytes)
probe_fields = record { name = codes "method"; store = store_str (λ s m. s) } ∷ []

-- `json.Unmarshal(payload, &probe); err == nil && probe.Method == "subscribeEvents"`.
unfoldable pub is_subscribe : JsonText → Bytes → Bool
unfolding decode eqb
is_subscribe text payload = elim (text.parse payload) [
  | none ↦ false
  | some v ↦ is_subscription (decode probe_fields [] (some v))
]
  where
    is_subscription : Bytes × Option DecodeError → Bool
    is_subscription (m, none) = eqb m (codes "subscribeEvents")
    is_subscription (m, some e) = false

-- How the loop ends: the read fails, or a subscription takes the rest of the connection.
pub data Ending : Type 0 where
  disconnected : MessageError → Ending
  subscribed : Bytes → Bytes → Ending

pub record Served : Type 0 where
  -- The payloads for which `go handler.Handle(conn, payload)` is started, in order.
  pub started : List Bytes
  pub ending : Ending

-- A message has been read: `rest` is what the next rounds make of what follows it.
proceed : Bool → Bytes → Bytes → Option Served → Option Served
proceed true payload conn rest = some (record { started = []; ending = subscribed payload conn })
proceed false payload conn none = none
proceed false payload conn (some s) = some (record s { started = payload ∷ s.started })

-- One round per message; none means that the fuel ran out.
unfoldable pub serve : JsonText → ℕ → Bytes → Option Served
unfolding proceed
serve text zero conn = none
serve text (suc fuel) conn =
    let (r, rest) = read_message conn in
    elim r [
      | err e ↦ some (record { started = []; ending = disconnected e })
      | ok payload ↦ proceed (is_subscribe text payload) payload rest (serve text fuel rest)
    ]

-- A client that sends the payloads one after the other, and then what follows.
abbrev pub sent : List Bytes → Bytes → Bytes
sent [] conn = conn
sent (p ∷ ps) conn = write_message p ++ sent ps conn

-- A request that the reader accepts and that does not subscribe.
pub record IsCall (text : JsonText) (payload : Bytes) : Type 0 where
  pub not_empty : 0 < length payload
  pub fits : length payload ≤ max_message
  pub no_subscription : is_subscribe text payload ≡ false
