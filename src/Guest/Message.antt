-- ===== src/Guest/Message.antt =====
-- What vm/bridge.go reads off a guest message: the helpers jsonString, normalizeID,
-- guestResponseError and renameExitCode, and the classification in handleMessage.
use claude_cowork_service.Base.{
  Bool, Bytes, Dict, List, Option, Result, [], codes, elem, eqb, err, false, get, if◌then◌else◌,
  is_empty, ltb, none, ok, put, remove, some, true, ℕ, ◌&&◌, ◌++◌, ◌||◌, ◌∷◌,
}
use claude_cowork_service.Decimal.{format_uint}
use claude_cowork_service.Json.{Fields, Json, end, field, frac, int, null, obj, str}

-- The text of encoding/json (`none` for no JSON), what a value becomes that passes through an
-- interface{}, and the text of a number that float64 does not hold exactly.
pub record GuestText : Type 0 where
  pub parse : Bytes → Option Json
  pub print : Json → Bytes
  pub to_any : Json → Json
  pub float_text : Json → Bytes
  -- No number in the value is out of the range of a float64, which would be an error of decoding it.
  pub in_range : Json → Bool

-- msg[key] of a map[string]json.RawMessage: the last occurrence counts.
unfoldable pub member : Bytes → Fields → Option Json
unfolding eqb
member k end = none
member k (field j v rest) = elim (member k rest) [
  | some w ↦ some w
  | none ↦ if eqb j k then some v else none
]

-- jsonString.
unfoldable pub json_string : Option Json → Bytes
json_string (some (str s)) = s
json_string other = []

-- 2^53: the integers below it are float64 values.
abbrev exact_bound : ℕ
exact_bound = 9007199254740992

-- normalizeID, of a member that is present.
unfoldable pub normalize_id : GuestText → Json → Bytes
unfolding format_uint
normalize_id text (str s) = s
normalize_id text null = []
normalize_id text (int false n) =
    if ltb n exact_bound then format_uint n else text.float_text (int false n)
normalize_id text (int true n) =
    if ltb n exact_bound then b'-' ∷ format_uint n else text.float_text (int true n)
normalize_id text (frac s) = text.float_text (frac s)
normalize_id text other = text.print other

-- guestResponseError, of a member that is present: none is no error.
unfoldable pub guest_response_error : GuestText → Json → Option Bytes
unfolding is_empty
guest_response_error text null = none
guest_response_error text (str s) = if is_empty s then some (codes "guest error") else some s
guest_response_error text other = some (codes "guest error: " ++ text.print other)

-- A map[string]interface{} decoded from an object.
unfoldable pub to_map : GuestText → Fields → Dict Json → Dict Json
unfolding put
to_map text end m = m
to_map text (field k v rest) m = to_map text rest (put k (text.to_any v) m)

-- renameExitCode.
unfoldable pub rename_exit_code : Bytes → Dict Json → Dict Json
unfolding eqb get put remove
rename_exit_code event_type m = elim (eqb event_type (codes "exit")) [
  | false ↦ m
  | true ↦ elim (get (codes "code") m) [
    | none ↦ m
    | some code ↦ remove (codes "code") (put (codes "exitCode") code m)
  ]
]

-- forwardedEvents.
abbrev pub forwarded_events : List Bytes
forwarded_events =
    codes "stdout"
    ∷ (codes "stderr"
        ∷ (codes "exit"
            ∷ (codes "networkStatus"
                ∷ (codes "apiReachability" ∷ (codes "ready" ∷ (codes "startupStep" ∷ []))))))

-- A reply to a request: guestReply.
abbrev pub GuestReply : Type 0
GuestReply = Result Bytes Json

-- What handleMessage makes of a message.
pub data Parsed : Type 0 where
  event : Dict Json → Parsed
  -- The id, and the reply for it.
  response : Bytes → GuestReply → Parsed
  unhandled : Parsed

is_present : Option Json → Bool
is_present none = false
is_present (some v) = true

-- reply.err, and else reply.result: the member "result", or the whole message.
unfoldable pub reply_of : GuestText → Fields → GuestReply
unfolding guest_response_error member
reply_of text msg = settle (error_of (member (codes "error") msg))
  where
    error_of : Option Json → Option Bytes
    error_of none = none
    error_of (some raw) = guest_response_error text raw

    result_of : Option Json → Json
    result_of none = obj msg
    result_of (some result) = result

    settle : Option Bytes → GuestReply
    settle (some e) = err e
    settle none = ok (result_of (member (codes "result") msg))

-- The params of a nested event: an object is taken, anything else leaves them empty.
nested_params : GuestText → Option Json → Dict Json
unfolding to_map
nested_params text (some (obj kvs)) = to_map text kvs []
nested_params text other = []

parse_response : GuestText → Bytes → Fields → Parsed
unfolding member normalize_id reply_of is_present eqb
parse_response text typ msg =
    if eqb typ (codes "response")
      || (is_present (member (codes "success") msg)
          || (is_present (member (codes "result") msg) || is_present (member (codes "error") msg)))
    then elim (member (codes "id") msg) [
      | none ↦ unhandled
      | some id ↦ response (normalize_id text id) (reply_of text msg)
    ]
    else unhandled

parse_fields : GuestText → Fields → Parsed
unfolding member json_string elem eqb to_map rename_exit_code nested_params parse_response put
parse_fields text msg =
    let typ = json_string (member (codes "type") msg) in
    let ev = json_string (member (codes "event") msg) in
    if elem typ forwarded_events
    then event (rename_exit_code typ (to_map text msg []))
    else if eqb typ (codes "event") && elem ev forwarded_events
    then event (
        rename_exit_code ev
          (put (codes "type") (str ev) (nested_params text (member (codes "params") msg))))
    else parse_response text typ msg

-- The decoded message: null leaves the map nil, and what is no object is dropped.
unfoldable pub parse_message : GuestText → Bytes → Parsed
unfolding parse_fields
parse_message text raw = elim (text.parse raw) [ none ↦ unhandled | some v ↦ of_value v ]
  where
    of_value : Json → Parsed
    of_value (obj msg) = parse_fields text msg
    of_value null = parse_fields text end
    of_value other = unhandled
