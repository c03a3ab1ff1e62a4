-- ===== src/Vm/Qmp.antt =====
-- The QMP client of vm/qmp.go: a connection that is opened with a greeting and a command, and the
-- search for the reply among the lines that QEMU sends.
use claude_cowork_service.Base.{
  All, Bool, Bool-cases, Bytes, List, Option, Option-cases, Result, [], arith, codes, err, false,
  if◌then◌else◌, inl, inr, none, not, ok, refl, some, subst, sym, true, ◌++◌, ◌∷◌, ◌≡◌, ◌≢◌,
}
use claude_cowork_service.Json.{Fields, Json, null, obj}
use claude_cowork_service.Guest.Message.{member}

-- A line of QEMU, by its JSON value: a reply, an error with its member, or an event.
pub data QmpLine : Type 0 where
  return_line : QmpLine
  error_line : Json → QmpLine
  event_line : QmpLine
  not_json : QmpLine

is_there : Option Json → Bool
is_there none = false
is_there (some v) = true

unfoldable pub line_of : Fields → QmpLine
unfolding member is_there
line_of msg =
    if is_there (member (codes "return") msg)
    then return_line
    else elim (member (codes "error") msg) [ some e ↦ error_line e | none ↦ event_line ]

-- json.Unmarshal into a map: a null leaves it empty.
unfoldable pub qmp_line : (Bytes → Option Json) → Bytes → QmpLine
unfolding line_of
qmp_line parse line = elim (parse line) [
  | some (obj msg) ↦ line_of msg
  | some null ↦ event_line
  | some other ↦ not_json
  | none ↦ not_json
]

-- The loop of Send over the lines that come before the deadline: the result and the lines left.
unfoldable pub read_reply :
    (Bytes → Option Json) → (Json → Bytes) → List Bytes → Result Bytes (Unit {0}) × List Bytes
read_reply parse print [] = (err (codes "read failed"), [])
read_reply parse print (line ∷ lines) =
    let rest = read_reply parse print lines in
    elim (qmp_line parse line) [
      | return_line ↦ (ok tt, lines)
      | error_line e ↦ (err (codes "QMP error: " ++ print e), lines)
      | event_line ↦ rest
      | not_json ↦ (err (codes "QMP response JSON"), lines)
    ]

-- Send: a failure to set the deadline or to write, and else the reply.
unfoldable pub send_qmp :
    (Bytes → Option Json)
    → (Json → Bytes)
    → Option Bytes
    → List Bytes
    → Result Bytes (Unit {0}) × List Bytes
unfolding read_reply
send_qmp parse print (some e) lines = (err e, lines)
send_qmp parse print none lines = read_reply parse print lines

-- The calls of DialQMP, failures by their texts.
pub record QmpCalls : Type 0 where
  pub socket_appears : Bool
  pub dial_error : Option Bytes
  pub deadline_error : Option Bytes
  pub send_error : Option Bytes
  pub clear_error : Option Bytes

-- What DialQMP leaves: no connection, or one that is open or closed.
pub data QmpConn : Type 0 where
  no_conn open_conn closed_conn : QmpConn

unfoldable pub finish_dial :
    QmpCalls → Result Bytes (Unit {0}) × List Bytes → QmpConn × Result Bytes (Unit {0})
finish_dial os (err e, lines) = (closed_conn, err (codes "qmp_capabilities: " ++ e))
finish_dial os (ok u, lines) = elim os.clear_error [
  | some e ↦ (closed_conn, err (codes "clearing QMP read deadline: " ++ e))
  | none ↦ (open_conn, ok tt)
]

-- The greeting is the first line, whatever it says; the reply to qmp_capabilities follows.
unfoldable pub negotiate :
    (Bytes → Option Json)
    → (Json → Bytes)
    → QmpCalls
    → List Bytes
    → QmpConn × Result Bytes (Unit {0})
unfolding send_qmp finish_dial
negotiate parse print os [] = (closed_conn, err (codes "reading QMP greeting"))
negotiate parse print os (greeting ∷ lines) =
    finish_dial os (send_qmp parse print os.send_error lines)

-- DialQMP.
unfoldable pub dial_qmp :
    (Bytes → Option Json)
    → (Json → Bytes)
    → QmpCalls
    → List Bytes
    → QmpConn × Result Bytes (Unit {0})
dial_qmp parse print os lines =
    if not os.socket_appears
    then (no_conn, err (codes "QMP socket never appeared"))
    else elim os.dial_error [
      | some e ↦ (no_conn, err (codes "dial QMP: " ++ e))
      | none ↦ elim os.deadline_error [
        | some e ↦ (closed_conn, err (codes "setting QMP read deadline: " ++ e))
        | none ↦ negotiate parse print os lines
      ]
    ]

-- Close: a second one does nothing.
unfoldable pub close_qmp : QmpConn → QmpConn
close_qmp no_conn = no_conn
close_qmp open_conn = closed_conn
close_qmp closed_conn = closed_conn

-- A connection is open just when there is no error.
abbrev pub OpenOnlyOk : QmpConn × Result Bytes (Unit {0}) → Type 0
OpenOnlyOk (conn, ok u) = conn ≡ open_conn
OpenOnlyOk (conn, err e) = conn ≢ open_conn

finish_dial_qmp_open :
    (os : QmpCalls) (r : Result Bytes (Unit {0}) × List Bytes) → OpenOnlyOk (finish_dial os r)
unfolding finish_dial
finish_dial_qmp_open os (err e, lines) = λ h. cc
finish_dial_qmp_open os (ok u, lines) = elim (Option-cases os.clear_error) [
  | inl e ↦ rw e refl
  | inr (t, e) ↦ rw e (λ h. cc)
]

negotiate-OpenOnlyOk :
    (parse : Bytes → Option Json) (print : Json → Bytes) (os : QmpCalls) (lines : List Bytes)
    → OpenOnlyOk (negotiate parse print os lines)
unfolding negotiate
negotiate-OpenOnlyOk parse print os [] = λ h. cc
negotiate-OpenOnlyOk parse print os (greeting ∷ lines) =
    finish_dial_qmp_open os (send_qmp parse print os.send_error lines)

dialled :
    (parse : Bytes → Option Json) (print : Json → Bytes) (os : QmpCalls) (lines : List Bytes)
    → os.socket_appears ≡ true
    → os.dial_error ≡ none
    → os.deadline_error ≡ none
    → dial_qmp parse print os lines ≡ negotiate parse print os lines
unfolding dial_qmp
dialled parse print os lines e f g = ground (arith, e, f, g)

dial_qmp_open :
    (parse : Bytes → Option Json) (print : Json → Bytes) (os : QmpCalls) (lines : List Bytes)
    → OpenOnlyOk (dial_qmp parse print os lines)
unfolding dial_qmp
dial_qmp_open parse print os lines = elim (Bool-cases os.socket_appears) [
  | inr e ↦ rw (dial_qmp, e) (λ h. cc)
  | inl e ↦ elim (Option-cases os.dial_error) [
    | inr (t, f) ↦ rw (dial_qmp, e, f) (λ h. cc)
    | inl f ↦ elim (Option-cases os.deadline_error) [
      | inr (t, g) ↦ rw (dial_qmp, e, f, g) (λ h. cc)
      | inl g ↦
          subst OpenOnlyOk (sym (dialled parse print os lines e f g))
            (negotiate-OpenOnlyOk parse print os lines)
    ]
  ]
]

skip_events :
    (parse : Bytes → Option Json) (print : Json → Bytes) (events lines : List Bytes)
    → All (λ line. qmp_line parse line ≡ event_line) events
    → read_reply parse print (events ++ lines) ≡ read_reply parse print lines
unfolding read_reply
skip_events parse print [] lines each = refl
skip_events parse print (line ∷ events) lines each =
    rw (read_reply, each.0) (skip_events parse print events lines each.1)

-- The search for a reply passes over the events before it, however many, and takes the first line that
-- is none; and DialQMP leaves a connection open just when it returns no error.
pub dial_qmp-OpenOnlyOk :
    (parse : Bytes → Option Json) (print : Json → Bytes) (os : QmpCalls) (lines : List Bytes)
    → OpenOnlyOk (dial_qmp parse print os lines)
      × ((events : List Bytes)
          → All (λ line. qmp_line parse line ≡ event_line) events
          → read_reply parse print (events ++ lines) ≡ read_reply parse print lines)
dial_qmp-OpenOnlyOk parse print os lines =
    (dial_qmp_open parse print os lines, λ events each. skip_events parse print events lines each)
