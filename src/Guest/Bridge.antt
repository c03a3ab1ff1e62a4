-- ===== src/Guest/Bridge.antt =====
-- GuestBridge of vm/bridge.go. A reply channel has room for one reply, and is closed after it; it
-- lives under its request's id. Sending on a closed channel, and closing it twice, panic: `none`.
pub mod Invariant
pub mod Steps
pub mod Delivery
use mathlib.Core.Option
use claude_cowork_service.Base.{
  Bool, Bytes, Dict, List, Option, Result, [], codes, elem, eqb, err, false, get, if◌then◌else◌,
  map, none, ok, put, some, true, ℕ, ◌%◌, ◌++◌, ◌+◌, ◌==◌, ◌^◌, ◌∷◌,
}
use claude_cowork_service.Decimal.{format_uint}
use claude_cowork_service.Json.{Json, str}
use claude_cowork_service.Guest.Message.{
  GuestReply, GuestText, Parsed, event, parse_message, response, unhandled,
}

-- A channel of capacity one: nothing sent, or closed with or without a reply in it.
pub data Channel : Type 0 where
  open_chan : Channel
  replied : GuestReply → Channel
  closed_chan : Channel

pub record GuestBridge : Type 0 where
  -- The accepted connection, by a number of its own.
  pub conn : Option ℕ
  pub connected : Bool
  pub closed : Bool
  -- The keys of the pending map.
  pub pending : List Bytes
  -- Every channel that was made, by id.
  pub channels : Dict Channel
  pub next_id : ℕ

unfoldable pub new_guest_bridge : GuestBridge
new_guest_bridge = record {
  conn = none;
  connected = false;
  closed = false;
  pending = [];
  channels = [];
  next_id = 0;
}

-- delete(g.pending, id).
unfoldable pub drop_id : Bytes → List Bytes → List Bytes
drop_id id [] = []
drop_id id (j ∷ js) = if eqb j id then drop_id id js else j ∷ drop_id id js

-- `ch <- reply; close(ch)`.
unfoldable pub send_and_close : Bytes → GuestReply → Dict Channel → Option (Dict Channel)
send_and_close id reply chans = elim (get id chans) [
  | some open_chan ↦ some (put id (replied reply) chans)
  | some (replied r) ↦ none
  | some closed_chan ↦ none
  | none ↦ none
]

-- `close(ch)`.
unfoldable pub close_chan : Bytes → Dict Channel → Option (Dict Channel)
close_chan id chans = elim (get id chans) [
  | some open_chan ↦ some (put id closed_chan chans)
  | some (replied r) ↦ none
  | some closed_chan ↦ none
  | none ↦ none
]

-- acceptLoop up to the read loop: a prior connection is replaced.
unfoldable pub accept : ℕ → GuestBridge → GuestBridge
accept conn g = record g { conn = some conn; connected = true }

-- The first lines of Forward and Notify.
unfoldable pub check_connected : GuestBridge → Result Bytes ℕ
check_connected g = elim g.conn [
  | none ↦ err (codes "guest not connected")
  | some c ↦ if g.connected then ok c else err (codes "guest not connected")
]

-- The registration in Forward: a new id (a uint64 counter) and its channel.
unfoldable pub register : GuestBridge → GuestBridge × Bytes
register g =
    let n = (g.next_id + 1) % 2 ^ 64 in
    let id = format_uint n in
    (
      record g {
        next_id = n;
        pending = id ∷ drop_id id g.pending;
        channels = put id open_chan g.channels;
      },
      id,
    )

-- Forward gives up: the write failed, or no reply came within 30 s.
unfoldable pub unregister : Bytes → GuestBridge → GuestBridge
unfolding drop_id
unregister id g = record g { pending = drop_id id g.pending }

-- The select of Forward: what it returns once its channel is closed; none while it still waits.
unfoldable pub received : Bytes → Channel → Option GuestReply
received method open_chan = none
received method closed_chan = some (err (codes "guest disconnected while waiting for " ++ method))
received method (replied (err e)) =
    some (err (codes "guest " ++ (method ++ (codes " failed: " ++ e))))
received method (replied (ok result)) = some (ok result)

-- handleMessage: the new state and the event that is emitted, if any.
unfoldable pub handle_parsed : Parsed → GuestBridge → Option (GuestBridge × List (Dict Json))
unfolding elem drop_id send_and_close
handle_parsed (event e) g = some (g, e ∷ [])
handle_parsed unhandled g = some (g, [])
handle_parsed (response id reply) g = elim (elem id g.pending) [
  | false ↦ some (g, [])
  | true ↦
      Option.map (λ chans. (record g { pending = drop_id id g.pending; channels = chans }, []))
        (send_and_close id reply g.channels)
]

unfoldable pub handle_message :
    GuestText → Bytes → GuestBridge → Option (GuestBridge × List (Dict Json))
unfolding parse_message handle_parsed
handle_message text raw g = handle_parsed (parse_message text raw) g

-- The loop over the pending map after the read loop: each channel is closed without a reply.
unfoldable pub close_all : List Bytes → Dict Channel → Option (Dict Channel)
unfolding close_chan
close_all [] chans = some chans
close_all (id ∷ ids) chans = elim (close_chan id chans) [
  | none ↦ none
  | some more ↦ close_all ids more
]

-- {"type": "networkStatus", "status": "disconnected"}.
abbrev pub disconnected_event : Dict Json
disconnected_event =
    (codes "type", str (codes "networkStatus"))
    ∷ ((codes "status", str (codes "disconnected")) ∷ [])

pub same_conn : ℕ → Option ℕ → Option ℕ
same_conn conn none = none
same_conn conn (some c) = if c == conn then none else some c

-- acceptLoop after the read loop of a connection has ended.
unfoldable pub disconnect : ℕ → GuestBridge → Option (GuestBridge × List (Dict Json))
unfolding close_all same_conn
disconnect conn g =
    Option.map
      (λ chans. (
        record g {
          connected = false;
          conn = same_conn conn g.conn;
          pending = [];
          channels = chans;
        },
        disconnected_event ∷ [],
      ))
      (close_all g.pending g.channels)

-- Close: the connection goes; its read loop then ends in `disconnect`.
unfoldable pub close_bridge : GuestBridge → GuestBridge
close_bridge g = record g { closed = true; conn = none }
