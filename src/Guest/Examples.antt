-- ===== src/Guest/Examples.antt =====
-- The theorems of the bridge on a bridge with one waiting request, and runs of the message parser.
use claude_cowork_service.Base.{
  Bytes, Option, [], arith, codes, elem, eqb, false, get, if◌then◌else◌, none, ok, refl, some, true,
  ℕ, ◌∷◌, ◌≡◌, ◌≢◌,
}
use claude_cowork_service.Decimal.{format_uint}
use claude_cowork_service.Json.{Json, bool, end, field, int, obj, str}
use claude_cowork_service.Guest.Message.{GuestText, event, parse_message, response}
use claude_cowork_service.Guest.Bridge.{
  GuestBridge, accept, closed_chan, disconnect, disconnected_event, handle_message,
  new_guest_bridge, register, replied,
}
use claude_cowork_service.Guest.Bridge.Steps.{Reach, accepts, after, registers, start}
use claude_cowork_service.Guest.Bridge.Delivery.{
  Reach-no_panic, disconnect_releases_all, reply_delivered,
}

-- {"id": 1, "result": true}, and {"type": "exit", "code": 3}.
abbrev tiny_parse : Bytes → Option Json
tiny_parse s =
    if eqb s (codes "R")
    then some (obj (field (codes "id") (int false 1) (field (codes "result") (bool true) end)))
    else if eqb s (codes "X")
    then some
        (obj (field (codes "type") (str (codes "exit")) (field (codes "code") (int false 3) end)))
    else none

abbrev tiny : GuestText
tiny = record {
  parse = tiny_parse;
  print = λ v. codes "?";
  to_any = λ v. v;
  float_text = λ v. codes "0";
  in_range = λ v. true;
}

exit_run :
    parse_message tiny (codes "X")
    ≡ event ((codes "type", str (codes "exit")) ∷ ((codes "exitCode", int false 3) ∷ []))
unfolding parse_message
exit_run = refl

-- The bridge after a connection and one request.
abbrev one_waiting : GuestBridge
one_waiting = (register (accept 4 new_guest_bridge)).0

one_waiting-Reach : Reach tiny one_waiting
unfolding new_guest_bridge accept
one_waiting-Reach = after (after start (accepts 4)) (registers (omega arith))

reply_parsed : parse_message tiny (codes "R") ≡ response (codes "1") (ok (bool true))
unfolding parse_message
reply_parsed = refl

Reach-no_panic_example :
    ((raw : Bytes) → handle_message tiny raw one_waiting ≢ none)
    × ((conn : ℕ) → disconnect conn one_waiting ≢ none)
Reach-no_panic_example = Reach-no_panic tiny one_waiting one_waiting-Reach

reply_delivered_example :
    (g' : GuestBridge) × (handle_message tiny (codes "R") one_waiting ≡ some (g', []))
    × (get (codes "1") g'.channels ≡ some (replied (ok (bool true))))
    × (elem (codes "1") g'.pending ≡ false)
    × ((j : Bytes)
        → eqb (codes "1") j ≡ false
        → (get j g'.channels ≡ get j one_waiting.channels)
          × (elem j g'.pending ≡ elem j one_waiting.pending))
unfolding register format_uint accept new_guest_bridge elem eqb
reply_delivered_example =
    reply_delivered tiny one_waiting (codes "R") (codes "1") (ok (bool true)) one_waiting-Reach
      reply_parsed refl

disconnect_releases_all_example :
    (g' : GuestBridge) × (disconnect 4 one_waiting ≡ some (g', disconnected_event ∷ []))
    × (g'.connected ≡ false)
    × (g'.pending ≡ [])
    × ((j : Bytes)
        → get j g'.channels
          ≡ (if elem j one_waiting.pending then some closed_chan else get j one_waiting.channels))
disconnect_releases_all_example = disconnect_releases_all tiny one_waiting 4 one_waiting-Reach
