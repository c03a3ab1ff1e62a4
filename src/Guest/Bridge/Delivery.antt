-- ===== src/Guest/Bridge/Delivery.antt =====
-- What the bridge promises its callers, in every state that it can reach.
use claude_cowork_service.Base.{
  Bytes, [], arith, elem, eqb, eqb_refl, false, get, get-put, if◌then◌else◌, none, refl, some, true,
  ℕ, ◌+◌, ◌<◌, ◌^◌, ◌∷◌, ◌≡◌, ◌≢◌,
}
use claude_cowork_service.Decimal.{format_uint}
use claude_cowork_service.Guest.Message.{
  GuestReply, GuestText, Parsed, event, parse_message, response, unhandled,
}
use claude_cowork_service.Guest.Bridge.{
  GuestBridge, closed_chan, disconnect, disconnected_event, handle_message, handle_parsed,
  open_chan, register, replied, same_conn,
}
use claude_cowork_service.Guest.Bridge.Invariant.{Inv, elem-AllOpen, elem-drop_id, get-Numbered}
use claude_cowork_service.Guest.Bridge.Steps.{
  Reach, Reach-Inv, answered, close_all_lem, handle_reply, no_wrap,
}

handle_parsed-ne-none : (p : Parsed) (g : GuestBridge) → Inv g → handle_parsed p g ≢ none
unfolding handle_parsed
handle_parsed-ne-none (event e) g v h = cc
handle_parsed-ne-none unhandled g v h = cc
handle_parsed-ne-none (response id reply) g v h =
    ground (arith, elem-AllOpen id g.channels g.pending v.waiting)

-- In every state that the bridge reaches by any steps of its goroutines, neither a message, whatever
-- it holds, nor the end of a connection sends on a closed channel or closes one twice.
pub Reach-no_panic :
    (text : GuestText) (g : GuestBridge)
    → Reach text g
    → ((raw : Bytes) → handle_message text raw g ≢ none) × ((conn : ℕ) → disconnect conn g ≢ none)
unfolding handle_message disconnect
Reach-no_panic text g r =
    let v = Reach-Inv r in
    let (chans, e, s) = close_all_lem g.pending g.channels v.waiting v.distinct in
    (λ raw. handle_parsed-ne-none (parse_message text raw) g v, λ conn. ground (arith, e))

-- A message that replies to a waiting request puts its reply in that request's channel and emits
-- nothing; the request waits no longer, and no other request or channel changes.
pub reply_delivered :
    (text : GuestText) (g : GuestBridge) (raw id : Bytes) (reply : GuestReply)
    → Reach text g
    → parse_message text raw ≡ response id reply
    → elem id g.pending ≡ true
    → (g' : GuestBridge) × (handle_message text raw g ≡ some (g', []))
      × (get id g'.channels ≡ some (replied reply))
      × (elem id g'.pending ≡ false)
      × ((j : Bytes)
          → eqb id j ≡ false
          → (get j g'.channels ≡ get j g.channels) × (elem j g'.pending ≡ elem j g.pending))
unfolding handle_message
reply_delivered text g raw id reply r p waits = (
  answered id reply g,
  rw p (handle_reply id reply g (Reach-Inv r) waits),
  ground (arith, get-put id id (replied reply) g.channels, eqb_refl id),
  ground (arith, elem-drop_id id id g.pending, eqb_refl id),
  λ j ne. ground (arith, get-put id j (replied reply) g.channels, elem-drop_id j id g.pending),
)

-- A reply under an id for which no request waits (never sent, answered, or given up) changes
-- nothing and emits nothing.
pub late_reply_ignored :
    (text : GuestText) (g : GuestBridge) (raw id : Bytes) (reply : GuestReply)
    → parse_message text raw ≡ response id reply
    → elem id g.pending ≡ false
    → handle_message text raw g ≡ some (g, [])
unfolding handle_message handle_parsed
late_reply_ignored text g raw id reply p gone = rw p (ground (arith, gone))

-- When a connection ends, no request is left waiting: the channel of each that waited is closed
-- with no reply in it, all other channels stay as they were, and the networkStatus event
-- "disconnected" is emitted.
pub disconnect_releases_all :
    (text : GuestText) (g : GuestBridge) (conn : ℕ)
    → Reach text g
    → (g' : GuestBridge) × (disconnect conn g ≡ some (g', disconnected_event ∷ []))
      × (g'.connected ≡ false)
      × (g'.pending ≡ [])
      × ((j : Bytes)
          → get j g'.channels ≡ (if elem j g.pending then some closed_chan else get j g.channels))
unfolding disconnect
disconnect_releases_all text g conn r =
    let v = Reach-Inv r in
    let (chans, e, s) = close_all_lem g.pending g.channels v.waiting v.distinct in
    (
      record g { connected = false; conn = same_conn conn g.conn; pending = []; channels = chans },
      rw e refl,
      refl,
      refl,
      s,
    )

-- A request that is registered gets an id under which there is no channel yet, a channel that is
-- open, and it waits.
pub register_fresh :
    (text : GuestText) (g : GuestBridge)
    → Reach text g
    → g.next_id + 1 < 2 ^ 64
    → let (g', id) = register g in
      (get id g.channels ≡ none)
      × (get id g'.channels ≡ some open_chan)
      × (elem id g'.pending ≡ true)
unfolding register elem
register_fresh text g r l =
    let n : ℕ = g.next_id + 1 in
    let id = format_uint n in
    rw (no_wrap g.next_id l) (
      get-Numbered n g.next_id g.channels (omega arith) l (Reach-Inv r).numbered,
      ground (arith, get-put id id open_chan g.channels, eqb_refl id),
      ground (arith, eqb_refl id),
    )
