-- ===== src/Guest/Bridge/Steps.antt =====
-- The steps that the goroutines of the bridge take on its state, in any order.
use claude_cowork_service.Base.{
  Bool, Bool-cases, Bytes, Dict, List, Option, [], arith, elem, eqb_iff, eqb_refl, false, get,
  get-put, if◌then◌else◌, inl, inr, put, refl, some, subst, true, ℕ, ◌%◌, ◌+◌, ◌<◌, ◌^◌, ◌∷◌, ◌≡◌,
}
use claude_cowork_service.Decimal.{format_uint}
use claude_cowork_service.Json.{Json}
use claude_cowork_service.Guest.Message.{
  GuestReply, GuestText, Parsed, event, parse_message, response, unhandled,
}
use claude_cowork_service.Guest.Bridge.{
  Channel, GuestBridge, accept, close_all, close_bridge, closed_chan, disconnect, drop_id,
  handle_message, handle_parsed, new_guest_bridge, open_chan, register, replied, same_conn,
  unregister,
}
use claude_cowork_service.Guest.Bridge.Invariant.{
  AllOpen, Distinct, Inv, Numbered, Numbered-mono, drop_id-Distinct, drop_id_absent, elem-AllOpen,
  elem-drop_id, put-AllOpen, put-Numbered, put-Numbered_old,
}

-- `registers` leaves out the wrap of the counter after 2^64 requests.
pub data Step (text : GuestText) : GuestBridge → GuestBridge → Type 0 where
  accepts : {g : GuestBridge} (conn : ℕ) → Step text g (accept conn g)
  registers : {g : GuestBridge} → g.next_id + 1 < 2 ^ 64 → Step text g (register g).0
  gives_up : {g : GuestBridge} (id : Bytes) → Step text g (unregister id g)
  reads :
      {g g' : GuestBridge} (raw : Bytes) (events : List (Dict Json))
      → handle_message text raw g ≡ some (g', events)
      → Step text g g'
  hangs_up :
      {g g' : GuestBridge} (conn : ℕ) (events : List (Dict Json))
      → disconnect conn g ≡ some (g', events)
      → Step text g g'
  closes : {g : GuestBridge} → Step text g (close_bridge g)

pub data Reach (text : GuestText) : GuestBridge → Type 0 where
  start : Reach text new_guest_bridge
  after : {g g' : GuestBridge} → Reach text g → Step text g g' → Reach text g'

-- Closing the channels of all waiting requests: it does not panic, those channels are then closed,
-- and no other channel changes.
pub close_all_lem :
    (ids : List Bytes) (chans : Dict Channel)
    → AllOpen chans ids
    → Distinct ids
    → (chans' : Dict Channel) × (close_all ids chans ≡ some chans')
      × ((j : Bytes) → get j chans' ≡ (if elem j ids then some closed_chan else get j chans))
unfolding close_all elem
close_all_lem [] chans w d = (chans, refl, λ j. refl)
close_all_lem (id ∷ ids) chans w d =
    let kept =
      subst (AllOpen (put id closed_chan chans)) (drop_id_absent id ids d.0)
        (put-AllOpen id closed_chan chans ids w.1) in
    let (chans', e, s) = close_all_lem ids (put id closed_chan chans) kept d.1 in
    (
      chans',
      ground (arith, w.0, e),
      λ j. ground (arith, s j, get-put id j closed_chan chans, eqb_iff id j, d.0),
    )

close_all-Numbered :
    (ids : List Bytes) (n : ℕ) (chans chans' : Dict Channel)
    → AllOpen chans ids
    → Distinct ids
    → close_all ids chans ≡ some chans'
    → Numbered n chans
    → Numbered n chans'
unfolding close_all
close_all-Numbered [] n chans chans' w d e u = subst (Numbered n) {x = chans} {y = chans'} (cc) u
close_all-Numbered (id ∷ ids) n chans chans' w d e u =
    let kept =
      subst (AllOpen (put id closed_chan chans)) (drop_id_absent id ids d.0)
        (put-AllOpen id closed_chan chans ids w.1) in
    close_all-Numbered ids n (put id closed_chan chans) chans' kept d.1 (ground (arith, w.0))
      (put-Numbered_old id open_chan closed_chan n chans w.0 u)

pub no_wrap : (n : ℕ) → n + 1 < 2 ^ 64 → (n + 1) % 2 ^ 64 ≡ n + 1
no_wrap n l = omega arith

register-Inv : {g : GuestBridge} → g.next_id + 1 < 2 ^ 64 → Inv g → Inv (register g).0
unfolding register
register-Inv {g} l v =
    let n : ℕ = g.next_id + 1 in
    let id = format_uint n in
    rw (no_wrap g.next_id l) (record {
      waiting = (
        ground (arith, get-put id id open_chan g.channels, eqb_refl id),
        put-AllOpen id open_chan g.channels g.pending v.waiting,
      );
      distinct = (
        ground (arith, elem-drop_id id id g.pending, eqb_refl id),
        drop_id-Distinct id g.pending v.distinct,
      );
      numbered =
          put-Numbered n open_chan n g.channels (omega arith)
            (Numbered-mono g.next_id n g.channels (omega arith) v.numbered);
      in_range = omega arith;
    })

unregister-AllOpen :
    (id : Bytes) (chans : Dict Channel) (ids : List Bytes)
    → AllOpen chans ids
    → AllOpen chans (drop_id id ids)
unfolding drop_id
unregister-AllOpen id chans [] w = tt
unregister-AllOpen id chans (k ∷ ids) w = ground (arith, unregister-AllOpen id chans ids w.1)

unregister-Inv : (id : Bytes) {g : GuestBridge} → Inv g → Inv (unregister id g)
unfolding unregister
unregister-Inv id {g} v = record {
  waiting = unregister-AllOpen id g.channels g.pending v.waiting;
  distinct = drop_id-Distinct id g.pending v.distinct;
  numbered = v.numbered;
  in_range = v.in_range;
}

-- The state after the reply to a waiting request.
abbrev pub answered : Bytes → GuestReply → GuestBridge → GuestBridge
answered id reply g = record g {
  pending = drop_id id g.pending;
  channels = put id (replied reply) g.channels;
}

answered-Inv :
    (id : Bytes) (reply : GuestReply) (g : GuestBridge)
    → Inv g
    → elem id g.pending ≡ true
    → Inv (answered id reply g)
answered-Inv id reply g v waits = record {
  waiting = put-AllOpen id (replied reply) g.channels g.pending v.waiting;
  distinct = drop_id-Distinct id g.pending v.distinct;
  numbered =
      put-Numbered_old id open_chan (replied reply) g.next_id g.channels
        (elem-AllOpen id g.channels g.pending v.waiting waits) v.numbered;
  in_range = v.in_range;
}

-- A reply for a waiting request: the channel takes it, and the request waits no longer.
pub handle_reply :
    (id : Bytes) (reply : GuestReply) (g : GuestBridge)
    → Inv g
    → elem id g.pending ≡ true
    → handle_parsed (response id reply) g ≡ some (answered id reply g, [])
unfolding handle_parsed
handle_reply id reply g v waits =
    ground (arith, elem-AllOpen id g.channels g.pending v.waiting waits)

handle_parsed-Inv :
    (p : Parsed) (g : GuestBridge) {g' : GuestBridge} {events : List (Dict Json)}
    → Inv g
    → handle_parsed p g ≡ some (g', events)
    → Inv g'
unfolding handle_parsed
handle_parsed-Inv (event e) g {g'} v h = subst Inv {x = g} {y = g'} (ground arith) v
handle_parsed-Inv unhandled g {g'} v h = subst Inv {x = g} {y = g'} (ground arith) v
handle_parsed-Inv (response id reply) g {g'} v h = elim (Bool-cases (elem id g.pending)) [
  | inl waits ↦
      subst Inv {x = answered id reply g} {y = g'} (ground (arith, handle_reply id reply g v waits))
        (answered-Inv id reply g v waits)
  | inr gone ↦ subst Inv {x = g} {y = g'} (ground (arith, gone)) v
]

disconnect-Inv :
    (conn : ℕ) (g : GuestBridge) {g' : GuestBridge} {events : List (Dict Json)}
    → Inv g
    → disconnect conn g ≡ some (g', events)
    → Inv g'
unfolding disconnect
disconnect-Inv conn g {g'} v h =
    let (chans, e, s) = close_all_lem g.pending g.channels v.waiting v.distinct in
    subst Inv {y = g'} (ground (arith, e)) (quiet chans e)
  where
    quiet :
        (chans : Dict Channel)
        → close_all g.pending g.channels ≡ some chans
        → Inv (record g {
          connected = false;
          conn = same_conn conn g.conn;
          pending = [];
          channels = chans;
        })
    quiet chans e = record {
      waiting = tt;
      distinct = tt;
      numbered =
          close_all-Numbered g.pending g.next_id g.channels chans v.waiting v.distinct e v.numbered;
      in_range = v.in_range;
    }

-- The connection and the closed flag play no part in the invariant.
moved-Inv :
    {g : GuestBridge} {conn : Option ℕ} {connected closed : Bool}
    → Inv g
    → Inv (record g { conn = conn; connected = connected; closed = closed })
moved-Inv v = record {
  waiting = v.waiting;
  distinct = v.distinct;
  numbered = v.numbered;
  in_range = v.in_range;
}

Step-Inv : {text : GuestText} {g g' : GuestBridge} → Step text g g' → Inv g → Inv g'
unfolding handle_message accept close_bridge
Step-Inv (accepts conn) v = moved-Inv v
Step-Inv (registers l) v = register-Inv l v
Step-Inv (gives_up id) v = unregister-Inv id v
Step-Inv {text} {g} (reads raw events h) v = handle_parsed-Inv (parse_message text raw) g v h
Step-Inv {g = g} (hangs_up conn events h) v = disconnect-Inv conn g v h
Step-Inv closes v = moved-Inv v

-- The bookkeeping is right in every state that the bridge can reach.
pub Reach-Inv : {text : GuestText} {g : GuestBridge} → Reach text g → Inv g
unfolding new_guest_bridge
Reach-Inv start = omega arith
Reach-Inv (after r st) = Step-Inv st (Reach-Inv r)
