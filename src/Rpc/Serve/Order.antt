-- ===== src/Rpc/Serve/Order.antt =====
-- The connection loop starts a handler for each request, in the order sent, and always ends.
use native.Mathlib.Nat.{zero-add, suc-add}
use claude_cowork_service.Base.{
  All, Bytes, List, Option, Option-cases, Result-cases, [], append-nil, arith, err, inl, inr,
  length, none, refl, some, suc, true, zero, ℕ, ◌++◌, ◌+◌, ◌<◌, ◌∷◌, ◌≡◌, ◌≢◌, ◌≤◌,
}
use claude_cowork_service.Wire.{
  eof, max_message, read_full, read_message, reading_length, write_message,
}
use claude_cowork_service.Wire.Frames.{read_message-write_message, read_message_shorter}
use claude_cowork_service.Rpc.Message.{JsonText}
use claude_cowork_service.Rpc.Serve.{
  IsCall, Served, disconnected, is_subscribe, sent, serve, subscribed,
}

serve-ne-none :
    (text : JsonText) (fuel : ℕ) (conn : Bytes) → length conn < fuel → serve text fuel conn ≢ none
unfolding serve
serve-ne-none text zero conn h = elim h [ ]
serve-ne-none text (suc fuel) conn h =
    let (r, rest) = read_message conn in
    elim (Result-cases r) [
      | inl (payload, e) ↦
          ground (arith, e, read_message_shorter conn payload, serve-ne-none text fuel rest)
      | inr (x, e) ↦ ground (arith, e)
    ]

-- Whatever a client sends, the loop ends within one round more than the connection has bytes.
pub serve_total :
    (text : JsonText) (conn : Bytes) → (s : Served) × (serve text (suc (length conn)) conn ≡ some s)
serve_total text conn = elim (Option-cases (serve text (suc (length conn)) conn)) [
  | inl e ↦ absurd (serve-ne-none text (suc (length conn)) conn (omega arith) e)
  | inr found ↦ found
]

abbrev pub after_calls : List Bytes → Option Served → Option Served
after_calls ps none = none
after_calls ps (some s) = some (record s { started = ps ++ s.started })

after_no_calls : (o : Option Served) → o ≡ after_calls [] o
after_no_calls none = refl
after_no_calls (some s) = refl

serve-sent :
    (text : JsonText) (ps : List Bytes) (fuel : ℕ) (conn : Bytes)
    → All (IsCall text) ps
    → serve text (length ps + fuel) (sent ps conn) ≡ after_calls ps (serve text fuel conn)
unfolding serve
serve-sent text [] fuel conn h = rw zero-add (after_no_calls (serve text fuel conn))
serve-sent text (p ∷ ps) fuel conn h = ground (
  arith,
  suc-add (length ps) fuel,
  read_message-write_message p (sent ps conn),
  serve-sent text ps fuel conn h.1,
)

-- Requests that neither are empty nor pass 10 MiB nor subscribe are each started once, in the order
-- sent; a subscription that follows them takes the rest of the connection, and nothing is started
-- after it.
pub serve_until_subscription :
    (text : JsonText) (ps : List Bytes) (q conn : Bytes)
    → All (IsCall text) ps
    → 0 < length q
    → length q ≤ max_message
    → is_subscribe text q ≡ true
    → (fuel : ℕ)
    → serve text (length ps + suc fuel) (sent ps (write_message q ++ conn))
      ≡ some (record { started = ps; ending = subscribed q conn })
unfolding serve
serve_until_subscription text ps q conn h k l e fuel =
    rw (serve-sent text ps (suc fuel) (write_message q ++ conn) h)
      (ground (arith, read_message-write_message q conn, append-nil ps))

read_closed : read_message [] ≡ (err (reading_length eof), [])
unfolding read_message read_full
read_closed = refl

-- A client that closes the connection after its requests has had each started once, in order.
pub serve_until_close :
    (text : JsonText) (ps : List Bytes)
    → All (IsCall text) ps
    → (fuel : ℕ)
    → serve text (length ps + suc fuel) (sent ps [])
      ≡ some (record { started = ps; ending = disconnected (reading_length eof) })
unfolding serve
serve_until_close text ps h fuel =
    rw (serve-sent text ps (suc fuel) [] h) (ground (arith, read_closed, append-nil ps))
