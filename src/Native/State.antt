-- ===== src/Native/State.antt =====
-- The part of the native backend's state that its lifecycle methods change (native/backend.go):
-- Configure, IsRunning, SubscribeEvents, emitEvent, and what StartVM and StopVM set.
use claude_cowork_service.Base.{
  Bool, Bytes, List, [], arith, false, if◌then◌else◌, is_empty, is_positive, length, not, suc, true,
  ℕ, ℤ, ◌%◌, ◌+◌, ◌<◌, ◌==◌, ◌^◌, ◌||◌, ◌∷◌, ◌≡◌, ◌≤◌,
}

-- Subscribers are the ids under which a callback is registered.
pub record State : Type 0 where
  pub memory : ℤ
  pub cpus : ℤ
  pub started : Bool
  pub has_prober : Bool
  pub subscribers : List ℕ
  pub next_sub_id : ℕ

-- Configure. Only positive values are taken over.
unfoldable pub configure : ℤ → ℤ → State → State
unfolding is_positive
configure memory_mb cpu_count b =
    let b' : State = if is_positive memory_mb then record b { memory = memory_mb } else b in
    if is_positive cpu_count then record b' { cpus = cpu_count } else b'

-- What StartVM changes before it returns: a previous prober is replaced, or stopped.
unfoldable pub start_vm : ℤ → Bytes → State → State
unfolding is_positive is_empty
start_vm cpu_count probe_url b =
    let b' : State = record b { started = true; has_prober = not (is_empty probe_url) } in
    if is_positive cpu_count then record b' { cpus = cpu_count } else b'

-- What StopVM changes before it kills the processes.
unfoldable pub stop_vm : State → State
stop_vm b = record b { started = false; has_prober = false }

-- SubscribeEvents: the id that its cancel function removes, from a uint64 counter.
unfoldable pub subscribe_events : State → State × ℕ
subscribe_events b =
    let id = (b.next_sub_id + 1) % 2 ^ 64 in
    (record b { subscribers = id ∷ b.subscribers; next_sub_id = id }, id)

unfoldable pub drop_sub : ℕ → List ℕ → List ℕ
drop_sub id [] = []
drop_sub id (s ∷ ss) = let rest = drop_sub id ss in if s == id then rest else s ∷ rest

-- The cancel function that SubscribeEvents returns.
unfoldable pub cancel : ℕ → State → State
unfolding drop_sub
cancel id b = record b { subscribers = drop_sub id b.subscribers }

-- Who receives an event that is emitted.
abbrev pub receivers : State → List ℕ
receivers b = b.subscribers

unfoldable pub has_sub : ℕ → List ℕ → Bool
has_sub id [] = false
has_sub id (s ∷ ss) = s == id || has_sub id ss

-- Ids that were given out are not past the counter.
AllGiven : State → Type 0
AllGiven b = (id : ℕ) → has_sub id b.subscribers ≡ true → id ≤ b.next_sub_id

-- The steps of the clients.
pub data Op : Type 0 where
  configures : ℤ → ℤ → Op
  starts : ℤ → Bytes → Op
  stops : Op
  subscribes : Op
  cancels : ℕ → Op

unfoldable pub apply_op : Op → State → State
unfolding configure start_vm stop_vm subscribe_events cancel
apply_op (configures m c) b = configure m c b
apply_op (starts c url) b = start_vm c url b
apply_op stops b = stop_vm b
apply_op subscribes b = (subscribe_events b).0
apply_op (cancels id) b = cancel id b

unfoldable pub apply_ops : List Op → State → State
unfolding apply_op
apply_ops [] b = b
apply_ops (op ∷ ops) b = apply_ops ops (apply_op op b)

drop_sub-has_sub :
    (id j : ℕ) (ss : List ℕ)
    → has_sub j (drop_sub id ss) ≡ (if id == j then false else has_sub j ss)
unfolding drop_sub has_sub
drop_sub-has_sub id j [] = ground arith
drop_sub-has_sub id j (s ∷ ss) = ground (arith, drop_sub-has_sub id j ss)

-- The counter has not wrapped after `n` more subscriptions.
Fits : ℕ → State → Type 0
Fits n b = b.next_sub_id + n < 2 ^ 64

no_wrap : (n : ℕ) → n + 1 < 2 ^ 64 → (n + 1) % 2 ^ 64 ≡ n + 1
no_wrap n h = omega arith

apply_op-AllGiven : (op : Op) (b : State) → Fits 1 b → AllGiven b → AllGiven (apply_op op b)
unfolding AllGiven apply_op has_sub Fits
apply_op-AllGiven (configures m c) b f h id e = ground (arith, h id)
apply_op-AllGiven (starts c url) b f h id e = ground (arith, h id)
apply_op-AllGiven stops b f h id e = h id e
apply_op-AllGiven subscribes b f h id e = ground (arith, h id, no_wrap b.next_sub_id f)
apply_op-AllGiven (cancels j) b f h id e = ground (arith, h id, drop_sub-has_sub j id b.subscribers)

apply_op-Fits : (n : ℕ) (op : Op) (b : State) → Fits (suc n) b → Fits n (apply_op op b)
unfolding apply_op Fits
apply_op-Fits n (configures m c) b f = ground arith
apply_op-Fits n (starts c url) b f = ground arith
apply_op-Fits n stops b f = omega arith
apply_op-Fits n subscribes b f = ground (arith, no_wrap b.next_sub_id)
apply_op-Fits n (cancels j) b f = omega arith

cons-Fits :
    (op : Op) (ops : List Op) (b : State)
    → Fits (length (op ∷ ops) + 1) b
    → Fits (suc (length ops + 1)) b
unfolding Fits
cons-Fits op ops b f = ground arith

apply_ops-Fits : (ops : List Op) (b : State) → Fits (length ops + 1) b → Fits 1 (apply_ops ops b)
unfolding apply_ops
apply_ops-Fits [] b f = f
apply_ops-Fits (op ∷ ops) b f =
    apply_ops-Fits ops (apply_op op b) (apply_op-Fits (length ops + 1) op b (cons-Fits op ops b f))

one-Fits : (n : ℕ) (b : State) → Fits (suc n) b → Fits 1 b
unfolding Fits
one-Fits n b f = omega arith

apply_ops-AllGiven :
    (ops : List Op) (b : State) → Fits (length ops + 1) b → AllGiven b → AllGiven (apply_ops ops b)
unfolding apply_ops
apply_ops-AllGiven [] b f h = h
apply_ops-AllGiven (op ∷ ops) b f h =
    let f' = cons-Fits op ops b f in
    apply_ops-AllGiven ops (apply_op op b) (apply_op-Fits (length ops + 1) op b f')
      (apply_op-AllGiven op b (one-Fits (length ops + 1) b f') h)

no_subscribers-AllGiven : (b : State) → b.subscribers ≡ [] → AllGiven b
unfolding AllGiven has_sub
no_subscribers-AllGiven b e id m = ground (arith, e)

fresh_id :
    (b : State) → Fits 1 b → AllGiven b → has_sub (subscribe_events b).1 b.subscribers ≡ false
unfolding AllGiven subscribe_events Fits
fresh_id b f h = ground (arith, h (b.next_sub_id + 1), no_wrap b.next_sub_id f)

new_id : (b : State) → has_sub (subscribe_events b).1 (subscribe_events b).0.subscribers ≡ true
unfolding subscribe_events has_sub
new_id b = ground arith

cancel_undoes :
    (b : State) (j : ℕ)
    → Fits 1 b
    → AllGiven b
    → has_sub j (cancel (subscribe_events b).1 (subscribe_events b).0).subscribers
      ≡ has_sub j b.subscribers
unfolding AllGiven cancel subscribe_events has_sub Fits
cancel_undoes b j f h = ground (
  arith,
  h j,
  no_wrap b.next_sub_id f,
  drop_sub-has_sub ((b.next_sub_id + 1) % 2 ^ 64) j b.subscribers,
)

-- After any calls to a backend that begins without subscribers, too few for the uint64 counter of
-- ids to wrap, a new subscription gets an id that no subscriber has and receives events, and its
-- cancel function takes off that subscriber only.
pub subscribe_then_cancel :
    (ops : List Op) (b : State)
    → b.subscribers ≡ []
    → b.next_sub_id + (length ops + 1) < 2 ^ 64
    → let now = apply_ops ops b in
      let (after, id) = subscribe_events now in
      (has_sub id now.subscribers ≡ false)
      × (has_sub id after.subscribers ≡ true)
      × ((j : ℕ) → has_sub j (cancel id after).subscribers ≡ has_sub j now.subscribers)
unfolding Fits
subscribe_then_cancel ops b e fits =
    let h = apply_ops-AllGiven ops b fits (no_subscribers-AllGiven b e) in
    let f = apply_ops-Fits ops b fits in
    (
      fresh_id (apply_ops ops b) f h,
      new_id (apply_ops ops b),
      λ j. cancel_undoes (apply_ops ops b) j f h,
    )
