-- ===== src/Vm/Backend/Watchdog.antt =====
-- The keepalive watchdog (vm/backend.go: watchdogLoop, Touch and keepaliveTimeout). Times are in
-- seconds; the ticks of its ticker are 5 s apart.
use claude_cowork_service.Base.{
  Bool, Bool-cases, Option, ap, arith, false, if◌then◌else◌, inl, inr, leb, none, not, some, subst,
  suc, true, zero, ℕ, ◌&&◌, ◌*◌, ◌+◌, ◌<◌, ◌==◌, ◌∙◌, ◌≡◌, ◌≤◌,
}

abbrev pub keepalive_timeout : ℕ
keepalive_timeout = 30

-- One tick: the VM is to be stopped. `last` is the time of the last call, 0 for none.
unfoldable pub is_silent : ℕ → ℕ → Bool
is_silent now last = not (last == 0) && leb (last + keepalive_timeout) now

-- watchdogLoop over a number of ticks from a time on, where `last_at` gives lastActivity at a time
-- and `stop_at` whether the stop channel is closed by then: when it calls StopVM, if it does.
unfoldable pub watchdog_loop : ℕ → (ℕ → ℕ) → (ℕ → Bool) → ℕ → Option ℕ
unfolding is_silent
watchdog_loop zero last_at stop_at now = none
watchdog_loop (suc ticks) last_at stop_at now =
    let rest = watchdog_loop ticks last_at stop_at (now + 5) in
    if stop_at (now + 5)
    then none
    else if is_silent (now + 5) (last_at (now + 5))
    then some (now + 5)
    else rest

-- Touch, at a time.
unfoldable pub touch_at : ℕ → (ℕ → ℕ) → ℕ → ℕ
touch_at at last_at t = if leb at t then at else last_at t

-- The last call was at this time at least 30 s ago, and the VM runs.
abbrev pub Silent : (ℕ → ℕ) → (ℕ → Bool) → ℕ → Type 0
Silent last_at stop_at t = (1 ≤ last_at t) × (last_at t + 30 ≤ t) × (stop_at t ≡ false)

Silent-tick :
    (last_at : ℕ → ℕ) (stop_at : ℕ → Bool) (t : ℕ)
    → stop_at t ≡ false
    → is_silent t (last_at t) ≡ true
    → Silent last_at stop_at t
unfolding is_silent
Silent-tick last_at stop_at t e f = (ground arith, ground arith, e)

watchdog_fires :
    (ticks : ℕ) (last_at : ℕ → ℕ) (stop_at : ℕ → Bool) (now fired : ℕ)
    → watchdog_loop ticks last_at stop_at now ≡ some fired
    → Silent last_at stop_at fired
unfolding watchdog_loop
watchdog_fires zero last_at stop_at now fired h = absurd (ground arith)
watchdog_fires (suc ticks) last_at stop_at now fired h = elim (Bool-cases (stop_at (now + 5))) [
  | inl e ↦ absurd (ground (arith, e))
  | inr e ↦ elim (Bool-cases (is_silent (now + 5) (last_at (now + 5)))) [
    | inl f ↦
        let at : now + 5 ≡ fired = ground (arith, e, f) in
        subst (Silent last_at stop_at) at (Silent-tick last_at stop_at (now + 5) e f)
    | inr f ↦ watchdog_fires ticks last_at stop_at (now + 5) fired (ground (arith, e, f))
  ]
]

watchdog_waits :
    (ticks : ℕ) (last_at : ℕ → ℕ) (stop_at : ℕ → Bool) (now : ℕ)
    → stop_at (now + 5) ≡ false
    → is_silent (now + 5) (last_at (now + 5)) ≡ false
    → watchdog_loop (suc ticks) last_at stop_at now ≡ watchdog_loop ticks last_at stop_at (now + 5)
unfolding watchdog_loop
watchdog_waits ticks last_at stop_at now e f = rw (e, f)

watchdog_fires_in_time :
    (ticks : ℕ) (last_at : ℕ → ℕ) (stop_at : ℕ → Bool) (now last : ℕ)
    → 1 ≤ last
    → now < last + 30
    → last + 30 ≤ now + 5 * ticks
    → ((t : ℕ) → now ≤ t → last_at t ≡ last)
    → ((t : ℕ) → stop_at t ≡ false)
    → (fired : ℕ) × (watchdog_loop ticks last_at stop_at now ≡ some fired) × (fired < last + 35)
unfolding watchdog_loop
watchdog_fires_in_time zero last_at stop_at now last p q r same runs = absurd (omega arith)
watchdog_fires_in_time (suc ticks) last_at stop_at now last p q r same runs =
    let e = runs (now + 5) in
    let s = same (now + 5) (omega arith) in
    elim (Bool-cases (is_silent (now + 5) last)) [
      | inl f ↦ (now + 5, rw (e, s, f), omega arith)
      | inr f ↦
          let (fired, g, h) =
            watchdog_fires_in_time ticks last_at stop_at (now + 5) last p
              (unfold is_silent in ground (arith, f)) (omega arith) (λ t l. same t (omega arith))
              runs in
          (
            fired,
            watchdog_waits ticks last_at stop_at now e (ap (is_silent (now + 5)) s ∙ f) ∙ g,
            h,
          )
    ]

-- The watchdog stops the VM only when no call has come for 30 s and the VM has not been stopped; and
-- when calls cease while the VM runs, it does so less than 35 s after the last of them, given seven
-- ticks after it at least.
pub watchdog_loop_lem :
    (ticks : ℕ) (last_at : ℕ → ℕ) (stop_at : ℕ → Bool) (now : ℕ)
    → ((fired : ℕ)
        → watchdog_loop ticks last_at stop_at now ≡ some fired
        → Silent last_at stop_at fired)
      × ((last : ℕ)
          → 1 ≤ last
          → last ≤ now
          → now < last + 30
          → 7 ≤ ticks
          → ((t : ℕ) → now ≤ t → last_at t ≡ last)
          → ((t : ℕ) → stop_at t ≡ false)
          → (fired : ℕ) × (watchdog_loop ticks last_at stop_at now ≡ some fired)
            × (fired < last + 35))
watchdog_loop_lem ticks last_at stop_at now = (
  λ fired h. watchdog_fires ticks last_at stop_at now fired h,
  λ last p l q r same runs.
      watchdog_fires_in_time ticks last_at stop_at now last p q (omega arith) same runs,
)
