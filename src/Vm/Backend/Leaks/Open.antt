-- ===== src/Vm/Backend/Leaks/Open.antt =====
-- Which processes, connections and goroutines are open between the steps of a start.
use claude_cowork_service.Base.{
  Bool, Bytes, Dict, Option, Option-cases, Result-cases, arith, err, false, inl, inr, none, ok,
  some, true, ℕ, ◌||◌, ◌∷◌, ◌≡◌,
}
use claude_cowork_service.Vm.Backend.{KvmBackend, Machine, emit, has_handle, no_runtime, shut}
use claude_cowork_service.Vm.Backend.Start.{
  OpenCalls, Partly, StartNames, end_start, open_bridge, open_helper, open_if, open_part, open_qemu,
  open_session, prepare_session, prepare_vm, startup_failed,
}
use claude_cowork_service.Vm.Backend.Leaks.{
  IsAccounted, IsIdle, IsOff, has_part, is_handle, shut-has_handle,
}
use claude_cowork_service.Json.{Json}

-- Nothing is open but these parts.
abbrev pub OnlyOpen : Machine → Option ℕ → Option ℕ → Option ℕ → Type 0
OnlyOpen m helper qemu qmp =
    (n : ℕ) → has_handle n m.live ≡ (is_handle n qmp || (is_handle n qemu || is_handle n helper))

-- A start is in flight that has opened these parts and not stored them yet.
pub record InFlight (helper qemu qmp : Option ℕ) (b : KvmBackend) (m : Machine) : Type 0 where
  pub only : OnlyOpen m helper qemu qmp
  pub off : b.started ≡ false
  pub empty : b.runtime ≡ no_runtime
  pub busy : b.starting ≡ true

-- After a failure nothing is open; otherwise the step has reached its aim.
abbrev pub Settled : {A : Type 0} → (A → KvmBackend → Machine → Type 0) → Partly A → Type 0
Settled aim (b, m, ok a) = aim a b m
Settled aim (b, m, err e) = IsOff b m

failed_open :
    (helper qemu qmp : Option ℕ) (m : Machine)
    → OnlyOpen m helper qemu qmp
    → IsIdle (shut helper (shut qmp (shut qemu m)))
unfolding IsIdle
failed_open helper qemu qmp m a n = ground (
  arith,
  a n,
  shut-has_handle helper n (shut qmp (shut qemu m)),
  shut-has_handle qmp n (shut qemu m),
  shut-has_handle qemu n m,
)

-- What is open are the parts of the runtime that is stored, and the start waits for its guest.
abbrev pub Stored : KvmBackend → Machine → Type 0
Stored b m = IsAccounted b m × (b.starting ≡ true)

pub open_bridge-Settled :
    (os : OpenCalls) (names : StartNames) (helper qemu : ℕ) (qmp : Option ℕ) (b : KvmBackend)
    (m : Machine)
    → InFlight (some helper) (some qemu) qmp b m
    → Settled (λ u. Stored) (open_bridge os names helper qemu qmp b m)
unfolding open_bridge has_handle has_part is_handle
open_bridge-Settled os names helper qemu qmp b m f = elim (Option-cases os.listen_error) [
  | inl e ↦
      rw (open_bridge, e)
        (record { accounted = λ n. ground (arith, f.only n); stopped = λ h. cc }, f.busy)
  | inr (t, e) ↦
      rw (open_bridge, e)
        (record {
          idle = failed_open (some helper) (some qemu) qmp m f.only;
          off = f.off;
          empty = f.empty;
        })
]

-- QMP is a part that may be missing.
open_if-OnlyOpen :
    (has_qmp : Bool) (helper qemu : ℕ) (m : Machine)
    → OnlyOpen m (some helper) (some qemu) none
    → let (m', qmp) = open_if has_qmp m in OnlyOpen m' (some helper) (some qemu) qmp
unfolding open_if open_part has_handle is_handle
open_if-OnlyOpen true helper qemu m a n = ground (arith, a n)
open_if-OnlyOpen false helper qemu m a n = a n

open_part-OnlyOpen :
    (helper : ℕ) (m : Machine)
    → OnlyOpen m (some helper) none none
    → let (m', qemu) = open_part m in OnlyOpen m' (some helper) (some qemu) none
unfolding open_part has_handle is_handle
open_part-OnlyOpen helper m a n = ground (arith, a n)

first_part :
    (m : Machine)
    → OnlyOpen m none none none
    → let (m', helper) = open_part m in OnlyOpen m' (some helper) none none
unfolding open_part has_handle is_handle
first_part m a n = ground (arith, a n)

pub open_qemu-Settled :
    (os : OpenCalls) (helper : ℕ) (b : KvmBackend) (m : Machine)
    → InFlight (some helper) none none b m
    → Settled (λ parts. InFlight (some helper) (some (parts.0)) (parts.1)) (open_qemu os helper b m)
unfolding open_qemu
open_qemu-Settled os helper b m f = elim (Option-cases os.qemu_error) [
  | inl e ↦
      let (m', qemu) = open_part m in
      rw (open_qemu, e)
        (record {
          only = open_if-OnlyOpen os.has_qmp helper qemu m' (open_part-OnlyOpen helper m f.only);
          off = f.off;
          empty = f.empty;
          busy = f.busy;
        })
  | inr (t, e) ↦
      rw (open_qemu, e)
        (record {
          idle = failed_open (some helper) none none m f.only;
          off = f.off;
          empty = f.empty;
        })
]

-- A start that has opened nothing yet.
abbrev pub Empty : KvmBackend → Machine → Type 0
Empty = InFlight none none none

ended : (b : KvmBackend) (m : Machine) → Empty b m → IsOff (end_start b) m
unfolding end_start IsIdle is_handle
ended b m f = record { idle = f.only; off = f.off; empty = f.empty }

pub open_helper-Settled :
    (os : OpenCalls) (b : KvmBackend) (m : Machine)
    → Empty b m
    → Settled (λ helper. InFlight (some helper) none none) (open_helper os b m)
unfolding open_helper
open_helper-Settled os b m f = elim (Option-cases os.helper_error) [
  | inl e ↦
      rw (open_helper, e)
        (record {
          only = unfold emit in first_part m f.only;
          off = f.off;
          empty = f.empty;
          busy = f.busy;
        })
  | inr (t, e) ↦ rw (open_helper, e) (ended b m f)
]

moved :
    (b : KvmBackend) (d : Bytes) (m : Machine)
    → Empty b m
    → Empty b (record m { session_dirs = d ∷ m.session_dirs })
moved b d m f = record { only = f.only; off = f.off; empty = f.empty; busy = f.busy }

emitted : (b : KvmBackend) (e : Dict Json) (m : Machine) → Empty b m → Empty b (emit e m)
unfolding emit
emitted b e m f = record { only = f.only; off = f.off; empty = f.empty; busy = f.busy }

open_session-Settled :
    (os : OpenCalls) (names : StartNames) (b : KvmBackend) (m : Machine)
    → Empty b m
    → Settled (λ ns. Empty) (open_session os names b m)
unfolding open_session
open_session-Settled os names b m o =
    let m' : Machine = record m { session_dirs = names.session_dir ∷ m.session_dirs } in
    let o' = moved b names.session_dir m o in
    elim (Option-cases os.session_dir_error) [
      | inr (t, e) ↦ rw (open_session, e) (ended b m o)
      | inl e ↦ elim (Option-cases os.vars_error) [
        | inr (t, f) ↦ rw (open_session, e, f) (ended b m' o')
        | inl f ↦ elim (Option-cases os.staging_error) [
          | inr (t, g) ↦ rw (open_session, e, f, g) (ended b m' o')
          | inl g ↦ rw (open_session, e, f, g) o'
        ]
      ]
    ]

pub prepare_vm-Settled :
    (os : OpenCalls) (names : Bytes → StartNames) (b : KvmBackend) (m : Machine)
    → Empty b m
    → Settled (λ ns. Empty) (prepare_vm os names b m)
unfolding prepare_vm
prepare_vm-Settled os names b m o = elim (Option-cases os.missing) [
  | inr (t, e) ↦
      rw (prepare_vm, e) (ended b (emit (startup_failed t) m) (emitted b (startup_failed t) m o))
  | inl e ↦
      let o' = emitted b prepare_session m o in
      elim (Result-cases os.prepared) [
        | inr (t, f) ↦ rw (prepare_vm, e, f) (ended b (emit prepare_session m) o')
        | inl (bundle_dir, f) ↦
            rw (prepare_vm, e, f)
              (open_session-Settled os (names bundle_dir) b (emit prepare_session m) o')
      ]
]
