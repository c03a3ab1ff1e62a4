-- ===== src/Vm/Backend/Leaks/Steps.antt =====
-- The calls to the KVM backend as steps of a run: a start goes in several steps, between which other
-- calls may come.
use claude_cowork_service.Base.{
  Bool, Bytes, Option, [], err, false, none, ok, some, true, ℕ, ℤ, ◌∷◌, ◌≡◌,
}
use claude_cowork_service.Vm.Backend.{KvmBackend, Machine, configure_kvm, new_kvm_backend, stop_kvm}
use claude_cowork_service.Vm.Backend.Start.{
  Begun, OpenCalls, Opened, Partly, StartNames, begin_start, finish_start, open_bridge, open_helper,
  open_qemu, prepare_vm, proceeds, returns,
}
use claude_cowork_service.Vm.Backend.Leaks.{IsAccounted, IsOff, after_is_running}
use claude_cowork_service.Vm.Backend.Leaks.Begin.{is_lost}
use claude_cowork_service.Vm.Backend.Leaks.Open.{Empty, InFlight, Stored}

abbrev pub without_result : Opened → KvmBackend × Machine
without_result (b, m, r) = (b, m)

-- How far the start in flight has come, with its local variables: there is none; it has passed its
-- tests; its directories are there; its helper; QEMU, with its QMP connection; it has stored them and
-- waits for the guest.
pub data Stage : Type 0 where
  no_start : Stage
  begun_start : Stage
  has_dirs : StartNames → Stage
  has_helper : StartNames → ℕ → Stage
  has_qemu : StartNames → ℕ → ℕ → Option ℕ → Stage
  has_vm : Stage

-- The start works without the lock.
abbrev pub is_opening : Stage → Bool
is_opening no_start = false
is_opening has_vm = false
is_opening other = true

-- A start that fails is in flight no more.
abbrev pub reach : {A : Type 0} → (A → Stage) → Partly A → Stage × KvmBackend × Machine
reach next (b, m, ok a) = (next a, b, m)
reach next (b, m, err e) = (no_start, b, m)

-- The next step of the start in flight, as StartVM composes them.
unfoldable pub open_step :
    OpenCalls → (Bytes → StartNames) → Stage → KvmBackend → Machine → Stage × KvmBackend × Machine
unfolding prepare_vm open_helper open_qemu open_bridge
open_step os names no_start b m = (no_start, b, m)
open_step os names begun_start b m = reach has_dirs (prepare_vm os names b m)
open_step os names (has_dirs ns) b m = reach (has_helper ns) (open_helper os b m)
open_step os names (has_helper ns helper) b m =
    reach (λ parts. has_qemu ns helper parts.0 parts.1) (open_qemu os helper b m)
open_step os names (has_qemu ns helper qemu qmp) b m =
    reach (λ u. has_vm) (open_bridge os ns helper qemu qmp b m)
open_step os names has_vm b m = (has_vm, b, m)

-- After the tests of a StartVM.
abbrev pub begin_stage : Stage → Begun → Stage
begin_stage s returns = s
begin_stage s proceeds = begun_start

-- One step of a run: a call with its clean-up, which works on the runtime that the call has taken, or a step of one, or the end of a QEMU process.
pub data Step : Stage → KvmBackend → Machine → Stage → KvmBackend → Machine → Type 0 where
  begins :
      {s : Stage} {b b' : KvmBackend} {m m' : Machine} {begun : Begun} (cpu_count : ℤ)
      → is_lost b m ≡ false
      → begin_start cpu_count b m ≡ (b', m', begun)
      → Step s b m (begin_stage s begun) b' m'
  opens :
      {s s' : Stage} {b b' : KvmBackend} {m m' : Machine} (os : OpenCalls)
      (names : Bytes → StartNames)
      → is_opening s ≡ true
      → open_step os names s b m ≡ (s', b', m')
      → Step s b m s' b' m'
  finishes :
      {b b' : KvmBackend} {m m' : Machine} (name : Bytes) (guest_ready : Bool)
      (api_probe_url : Bytes)
      → finish_start name guest_ready api_probe_url b m ≡ (b', m')
      → Step has_vm b m no_start b' m'
  stops :
      {s : Stage} {b b' : KvmBackend} {m m' : Machine} (name : Bytes)
      → stop_kvm name b m ≡ (b', m')
      → Step s b m s b' m'
  asks :
      {s : Stage} {b b' : KvmBackend} {m m' : Machine}
      → after_is_running b m ≡ (b', m')
      → Step s b m s b' m'
  configures :
      {s : Stage} {b b' : KvmBackend} {m : Machine} (memory_mb cpu_count : ℤ)
      → configure_kvm memory_mb cpu_count b ≡ b'
      → Step s b m s b' m
  qemu_exits :
      {s : Stage} {b : KvmBackend} {m m' : Machine} (q : ℕ)
      → record m { exited = q ∷ m.exited } ≡ m'
      → Step s b m s b m'

-- From a backend that has just been made, with nothing open.
pub data Run : Stage → KvmBackend → Machine → Type 0 where
  new : {b : KvmBackend} {m : Machine} → b ≡ new_kvm_backend → m.live ≡ [] → Run no_start b m
  step :
      {s s' : Stage} {b b' : KvmBackend} {m m' : Machine}
      → Run s b m
      → Step s b m s' b' m'
      → Run s' b' m'

-- What is open: the parts of the runtime, and those that a start has opened and not stored yet.
unfoldable pub Tracked : Stage → KvmBackend → Machine → Type 0
Tracked no_start b m = IsAccounted b m
Tracked begun_start b m = Empty b m
Tracked (has_dirs ns) b m = Empty b m
Tracked (has_helper ns helper) b m = InFlight (some helper) none none b m
Tracked (has_qemu ns helper qemu qmp) b m = InFlight (some helper) (some qemu) qmp b m
Tracked has_vm b m = Stored b m

abbrev pub After : Stage → KvmBackend × Machine → Type 0
After s (b, m) = Tracked s b m

-- After a step of a start: nothing is open if it has failed.
abbrev pub Stepped : Stage × KvmBackend × Machine → Type 0
Stepped (no_start, b, m) = IsOff b m
Stepped (s, b, m) = Tracked s b m
