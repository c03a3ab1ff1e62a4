-- ===== src/Vm/Backend/Leaks/Kept.antt =====
-- What each step of a run keeps: what is open is known.
use claude_cowork_service.Vm.Backend.Leaks.Steps.{
  After, Stage, Stepped, Tracked, begin_stage, begun_start, has_dirs, has_helper, has_qemu, has_vm,
  is_opening, no_start, open_step, reach,
}
use claude_cowork_service.Base.{
  Bool-cases, Bytes, Option, ap, arith, err, false, inl, inr, is_positive, none, ok, refl, some,
  subst, sym, true, ℕ, ℤ, ◌∙◌, ◌≡◌,
}
use claude_cowork_service.Vm.Backend.{
  KvmBackend, Machine, cleanup_vm_runtime, configure_kvm, is_kvm_running, stop_kvm,
  take_exited_vm_state, take_vm_runtime,
}
use claude_cowork_service.Vm.Backend.Start.{
  Begun, OpenCalls, Opened, Partly, StartNames, begin_start, open_bridge, open_helper, open_qemu,
  prepare_vm, proceeds, returns,
}
use claude_cowork_service.Vm.Backend.Leaks.{
  IsAccounted, IsIdle, IsOff-IsAccounted, Off-Accounted, after_is_running, has_part, is_handle,
  is_kvm_running-IsAccounted, is_running_off, stop_kvm-IsOff, stop_kvm_off,
}
use claude_cowork_service.Vm.Backend.Leaks.Begin.{
  Ready, begin_start-Ready, begin_start_busy, is_lost, with_cpus,
}
use claude_cowork_service.Vm.Backend.Leaks.Open.{
  Empty, InFlight, Settled, Stored, open_bridge-Settled, open_helper-Settled, open_qemu-Settled,
  prepare_vm-Settled,
}

pub open_step-Stepped :
    (os : OpenCalls) (names : Bytes → StartNames) (s : Stage) (b : KvmBackend) (m : Machine)
    → is_opening s ≡ true
    → Tracked s b m
    → Stepped (open_step os names s b m)
unfolding open_step Tracked
open_step-Stepped os names no_start b m h a = absurd (ground arith)
open_step-Stepped os names has_vm b m h a = absurd (ground arith)
open_step-Stepped os names begun_start b m h a =
    reached (prepare_vm os names b m) (prepare_vm-Settled os names b m a)
  where
    reached : (r : Partly StartNames) → Settled (λ ns. Empty) r → Stepped (reach has_dirs r)
    reached (b, m, ok ns) f = f
    reached (b, m, err e) o = o
open_step-Stepped os names (has_dirs ns) b m h a =
    reached (open_helper os b m) (open_helper-Settled os b m a)
  where
    reached :
        (r : Partly ℕ)
        → Settled (λ helper. InFlight (some helper) none none) r
        → Stepped (reach (has_helper ns) r)
    reached (b, m, ok helper) f = f
    reached (b, m, err e) o = o
open_step-Stepped os names (has_helper ns helper) b m h a =
    reached (open_qemu os helper b m) (open_qemu-Settled os helper b m a)
  where
    reached :
        (r : Partly (ℕ × Option ℕ))
        → Settled (λ parts. InFlight (some helper) (some (parts.0)) (parts.1)) r
        → Stepped (reach (λ parts. has_qemu ns helper parts.0 parts.1) r)
    reached (b, m, ok (qemu, qmp)) f = f
    reached (b, m, err e) o = o
open_step-Stepped os names (has_qemu ns helper qemu qmp) b m h a =
    reached (open_bridge os ns helper qemu qmp b m)
      (open_bridge-Settled os ns helper qemu qmp b m a)
  where
    reached : (r : Opened) → Settled (λ u. Stored) r → Stepped (reach (λ u. has_vm) r)
    reached (b, m, ok u) f = f
    reached (b, m, err e) o = o

pub Stepped-After : (r : Stage × KvmBackend × Machine) → Stepped r → Tracked r.0 r.1 r.2
unfolding Tracked
Stepped-After (no_start, b, m) o = IsOff-IsAccounted b m o
Stepped-After (begun_start, b, m) f = f
Stepped-After (has_dirs ns, b, m) f = f
Stepped-After (has_helper ns helper, b, m) f = f
Stepped-After (has_qemu ns helper qemu qmp, b, m) f = f
Stepped-After (has_vm, b, m) f = f

-- A call that leaves the machine and the runtime alone, and the flags.
unfoldable pub Alike : KvmBackend → KvmBackend → Type 0
Alike b b' = (b'.started ≡ b.started) × (b'.runtime ≡ b.runtime) × (b'.starting ≡ b.starting)

InFlight-Alike :
    (helper qemu qmp : Option ℕ) (b b' : KvmBackend) (m : Machine)
    → Alike b b'
    → InFlight helper qemu qmp b m
    → InFlight helper qemu qmp b' m
unfolding Alike
InFlight-Alike helper qemu qmp b b' m k f = record {
  only = f.only;
  off = k.0 ∙ f.off;
  empty = k.1 ∙ f.empty;
  busy = k.2 ∙ f.busy;
}

IsAccounted-Alike :
    (b b' : KvmBackend) (m : Machine) → Alike b b' → IsAccounted b m → IsAccounted b' m
unfolding Alike
IsAccounted-Alike b b' m k a = record {
  accounted = λ n. a.accounted n ∙ ap (has_part n) (sym k.1);
  stopped = λ e. k.1 ∙ a.stopped (sym k.0 ∙ e);
}

pub Tracked-Alike :
    (s : Stage) (b b' : KvmBackend) (m : Machine) → Alike b b' → Tracked s b m → Tracked s b' m
unfolding Tracked Alike
Tracked-Alike no_start b b' m k a = IsAccounted-Alike b b' m k a
Tracked-Alike begun_start b b' m k f = InFlight-Alike none none none b b' m k f
Tracked-Alike (has_dirs ns) b b' m k f = InFlight-Alike none none none b b' m k f
Tracked-Alike (has_helper ns helper) b b' m k f = InFlight-Alike (some helper) none none b b' m k f
Tracked-Alike (has_qemu ns helper qemu qmp) b b' m k f =
    InFlight-Alike (some helper) (some qemu) qmp b b' m k f
Tracked-Alike has_vm b b' m k a = (IsAccounted-Alike b b' m k a.0, k.2 ∙ a.1)

-- A start that works without the lock has not stored anything, and its flag is set.
pub opening_off :
    (s : Stage) (b : KvmBackend) (m : Machine)
    → is_opening s ≡ true
    → Tracked s b m
    → (b.started ≡ false) × (b.starting ≡ true)
unfolding Tracked
opening_off no_start b m h a = absurd (ground arith)
opening_off has_vm b m h a = absurd (ground arith)
opening_off begun_start b m h f = (f.off, f.busy)
opening_off (has_dirs ns) b m h f = (f.off, f.busy)
opening_off (has_helper ns helper) b m h f = (f.off, f.busy)
opening_off (has_qemu ns helper qemu qmp) b m h f = (f.off, f.busy)

with_cpus-Alike : (cpu_count : ℤ) (b : KvmBackend) → Alike b (with_cpus cpu_count b)
unfolding Alike
with_cpus-Alike cpu_count b = elim (Bool-cases (is_positive cpu_count)) [
  | inl e ↦ rw e (refl, refl, refl)
  | inr e ↦ rw e (refl, refl, refl)
]

pub configure_kvm-Alike :
    (memory_mb cpu_count : ℤ) (b : KvmBackend) → Alike b (configure_kvm memory_mb cpu_count b)
unfolding configure_kvm Alike
configure_kvm-Alike memory_mb cpu_count b = elim (Bool-cases (is_positive memory_mb)) [
  | inl e ↦ elim (Bool-cases (is_positive cpu_count)) [
    | inl f ↦ rw (e, f) (refl, refl, refl)
    | inr f ↦ rw (e, f) (refl, refl, refl)
  ]
  | inr e ↦ elim (Bool-cases (is_positive cpu_count)) [
    | inl f ↦ rw (e, f) (refl, refl, refl)
    | inr f ↦ rw (e, f) (refl, refl, refl)
  ]
]

abbrev pub Began : Stage → KvmBackend × Machine × Begun → Type 0
Began s (b, m, begun) = Tracked (begin_stage s begun) b m

Ready-Began : (r : KvmBackend × Machine × Begun) → Ready r → Began no_start r
unfolding Tracked IsIdle is_handle
Ready-Began (b, m, returns) a = a
Ready-Began (b, m, proceeds) (o, busy) = record {
  only = o.idle;
  off = o.off;
  empty = o.empty;
  busy = busy;
}

busy_begin :
    (s : Stage) (cpu_count : ℤ) (b : KvmBackend) (m : Machine)
    → b.starting ≡ true
    → is_lost b m ≡ false
    → Tracked s b m
    → Began s (begin_start cpu_count b m)
busy_begin s cpu_count b m busy safe a =
    rw (begin_start_busy cpu_count b m busy safe)
      (Tracked-Alike s b (with_cpus cpu_count b) m (with_cpus-Alike cpu_count b) a)

pub begin_start-Began :
    (s : Stage) (cpu_count : ℤ) (b : KvmBackend) (m : Machine)
    → is_lost b m ≡ false
    → Tracked s b m
    → Began s (begin_start cpu_count b m)
unfolding Tracked
begin_start-Began no_start cpu_count b m safe a =
    Ready-Began (begin_start cpu_count b m) (begin_start-Ready cpu_count b m a safe)
begin_start-Began has_vm cpu_count b m safe a = busy_begin has_vm cpu_count b m a.1 safe a
begin_start-Began begun_start cpu_count b m safe f =
    busy_begin begun_start cpu_count b m f.busy safe f
begin_start-Began (has_dirs ns) cpu_count b m safe f =
    busy_begin (has_dirs ns) cpu_count b m f.busy safe f
begin_start-Began (has_helper ns helper) cpu_count b m safe f =
    busy_begin (has_helper ns helper) cpu_count b m f.busy safe f
begin_start-Began (has_qemu ns helper qemu qmp) cpu_count b m safe f =
    busy_begin (has_qemu ns helper qemu qmp) cpu_count b m f.busy safe f

stop_kvm-starting :
    (name : Bytes) (b : KvmBackend) (m : Machine) → (stop_kvm name b m).0.starting ≡ b.starting
unfolding stop_kvm take_vm_runtime cleanup_vm_runtime
stop_kvm-starting name b m = ground arith

is_running-starting :
    (b : KvmBackend) (m : Machine) → (after_is_running b m).0.starting ≡ b.starting
unfolding is_kvm_running take_exited_vm_state take_vm_runtime cleanup_vm_runtime
is_running-starting b m = ground arith

-- A start that waits, or none: what StopVM and IsRunning do to the backend.
settled-After :
    (s : Stage) (b b' : KvmBackend) (m m' : Machine)
    → is_opening s ≡ false
    → Tracked s b m
    → b'.starting ≡ b.starting
    → (IsAccounted b m → IsAccounted b' m')
    → Tracked s b' m'
unfolding Tracked
settled-After no_start b b' m m' h a k f = f a
settled-After has_vm b b' m m' h a k f = (f a.0, k ∙ a.1)
settled-After begun_start b b' m m' h a k f = absurd (ground arith)
settled-After (has_dirs ns) b b' m m' h a k f = absurd (ground arith)
settled-After (has_helper ns helper) b b' m m' h a k f = absurd (ground arith)
settled-After (has_qemu ns helper qemu qmp) b b' m m' h a k f = absurd (ground arith)

pub stop_kvm-After :
    (s : Stage) (name : Bytes) (b : KvmBackend) (m : Machine)
    → Tracked s b m
    → After s (stop_kvm name b m)
stop_kvm-After s name b m a = elim (Bool-cases (is_opening s)) [
  | inl h ↦ rw (stop_kvm_off name b m (opening_off s b m h a).0) a
  | inr h ↦
      let (b', m') = stop_kvm name b m in
      settled-After s b b' m m' h a (stop_kvm-starting name b m)
        (λ c. Off-Accounted (b', m') (stop_kvm-IsOff name b m c))
]

pub is_running-After :
    (s : Stage) (b : KvmBackend) (m : Machine) → Tracked s b m → After s (after_is_running b m)
is_running-After s b m a = elim (Bool-cases (is_opening s)) [
  | inl h ↦ subst (After s) (sym (is_running_off b m (opening_off s b m h a).0)) a
  | inr h ↦
      let (b', m') = after_is_running b m in
      settled-After s b b' m m' h a (is_running-starting b m) (is_kvm_running-IsAccounted b m)
]
