-- ===== src/Vm/Backend/Leaks/Run.antt =====
-- Runs of the KVM backend: what its calls leave open, whatever the order in which they come, also
-- between the steps of a start.
use claude_cowork_service.Base.{
  Bool, Bool-cases, Bytes, arith, false, inl, inr, is_empty, is_positive, ok, refl, subst, true, ℕ,
  ℤ, ◌∷◌, ◌≡◌,
}
use claude_cowork_service.Vm.Backend.{
  KvmBackend, Machine, configure_kvm, emit, has_handle, new_kvm_backend, no_runtime, stop_kvm,
}
use claude_cowork_service.Vm.Backend.Start.{
  OpenCalls, StartNames, begin_start, end_start, finish_start, returns, start_kvm,
}
use claude_cowork_service.Vm.Backend.Leaks.{
  Accounted, IsAccounted, Off, has_part, is_handle, stop_kvm-IsOff, stop_kvm_off, taken,
}
use claude_cowork_service.Vm.Backend.Leaks.Begin.{is_lost, test_started_lost, with_cpus}
use claude_cowork_service.Vm.Backend.Leaks.Steps.{
  After, Run, Stage, Step, Stepped, Tracked, asks, begins, begun_start, configures, finishes,
  has_dirs, has_helper, has_qemu, has_vm, is_opening, new, no_start, open_step, opens, qemu_exits,
  step, stops,
}
use claude_cowork_service.Vm.Backend.Leaks.Kept.{
  Began, Stepped-After, Tracked-Alike, begin_start-Began, configure_kvm-Alike, is_running-After,
  open_step-Stepped, opening_off, stop_kvm-After,
}

settled-IsAccounted :
    (s : Stage) (b : KvmBackend) (m : Machine)
    → is_opening s ≡ false
    → Tracked s b m
    → IsAccounted b m
unfolding Tracked
settled-IsAccounted no_start b m h a = a
settled-IsAccounted has_vm b m h a = a.0
settled-IsAccounted begun_start b m h a = absurd (ground arith)
settled-IsAccounted (has_dirs ns) b m h a = absurd (ground arith)
settled-IsAccounted (has_helper ns helper) b m h a = absurd (ground arith)
settled-IsAccounted (has_qemu ns helper qemu qmp) b m h a = absurd (ground arith)

exited_more :
    (s : Stage) (b : KvmBackend) (m : Machine) (q : ℕ)
    → Tracked s b m
    → Tracked s b (record m { exited = q ∷ m.exited })
unfolding Tracked
exited_more no_start b m q a = record { accounted = a.accounted; stopped = a.stopped }
exited_more has_vm b m q a = (record { accounted = a.0.accounted; stopped = a.0.stopped }, a.1)
exited_more begun_start b m q f = record {
  only = f.only;
  off = f.off;
  empty = f.empty;
  busy = f.busy;
}
exited_more (has_dirs ns) b m q f = record {
  only = f.only;
  off = f.off;
  empty = f.empty;
  busy = f.busy;
}
exited_more (has_helper ns helper) b m q f = record {
  only = f.only;
  off = f.off;
  empty = f.empty;
  busy = f.busy;
}
exited_more (has_qemu ns helper qemu qmp) b m q f = record {
  only = f.only;
  off = f.off;
  empty = f.empty;
  busy = f.busy;
}

finish_start-Accounted :
    (name : Bytes) (guest_ready : Bool) (api_probe_url : Bytes) (b : KvmBackend) (m : Machine)
    → IsAccounted b m
    → Accounted (finish_start name guest_ready api_probe_url b m)
unfolding finish_start end_start emit
finish_start-Accounted name guest_ready api_probe_url b m a =
    elim (Bool-cases (is_empty api_probe_url)) [
      | inl e ↦ rw e (record { accounted = a.accounted; stopped = a.stopped })
      | inr e ↦ rw e (record { accounted = a.accounted; stopped = a.stopped })
    ]

Step-Tracked :
    {s s' : Stage} {b b' : KvmBackend} {m m' : Machine}
    → Step s b m s' b' m'
    → Tracked s b m
    → Tracked s' b' m'
unfolding Tracked
Step-Tracked {s} {b = b} {m = m} (begins cpu_count safe e) a =
    subst (Began s) e (begin_start-Began s cpu_count b m safe a)
Step-Tracked {s} {b = b} {m = m} (opens os names h e) a =
    subst (λ r. Tracked r.0 r.1 r.2) e
      (Stepped-After (open_step os names s b m) (open_step-Stepped os names s b m h a))
Step-Tracked {b = b} {m = m} (finishes name guest_ready url e) a =
    subst Accounted e (finish_start-Accounted name guest_ready url b m a.0)
Step-Tracked {s} {b = b} {m = m} (stops name e) a = subst (After s) e (stop_kvm-After s name b m a)
Step-Tracked {s} {b = b} {m = m} (asks e) a = subst (After s) e (is_running-After s b m a)
Step-Tracked {s} {b = b} {b' = b'} {m = m} (configures memory_mb cpu_count e) a =
    subst (λ c. Tracked s c m) e
      (Tracked-Alike s b (configure_kvm memory_mb cpu_count b) m
        (configure_kvm-Alike memory_mb cpu_count b) a)
Step-Tracked {s} {b = b} {m = m} (qemu_exits q e) a =
    subst (λ n. Tracked s b n) e (exited_more s b m q a)

Run-Tracked : {s : Stage} {b : KvmBackend} {m : Machine} → Run s b m → Tracked s b m
unfolding Tracked has_handle has_part new_kvm_backend is_handle
Run-Tracked {b = b} {m = m} (new e l) = record { accounted = λ n. rw (e, l); stopped = λ s. rw e }
Run-Tracked (step r s) = Step-Tracked s (Run-Tracked r)

-- In any run of calls to the backend, where other calls may come between the steps of a start and
-- QEMU may end at any moment, but each call finishes its clean-up of a runtime before the next step,
-- and no StartVM comes while another one waits for its guest and QEMU has ended meanwhile: unless a
-- start is at work without the lock, a StopVM leaves no QEMU, QMP connection, mount helper, guest
-- channel or watchdog channel open; while one is, a StopVM does nothing; and the next step of that
-- start, whatever it comes to, leaves nothing of these open when the start fails by it, just the
-- parts of the stored runtime when it has stored them, and otherwise just those that the start has
-- opened so far.
pub nothing_left_open :
    {s : Stage} {b : KvmBackend} {m : Machine}
    → Run s b m
    → (is_opening s ≡ false → (name : Bytes) → Off (stop_kvm name b m))
      × (is_opening s ≡ true
          → ((name : Bytes) → stop_kvm name b m ≡ (b, m))
            × ((os : OpenCalls) (names : Bytes → StartNames) → Stepped (open_step os names s b m)))
nothing_left_open {s} {b} {m} r =
    let a = Run-Tracked r in
    (
      λ h name. stop_kvm-IsOff name b m (settled-IsAccounted s b m h a),
      λ h. (
        λ name. stop_kvm_off name b m (opening_off s b m h a).0,
        λ os names. open_step-Stepped os names s b m h a,
      ),
    )

with_cpus_lost :
    (cpu_count : ℤ) (b : KvmBackend) (m : Machine)
    → is_lost b m ≡ true
    → is_lost (with_cpus cpu_count b) m ≡ true
with_cpus_lost cpu_count b m lost = elim (Bool-cases (is_positive cpu_count)) [
  | inl e ↦ rw e lost
  | inr e ↦ rw e lost
]

begin_lost :
    (cpu_count : ℤ) (b : KvmBackend) (m : Machine)
    → is_lost (with_cpus cpu_count b) m ≡ true
    → begin_start cpu_count b m ≡ (taken (with_cpus cpu_count b), m, returns)
unfolding begin_start
begin_lost cpu_count b m lost = test_started_lost (with_cpus cpu_count b) m lost

start_lost :
    (os : OpenCalls) (names : Bytes → StartNames) (cpu_count : ℤ) (b : KvmBackend) (m : Machine)
    → is_lost (with_cpus cpu_count b) m ≡ true
    → start_kvm os names cpu_count b m ≡ (taken (with_cpus cpu_count b), m, ok tt)
unfolding start_kvm
start_lost os names cpu_count b m lost =
    let begun = begin_lost cpu_count b m lost in rw (start_kvm, begun, begun)

-- A start that comes while another one waits for its guest, when QEMU has ended meanwhile, returns
-- nil and throws the runtime away: what is open of it stays open, no part of it is known any more,
-- and a stop does nothing.
pub lost_start_leaks :
    (os : OpenCalls) (names : Bytes → StartNames) (cpu_count : ℤ) (b : KvmBackend) (m : Machine)
    → is_lost b m ≡ true
    → let (b', m', r) = start_kvm os names cpu_count b m in
      (r ≡ ok tt)
      × (m' ≡ m)
      × (b'.runtime ≡ no_runtime)
      × ((name : Bytes) → stop_kvm name b' m' ≡ (b', m'))
lost_start_leaks os names cpu_count b m lost =
    let b' = with_cpus cpu_count b in
    rw (start_lost os names cpu_count b m (with_cpus_lost cpu_count b m lost))
      (refl, refl, refl, (λ name. stop_kvm_off name (taken b') m refl))
