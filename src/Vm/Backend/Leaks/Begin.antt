-- ===== src/Vm/Backend/Leaks/Begin.antt =====
-- Which processes, connections and goroutines are open when StartVM goes on after its tests.
use claude_cowork_service.Base.{
  Bool, Bool-cases, arith, false, if◌then◌else◌, inl, inr, is_positive, refl, subst, sym, true, ℤ,
  ◌&&◌, ◌≡◌,
}
use claude_cowork_service.Vm.Backend.{KvmBackend, Machine, cleanup_vm_runtime, take_exited_vm_state}
use claude_cowork_service.Vm.Backend.Start.{
  Begun, begin_start, proceeds, returns, test_started, test_starting,
}
use claude_cowork_service.Vm.Backend.Leaks.{
  IsAccounted, IsOff, cleaned, cleaned-IsOff, is_stale, not_started-IsOff, taken,
}

-- StartVM is called while another call waits for its guest, and QEMU has ended by itself meanwhile.
abbrev pub is_lost : KvmBackend → Machine → Bool
is_lost b m = b.starting && is_stale b m

-- After the first step: a call that goes on finds nothing open, and has taken the flag.
abbrev pub Ready : KvmBackend × Machine × Begun → Type 0
Ready (b, m, returns) = IsAccounted b m
Ready (b, m, proceeds) = IsOff b m × (b.starting ≡ true)

abbrev restarting : KvmBackend → KvmBackend
restarting b = record (taken b) { starting = true }

test_started_running :
    (b : KvmBackend) (m : Machine)
    → b.started ≡ true
    → is_stale b m ≡ false
    → test_started b m ≡ (b, m, returns)
unfolding test_started take_exited_vm_state
test_started_running b m s e = ground (arith, s, e)

test_started_waiting :
    (b : KvmBackend) (m : Machine)
    → b.started ≡ false
    → b.starting ≡ true
    → test_started b m ≡ (b, m, returns)
unfolding test_started test_starting
test_started_waiting b m s e = ground (arith, s, e)

test_started_new :
    (b : KvmBackend) (m : Machine)
    → b.started ≡ false
    → b.starting ≡ false
    → test_started b m ≡ (record b { starting = true }, m, proceeds)
unfolding test_started test_starting
test_started_new b m s e = ground (arith, s, e)

test_started_stale :
    (b : KvmBackend) (m : Machine)
    → is_stale b m ≡ true
    → b.starting ≡ false
    → test_started b m
      ≡ (let (b', m') = cleaned b.runtime.session_name b (restarting b) m in (b', m', proceeds))
unfolding test_started test_starting take_exited_vm_state
test_started_stale b m s e = ground (arith, s, e)

pub test_started_lost :
    (b : KvmBackend) (m : Machine) → is_lost b m ≡ true → test_started b m ≡ (taken b, m, returns)
unfolding test_started test_starting take_exited_vm_state
test_started_lost b m e = ground (arith, e)

test_started-Ready :
    (b : KvmBackend) (m : Machine)
    → IsAccounted b m
    → is_lost b m ≡ false
    → Ready (test_started b m)
test_started-Ready b m a safe = elim (Bool-cases b.started) [
  | inl s ↦ elim (Bool-cases (is_stale b m)) [
    | inl e ↦
        let name = b.runtime.session_name in
        subst Ready (sym (test_started_stale b m e (ground (arith, s, e, safe))))
          (cleaned-IsOff name b (restarting b) m a refl refl, unfold cleanup_vm_runtime in refl)
    | inr e ↦ subst Ready (sym (test_started_running b m s e)) a
  ]
  | inr s ↦ elim (Bool-cases b.starting) [
    | inl e ↦ subst Ready (sym (test_started_waiting b m s e)) a
    | inr e ↦
        let o = not_started-IsOff b m a s in
        subst Ready (sym (test_started_new b m s e))
          (record { idle = o.idle; off = o.off; empty = o.empty }, refl)
  ]
]

pub begin_start-Ready :
    (cpu_count : ℤ) (b : KvmBackend) (m : Machine)
    → IsAccounted b m
    → is_lost b m ≡ false
    → Ready (begin_start cpu_count b m)
unfolding begin_start
begin_start-Ready cpu_count b m a safe = elim (Bool-cases (is_positive cpu_count)) [
  | inl e ↦
      let b' : KvmBackend = record b { cpus = cpu_count } in
      rw e (test_started-Ready b' m (record { accounted = a.accounted; stopped = a.stopped }) safe)
  | inr e ↦ rw e (test_started-Ready b m a safe)
]

abbrev pub with_cpus : ℤ → KvmBackend → KvmBackend
with_cpus cpu_count b = if is_positive cpu_count then record b { cpus = cpu_count } else b

test_started_busy :
    (b : KvmBackend) (m : Machine)
    → b.starting ≡ true
    → is_lost b m ≡ false
    → test_started b m ≡ (b, m, returns)
test_started_busy b m busy safe = elim (Bool-cases b.started) [
  | inl s ↦ test_started_running b m s (ground (arith, busy, s, safe))
  | inr s ↦ test_started_waiting b m s busy
]

-- While another start is in flight, a start returns at once.
pub begin_start_busy :
    (cpu_count : ℤ) (b : KvmBackend) (m : Machine)
    → b.starting ≡ true
    → is_lost b m ≡ false
    → begin_start cpu_count b m ≡ (with_cpus cpu_count b, m, returns)
unfolding begin_start
begin_start_busy cpu_count b m busy safe = elim (Bool-cases (is_positive cpu_count)) [
  | inl e ↦ rw e (test_started_busy (record b { cpus = cpu_count }) m busy safe)
  | inr e ↦ rw e (test_started_busy b m busy safe)
]
