-- ===== src/Vm/Backend/Leaks.antt =====
-- Which processes, connections and goroutines the KVM backend leaves open: StopVM and IsRunning.
pub mod Begin
pub mod Open
pub mod Steps
pub mod Kept
pub mod Run
use claude_cowork_service.Base.{
  Bool, Bool-cases, Bytes, List, Option, [], ap, arith, false, if◌then◌else◌, inl, inr, none, not,
  refl, some, subst, sym, true, ℕ, ◌&&◌, ◌==◌, ◌||◌, ◌∙◌, ◌∷◌, ◌≡◌,
}
use claude_cowork_service.Vm.Backend.{
  KvmBackend, Machine, Runtime, cleanup_vm_runtime, drop_handle, emit, has_handle, is_kvm_running,
  is_qemu_running, no_runtime, remove_session_dir, shut, shut_runtime, stop_kvm,
  take_exited_vm_state,
}

unfoldable pub is_handle : ℕ → Option ℕ → Bool
is_handle n none = false
is_handle n (some k) = k == n

-- The handle is one of the runtime's.
unfoldable pub has_part : ℕ → Runtime → Bool
unfolding is_handle
has_part n r =
    is_handle n r.watchdog_stop
    || (is_handle n r.bridge || (is_handle n r.qmp || (is_handle n r.qemu || is_handle n r.helper)))

-- What is open are the parts of the runtime, and a backend that is not started has none.
pub record IsAccounted (b : KvmBackend) (m : Machine) : Type 0 where
  pub accounted : (n : ℕ) → has_handle n m.live ≡ has_part n b.runtime
  pub stopped : b.started ≡ false → b.runtime ≡ no_runtime

-- Nothing is open.
pub IsIdle : Machine → Type 0
IsIdle m = (n : ℕ) → has_handle n m.live ≡ false

drop_handle-has_handle :
    (k n : ℕ) (ms : List ℕ)
    → has_handle n (drop_handle k ms) ≡ (if k == n then false else has_handle n ms)
unfolding drop_handle has_handle
drop_handle-has_handle k n [] = ground arith
drop_handle-has_handle k n (m ∷ ms) = ground (arith, drop_handle-has_handle k n ms)

shut-has_handle :
    (o : Option ℕ) (n : ℕ) (m : Machine)
    → has_handle n (shut o m).live ≡ (if is_handle n o then false else has_handle n m.live)
unfolding shut is_handle
shut-has_handle none n m = refl
shut-has_handle (some k) n m = drop_handle-has_handle k n m.live

remove_session_dir-live : (d : Bytes) (m : Machine) → (remove_session_dir d m).live ≡ m.live
unfolding remove_session_dir
remove_session_dir-live d m = ground arith

shut_runtime-has_handle :
    (r : Runtime) (name : Bytes) (n : ℕ) (m : Machine)
    → has_handle n (shut_runtime r name m).live
      ≡ (if has_part n r then false else has_handle n m.live)
unfolding shut_runtime emit has_part
shut_runtime-has_handle r name n m =
    let m1 = shut r.watchdog_stop m in
    let m2 = shut r.bridge m1 in
    let m3 = shut r.qemu m2 in
    let m4 = shut r.qmp m3 in
    let m5 = shut r.helper m4 in
    rw
      (
        remove_session_dir-live r.session_dir m5,
        shut-has_handle r.helper n m4,
        shut-has_handle r.qmp n m3,
        shut-has_handle r.qemu n m2,
        shut-has_handle r.bridge n m1,
        shut-has_handle r.watchdog_stop n m,
      )
      (ground arith)

cleanup-IsIdle :
    (r : Runtime) (name : Bytes) (b : KvmBackend) (m : Machine)
    → ((n : ℕ) → has_handle n m.live ≡ has_part n r)
    → IsIdle (cleanup_vm_runtime r name b m).1
unfolding cleanup_vm_runtime IsIdle
cleanup-IsIdle r name b m a n = ground (arith, a n, shut_runtime-has_handle r name n m)

-- A backend without a VM, of which nothing is open.
pub record IsOff (b : KvmBackend) (m : Machine) : Type 0 where
  pub idle : IsIdle m
  pub off : b.started ≡ false
  pub empty : b.runtime ≡ no_runtime

IsOff-IsAccounted : (b : KvmBackend) (m : Machine) → IsOff b m → IsAccounted b m
unfolding IsIdle has_part
IsOff-IsAccounted b m o = record { accounted = λ n. rw o.empty (o.idle n); stopped = λ e. o.empty }

not_started-IsOff : (b : KvmBackend) (m : Machine) → IsAccounted b m → b.started ≡ false → IsOff b m
unfolding IsIdle has_part
not_started-IsOff b m a e = record {
  idle = λ n. a.accounted n ∙ ap (has_part n) (a.stopped e);
  off = e;
  empty = a.stopped e;
}

abbrev pub Off : KvmBackend × Machine → Type 0
Off (b, m) = IsOff b m

abbrev pub Accounted : KvmBackend × Machine → Type 0
Accounted (b, m) = IsAccounted b m

Off-Accounted : (r : KvmBackend × Machine) → Off r → Accounted r
Off-Accounted (b, m) o = IsOff-IsAccounted b m o

-- The backend once its runtime is taken, and the state once that is cleaned up.
abbrev pub taken : KvmBackend → KvmBackend
taken b = record b { started = false; runtime = no_runtime }

abbrev cleaned : Bytes → KvmBackend → KvmBackend → Machine → KvmBackend × Machine
cleaned name b b' m = cleanup_vm_runtime b.runtime name b' m

cleaned-IsOff :
    (name : Bytes) (b b' : KvmBackend) (m : Machine)
    → IsAccounted b m
    → b'.started ≡ false
    → b'.runtime ≡ no_runtime
    → Off (cleaned name b b' m)
cleaned-IsOff name b b' m a off empty = record {
  idle = cleanup-IsIdle b.runtime name b' m a.accounted;
  off = unfold cleanup_vm_runtime in off;
  empty = unfold cleanup_vm_runtime in empty;
}

pub stop_kvm_off :
    (name : Bytes) (b : KvmBackend) (m : Machine) → b.started ≡ false → stop_kvm name b m ≡ (b, m)
unfolding stop_kvm
stop_kvm_off name b m e = ground (arith, e)

stop_kvm_on :
    (name : Bytes) (b : KvmBackend) (m : Machine)
    → b.started ≡ true
    → stop_kvm name b m ≡ cleaned name b (taken b) m
unfolding stop_kvm
stop_kvm_on name b m e = ground (arith, e)

-- After StopVM nothing is open and the backend has no VM.
pub stop_kvm-IsOff :
    (name : Bytes) (b : KvmBackend) (m : Machine) → IsAccounted b m → Off (stop_kvm name b m)
stop_kvm-IsOff name b m a = elim (Bool-cases b.started) [
  | inl e ↦ subst Off (sym (stop_kvm_on name b m e)) (cleaned-IsOff name b (taken b) m a refl refl)
  | inr e ↦ subst Off (sym (stop_kvm_off name b m e)) (not_started-IsOff b m a e)
]

-- The VM's QEMU has ended by itself.
abbrev pub is_stale : KvmBackend → Machine → Bool
is_stale b m = b.started && not (is_qemu_running b.runtime.qemu m)

-- The state after IsRunning.
abbrev pub after_is_running : KvmBackend → Machine → KvmBackend × Machine
after_is_running b m = let (b', m', r) = is_kvm_running b m in (b', m')

is_kvm_running_stale :
    (b : KvmBackend) (m : Machine)
    → is_stale b m ≡ true
    → after_is_running b m ≡ cleaned b.runtime.session_name b (taken b) m
unfolding is_kvm_running take_exited_vm_state
is_kvm_running_stale b m e = ground (arith, e)

is_kvm_running_fresh :
    (b : KvmBackend) (m : Machine) → is_stale b m ≡ false → after_is_running b m ≡ (b, m)
unfolding is_kvm_running take_exited_vm_state
is_kvm_running_fresh b m e = ground (arith, e)

pub is_kvm_running-IsAccounted :
    (b : KvmBackend) (m : Machine) → IsAccounted b m → Accounted (after_is_running b m)
is_kvm_running-IsAccounted b m a = elim (Bool-cases (is_stale b m)) [
  | inl e ↦
      let name = b.runtime.session_name in
      let off = cleaned-IsOff name b (taken b) m a refl refl in
      let (b', m') = cleaned name b (taken b) m in
      subst Accounted (sym (is_kvm_running_stale b m e)) (IsOff-IsAccounted b' m' off)
  | inr e ↦ subst Accounted (sym (is_kvm_running_fresh b m e)) a
]

pub is_running_off :
    (b : KvmBackend) (m : Machine) → b.started ≡ false → after_is_running b m ≡ (b, m)
is_running_off b m e = is_kvm_running_fresh b m (ground (arith, e))
