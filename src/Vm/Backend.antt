-- ===== src/Vm/Backend.antt =====
-- The state of the KVM backend and what its lifecycle calls do under the lock (vm/backend.go:
-- KvmBackend, Configure, StopVM, IsRunning, takeExitedVMStateLocked, takeVMRuntimeLocked,
-- cleanupVMRuntime and Shutdown).
pub mod Prepare
pub mod Start
pub mod Boot
pub mod Leaks
pub mod Watchdog
pub mod Cid
pub mod Processes
pub mod Forward
mod Examples
use claude_cowork_service.Base.{
  Bool, Bytes, Dict, List, Option, [], codes, eqb, false, if◌then◌else◌, is_empty, is_positive,
  none, not, pos, some, ℕ, ℤ, ◌++◌, ◌==◌, ◌||◌, ◌∷◌,
}
use claude_cowork_service.Json.{Json, str}

-- vmRuntimeState: the fields of the backend that belong to a running VM. Its parts are known by
-- handles; nil is none.
pub record Runtime : Type 0 where
  pub qemu : Option ℕ
  pub qmp : Option ℕ
  pub helper : Option ℕ
  pub bridge : Option ℕ
  pub session_dir : Bytes
  pub session_name : Bytes
  pub bundle_dir : Bytes
  pub watchdog_stop : Option ℕ

abbrev pub no_runtime : Runtime
no_runtime = record {
  qemu = none;
  qmp = none;
  helper = none;
  bridge = none;
  session_dir = [];
  session_name = [];
  bundle_dir = [];
  watchdog_stop = none;
}

-- pendingSdkInstall, with the number of the InstallSdk call that has set it, for its address.
pub record PendingSdkInstall : Type 0 where
  pub sdk_subpath : Bytes
  pub version : Bytes
  pub serial : ℕ

-- pendingBind.
pub record PendingBind : Type 0 where
  pub subpath : Bytes
  pub mode : Bytes

pub record KvmBackend : Type 0 where
  pub memory_mb : ℤ
  pub cpus : ℤ
  pub started : Bool
  pub starting : Bool
  pub runtime : Runtime
  pub has_prober : Bool
  pub pending_sdk_install : Option PendingSdkInstall
  pub pending_sdk_bind : Option PendingBind
  -- The keys of processes.
  pub processes : List Bytes
  pub next_serial : ℕ

-- What the backend's calls have made and not yet shut down, and what they have emitted.
pub record Machine : Type 0 where
  -- The processes, connections and goroutines that are open, by their handles.
  pub live : List ℕ
  pub next_handle : ℕ
  -- The QEMU processes that have ended by themselves.
  pub exited : List ℕ
  pub session_dirs : List Bytes
  pub events : List (Dict Json)

-- NewKvmBackend.
unfoldable pub new_kvm_backend : KvmBackend
new_kvm_backend = record {
  memory_mb = pos 4096;
  cpus = pos 4;
  started = false;
  starting = false;
  runtime = no_runtime;
  has_prober = false;
  pending_sdk_install = none;
  pending_sdk_bind = none;
  processes = [];
  next_serial = 0;
}

-- Configure. Only positive values are taken over.
unfoldable pub configure_kvm : ℤ → ℤ → KvmBackend → KvmBackend
unfolding is_positive
configure_kvm memory_mb cpu_count b =
    let b' : KvmBackend = if is_positive memory_mb then record b { memory_mb = memory_mb } else b in
    if is_positive cpu_count then record b' { cpus = cpu_count } else b'

unfoldable pub has_handle : ℕ → List ℕ → Bool
has_handle n [] = false
has_handle n (m ∷ ms) = m == n || has_handle n ms

-- A handle is shut down: it is open no more.
unfoldable pub drop_handle : ℕ → List ℕ → List ℕ
drop_handle n [] = []
drop_handle n (m ∷ ms) = let rest = drop_handle n ms in if m == n then rest else m ∷ rest

-- The shutdown of a part that may be nil.
unfoldable pub shut : Option ℕ → Machine → Machine
unfolding drop_handle
shut none m = m
shut (some n) m = record m { live = drop_handle n m.live }

-- emit: an event for the subscribers.
unfoldable pub emit : Dict Json → Machine → Machine
emit e m = record m { events = m.events ++ e ∷ [] }

-- takeVMRuntimeLocked.
unfoldable pub take_vm_runtime : KvmBackend → KvmBackend × Runtime
take_vm_runtime b = (record b { started = false; runtime = no_runtime }, b.runtime)

-- qemu.IsRunning() of an instance that may be nil.
unfoldable pub is_qemu_running : Option ℕ → Machine → Bool
unfolding has_handle
is_qemu_running none m = false
is_qemu_running (some q) m = not (has_handle q m.exited)

-- takeExitedVMStateLocked.
unfoldable pub take_exited_vm_state : Machine → KvmBackend → KvmBackend × Option Runtime
unfolding is_qemu_running take_vm_runtime
take_exited_vm_state m b =
    let (b', stale) = take_vm_runtime b in
    if not b.started
    then (b, none)
    else if is_qemu_running b.runtime.qemu m
    then (b, none)
    else (b', some stale)

unfoldable pub drop_dir : Bytes → List Bytes → List Bytes
unfolding eqb
drop_dir d [] = []
drop_dir d (e ∷ es) = let rest = drop_dir d es in if eqb e d then rest else e ∷ rest

-- os.RemoveAll(state.sessionDir).
unfoldable pub remove_session_dir : Bytes → Machine → Machine
unfolding is_empty drop_dir
remove_session_dir d m =
    if is_empty d then m else record m { session_dirs = drop_dir d m.session_dirs }

abbrev pub network_disconnected : Dict Json
network_disconnected =
    (codes "type", str (codes "networkStatus"))
    ∷ ((codes "status", str (codes "disconnected")) ∷ [])

abbrev pub vm_stopped : Bytes → Dict Json
vm_stopped name = (codes "type", str (codes "vmStopped")) ∷ ((codes "name", str name) ∷ [])

-- What cleanupVMRuntime does to the runtime: the watchdog, the bridge, QEMU, its QMP connection and
-- the helper are shut down in this order, the session's directory is removed, two events go out.
unfoldable pub shut_runtime : Runtime → Bytes → Machine → Machine
unfolding shut remove_session_dir emit is_empty
shut_runtime state name m =
    let stop_name = if is_empty name then state.session_name else name in
    let m' =
      shut state.helper
        (shut state.qmp (shut state.qemu (shut state.bridge (shut state.watchdog_stop m)))) in
    emit (vm_stopped stop_name)
      (emit network_disconnected (remove_session_dir state.session_dir m'))

-- cleanupVMRuntime.
unfoldable pub cleanup_vm_runtime : Runtime → Bytes → KvmBackend → Machine → KvmBackend × Machine
unfolding shut_runtime
cleanup_vm_runtime state name b m =
    (record b { has_prober = false; processes = [] }, shut_runtime state name m)

-- StopVM.
unfoldable pub stop_kvm : Bytes → KvmBackend → Machine → KvmBackend × Machine
unfolding take_vm_runtime cleanup_vm_runtime
stop_kvm name b m =
    let (b', state) = take_vm_runtime b in
    if not b.started then (b, m) else cleanup_vm_runtime state name b' m

-- Shutdown.
unfoldable pub shutdown : KvmBackend → Machine → KvmBackend × Machine
unfolding stop_kvm
shutdown b m = stop_kvm [] b m

-- IsRunning: a QEMU that has ended by itself is cleaned up.
unfoldable pub is_kvm_running : KvmBackend → Machine → KvmBackend × Machine × Bool
is_kvm_running b m =
    let (b', stale) = take_exited_vm_state m b in
    elim stale [
      | some state ↦
          let (b'', m') = cleanup_vm_runtime state state.session_name b' m in (b'', m', false)
      | none ↦ (b', m, is_qemu_running b'.runtime.qemu m)
    ]
