-- ===== src/Vm/Backend/Forward/Registered.antt =====
-- The processes that a spawn in a VM registers.
use claude_cowork_service.Base.{
  Bool, Bool-cases, Bytes, Option, codes, elem, eqb_refl, err, false, if◌then◌else◌, inl, inr, none,
  ok, refl, some, true, ◌≡◌,
}
use claude_cowork_service.Json.{Json}
use claude_cowork_service.Guest.Message.{GuestText}
use claude_cowork_service.Rpc.Backend.{SpawnArgs}
use claude_cowork_service.Vm.Backend.{KvmBackend, PendingSdkInstall}
use claude_cowork_service.Vm.Backend.Forward.{GuestCalls, Replied, has_guest, is_some, object}
use claude_cowork_service.Vm.Backend.Forward.Sdk.{
  forward_params, note_installed, run_pending_sdk_install, run_sdk,
}
use claude_cowork_service.Vm.Backend.Forward.Spawn.{
  Spawned, bind_mounts, forward_spawn, note_spawn, spawn_bound, spawn_kvm, spawn_on, spawn_params,
}

run_sdk_processes :
    {G : Type 0} (os : GuestCalls G) (o : Option PendingSdkInstall) (b : KvmBackend) (g : G)
    → (run_sdk os (λ c. c) o b g).0.processes ≡ b.processes
unfolding run_sdk
run_sdk_processes os none b g = refl
run_sdk_processes os (some sent) b g = elim (Bool-cases (has_guest os b g)) [
  | inl e ↦
      rw e (installed_processes sent (os.forward (codes "installSdk") (forward_params sent) g) b)
  | inr e ↦ rw e
]
  where
    installed_processes :
        {G : Type 0} (sent : PendingSdkInstall) (r : Replied G Json) (b : KvmBackend)
        → (note_installed sent r b).0.processes ≡ b.processes
    installed_processes sent (g, err e) b = refl
    installed_processes sent (g, ok v) b = refl

-- A spawn that succeeds has registered the process; one that fails has registered nothing.
abbrev pub Registered : {G : Type 0} → Bytes → KvmBackend → Spawned G → Type 0
Registered id b (b', g, ok (i, failed)) = (i ≡ id) × (elem id b'.processes ≡ true)
Registered id b (b', g, err e) = b'.processes ≡ b.processes

note_spawn-Registered :
    {G : Type 0} (os : GuestCalls G) (id : Bytes) (b b' : KvmBackend) (r : Replied G Json)
    → b'.processes ≡ b.processes
    → Registered id b (note_spawn os id b' r)
unfolding note_spawn elem
note_spawn-Registered os id b b' (g, err e) h = h
note_spawn-Registered os id b b' (g, ok reply) h = (refl, rw (eqb_refl id))

spawn_bound-Registered :
    {G : Type 0} (os : GuestCalls G) (text : GuestText) (migrate : G → G)
    (a : SpawnArgs (Option Json)) (b : KvmBackend) (r : Replied G (Unit {0}))
    → Registered a.id b (spawn_bound os text migrate a b r)
unfolding spawn_bound forward_spawn run_pending_sdk_install
spawn_bound-Registered os text migrate a b (g, err e) = refl
spawn_bound-Registered os text migrate a b (g, ok u) =
    let (b', g') = run_sdk os (λ c. c) b.pending_sdk_install b g in
    note_spawn-Registered os a.id b b'
      (os.forward (codes "spawn") (object (spawn_params text a)) (migrate g'))
      (run_sdk_processes os b.pending_sdk_install b g)

spawn_on-Registered :
    {G : Type 0} (os : GuestCalls G) (text : GuestText) (sanitize migrate : G → G)
    (a : SpawnArgs (Option Json)) (has_bridge : Bool) (b : KvmBackend) (g : G)
    → Registered a.id b (spawn_on os text sanitize migrate a has_bridge b g)
unfolding spawn_on
spawn_on-Registered os text sanitize migrate a false b g = refl
spawn_on-Registered os text sanitize migrate a true b g =
    spawn_bound-Registered os text migrate a b (
      if is_some b.runtime.helper
      then bind_mounts os a.mounts (sanitize g)
      else (sanitize g, ok tt))

-- Spawn says that a process was spawned just when it knows the process from then on: on success the
-- id is the one that was asked for and IsProcessRunning finds it; on any error, be it of a bind or of
-- the guest, the known processes are as they were.
pub spawn_kvm-Registered :
    {G : Type 0} (os : GuestCalls G) (text : GuestText) (sanitize migrate : G → G)
    (a : SpawnArgs (Option Json)) (b : KvmBackend) (g : G)
    → Registered a.id b (spawn_kvm os text sanitize migrate a b g)
unfolding spawn_kvm
spawn_kvm-Registered os text sanitize migrate a b g =
    spawn_on-Registered os text sanitize migrate a (is_some b.runtime.bridge) b g
