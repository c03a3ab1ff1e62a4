-- ===== src/Vm/Backend/Forward/Spawn.antt =====
-- Spawn of vm/backend.go: the mounts are bound, the command is rewritten, and the request goes on to
-- the guest with all the fields that Desktop has sent.
use mathlib.Core.Option
use claude_cowork_service.Base.{
  Bool, Bytes, Dict, List, Option, Result, [], codes, eqb, err, false, if◌then◌else◌, is_empty,
  none, not, ok, put, some, true, ◌&&◌, ◌++◌, ◌∷◌,
}
use claude_cowork_service.Json.{Fields, Json, arr, end, field, obj, str}
use claude_cowork_service.Json.Decode.{decode, store_strings}
use claude_cowork_service.Guest.Message.{GuestText, to_map}
use claude_cowork_service.Rpc.Backend.{MountSpec, SpawnArgs}
use claude_cowork_service.Vm.Backend.{KvmBackend}
use claude_cowork_service.Vm.Backend.Processes.{drop_process}
use claude_cowork_service.Vm.Backend.Forward.{GuestCalls, Replied, is_some, object, strings_json}
use claude_cowork_service.Vm.Backend.Forward.Sdk.{run_pending_sdk_install}
use claude_cowork_service.Vm.Images.{has_suffix}

abbrev mode_or_rw : Bytes → Bytes
mode_or_rw mode = if is_empty mode then codes "rw" else mode

bind_failed : Bytes → Bytes → Bytes
bind_failed name e = codes "vfs bind for " ++ name ++ codes " failed: " ++ e

-- The binds of the additional mounts, in the order of the map, up to the first that fails.
unfoldable pub bind_mounts : {G : Type 0} → GuestCalls G → Dict MountSpec → G → Replied G (Unit {0})
unfolding is_empty bind_failed
bind_mounts os [] g = (g, ok tt)
bind_mounts os ((name, mount) ∷ mounts) g =
    let (g', r) = os.bind mount.path (mode_or_rw mount.mode) g in
    let skipped = bind_mounts os mounts g in
    let rest = bind_mounts os mounts g' in
    if is_empty mount.path
    then skipped
    else elim r [ err e ↦ (g', err (bind_failed name e)) | ok u ↦ rest ]

abbrev pub guest_claude : Bytes
guest_claude = codes "/usr/local/bin/claude"

-- A claude of the host is rewritten to the guest's.
unfoldable pub guest_command : Bytes → Bytes
unfolding has_suffix eqb
guest_command cmd =
    if has_suffix cmd (codes "/claude") && not (eqb cmd guest_claude) then guest_claude else cmd

-- toAdditionalMounts.
unfoldable pub to_additional_mounts : Dict MountSpec → Fields
unfolding is_empty
to_additional_mounts [] = end
to_additional_mounts ((name, mount) ∷ mounts) =
    let rest = to_additional_mounts mounts in
    let path = field (codes "path") (str mount.path) end in
    field name
      (obj (if is_empty mount.mode then path else field (codes "mode") (str mount.mode) path)) rest

env_fields : Dict Bytes → Fields
env_fields [] = end
env_fields ((k, v) ∷ env) = field k (str v) (env_fields env)

-- The params that are built when those of Desktop cannot be read.
built_params : SpawnArgs (Option Json) → Dict Json
unfolding to_additional_mounts env_fields strings_json
built_params a =
    (codes "id", str a.id)
    ∷ (codes "name", str a.name)
    ∷ (codes "args", arr (strings_json a.args))
    ∷ (codes "env", obj (env_fields a.env))
    ∷ (codes "cwd", str a.cwd)
    ∷ (codes "additionalMounts", obj (to_additional_mounts a.mounts))
    ∷ []

-- The params of Desktop as a map; null, what is no object, and an error of decoding leave none.
unfoldable pub raw_map : GuestText → SpawnArgs (Option Json) → Option (Dict Json)
unfolding to_map
raw_map text a = elim a.raw_params [
  | some (obj kvs) ↦ if text.in_range (obj kvs) then some (to_map text kvs []) else none
  | _ ↦ none
]

-- The params that go to the guest.
unfoldable pub spawn_params : GuestText → SpawnArgs (Option Json) → Dict Json
unfolding raw_map built_params put
spawn_params text a =
    let command = str (guest_command a.cmd) in
    elim (raw_map text a) [
      | some raw ↦ put (codes "command") command raw
      | none ↦ put (codes "command") command (built_params a)
    ]

-- The failedMounts of the guest's reply.
unfoldable pub failed_mounts : Json → List Bytes
unfolding decode
failed_mounts reply =
    (decode (record { name = codes "failedMounts"; store = store_strings (λ s x. s) } ∷ []) []
      (some reply)).0

abbrev pub Spawned : Type 0 → Type 0
Spawned G = KvmBackend × G × Result Bytes (Bytes × List Bytes)

-- The reply to the forwarded request. After a failure a kill is sent, whose outcome is ignored.
unfoldable pub note_spawn :
    {G : Type 0} → GuestCalls G → Bytes → KvmBackend → Replied G Json → Spawned G
unfolding drop_process failed_mounts
note_spawn os id b (g, err e) =
    let params = object ((codes "id", str id) ∷ (codes "signal", str (codes "SIGKILL")) ∷ []) in
    (b, (os.forward (codes "kill") params g).0, err (codes "guest spawn failed: " ++ e))
note_spawn os id b (g, ok reply) =
    (record b { processes = id ∷ drop_process id b.processes }, g, ok (id, failed_mounts reply))

-- From the pending installation of the SDK on. `migrate` is migrateTranscriptForResume.
unfoldable pub forward_spawn :
    {G : Type 0}
    → GuestCalls G
    → GuestText
    → (G → G)
    → SpawnArgs (Option Json)
    → KvmBackend
    → G
    → Spawned G
unfolding run_pending_sdk_install note_spawn spawn_params
forward_spawn os text migrate a b g =
    let (b', g') = run_pending_sdk_install os (λ c. c) b g in
    note_spawn os a.id b' (os.forward (codes "spawn") (object (spawn_params text a)) (migrate g'))

unfoldable pub spawn_bound :
    {G : Type 0}
    → GuestCalls G
    → GuestText
    → (G → G)
    → SpawnArgs (Option Json)
    → KvmBackend
    → Replied G (Unit {0})
    → Spawned G
spawn_bound os text migrate a b (g, err e) = (b, g, err e)
spawn_bound os text migrate a b (g, ok u) = forward_spawn os text migrate a b g

-- A spawn with a bridge, and one without.
unfoldable pub spawn_on :
    {G : Type 0}
    → GuestCalls G
    → GuestText
    → (G → G)
    → (G → G)
    → SpawnArgs (Option Json)
    → Bool
    → KvmBackend
    → G
    → Spawned G
unfolding bind_mounts spawn_bound
spawn_on os text sanitize migrate a false b g = (b, g, err (codes "VM not started"))
spawn_on os text sanitize migrate a true b g =
    spawn_bound os text migrate a b (
      if is_some b.runtime.helper
      then bind_mounts os a.mounts (sanitize g)
      else (sanitize g, ok tt))

-- Spawn. `sanitize` is sanitizeNativeArtifacts.
unfoldable pub spawn_kvm :
    {G : Type 0}
    → GuestCalls G
    → GuestText
    → (G → G)
    → (G → G)
    → SpawnArgs (Option Json)
    → KvmBackend
    → G
    → Spawned G
unfolding spawn_on
spawn_kvm os text sanitize migrate a b g =
    spawn_on os text sanitize migrate a (is_some b.runtime.bridge) b g

-- What a spawn has done before it forwards: the binds of the mounts, if there is a helper.
abbrev pub bound_mounts :
    {G : Type 0}
    → GuestCalls G
    → (G → G)
    → SpawnArgs (Option Json)
    → KvmBackend
    → G
    → Replied G (Unit {0})
bound_mounts os sanitize a b g =
    if is_some b.runtime.helper then bind_mounts os a.mounts (sanitize g) else (sanitize g, ok tt)
