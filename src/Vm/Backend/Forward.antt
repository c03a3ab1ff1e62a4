-- ===== src/Vm/Backend/Forward.antt =====
-- The calls that the KVM backend forwards to the guest (vm/backend.go: Spawn, Kill, WriteStdin,
-- MountPath, AddApprovedOauthToken, the disk calls, SendGuestResponse, InstallSdk).
pub mod Spawn
pub mod Registered
pub mod Sdk
pub mod ReadFile
use claude_cowork_service.Base.{
  Bool, Bytes, List, Option, Result, [], codes, err, false, if◌then◌else◌, is_empty, map_err,
  negsuc, none, ok, pos, some, true, ℕ, ℤ, ◌&&◌, ◌++◌, ◌+◌, ◌∷◌,
}
use claude_cowork_service.Json.{
  Fields, Items, Json, arr, bool, cons, end, field, int, nil, null, obj, str,
}
use claude_cowork_service.Rpc.Backend.{
  DeleteSessionDirsResult, PruneSessionCachesResult, SessionsDiskInfo,
}
use claude_cowork_service.Vm.Backend.{KvmBackend}
use claude_cowork_service.Vm.Backend.Processes.{drop_process}

-- The guest as the backend sees it: the bridge, and the bind mounts of the helper. `G` is the state of
-- what is behind them.
pub record GuestCalls (G : Type 0) : Type 0 where
  pub is_connected : G → Bool
  -- bridge.Forward: the method, the params and the guest's reply.
  pub forward : Bytes → Json → G → G × Result Bytes Json
  pub notify : Bytes → Json → G → G × Result Bytes (Unit {0})
  -- helper.Bind: the path and the mode.
  pub bind : Bytes → Bytes → G → G × Result Bytes (Unit {0})

-- A map[string]interface{} as json.Marshal writes it, its keys in order.
abbrev pub object : List (Bytes × Json) → Json
object kvs = obj (fields_of kvs)
  where
    fields_of : List (Bytes × Json) → Fields
    fields_of [] = end
    fields_of ((k, v) ∷ rest) = field k v (fields_of rest)

unfoldable pub strings_json : List Bytes → Items
strings_json [] = nil
strings_json (s ∷ ss) = cons (str s) (strings_json ss)

unfoldable pub int_json : ℤ → Json
int_json (pos n) = int false n
int_json (negsuc n) = int true (n + 1)

abbrev pub is_some : Option ℕ → Bool
is_some none = false
is_some (some n) = true

-- bridge != nil && bridge.IsConnected().
abbrev pub has_guest : {G : Type 0} → GuestCalls G → KvmBackend → G → Bool
has_guest os b g = is_some b.runtime.bridge && os.is_connected g

abbrev pub Replied : Type 0 → Type 0 → Type 0
Replied G A = G × Result Bytes A

-- A reply that is ignored, and one whose error is logged only.
abbrev ignore_reply : {G : Type 0} → Replied G Json → Replied G (Unit {0})
ignore_reply (g, r) = (g, ok tt)

-- Kill: the process is forgotten whether or not the guest was reached.
unfoldable pub kill_process :
    {G : Type 0} → GuestCalls G → Bytes → Bytes → KvmBackend → G → KvmBackend × G
unfolding drop_process
kill_process os id signal b g =
    let params = object ((codes "id", str id) ∷ (codes "signal", str signal) ∷ []) in
    let (g', r) = os.forward (codes "kill") params g in
    if is_some b.runtime.bridge
    then (record b { processes = drop_process id b.processes }, g')
    else (b, g)

-- WriteStdin.
unfoldable pub write_stdin :
    {G : Type 0} → GuestCalls G → Bytes → Bytes → KvmBackend → G → Replied G (Unit {0})
write_stdin os id content b g =
    let params = object ((codes "data", str content) ∷ (codes "id", str id) ∷ []) in
    if has_guest os b g then os.notify (codes "stdin") params g else (g, ok tt)

-- MountPath.
unfoldable pub mount_path :
    {G : Type 0} → GuestCalls G → Bytes → Bytes → KvmBackend → G → Replied G (Unit {0})
unfolding is_empty
mount_path os subpath mode b g =
    if is_empty subpath
    then (g, ok tt)
    else if is_some b.runtime.helper
    then os.bind subpath mode g
    else (g, err (codes "vfs helper not started"))

-- AddApprovedOauthToken.
unfoldable pub add_approved_oauth_token :
    {G : Type 0} → GuestCalls G → Bytes → KvmBackend → G → Replied G (Unit {0})
add_approved_oauth_token os token b g =
    let params = object ((codes "token", str token) ∷ []) in
    if has_guest os b g
    then ignore_reply (os.forward (codes "addApprovedOauthToken") params g)
    else (g, ok tt)

-- What a reply decodes to; `decode` is json.Unmarshal into the result's struct.
unfoldable pub decoded :
    {G A : Type 0} → (Json → Result Bytes A) → Bytes → Replied G Json → Replied G A
decoded decode method (g, err e) = (g, err e)
decoded decode method (g, ok reply) =
    (g, map_err (λ e. codes "parsing " ++ method ++ codes " response: " ++ e) (decode reply))

-- The disk calls share their shape.
unfoldable pub forward_decoded :
    {G A : Type 0}
    → GuestCalls G
    → (Json → Result Bytes A)
    → Bytes
    → Json
    → KvmBackend
    → G
    → Replied G A
unfolding decoded
forward_decoded os decode method params b g =
    if has_guest os b g
    then decoded decode method (os.forward method params g)
    else (g, err (codes "guest not connected"))

-- GetSessionsDiskInfo.
unfoldable pub get_guest_disk_info :
    {G : Type 0}
    → GuestCalls G
    → (Json → Result Bytes SessionsDiskInfo)
    → ℤ
    → KvmBackend
    → G
    → Replied G SessionsDiskInfo
unfolding forward_decoded int_json
get_guest_disk_info os decode low_water b g =
    forward_decoded os decode (codes "getSessionsDiskInfo")
      (object ((codes "lowWaterBytes", int_json low_water) ∷ [])) b g

-- DeleteSessionDirs.
unfoldable pub delete_guest_dirs :
    {G : Type 0}
    → GuestCalls G
    → (Json → Result Bytes DeleteSessionDirsResult)
    → List Bytes
    → KvmBackend
    → G
    → Replied G DeleteSessionDirsResult
unfolding forward_decoded strings_json
delete_guest_dirs os decode names b g =
    forward_decoded os decode (codes "deleteSessionDirs")
      (object ((codes "names", arr (strings_json names)) ∷ [])) b g

-- PruneSessionCaches.
unfoldable pub prune_guest_caches :
    {G : Type 0}
    → GuestCalls G
    → (Json → Result Bytes PruneSessionCachesResult)
    → ℤ
    → Bool
    → ℤ
    → KvmBackend
    → G
    → Replied G PruneSessionCachesResult
unfolding forward_decoded int_json
prune_guest_caches os decode only_below include_tmp tmp_older_than b g =
    forward_decoded os decode (codes "pruneSessionCaches")
      (object (
        (codes "includeSessionTmp", bool include_tmp)
        ∷ (codes "onlyIfFreeBytesBelow", int_json only_below)
        ∷ (codes "sessionTmpOlderThanSeconds", int_json tmp_older_than)
        ∷ []))
      b g

-- The payload of SendGuestResponse. `parse` reads the result's JSON; an empty text is a null.
unfoldable pub guest_payload : (Bytes → Json) → Bytes → Bytes → Bytes → Json
unfolding is_empty
guest_payload parse id result_json err_msg =
    let result = if is_empty result_json then null else parse result_json in
    if is_empty err_msg
    then object (
        (codes "id", str id)
        ∷ (codes "result", result)
        ∷ (codes "type", str (codes "response"))
        ∷ [])
    else object (
        (codes "error", str err_msg)
        ∷ (codes "id", str id)
        ∷ (codes "type", str (codes "response"))
        ∷ [])

-- SendGuestResponse.
unfoldable pub send_guest_response :
    {G : Type 0}
    → GuestCalls G
    → (Bytes → Json)
    → Bytes
    → Bytes
    → Bytes
    → KvmBackend
    → G
    → Replied G (Unit {0})
unfolding guest_payload
send_guest_response os parse id result_json err_msg b g =
    if has_guest os b g
    then os.notify (codes "guestResponse") (guest_payload parse id result_json err_msg) g
    else (g, ok tt)
