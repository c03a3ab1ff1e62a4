-- ===== src/Vm/Backend/Forward/ReadFile.antt =====
-- ReadFile of vm/backend.go: the guest is asked first, and else the file is read on the host.
use claude_cowork_service.Base.{
  Bytes, List, Option, Result, [], codes, drop, err, has_prefix, if◌then◌else◌, is_empty, length,
  map_err, none, ok, some, ◌++◌, ◌∷◌,
}
use claude_cowork_service.FilePath.{clean}
use claude_cowork_service.Json.{Json, str}
use claude_cowork_service.Native.Paths.{Host, is_under}
use claude_cowork_service.Vm.Backend.{KvmBackend}
use claude_cowork_service.Vm.Backend.Forward.{GuestCalls, Replied, has_guest, object}
use claude_cowork_service.Vm.Paths.{canonicalize_path_vm, host_abs_from_shared}
use claude_cowork_service.Json.Decode.{DecodeError, Field, decode, store_str}

abbrev pub vfs_guest_shared_prefix : Bytes
vfs_guest_shared_prefix = codes "/mnt/.virtiofs-root/shared"

-- Where a path of the request lies on the host.
unfoldable pub resolve_guest_path : Host → Result Bytes Bytes → Bytes → Result Bytes Bytes
unfolding has_prefix host_abs_from_shared clean
resolve_guest_path host user_home file_path =
    let prefix = vfs_guest_shared_prefix ++ b'/' ∷ [] in
    if has_prefix file_path prefix
    then map_err (λ e. codes "cannot translate " ++ file_path ++ codes ": " ++ e)
        (host_abs_from_shared host user_home (drop (length prefix) file_path))
    else ok (clean file_path)

-- The home directory, empty if os.UserHomeDir fails.
abbrev home_of : Result Bytes Bytes → Bytes
home_of (ok home) = home
home_of (err e) = []

-- The path that is read on the host, or the refusal.
unfoldable pub readable_path : Host → Result Bytes Bytes → Bytes → Result Bytes Bytes
unfolding resolve_guest_path is_under canonicalize_path_vm
readable_path host user_home file_path = elim (resolve_guest_path host user_home file_path) [
  | err e ↦ err e
  | ok resolved ↦
      if is_under (canonicalize_path_vm host resolved)
        (canonicalize_path_vm host (home_of user_home))
      then ok resolved
      else err (codes "access denied: path outside home directory")
]

-- os.ReadFile on the host.
unfoldable pub read_on_host :
    (Bytes → Result Bytes Bytes) → Host → Result Bytes Bytes → Bytes → Result Bytes Bytes
unfolding readable_path
read_on_host os_read_file host user_home file_path = elim (readable_path host user_home file_path) [
  | err e ↦ err e
  | ok path ↦ os_read_file path
]

-- The struct {content, error}, as a pair.
abbrev pub content_fields : List (Field (Bytes × Bytes))
content_fields =
    record { name = codes "content"; store = store_str (λ s (r : Bytes × Bytes). (s, r.1)) }
    ∷ record { name = codes "error"; store = store_str (λ s (r : Bytes × Bytes). (r.0, s)) }
    ∷ []

unfoldable pub content_or_error :
    (Bytes → Option Bytes) → (Bytes × Bytes) × Option DecodeError → Option (Result Bytes Bytes)
unfolding is_empty
content_or_error decode64 (r, some e) = none
content_or_error decode64 ((content, error), none) = some (
    if is_empty error
    then elim (decode64 content) [ some raw ↦ ok raw | none ↦ ok content ]
    else err error)

-- The reply of the guest: an error, or a content in base64, and else the content as it is. A reply
-- that does not decode sends the call to the host.
unfoldable pub guest_content : (Bytes → Option Bytes) → Json → Option (Result Bytes Bytes)
unfolding decode content_or_error
guest_content decode64 reply =
    content_or_error decode64 (decode content_fields ([], []) (some reply))

unfoldable pub choose_content :
    {G : Type 0} → (Bytes → Option Bytes) → Result Bytes Bytes → Replied G Json → Replied G Bytes
unfolding guest_content
choose_content decode64 from_host (g, err e) = (g, from_host)
choose_content decode64 from_host (g, ok reply) = elim (guest_content decode64 reply) [
  | some r ↦ (g, r)
  | none ↦ (g, from_host)
]

-- ReadFile.
unfoldable pub read_file_kvm :
    {G : Type 0}
    → GuestCalls G
    → (Bytes → Option Bytes)
    → (Bytes → Result Bytes Bytes)
    → Host
    → Result Bytes Bytes
    → Bytes
    → Bytes
    → KvmBackend
    → G
    → Replied G Bytes
unfolding choose_content read_on_host
read_file_kvm os decode64 os_read_file host user_home process_name file_path b g =
    let from_host = read_on_host os_read_file host user_home file_path in
    let params =
      object ((codes "filePath", str file_path) ∷ (codes "processName", str process_name) ∷ []) in
    if has_guest os b g
    then choose_content decode64 from_host (os.forward (codes "readFile") params g)
    else (g, from_host)
