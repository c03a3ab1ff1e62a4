-- ===== src/Rpc/Handlers/Vm.antt =====
-- The handlers of pipe/handlers.go for the VM, the sessions and their disks.
use claude_cowork_service.Base.{
  Bool, Bytes, Dict, List, Option, [], codes, false, if◌then◌else◌, is_empty, none, not, some, ℕ,
  ◌&&◌, ◌∷◌,
}
use claude_cowork_service.Json.{
  Fields, Items, Json, arr, bool, cons, end, field, int, nil, obj, str,
}
use claude_cowork_service.Json.Decode.{decode}
use claude_cowork_service.FilePath.{base}
use claude_cowork_service.Rpc.Backend.{
  DeleteSessionDirsResult, PruneSessionCachesResult, SessionsDiskInfo, VmBackend,
}
use claude_cowork_service.Rpc.Params.{
  configure_fields, create_vm_fields, delete_dirs_fields, disk_image_fields, disk_info_fields,
  no_configure, no_create_vm, no_delete_dirs, no_disk_image, no_disk_info, no_prune, no_start_vm,
  no_vm_name, prune_fields, start_vm_fields, vm_name_fields,
}
use claude_cowork_service.Rpc.Message.{
  Host, JsonText, Reply, Request, answer, with_opt_params, with_params, write_response,
}

abbrev pub nothing : Unit {0} → Option Json
nothing u = none

-- A map with one Boolean.
abbrev pub flag : Bytes → Bool → Option Json
flag k v = some (obj (field k (bool v) end))

abbrev pub nat_json : ℕ → Json
nat_json n = int false n

unfoldable pub strings_json : List Bytes → Items
strings_json [] = nil
strings_json (s ∷ ss) = cons (str s) (strings_json ss)

unfoldable pub dict_json : Dict Bytes → Fields
dict_json [] = end
dict_json ((k, v) ∷ m) = field k (str v) (dict_json m)

sessions_json : List (Bytes × ℕ) → Items
sessions_json [] = nil
sessions_json ((name, size) ∷ rest) =
    cons (obj (field (codes "name") (str name) (field (codes "sizeBytes") (nat_json size) end)))
      (sessions_json rest)

disk_info_json : SessionsDiskInfo → Option Json
unfolding sessions_json
disk_info_json i = some (
    obj (
      field (codes "totalBytes") (nat_json i.total_bytes) (
        field (codes "freeBytes") (nat_json i.free_bytes)
          (field (codes "sessions") (arr (sessions_json i.sessions)) end))))

deleted_json : DeleteSessionDirsResult → Option Json
unfolding strings_json dict_json
deleted_json r = some (
    obj (
      field (codes "deleted") (arr (strings_json r.deleted))
        (field (codes "errors") (obj (dict_json r.errors)) end)))

pruned_json : PruneSessionCachesResult → Option Json
unfolding strings_json dict_json
pruned_json r = some (
    obj (
      field (codes "prunedSessions") (arr (strings_json r.pruned_sessions)) (
        field (codes "skippedSessions") (arr (strings_json r.skipped_sessions)) (
          field (codes "freedBytes") (nat_json r.freed_bytes)
            (field (codes "errors") (obj (dict_json r.errors)) end)))))

-- `if name == "" && p.BundlePath != "" { name = filepath.Base(p.BundlePath) }`.
unfoldable pub vm_name : Bytes → Bytes → Bytes
unfolding is_empty base
vm_name name bundle_path =
    if is_empty name && not (is_empty bundle_path) then base bundle_path else name

-- What is decoded of the name, whatever error the rest of the params gives.
unfoldable pub name_of : Request → Bytes
unfolding decode
name_of req = let (p, e) = decode vm_name_fields no_vm_name req.params in p.name

module _ {b : VmBackend} (text : JsonText) where
  unfoldable pub handle_configure : Request → Host b → Reply b
  unfolding answer with_params
  handle_configure req h =
      with_params text configure_fields no_configure req h
        λ p. answer req h (b.configure p.memory_mb p.cpu_count h.backend) nothing

  unfoldable pub handle_create_vm : Request → Host b → Reply b
  unfolding vm_name answer with_params
  handle_create_vm req h =
      with_params text create_vm_fields no_create_vm req h
        λ p. answer req h (b.create_vm (vm_name p.name p.bundle_path) h.backend) nothing

  unfoldable pub handle_start_vm : Request → Host b → Reply b
  unfolding vm_name answer with_params
  handle_start_vm req h = with_params text start_vm_fields no_start_vm req h λ p.
      answer req h
        (b.start_vm (vm_name p.name p.bundle_path) p.bundle_path p.memory_gb p.cpu_count
          p.api_probe_url h.backend)
        nothing

  -- Desktop sends stopVM with no params at all.
  unfoldable pub handle_stop_vm : Request → Host b → Reply b
  unfolding answer with_opt_params
  handle_stop_vm req h =
      with_opt_params text vm_name_fields no_vm_name req h
        λ p. answer req h (b.stop_vm p.name h.backend) nothing

  unfoldable pub handle_is_running : Request → Host b → Reply b
  unfolding answer name_of
  handle_is_running req h =
      answer req h (b.is_running (name_of req) h.backend) (flag (codes "running"))

  unfoldable pub handle_is_guest_connected : Request → Host b → Reply b
  unfolding answer name_of
  handle_is_guest_connected req h =
      answer req h (b.is_guest_connected (name_of req) h.backend) (flag (codes "connected"))

  unfoldable pub handle_get_download_status : Request → Host b → Reply b
  unfolding write_response
  handle_get_download_status req h = (
    h,
    write_response req.id
          (some (obj (field (codes "status") (str (b.get_download_status h.backend)) end)))
        ∷ [],
  )

  unfoldable pub handle_get_sessions_disk_info : Request → Host b → Reply b
  unfolding disk_info_json answer with_params
  handle_get_sessions_disk_info req h =
      with_params text disk_info_fields no_disk_info req h
        λ p. answer req h (b.get_sessions_disk_info p.low_water_bytes h.backend) disk_info_json

  unfoldable pub handle_prune_session_caches : Request → Host b → Reply b
  unfolding answer with_opt_params pruned_json
  handle_prune_session_caches req h = with_opt_params text prune_fields no_prune req h λ p.
      answer req h
        (b.prune_session_caches p.only_if_free_bytes_below p.include_session_tmp
          p.session_tmp_older_than_seconds h.backend)
        pruned_json

  unfoldable pub handle_delete_session_dirs : Request → Host b → Reply b
  unfolding deleted_json answer with_params
  handle_delete_session_dirs req h =
      with_params text delete_dirs_fields no_delete_dirs req h
        λ p. answer req h (b.delete_session_dirs p.names h.backend) deleted_json

  unfoldable pub handle_create_disk_image : Request → Host b → Reply b
  unfolding answer with_params
  handle_create_disk_image req h =
      with_params text disk_image_fields no_disk_image req h
        λ p. answer req h (b.create_disk_image p.disk_name p.size_gib h.backend) nothing
