-- ===== src/Rpc/Handlers/Calls.antt =====
-- The handlers of pipe/handlers.go for processes, files, the guest and the debug flag.
use claude_cowork_service.Base.{
  Bool, Bytes, List, Option, [], codes, false, negsuc, none, pos, some, suc, true, ℤ, ◌∷◌,
}
use claude_cowork_service.Json.{Json, arr, bool, end, field, int, obj, str}
use claude_cowork_service.Rpc.Backend.{SpawnArgs, VmBackend}
use claude_cowork_service.Rpc.Params.{
  DebugLoggingParams, SpawnParams, debug_logging_fields, guest_response_fields, install_sdk_fields,
  kill_fields, mount_path_fields, no_debug_logging, no_guest_response, no_install_sdk, no_kill,
  no_mount_path, no_oauth_token, no_process_id, no_read_file, no_spawn, no_write_stdin,
  oauth_token_fields, process_id_fields, read_file_fields, spawn_fields, write_stdin_fields,
}
use claude_cowork_service.Rpc.Message.{
  Host, JsonText, Reply, Request, answer, with_params, write_response,
}
use claude_cowork_service.Rpc.Handlers.Vm.{flag, nothing, strings_json}
use claude_cowork_service.Rpc.Base64

-- An exit code.
abbrev int_json : ℤ → Json
int_json (pos n) = int false n
int_json (negsuc n) = int true (suc n)

-- json.Marshal sorts the keys of a map.
spawned_json : Bytes × List Bytes → Option Json
unfolding strings_json
spawned_json (process_id, failed_mounts) = some (
    obj (
      field (codes "failedMounts") (arr (strings_json failed_mounts))
        (field (codes "id") (str process_id) end)))

running_json : Bool × ℤ → Option Json
running_json (running, exit_code) = some (
    obj
      (field (codes "exitCode") (int_json exit_code) (field (codes "running") (bool running) end)))

content_json : Bytes → Option Json
unfolding Base64.encode
content_json content = some (obj (field (codes "content") (str (Base64.encode content)) end))

spawn_args : SpawnParams → Option Json → SpawnArgs (Option Json)
spawn_args p raw = record {
  name = p.name;
  id = p.id;
  cmd = p.cmd;
  args = p.args;
  env = p.env;
  cwd = p.cwd;
  mounts = p.additional_mounts;
  raw_params = raw;
  oauth_token = p.oauth_token;
}

module _ {b : VmBackend} (text : JsonText) where
  unfoldable pub handle_spawn : Request → Host b → Reply b
  unfolding spawn_args spawned_json answer with_params
  handle_spawn req h =
      with_params text spawn_fields no_spawn req h
        λ p. answer req h (b.spawn (spawn_args p req.params) h.backend) spawned_json

  unfoldable pub handle_kill : Request → Host b → Reply b
  unfolding answer with_params
  handle_kill req h =
      with_params text kill_fields no_kill req h
        λ p. answer req h (b.kill p.process_id p.signal h.backend) nothing

  unfoldable pub handle_write_stdin : Request → Host b → Reply b
  unfolding answer with_params
  handle_write_stdin req h =
      with_params text write_stdin_fields no_write_stdin req h
        λ p. answer req h (b.write_stdin p.process_id p.content h.backend) nothing

  unfoldable pub handle_is_process_running : Request → Host b → Reply b
  unfolding running_json answer with_params
  handle_is_process_running req h =
      with_params text process_id_fields no_process_id req h
        λ p. answer req h (b.is_process_running p.process_id h.backend) running_json

  unfoldable pub handle_mount_path : Request → Host b → Reply b
  unfolding answer with_params
  handle_mount_path req h =
      with_params text mount_path_fields no_mount_path req h λ p.
        answer req h (b.mount_path p.process_id p.subpath p.mount_name p.mode h.backend) nothing

  unfoldable pub handle_read_file : Request → Host b → Reply b
  unfolding content_json answer with_params
  handle_read_file req h =
      with_params text read_file_fields no_read_file req h
        λ p. answer req h (b.read_file p.process_name p.file_path h.backend) content_json

  unfoldable pub handle_install_sdk : Request → Host b → Reply b
  unfolding answer with_params
  handle_install_sdk req h =
      with_params text install_sdk_fields no_install_sdk req h
        λ p. answer req h (b.install_sdk p.sdk_subpath p.version h.backend) nothing

  unfoldable pub handle_add_approved_oauth_token : Request → Host b → Reply b
  unfolding answer with_params
  handle_add_approved_oauth_token req h =
      with_params text oauth_token_fields no_oauth_token req h
        λ p. answer req h (b.add_approved_oauth_token p.token h.backend) nothing

  unfoldable pub apply_debug_logging : Request → Host b → DebugLoggingParams → Reply b
  unfolding write_response
  apply_debug_logging req h p = (
    record h {
      backend = b.set_debug_logging p.enabled h.backend;
      debug = p.enabled;
      logx_debug = p.enabled;
    },
    write_response req.id none ∷ [],
  )

  unfoldable pub handle_set_debug_logging : Request → Host b → Reply b
  unfolding with_params apply_debug_logging
  handle_set_debug_logging req h =
      with_params text debug_logging_fields no_debug_logging req h (apply_debug_logging req h)

  unfoldable pub handle_is_debug_logging_enabled : Request → Host b → Reply b
  unfolding write_response
  handle_is_debug_logging_enabled req h =
      (h, write_response req.id (flag (codes "enabled") h.debug) ∷ [])

  unfoldable pub handle_send_guest_response : Request → Host b → Reply b
  unfolding answer with_params
  handle_send_guest_response req h =
      with_params text guest_response_fields no_guest_response req h
        λ p. answer req h (b.send_guest_response p.id p.result_json p.error h.backend) nothing
