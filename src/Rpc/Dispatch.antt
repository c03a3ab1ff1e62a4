-- ===== src/Rpc/Dispatch.antt =====
-- Handle of pipe/handlers.go, its subscription handler, and handleConnection of pipe/server.go.
pub mod Answers
pub mod Guards
use claude_cowork_service.Base.{
  Bool, Bytes, Dict, [], codes, err, false, get, if◌then◌else◌, length, none, ok, some, suc, true,
  zero, ℕ, ◌∷◌,
}
use claude_cowork_service.Wire.{read_message}
use claude_cowork_service.Rpc.Backend.{VmBackend}
use claude_cowork_service.Rpc.Message.{
  Handler, Host, JsonText, Reply, parse_error_code, server_error, unmarshal_request, with_backend,
  write_error, write_response,
}
use claude_cowork_service.Rpc.Handlers.Vm.{
  flag, handle_configure, handle_create_disk_image, handle_create_vm, handle_delete_session_dirs,
  handle_get_download_status, handle_get_sessions_disk_info, handle_is_guest_connected,
  handle_is_running, handle_prune_session_caches, handle_start_vm, handle_stop_vm, name_of,
}
use claude_cowork_service.Rpc.Handlers.Calls.{
  handle_add_approved_oauth_token, handle_install_sdk, handle_is_debug_logging_enabled,
  handle_is_process_running, handle_kill, handle_mount_path, handle_read_file,
  handle_send_guest_response, handle_set_debug_logging, handle_spawn, handle_write_stdin,
}

-- The loop of handleSubscribeEvents: messages are read and dropped until a read fails. True when
-- the loop has ended; false means that the fuel ran out.
unfoldable pub read_until_error : ℕ → Bytes → Bool
read_until_error zero conn = false
read_until_error (suc fuel) conn =
    let (r, rest) = read_message conn in
    elim r [ ok payload ↦ read_until_error fuel rest | err e ↦ true ]

module _ {b : VmBackend} (text : JsonText) where
  -- handleSubscribeEvents, with what the client still sends on the connection. When that ends the
  -- subscription is cancelled.
  unfoldable pub handle_subscribe_events : Bytes → Handler b
  unfolding name_of write_error write_response
  handle_subscribe_events conn req h =
      let (s, r) = b.subscribe_events (name_of req) h.backend in
      elim r [
        | err e ↦ (with_backend h s, write_error req.id server_error e ∷ [])
        | ok n ↦ (
          with_backend h (if read_until_error (suc (length conn)) conn then b.cancel n s else s),
          write_response req.id (flag (codes "subscribed") true) ∷ [],
        )
      ]

  -- The switch of Handle, case by case.
  unfoldable pub methods : Bytes → Dict (Handler b)
  methods conn =
      (codes "configure", handle_configure text)
      ∷ (codes "createVM", handle_create_vm text)
      ∷ (codes "startVM", handle_start_vm text)
      ∷ (codes "stopVM", handle_stop_vm text)
      ∷ (codes "isRunning", handle_is_running text)
      ∷ (codes "isGuestConnected", handle_is_guest_connected text)
      ∷ (codes "spawn", handle_spawn text)
      ∷ (codes "kill", handle_kill text)
      ∷ (codes "writeStdin", handle_write_stdin text)
      ∷ (codes "isProcessRunning", handle_is_process_running text)
      ∷ (codes "mountPath", handle_mount_path text)
      ∷ (codes "readFile", handle_read_file text)
      ∷ (codes "installSdk", handle_install_sdk text)
      ∷ (codes "addApprovedOauthToken", handle_add_approved_oauth_token text)
      ∷ (codes "setDebugLogging", handle_set_debug_logging text)
      ∷ (codes "isDebugLoggingEnabled", handle_is_debug_logging_enabled text)
      ∷ (codes "subscribeEvents", handle_subscribe_events conn)
      ∷ (codes "getDownloadStatus", handle_get_download_status text)
      ∷ (codes "getSessionsDiskInfo", handle_get_sessions_disk_info text)
      ∷ (codes "pruneSessionCaches", handle_prune_session_caches text)
      ∷ (codes "deleteSessionDirs", handle_delete_session_dirs text)
      ∷ (codes "createDiskImage", handle_create_disk_image text)
      ∷ (codes "sendGuestResponse", handle_send_guest_response text)
      ∷ []

  -- A method that no case names is answered with success.
  unfoldable pub dispatch : Bytes → Handler b
  unfolding write_response methods
  dispatch conn req h = elim (get req.method (methods conn)) [
    | some handler ↦ handler req h
    | none ↦ (h, write_response req.id none ∷ [])
  ]

  -- Handle, at a payload and what the client still sends on the connection.
  unfoldable pub handle : Bytes → Bytes → Host b → Reply b
  unfolding write_error
  handle conn payload h = elim (unmarshal_request text payload) [
    | none ↦ (h, write_error none parse_error_code (codes "Parse error") ∷ [])
    | some req ↦ dispatch conn req (with_backend h (b.touch h.backend))
  ]
