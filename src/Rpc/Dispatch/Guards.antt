-- ===== src/Rpc/Dispatch/Guards.antt =====
-- Requests whose params are missing, and what readFile sends back.
use claude_cowork_service.Rpc.Base64
use claude_cowork_service.Base.{
  All, Bytes, List, Option, [], arith, codes, elem, elem-All, eqb, get, none, ok, refl, some, true,
  ◌++◌, ◌<◌, ◌∷◌, ◌≡◌,
}
use claude_cowork_service.Json.{Json, end, field, obj, str}
use claude_cowork_service.Json.Decode.{decode, end_of_input}
use claude_cowork_service.Rpc.Backend.{VmBackend}
use claude_cowork_service.Rpc.Params.{ReadFileParams, no_read_file, read_file_fields}
use claude_cowork_service.Rpc.Message.{
  Host, JsonText, Request, invalid_params_code, with_backend, write_error, write_response,
}
use claude_cowork_service.Rpc.Handlers.Vm.{
  handle_configure, handle_create_disk_image, handle_create_vm, handle_delete_session_dirs,
  handle_get_sessions_disk_info, handle_start_vm,
}
use claude_cowork_service.Rpc.Handlers.Calls.{
  handle_add_approved_oauth_token, handle_install_sdk, handle_is_process_running, handle_kill,
  handle_mount_path, handle_read_file, handle_send_guest_response, handle_set_debug_logging,
  handle_spawn, handle_write_stdin,
}
use claude_cowork_service.Rpc.Dispatch.{dispatch}

-- The methods that insist on their params.
abbrev pub strict_methods : List Bytes
strict_methods =
    codes "configure"
    ∷ (codes "createVM"
        ∷ (codes "startVM"
            ∷ (codes "spawn"
                ∷ (codes "kill"
                    ∷ (codes "writeStdin"
                        ∷ (codes "isProcessRunning"
                            ∷ (codes "mountPath"
                                ∷ (codes "readFile"
                                    ∷ (codes "installSdk"
                                        ∷ (codes "addApprovedOauthToken"
                                            ∷ (codes "setDebugLogging"
                                                ∷ (codes "getSessionsDiskInfo"
                                                    ∷ (codes "deleteSessionDirs"
                                                        ∷ (codes "createDiskImage"
                                                            ∷ (codes "sendGuestResponse"
                                                            ∷ [])))))))))))))))

module _ {b : VmBackend} (text : JsonText) (conn : Bytes) (h : Host b) where
  abbrev Refuses : Option Json → Bytes → Type 0
  Refuses id method = dispatch text conn (record { method = method; params = none; id = id }) h ≡ (
    h,
    write_error id invalid_params_code (codes "Invalid params: " ++ text.error_text end_of_input)
        ∷ [],
  )

  strict_methods-Refuses : (id : Option Json) → All (Refuses id) strict_methods
  unfolding dispatch get eqb handle_configure handle_create_vm handle_start_vm handle_spawn
      handle_kill handle_write_stdin handle_is_process_running handle_mount_path handle_read_file
      handle_install_sdk handle_add_approved_oauth_token handle_set_debug_logging
      handle_get_sessions_disk_info handle_delete_session_dirs handle_create_disk_image
      handle_send_guest_response
  strict_methods-Refuses id = (
    refl,
    (
      refl,
      (
        refl,
        (
          refl,
          (
            refl,
            (
              refl,
              (refl, (refl, (refl, (refl, (refl, (refl, (refl, (refl, (refl, (refl, tt)))))))))),
            ),
          ),
        ),
      ),
    ),
  )

  -- Without params a strict method is refused with "Invalid params", and its backend call is not
  -- made: the host stays as it is.
  pub dispatch_without_params :
      (method : Bytes) (id : Option Json)
      → elem method strict_methods ≡ true
      → dispatch text conn (record { method = method; params = none; id = id }) h ≡ (
        h,
        write_error id invalid_params_code
              (codes "Invalid params: " ++ text.error_text end_of_input)
            ∷ [],
      )
  dispatch_without_params method id e =
      elem-All (Refuses id) method strict_methods (strict_methods-Refuses id) e

module _ {b : VmBackend} (text : JsonText) where
  -- When the backend reads a file, the response's content is a base64 text from which Desktop
  -- decodes the file's bytes, whatever they are.
  pub read_file_content :
      (req : Request) (h : Host b) (p : ReadFileParams) (s : b.State) (content : Bytes)
      → decode read_file_fields no_read_file req.params ≡ (p, none)
      → b.read_file p.process_name p.file_path h.backend ≡ (s, ok content)
      → All (λ c. c < 256) content
      → (txt : Bytes) × (handle_read_file text req h ≡ (
        with_backend h s,
        write_response req.id (some (obj (field (codes "content") (str txt) end))) ∷ [],
      ))
        × (Base64.decode txt ≡ content)
  unfolding handle_read_file
  read_file_content req h p s content d r c =
      (Base64.encode content, ground arith, Base64.decode-encode content c)
