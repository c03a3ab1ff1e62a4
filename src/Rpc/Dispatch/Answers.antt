-- ===== src/Rpc/Dispatch/Answers.antt =====
-- Every request is answered once, under its own id.
use claude_cowork_service.Base.{
  All, Bool-cases, Bytes, Dict, List, Option, Option-cases, Result, Result-cases, [], arith, codes,
  eqb, err, get, inl, inr, none, ok, refl, some, subst, true, ◌∷◌, ◌≡◌,
}
use claude_cowork_service.Json.{Json}
use claude_cowork_service.Json.Decode.{Field, decode}
use claude_cowork_service.Rpc.Backend.{VmBackend}
use claude_cowork_service.Rpc.Params.{debug_logging_fields, no_debug_logging}
use claude_cowork_service.Rpc.Message.{
  Handler, Host, JsonText, Reply, Request, Response, answer, invalid_params_code, parse_error_code,
  server_error, unmarshal_request, with_opt_params, with_params, write_error, write_response,
}
use claude_cowork_service.Rpc.Handlers.Vm.{
  flag, handle_configure, handle_create_disk_image, handle_create_vm, handle_delete_session_dirs,
  handle_get_download_status, handle_get_sessions_disk_info, handle_is_guest_connected,
  handle_is_running, handle_prune_session_caches, handle_start_vm, handle_stop_vm, name_of,
}
use claude_cowork_service.Rpc.Handlers.Calls.{
  apply_debug_logging, handle_add_approved_oauth_token, handle_install_sdk,
  handle_is_debug_logging_enabled, handle_is_process_running, handle_kill, handle_mount_path,
  handle_read_file, handle_send_guest_response, handle_set_debug_logging, handle_spawn,
  handle_write_stdin,
}
use claude_cowork_service.Rpc.Dispatch.{dispatch, handle, handle_subscribe_events, methods}

-- One response, which carries the id.
abbrev pub AnswersOnce : Option Json → List Response → Type 0
AnswersOnce id out = (resp : Response) × (out ≡ resp ∷ []) × (resp.id ≡ id)

-- The id of a payload that decodes to a request with one.
abbrev pub id_of : Option Request → Option Json
id_of none = none
id_of (some req) = req.id

module _ {b : VmBackend} where
  answer-AnswersOnce {ℓ} :
      {A : Type ℓ} (req : Request) (h : Host b) (r : b.State × Result Bytes A)
      (show : A → Option Json)
      → AnswersOnce req.id (answer req h r show).1
  unfolding answer
  answer-AnswersOnce req h (s, ok a) show = (write_response req.id (show a), refl, refl)
  answer-AnswersOnce req h (s, err e) show = (write_error req.id server_error e, refl, refl)

  with_params-AnswersOnce :
      {P : Type 0} (text : JsonText) (fields : List (Field P)) (zeros : P) (req : Request)
      (h : Host b) (run : P → Reply b)
      → ((p : P) → AnswersOnce req.id (run p).1)
      → AnswersOnce req.id (with_params text fields zeros req h run).1
  unfolding with_params
  with_params-AnswersOnce text fields zeros req h run each =
      elim (Option-cases (decode fields zeros req.params).1) [
        | inl e ↦ rw (e, with_params) (each _)
        | inr (x, e) ↦ rw (e, with_params) (write_error req.id invalid_params_code _, refl, refl)
      ]

  -- The handlers of the switch all answer once, each at its request.
  abbrev AnswersAll : Handler b → Type 0
  AnswersAll f = (req : Request) (h : Host b) → AnswersOnce req.id (f req h).1

  with_opt_params-AnswersOnce :
      {P : Type 0} (text : JsonText) (fields : List (Field P)) (zeros : P) (req : Request)
      (h : Host b) (run : P → Reply b)
      → ((p : P) → AnswersOnce req.id (run p).1)
      → AnswersOnce req.id (with_opt_params text fields zeros req h run).1
  unfolding with_opt_params
  with_opt_params-AnswersOnce text fields zeros req h run each =
      let decoded = with_params-AnswersOnce text fields zeros req h run each in
      elim req.params
        as (λ o.
          AnswersOnce req.id
            (elim o as (λ _. Reply b) [
              | none ↦ run zeros
              | some v ↦ with_params text fields zeros req h run
            ]).1) [ none ↦ each zeros | some v ↦ decoded ]

  subscribe_events-AnswersAll :
      (text : JsonText) (conn : Bytes) → AnswersAll (handle_subscribe_events text conn)
  unfolding handle_subscribe_events
  subscribe_events-AnswersAll text conn req h =
      elim (Result-cases (b.subscribe_events (name_of req) h.backend).1) [
        | inl (n, e) ↦
            rw (e, handle_subscribe_events)
              (write_response req.id (flag (codes "subscribed") true), refl, refl)
        | inr (x, e) ↦
            rw (e, handle_subscribe_events) (write_error req.id server_error x, refl, refl)
      ]

ruleset answers = (answer-AnswersOnce, with_params-AnswersOnce, with_opt_params-AnswersOnce)

module _ (b : VmBackend) (text : JsonText) where
  configure-AnswersAll : AnswersAll {b = b} (handle_configure text)
  unfolding handle_configure
  configure-AnswersAll req h = search answers

  create_vm-AnswersAll : AnswersAll {b = b} (handle_create_vm text)
  unfolding handle_create_vm
  create_vm-AnswersAll req h = search answers

  start_vm-AnswersAll : AnswersAll {b = b} (handle_start_vm text)
  unfolding handle_start_vm
  start_vm-AnswersAll req h = search answers

  stop_vm-AnswersAll : AnswersAll {b = b} (handle_stop_vm text)
  unfolding handle_stop_vm
  stop_vm-AnswersAll req h = search answers

  is_running-AnswersAll : AnswersAll {b = b} (handle_is_running text)
  unfolding handle_is_running
  is_running-AnswersAll req h = search answers

  is_guest_connected-AnswersAll : AnswersAll {b = b} (handle_is_guest_connected text)
  unfolding handle_is_guest_connected
  is_guest_connected-AnswersAll req h = search answers

  spawn-AnswersAll : AnswersAll {b = b} (handle_spawn text)
  unfolding handle_spawn
  spawn-AnswersAll req h = search answers

  kill-AnswersAll : AnswersAll {b = b} (handle_kill text)
  unfolding handle_kill
  kill-AnswersAll req h = search answers

  write_stdin-AnswersAll : AnswersAll {b = b} (handle_write_stdin text)
  unfolding handle_write_stdin
  write_stdin-AnswersAll req h = search answers

  is_process_running-AnswersAll : AnswersAll {b = b} (handle_is_process_running text)
  unfolding handle_is_process_running
  is_process_running-AnswersAll req h = search answers

  mount_path-AnswersAll : AnswersAll {b = b} (handle_mount_path text)
  unfolding handle_mount_path
  mount_path-AnswersAll req h = search answers

  read_file-AnswersAll : AnswersAll {b = b} (handle_read_file text)
  unfolding handle_read_file
  read_file-AnswersAll req h = search answers

  install_sdk-AnswersAll : AnswersAll {b = b} (handle_install_sdk text)
  unfolding handle_install_sdk
  install_sdk-AnswersAll req h = search answers

  add_approved_oauth_token-AnswersAll : AnswersAll {b = b} (handle_add_approved_oauth_token text)
  unfolding handle_add_approved_oauth_token
  add_approved_oauth_token-AnswersAll req h = search answers

  set_debug_logging-AnswersAll : AnswersAll {b = b} (handle_set_debug_logging text)
  unfolding handle_set_debug_logging
  set_debug_logging-AnswersAll req h =
      with_params-AnswersOnce text debug_logging_fields no_debug_logging req h
        (apply_debug_logging text req h) (λ p. (write_response req.id none, refl, refl))

  is_debug_logging_enabled-AnswersAll : AnswersAll {b = b} (handle_is_debug_logging_enabled text)
  unfolding handle_is_debug_logging_enabled
  is_debug_logging_enabled-AnswersAll req h = (write_response req.id _, refl, refl)

  get_download_status-AnswersAll : AnswersAll {b = b} (handle_get_download_status text)
  unfolding handle_get_download_status
  get_download_status-AnswersAll req h = (write_response req.id _, refl, refl)

  get_sessions_disk_info-AnswersAll : AnswersAll {b = b} (handle_get_sessions_disk_info text)
  unfolding handle_get_sessions_disk_info
  get_sessions_disk_info-AnswersAll req h = search answers

  prune_session_caches-AnswersAll : AnswersAll {b = b} (handle_prune_session_caches text)
  unfolding handle_prune_session_caches
  prune_session_caches-AnswersAll req h = search answers

  delete_session_dirs-AnswersAll : AnswersAll {b = b} (handle_delete_session_dirs text)
  unfolding handle_delete_session_dirs
  delete_session_dirs-AnswersAll req h = search answers

  create_disk_image-AnswersAll : AnswersAll {b = b} (handle_create_disk_image text)
  unfolding handle_create_disk_image
  create_disk_image-AnswersAll req h = search answers

  send_guest_response-AnswersAll : AnswersAll {b = b} (handle_send_guest_response text)
  unfolding handle_send_guest_response
  send_guest_response-AnswersAll req h = search answers

  methods-AnswersAll : (conn : Bytes) → All (λ e. AnswersAll {b = b} e.1) (methods text conn)
  unfolding methods
  methods-AnswersAll conn = (
    configure-AnswersAll,
    (
      create_vm-AnswersAll,
      (
        start_vm-AnswersAll,
        (
          stop_vm-AnswersAll,
          (
            is_running-AnswersAll,
            (
              is_guest_connected-AnswersAll,
              (
                spawn-AnswersAll,
                (
                  kill-AnswersAll,
                  (
                    write_stdin-AnswersAll,
                    (
                      is_process_running-AnswersAll,
                      (
                        mount_path-AnswersAll,
                        (
                          read_file-AnswersAll,
                          (
                            install_sdk-AnswersAll,
                            (
                              add_approved_oauth_token-AnswersAll,
                              (
                                set_debug_logging-AnswersAll,
                                (
                                  is_debug_logging_enabled-AnswersAll,
                                  (
                                    subscribe_events-AnswersAll text conn,
                                    (
                                      get_download_status-AnswersAll,
                                      (
                                        get_sessions_disk_info-AnswersAll,
                                        (
                                          prune_session_caches-AnswersAll,
                                          (
                                            delete_session_dirs-AnswersAll,
                                            (
                                              create_disk_image-AnswersAll,
                                              (send_guest_response-AnswersAll, tt),
                                            ),
                                          ),
                                        ),
                                      ),
                                    ),
                                  ),
                                ),
                              ),
                            ),
                          ),
                        ),
                      ),
                    ),
                  ),
                ),
              ),
            ),
          ),
        ),
      ),
    ),
  )

  get-AnswersAll :
      (k : Bytes) (m : Dict (Handler b)) {f : Handler b}
      → All (λ e. AnswersAll {b = b} e.1) m
      → get k m ≡ some f
      → AnswersAll f
  unfolding get
  get-AnswersAll k [] each e = cc
  get-AnswersAll k ((j, g) ∷ m) {f} each e = elim (Bool-cases (eqb j k)) [
    | inl hit ↦
        subst (λ (f' : Handler b). AnswersAll {b = b} f') {x = g} {y = f} (ground (arith, hit))
          each.0
    | inr miss ↦ get-AnswersAll k m {f = f} each.1 (ground (arith, miss))
  ]

  dispatch-AnswersOnce :
      (conn : Bytes) (req : Request) (h : Host b) → AnswersOnce req.id (dispatch text conn req h).1
  unfolding dispatch
  dispatch-AnswersOnce conn req h =
      elim (Option-cases (get req.method (methods {b = b} text conn))) [
        | inl e ↦ rw (e, dispatch) (write_response req.id none, refl, refl)
        | inr (f, e) ↦
            rw (e, dispatch) (get-AnswersAll req.method _ (methods-AnswersAll conn) e req h)
      ]

  -- Whatever the payload, the state and the backend, Handle writes exactly one response, and it
  -- carries the id of the request (none for a payload that does not decode, or with no id).
  pub handle-AnswersOnce :
      (conn payload : Bytes) (h : Host b)
      → AnswersOnce (id_of (unmarshal_request text payload)) (handle text conn payload h).1
  unfolding handle
  handle-AnswersOnce conn payload h = elim (Option-cases (unmarshal_request text payload)) [
    | inl e ↦ rw (e, handle) (write_error none parse_error_code _, refl, refl)
    | inr (req, e) ↦ rw (e, handle) (dispatch-AnswersOnce conn req _)
  ]
