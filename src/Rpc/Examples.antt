-- ===== src/Rpc/Examples.antt =====
-- The theorems of the RPC layer at concrete inputs: a codec that knows three payloads, and a
-- backend that logs the calls made to it.
use claude_cowork_service.Base.{
  Bytes, List, Option, Result, [], arith, codes, elem, eqb, false, get, has_prefix, if◌then◌else◌,
  none, ok, pos, refl, some, true, ◌++◌, ◌∷◌, ◌≡◌,
}
use claude_cowork_service.Json.{Json, bool, end, field, int, obj, str}
use claude_cowork_service.Json.Decode.{decode, find_field, fold_name, to_lower}
use claude_cowork_service.Wire.{eof, read_full, read_message, reading_length, write_message}
use claude_cowork_service.Rpc.Backend.{VmBackend}
use claude_cowork_service.Rpc.Message.{
  Host, JsonText, Request, invalid_params_code, unmarshal_request, write_error, write_response,
}
use claude_cowork_service.Rpc.Handlers.Calls.{handle_read_file}
use claude_cowork_service.Rpc.Dispatch.{dispatch, handle, handle_subscribe_events, read_until_error}
use claude_cowork_service.Rpc.Dispatch.Answers.{AnswersOnce, handle-AnswersOnce}
use claude_cowork_service.Rpc.Dispatch.Guards.{dispatch_without_params, read_file_content}
use claude_cowork_service.Rpc.Serve.{
  IsCall, Served, disconnected, is_subscribe, sent, serve, subscribed,
}
use claude_cowork_service.Rpc.Serve.Order.{serve_total, serve_until_close, serve_until_subscription}
use claude_cowork_service.Rpc.Base64

abbrev read_params : Json
read_params = obj (
    field (codes "processName") (str (codes "p1"))
      (field (codes "filePath") (str (codes "/a")) end))

abbrev read_request : Json
read_request = obj (
    field (codes "method") (str (codes "readFile"))
      (field (codes "id") (int false 7) (field (codes "params") read_params end)))

abbrev subscribe_request : Json
subscribe_request = obj (field (codes "method") (str (codes "subscribeEvents")) end)

abbrev tiny_parse : Bytes → Option Json
tiny_parse s =
    if eqb s (codes "R")
    then some read_request
    else if eqb s (codes "S")
    then some subscribe_request
    else none

abbrev tiny : JsonText
tiny = record {
  parse = tiny_parse;
  print = λ v. codes "{}";
  error_text = λ e. codes "bad";
  to_any = λ v. v;
}

abbrev logs : {A : Type 0} → Bytes → A → List Bytes → List Bytes × Result Bytes A
logs call a log = (call ∷ log, ok a)

abbrev logger : VmBackend
logger = record {
  State = List Bytes;
  configure = λ m c. logs (codes "configure") tt;
  create_vm = λ n. logs (codes "createVM") tt;
  start_vm = λ n p m c u. logs (codes "startVM") tt;
  stop_vm = λ n. logs (codes "stopVM") tt;
  is_running = λ n. logs (codes "isRunning") true;
  is_guest_connected = λ n. logs (codes "isGuestConnected") true;
  spawn = λ a. logs (codes "spawn") (codes "p1", []);
  kill = λ i s. logs (codes "kill") tt;
  write_stdin = λ i d. logs (codes "writeStdin") tt;
  is_process_running = λ i. logs (codes "isProcessRunning") (false, pos 0);
  mount_path = λ i s n m. logs (codes "mountPath") tt;
  read_file = λ n f. logs (codes "readFile") (codes "hi!");
  install_sdk = λ s v. logs (codes "installSdk") tt;
  add_approved_oauth_token = λ t. logs (codes "addApprovedOauthToken") tt;
  set_debug_logging = λ e s. s;
  subscribe_events = λ n. logs (codes "subscribeEvents") 1;
  cancel = λ n s. codes "cancel" ∷ s;
  get_download_status = λ s. codes "ready";
  get_sessions_disk_info = λ w.
      logs (codes "getSessionsDiskInfo")
        (record { total_bytes = 2; free_bytes = 1; sessions = [] });
  delete_session_dirs =
      λ ns. logs (codes "deleteSessionDirs") (record { deleted = ns; errors = [] });
  prune_session_caches = λ f t o.
      logs (codes "pruneSessionCaches")
        (record { pruned_sessions = []; skipped_sessions = []; freed_bytes = 0; errors = [] });
  create_disk_image = λ n s. logs (codes "createDiskImage") tt;
  send_guest_response = λ i r e. logs (codes "sendGuestResponse") tt;
  touch = λ s. codes "touch" ∷ s;
}

abbrev idle : Host logger
idle = record { backend = []; debug = false; logx_debug = false }

-- A subscription is answered, and cancelled when the client is gone.
subscribe_run : handle tiny [] (codes "S") idle ≡ (
  record idle { backend = codes "cancel" ∷ (codes "subscribeEvents" ∷ (codes "touch" ∷ [])) },
  write_response none (some (obj (field (codes "subscribed") (bool true) end))) ∷ [],
)
unfolding handle unmarshal_request dispatch handle_subscribe_events get eqb decode find_field
    fold_name has_prefix to_lower read_until_error read_message read_full
subscribe_run = refl

handle-AnswersOnce_example :
    AnswersOnce (some (int false 7)) (handle {b = logger} tiny [] (codes "R") idle).1
unfolding unmarshal_request decode eqb
handle-AnswersOnce_example = handle-AnswersOnce logger tiny [] (codes "R") idle

dispatch_without_params_example :
    dispatch {b = logger} tiny [] (record { method = codes "spawn"; params = none; id = none }) idle
    ≡ (idle, write_error none invalid_params_code (codes "Invalid params: bad") ∷ [])
unfolding elem eqb
dispatch_without_params_example =
    dispatch_without_params {b = logger} tiny [] idle (codes "spawn") none refl

abbrev read_call : Request
read_call = record { method = codes "readFile"; params = some read_params; id = none }

read_file_content_example :
    (txt : Bytes) × (handle_read_file {b = logger} tiny read_call idle ≡ (
      record idle { backend = codes "readFile" ∷ [] },
      write_response none (some (obj (field (codes "content") (str txt) end))) ∷ [],
    ))
    × (Base64.decode txt ≡ codes "hi!")
unfolding decode eqb
read_file_content_example =
    read_file_content {b = logger} tiny read_call idle
      (record { process_name = codes "p1"; file_path = codes "/a" }) (codes "readFile" ∷ [])
      (codes "hi!") refl refl (omega arith)

serve_total_example : (s : Served) × (serve tiny 4 (1 ∷ (2 ∷ (3 ∷ []))) ≡ some s)
serve_total_example = serve_total tiny (1 ∷ (2 ∷ (3 ∷ [])))

codes-IsCall : IsCall tiny (codes "R")
unfolding is_subscribe eqb decode
codes-IsCall = record { not_empty = omega arith; fits = omega arith; no_subscription = refl }

serve_until_subscription_example :
    serve tiny 2 (sent (codes "R" ∷ []) (write_message (codes "S") ++ codes "more"))
    ≡ some (record { started = codes "R" ∷ []; ending = subscribed (codes "S") (codes "more") })
unfolding is_subscribe eqb decode
serve_until_subscription_example =
    serve_until_subscription tiny (codes "R" ∷ []) (codes "S") (codes "more") (codes-IsCall, tt)
      (omega arith) (omega arith) refl 0

serve_until_close_example :
    serve tiny 2 (sent (codes "R" ∷ []) [])
    ≡ some (record { started = codes "R" ∷ []; ending = disconnected (reading_length eof) })
serve_until_close_example = serve_until_close tiny (codes "R" ∷ []) (codes-IsCall, tt) 0
