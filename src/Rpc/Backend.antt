-- ===== src/Rpc/Backend.antt =====
-- The interface VMBackend of pipe/server.go and the structs that it exchanges. A method takes the
-- state of the backend and returns the new one; an error is its text.
use claude_cowork_service.Base.{Bool, Bytes, Dict, List, Option, Result, ℕ, ℤ}
use claude_cowork_service.Json.{Json}

pub record MountSpec : Type 0 where
  pub path : Bytes
  pub mode : Bytes

pub record SessionsDiskInfo : Type 0 where
  pub total_bytes : ℕ
  pub free_bytes : ℕ
  -- The objects {name, sizeBytes}.
  pub sessions : List (Bytes × ℕ)

pub record DeleteSessionDirsResult : Type 0 where
  pub deleted : List Bytes
  pub errors : Dict Bytes

pub record PruneSessionCachesResult : Type 0 where
  pub pruned_sessions : List Bytes
  pub skipped_sessions : List Bytes
  pub freed_bytes : ℕ
  pub errors : Dict Bytes

-- The arguments of Spawn. `raw_params` is the request's params as they came.
pub record SpawnArgs (Raw : Type 0) : Type 0 where
  pub name : Bytes
  pub id : Bytes
  pub cmd : Bytes
  pub args : List Bytes
  pub env : Dict Bytes
  pub cwd : Bytes
  pub mounts : Dict MountSpec
  pub raw_params : Raw
  pub oauth_token : Bytes

pub record VmBackend : Type 1 where
  pub State : Type 0
  pub configure : ℤ → ℤ → State → State × Result Bytes (Unit {0})
  pub create_vm : Bytes → State → State × Result Bytes (Unit {0})
  pub start_vm : Bytes → Bytes → ℤ → ℤ → Bytes → State → State × Result Bytes (Unit {0})
  pub stop_vm : Bytes → State → State × Result Bytes (Unit {0})
  pub is_running : Bytes → State → State × Result Bytes Bool
  pub is_guest_connected : Bytes → State → State × Result Bytes Bool
  pub spawn : SpawnArgs (Option Json) → State → State × Result Bytes (Bytes × List Bytes)
  pub kill : Bytes → Bytes → State → State × Result Bytes (Unit {0})
  pub write_stdin : Bytes → Bytes → State → State × Result Bytes (Unit {0})
  pub is_process_running : Bytes → State → State × Result Bytes (Bool × ℤ)
  pub mount_path : Bytes → Bytes → Bytes → Bytes → State → State × Result Bytes (Unit {0})
  pub read_file : Bytes → Bytes → State → State × Result Bytes Bytes
  pub install_sdk : Bytes → Bytes → State → State × Result Bytes (Unit {0})
  pub add_approved_oauth_token : Bytes → State → State × Result Bytes (Unit {0})
  pub set_debug_logging : Bool → State → State
  -- The subscription's cancel function is `cancel` at the number returned.
  pub subscribe_events : Bytes → State → State × Result Bytes ℕ
  pub cancel : ℕ → State → State
  pub get_download_status : State → Bytes
  pub get_sessions_disk_info : ℤ → State → State × Result Bytes SessionsDiskInfo
  pub delete_session_dirs : List Bytes → State → State × Result Bytes DeleteSessionDirsResult
  pub prune_session_caches : ℤ → Bool → ℤ → State → State × Result Bytes PruneSessionCachesResult
  pub create_disk_image : Bytes → ℤ → State → State × Result Bytes (Unit {0})
  pub send_guest_response : Bytes → Bytes → Bytes → State → State × Result Bytes (Unit {0})
  pub touch : State → State
