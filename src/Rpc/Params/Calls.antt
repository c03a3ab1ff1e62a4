-- ===== src/Rpc/Params/Calls.antt =====
-- Parameters of the methods that act on a process, a file or the guest: the structs of
-- pipe/handlers.go, their zero values and their JSON fields.
use mathlib.Core.Option
use claude_cowork_service.Json.{Fields, Json, end, field, null, obj}
use claude_cowork_service.Rpc.Backend.{MountSpec}
use claude_cowork_service.Base.{
  Bool, Bytes, Dict, List, Option, [], codes, false, none, put, some, ◌∷◌,
}
use claude_cowork_service.Json.Decode.{
  Field, decode, store_bool, store_dict, store_str, store_strings,
}

-- A map[string]MountSpec.
abbrev no_mount : MountSpec
no_mount = record { path = []; mode = [] }

abbrev mount_fields : List (Field MountSpec)
mount_fields =
    record { name = codes "path"; store = store_str (λ x p. record p { path = x }) }
    ∷ (record { name = codes "mode"; store = store_str (λ x p. record p { mode = x }) } ∷ [])

unfoldable pub mounts_of : Fields → Dict MountSpec → Option (Dict MountSpec)
unfolding decode put
mounts_of end m = some m
mounts_of (field k v rest) m =
    let (spec, e) = decode mount_fields no_mount (some v) in
    let more = mounts_of rest (put k spec m) in elim e [ none ↦ more | some x ↦ none ]

module _ {P : Type 0} where
  abbrev pub store_mounts : (Dict MountSpec → P → P) → Json → P → Option P
  store_mounts set null p = some (set [] p)
  store_mounts set (obj kvs) p = Option.map (λ m. set m p) (mounts_of kvs [])
  store_mounts set other p = none

pub record KillParams : Type 0 where
  pub process_id : Bytes
  pub signal : Bytes

abbrev pub no_kill : KillParams
no_kill = record { process_id = []; signal = [] }

abbrev pub kill_fields : List (Field KillParams)
kill_fields =
    record { name = codes "id"; store = store_str (λ x p. record p { process_id = x }) }
    ∷ (record { name = codes "signal"; store = store_str (λ x p. record p { signal = x }) } ∷ [])

pub record SpawnParams : Type 0 where
  pub name : Bytes
  pub id : Bytes
  pub cmd : Bytes
  pub args : List Bytes
  pub env : Dict Bytes
  pub cwd : Bytes
  pub additional_mounts : Dict MountSpec
  pub is_resume : Bool
  pub allowed_domains : List Bytes
  pub one_shot : Bool
  pub mount_skeleton_home : Bool
  pub oauth_token : Bytes

abbrev pub no_spawn : SpawnParams
no_spawn = record {
  name = [];
  id = [];
  cmd = [];
  args = [];
  env = [];
  cwd = [];
  additional_mounts = [];
  is_resume = false;
  allowed_domains = [];
  one_shot = false;
  mount_skeleton_home = false;
  oauth_token = [];
}

abbrev pub spawn_fields : List (Field SpawnParams)
spawn_fields =
    record { name = codes "name"; store = store_str (λ x p. record p { name = x }) }
    ∷ (record { name = codes "id"; store = store_str (λ x p. record p { id = x }) }
        ∷ (record { name = codes "command"; store = store_str (λ x p. record p { cmd = x }) }
            ∷ (record { name = codes "args"; store = store_strings (λ x p. record p { args = x }) }
                ∷ (record { name = codes "env"; store = store_dict (λ x p. record p { env = x }) }
                    ∷ (record {
                      name = codes "cwd";
                      store = store_str (λ x p. record p { cwd = x });
                    }
                        ∷ (record {
                          name = codes "additionalMounts";
                          store = store_mounts (λ x p. record p { additional_mounts = x });
                        }
                            ∷ (record {
                              name = codes "isResume";
                              store = store_bool (λ x p. record p { is_resume = x });
                            }
                                ∷ (record {
                                  name = codes "allowedDomains";
                                  store = store_strings (λ x p. record p { allowed_domains = x });
                                }
                                    ∷ (record {
                                      name = codes "oneShot";
                                      store = store_bool (λ x p. record p { one_shot = x });
                                    }
                                        ∷ (record {
                                          name = codes "mountSkeletonHome";
                                          store =
                                              store_bool
                                                (λ x p. record p { mount_skeleton_home = x });
                                        }
                                            ∷ (record {
                                              name = codes "oauthToken";
                                              store =
                                                  store_str (λ x p. record p { oauth_token = x });
                                            }
                                                ∷ [])))))))))))

pub record ProcessIdParams : Type 0 where
  pub process_id : Bytes

abbrev pub no_process_id : ProcessIdParams
no_process_id = record { process_id = [] }

abbrev pub process_id_fields : List (Field ProcessIdParams)
process_id_fields =
    record { name = codes "id"; store = store_str (λ x p. record p { process_id = x }) } ∷ []

pub record WriteStdinParams : Type 0 where
  pub process_id : Bytes
  pub content : Bytes

abbrev pub no_write_stdin : WriteStdinParams
no_write_stdin = record { process_id = []; content = [] }

abbrev pub write_stdin_fields : List (Field WriteStdinParams)
write_stdin_fields =
    record { name = codes "id"; store = store_str (λ x p. record p { process_id = x }) }
    ∷ (record { name = codes "data"; store = store_str (λ x p. record p { content = x }) } ∷ [])

pub record MountPathParams : Type 0 where
  pub process_id : Bytes
  pub subpath : Bytes
  pub mount_name : Bytes
  pub mode : Bytes

abbrev pub no_mount_path : MountPathParams
no_mount_path = record { process_id = []; subpath = []; mount_name = []; mode = [] }

abbrev pub mount_path_fields : List (Field MountPathParams)
mount_path_fields =
    record { name = codes "processId"; store = store_str (λ x p. record p { process_id = x }) }
    ∷ (record { name = codes "subpath"; store = store_str (λ x p. record p { subpath = x }) }
        ∷ (record {
          name = codes "mountName";
          store = store_str (λ x p. record p { mount_name = x });
        }
            ∷ (record { name = codes "mode"; store = store_str (λ x p. record p { mode = x }) }
                ∷ [])))

pub record ReadFileParams : Type 0 where
  pub process_name : Bytes
  pub file_path : Bytes

abbrev pub no_read_file : ReadFileParams
no_read_file = record { process_name = []; file_path = [] }

abbrev pub read_file_fields : List (Field ReadFileParams)
read_file_fields =
    record { name = codes "processName"; store = store_str (λ x p. record p { process_name = x }) }
    ∷ (record { name = codes "filePath"; store = store_str (λ x p. record p { file_path = x }) }
        ∷ [])

pub record OauthTokenParams : Type 0 where
  pub token : Bytes

abbrev pub no_oauth_token : OauthTokenParams
no_oauth_token = record { token = [] }

abbrev pub oauth_token_fields : List (Field OauthTokenParams)
oauth_token_fields =
    record { name = codes "token"; store = store_str (λ x p. record p { token = x }) } ∷ []

pub record InstallSdkParams : Type 0 where
  pub sdk_subpath : Bytes
  pub version : Bytes

abbrev pub no_install_sdk : InstallSdkParams
no_install_sdk = record { sdk_subpath = []; version = [] }

abbrev pub install_sdk_fields : List (Field InstallSdkParams)
install_sdk_fields =
    record { name = codes "sdkSubpath"; store = store_str (λ x p. record p { sdk_subpath = x }) }
    ∷ (record { name = codes "version"; store = store_str (λ x p. record p { version = x }) } ∷ [])

pub record DebugLoggingParams : Type 0 where
  pub enabled : Bool

abbrev pub no_debug_logging : DebugLoggingParams
no_debug_logging = record { enabled = false }

abbrev pub debug_logging_fields : List (Field DebugLoggingParams)
debug_logging_fields =
    record { name = codes "enabled"; store = store_bool (λ x p. record p { enabled = x }) } ∷ []

pub record GuestResponseParams : Type 0 where
  pub id : Bytes
  pub result_json : Bytes
  pub error : Bytes

abbrev pub no_guest_response : GuestResponseParams
no_guest_response = record { id = []; result_json = []; error = [] }

abbrev pub guest_response_fields : List (Field GuestResponseParams)
guest_response_fields =
    record { name = codes "id"; store = store_str (λ x p. record p { id = x }) }
    ∷ (record { name = codes "resultJson"; store = store_str (λ x p. record p { result_json = x }) }
        ∷ (record { name = codes "error"; store = store_str (λ x p. record p { error = x }) } ∷ []))
