-- ===== src/Rpc/Params/Vm.antt =====
-- Parameters of the methods that act on the VM and on the session disks: the structs of
-- pipe/handlers.go, their zero values and their JSON fields.
use claude_cowork_service.Base.{Bool, Bytes, List, [], codes, false, pos, ℤ, ◌∷◌}
use claude_cowork_service.Json.Decode.{Field, store_bool, store_int, store_str, store_strings}

pub record ConfigureParams : Type 0 where
  pub memory_mb : ℤ
  pub cpu_count : ℤ
  pub user_data_name : Bytes
  pub user_data_root : Bytes
  pub session_only : Bool

abbrev pub no_configure : ConfigureParams
no_configure = record {
  memory_mb = pos 0;
  cpu_count = pos 0;
  user_data_name = [];
  user_data_root = [];
  session_only = false;
}

abbrev pub configure_fields : List (Field ConfigureParams)
configure_fields =
    record { name = codes "memoryMB"; store = store_int (λ x p. record p { memory_mb = x }) }
    ∷ (record { name = codes "cpuCount"; store = store_int (λ x p. record p { cpu_count = x }) }
        ∷ (record {
          name = codes "userDataName";
          store = store_str (λ x p. record p { user_data_name = x });
        }
            ∷ (record {
              name = codes "userDataRoot";
              store = store_str (λ x p. record p { user_data_root = x });
            }
                ∷ (record {
                  name = codes "sessionOnly";
                  store = store_bool (λ x p. record p { session_only = x });
                }
                    ∷ []))))

pub record VmNameParams : Type 0 where
  pub name : Bytes
  pub user_data_name : Bytes
  pub user_data_root : Bytes

abbrev pub no_vm_name : VmNameParams
no_vm_name = record { name = []; user_data_name = []; user_data_root = [] }

abbrev pub vm_name_fields : List (Field VmNameParams)
vm_name_fields =
    record { name = codes "name"; store = store_str (λ x p. record p { name = x }) }
    ∷ (record {
      name = codes "userDataName";
      store = store_str (λ x p. record p { user_data_name = x });
    }
        ∷ (record {
          name = codes "userDataRoot";
          store = store_str (λ x p. record p { user_data_root = x });
        }
            ∷ []))

pub record CreateVmParams : Type 0 where
  pub name : Bytes
  pub bundle_path : Bytes
  pub disk_size_gb : ℤ

abbrev pub no_create_vm : CreateVmParams
no_create_vm = record { name = []; bundle_path = []; disk_size_gb = pos 0 }

abbrev pub create_vm_fields : List (Field CreateVmParams)
create_vm_fields =
    record { name = codes "name"; store = store_str (λ x p. record p { name = x }) }
    ∷ (record { name = codes "bundlePath"; store = store_str (λ x p. record p { bundle_path = x }) }
        ∷ (record {
          name = codes "diskSizeGB";
          store = store_int (λ x p. record p { disk_size_gb = x });
        }
            ∷ []))

pub record StartVmParams : Type 0 where
  pub name : Bytes
  pub bundle_path : Bytes
  pub memory_gb : ℤ
  pub cpu_count : ℤ
  pub api_probe_url : Bytes

abbrev pub no_start_vm : StartVmParams
no_start_vm = record {
  name = [];
  bundle_path = [];
  memory_gb = pos 0;
  cpu_count = pos 0;
  api_probe_url = [];
}

abbrev pub start_vm_fields : List (Field StartVmParams)
start_vm_fields =
    record { name = codes "name"; store = store_str (λ x p. record p { name = x }) }
    ∷ (record { name = codes "bundlePath"; store = store_str (λ x p. record p { bundle_path = x }) }
        ∷ (record { name = codes "memoryGB"; store = store_int (λ x p. record p { memory_gb = x }) }
            ∷ (record {
              name = codes "cpuCount";
              store = store_int (λ x p. record p { cpu_count = x });
            }
                ∷ (record {
                  name = codes "apiProbeURL";
                  store = store_str (λ x p. record p { api_probe_url = x });
                }
                    ∷ []))))

pub record DiskInfoParams : Type 0 where
  pub low_water_bytes : ℤ

abbrev pub no_disk_info : DiskInfoParams
no_disk_info = record { low_water_bytes = pos 0 }

abbrev pub disk_info_fields : List (Field DiskInfoParams)
disk_info_fields =
    record {
      name = codes "lowWaterBytes";
      store = store_int (λ x p. record p { low_water_bytes = x });
    }
    ∷ []

pub record PruneParams : Type 0 where
  pub only_if_free_bytes_below : ℤ
  pub include_session_tmp : Bool
  pub session_tmp_older_than_seconds : ℤ

abbrev pub no_prune : PruneParams
no_prune = record {
  only_if_free_bytes_below = pos 0;
  include_session_tmp = false;
  session_tmp_older_than_seconds = pos 0;
}

abbrev pub prune_fields : List (Field PruneParams)
prune_fields =
    record {
      name = codes "onlyIfFreeBytesBelow";
      store = store_int (λ x p. record p { only_if_free_bytes_below = x });
    }
    ∷ (record {
      name = codes "includeSessionTmp";
      store = store_bool (λ x p. record p { include_session_tmp = x });
    }
        ∷ (record {
          name = codes "sessionTmpOlderThanSeconds";
          store = store_int (λ x p. record p { session_tmp_older_than_seconds = x });
        }
            ∷ []))

pub record DeleteDirsParams : Type 0 where
  pub names : List Bytes

abbrev pub no_delete_dirs : DeleteDirsParams
no_delete_dirs = record { names = [] }

abbrev pub delete_dirs_fields : List (Field DeleteDirsParams)
delete_dirs_fields =
    record { name = codes "names"; store = store_strings (λ x p. record p { names = x }) } ∷ []

pub record DiskImageParams : Type 0 where
  pub disk_name : Bytes
  pub size_gib : ℤ

abbrev pub no_disk_image : DiskImageParams
no_disk_image = record { disk_name = []; size_gib = pos 0 }

abbrev pub disk_image_fields : List (Field DiskImageParams)
disk_image_fields =
    record { name = codes "diskName"; store = store_str (λ x p. record p { disk_name = x }) }
    ∷ (record { name = codes "sizeGiB"; store = store_int (λ x p. record p { size_gib = x }) } ∷ [])
