-- ===== src/Vm/Backend/Prepare.antt =====
-- StartVM up to the start of the first process (vm/backend.go): the bundle, its boot strategy and
-- images, and the session's directory; and the parameters of QEMU that it works out.
use claude_cowork_service.Base.{
  Bool, Bytes, Result, [], arith, codes, eqb, err, if◌then◌else◌, is_empty, negsuc, not, ok, pos,
  suc, ℕ, ℤ, ◌*◌, ◌++◌, ◌+◌, ◌/◌, ◌<◌, ◌==◌, ◌∷◌, ◌≤◌,
}
use claude_cowork_service.FilePath.{join}
use claude_cowork_service.Transcript.{Lookup}
use claude_cowork_service.Vm.Bundles.{
  find_bundle, find_ovmf_code, find_ovmf_vars_template, rootfs_image_path,
}
use claude_cowork_service.Vm.Images.{
  Ensured, ImageCalls, Store, ensure_native_root_overlay, ensure_ovmf_vars,
  ensure_session_data_disk, ensure_vhdx_converted, find_smol_bin,
}

-- bootMode of vm/uefi.go.
pub data BootMode : Type 0 where
  boot_direct_kernel : BootMode
  boot_uefi_disk : BootMode

-- What the host gives: the directories as they are with these images in them, the variables of the
-- environment, and the architecture.
pub record BootHost : Type 0 where
  pub look : Store → Lookup
  pub is_file : Bytes → Bool
  pub images : ImageCalls
  pub go_arch : Bytes
  pub ovmf_code_env : Bytes
  pub ovmf_vars_env : Bytes
  pub bundles_dir : Bytes
  pub base_dir : Bytes

-- What the boot strategy comes to.
pub record BootPlan : Type 0 where
  pub bundle_dir : Bytes
  pub boot : BootMode
  pub root_disk : Bytes
  pub ovmf_code : Bytes
  pub ovmf_vars_template : Bytes

abbrev pub Planned : Type 0
Planned = Store × Result Bytes BootPlan

-- A native image, with the firmware that is found.
unfoldable pub plan_overlay : BootHost → Bytes → Bytes → Bytes → Bytes → Store → Planned
unfolding ensure_native_root_overlay
plan_overlay os bundle_dir img_path code template fs =
    let (fs', r) = ensure_native_root_overlay os.images bundle_dir img_path fs in
    elim r [
      | err e ↦ (fs', err (codes "preparing rootfs.img overlay: " ++ e))
      | ok overlay ↦ (
        fs',
        ok (record {
          bundle_dir = bundle_dir;
          boot = boot_uefi_disk;
          root_disk = overlay;
          ovmf_code = code;
          ovmf_vars_template = template;
        }),
      )
    ]

-- The errors that a user reads.
abbrev not_supported : Bytes → Bytes
not_supported go_arch =
    codes "KVM/VM mode is not supported on "
    ++ go_arch
    ++ codes " - the bundled VM image boots via x86_64 UEFI only. Use the native backend instead "
    ++ codes "(set COWORK_VM_BACKEND=native or start cowork-svc with --backend native), "
    ++ codes "which runs Claude Code directly on the host with no VM"

abbrev no_ovmf_code : Bytes
no_ovmf_code =
    codes "rootfs.img needs UEFI firmware but no OVMF_CODE found; "
    ++ codes "install edk2-ovmf (Arch) / ovmf (Debian/Ubuntu) / edk2-ovmf (Fedora), "
    ++ codes "or set COWORK_OVMF_CODE"

abbrev no_ovmf_vars : Bytes
no_ovmf_vars =
    codes "rootfs.img needs UEFI firmware but no OVMF_VARS template found; "
    ++ codes "install the OVMF package or set COWORK_OVMF_VARS"

abbrev no_bundle : Bytes → Bytes
no_bundle e =
    codes "no VM bundle available: "
    ++ e
    ++ codes ". If Claude Desktop was recently updated, your claude-cowork-service may be "
    ++ codes "outdated - update it and restart the service "
    ++ codes "(https://github.com/patrickjaja/claude-cowork-service)"

-- rootfs.img is there.
unfoldable pub plan_uefi : BootHost → Bytes → Bytes → Store → Planned
unfolding find_ovmf_code find_ovmf_vars_template plan_overlay eqb is_empty
plan_uefi os bundle_dir img_path fs =
    let code = find_ovmf_code (os.look fs) os.ovmf_code_env in
    let template = find_ovmf_vars_template (os.look fs) os.ovmf_vars_env in
    if not (eqb os.go_arch (codes "amd64"))
    then (fs, err (not_supported os.go_arch))
    else if is_empty code
    then (fs, err no_ovmf_code)
    else if is_empty template
    then (fs, err no_ovmf_vars)
    else plan_overlay os bundle_dir img_path code template fs

-- The legacy image, which boots an external kernel.
unfoldable pub plan_direct : BootHost → Bytes → Store → Planned
unfolding ensure_vhdx_converted
plan_direct os bundle_dir fs =
    let (fs', r) = ensure_vhdx_converted os.images bundle_dir (codes "rootfs") fs in
    elim r [
      | err e ↦ (fs', err (codes "preparing rootfs: " ++ e))
      | ok disk ↦ (
        fs',
        ok (record {
          bundle_dir = bundle_dir;
          boot = boot_direct_kernel;
          root_disk = disk;
          ovmf_code = [];
          ovmf_vars_template = [];
        }),
      )
    ]

-- The choice of the boot strategy: rootfs.img wins.
unfoldable pub plan_boot : BootHost → Bytes → Store → Planned
unfolding find_bundle rootfs_image_path is_empty plan_direct plan_uefi
plan_boot os bundle_path fs =
    elim (find_bundle (os.look fs) os.is_file os.bundles_dir os.base_dir bundle_path) [
      | err e ↦ (fs, err (no_bundle e))
      | ok bundle_dir ↦
          let img_path = rootfs_image_path (os.look fs) bundle_dir in
          if is_empty img_path
          then plan_direct os bundle_dir fs
          else plan_uefi os bundle_dir img_path fs
    ]

-- The NVRAM of a session that boots by UEFI; none is needed otherwise.
unfoldable pub prepare_vars : ImageCalls → Bytes → BootPlan → Store → Ensured
unfolding ensure_ovmf_vars
prepare_vars os session_dir plan fs = elim plan.boot [
  | boot_direct_kernel ↦ (fs, ok [])
  | boot_uefi_disk ↦
      let (fs', r) = ensure_ovmf_vars os session_dir plan.ovmf_vars_template fs in
      elim r [ err e ↦ (fs', err (codes "preparing OVMF NVRAM: " ++ e)) | ok vars ↦ (fs', ok vars) ]
]

abbrev pub session_disk_path : Bytes → Bytes
session_disk_path bundle_dir = join (bundle_dir ∷ codes "sessiondata.qcow2" ∷ [])

abbrev arch_tag : Bytes → Bytes
arch_tag go_arch = if eqb go_arch (codes "arm64") then codes "arm64" else codes "x64"

-- The session disk, whose failure is logged only, and the smol-bin disk, which may be missing.
unfoldable pub prepare_disks : BootHost → Bytes → Store → Store × Bytes
unfolding ensure_session_data_disk find_smol_bin eqb
prepare_disks os bundle_dir fs =
    let (fs', r) = ensure_session_data_disk os.images (session_disk_path bundle_dir) fs in
    find_smol_bin os.images (arch_tag os.go_arch) (bundle_dir ∷ os.base_dir ∷ []) fs'

-- The memory in GB: the given one, or else the configured MB rounded up, and 1 at least.
unfoldable pub memory_gb : ℤ → ℤ → ℕ
memory_gb (pos (suc n)) memory_mb = suc n
memory_gb given (pos mb) = let gb = (mb + 1023) / 1024 in if gb == 0 then 1 else gb
memory_gb given (negsuc mb) = 1

-- The largest MB count that fits is not cut off, and no GB is given away.
pub memory_gb_lem :
    (mb : ℕ)
    → 0 < mb
    → let gb = memory_gb (pos 0) (pos mb) in (1 ≤ gb) × (mb ≤ gb * 1024) × (gb * 1024 < mb + 1024)
unfolding memory_gb
memory_gb_lem mb h = ground arith
