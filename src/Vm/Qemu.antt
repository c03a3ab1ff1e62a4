-- ===== src/Vm/Qemu.antt =====
-- The QEMU process of a VM (vm/qemu.go): its arguments, its start and shutdown, and the process that
-- a crashed daemon has left.
pub mod Stale
mod Examples
use claude_cowork_service.Base.{
  Bool, Bytes, List, Option, Result, [], codes, eqb, err, false, if◌then◌else◌, is_empty, none, not,
  ok, some, true, ℕ, ◌++◌, ◌∷◌,
}
use claude_cowork_service.Decimal.{format_uint}
use claude_cowork_service.Vm.Backend.Prepare.{BootMode, boot_direct_kernel, boot_uefi_disk}

-- qemuLaunchSpec.
pub record QemuLaunchSpec : Type 0 where
  pub session_dir : Bytes
  pub root_disk : Bytes
  pub root_disk_fmt : Bytes
  pub session_data : Bytes
  pub smol_bin_path : Bytes
  pub boot : BootMode
  pub kernel : Bytes
  pub initrd : Bytes
  pub ovmf_code : Bytes
  pub ovmf_vars : Bytes
  pub monitor_sock : Bytes
  pub virtiofs_sock : Bytes
  pub cid : ℕ
  pub memory_gb : ℕ
  pub cpus : ℕ

machine_args : QemuLaunchSpec → List Bytes
unfolding format_uint
machine_args spec =
    codes "-enable-kvm"
    ∷ codes "-object"
    ∷ (codes "memory-backend-memfd,id=mem,size="
        ++ format_uint spec.memory_gb
        ++ codes "G,share=on")
    ∷ codes "-numa"
    ∷ codes "node,memdev=mem"
    ∷ codes "-m"
    ∷ (format_uint spec.memory_gb ++ codes "G")
    ∷ codes "-cpu"
    ∷ codes "host"
    ∷ codes "-smp"
    ∷ format_uint spec.cpus
    ∷ codes "-nographic"
    ∷ []

-- The switch on the boot mode: its arguments, or a file that is missing.
boot_args : (Bytes → Bool) → QemuLaunchSpec → Result Bytes (List Bytes)
boot_args exists spec = elim spec.boot [
  | boot_uefi_disk ↦
      if not (exists spec.ovmf_code)
      then err (codes "OVMF firmware (CODE) missing at " ++ spec.ovmf_code)
      else if not (exists spec.ovmf_vars)
      then err (codes "OVMF NVRAM (VARS) missing at " ++ spec.ovmf_vars)
      else ok (
          codes "-drive"
          ∷ (codes "if=pflash,format=raw,unit=0,readonly=on,file=" ++ spec.ovmf_code)
          ∷ codes "-drive"
          ∷ (codes "if=pflash,format=raw,unit=1,file=" ++ spec.ovmf_vars)
          ∷ [])
  | boot_direct_kernel ↦
      if not (exists spec.kernel)
      then err (codes "kernel missing at " ++ spec.kernel)
      else if not (exists spec.initrd)
      then err (codes "initrd missing at " ++ spec.initrd)
      else ok (
          codes "-kernel"
          ∷ spec.kernel
          ∷ codes "-initrd"
          ∷ spec.initrd
          ∷ codes "-append"
          ∷ codes "root=LABEL=cloudimg-rootfs console=ttyS0 quiet"
          ∷ [])
]

drive_args : QemuLaunchSpec → List Bytes
unfolding is_empty
drive_args spec =
    let root_fmt = if is_empty spec.root_disk_fmt then codes "qcow2" else spec.root_disk_fmt in
    let smol =
      if is_empty spec.smol_bin_path
      then []
      else codes "-drive"
        ∷ (codes "file=" ++ spec.smol_bin_path ++ codes ",format=qcow2,if=virtio,readonly=on")
        ∷ [] in
    codes "-drive"
    ∷ (codes "file=" ++ spec.root_disk ++ codes ",format=" ++ root_fmt ++ codes ",if=virtio")
    ∷ codes "-drive"
    ∷ (codes "file=" ++ spec.session_data ++ codes ",format=qcow2,if=virtio")
    ∷ smol

device_args : QemuLaunchSpec → Bytes → List Bytes
unfolding format_uint
device_args spec mount_tag =
    codes "-device"
    ∷ (codes "vhost-vsock-pci,guest-cid=" ++ format_uint spec.cid)
    ∷ codes "-qmp"
    ∷ (codes "unix:" ++ spec.monitor_sock ++ codes ",server,nowait")
    ∷ codes "-netdev"
    ∷ codes "user,id=net0"
    ∷ codes "-machine"
    ∷ codes "type=q35"
    ∷ codes "-device"
    ∷ codes "virtio-net-pci,netdev=net0"
    ∷ codes "-chardev"
    ∷ (codes "socket,id=virtiofs,path=" ++ spec.virtiofs_sock)
    ∷ codes "-device"
    ∷ (codes "vhost-user-fs-pci,chardev=virtiofs,tag=" ++ mount_tag)
    ∷ []

-- VFSShareMountTag.
abbrev pub vfs_share_mount_tag : Bytes
vfs_share_mount_tag = codes "claudeshared"

-- The arguments that startQEMU builds.
unfoldable pub qemu_args : (Bytes → Bool) → QemuLaunchSpec → Result Bytes (List Bytes)
unfolding machine_args boot_args drive_args device_args
qemu_args exists spec = elim (boot_args exists spec) [
  | err e ↦ err e
  | ok boot ↦
      ok (machine_args spec ++ boot ++ drive_args spec ++ device_args spec vfs_share_mount_tag)
]

-- hostQEMUSystemBinary.
unfoldable pub host_qemu_system_binary : Bytes → Bytes
unfolding eqb
host_qemu_system_binary go_arch =
    if eqb go_arch (codes "arm64") then codes "qemu-system-aarch64" else codes "qemu-system-x86_64"

-- What is done to the processes and the pid file.
pub data QemuAct : Type 0 where
  execute : Bytes → List Bytes → QemuAct
  write_pid_file : QemuAct
  remove_pid_file : QemuAct
  sigterm : ℕ → QemuAct
  sigkill : ℕ → QemuAct
  powerdown : QemuAct
  quit : QemuAct

-- From cmd.Start on: whether it fails, and whether the process is alive half a second later.
unfoldable pub launch_qemu :
    Option Bytes → Bool → Bytes → List Bytes → Result Bytes (Unit {0}) × List QemuAct
launch_qemu (some e) alive binary args = (err (codes "starting QEMU: " ++ e), [])
launch_qemu none true binary args = (ok tt, execute binary args ∷ write_pid_file ∷ [])
launch_qemu none false binary args = (
  err (codes "QEMU exited immediately (check disk image or KVM access)"),
  execute binary args ∷ write_pid_file ∷ remove_pid_file ∷ [],
)

-- startQEMU.
unfoldable pub start_qemu :
    (Bytes → Bool)
    → Option Bytes
    → Bool
    → Bytes
    → QemuLaunchSpec
    → Result Bytes (Unit {0}) × List QemuAct
unfolding qemu_args launch_qemu host_qemu_system_binary
start_qemu exists start_error alive go_arch spec = elim (qemu_args exists spec) [
  | err e ↦ (err e, [])
  | ok args ↦ launch_qemu start_error alive (host_qemu_system_binary go_arch) args
]

-- Whether the process ends within the waits of Shutdown.
pub record QemuWaits : Type 0 where
  pub ends_by_powerdown : Bool
  pub ends_by_quit : Bool

-- Shutdown of a process that runs. A QMP client is there or not; its errors are logged only.
unfoldable pub shutdown_qemu : Bool → ℕ → QemuWaits → List QemuAct
shutdown_qemu has_qmp pid waits =
    let first = if has_qmp then powerdown ∷ [] else [] in
    let second = if has_qmp then first ++ quit ∷ [] else first in
    if waits.ends_by_powerdown
    then first
    else if waits.ends_by_quit
    then second
    else second ++ sigkill pid ∷ []
