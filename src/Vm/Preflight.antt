-- ===== src/Vm/Preflight.antt =====
-- The prerequisites of the KVM backend (vm/preflight.go), and what is there after them.
use claude_cowork_service.Base.{
  Bool, Bytes, List, Option, [], arith, codes, false, if◌then◌else◌, is_empty, length, ltb, none,
  some, take, ◌++◌, ◌∷◌, ◌≡◌, ◌≢◌,
}

-- What the host answers, failures by their texts. A program is found at a path, or not.
pub record HostProbe : Type 0 where
  pub kvm_error : Option Bytes
  pub vsock_error : Option Bytes
  pub look_path : Bytes → Option Bytes
  -- os.Stat finds something that is no directory.
  pub is_file : Bytes → Bool
  -- The output and the error of unshare.
  pub unshare_error : Option (Bytes × Bytes)

-- The names of virtiofsd that are not on the path.
abbrev pub virtiofsd_paths : List Bytes
virtiofsd_paths = codes "/usr/lib/virtiofsd" ∷ codes "/usr/libexec/virtiofsd" ∷ []

first_file : HostProbe → List Bytes → Bytes
first_file os [] = []
first_file os (p ∷ ps) = let rest = first_file os ps in if os.is_file p then p else rest

-- FindVirtiofsd: the empty path if there is none.
unfoldable pub find_virtiofsd : HostProbe → Bytes
unfolding first_file
find_virtiofsd os = elim (os.look_path (codes "virtiofsd")) [
  | some p ↦ p
  | none ↦ first_file os virtiofsd_paths
]

-- The character "…" in UTF-8.
abbrev ellipsis : Bytes
ellipsis = 226 ∷ 128 ∷ 166 ∷ []

-- shortErr.
unfoldable pub short_err : Bytes → Bytes
short_err out = if ltb 200 (length out) then take 200 out ++ ellipsis else out

-- The dash is written as its UTF-8 bytes.
abbrev no_virtiofsd : Bytes
no_virtiofsd =
    codes "virtiofsd not found "
    ++ 226 ∷ 128 ∷ 148 ∷ codes " install: pacman -S virtiofsd / apt install virtiofsd / "
    ++ codes "dnf install virtiofsd (if already installed, symlink it onto PATH: "
    ++ codes "sudo ln -s /usr/lib/virtiofsd /usr/local/bin/virtiofsd)"

userns_reason : Bytes → Bytes → Bytes
unfolding short_err
userns_reason out e =
    codes "unprivileged user namespaces unavailable: "
    ++ e
    ++ codes " ("
    ++ short_err out
    ++ codes "). Enable with `sudo sysctl -w kernel.unprivileged_userns_clone=1` "
    ++ codes "(or relax AppArmor on Ubuntu 24.04+ via "
    ++ codes "kernel.apparmor_restrict_unprivileged_userns=0)"

check_userns : HostProbe → Option Bytes
unfolding userns_reason
check_userns os = elim os.unshare_error [ none ↦ none | some (out, e) ↦ some (userns_reason out e) ]

check_vsock : HostProbe → Option Bytes
unfolding is_empty find_virtiofsd check_userns
check_vsock os = elim os.vsock_error [
  | some e ↦ some (codes "/dev/vhost-vsock not accessible: " ++ e)
  | none ↦ if is_empty (find_virtiofsd os) then some no_virtiofsd else check_userns os
]

-- CheckKvmPrerequisites: the reason of the first prerequisite that is missing.
unfoldable pub check_kvm_prerequisites : HostProbe → Option Bytes
unfolding check_vsock
check_kvm_prerequisites os = elim os.kvm_error [
  | some e ↦ some (codes "/dev/kvm not accessible: " ++ e)
  | none ↦ elim (os.look_path (codes "qemu-system-x86_64")) [
    | none ↦ some (codes "qemu-system-x86_64 not found in PATH")
    | some p ↦ check_vsock os
  ]
]

check_vsock-none :
    (os : HostProbe)
    → check_vsock os ≡ none
    → (os.vsock_error ≡ none) × (is_empty (find_virtiofsd os) ≡ false) × (os.unshare_error ≡ none)
unfolding check_vsock check_userns
check_vsock-none os h = (ground arith, ground arith, ground arith)

-- When no prerequisite is missing, all are there: the devices, QEMU, a virtiofsd that the helper then
-- starts, and user namespaces.
pub check_kvm_prerequisites-none :
    (os : HostProbe)
    → check_kvm_prerequisites os ≡ none
    → (os.kvm_error ≡ none)
      × (os.look_path (codes "qemu-system-x86_64") ≢ none)
      × (os.vsock_error ≡ none)
      × (is_empty (find_virtiofsd os) ≡ false)
      × (os.unshare_error ≡ none)
unfolding check_kvm_prerequisites
check_kvm_prerequisites-none os h =
    let (a, b, c) = check_vsock-none os (ground arith) in
    (ground arith, (λ e. ground arith), a, b, c)
