-- ===== src/Vm/Bundles.antt =====
-- Where the images of a virtual machine are found (vm/backend.go: findBundle, hasUsableRootfs and
-- GetDownloadStatus; vm/uefi.go: rootfsImagePath and the firmware).
use claude_cowork_service.Base.{
  Bool, Bool-cases, Bytes, List, Option, Option-cases, Result, [], arith, codes, err, false,
  if◌then◌else◌, inl, inr, is_empty, none, not, ok, some, true, ◌&&◌, ◌++◌, ◌||◌, ◌∷◌, ◌≡◌,
}
use claude_cowork_service.FilePath.{clean, dir, join}
use claude_cowork_service.Transcript.{Lookup}

abbrev pub native_rootfs_image_name : Bytes
native_rootfs_image_name = codes "rootfs.img"

-- The names under which an image may be there.
abbrev pub rootfs_names : List Bytes
rootfs_names = native_rootfs_image_name ∷ codes "rootfs.qcow2" ∷ codes "rootfs.vhdx" ∷ []

has_file : Lookup → Bytes → List Bytes → Bool
unfolding join
has_file look d [] = false
has_file look d (f ∷ fs) = look.exists (join (d ∷ f ∷ [])) || has_file look d fs

-- hasUsableRootfs.
unfoldable pub has_usable_rootfs : Lookup → Bytes → Bool
unfolding has_file
has_usable_rootfs look d = has_file look d rootfs_names

-- The first directory among the entries that has an image.
unfoldable pub first_usable : Lookup → Bytes → List (Bytes × Bool) → Option Bytes
first_usable look d [] = none
first_usable look d ((name, is_dir) ∷ entries) =
    let rest = first_usable look d entries in
    let sub = join (d ∷ name ∷ []) in
    if is_dir && has_usable_rootfs look sub then some sub else rest

-- A candidate directory: itself, or one that it holds.
unfoldable pub usable_in : Lookup → Bytes → Option Bytes
usable_in look d =
    if is_empty d
    then none
    else if has_usable_rootfs look d
    then some d
    else elim (look.read_dir d) [ none ↦ none | some entries ↦ first_usable look d entries ]

-- A bundle path that names a file stands for the file's directory.
unfoldable pub requested_dir : (Bytes → Bool) → Bytes → Bytes
unfolding clean dir
requested_dir is_file bundle_path =
    if is_file (clean bundle_path) then dir (clean bundle_path) else clean bundle_path

-- findBundle. `is_file` says that os.Stat finds something that is no directory.
unfoldable pub find_bundle : Lookup → (Bytes → Bool) → Bytes → Bytes → Bytes → Result Bytes Bytes
find_bundle look is_file bundles_dir base_dir bundle_path =
    let requested = requested_dir is_file bundle_path in
    if not (is_empty bundle_path)
    then if has_usable_rootfs look requested
      then ok requested
      else err (
          codes "requested bundle "
          ++ requested
          ++ codes " has no rootfs.img, rootfs.qcow2 or rootfs.vhdx")
    else elim (usable_in look bundles_dir) [
      | some d ↦ ok d
      | none ↦ elim (usable_in look base_dir) [
        | some d ↦ ok d
        | none ↦ err (codes "no rootfs in " ++ bundles_dir ++ codes " or " ++ base_dir)
      ]
    ]

has_bundle : Lookup → Bytes → List (Bytes × Bool) → Bool
unfolding has_file join
has_bundle look d [] = false
has_bundle look d ((name, is_dir) ∷ entries) =
    let rest = has_bundle look d entries in
    if is_dir then has_file look (join (d ∷ name ∷ [])) rootfs_names || rest else rest

-- GetDownloadStatus.
unfoldable pub get_download_status : Lookup → Bytes → Bytes
unfolding has_bundle
get_download_status look bundles_dir =
    if look.exists bundles_dir
    then elim (look.read_dir bundles_dir) [
      | none ↦ codes "NotDownloaded"
      | some entries ↦
          if has_bundle look bundles_dir entries then codes "Ready" else codes "NotDownloaded"
    ]
    else codes "NotDownloaded"

-- rootfsImagePath: the empty path if there is none.
unfoldable pub rootfs_image_path : Lookup → Bytes → Bytes
unfolding join
rootfs_image_path look bundle_dir =
    let p = join (bundle_dir ∷ native_rootfs_image_name ∷ []) in if look.exists p then p else []

unfoldable pub first_of : Lookup → List Bytes → Bytes
first_of look [] = []
first_of look (p ∷ ps) = let rest = first_of look ps in if look.exists p then p else rest

-- firstExisting, by the value of the environment variable.
unfoldable pub first_existing : Lookup → Bytes → List Bytes → Bytes
unfolding is_empty first_of
first_existing look env_value paths =
    if not (is_empty env_value) && look.exists env_value then env_value else first_of look paths

abbrev pub ovmf_code_paths : List Bytes
ovmf_code_paths =
    codes "/usr/share/edk2/x64/OVMF_CODE.4m.fd"
    ∷ codes "/usr/share/edk2-ovmf/x64/OVMF_CODE.4m.fd"
    ∷ codes "/usr/share/OVMF/OVMF_CODE_4M.fd"
    ∷ codes "/usr/share/edk2/ovmf/OVMF_CODE.fd"
    ∷ codes "/usr/share/OVMF/OVMF_CODE.fd"
    ∷ codes "/usr/share/qemu/OVMF_CODE.fd"
    ∷ []

abbrev pub ovmf_vars_template_paths : List Bytes
ovmf_vars_template_paths =
    codes "/usr/share/edk2/x64/OVMF_VARS.4m.fd"
    ∷ codes "/usr/share/edk2-ovmf/x64/OVMF_VARS.4m.fd"
    ∷ codes "/usr/share/OVMF/OVMF_VARS_4M.fd"
    ∷ codes "/usr/share/edk2/ovmf/OVMF_VARS.fd"
    ∷ codes "/usr/share/OVMF/OVMF_VARS.fd"
    ∷ codes "/usr/share/qemu/OVMF_VARS.fd"
    ∷ []

-- findOVMFCode and findOVMFVarsTemplate, by the values of COWORK_OVMF_CODE and COWORK_OVMF_VARS.
unfoldable pub find_ovmf_code : Lookup → Bytes → Bytes
unfolding first_existing
find_ovmf_code look env_value = first_existing look env_value ovmf_code_paths

unfoldable pub find_ovmf_vars_template : Lookup → Bytes → Bytes
unfolding first_existing
find_ovmf_vars_template look env_value = first_existing look env_value ovmf_vars_template_paths

first_usable_lem :
    (look : Lookup) (d : Bytes) (entries : List (Bytes × Bool)) (p : Bytes)
    → first_usable look d entries ≡ some p
    → has_usable_rootfs look p ≡ true
unfolding first_usable
first_usable_lem look d [] p h = cc
first_usable_lem look d ((name, is_dir) ∷ entries) p h =
    ground (arith, first_usable_lem look d entries p)

usable_in_lem :
    (look : Lookup) (d p : Bytes) → usable_in look d ≡ some p → has_usable_rootfs look p ≡ true
unfolding usable_in
usable_in_lem look d p h = elim (Option-cases (look.read_dir d)) [
  | inl e ↦ ground (arith, e)
  | inr (entries, e) ↦ ground (arith, e, first_usable_lem look d entries p)
]

has_bundle-first_usable :
    (look : Lookup) (d : Bytes) (entries : List (Bytes × Bool))
    → has_bundle look d entries ≡ true
    → (p : Bytes) × (first_usable look d entries ≡ some p)
unfolding has_bundle first_usable has_usable_rootfs
has_bundle-first_usable look d [] h = cc
has_bundle-first_usable look d ((name, is_dir) ∷ entries) h =
    elim (Bool-cases (is_dir && has_file look (join (d ∷ name ∷ [])) rootfs_names)) [
      | inl e ↦ (join (d ∷ name ∷ []), rw e)
      | inr e ↦ let (p, f) = has_bundle-first_usable look d entries (ground arith) in (p, rw (e, f))
    ]

-- Where it is found, a bundle has an image.
pub find_bundle_lem :
    (look : Lookup) (is_file : Bytes → Bool) (bundles_dir base_dir bundle_path d : Bytes)
    → find_bundle look is_file bundles_dir base_dir bundle_path ≡ ok d
    → has_usable_rootfs look d ≡ true
unfolding find_bundle
find_bundle_lem look is_file bundles_dir base_dir bundle_path d h =
    ground (arith, usable_in_lem look bundles_dir d, usable_in_lem look base_dir d)

ready-usable_in :
    (look : Lookup) (bundles_dir : Bytes)
    → is_empty bundles_dir ≡ false
    → get_download_status look bundles_dir ≡ codes "Ready"
    → (d : Bytes) × (usable_in look bundles_dir ≡ some d)
unfolding get_download_status usable_in
ready-usable_in look bundles_dir given h = elim (Bool-cases (has_usable_rootfs look bundles_dir)) [
  | inl e ↦ (bundles_dir, rw (given, e))
  | inr e ↦ elim (Option-cases (look.read_dir bundles_dir)) [
    | inl f ↦ absurd (ground (arith, f))
    | inr (entries, f) ↦
        let (p, g) = has_bundle-first_usable look bundles_dir entries (ground (arith, f)) in
        (p, rw (given, e, f, g))
  ]
]

-- What Desktop is told fits what a start finds: when the download status is "Ready", a start without
-- a bundle path finds a bundle, in the directory of the downloads, and it has an image.
pub ready-find_bundle :
    (look : Lookup) (is_file : Bytes → Bool) (bundles_dir base_dir : Bytes)
    → is_empty bundles_dir ≡ false
    → get_download_status look bundles_dir ≡ codes "Ready"
    → (d : Bytes) × (find_bundle look is_file bundles_dir base_dir [] ≡ ok d)
      × (usable_in look bundles_dir ≡ some d)
      × (has_usable_rootfs look d ≡ true)
unfolding find_bundle is_empty
ready-find_bundle look is_file bundles_dir base_dir given h =
    let (d, e) = ready-usable_in look bundles_dir given h in
    (d, rw e, e, usable_in_lem look bundles_dir d e)
