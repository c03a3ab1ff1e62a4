-- ===== src/Vm/Images.antt =====
-- The disk images of a virtual machine (vm/qemu.go: ensureVHDXConverted and its canary, findSmolBin,
-- ensureSessionDataDisk; vm/uefi.go: ensureOVMFVars, ensureNativeRootOverlay), on a store of files.
pub mod Coherence
pub mod Partial
mod Examples
use claude_cowork_service.Base.{
  Bool, Bytes, Dict, List, Option, Result, [], codes, drop, eqb, err, false, get, if◌then◌else◌,
  leb, length, none, ok, put, remove, some, take, true, ℕ, ◌&&◌, ◌++◌, ◌-◌, ◌∷◌,
}
use claude_cowork_service.FilePath.{join}

-- The regular files, by their paths.
abbrev pub Store : Type 0
Store = Dict Bytes

-- What qemu-img makes of an image, and the outcomes of the calls.
pub record ImageCalls : Type 0 where
  -- qemu-img convert: the new image, or the output and the part that was written, if any.
  pub convert : Bytes → Result (Option Bytes × Bytes) Bytes
  -- qemu-img create, of a session disk and of an overlay over the image at a path.
  pub create_disk : Result (Option Bytes × Bytes) Bytes
  pub create_overlay : Bytes → Result (Option Bytes × Bytes) Bytes
  pub remove_error : Bytes → Option Bytes
  pub open_error : Bytes → Option Bytes
  -- A write that fails, and how many bytes it has written by then.
  pub append_error : Bytes → Option (ℕ × Bytes)
  pub copy_error : Option (ℕ × Bytes)
  pub close_error : Option Bytes

-- os.Stat succeeds.
unfoldable pub is_file : Bytes → Store → Bool
unfolding get
is_file p fs = elim (get p fs) [ some c ↦ true | none ↦ false ]

-- os.Remove.
unfoldable pub remove_file : ImageCalls → Bytes → Store → Store
unfolding remove
remove_file os p fs = elim (os.remove_error p) [ some e ↦ fs | none ↦ remove p fs ]

-- vhdxConvertedCanary.
abbrev pub vhdx_converted_canary : Bytes
vhdx_converted_canary = 0 ∷ codes "COWORK-VHDX-CONVERTED-V1" ++ 0 ∷ []

-- bytes.Equal on the last bytes.
unfoldable pub has_suffix : Bytes → Bytes → Bool
unfolding eqb
has_suffix s t = leb (length t) (length s) && eqb (drop (length s - length t) s) t

-- vhdxHasCanary.
unfoldable pub vhdx_has_canary : ImageCalls → Bytes → Store → Bool
unfolding get has_suffix
vhdx_has_canary os path fs = elim (os.open_error path) [
  | some e ↦ false
  | none ↦ elim (get path fs) [
    | none ↦ false
    | some content ↦ has_suffix content vhdx_converted_canary
  ]
]

-- appendVhdxCanary, of a file with this content. Its error is logged only.
unfoldable pub append_vhdx_canary : ImageCalls → Bytes → Bytes → Store → Store
unfolding put
append_vhdx_canary os path content fs = elim (os.append_error path) [
  | some (n, e) ↦ put path (content ++ take n vhdx_converted_canary) fs
  | none ↦ put path (content ++ vhdx_converted_canary) fs
]

abbrev pub Ensured : Type 0
Ensured = Store × Result Bytes Bytes

-- What a failed qemu-img leaves at a path.
unfoldable pub put_partial : Bytes → Option Bytes → Store → Store
unfolding put
put_partial p none fs = fs
put_partial p (some partial) fs = put p partial fs

-- From the conversion on, of a VHDX with this content.
unfoldable pub convert_vhdx : ImageCalls → Bytes → Bytes → Bytes → Bytes → Store → Ensured
unfolding remove_file append_vhdx_canary put put_partial
convert_vhdx os basename vhdx qcow2 content fs = elim (os.convert content) [
  | err (partial, out) ↦ (
    remove_file os qcow2 (put_partial qcow2 partial fs),
    err (codes "converting " ++ basename ++ codes ".vhdx: " ++ out),
  )
  | ok image ↦ (append_vhdx_canary os vhdx content (put qcow2 image fs), ok qcow2)
]

-- A VHDX that is there, with this content.
unfoldable pub convert_or_reuse : ImageCalls → Bytes → Bytes → Bytes → Bytes → Store → Ensured
convert_or_reuse os basename vhdx qcow2 content fs =
    if is_file qcow2 fs
    then if vhdx_has_canary os vhdx fs
      then (fs, ok qcow2)
      else convert_vhdx os basename vhdx qcow2 content (remove_file os qcow2 fs)
    else convert_vhdx os basename vhdx qcow2 content fs

abbrev pub vhdx_path : Bytes → Bytes → Bytes
vhdx_path bundle_dir basename = join (bundle_dir ∷ (basename ++ codes ".vhdx") ∷ [])

abbrev pub qcow2_path : Bytes → Bytes → Bytes
qcow2_path bundle_dir basename = join (bundle_dir ∷ (basename ++ codes ".qcow2") ∷ [])

-- ensureVHDXConverted.
unfoldable pub ensure_vhdx_converted : ImageCalls → Bytes → Bytes → Store → Ensured
ensure_vhdx_converted os bundle_dir basename fs =
    let vhdx = vhdx_path bundle_dir basename in
    let qcow2 = qcow2_path bundle_dir basename in
    elim (get vhdx fs) [
      | none ↦
          if is_file qcow2 fs
          then (fs, ok qcow2)
          else (fs, err (vhdx ++ codes " not found: no such file or directory"))
      | some content ↦ convert_or_reuse os basename vhdx qcow2 content fs
    ]

-- The loops of findSmolBin: the first image, in the order of the directories and the names.
smol_bin_among : ImageCalls → List (Bytes × Bytes) → Store → Store × Bytes
unfolding ensure_vhdx_converted
smol_bin_among os [] fs = (fs, [])
smol_bin_among os ((d, name) ∷ rest) fs =
    let (fs', r) = ensure_vhdx_converted os d name fs in
    let others = smol_bin_among os rest fs' in elim r [ ok qcow ↦ (fs', qcow) | err e ↦ others ]

smol_bin_names : Bytes → List Bytes → List (Bytes × Bytes)
smol_bin_names arch_tag [] = []
smol_bin_names arch_tag (d ∷ dirs) =
    (d, codes "smol-bin") ∷ (d, codes "smol-bin." ++ arch_tag) ∷ smol_bin_names arch_tag dirs

-- findSmolBin. The tag is "arm64" or "x64", by the host's architecture.
unfoldable pub find_smol_bin : ImageCalls → Bytes → List Bytes → Store → Store × Bytes
unfolding smol_bin_among smol_bin_names
find_smol_bin os arch_tag dirs fs = smol_bin_among os (smol_bin_names arch_tag dirs) fs

-- ensureSessionDataDisk.
unfoldable pub ensure_session_data_disk :
    ImageCalls → Bytes → Store → Store × Result Bytes (Unit {0})
unfolding is_file put put_partial
ensure_session_data_disk os path fs = if is_file path fs then (fs, ok tt) else elim os.create_disk [
  | err (partial, out) ↦ (put_partial path partial fs, err (codes "creating session disk: " ++ out))
  | ok image ↦ (put path image fs, ok tt)
]

abbrev pub overlay_path : Bytes → Bytes
overlay_path bundle_dir = join (bundle_dir ∷ codes "rootfs.img.overlay.qcow2" ∷ [])

-- ensureNativeRootOverlay.
unfoldable pub ensure_native_root_overlay : ImageCalls → Bytes → Bytes → Store → Ensured
unfolding is_file put remove_file put_partial
ensure_native_root_overlay os bundle_dir img_path fs =
    let overlay = overlay_path bundle_dir in
    if is_file overlay fs then (fs, ok overlay) else elim (os.create_overlay img_path) [
      | err (partial, out) ↦ (
        remove_file os overlay (put_partial overlay partial fs),
        err (codes "creating rootfs.img overlay: " ++ out),
      )
      | ok image ↦ (put overlay image fs, ok overlay)
    ]

abbrev pub vars_path : Bytes → Bytes
vars_path session_dir = join (session_dir ∷ codes "OVMF_VARS.fd" ∷ [])

-- io.Copy and the close of the copy.
unfoldable pub copy_vars : ImageCalls → Bytes → Bytes → Store → Ensured
unfolding remove_file put
copy_vars os dst content fs = elim os.copy_error [
  | some (n, e) ↦
      (remove_file os dst (put dst (take n content) fs), err (codes "copying OVMF VARS: " ++ e))
  | none ↦ elim os.close_error [
    | some e ↦ (put dst content fs, err (codes "closing OVMF VARS: " ++ e))
    | none ↦ (put dst content fs, ok dst)
  ]
]

-- The template that can be opened, with its content, and the creation of the copy.
unfoldable pub open_vars : ImageCalls → Bytes → Bytes → Store → Ensured
unfolding copy_vars
open_vars os dst content fs = elim (os.open_error dst) [
  | some e ↦ (fs, err (codes "creating OVMF VARS " ++ dst ++ codes ": " ++ e))
  | none ↦ copy_vars os dst content fs
]

-- ensureOVMFVars.
unfoldable pub ensure_ovmf_vars : ImageCalls → Bytes → Bytes → Store → Ensured
ensure_ovmf_vars os session_dir template fs =
    let dst = vars_path session_dir in
    let failed = codes "opening OVMF VARS template " ++ template ++ codes ": " in
    if is_file dst fs then (fs, ok dst) else elim (os.open_error template) [
      | some e ↦ (fs, err (failed ++ e))
      | none ↦ elim (get template fs) [
        | none ↦ (fs, err (failed ++ codes "no such file or directory"))
        | some content ↦ open_vars os dst content fs
      ]
    ]
