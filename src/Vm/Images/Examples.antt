-- ===== src/Vm/Images/Examples.antt =====
-- The theorems on the disk images of a VM at concrete inputs.
use claude_cowork_service.Base.{
  Bytes, [], arith, codes, eqb, err, false, get, none, ok, refl, some, ◌∷◌, ◌≡◌,
}
use claude_cowork_service.FilePath.{join}
use claude_cowork_service.Vm.Images.{
  ImageCalls, Store, convert_or_reuse, convert_vhdx, ensure_vhdx_converted, is_file, qcow2_path,
  vhdx_converted_canary, vhdx_has_canary, vhdx_path,
}
use claude_cowork_service.Vm.Images.Coherence.{
  IsCoherent, IsConversion, ensure_vhdx_converted-IsCoherent,
}
use claude_cowork_service.Vm.Images.Partial.{FailsHalfway, partial_disk_reused}

-- An image is converted by putting a q in front of it.
abbrev image_calls : ImageCalls
image_calls = record {
  convert = λ img. ok (b'q' ∷ img);
  create_disk = ok [];
  create_overlay = λ p. ok [];
  remove_error = λ p. none;
  open_error = λ p. none;
  append_error = λ p. none;
  copy_error = none;
  close_error = none;
}

abbrev Converted : Bytes → Bytes → Type 0
Converted img disk = disk ≡ b'q' ∷ img

converted_by : (img disk : Bytes) → image_calls.convert img ≡ ok disk → Converted img disk
converted_by img disk h = cc

abbrev one_image : Store
one_image = (codes "/b/rootfs.vhdx", codes "v") ∷ []

image_paths_apart :
    eqb (vhdx_path (codes "/b") (codes "rootfs")) (qcow2_path (codes "/b") (codes "rootfs")) ≡ false
unfolding eqb join
image_paths_apart = refl

no_disk_yet : get (qcow2_path (codes "/b") (codes "rootfs")) one_image ≡ none
unfolding get eqb join
no_disk_yet = refl

one_image-IsCoherent :
    IsCoherent image_calls Converted converted_by
      (vhdx_path (codes "/b") (codes "rootfs"))
      (qcow2_path (codes "/b") (codes "rootfs"))
      one_image
unfolding IsCoherent
one_image-IsCoherent content disk c canary d = absurd (ground (arith, no_disk_yet))

ensure_vhdx_converted-IsCoherent_example :
    let vhdx = vhdx_path (codes "/b") (codes "rootfs") in
    let qcow2 = qcow2_path (codes "/b") (codes "rootfs") in
    (image_calls.remove_error qcow2 ≡ none
      → IsCoherent image_calls Converted converted_by vhdx qcow2
          (ensure_vhdx_converted image_calls (codes "/b") (codes "rootfs") one_image).0)
    × ((content q : Bytes)
        → get vhdx one_image ≡ some content
        → (ensure_vhdx_converted image_calls (codes "/b") (codes "rootfs") one_image).1 ≡ ok q
        → (q ≡ qcow2)
          × IsConversion image_calls Converted converted_by vhdx qcow2
              (ensure_vhdx_converted image_calls (codes "/b") (codes "rootfs") one_image).0)
ensure_vhdx_converted-IsCoherent_example =
    ensure_vhdx_converted-IsCoherent image_calls Converted converted_by (codes "/b")
      (codes "rootfs") one_image image_paths_apart one_image-IsCoherent

converted_run :
    (ensure_vhdx_converted image_calls (codes "/b") (codes "rootfs") one_image).1
    ≡ ok (codes "/b/rootfs.qcow2")
unfolding ensure_vhdx_converted convert_or_reuse is_file convert_vhdx get eqb join
converted_run = refl

-- A conversion that stops half-way, and a removal that fails.
abbrev failing_calls : ImageCalls
failing_calls = record image_calls {
  convert = λ img. err (some (codes "h"), codes "full");
  remove_error = λ p. some (codes "busy");
}

abbrev stamped_image : Store
stamped_image = (codes "/b/rootfs.vhdx", b'v' ∷ vhdx_converted_canary) ∷ []

stamped_fails :
    FailsHalfway failing_calls
      (vhdx_path (codes "/b") (codes "rootfs"))
      (qcow2_path (codes "/b") (codes "rootfs"))
      (b'v' ∷ vhdx_converted_canary)
      (codes "h")
      stamped_image
unfolding get eqb join vhdx_has_canary
stamped_fails = record {
  output = codes "full";
  removal = codes "busy";
  here = refl;
  canary = refl;
  gone = refl;
  fails = refl;
  stays = refl;
}

disk_path_apart :
    eqb (qcow2_path (codes "/b") (codes "rootfs")) (vhdx_path (codes "/b") (codes "rootfs")) ≡ false
unfolding eqb join
disk_path_apart = refl

partial_disk_reused_example :
    let qcow2 = qcow2_path (codes "/b") (codes "rootfs") in
    let (fs', r) =
      ensure_vhdx_converted failing_calls (codes "/b") (codes "rootfs") stamped_image in
    ((e : Bytes) × (r ≡ err e))
    × (get qcow2 fs' ≡ some (codes "h"))
    × (ensure_vhdx_converted image_calls (codes "/b") (codes "rootfs") fs' ≡ (fs', ok qcow2))
partial_disk_reused_example =
    partial_disk_reused failing_calls image_calls (codes "/b") (codes "rootfs")
      (b'v' ∷ vhdx_converted_canary) (codes "h") stamped_image disk_path_apart refl refl
      stamped_fails
