-- ===== src/Vm/Images/Partial.antt =====
-- Files that a failed step leaves behind, and that the next start takes for whole ones.
use claude_cowork_service.Base.{
  Bytes, arith, codes, eqb, eqb_refl, err, false, get, get-put, none, ok, put, refl, some, true,
  ◌++◌, ◌≡◌,
}
use claude_cowork_service.Vm.Images.{
  ImageCalls, Store, convert_or_reuse, convert_vhdx, copy_vars, ensure_ovmf_vars,
  ensure_vhdx_converted, is_file, open_vars, put_partial, qcow2_path, remove_file, vars_path,
  vhdx_has_canary, vhdx_path,
}

-- The VHDX has the canary, its disk is missing, a conversion fails half-way, and so does the removal
-- of what it has written.
pub record FailsHalfway (os : ImageCalls) (vhdx qcow2 content partial : Bytes) (fs : Store)
    : Type 0 where
  pub output : Bytes
  pub removal : Bytes
  pub here : get vhdx fs ≡ some content
  pub canary : vhdx_has_canary os vhdx fs ≡ true
  pub gone : get qcow2 fs ≡ none
  pub fails : os.convert content ≡ err (some partial, output)
  pub stays : os.remove_error qcow2 ≡ some removal

put-is_file : (p content : Bytes) (fs : Store) → is_file p (put p content fs) ≡ true
unfolding is_file
put-is_file p content fs = rw (is_file, get-put p p content fs, eqb_refl p)

no_file : (p : Bytes) (fs : Store) → get p fs ≡ none → is_file p fs ≡ false
unfolding is_file
no_file p fs e = rw (is_file, e)

canary_kept :
    (os os' : ImageCalls) (vhdx content : Bytes) (fs fs' : Store)
    → get vhdx fs ≡ some content
    → get vhdx fs' ≡ some content
    → os.open_error vhdx ≡ none
    → os'.open_error vhdx ≡ none
    → vhdx_has_canary os vhdx fs ≡ true
    → vhdx_has_canary os' vhdx fs' ≡ true
unfolding vhdx_has_canary
canary_kept os os' vhdx content fs fs' c c' o o' h = ground (arith, c, c', o, o')

first_call :
    (os : ImageCalls) (bundle name content partial : Bytes) (fs : Store)
    → (f : FailsHalfway os (vhdx_path bundle name) (qcow2_path bundle name) content partial fs)
    → ensure_vhdx_converted os bundle name fs ≡ (
      put (qcow2_path bundle name) partial fs,
      err (codes "converting " ++ name ++ codes ".vhdx: " ++ f.output),
    )
unfolding ensure_vhdx_converted convert_or_reuse convert_vhdx remove_file put_partial
first_call os bundle name content partial fs f = rw (
  ensure_vhdx_converted,
  f.here,
  convert_or_reuse,
  no_file (qcow2_path bundle name) fs f.gone,
  convert_vhdx,
  f.fails,
  remove_file,
  f.stays,
)

second_call :
    (os os' : ImageCalls) (bundle name content partial : Bytes) (fs : Store)
    → eqb (qcow2_path bundle name) (vhdx_path bundle name) ≡ false
    → os.open_error (vhdx_path bundle name) ≡ none
    → os'.open_error (vhdx_path bundle name) ≡ none
    → (f : FailsHalfway os (vhdx_path bundle name) (qcow2_path bundle name) content partial fs)
    → let fs' = put (qcow2_path bundle name) partial fs in
      ensure_vhdx_converted os' bundle name fs' ≡ (fs', ok (qcow2_path bundle name))
unfolding ensure_vhdx_converted convert_or_reuse
second_call os os' bundle name content partial fs apart opens opens' f =
    let vhdx = vhdx_path bundle name in
    let qcow2 = qcow2_path bundle name in
    let fs' = put qcow2 partial fs in
    let here : get vhdx fs' ≡ some content = rw (get-put qcow2 vhdx partial fs, apart, f.here) in
    let there : is_file qcow2 fs' ≡ true = put-is_file qcow2 partial fs in
    let canary : vhdx_has_canary os' vhdx fs' ≡ true =
      canary_kept os os' vhdx content fs fs' f.here here opens opens' f.canary in
    rw (ensure_vhdx_converted, here, convert_or_reuse, there, canary)

-- The canary of a VHDX says that the image was converted once, not that the disk beside it is the
-- result: after a conversion that fails half-way, and whose output cannot be removed, the call fails,
-- and the next one returns the partial disk, whatever the system calls then do, provided that the
-- VHDX can be opened.
pub partial_disk_reused :
    (os os' : ImageCalls) (bundle name content partial : Bytes) (fs : Store)
    → let vhdx = vhdx_path bundle name in
      let qcow2 = qcow2_path bundle name in
      eqb qcow2 vhdx ≡ false
      → os.open_error vhdx ≡ none
      → os'.open_error vhdx ≡ none
      → FailsHalfway os vhdx qcow2 content partial fs
      → let (fs', r) = ensure_vhdx_converted os bundle name fs in
        ((e : Bytes) × (r ≡ err e))
        × (get qcow2 fs' ≡ some partial)
        × (ensure_vhdx_converted os' bundle name fs' ≡ (fs', ok qcow2))
unfolding ensure_vhdx_converted
partial_disk_reused os os' bundle name content partial fs apart opens opens' f =
    let qcow2 = qcow2_path bundle name in
    rw (first_call os bundle name content partial fs f) (
      (codes "converting " ++ name ++ codes ".vhdx: " ++ f.output, refl),
      rw (get-put qcow2 qcow2 partial fs, eqb_refl qcow2),
      second_call os os' bundle name content partial fs apart opens opens' f,
    )

unclosed_copy :
    (os : ImageCalls) (session_dir template content e : Bytes) (fs : Store)
    → let dst = vars_path session_dir in
      is_file dst fs ≡ false
      → os.open_error template ≡ none
      → os.open_error dst ≡ none
      → get template fs ≡ some content
      → os.copy_error ≡ none
      → os.close_error ≡ some e
      → ensure_ovmf_vars os session_dir template fs
        ≡ (put dst content fs, err (codes "closing OVMF VARS: " ++ e))
unfolding ensure_ovmf_vars copy_vars open_vars
unclosed_copy os session_dir template content e fs fresh o p c w x =
    rw (ensure_ovmf_vars, fresh, o, c, open_vars, p, copy_vars, w, x)

-- When the copy of the firmware's variables is written but its close fails, the start fails, and the
-- next one takes the copy that is there.
pub unclosed_copy_reused :
    (os os' : ImageCalls) (session_dir template content e : Bytes) (fs : Store)
    → let dst = vars_path session_dir in
      is_file dst fs ≡ false
      → os.open_error template ≡ none
      → os.open_error dst ≡ none
      → get template fs ≡ some content
      → os.copy_error ≡ none
      → os.close_error ≡ some e
      → let (fs', r) = ensure_ovmf_vars os session_dir template fs in
        (r ≡ err (codes "closing OVMF VARS: " ++ e))
        × (ensure_ovmf_vars os' session_dir template fs' ≡ (fs', ok dst))
unfolding ensure_ovmf_vars
unclosed_copy_reused os os' session_dir template content e fs fresh o p c w x =
    let dst = vars_path session_dir in
    rw (unclosed_copy os session_dir template content e fs fresh o p c w x)
      (refl, rw (put-is_file dst content fs))
