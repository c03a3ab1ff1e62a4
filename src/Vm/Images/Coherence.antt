-- ===== src/Vm/Images/Coherence.antt =====
-- Which image a start gets: the cache of converted images.
use claude_cowork_service.Base.{
  Bool-cases, Bytes, Option-cases, Result-cases, arith, eqb, eqb_refl, false, get, get-put,
  get-remove, inl, inr, none, ok, put, refl, some, subst, take, true, ℕ, ◌++◌, ◌≡◌,
}
use claude_cowork_service.Vm.Images.{
  ImageCalls, Store, append_vhdx_canary, convert_or_reuse, convert_vhdx, ensure_vhdx_converted,
  has_suffix, is_file, put_partial, qcow2_path, remove_file, vhdx_converted_canary, vhdx_has_canary,
  vhdx_path,
}

-- `Made` relates an image to a disk that was converted from it, whatever a guest has written to the
-- disk since.
module _ (os : ImageCalls) (Made : Bytes → Bytes → Type 0)
    (fresh : (image disk : Bytes) → os.convert image ≡ ok disk → Made image disk) where
  -- The VHDX is an image with a part of the canary behind it, and the disk was made from the image.
  pub record IsStamped (content disk : Bytes) : Type 0 where
    pub image : Bytes
    pub stamp : ℕ
    pub whole : content ≡ image ++ take stamp vhdx_converted_canary
    pub made : Made image disk

  -- If a VHDX has the canary, then the disk beside it is made from it.
  unfoldable pub IsCoherent : Bytes → Bytes → Store → Type 0
  IsCoherent vhdx qcow2 fs =
      (content disk : Bytes)
      → get vhdx fs ≡ some content
      → has_suffix content vhdx_converted_canary ≡ true
      → get qcow2 fs ≡ some disk
      → IsStamped content disk

  -- The disk that a result names is there, and made from the VHDX.
  pub IsConversion : Bytes → Bytes → Store → Type 0
  IsConversion vhdx qcow2 fs =
      (content disk : Bytes) × (get vhdx fs ≡ some content)
      × (get qcow2 fs ≡ some disk)
      × IsStamped content disk

  IsConversion-IsCoherent :
      (vhdx qcow2 : Bytes) (fs : Store) → IsConversion vhdx qcow2 fs → IsCoherent vhdx qcow2 fs
  unfolding IsConversion IsCoherent
  IsConversion-IsCoherent vhdx qcow2 fs (content, disk, c, d, s) content' disk' c' canary d' =
      let e : content ≡ content' = cc in
      let f : disk ≡ disk' = cc in
      subst (λ x. IsStamped x disk') e (subst (λ y. IsStamped content y) f s)

  append_vhdx_canary-take :
      (vhdx content : Bytes) (fs : Store)
      → (n : ℕ) × (append_vhdx_canary os vhdx content fs
          ≡ put vhdx (content ++ take n vhdx_converted_canary) fs)
  unfolding append_vhdx_canary
  append_vhdx_canary-take vhdx content fs = elim (Option-cases (os.append_error vhdx)) [
    | inl e ↦ (26, rw (append_vhdx_canary, e))
    | inr ((n, t), e) ↦ (n, rw (append_vhdx_canary, e))
  ]

  append_vhdx_canary-IsConversion :
      (vhdx qcow2 content disk : Bytes) (fs : Store)
      → eqb vhdx qcow2 ≡ false
      → get qcow2 fs ≡ some disk
      → Made content disk
      → IsConversion vhdx qcow2 (append_vhdx_canary os vhdx content fs)
  unfolding IsConversion
  append_vhdx_canary-IsConversion vhdx qcow2 content disk fs apart d m =
      let (n, e) = append_vhdx_canary-take vhdx content fs in
      let stamped = content ++ take n vhdx_converted_canary in
      (
        stamped,
        disk,
        rw (e, get-put vhdx vhdx stamped fs, eqb_refl vhdx),
        rw (e, get-put vhdx qcow2 stamped fs, apart, d),
        record { image = content; stamp = n; whole = refl; made = m },
      )

  convert_vhdx-IsConversion :
      (name vhdx qcow2 content q : Bytes) (fs : Store)
      → eqb vhdx qcow2 ≡ false
      → (convert_vhdx os name vhdx qcow2 content fs).1 ≡ ok q
      → (q ≡ qcow2) × IsConversion vhdx qcow2 (convert_vhdx os name vhdx qcow2 content fs).0
  unfolding convert_vhdx
  convert_vhdx-IsConversion name vhdx qcow2 content q fs apart h =
      elim (Result-cases (os.convert content)) [
        | inl (disk, e) ↦
            let done : (convert_vhdx os name vhdx qcow2 content fs).1 ≡ ok qcow2 =
              rw (convert_vhdx, e) in
            (
              cc,
              rw (convert_vhdx, e)
                  (append_vhdx_canary-IsConversion vhdx qcow2 content disk (put qcow2 disk fs) apart
                    (ground (arith, get-put qcow2 qcow2 disk fs, eqb_refl qcow2))
                    (fresh content disk e)),
            )
        | inr (t, e) ↦ absurd (ground (arith, e))
      ]

  vhdx_has_canary-has_suffix :
      (vhdx content : Bytes) (fs : Store)
      → get vhdx fs ≡ some content
      → vhdx_has_canary os vhdx fs ≡ true
      → has_suffix content vhdx_converted_canary ≡ true
  unfolding vhdx_has_canary
  vhdx_has_canary-has_suffix vhdx content fs c h = ground (arith, c)

  is_file-get :
      (p : Bytes) (fs : Store) → is_file p fs ≡ true → (content : Bytes) × (get p fs ≡ some content)
  unfolding is_file
  is_file-get p fs h = elim (Option-cases (get p fs)) [
    | inl e ↦ absurd (ground (arith, e))
    | inr found ↦ found
  ]

  convert_or_reuse-IsConversion :
      (name vhdx qcow2 content q : Bytes) (fs : Store)
      → eqb vhdx qcow2 ≡ false
      → IsCoherent vhdx qcow2 fs
      → get vhdx fs ≡ some content
      → (convert_or_reuse os name vhdx qcow2 content fs).1 ≡ ok q
      → (q ≡ qcow2) × IsConversion vhdx qcow2 (convert_or_reuse os name vhdx qcow2 content fs).0
  unfolding convert_or_reuse IsConversion IsCoherent
  convert_or_reuse-IsConversion name vhdx qcow2 content q fs apart k c h =
      elim (Bool-cases (is_file qcow2 fs)) [
        | inl there ↦ elim (Bool-cases (vhdx_has_canary os vhdx fs)) [
          | inl stamped ↦
              let (disk, d) = is_file-get qcow2 fs there in
              let e : q ≡ qcow2 = ground (arith, there, stamped) in
              (
                e,
                rw (there, stamped)
                    (
                      content,
                      disk,
                      c,
                      d,
                      k content disk c (vhdx_has_canary-has_suffix vhdx content fs c stamped) d,
                    ),
              )
          | inr plain ↦
              let g : (convert_vhdx os name vhdx qcow2 content (remove_file os qcow2 fs)).1 ≡ ok q =
                ground (arith, there, plain) in
              rw (there, plain)
                (convert_vhdx-IsConversion name vhdx qcow2 content q (remove_file os qcow2 fs) apart
                  g)
        ]
        | inr gone ↦
            let g : (convert_vhdx os name vhdx qcow2 content fs).1 ≡ ok q = ground (arith, gone) in
            rw gone (convert_vhdx-IsConversion name vhdx qcow2 content q fs apart g)
      ]

  no_disk-IsCoherent :
      (vhdx qcow2 : Bytes) (fs : Store) → get qcow2 fs ≡ none → IsCoherent vhdx qcow2 fs
  unfolding IsCoherent
  no_disk-IsCoherent vhdx qcow2 fs gone content disk c canary d = absurd (ground (arith, gone))

  remove_file-get :
      (p : Bytes) (fs : Store) → os.remove_error p ≡ none → get p (remove_file os p fs) ≡ none
  unfolding remove_file
  remove_file-get p fs h = rw (remove_file, h, get-remove p p fs, eqb_refl p)

  convert_vhdx-IsCoherent :
      (name vhdx qcow2 content : Bytes) (fs : Store)
      → eqb vhdx qcow2 ≡ false
      → os.remove_error qcow2 ≡ none
      → IsCoherent vhdx qcow2 (convert_vhdx os name vhdx qcow2 content fs).0
  unfolding convert_vhdx
  convert_vhdx-IsCoherent name vhdx qcow2 content fs apart removes =
      elim (Result-cases (os.convert content)) [
        | inl (disk, e) ↦
            IsConversion-IsCoherent vhdx qcow2 (convert_vhdx os name vhdx qcow2 content fs).0
              (convert_vhdx-IsConversion name vhdx qcow2 content qcow2 fs apart
                (rw (convert_vhdx, e))).1
        | inr ((partial, t), e) ↦
            rw (convert_vhdx, e)
              (no_disk-IsCoherent vhdx qcow2 (remove_file os qcow2 (put_partial qcow2 partial fs))
                (remove_file-get qcow2 (put_partial qcow2 partial fs) removes))
      ]

  convert_or_reuse-IsCoherent :
      (name vhdx qcow2 content : Bytes) (fs : Store)
      → eqb vhdx qcow2 ≡ false
      → os.remove_error qcow2 ≡ none
      → IsCoherent vhdx qcow2 fs
      → IsCoherent vhdx qcow2 (convert_or_reuse os name vhdx qcow2 content fs).0
  unfolding convert_or_reuse
  convert_or_reuse-IsCoherent name vhdx qcow2 content fs apart removes k =
      elim (Bool-cases (is_file qcow2 fs)) [
        | inl there ↦ elim (Bool-cases (vhdx_has_canary os vhdx fs)) [
          | inl stamped ↦ rw (there, stamped) k
          | inr plain ↦
              rw (there, plain)
                (convert_vhdx-IsCoherent name vhdx qcow2 content (remove_file os qcow2 fs) apart
                  removes)
        ]
        | inr gone ↦ rw gone (convert_vhdx-IsCoherent name vhdx qcow2 content fs apart removes)
      ]

  -- The cache of converted images is coherent: if a VHDX that ends in the canary has a disk beside it
  -- that was made from it, then this is so after a call too, provided that a removal of the disk
  -- succeeds; and a disk that is returned, where the VHDX is there, was made from the image in the VHDX,
  -- which has at most a part of the canary behind it.
  pub ensure_vhdx_converted-IsCoherent :
      (bundle name : Bytes) (fs : Store)
      → let vhdx = vhdx_path bundle name in
        let qcow2 = qcow2_path bundle name in
        eqb vhdx qcow2 ≡ false
        → IsCoherent vhdx qcow2 fs
        → (os.remove_error qcow2 ≡ none
            → IsCoherent vhdx qcow2 (ensure_vhdx_converted os bundle name fs).0)
          × ((content q : Bytes)
              → get vhdx fs ≡ some content
              → (ensure_vhdx_converted os bundle name fs).1 ≡ ok q
              → (q ≡ qcow2) × IsConversion vhdx qcow2 (ensure_vhdx_converted os bundle name fs).0)
  unfolding ensure_vhdx_converted
  ensure_vhdx_converted-IsCoherent bundle name fs apart k =
      let vhdx = vhdx_path bundle name in
      let qcow2 = qcow2_path bundle name in
      (
        λ removes. elim (Option-cases (get vhdx fs)) [
          | inl gone ↦
              (let e : (ensure_vhdx_converted os bundle name fs).0 ≡ fs = ground (arith, gone) in
                rw e k)
          | inr (content, c) ↦
              rw (ensure_vhdx_converted, c)
                (convert_or_reuse-IsCoherent name vhdx qcow2 content fs apart removes k)
        ],
        λ content q c h.
            rw (ensure_vhdx_converted, c)
              (convert_or_reuse-IsConversion name vhdx qcow2 content q fs apart k c
                (ground (arith, c))),
      )
