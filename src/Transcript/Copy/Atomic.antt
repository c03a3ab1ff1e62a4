-- ===== src/Transcript/Copy/Atomic.antt =====
-- A transcript arrives whole or not at all, and nothing is overwritten.
use claude_cowork_service.Base.{
  Bool, Bool-cases, Bytes, Dict, Option-cases, Result, Result-cases, ap, arith, eqb, eqb_refl,
  false, get, get-put, get-remove, inl, inr, is_empty, none, not, ok, put, refl, remove, some,
  subst, true, ◌||◌, ◌∙◌, ◌∷◌, ◌≡◌, ◌≢◌, ◌⊎◌,
}
use claude_cowork_service.Transcript.{valid_session_id}
use claude_cowork_service.Transcript.Copy.{
  CopyCalls, Files, copy_transcript, discard, exists_path, fill_temp, open_source, prepare_temp,
  project_dir, rename, transcript_path, write_file,
}

-- The file at a path is the same in both stores.
abbrev pub SameFile : Files → Files → Bytes → Type 0
SameFile fs fs' p = get p fs'.files ≡ get p fs.files

fill_temp_done :
    (os : CopyCalls) (tmp dst content : Bytes) (fs fs' : Files)
    → fill_temp os tmp dst content fs ≡ (fs', ok true)
    → fs'.files ≡ put dst content (remove tmp fs.files)
unfolding fill_temp rename
fill_temp_done os tmp dst content fs fs' h = ground arith

prepare_temp_done :
    (os : CopyCalls) (tmp dst_dir dst content : Bytes) (fs fs' : Files)
    → os.temp ≡ ok tmp
    → prepare_temp os dst_dir dst content fs ≡ (fs', ok true)
    → fs'.files ≡ put dst content (remove tmp fs.files)
unfolding prepare_temp
prepare_temp_done os tmp dst_dir dst content fs fs' t h =
    ground (arith, fill_temp_done os tmp dst content)

open_source_done :
    (os : CopyCalls) (tmp src dst_dir dst : Bytes) (fs fs' : Files)
    → os.temp ≡ ok tmp
    → open_source os src dst_dir dst fs ≡ (fs', ok true)
    → (content : Bytes) × (get src fs.files ≡ some content)
      × (fs'.files ≡ put dst content (remove tmp fs.files))
unfolding open_source
open_source_done os tmp src dst_dir dst fs fs' t h = elim (Option-cases (get src fs.files)) [
  | inl e ↦ absurd (ground (arith, e))
  | inr (c, e) ↦ (c, e, ground (arith, e, prepare_temp_done os tmp dst_dir dst c fs fs' t))
]

put-remove_others :
    (tmp dst content : Bytes) (m : Dict Bytes) (p : Bytes)
    → eqb dst p ≡ false
    → eqb tmp p ≡ false
    → get p (put dst content (remove tmp m)) ≡ get p m
put-remove_others tmp dst content m p a b =
    ground (arith, a, b, get-put dst p content (remove tmp m), get-remove tmp p m)

-- When the copy reports true, the destination, at which there was nothing, holds the source's
-- content, and every other path but that of the temporary file holds what it held.
pub copy_transcript_done :
    (os : CopyCalls) (config_dir from_slug to_slug session_id tmp : Bytes) (fs fs' : Files)
    → os.temp ≡ ok tmp
    → copy_transcript os config_dir from_slug to_slug session_id fs ≡ (fs', ok true)
    → let dst = transcript_path config_dir to_slug session_id in
      (content : Bytes) × (get (transcript_path config_dir from_slug session_id) fs.files
        ≡ some content)
      × (get dst fs'.files ≡ some content)
      × (get dst fs.files ≡ none)
      × ((p : Bytes) → eqb dst p ≡ false → eqb tmp p ≡ false → SameFile fs fs' p)
unfolding copy_transcript exists_path
copy_transcript_done os config_dir from_slug to_slug session_id tmp fs fs' t h =
    let src : Bytes = transcript_path config_dir from_slug session_id in
    let dst : Bytes = transcript_path config_dir to_slug session_id in
    let opened : open_source os src (project_dir config_dir to_slug) dst fs ≡ (fs', ok true) =
      ground arith in
    let absent : get dst fs.files ≡ none = ground arith in
    let found = open_source_done os tmp src (project_dir config_dir to_slug) dst fs fs' t opened in
    let written : get dst (put dst (found.0) (remove tmp fs.files)) ≡ some (found.0) =
      ground (arith, get-put dst dst (found.0) (remove tmp fs.files), eqb_refl dst) in
    (
      found.0,
      found.1,
      rw found.2 written,
      absent,
      λ p a b. rw (found.2) (put-remove_others tmp dst (found.0) fs.files p a b),
    )

fill_temp_failed :
    (os : CopyCalls) (tmp dst content : Bytes) (fs fs' : Files) (r : Result Bytes Bool)
    → fill_temp os tmp dst content fs ≡ (fs', r)
    → r ≢ ok true
    → (c : Bytes) × (fs' ≡ discard os tmp (write_file tmp c fs))
unfolding fill_temp
fill_temp_failed os tmp dst content fs fs' r h ne = elim (Option-cases os.copy_error) [
  | inl e ↦ (content, ground (arith, e))
  | inr (partial, e) ↦ (partial.0, ground (arith, e))
]

-- The temporary file holds what it held before, or nothing; every other path is unchanged.
Cleaned : CopyCalls → Bytes → Files → Files → Type 0
Cleaned os tmp fs fs' =
    ((p : Bytes) → eqb tmp p ≡ false → SameFile fs fs' p)
    × (os.removes ≡ true → get tmp fs.files ≡ none → get tmp fs'.files ≡ none)

discard_lem :
    (os : CopyCalls) (tmp c : Bytes) (fs : Files)
    → Cleaned os tmp fs (discard os tmp (write_file tmp c fs))
unfolding Cleaned discard write_file
discard_lem os tmp c fs = (
  λ p other. ground (arith, other, get-put tmp p c fs.files, get-remove tmp p (put tmp c fs.files)),
  λ removes fresh. ground (arith, eqb_refl tmp, get-remove tmp tmp (put tmp c fs.files)),
)

fill_temp-Cleaned :
    (os : CopyCalls) (tmp dst content : Bytes) (fs fs' : Files) (r : Result Bytes Bool)
    → fill_temp os tmp dst content fs ≡ (fs', r)
    → r ≢ ok true
    → Cleaned os tmp fs fs'
fill_temp-Cleaned os tmp dst content fs fs' r h ne =
    let found = fill_temp_failed os tmp dst content fs fs' r h ne in
    rw found.1 (discard_lem os tmp found.0 fs)

untouched-Cleaned :
    (os : CopyCalls) (tmp : Bytes) (fs fs' : Files) → fs'.files ≡ fs.files → Cleaned os tmp fs fs'
unfolding Cleaned
untouched-Cleaned os tmp fs fs' e =
    (λ p other. ap (λ m. get p m) e, λ removes fresh. ap (λ m. get tmp m) e ∙ fresh)

prepare_temp-Cleaned :
    (os : CopyCalls) (tmp dst_dir dst content : Bytes) (fs fs' : Files) (r : Result Bytes Bool)
    → os.temp ≡ ok tmp
    → prepare_temp os dst_dir dst content fs ≡ (fs', r)
    → r ≢ ok true
    → Cleaned os tmp fs fs'
unfolding prepare_temp Cleaned
prepare_temp-Cleaned os tmp dst_dir dst content fs fs' r t h ne =
    elim (Option-cases os.mkdir_error) [
      | inl e ↦
          fill_temp-Cleaned os tmp dst content (record fs { dirs = dst_dir ∷ fs.dirs }) fs' r
            (ground (arith, e, t)) ne
      | inr (x, e) ↦ untouched-Cleaned os tmp fs fs' (ground (arith, e))
    ]

open_source-Cleaned :
    (os : CopyCalls) (tmp src dst_dir dst : Bytes) (fs fs' : Files) (r : Result Bytes Bool)
    → os.temp ≡ ok tmp
    → open_source os src dst_dir dst fs ≡ (fs', r)
    → r ≢ ok true
    → Cleaned os tmp fs fs'
unfolding open_source
open_source-Cleaned os tmp src dst_dir dst fs fs' r t h ne = elim (Option-cases os.open_error) [
  | inl e ↦ elim (Option-cases (get src fs.files)) [
    | inl g ↦ untouched-Cleaned os tmp fs fs' (ground (arith, e, g))
    | inr (c, g) ↦ prepare_temp-Cleaned os tmp dst_dir dst c fs fs' r t (ground (arith, e, g)) ne
  ]
  | inr (x, e) ↦ untouched-Cleaned os tmp fs fs' (ground (arith, e))
]

-- No directory is gone, and none is new but the project's.
abbrev pub OnlyProjectDir : Bytes → Bytes → Files → Files → Type 0
OnlyProjectDir config_dir slug fs fs' =
    (fs'.dirs ≡ fs.dirs) ⊎ (fs'.dirs ≡ project_dir config_dir slug ∷ fs.dirs)

fill_temp-dirs :
    (os : CopyCalls) (tmp dst content : Bytes) (fs : Files)
    → (fill_temp os tmp dst content fs).0.dirs ≡ fs.dirs
unfolding fill_temp discard write_file rename
fill_temp-dirs os tmp dst content fs = ground arith

prepare_temp-dirs :
    (os : CopyCalls) (dst_dir dst content : Bytes) (fs : Files)
    → ((prepare_temp os dst_dir dst content fs).0.dirs ≡ fs.dirs)
      ⊎ ((prepare_temp os dst_dir dst content fs).0.dirs ≡ dst_dir ∷ fs.dirs)
unfolding prepare_temp
prepare_temp-dirs os dst_dir dst content fs = elim (Option-cases os.mkdir_error) [
  | inr (x, e) ↦ rw e (inl refl)
  | inl e ↦ elim (Result-cases os.temp) [
    | inr (x, t) ↦ rw (e, t) (inr refl)
    | inl (tmp, t) ↦
        rw (e, t) (inr (fill_temp-dirs os tmp dst content (record fs { dirs = dst_dir ∷ fs.dirs })))
  ]
]

open_source-dirs :
    (os : CopyCalls) (src dst_dir dst : Bytes) (fs : Files)
    → ((open_source os src dst_dir dst fs).0.dirs ≡ fs.dirs)
      ⊎ ((open_source os src dst_dir dst fs).0.dirs ≡ dst_dir ∷ fs.dirs)
unfolding open_source
open_source-dirs os src dst_dir dst fs = elim (Option-cases os.open_error) [
  | inr (x, e) ↦ rw (open_source, e) (inl refl)
  | inl e ↦ elim (Option-cases (get src fs.files)) [
    | inl g ↦ rw (open_source, e, g) (inl refl)
    | inr (c, g) ↦ rw (open_source, e, g) (prepare_temp-dirs os dst_dir dst c fs)
  ]
]

-- When a temporary file is to be had and the copy reports anything but true, an error at any call
-- included, no file but the temporary one has changed; the temporary file is gone, if it was not
-- there before and can be removed; and no directory is gone or new, but that the project's may have
-- been created, which is then left behind.
pub copy_transcript_atomic :
    (os : CopyCalls) (config_dir from_slug to_slug session_id tmp : Bytes) (fs fs' : Files)
    (r : Result Bytes Bool)
    → os.temp ≡ ok tmp
    → copy_transcript os config_dir from_slug to_slug session_id fs ≡ (fs', r)
    → r ≢ ok true
    → ((p : Bytes) → eqb tmp p ≡ false → SameFile fs fs' p)
      × (os.removes ≡ true → get tmp fs.files ≡ none → get tmp fs'.files ≡ none)
      × OnlyProjectDir config_dir to_slug fs fs'
unfolding copy_transcript Cleaned
copy_transcript_atomic os config_dir from_slug to_slug session_id tmp fs fs' r t h ne =
    let src : Bytes = transcript_path config_dir from_slug session_id in
    let dst : Bytes = transcript_path config_dir to_slug session_id in
    let early : Bool =
      not (valid_session_id session_id)
      || (is_empty from_slug
          || (is_empty to_slug || eqb from_slug to_slug)
          || exists_path dst fs) in
    elim (Bool-cases early) [
      | inl e ↦
          let clean = untouched-Cleaned os tmp fs fs' (ground (arith, e)) in
          (clean.0, clean.1, inl (ground (arith, e)))
      | inr e ↦
          let dst_dir = project_dir config_dir to_slug in
          let opened : open_source os src dst_dir dst fs ≡ (fs', r) = ground (arith, e) in
          let clean = open_source-Cleaned os tmp src dst_dir dst fs fs' r t opened ne in
          (
            clean.0,
            clean.1,
            subst (λ c. (c.0.dirs ≡ fs.dirs) ⊎ (c.0.dirs ≡ dst_dir ∷ fs.dirs)) opened
                (open_source-dirs os src dst_dir dst fs),
          )
    ]
