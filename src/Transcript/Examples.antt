-- ===== src/Transcript/Examples.antt =====
-- The theorems on transcripts at a session whose directory was renamed.
use claude_cowork_service.Base.{
  All, Bytes, [], arith, codes, elem, eqb, err, false, get, if◌then◌else◌, length, ltb, map, none,
  ok, put, refl, remove, some, true, ◌∷◌, ◌≡◌, ◌≤◌,
}
use claude_cowork_service.Transcript.{slugify, valid_session_id}
use claude_cowork_service.Transcript.Slug.{IsAscii, IsSlugByte, dashed, slugify_lem}
use claude_cowork_service.Transcript.Copy.{CopyCalls, Files, copy_transcript, transcript_path}
use claude_cowork_service.Transcript.Copy.Atomic.{
  OnlyProjectDir, SameFile, copy_transcript_atomic, copy_transcript_done,
}
use claude_cowork_service.FilePath.{join}

slug_run : slugify (codes "/home/u/a b") ≡ codes "-home-u-a-b"
unfolding slugify
slug_run = refl

slugify_lem_example :
    All IsSlugByte (slugify (codes "/home/u"))
    × (length (slugify (codes "/home/u")) ≤ 200)
    × (slugify (slugify (codes "/home/u")) ≡ slugify (codes "/home/u"))
    × (All IsAscii (codes "/home/u")
        → slugify (codes "/home/u")
          ≡ (if ltb 200 (length (codes "/home/u")) then [] else map dashed (codes "/home/u")))
slugify_lem_example = slugify_lem (codes "/home/u")

abbrev no_failure : CopyCalls
no_failure = record {
  open_error = none;
  mkdir_error = none;
  temp = ok (codes "/c/projects/b/.tmp1");
  copy_error = none;
  close_error = none;
  rename_error = none;
  removes = true;
}

abbrev old_place : Bytes
old_place = codes "/c/projects/a/1.jsonl"

abbrev new_place : Bytes
new_place = codes "/c/projects/b/1.jsonl"

abbrev one_file : Files
one_file = record { files = (old_place, codes "{}") ∷ []; dirs = [] }

copied_run :
    copy_transcript no_failure (codes "/c") (codes "a") (codes "b") (codes "1") one_file ≡ (
      record {
        files = (old_place, codes "{}") ∷ ((new_place, codes "{}") ∷ []);
        dirs = codes "/c/projects/b" ∷ [];
      },
      ok true,
    )
unfolding copy_transcript valid_session_id get join elem put remove
copied_run = refl

copy_transcript_done_example :
    let fs' : Files =
      (copy_transcript no_failure (codes "/c") (codes "a") (codes "b") (codes "1") one_file).0 in
    (content : Bytes) × (get (transcript_path (codes "/c") (codes "a") (codes "1")) one_file.files
      ≡ some content)
    × (get (transcript_path (codes "/c") (codes "b") (codes "1")) fs'.files ≡ some content)
    × (get (transcript_path (codes "/c") (codes "b") (codes "1")) one_file.files ≡ none)
    × ((p : Bytes)
        → eqb (transcript_path (codes "/c") (codes "b") (codes "1")) p ≡ false
        → eqb (codes "/c/projects/b/.tmp1") p ≡ false
        → SameFile one_file fs' p)
unfolding copy_transcript valid_session_id get join elem put remove
copy_transcript_done_example =
    copy_transcript_done no_failure (codes "/c") (codes "a") (codes "b") (codes "1")
      (codes "/c/projects/b/.tmp1") one_file
      (copy_transcript no_failure (codes "/c") (codes "a") (codes "b") (codes "1") one_file).0 refl
      refl

-- The disk fills up after two bytes.
abbrev disk_full : CopyCalls
disk_full = record no_failure { copy_error = some (codes "{", codes "no space left on device") }

copy_transcript_atomic_example :
    let fs' : Files =
      (copy_transcript disk_full (codes "/c") (codes "a") (codes "b") (codes "1") one_file).0 in
    ((p : Bytes) → eqb (codes "/c/projects/b/.tmp1") p ≡ false → SameFile one_file fs' p)
    × (true ≡ true
        → get (codes "/c/projects/b/.tmp1") one_file.files ≡ none
        → get (codes "/c/projects/b/.tmp1") fs'.files ≡ none)
    × OnlyProjectDir (codes "/c") (codes "b") one_file fs'
unfolding copy_transcript valid_session_id get join elem put remove
copy_transcript_atomic_example =
    copy_transcript_atomic disk_full (codes "/c") (codes "a") (codes "b") (codes "1")
      (codes "/c/projects/b/.tmp1") one_file
      (copy_transcript disk_full (codes "/c") (codes "a") (codes "b") (codes "1") one_file).0
      (err (codes "copying transcript: no space left on device")) refl refl (λ e. ground arith)
