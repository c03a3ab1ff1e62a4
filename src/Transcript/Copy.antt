-- ===== src/Transcript/Copy.antt =====
-- CopyTranscript of transcript/transcript.go on a store of files. What the operating system
-- decides, failures included, is an argument.
pub mod Atomic
use claude_cowork_service.Base.{
  Bool, Bytes, Dict, List, Option, Result, [], codes, elem, eqb, err, false, get, if◌then◌else◌,
  is_empty, none, not, ok, put, remove, some, true, ◌++◌, ◌||◌, ◌∷◌,
}
use claude_cowork_service.FilePath.{join}
use claude_cowork_service.Transcript.{valid_session_id}

pub record Files : Type 0 where
  pub files : Dict Bytes
  pub dirs : List Bytes

-- The outcome of each call, by its error text.
pub record CopyCalls : Type 0 where
  pub open_error : Option Bytes
  pub mkdir_error : Option Bytes
  -- os.CreateTemp: the path of the new file.
  pub temp : Result Bytes Bytes
  -- An io.Copy that fails, and what it has written by then.
  pub copy_error : Option (Bytes × Bytes)
  pub close_error : Option Bytes
  pub rename_error : Option Bytes
  -- os.Remove of the temporary file succeeds; its error is ignored.
  pub removes : Bool

abbrev pub Copied : Type 0
Copied = Files × Result Bytes Bool

-- os.Stat succeeds.
unfoldable pub exists_path : Bytes → Files → Bool
exists_path p fs = elim (get p fs.files) [ some c ↦ true | none ↦ elem p fs.dirs ]

write_file : Bytes → Bytes → Files → Files
write_file p content fs = record fs { files = put p content fs.files }

discard : CopyCalls → Bytes → Files → Files
discard os tmp fs = record fs { files = if os.removes then remove tmp fs.files else fs.files }

-- os.Rename within the file system.
rename : Bytes → Bytes → Bytes → Files → Files
rename tmp dst content fs = record fs { files = put dst content (remove tmp fs.files) }

-- From io.Copy on, with the temporary file at `tmp`.
fill_temp : CopyCalls → Bytes → Bytes → Bytes → Files → Copied
unfolding write_file discard rename
fill_temp os tmp dst content fs = elim os.copy_error [
  | some (partial, e) ↦
      (discard os tmp (write_file tmp partial fs), err (codes "copying transcript: " ++ e))
  | none ↦ elim os.close_error [
    | some e ↦
        (discard os tmp (write_file tmp content fs), err (codes "closing temp transcript: " ++ e))
    | none ↦ elim os.rename_error [
      | some e ↦ (
        discard os tmp (write_file tmp content fs),
        err (codes "renaming transcript into place: " ++ e),
      )
      | none ↦ (rename tmp dst content fs, ok true)
    ]
  ]
]

-- From os.MkdirAll on, with the source's content. The parent of the project directory is there, since
-- the source lies under it.
prepare_temp : CopyCalls → Bytes → Bytes → Bytes → Files → Copied
unfolding fill_temp write_file
prepare_temp os dst_dir dst content fs = elim os.mkdir_error [
  | some e ↦ (fs, err (codes "creating project dir: " ++ e))
  | none ↦ elim os.temp [
    | err e ↦
        (record fs { dirs = dst_dir ∷ fs.dirs }, err (codes "creating temp transcript: " ++ e))
    | ok tmp ↦ fill_temp os tmp dst content (record fs { dirs = dst_dir ∷ fs.dirs })
  ]
]

-- os.Open(src), and what is done with the opened file.
open_source : CopyCalls → Bytes → Bytes → Bytes → Files → Copied
unfolding prepare_temp
open_source os src dst_dir dst fs = elim os.open_error [
  | some e ↦ (fs, err (codes "opening source transcript: " ++ e))
  | none ↦ elim (get src fs.files) [
    | none ↦ (fs, err (codes "opening source transcript: no such file or directory"))
    | some content ↦ prepare_temp os dst_dir dst content fs
  ]
]

abbrev pub project_dir : Bytes → Bytes → Bytes
project_dir config_dir slug = join (join (config_dir ∷ (codes "projects" ∷ [])) ∷ (slug ∷ []))

abbrev pub transcript_path : Bytes → Bytes → Bytes → Bytes
transcript_path config_dir slug session_id =
    join (project_dir config_dir slug ∷ ((session_id ++ codes ".jsonl") ∷ []))

-- CopyTranscript. The quoted id that ends the first error's text is left out.
unfoldable pub copy_transcript : CopyCalls → Bytes → Bytes → Bytes → Bytes → Files → Copied
unfolding exists_path open_source
copy_transcript os config_dir from_slug to_slug session_id fs =
    if not (valid_session_id session_id)
    then (fs, err (codes "invalid session id"))
    else if is_empty from_slug || (is_empty to_slug || eqb from_slug to_slug)
    then (fs, ok false)
    else if exists_path (transcript_path config_dir to_slug session_id) fs
    then (fs, ok false)
    else open_source os (transcript_path config_dir from_slug session_id)
        (project_dir config_dir to_slug) (transcript_path config_dir to_slug session_id) fs
