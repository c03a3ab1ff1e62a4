-- ===== src/Transcript.antt =====
-- Package transcript (transcript/transcript.go): slugs of working directories, the resume id of a
-- command line, and the search for a transcript.
pub mod Rune
pub mod Slug
pub mod Copy
pub mod Order
mod Examples
use claude_cowork_service.Base.{
  Bool, Bytes, List, Option, [], codes, drop, eqb, false, has_byte, has_prefix, if◌then◌else◌,
  is_empty, leb, length, ltb, none, not, some, suc, true, zero, ℕ, ◌&&◌, ◌++◌, ◌==◌, ◌||◌, ◌∷◌,
}
use claude_cowork_service.FilePath.{join}
use claude_cowork_service.Transcript.Rune.{rune_tail}

-- maxSlugLen.
abbrev pub max_slug_len : ℕ
max_slug_len = 200

-- The cases of the switch in Slugify, of a rune that is one byte.
unfoldable pub is_alnum : ℕ → Bool
is_alnum c = leb b'a' c && leb c b'z' || (leb b'A' c && leb c b'Z' || leb b'0' c && leb c b'9')

slug_byte : ℕ → ℕ
unfolding is_alnum
slug_byte c = if is_alnum c then c else b'-'

-- The loop of Slugify over the runes of the path; the first `n` bytes belong to a rune already seen.
slug_from : ℕ → Bytes → Bytes
unfolding rune_tail slug_byte
slug_from n [] = []
slug_from (suc n) (c ∷ s) = slug_from n s
slug_from zero (c ∷ s) = slug_byte c ∷ slug_from (rune_tail c s) s

-- Slugify.
unfoldable pub slugify : Bytes → Bytes
unfolding slug_from
slugify path = let s = slug_from 0 path in if ltb max_slug_len (length s) then [] else s

abbrev resume_flag : Bytes
resume_flag = codes "--resume"

abbrev resume_eq : Bytes
resume_eq = codes "--resume="

-- args[0], or "" when there is none.
abbrev pub head_or_empty : List Bytes → Bytes
head_or_empty [] = []
head_or_empty (a ∷ args) = a

-- ExtractResumeID.
unfoldable pub extract_resume_id : List Bytes → Bytes
unfolding eqb has_prefix
extract_resume_id [] = []
extract_resume_id (a ∷ args) =
    if eqb a resume_flag
    then head_or_empty args
    else if has_prefix a resume_eq
    then drop (length resume_eq) a
    else extract_resume_id args

-- validSessionID.
unfoldable pub valid_session_id : Bytes → Bool
unfolding is_empty eqb has_byte
valid_session_id id =
    if is_empty id || (eqb id (codes ".") || eqb id (codes ".."))
    then false
    else not (has_byte id b'/' || has_byte id b'\\')

-- The byte order on strings of sort.Strings.
unfoldable pub lex_leb : Bytes → Bytes → Bool
lex_leb [] t = true
lex_leb (a ∷ s) [] = false
lex_leb (a ∷ s) (b ∷ t) = if a == b then lex_leb s t else ltb a b

insert_sorted : Bytes → List Bytes → List Bytes
unfolding lex_leb
insert_sorted s [] = s ∷ []
insert_sorted s (t ∷ ts) = if lex_leb s t then s ∷ (t ∷ ts) else t ∷ insert_sorted s ts

-- sort.Strings.
unfoldable pub sort_strings : List Bytes → List Bytes
unfolding insert_sorted
sort_strings [] = []
sort_strings (s ∷ ss) = insert_sorted s (sort_strings ss)

-- What FindTranscript asks of the file system.
pub record Lookup : Type 0 where
  -- os.ReadDir: the names and whether each is a directory.
  pub read_dir : Bytes → Option (List (Bytes × Bool))
  -- os.Stat succeeds.
  pub exists : Bytes → Bool

transcript_name : Bytes → Bytes
transcript_name session_id = session_id ++ codes ".jsonl"

unfoldable pub holding : Lookup → Bytes → Bytes → List (Bytes × Bool) → List Bytes
unfolding transcript_name
holding fs projects_dir session_id [] = []
holding fs projects_dir session_id ((name, is_dir) ∷ es) =
    let rest = holding fs projects_dir session_id es in
    if is_dir && fs.exists (join (projects_dir ∷ (name ∷ (transcript_name session_id ∷ []))))
    then name ∷ rest
    else rest

-- FindTranscript.
unfoldable pub find_transcript : Lookup → Bytes → Bytes → List Bytes
unfolding valid_session_id is_empty holding sort_strings
find_transcript fs config_dir session_id =
    if is_empty config_dir || not (valid_session_id session_id)
    then []
    else elim (fs.read_dir (join (config_dir ∷ (codes "projects" ∷ [])))) [
      | none ↦ []
      | some es ↦
          sort_strings (holding fs (join (config_dir ∷ (codes "projects" ∷ []))) session_id es)
    ]
