-- ===== src/Native/Workspace/Choice.antt =====
-- chooseSpawnCwd of native/workspace.go.
use claude_cowork_service.Base.{
  Bytes, Dict, List, Option, [], elem, if◌then◌else◌, is_empty, none, not, some, ◌&&◌, ◌++◌, ◌∷◌,
}
use claude_cowork_service.Native.Paths.{Host}
use claude_cowork_service.Native.Workspace.{
  WsMount, eligible_workspace_mounts, ordered_cwd_candidates, resolve_claude_config_dir,
}
use claude_cowork_service.Transcript.{Lookup, extract_resume_id, find_transcript, slugify}
use claude_cowork_service.Transcript.Copy.{CopyCalls, Files, copy_transcript}
use claude_cowork_service.Rpc.Backend.{MountSpec}

-- The first candidate whose slug is one of the directories.
unfoldable pub first_with_slug : List Bytes → List Bytes → Option Bytes
unfolding slugify is_empty elem
first_with_slug dirs [] = none
first_with_slug dirs (c ∷ cs) =
    let rest = first_with_slug dirs cs in
    if not (is_empty (slugify c)) && elem (slugify c) dirs then some c else rest

-- What the choice asks of the system.
pub record System : Type 0 where
  pub host : Host
  pub lookup : Lookup
  pub copy_calls : CopyCalls

-- The transcript is under the slug `from` only: copy it under the slug of the chosen directory.
unfoldable pub heal : System → Bytes → Bytes → Bytes → Bytes → Files → Bytes × Files
unfolding slugify is_empty copy_transcript
heal sys config_dir from id chosen fs =
    if is_empty (slugify chosen)
    then (chosen, fs)
    else (chosen, (copy_transcript sys.copy_calls config_dir from (slugify chosen) id fs).0)

-- The search among the directories that hold the transcript of a resumed session.
unfoldable pub resume_in :
    System → Bytes → Bytes → Bytes → Bytes → List Bytes → List Bytes → Files → Bytes × Files
unfolding first_with_slug heal
resume_in sys config_dir id current_cwd chosen candidates [] fs = (chosen, fs)
resume_in sys config_dir id current_cwd chosen candidates (d ∷ ds) fs =
    elim (first_with_slug (d ∷ ds) (candidates ++ current_cwd ∷ [])) [
      | some c ↦ (c, fs)
      | none ↦ heal sys config_dir d id chosen fs
    ]

unfoldable pub resume : System → Bytes → Bytes → Bytes → Bytes → List Bytes → Files → Bytes × Files
unfolding find_transcript resume_in
resume sys config_dir id current_cwd chosen candidates fs =
    resume_in sys config_dir id current_cwd chosen candidates
      (find_transcript sys.lookup config_dir id) fs

-- chooseSpawnCwd once the candidates are ranked: there is one for every eligible mount, so the
-- first clause is for completeness only.
unfoldable pub choose_among :
    System → Bytes → List Bytes → Bytes → List Bytes → Files → Bytes × Files
unfolding extract_resume_id is_empty resume
choose_among sys current_cwd args config_dir [] fs = (current_cwd, fs)
choose_among sys current_cwd args config_dir (c ∷ cs) fs =
    if is_empty (extract_resume_id args)
    then (c, fs)
    else if is_empty config_dir
    then (c, fs)
    else resume sys config_dir (extract_resume_id args) current_cwd c (c ∷ cs) fs

-- chooseSpawnCwd from the eligible mounts and the config directory on.
unfoldable pub choose_from :
    System → Bytes → Bytes → List Bytes → Dict Bytes → Bytes → List WsMount → Files → Bytes × Files
unfolding ordered_cwd_candidates choose_among
choose_from sys home current_cwd args env config_dir [] fs = (current_cwd, fs)
choose_from sys home current_cwd args env config_dir (m ∷ ms) fs =
    choose_among sys current_cwd args config_dir (ordered_cwd_candidates sys.host home env (m ∷ ms))
      fs

-- chooseSpawnCwd: the directory, and the files after a transcript was copied.
unfoldable pub choose_spawn_cwd :
    System → Bytes → Bytes → List Bytes → Dict Bytes → Dict MountSpec → Files → Bytes × Files
unfolding eligible_workspace_mounts resolve_claude_config_dir choose_from
choose_spawn_cwd sys home current_cwd args env mounts fs =
    choose_from sys home current_cwd args env (resolve_claude_config_dir sys.host home env mounts)
      (eligible_workspace_mounts sys.host home mounts) fs
