-- ===== src/Vm/Artifacts/Resume.antt =====
-- The transcript of a session that is resumed in a VM (migrateTranscriptForResume of vm/native_artifacts.go).
use claude_cowork_service.Base.{
  Bytes, Dict, List, Result, [], codes, elem, err, get, if◌then◌else◌, is_empty, none, ok, some,
  ◌∷◌,
}
use claude_cowork_service.Native.Paths.{Host}
use claude_cowork_service.Rpc.Backend.{MountSpec}
use claude_cowork_service.Transcript.{Lookup, extract_resume_id, find_transcript, slugify}
use claude_cowork_service.Transcript.Copy.{CopyCalls, Files, copy_transcript}
use claude_cowork_service.Vm.Paths.{host_abs_from_shared_with_home}

-- From the search for the transcript on: it is copied unless it is where the guest looks.
copy_found : CopyCalls → Bytes → Bytes → Bytes → List Bytes → Files → Files
unfolding elem copy_transcript
copy_found os config_dir want id [] fs = fs
copy_found os config_dir want id (d ∷ dirs) fs =
    if elem want (d ∷ dirs) then fs else (copy_transcript os config_dir d want id fs).0

migrate_in : Lookup → CopyCalls → Bytes → Bytes → Bytes → Files → Files
unfolding slugify is_empty find_transcript copy_found
migrate_in look os config_dir id cwd fs =
    if is_empty (slugify cwd)
    then fs
    else copy_found os config_dir (slugify cwd) id (find_transcript look config_dir id) fs

-- migrateTranscriptForResume. Failures are logged only.
unfoldable pub migrate_transcript_for_resume :
    Lookup
    → CopyCalls
    → Host
    → Result Bytes Bytes
    → Bytes
    → List Bytes
    → Bytes
    → Dict MountSpec
    → Files
    → Files
unfolding extract_resume_id is_empty get host_abs_from_shared_with_home migrate_in
migrate_transcript_for_resume look os host user_home home args cwd mounts fs =
    let id = extract_resume_id args in
    if is_empty id then fs else elim (get (codes ".claude") mounts) [
      | none ↦ fs
      | some spec ↦
          if is_empty spec.path
          then fs
          else elim (host_abs_from_shared_with_home host user_home spec.path home) [
            | err e ↦ fs
            | ok config_dir ↦ migrate_in look os config_dir id cwd fs
          ]
    ]
