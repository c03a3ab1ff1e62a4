-- ===== src/Native/Workspace.antt =====
-- The working directory of a spawned process (native/workspace.go).
pub mod Resume
pub mod Safety
pub mod Order
pub mod Choice
use claude_cowork_service.Base.{
  Bool, Bytes, Dict, List, [], codes, elem, eqb, get, has_prefix, if◌then◌else◌, is_empty, leb,
  none, not, some, true, ℕ, ◌&&◌, ◌++◌, ◌==◌, ◌||◌, ◌∷◌,
}
use claude_cowork_service.Native.Paths.{Host, canonicalize_path, resolve_subpath}
use claude_cowork_service.FilePath.Segments.{split}
use claude_cowork_service.Transcript.{lex_leb}
use claude_cowork_service.Rpc.Backend.{MountSpec}

-- wsMount.
pub record WsMount : Type 0 where
  pub name : Bytes
  pub host_path : Bytes

-- The less function of the sort by mount name, its negation read from the other side.
insert_mount : WsMount → List WsMount → List WsMount
unfolding lex_leb
insert_mount m [] = m ∷ []
insert_mount m (t ∷ ts) = if lex_leb m.name t.name then m ∷ (t ∷ ts) else t ∷ insert_mount m ts

-- Infrastructure mounts: a name with a leading dot, and the session's uploads and outputs.
unfoldable pub is_internal : Bytes → Bool
unfolding has_prefix eqb
is_internal name =
    has_prefix name (codes ".") || (eqb name (codes "uploads") || eqb name (codes "outputs"))

-- eligibleWorkspaceMounts. The entries of the map are visited in the order of the list.
unfoldable pub eligible_workspace_mounts : Host → Bytes → Dict MountSpec → List WsMount
unfolding is_internal resolve_subpath insert_mount
eligible_workspace_mounts host home [] = []
eligible_workspace_mounts host home ((name, mount) ∷ mounts) =
    let rest = eligible_workspace_mounts host home mounts in
    let host_path = resolve_subpath host home mount.path in
    if is_internal name || not (host.is_dir host_path)
    then rest
    else insert_mount (record { name = name; host_path = host_path }) rest

-- `add` of orderedCwdCandidates: a path that is already there is not added again.
add_candidate : Bytes → List Bytes → List Bytes
unfolding elem
add_candidate p candidates = if elem p candidates then candidates else candidates ++ p ∷ []

-- The loop over the eligible mounts, with those added of which `wanted` is true.
add_matching : (Bytes → Bool) → List WsMount → List Bytes → List Bytes
unfolding add_candidate
add_matching wanted [] candidates = candidates
add_matching wanted (m ∷ ms) candidates =
    add_matching wanted ms
      (if wanted m.host_path then add_candidate m.host_path candidates else candidates)

is_space : ℕ → Bool
is_space c = c == b' ' || leb 9 c && leb c 13

trim_left : Bytes → Bytes
unfolding is_space
trim_left [] = []
trim_left (c ∷ s) = if is_space c then trim_left s else c ∷ s

trim_right : Bytes → Bytes
unfolding is_space is_empty
trim_right [] = []
trim_right (c ∷ s) = let rest = trim_right s in if is_empty rest && is_space c then [] else c ∷ rest

-- strings.TrimSpace, of the ASCII spaces.
unfoldable pub trim_space : Bytes → Bytes
unfolding trim_left trim_right
trim_space s = trim_right (trim_left s)

-- The mount at a host path is what an entry of the hint asks for.
is_wanted : Host → Bytes → Bytes → Bytes → Bool
unfolding eqb has_prefix resolve_subpath canonicalize_path
is_wanted host home entry host_path =
    let want = if has_prefix entry (codes "/") then entry else resolve_subpath host home entry in
    eqb host_path want || eqb (canonicalize_path host host_path) (canonicalize_path host want)

-- The loop over the entries of the hint.
add_hinted : Host → Bytes → List Bytes → List WsMount → List Bytes → List Bytes
unfolding add_matching is_empty is_wanted trim_space
add_hinted host home [] eligible candidates = candidates
add_hinted host home (raw ∷ entries) eligible candidates =
    let entry = trim_space raw in
    add_hinted host home entries eligible (
      if is_empty entry
      then candidates
      else add_matching (is_wanted host home entry) eligible candidates)

-- env[k], with "" for a missing key.
unfoldable pub get_env : Bytes → Dict Bytes → Bytes
unfolding get
get_env k env = elim (get k env) [ some v ↦ v | none ↦ [] ]

abbrev pub hint_key : Bytes
hint_key = codes "CLAUDE_CODE_WORKSPACE_HOST_PATHS"

-- orderedCwdCandidates.
unfoldable pub ordered_cwd_candidates : Host → Bytes → Dict Bytes → List WsMount → List Bytes
unfolding add_hinted add_matching get_env is_empty split
ordered_cwd_candidates host home env eligible =
    add_matching (λ p. true) eligible
      (if is_empty (get_env hint_key env)
        then []
        else add_hinted host home (split b'|' (get_env hint_key env)) eligible [])

-- resolveClaudeConfigDir.
unfoldable pub resolve_claude_config_dir : Host → Bytes → Dict Bytes → Dict MountSpec → Bytes
unfolding get_env get is_empty resolve_subpath
resolve_claude_config_dir host home env mounts = elim (get (codes ".claude") mounts) [
  | none ↦ get_env (codes "CLAUDE_CONFIG_DIR") env
  | some m ↦
      if is_empty m.path
      then get_env (codes "CLAUDE_CONFIG_DIR") env
      else resolve_subpath host home m.path
]
