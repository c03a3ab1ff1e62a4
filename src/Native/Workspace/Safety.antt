-- ===== src/Native/Workspace/Safety.antt =====
-- What directory can be chosen.
use claude_cowork_service.Base.{
  All, All-append, Bool, Bool-cases, Bytes, Dict, List, Option-cases, [], arith, elem, false, inl,
  inr, is_empty, not, refl, some, subst, true, ◌&&◌, ◌++◌, ◌||◌, ◌∷◌, ◌≡◌, ◌⊎◌,
}
use claude_cowork_service.Native.Paths.{Host, resolve_subpath}
use claude_cowork_service.Native.Workspace.{
  WsMount, add_candidate, add_hinted, add_matching, eligible_workspace_mounts, get_env, hint_key,
  insert_mount, is_internal, is_wanted, ordered_cwd_candidates, resolve_claude_config_dir,
  trim_space,
}
use claude_cowork_service.Native.Workspace.Choice.{
  System, choose_among, choose_from, choose_spawn_cwd, first_with_slug, heal, resume, resume_in,
}
use claude_cowork_service.Transcript.{extract_resume_id, find_transcript, lex_leb, slugify}
use claude_cowork_service.Transcript.Copy.{Files}
use claude_cowork_service.Rpc.Backend.{MountSpec}
use claude_cowork_service.FilePath.Segments.{split}

-- An entry of a map.
pub data Entry (name : Bytes) (mount : MountSpec) : Dict MountSpec → Type 0 where
  first : {m : Dict MountSpec} → Entry name mount ((name, mount) ∷ m)
  later :
      {m : Dict MountSpec} {e : Bytes × MountSpec} → Entry name mount m → Entry name mount (e ∷ m)

-- The path is the resolved host path of a mount that is not internal, and a directory.
abbrev pub IsOffered : Host → Bytes → Dict MountSpec → Bytes → Type 0
IsOffered host home mounts p =
    (name : Bytes) × (mount : MountSpec) × Entry name mount mounts
    × (is_internal name ≡ false)
    × (p ≡ resolve_subpath host home mount.path)
    × (host.is_dir p ≡ true)

AllOffered : (Bytes → Type 0) → List WsMount → Type 0
AllOffered P ms = All (λ (m : WsMount). P m.host_path) ms

insert_mount-AllOffered :
    (P : Bytes → Type 0) (m : WsMount) (ms : List WsMount)
    → P m.host_path
    → AllOffered P ms
    → AllOffered P (insert_mount m ms)
unfolding AllOffered insert_mount
insert_mount-AllOffered P m [] p ps = (p, tt)
insert_mount-AllOffered P m (t ∷ ts) p ps = elim (Bool-cases (lex_leb m.name t.name)) [
  | inl e ↦ rw e (p, ps)
  | inr e ↦ rw e (ps.0, insert_mount-AllOffered P m ts p ps.1)
]

AllOffered-imp :
    {P Q : Bytes → Type 0} (ms : List WsMount)
    → ((p : Bytes) → P p → Q p)
    → AllOffered P ms
    → AllOffered Q ms
unfolding AllOffered
AllOffered-imp [] f ps = tt
AllOffered-imp (m ∷ ms) f ps = (f m.host_path ps.0, AllOffered-imp ms f ps.1)

eligible-AllOffered :
    (host : Host) (home : Bytes) (mounts : Dict MountSpec)
    → AllOffered (IsOffered host home mounts) (eligible_workspace_mounts host home mounts)
unfolding eligible_workspace_mounts AllOffered
eligible-AllOffered host home [] = tt
eligible-AllOffered host home ((name, mount) ∷ mounts) =
    let hp : Bytes = resolve_subpath host home mount.path in
    let rest : AllOffered (IsOffered host home ((name, mount) ∷ mounts))
        (eligible_workspace_mounts host home mounts) =
      AllOffered-imp (eligible_workspace_mounts host home mounts)
        (λ p o. (o.0, o.1, later o.2, o.3, o.4, o.5)) (eligible-AllOffered host home mounts) in
    elim (Bool-cases (is_internal name || not (host.is_dir hp))) [
      | inl e ↦ rw e rest
      | inr e ↦ rw e (
          insert_mount-AllOffered (IsOffered host home ((name, mount) ∷ mounts))
            (record { name = name; host_path = hp }) (eligible_workspace_mounts host home mounts)
            (name, mount, first, ground (arith, e), refl, ground (arith, e)) rest)
    ]

choose_among_nil :
    (sys : System) (current_cwd : Bytes) (args : List Bytes) (config_dir : Bytes) (fs : Files)
    → choose_among sys current_cwd args config_dir [] fs ≡ (current_cwd, fs)
unfolding choose_among
choose_among_nil sys current_cwd args config_dir fs = refl

choose_among-cases :
    (sys : System) (current_cwd : Bytes) (args : List Bytes) (config_dir c : Bytes)
    (cs : List Bytes) (fs : Files)
    → (choose_among sys current_cwd args config_dir (c ∷ cs) fs ≡ (c, fs))
      ⊎ (choose_among sys current_cwd args config_dir (c ∷ cs) fs
          ≡ resume sys config_dir (extract_resume_id args) current_cwd c (c ∷ cs) fs)
unfolding choose_among
choose_among-cases sys current_cwd args config_dir c cs fs = ground arith

module _ (P : Bytes → Type 0) where
  add_candidate-All : (p : Bytes) (cs : List Bytes) → P p → All P cs → All P (add_candidate p cs)
  unfolding add_candidate
  add_candidate-All p cs h hs = elim (Bool-cases (elem p cs)) [
    | inl e ↦ rw e hs
    | inr e ↦ rw e (All-append P cs (p ∷ []) hs (h, tt))
  ]

  add_matching-All :
      (wanted : Bytes → Bool) (ms : List WsMount) (cs : List Bytes)
      → AllOffered P ms
      → All P cs
      → All P (add_matching wanted ms cs)
  unfolding add_matching AllOffered
  add_matching-All wanted [] cs ps hs = hs
  add_matching-All wanted (m ∷ ms) cs ps hs = elim (Bool-cases (wanted m.host_path)) [
    | inl e ↦ rw e (
        add_matching-All wanted ms (add_candidate m.host_path cs) ps.1
          (add_candidate-All m.host_path cs ps.0 hs))
    | inr e ↦ rw e (add_matching-All wanted ms cs ps.1 hs)
  ]

  add_hinted-All :
      (host : Host) (home : Bytes) (entries : List Bytes) (ms : List WsMount) (cs : List Bytes)
      → AllOffered P ms
      → All P cs
      → All P (add_hinted host home entries ms cs)
  unfolding add_hinted
  add_hinted-All host home [] ms cs ps hs = hs
  add_hinted-All host home (raw ∷ entries) ms cs ps hs =
      elim (Bool-cases (is_empty (trim_space raw))) [
        | inl e ↦ rw e (add_hinted-All host home entries ms cs ps hs)
        | inr e ↦ rw e (
            add_hinted-All host home entries ms
              (add_matching (is_wanted host home (trim_space raw)) ms cs) ps
              (add_matching-All (is_wanted host home (trim_space raw)) ms cs ps hs))
      ]

  candidates-All :
      (host : Host) (home : Bytes) (env : Dict Bytes) (ms : List WsMount)
      → AllOffered P ms
      → All P (ordered_cwd_candidates host home env ms)
  unfolding ordered_cwd_candidates
  candidates-All host home env ms ps = elim (Bool-cases (is_empty (get_env hint_key env))) [
    | inl e ↦ rw e (add_matching-All (λ p. true) ms [] ps tt)
    | inr e ↦ rw e (
        add_matching-All (λ p. true) ms
          (add_hinted host home (split b'|' (get_env hint_key env)) ms []) ps
          (add_hinted-All host home (split b'|' (get_env hint_key env)) ms [] ps tt))
  ]

  first_with_slug-All :
      (dirs cs : List Bytes) (c : Bytes) → All P cs → first_with_slug dirs cs ≡ some c → P c
  unfolding first_with_slug
  first_with_slug-All dirs [] c hs h = absurd (ground arith)
  first_with_slug-All dirs (d ∷ cs) c hs h =
      elim (Bool-cases (not (is_empty (slugify d)) && elem (slugify d) dirs)) [
        | inl e ↦ subst P {x = d} {y = c} (ground (arith, e)) hs.0
        | inr e ↦ first_with_slug-All dirs cs c hs.1 (ground (arith, e))
      ]

  heal_keeps_choice :
      (sys : System) (config_dir from id chosen : Bytes) (fs : Files)
      → (heal sys config_dir from id chosen fs).0 ≡ chosen
  unfolding heal
  heal_keeps_choice sys config_dir from id chosen fs = ground arith

  resume_in-choice :
      (sys : System) (config_dir id current_cwd chosen : Bytes) (cs ds : List Bytes) (fs : Files)
      → P current_cwd
      → P chosen
      → All P cs
      → P (resume_in sys config_dir id current_cwd chosen cs ds fs).0
  unfolding resume_in
  resume_in-choice sys config_dir id current_cwd chosen cs [] fs p q hs = q
  resume_in-choice sys config_dir id current_cwd chosen cs (d ∷ ds) fs p q hs =
      elim (Option-cases (first_with_slug (d ∷ ds) (cs ++ current_cwd ∷ []))) [
        | inl e ↦ rw (resume_in, e, heal_keeps_choice sys config_dir d id chosen fs) q
        | inr (c, e) ↦
            rw (resume_in, e)
              (first_with_slug-All (d ∷ ds) (cs ++ current_cwd ∷ []) c
                (All-append P cs (current_cwd ∷ []) hs (p, tt)) e)
      ]

  resume-choice :
      (sys : System) (config_dir id current_cwd chosen : Bytes) (cs : List Bytes) (fs : Files)
      → P current_cwd
      → P chosen
      → All P cs
      → P (resume sys config_dir id current_cwd chosen cs fs).0
  unfolding resume
  resume-choice sys config_dir id current_cwd chosen cs fs p q hs =
      resume_in-choice sys config_dir id current_cwd chosen cs
        (find_transcript sys.lookup config_dir id) fs p q hs

  choose_among-choice :
      (sys : System) (current_cwd : Bytes) (args : List Bytes) (config_dir : Bytes)
      (cs : List Bytes) (fs : Files)
      → P current_cwd
      → All P cs
      → P (choose_among sys current_cwd args config_dir cs fs).0
  choose_among-choice sys current_cwd args config_dir [] fs p hs =
      rw (choose_among_nil sys current_cwd args config_dir fs) p
  choose_among-choice sys current_cwd args config_dir (c ∷ cs) fs p hs =
      elim (choose_among-cases sys current_cwd args config_dir c cs fs) [
        | inl e ↦ rw e (hs.0)
        | inr e ↦ rw e (
            resume-choice sys config_dir (extract_resume_id args) current_cwd c (c ∷ cs) fs p (hs.0)
              hs)
      ]

  choose_from-choice :
      (sys : System) (home current_cwd : Bytes) (args : List Bytes) (env : Dict Bytes)
      (config_dir : Bytes) (ms : List WsMount) (fs : Files)
      → P current_cwd
      → AllOffered P ms
      → P (choose_from sys home current_cwd args env config_dir ms fs).0
  unfolding choose_from
  choose_from-choice sys home current_cwd args env config_dir [] fs p ps = p
  choose_from-choice sys home current_cwd args env config_dir (m ∷ ms) fs p ps =
      choose_among-choice sys current_cwd args config_dir
        (ordered_cwd_candidates sys.host home env (m ∷ ms)) fs p
        (candidates-All sys.host home env (m ∷ ms) ps)

-- The chosen directory is the one asked for, or the resolved host path of a mount that is not
-- internal, and then it exists as a directory: a path named in the environment alone, or a
-- transcript found, can bring in no other.
pub choose_spawn_cwd-IsOffered :
    (sys : System) (home current_cwd : Bytes) (args : List Bytes) (env : Dict Bytes)
    (mounts : Dict MountSpec) (fs : Files)
    → let cwd = (choose_spawn_cwd sys home current_cwd args env mounts fs).0 in
      (cwd ≡ current_cwd) ⊎ IsOffered sys.host home mounts cwd
unfolding choose_spawn_cwd
choose_spawn_cwd-IsOffered sys home current_cwd args env mounts fs =
    let P : Bytes → Type 0 = λ p. (p ≡ current_cwd) ⊎ IsOffered sys.host home mounts p in
    choose_from-choice P sys home current_cwd args env
      (resolve_claude_config_dir sys.host home env mounts)
      (eligible_workspace_mounts sys.host home mounts) fs (inl refl)
      (AllOffered-imp (eligible_workspace_mounts sys.host home mounts) (λ p o. inr o)
        (eligible-AllOffered sys.host home mounts))
