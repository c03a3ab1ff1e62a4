-- ===== src/Native/Examples.antt =====
-- The theorems on the native backend at a session with two folders, and at a sessions directory.
use mathlib.Core.Path.{◌≡◌, refl}
use claude_cowork_service.Base.{
  All, Bytes, Dict, List, [], arith, codes, elem, eqb, false, get, has_prefix, if◌then◌else◌, index,
  inl, inr, is_empty, none, ok, pos, refl, some, true, ℕ, ◌∷◌, ◌≡◌, ◌⊎◌,
}
use claude_cowork_service.Transcript.{find_transcript, slugify}
use claude_cowork_service.Transcript.Copy.{Files}
use claude_cowork_service.Native.Paths.{Host, canonicalize_path}
use claude_cowork_service.Native.Workspace.Choice.{System, choose_spawn_cwd, resume}
use claude_cowork_service.Native.Workspace.Order.{choose_spawn_cwd_same, swap}
use claude_cowork_service.Native.Workspace.Safety.{IsOffered, choose_spawn_cwd-IsOffered}
use claude_cowork_service.Native.Workspace.Resume.{resume_finds_transcript}
use claude_cowork_service.Native.Sessions.{is_session_running}
use claude_cowork_service.Native.Disk.{
  Disk, DiskCalls, SessionDir, belongs_to, delete_session_dirs, listed,
}
use claude_cowork_service.Native.Disk.Keep.{delete_session_dirs_keeps, is_there}
use claude_cowork_service.Native.Disk.Gone.{delete_session_dirs_done}
use claude_cowork_service.Native.Disk.Prune.{owner_of, prune_session_caches}
use claude_cowork_service.Native.Disk.Prune.Keep.{prune_session_caches_keeps}
use claude_cowork_service.Rpc.Backend.{MountSpec}
use claude_cowork_service.Native.Auth.{
  credential_keys, inject_oauth_token, inject_oauth_token_lem, injected, is_set, skipped, token_key,
}
use claude_cowork_service.Native.Cowork.{collapse_prefix, collapse_prefix_lem, doubled}
use claude_cowork_service.Native.State.{
  Op, State, apply_ops, cancel, cancels, has_sub, stops, subscribe_events, subscribe_then_cancel,
  subscribes,
}
use claude_cowork_service.Native.Backups.{prune_backups}
use claude_cowork_service.FilePath.{base, dir, join}
use claude_cowork_service.Native.Paths.Fuel.{canonicalize_path_lem}

-- No symbolic links, every directory there, and a transcript below every slug.
abbrev plain_system : System
plain_system = record {
  host = record { eval_symlinks = λ p. some p; is_dir = λ p. true };
  lookup = record { read_dir = λ p. some ((codes "-h-b", true) ∷ []); exists = λ p. true };
  copy_calls = record {
    open_error = none;
    mkdir_error = none;
    temp = ok (codes "/c/projects/-h-a/.tmp1");
    copy_error = none;
    close_error = none;
    rename_error = none;
    removes = true;
  };
}

abbrev no_files : Files
no_files = record { files = []; dirs = [] }

abbrev mount_at : Bytes → MountSpec
mount_at p = record { path = p; mode = codes "rw" }

abbrev two_mounts : Dict MountSpec
two_mounts = (codes "a", mount_at (codes "h/a")) ∷ ((codes "b", mount_at (codes "h/b")) ∷ [])

abbrev two_mounts_swapped : Dict MountSpec
two_mounts_swapped =
    (codes "b", mount_at (codes "h/b")) ∷ ((codes "a", mount_at (codes "h/a")) ∷ [])

first_mount_run :
    choose_spawn_cwd plain_system (codes "/h") (codes "/tmp") [] [] two_mounts_swapped no_files
    ≡ (codes "/h/a", no_files)
unfolding choose_spawn_cwd
first_mount_run = refl

choose_spawn_cwd_same_example :
    choose_spawn_cwd plain_system (codes "/h") (codes "/tmp") [] [] two_mounts no_files
    ≡ choose_spawn_cwd plain_system (codes "/h") (codes "/tmp") [] [] two_mounts_swapped no_files
unfolding eqb
choose_spawn_cwd_same_example =
    choose_spawn_cwd_same plain_system (codes "/h") (codes "/tmp") [] [] two_mounts
      two_mounts_swapped no_files
      (swap (codes "a") (codes "b") (mount_at (codes "h/a")) (mount_at (codes "h/b")) refl)

choose_spawn_cwd-IsOffered_example :
    let cwd : Bytes =
      (choose_spawn_cwd plain_system (codes "/h") (codes "/tmp") [] [] two_mounts no_files).0 in
    (cwd ≡ codes "/tmp") ⊎ IsOffered plain_system.host (codes "/h") two_mounts cwd
choose_spawn_cwd-IsOffered_example =
    choose_spawn_cwd-IsOffered plain_system (codes "/h") (codes "/tmp") [] [] two_mounts no_files

resume_finds_transcript_example :
    let run =
      resume plain_system
        (codes "/c")
        (codes "1")
        (codes "/tmp")
        (codes "/h/a")
        (codes "/h/a" ∷ (codes "/h/b" ∷ []))
        no_files in
    (elem (slugify run.0) (find_transcript plain_system.lookup (codes "/c") (codes "1")) ≡ true)
    × (run.1 ≡ no_files)
unfolding elem slugify is_empty find_transcript
resume_finds_transcript_example =
    resume_finds_transcript plain_system (codes "/c") (codes "1") (codes "/tmp") (codes "/h/a")
      (codes "/h/a" ∷ (codes "/h/b" ∷ [])) (codes "/h/b") no_files refl refl refl

abbrev entry : Bytes → SessionDir
entry name = record { name = name; is_dir = true; size = 7 }

-- Session s runs, session t does not, and each has a backup.
abbrev some_disk : Disk
some_disk = record {
  root = listed (
      entry (codes "s")
      ∷ (entry (codes "s.pre-stop-1") ∷ (entry (codes "t") ∷ (entry (codes "t.pre-stop-1") ∷ []))));
  sessions = record {
    processes = (codes "p", record { done = false; exit_code = pos 0 }) ∷ [];
    session_procs = (codes "s", codes "p" ∷ []) ∷ [];
  };
}

abbrev calm : DiskCalls
calm = record {
  home_error = none;
  remove_error = λ p. none;
  total_bytes = 100;
  free_bytes = 50;
  now = 1000;
  parse_time = λ s. none;
}

abbrev both : List Bytes
both = codes "s" ∷ (codes "t" ∷ [])

deleted_run : delete_session_dirs calm both some_disk ≡ (
  record some_disk { root = listed (entry (codes "s") ∷ (entry (codes "s.pre-stop-1") ∷ [])) },
  ok (record {
    deleted = codes "t" ∷ [];
    errors = (codes "s", codes "session has a running process") ∷ [];
  }),
)
unfolding delete_session_dirs
deleted_run = refl

delete_session_dirs_keeps_example :
    is_there (codes "s.pre-stop-1") (delete_session_dirs calm both some_disk).0.root
    ≡ is_there (codes "s.pre-stop-1") some_disk.root
unfolding is_session_running belongs_to
delete_session_dirs_keeps_example =
    delete_session_dirs_keeps calm both some_disk (codes "s.pre-stop-1")
      (inr (inr refl), (inl refl, tt))

delete_session_dirs_done_example :
    is_there (codes "t.pre-stop-1") (delete_session_dirs calm both some_disk).0.root ≡ false
unfolding delete_session_dirs elem belongs_to
delete_session_dirs_done_example =
    delete_session_dirs_done calm both some_disk (delete_session_dirs calm both some_disk).0
      (record {
        deleted = codes "t" ∷ [];
        errors = (codes "s", codes "session has a running process") ∷ [];
      })
      (codes "t") (codes "t.pre-stop-1") refl refl refl

prune_session_caches_keeps_example :
    is_there
      (codes "s.pre-stop-1")
      (prune_session_caches calm (pos 0) true (pos 0) some_disk).0.root
    ≡ is_there (codes "s.pre-stop-1") some_disk.root
unfolding owner_of is_session_running has_prefix eqb
prune_session_caches_keeps_example =
    prune_session_caches_keeps calm (pos 0) (pos 0) true some_disk (codes "s.pre-stop-1")
      (inr (codes "s", refl, refl))

abbrev some_env : Dict Bytes
some_env = (codes "PATH", codes "/bin") ∷ []

inject_oauth_token_lem_example :
    let r = inject_oauth_token some_env (codes "t") in
    (((why : Bytes) × (r.1 ≡ skipped why)) × (r.0 ≡ some_env))
    ⊎ ((r.1 ≡ injected)
        × (is_empty (codes "t") ≡ false)
        × All (λ k. is_set some_env k ≡ false) credential_keys
        × (get token_key r.0 ≡ some (codes "t"))
        × ((k : Bytes) → eqb token_key k ≡ false → get k r.0 ≡ get k some_env))
inject_oauth_token_lem_example = inject_oauth_token_lem some_env (codes "t")

-- /h/x, with the base three times.
collapsed_run : collapse_prefix (codes "/h/") (codes "/h/h/h/x") ≡ codes "/h/x"
unfolding collapse_prefix is_empty
collapsed_run = refl

collapse_prefix_lem_example :
    index (collapse_prefix (codes "/h/") (codes "/h/h/h/x")) (doubled (codes "/h/")) ≡ none
collapse_prefix_lem_example = collapse_prefix_lem (codes "/h/") (codes "/h/h/h/x") (omega arith)

abbrev fresh_state : State
fresh_state = record {
  memory = pos 0;
  cpus = pos 0;
  started = false;
  has_prober = false;
  subscribers = [];
  next_sub_id = 0;
}

abbrev some_ops : List Op
some_ops = subscribes ∷ subscribes ∷ cancels 1 ∷ stops ∷ []

subscribe_then_cancel_example :
    let now = apply_ops some_ops fresh_state in
    let (after, id) = subscribe_events now in
    (has_sub id now.subscribers ≡ false)
    × (has_sub id after.subscribers ≡ true)
    × ((j : ℕ) → has_sub j (cancel id after).subscribers ≡ has_sub j now.subscribers)
subscribe_then_cancel_example = subscribe_then_cancel some_ops fresh_state refl (omega arith)

abbrev three_backups : List SessionDir
three_backups =
    entry (codes "s.pre-stop-2")
    ∷ entry (codes "s.pre-stop-3")
    ∷ entry (codes "s.pre-stop-1")
    ∷ entry (codes "t.pre-stop-0")
    ∷ []

pruned_run :
    prune_backups calm (codes "s") 2 (listed three_backups)
    ≡ listed (
        entry (codes "s.pre-stop-2")
        ∷ entry (codes "s.pre-stop-3")
        ∷ entry (codes "t.pre-stop-0")
        ∷ [])
unfolding prune_backups
pruned_run = refl

abbrev only_root : Host
only_root = record {
  eval_symlinks = λ p. if eqb p (codes "/a") then some (codes "/b") else none;
  is_dir = λ p. true;
}

canonical_run : canonicalize_path only_root (codes "/a/x/y") ≡ codes "/b/x/y"
unfolding canonicalize_path eqb
canonical_run = refl

canonicalize_path_lem_example :
    canonicalize_path only_root (codes "/a/x") ≡ elim (only_root.eval_symlinks (codes "/a/x")) [
      | some resolved ↦ resolved
      | none ↦
          if eqb (dir (codes "/a/x")) (codes "/a/x")
          then codes "/a/x"
          else join (canonicalize_path only_root (dir (codes "/a/x")) ∷ base (codes "/a/x") ∷ [])
    ]
canonicalize_path_lem_example = canonicalize_path_lem only_root (codes "/a/x")
