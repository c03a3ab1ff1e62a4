-- ===== src/Native/Workspace/Order.antt =====
-- The choice of the working directory does not depend on the order in which the mounts are visited.
use mathlib.Core.Path.{◌≡◌, ap₂, refl}
use claude_cowork_service.Base.{
  Bytes, Dict, List, [], arith, codes, eqb, eqb_iff, false, get, refl, ◌∷◌, ◌≡◌,
}
use claude_cowork_service.Native.Paths.{Host, resolve_subpath}
use claude_cowork_service.Native.Workspace.{
  WsMount, eligible_workspace_mounts, insert_mount, resolve_claude_config_dir,
}
use claude_cowork_service.Native.Workspace.Choice.{System, choose_from, choose_spawn_cwd}
use claude_cowork_service.Transcript.Order.{lex_leb_antisym, lex_leb_total, lex_leb_trans}
use claude_cowork_service.Transcript.Copy.{Files}
use claude_cowork_service.Rpc.Backend.{MountSpec}

-- Two visits of one map: the same entries in another order. Entries that change places have
-- different keys, as two entries of a map have.
pub data SameMap : Dict MountSpec → Dict MountSpec → Type 0 where
  here : {m : Dict MountSpec} → SameMap m m
  keep :
      {m m' : Dict MountSpec} (k : Bytes) (v : MountSpec)
      → SameMap m m'
      → SameMap ((k, v) ∷ m) ((k, v) ∷ m')
  swap :
      {m : Dict MountSpec} (j k : Bytes) (v w : MountSpec)
      → eqb j k ≡ false
      → SameMap ((j, v) ∷ ((k, w) ∷ m)) ((k, w) ∷ ((j, v) ∷ m))
  also : {m m' m'' : Dict MountSpec} → SameMap m m' → SameMap m' m'' → SameMap m m''

insert_mount_comm :
    (a b : WsMount) (ts : List WsMount)
    → eqb a.name b.name ≡ false
    → insert_mount a (insert_mount b ts) ≡ insert_mount b (insert_mount a ts)
unfolding insert_mount
insert_mount_comm a b [] ne =
    ground
      (arith, eqb_iff a.name b.name, lex_leb_total a.name b.name, lex_leb_antisym a.name b.name)
insert_mount_comm a b (t ∷ ts) ne = ground (
  arith,
  eqb_iff a.name b.name,
  lex_leb_total a.name b.name,
  lex_leb_antisym a.name b.name,
  lex_leb_total a.name t.name,
  lex_leb_total b.name t.name,
  lex_leb_trans a.name b.name t.name,
  lex_leb_trans b.name a.name t.name,
  lex_leb_trans a.name t.name b.name,
  lex_leb_trans b.name t.name a.name,
  insert_mount_comm a b ts,
)

eligible_same :
    (host : Host) (home : Bytes) {m m' : Dict MountSpec}
    → SameMap m m'
    → eligible_workspace_mounts host home m ≡ eligible_workspace_mounts host home m'
unfolding eligible_workspace_mounts
eligible_same host home here = refl
eligible_same host home (keep k v s) = rw (eligible_same host home s) refl
eligible_same host home (swap {m} j k v w ne) = ground (
  arith,
  insert_mount_comm (record { name = j; host_path = resolve_subpath host home v.path })
      (record { name = k; host_path = resolve_subpath host home w.path })
      (eligible_workspace_mounts host home m) ne,
)
eligible_same host home (also s s') = cc (eligible_same host home s, eligible_same host home s')

get_same : (key : Bytes) {m m' : Dict MountSpec} → SameMap m m' → get key m ≡ get key m'
unfolding get
get_same key here = refl
get_same key (keep k v s) = rw (get_same key s) refl
get_same key (swap j k v w ne) = ground (arith, ne, eqb_iff j key, eqb_iff k key, eqb_iff j k)
get_same key (also s s') = cc (get_same key s, get_same key s')

config_same :
    (host : Host) (home : Bytes) (env : Dict Bytes) {m m' : Dict MountSpec}
    → SameMap m m'
    → resolve_claude_config_dir host home env m ≡ resolve_claude_config_dir host home env m'
unfolding resolve_claude_config_dir
config_same host home env s = rw (resolve_claude_config_dir, get_same (codes ".claude") s) refl

-- The working directory of a spawned process, and the files after a transcript was copied for it,
-- are the same for every order in which the map of mounts is visited.
pub choose_spawn_cwd_same :
    (sys : System) (home current_cwd : Bytes) (args : List Bytes) (env : Dict Bytes)
    (m m' : Dict MountSpec) (fs : Files)
    → SameMap m m'
    → choose_spawn_cwd sys home current_cwd args env m fs
      ≡ choose_spawn_cwd sys home current_cwd args env m' fs
unfolding choose_spawn_cwd
choose_spawn_cwd_same sys home current_cwd args env m m' fs s =
    ap₂ (λ config_dir eligible. choose_from sys home current_cwd args env config_dir eligible fs)
      (config_same sys.host home env s) (eligible_same sys.host home s)
