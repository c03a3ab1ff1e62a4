-- ===== src/Vm/Vfs/Send.antt =====
-- send and Bind of vm/vfs.go: a command goes out as a line, and its reply is waited for.
use claude_cowork_service.Base.{
  Bytes, List, Option, Result, [], codes, elem, err, get, if◌then◌else◌, is_empty, none, ok, some,
  ◌++◌, ◌∷◌,
}
use claude_cowork_service.Json.{Json}
use claude_cowork_service.Guest.Message.{GuestText}
use claude_cowork_service.Native.Paths.{Host}
use claude_cowork_service.Vm.Paths.{host_abs_from_shared}
use claude_cowork_service.Vm.Vfs.{
  RespChannel, VfsClient, answered, bind_command, read_stdout, register, unregister, waiting,
}

-- What becomes of a command: its line is not written, no reply comes within 10 s, or the other side
-- answers with lines.
pub data Sending (W : Type 0) : Type 0 where
  write_fails : Bytes → Sending W
  times_out : W → Sending W
  replies : W → List Bytes → Sending W

-- The select of send, when the reply is there.
unfoldable pub outcome : RespChannel → Option (Result Bytes (Unit {0}))
outcome waiting = none
outcome (answered r) = some (if r.ok_val then ok tt else err r.error)

abbrev timed_out : Bytes → Bytes
timed_out op = codes "vfs-helper command timed out: " ++ op

abbrev pub Sent : Type 0 → Type 0
Sent W = Option (VfsClient × W × Result Bytes (Unit {0}))

-- The wait in send: a channel that still waits times out.
unfoldable pub settle : {W : Type 0} → Bytes → Bytes → W → VfsClient → Sent W
unfolding get outcome unregister
settle id op w v = elim (get id v.channels) [
  | none ↦ none
  | some chan ↦ elim (outcome chan) [
    | none ↦ some (unregister id v, w, err (timed_out op))
    | some r ↦ some (v, w, r)
  ]
]

-- send, from the write on; the peer is a function of the line.
unfoldable pub await : {W : Type 0} → GuestText → Bytes → Bytes → W → Sending W → VfsClient → Sent W
unfolding unregister read_stdout settle
await text id op w (write_fails e) v = some (unregister id v, w, err e)
await text id op w (times_out w') v = some (unregister id v, w', err (timed_out op))
await text id op w (replies w' lines) v = elim (read_stdout text lines v) [
  | none ↦ none
  | some v' ↦ settle id op w' v'
]

-- send. The command is given by its id.
unfoldable pub send :
    {W : Type 0}
    → GuestText
    → (Bytes → W → Sending W)
    → Bytes
    → (Bytes → Json)
    → VfsClient
    → W
    → Sent W
unfolding register await
send text peer op command v w =
    let (v', id) = register v in await text id op w (peer (text.print (command id) ++ 10 ∷ []) w) v'

-- The end of Bind.
unfoldable pub note_bind : {W : Type 0} → Bytes → Sent W → Sent W
note_bind rel_path (some (v, w, ok u)) =
    some (record v { active_binds = v.active_binds ++ rel_path ∷ [] }, w, ok u)
note_bind rel_path other = other

abbrev pub mode_or_rw : Bytes → Bytes
mode_or_rw mode = if is_empty mode then codes "rw" else mode

-- Bind.
unfoldable pub bind :
    {W : Type 0}
    → GuestText
    → Host
    → Result Bytes Bytes
    → (Bytes → W → Sending W)
    → Bytes
    → Bytes
    → VfsClient
    → W
    → Sent W
unfolding elem host_abs_from_shared is_empty note_bind send bind_command
bind text host user_home peer rel_path mode v w =
    if elem rel_path v.active_binds
    then some (v, w, ok tt)
    else elim (host_abs_from_shared host user_home rel_path) [
      | err e ↦ some (v, w, err e)
      | ok host_path ↦ note_bind rel_path (
          send text peer (codes "bind") (λ id. bind_command id host_path rel_path (mode_or_rw mode))
            v w)
    ]
