-- ===== src/Vm/Vfs.antt =====
-- The daemon's side of the mount helper (vm/vfs.go): commands go out as lines, each with an id, and
-- the replies are matched to them. A reply channel has room for one reply; sending on a closed one,
-- or closing it twice, panics: `none`.
pub mod Send
pub mod Peer
pub mod Remote
pub mod Process
use mathlib.Core.Option
use claude_cowork_service.Base.{
  Bool, Bytes, Dict, List, Option, [], codes, elem, eqb, false, get, if◌then◌else◌, map, none, put,
  some, true, ℕ, ◌%◌, ◌+◌, ◌==◌, ◌^◌, ◌∷◌,
}
use claude_cowork_service.Decimal.{format_uint}
use claude_cowork_service.Json.{Fields, Json, bool, end, field, obj, str}
use claude_cowork_service.Guest.Message.{GuestText, member, normalize_id}

-- helperResp.
pub record HelperResp : Type 0 where
  pub ok_val : Bool
  pub error : Bytes

pub data RespChannel : Type 0 where
  waiting : RespChannel
  answered : HelperResp → RespChannel

-- The fields of VfsHelper that change while it runs.
pub record VfsClient : Type 0 where
  pub ready_fired : Bool
  pub exited : Bool
  pub next_req_id : ℕ
  -- The keys of the pending map.
  pub pending : List Bytes
  -- Every channel that was made, by the id of its command.
  pub channels : Dict RespChannel
  pub active_binds : List Bytes

-- NewVfsHelper.
unfoldable pub new_vfs_helper : VfsClient
new_vfs_helper = record {
  ready_fired = false;
  exited = false;
  next_req_id = 0;
  pending = [];
  channels = [];
  active_binds = [];
}

-- delete(v.pending, id).
unfoldable pub drop_pending : Bytes → List Bytes → List Bytes
unfolding eqb
drop_pending id [] = []
drop_pending id (j ∷ js) = let rest = drop_pending id js in if eqb j id then rest else j ∷ rest

-- `ch <- resp; close(ch)`: no channel is used again after its reply.
unfoldable pub answer_channel : Bytes → HelperResp → Dict RespChannel → Option (Dict RespChannel)
unfolding get put
answer_channel id resp chans = elim (get id chans) [
  | some waiting ↦ some (put id (answered resp) chans)
  | some (answered r) ↦ none
  | none ↦ none
]

-- An "event" member. The event virtiofsd-exit is logged only.
unfoldable pub handle_event : Json → VfsClient → VfsClient
unfolding eqb
handle_event (str name) v = if eqb name (codes "ready") then record v { ready_fired = true } else v
handle_event other v = v

abbrev pub bool_field : Option Json → Bool
bool_field (some (bool b)) = b
bool_field other = false

abbrev pub text_field : Option Json → Bytes
text_field (some (str s)) = s
text_field other = []

-- The fields "ok" and "error" of a reply. A field that is missing or of another type stays zero.
unfoldable pub resp_of : Fields → HelperResp
unfolding member
resp_of msg = record {
  ok_val = bool_field (member (codes "ok") msg);
  error = text_field (member (codes "error") msg);
}

-- An "id" member. A reply that nobody waits for is dropped.
unfoldable pub handle_reply : GuestText → Json → Fields → VfsClient → Option VfsClient
unfolding normalize_id elem drop_pending answer_channel resp_of
handle_reply text id msg v =
    if elem (normalize_id text id) v.pending
    then Option.map
        (λ chans. record v {
          pending = drop_pending (normalize_id text id) v.pending;
          channels = chans;
        })
        (answer_channel (normalize_id text id) (resp_of msg) v.channels)
    else some v

unfoldable pub handle_message : GuestText → Fields → VfsClient → Option VfsClient
unfolding member handle_event handle_reply
handle_message text msg v = elim (member (codes "event") msg) [
  | some ev ↦ some (handle_event ev v)
  | none ↦ elim (member (codes "id") msg) [ some id ↦ handle_reply text id msg v | none ↦ some v ]
]

-- handleLine, by the JSON value of the line. A null is an empty message.
unfoldable pub handle_value : GuestText → Option Json → VfsClient → Option VfsClient
unfolding handle_message
handle_value text (some (obj msg)) v = handle_message text msg v
handle_value text other v = some v

unfoldable pub handle_line : GuestText → Bytes → VfsClient → Option VfsClient
unfolding handle_value
handle_line text line v = handle_value text (text.parse line) v

-- readStdout, over the lines that the scanner gives.
unfoldable pub read_stdout : GuestText → List Bytes → VfsClient → Option VfsClient
unfolding handle_line
read_stdout text [] v = some v
read_stdout text (line ∷ lines) v = elim (handle_line text line v) [
  | none ↦ none
  | some v' ↦ read_stdout text lines v'
]

unfoldable pub reject_all : List Bytes → Dict RespChannel → Option (Dict RespChannel)
unfolding answer_channel
reject_all [] chans = some chans
reject_all (id ∷ ids) chans =
    elim (answer_channel id (record { ok_val = false; error = codes "vfs-helper exited" }) chans) [
      | none ↦ none
      | some more ↦ reject_all ids more
    ]

-- watchExit, once the process has ended.
unfoldable pub watch_exit : VfsClient → Option VfsClient
unfolding reject_all
watch_exit v =
    Option.map (λ chans. record v { exited = true; pending = []; channels = chans })
      (reject_all v.pending v.channels)

-- The registration in send: the first id is 1, also after the uint64 counter has wrapped.
unfoldable pub register : VfsClient → VfsClient × Bytes
unfolding format_uint drop_pending put
register v =
    let n = if v.next_req_id == 0 then 1 else v.next_req_id in
    let id = format_uint n in
    (
      record v {
        next_req_id = (n + 1) % 2 ^ 64;
        pending = id ∷ drop_pending id v.pending;
        channels = put id waiting v.channels;
      },
      id,
    )

-- send gives up on a command.
unfoldable pub unregister : Bytes → VfsClient → VfsClient
unfolding drop_pending
unregister id v = record v { pending = drop_pending id v.pending }

-- A command as json.Marshal writes the map: with its keys in order.
unfoldable pub bind_command : Bytes → Bytes → Bytes → Bytes → Json
bind_command id host_path rel_path mode = obj (
    field (codes "hostPath") (str host_path) (
      field (codes "id") (str id) (
        field (codes "mode") (str mode)
          (field (codes "op") (str (codes "bind")) (field (codes "relPath") (str rel_path) end)))))

unfoldable pub stop_command : Bytes → Json
stop_command id = obj (field (codes "id") (str id) (field (codes "op") (str (codes "stop")) end))
