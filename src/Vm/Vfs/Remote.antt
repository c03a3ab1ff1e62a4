-- ===== src/Vm/Vfs/Remote.antt =====
-- The daemon and the mount helper together: a bind that goes through both ends of the pipe.
use claude_cowork_service.Base.{
  Bool, Bool-cases, Bytes, List, Result, [], arith, codes, elem, eqb, eqb_refl, err, false, get,
  get-put, if◌then◌else◌, inl, inr, none, ok, put, refl, some, true, ◌++◌, ◌∷◌, ◌≡◌,
}
use claude_cowork_service.Json.{Fields, obj, str}
use claude_cowork_service.Guest.Message.{GuestText, member, normalize_id}
use claude_cowork_service.Native.Paths.{Host}
use claude_cowork_service.Vm.Paths.{host_abs_from_shared}
use claude_cowork_service.Vm.Helper.{MountCalls, VfsHelper, do_bind}
use claude_cowork_service.Vm.Helper.Requests.{handle_line}
use claude_cowork_service.Vm.Vfs.{
  HelperResp, RespChannel, VfsClient, answer_channel, answered, bind_command, drop_pending,
  handle_message, handle_reply, handle_value, read_stdout, register, resp_of, waiting,
}
use claude_cowork_service.Vm.Vfs.Peer.{
  ReadsBack, bind_reply, bind_request, helper_peer, helper_peer-bind, outcome-resp_of_bind,
  reply_fields, resp_of-bind_reply, resp_of_bind,
}
use claude_cowork_service.Vm.Vfs.Send.{
  await, bind, mode_or_rw, note_bind, outcome, replies, send, settle,
}

-- The daemon once the reply to a command is there.
abbrev answered_with : Bytes → HelperResp → VfsClient → VfsClient
answered_with id resp v = record v {
  pending = drop_pending id v.pending;
  channels = put id (answered resp) v.channels;
}

handle_reply-waiting :
    (text : GuestText) (id : Bytes) (msg : Fields) (v : VfsClient)
    → elem id v.pending ≡ true
    → get id v.channels ≡ some waiting
    → handle_reply text (str id) msg v ≡ some (answered_with id (resp_of msg) v)
unfolding handle_reply answer_channel normalize_id
handle_reply-waiting text id msg v e c = rw (e, answer_channel, c)

register-elem : (v : VfsClient) → elem (register v).1 (register v).0.pending ≡ true
unfolding register elem
register-elem v = ground (arith, eqb_refl (register v).1)

register-get : (v : VfsClient) → get (register v).1 (register v).0.channels ≡ some waiting
unfolding register
register-get v =
    let id = (register v).1 in ground (arith, get-put id id waiting v.channels, eqb_refl id)

no_event :
    (id : Bytes) (r : Result Bytes (Unit {0}))
    → member (codes "event") (reply_fields (bind_reply id r)) ≡ none
unfolding reply_fields eqb member
no_event id (ok u) = refl
no_event id (err e) = refl

has_id :
    (id : Bytes) (r : Result Bytes (Unit {0}))
    → member (codes "id") (reply_fields (bind_reply id r)) ≡ some (str id)
unfolding reply_fields eqb member
has_id id (ok u) = refl
has_id id (err e) = refl

read_stdout-bind_reply :
    (text : GuestText) (id : Bytes) (r : Result Bytes (Unit {0})) (v : VfsClient)
    → let reply = obj (reply_fields (bind_reply id r)) in
      text.parse (text.print reply) ≡ some reply
      → elem id v.pending ≡ true
      → get id v.channels ≡ some waiting
      → read_stdout text (text.print reply ∷ []) v ≡ some (answered_with id (resp_of_bind r) v)
unfolding read_stdout handle_line handle_value handle_message
read_stdout-bind_reply text id r v back e c = rw (
  read_stdout,
  handle_line,
  back,
  handle_value,
  handle_message,
  no_event id r,
  has_id id r,
  handle_reply-waiting text id (reply_fields (bind_reply id r)) v e c,
  resp_of-bind_reply id r,
)

settle-outcome :
    (id op : Bytes) (chan : RespChannel) (r : Result Bytes (Unit {0})) (h : VfsHelper)
    (v : VfsClient)
    → get id v.channels ≡ some chan
    → outcome chan ≡ some r
    → settle id op h v ≡ some (v, h, r)
unfolding settle
settle-outcome id op chan r h v c o = rw (settle, c, o)

answered-get :
    (id : Bytes) (resp : HelperResp) (v : VfsClient)
    → get id (answered_with id resp v).channels ≡ some (answered resp)
answered-get id resp v = ground (arith, get-put id id (answered resp) v.channels, eqb_refl id)

await-bind_reply :
    (text : GuestText) (id op : Bytes) (r : Result Bytes (Unit {0})) (h h' : VfsHelper)
    (v : VfsClient)
    → let reply = obj (reply_fields (bind_reply id r)) in
      text.parse (text.print reply) ≡ some reply
      → elem id v.pending ≡ true
      → get id v.channels ≡ some waiting
      → await text id op h (replies h' (text.print reply ∷ [])) v
        ≡ some (answered_with id (resp_of_bind r) v, h', r)
unfolding await
await-bind_reply text id op r h h' v back e c =
    rw (await, read_stdout-bind_reply text id r v back e c)
      (settle-outcome id op (answered (resp_of_bind r)) r h' (answered_with id (resp_of_bind r) v)
        (answered-get id (resp_of_bind r) v) (outcome-resp_of_bind r))

-- A bind command and its reply come back from their texts.
pub record Carries (text : GuestText) (id host_path rel_path mode : Bytes)
    (r : Result Bytes (Unit {0})) : Type 0 where
  pub command : ReadsBack text (bind_command id host_path rel_path mode)
  pub answer : ReadsBack text (obj (reply_fields (bind_reply id r)))

send-bind :
    (text : GuestText) (os : MountCalls) (host_path rel_path mode : Bytes) (v : VfsClient)
    (h : VfsHelper)
    → let (v', id) = register v in
      let b = do_bind os (bind_request id host_path rel_path mode) h in
      Carries text id host_path rel_path mode b.1
      → send text
          (helper_peer text os)
          (codes "bind")
          (λ i. bind_command i host_path rel_path mode)
          v
          h
        ≡ some (answered_with id (resp_of_bind b.1) v', b.0, b.1)
unfolding send
send-bind text os host_path rel_path mode v h c =
    let id = (register v).1 in
    let b = do_bind os (bind_request id host_path rel_path mode) h in
    rw (helper_peer-bind text os id host_path rel_path mode h c.command) (
      await-bind_reply text id (codes "bind") b.1 h b.0 (register v).0 c.answer.alone
        (register-elem v) (register-get v))

abbrev pub is_ok : Result Bytes (Unit {0}) → Bool
is_ok (ok u) = true
is_ok (err e) = false

noted : Bytes → Result Bytes (Unit {0}) → VfsClient → VfsClient
noted rel_path (ok u) v = record v { active_binds = v.active_binds ++ rel_path ∷ [] }
noted rel_path (err e) v = v

note_bind-some :
    (rel_path : Bytes) (r : Result Bytes (Unit {0})) (h : VfsHelper) (v : VfsClient)
    → note_bind rel_path (some (v, h, r)) ≡ some (noted rel_path r v, h, r)
unfolding note_bind noted
note_bind-some rel_path (ok u) h v = refl
note_bind-some rel_path (err e) h v = refl

drop_pending_twice :
    (id : Bytes) (js : List Bytes) → drop_pending id (drop_pending id js) ≡ drop_pending id js
unfolding drop_pending
drop_pending_twice id [] = refl
drop_pending_twice id (j ∷ js) = elim (Bool-cases (eqb j id)) [
  | inl e ↦ rw e (drop_pending_twice id js)
  | inr e ↦ rw (e, e, drop_pending_twice id js)
]

noted-answered :
    (rel_path : Bytes) (resp : HelperResp) (r : Result Bytes (Unit {0})) (v : VfsClient)
    → let (v', id) = register v in
      let after = noted rel_path r (answered_with id resp v') in
      (after.pending ≡ drop_pending id v.pending)
      × (after.active_binds ≡ (if is_ok r then v.active_binds ++ rel_path ∷ [] else v.active_binds))
unfolding noted register drop_pending
noted-answered rel_path resp (ok u) v =
    let id = (register v).1 in (rw (eqb_refl id, drop_pending_twice id v.pending), refl)
noted-answered rel_path resp (err e) v =
    let id = (register v).1 in (rw (eqb_refl id, drop_pending_twice id v.pending), refl)

-- A bind that is sent through the pipe has the result that the helper's own bind has, and the
-- helper is then in the same state: the daemon's two ends, the lines and the matching of replies to
-- commands add nothing. No command is left pending by it, and the daemon counts the path as bound
-- just when the helper said ok. The command and its reply have to come back from their JSON texts.
pub bind_remote :
    (text : GuestText) (host : Host) (user_home : Result Bytes Bytes) (os : MountCalls)
    (rel_path mode host_path : Bytes) (v : VfsClient) (h : VfsHelper)
    → elem rel_path v.active_binds ≡ false
    → host_abs_from_shared host user_home rel_path ≡ ok host_path
    → let id = (register v).1 in
      let b = do_bind os (bind_request id host_path rel_path (mode_or_rw mode)) h in
      Carries text id host_path rel_path (mode_or_rw mode) b.1
      → (v' : VfsClient) × (bind text host user_home (helper_peer text os) rel_path mode v h
          ≡ some (v', b.0, b.1))
        × (v'.pending ≡ drop_pending id v.pending)
        × (v'.active_binds
            ≡ (if is_ok b.1 then v.active_binds ++ rel_path ∷ [] else v.active_binds))
unfolding bind
bind_remote text host user_home os rel_path mode host_path v h fresh p c =
    let (v', id) = register v in
    let b = do_bind os (bind_request id host_path rel_path (mode_or_rw mode)) h in
    let resp = resp_of_bind b.1 in
    (
      noted rel_path b.1 (answered_with id resp v'),
      rw (fresh, p, send-bind text os host_path rel_path (mode_or_rw mode) v h c)
          (note_bind-some rel_path b.1 b.0 (answered_with id resp v')),
      (noted-answered rel_path resp b.1 v).0,
      (noted-answered rel_path resp b.1 v).1,
    )
