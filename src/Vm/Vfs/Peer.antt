-- ===== src/Vm/Vfs/Peer.antt =====
-- The mount helper as the peer of the daemon: its answers to the lines of bind commands.
use claude_cowork_service.Vm.Helper.Requests
use claude_cowork_service.Base.{
  Bytes, Option, Result, [], codes, eqb, err, false, is_empty, map, none, ok, refl, some, true,
  ◌++◌, ◌∷◌, ◌≡◌,
}
use claude_cowork_service.Json.{Fields, Json, bool, end, field, obj, str}
use claude_cowork_service.Json.Decode.{decode}
use claude_cowork_service.Guest.Message.{GuestText, member}
use claude_cowork_service.Vm.Helper.{Bound, HelperRequest, MountCalls, VfsHelper, do_bind}
use claude_cowork_service.Vm.Helper.Requests.{
  HelperReply, failed_with, handle_decoded, handle_line, handle_request, handle_text, id_value,
  no_request, reply_to_bind, request_fields, succeeded, trim_line,
}
use claude_cowork_service.Vm.Vfs.{HelperResp, answered, bind_command, resp_of}
use claude_cowork_service.Vm.Vfs.Send.{Sending, outcome, replies}

-- The map that handleLine of vm/helper.go has printed, with its keys in order.
abbrev with_id : Option Json → Fields → Fields
with_id none rest = rest
with_id (some id) rest = field (codes "id") id rest

abbrev with_error : Option Bytes → Fields → Fields
with_error none rest = rest
with_error (some e) rest = field (codes "error") (str e) rest

unfoldable pub reply_fields : HelperReply → Fields
reply_fields r = with_error r.error (with_id r.id (field (codes "ok") (bool r.ok_field) end))

-- The helper as the daemon's peer: emit writes each reply on a line.
unfoldable pub helper_peer : GuestText → MountCalls → Bytes → VfsHelper → Sending VfsHelper
unfolding Requests.handle_line reply_fields
helper_peer text os line h =
    let (h', rs) = Requests.handle_line text.parse os line h in
    replies h' (map (λ r. text.print (obj (reply_fields r))) rs)

-- A value that comes back from its text, which stands on a line.
pub record ReadsBack (text : GuestText) (v : Json) : Type 0 where
  pub not_blank : is_empty (trim_line (text.print v ++ 10 ∷ [])) ≡ false
  pub in_line : text.parse (trim_line (text.print v ++ 10 ∷ [])) ≡ some v
  pub alone : text.parse (text.print v) ≡ some v

abbrev pub bind_request : Bytes → Bytes → Bytes → Bytes → HelperRequest
bind_request id host_path rel_path mode = record {
  id = str id;
  op = codes "bind";
  host_path = host_path;
  rel_path = rel_path;
  mode = mode;
}

pub decode-bind_command :
    (os : MountCalls) (id host_path rel_path mode : Bytes)
    → decode (request_fields os) no_request (some (bind_command id host_path rel_path mode))
      ≡ (bind_request id host_path rel_path mode, none)
unfolding decode bind_command id_value
decode-bind_command os id host_path rel_path mode = refl

abbrev pub bind_reply : Bytes → Result Bytes (Unit {0}) → HelperReply
bind_reply id (ok u) = succeeded (str id)
bind_reply id (err e) = failed_with (some (str id)) e

pub replies-bind_reply :
    (id : Bytes) (b : Bound) → reply_to_bind (str id) b ≡ (b.0, bind_reply id b.1 ∷ [])
unfolding reply_to_bind
replies-bind_reply id (h, ok u) = refl
replies-bind_reply id (h, err e) = refl

handle_request-bind :
    (os : MountCalls) (id host_path rel_path mode : Bytes) (h : VfsHelper)
    → let b = do_bind os (bind_request id host_path rel_path mode) h in
      handle_request os (bind_request id host_path rel_path mode) h ≡ (b.0, bind_reply id b.1 ∷ [])
unfolding handle_request eqb
handle_request-bind os id host_path rel_path mode h =
    replies-bind_reply id (do_bind os (bind_request id host_path rel_path mode) h)

pub handle_text-bind :
    (os : MountCalls) (id host_path rel_path mode : Bytes) (h : VfsHelper)
    → let b = do_bind os (bind_request id host_path rel_path mode) h in
      handle_text os (some (bind_command id host_path rel_path mode)) h
      ≡ (b.0, bind_reply id b.1 ∷ [])
unfolding handle_text handle_decoded
handle_text-bind os id host_path rel_path mode h =
    rw (decode-bind_command os id host_path rel_path mode)
      (handle_request-bind os id host_path rel_path mode h)

pub helper_peer-bind :
    (text : GuestText) (os : MountCalls) (id host_path rel_path mode : Bytes) (h : VfsHelper)
    → ReadsBack text (bind_command id host_path rel_path mode)
    → let b = do_bind os (bind_request id host_path rel_path mode) h in
      helper_peer text os (text.print (bind_command id host_path rel_path mode) ++ 10 ∷ []) h
      ≡ replies b.0 (text.print (obj (reply_fields (bind_reply id b.1))) ∷ [])
unfolding helper_peer Requests.handle_line
helper_peer-bind text os id host_path rel_path mode h back =
    rw (back.not_blank, back.in_line, handle_text-bind os id host_path rel_path mode h)

pub resp_of_bind : Result Bytes (Unit {0}) → HelperResp
resp_of_bind (ok u) = record { ok_val = true; error = [] }
resp_of_bind (err e) = record { ok_val = false; error = e }

pub resp_of-bind_reply :
    (id : Bytes) (r : Result Bytes (Unit {0}))
    → resp_of (reply_fields (bind_reply id r)) ≡ resp_of_bind r
unfolding resp_of reply_fields resp_of_bind eqb member
resp_of-bind_reply id (ok u) = refl
resp_of-bind_reply id (err e) = refl

pub outcome-resp_of_bind :
    (r : Result Bytes (Unit {0})) → outcome (answered (resp_of_bind r)) ≡ some r
unfolding outcome resp_of_bind
outcome-resp_of_bind (ok tt) = refl
outcome-resp_of_bind (err e) = refl
