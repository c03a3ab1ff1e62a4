-- ===== src/Vm/Examples.antt =====
-- The theorems on the mount helper, the images and the processes of a VM at concrete inputs.
use claude_cowork_service.Base.{
  Bytes, Option, [], codes, elem, eqb, err, false, if◌then◌else◌, is_empty, none, ok, refl, some,
  true, ◌++◌, ◌∷◌, ◌≡◌,
}
use claude_cowork_service.FilePath.{is_abs}
use claude_cowork_service.Json.{Json, field, obj}
use claude_cowork_service.Guest.Message.{GuestText}
use claude_cowork_service.Native.Paths.{Host}
use claude_cowork_service.Vm.Paths.{host_abs_from_shared}
use claude_cowork_service.Vm.Helper.{
  HelperRequest, Mount, MountCalls, VfsHelper, directory, do_bind, validate_rel_path,
}
use claude_cowork_service.Vm.Helper.Requests.{do_unbind, handle_line, trim_line}
use claude_cowork_service.Vm.Helper.Answers.{
  FailedRemount-leaks, OneReply, handle_line-OneReply, request_id,
}
use claude_cowork_service.Vm.Vfs.{VfsClient, bind_command, drop_pending, new_vfs_helper, register}
use claude_cowork_service.Vm.Vfs.Remote.{Carries, bind_remote, is_ok}
use claude_cowork_service.Vm.Vfs.Send.{bind, mode_or_rw}
use claude_cowork_service.Vm.Vfs.Peer.{
  ReadsBack, bind_reply, bind_request, helper_peer, reply_fields,
}

-- Directories exist, and no call fails but the remounts.
abbrev mount_calls : MountCalls
mount_calls = record {
  stat = λ p. directory;
  stat_again = λ p. directory;
  mkdir_error = λ p. none;
  mount_error = λ p. none;
  remount_error = λ p. some (codes "busy");
  umount_error = λ p. none;
  to_any = λ v. some v;
}

abbrev helper : VfsHelper
helper = record {
  shared_root = codes "/s/shared";
  active_binds = [];
  stopping = false;
  terminated = false;
  mounts = [];
}

abbrev first_command : Json
first_command = bind_command (codes "1") (codes "/h/a") (codes "h/a") (codes "rw")

-- The command and its reply are the texts C and R.
abbrev print_one : Json → Bytes
print_one (obj (field k v rest)) = if eqb k (codes "hostPath") then codes "C" else codes "R"
print_one other = codes "?"

abbrev parse_one : Bytes → Option Json
parse_one s =
    if eqb s (codes "C")
    then some first_command
    else if eqb s (codes "R")
    then some (obj (reply_fields (bind_reply (codes "1") (ok tt))))
    else none

abbrev one_text : GuestText
one_text = record {
  parse = parse_one;
  print = print_one;
  to_any = λ v. v;
  float_text = λ v. codes "0";
  in_range = λ v. true;
}

abbrev pub no_links : Host
no_links = record { eval_symlinks = λ p. some p; is_dir = λ p. true }

bound_run :
    (do_bind mount_calls
      (bind_request (codes "1") (codes "/h/a") (codes "h/a") (codes "rw"))
      helper).1
    ≡ ok tt
unfolding do_bind
bound_run = refl

command_reads_back : ReadsBack one_text first_command
unfolding trim_line is_empty eqb bind_command
command_reads_back = record { not_blank = refl; in_line = refl; alone = refl }

reply_reads_back : ReadsBack one_text (obj (reply_fields (bind_reply (codes "1") (ok tt))))
unfolding trim_line is_empty eqb reply_fields
reply_reads_back = record { not_blank = refl; in_line = refl; alone = refl }

one-Carries :
    Carries one_text
      (register new_vfs_helper).1
      (codes "/h/a")
      (codes "h/a")
      (mode_or_rw [])
      (do_bind mount_calls
        (bind_request (register new_vfs_helper).1 (codes "/h/a") (codes "h/a") (mode_or_rw []))
        helper).1
unfolding register new_vfs_helper do_bind
one-Carries = record { command = command_reads_back; answer = reply_reads_back }

shared_run : host_abs_from_shared no_links (ok (codes "/h")) (codes "h/a") ≡ ok (codes "/h/a")
unfolding host_abs_from_shared
shared_run = refl

not_bound_yet : elem (codes "h/a") new_vfs_helper.active_binds ≡ false
unfolding elem new_vfs_helper
not_bound_yet = refl

bind_remote_example :
    let id = (register new_vfs_helper).1 in
    let b =
      do_bind mount_calls (bind_request id (codes "/h/a") (codes "h/a") (mode_or_rw [])) helper in
    (v' : VfsClient) × (bind one_text no_links
        (ok (codes "/h"))
        (helper_peer one_text mount_calls)
        (codes "h/a")
        []
        new_vfs_helper
        helper
      ≡ some (v', b.0, b.1))
    × (v'.pending ≡ drop_pending id new_vfs_helper.pending)
    × (v'.active_binds ≡ (
        if is_ok b.1
        then new_vfs_helper.active_binds ++ codes "h/a" ∷ []
        else new_vfs_helper.active_binds))
bind_remote_example =
    bind_remote one_text no_links (ok (codes "/h")) mount_calls (codes "h/a") [] (codes "/h/a")
      new_vfs_helper helper not_bound_yet shared_run one-Carries

handle_line-OneReply_example :
    (is_empty (trim_line (codes "C ")) ≡ true
      → handle_line parse_one mount_calls (codes "C ") helper ≡ (helper, []))
    × (is_empty (trim_line (codes "C ")) ≡ false
        → OneReply
            (request_id mount_calls (parse_one (trim_line (codes "C "))))
            (handle_line parse_one mount_calls (codes "C ") helper).1)
handle_line-OneReply_example = handle_line-OneReply parse_one mount_calls (codes "C ") helper

abbrev read_only_request : HelperRequest
read_only_request = bind_request (codes "1") (codes "/h/a") (codes "h/a") (codes "ro")

absolute_path : is_empty read_only_request.host_path ≡ false
unfolding is_empty
absolute_path = refl

rooted_path : is_abs read_only_request.host_path ≡ true
unfolding is_abs
rooted_path = refl

valid_path : validate_rel_path helper read_only_request.rel_path ≡ ok (codes "/s/shared/h/a")
unfolding validate_rel_path
valid_path = refl

free_path : elem read_only_request.rel_path helper.active_binds ≡ false
unfolding elem
free_path = refl

FailedRemount-leaks_example :
    let (h', answer) = do_bind mount_calls read_only_request helper in
    let left : Mount = record {
      source = codes "/h/a";
      target = codes "/s/shared/h/a";
      read_only = false;
    } in
    (answer ≡ err (codes "remount ro failed: " ++ codes "busy"))
    × (h'.mounts ≡ left ∷ [])
    × (do_unbind mount_calls (codes "h/a") h' ≡ h')
FailedRemount-leaks_example =
    FailedRemount-leaks mount_calls read_only_request helper (codes "/s/shared/h/a") (codes "busy")
      absolute_path rooted_path valid_path free_path (refl, refl, refl, refl, refl)
