-- ===== src/Vm/Helper/Answers.antt =====
-- How the helper answers, and a bind that is lost.
use claude_cowork_service.Base.{
  Bool-cases, Bytes, List, Option, [], arith, codes, elem, eqb, err, false, inl, inr, is_empty,
  none, ok, refl, some, true, ◌++◌, ◌↔◌, ◌∷◌, ◌≡◌,
}
use claude_cowork_service.FilePath.{is_abs}
use claude_cowork_service.Json.{Json}
use claude_cowork_service.Json.Decode.{DecodeError, decode}
use claude_cowork_service.Vm.Helper.{
  Bound, HelperRequest, Mount, MountCalls, VfsHelper, add_mount, bind_source, directory, do_bind,
  validate_rel_path,
}
use claude_cowork_service.Vm.Helper.Requests.{
  HelperReply, do_unbind, failed_with, handle_decoded, handle_line, handle_request, handle_text,
  no_request, reply_to_bind, request_fields, succeeded, trim_line,
}

-- The id of a request that decodes.
abbrev id_of : HelperRequest × Option DecodeError → Option Json
id_of (req, none) = some req.id
id_of (req, some e) = none

abbrev pub request_id : MountCalls → Option Json → Option Json
request_id os none = none
request_id os (some v) = id_of (decode (request_fields os) no_request (some v))

-- There is one reply, with this id, and it has an error's text just when it is not ok.
abbrev pub OneReply : Option Json → List HelperReply → Type 0
OneReply id replies =
    (r : HelperReply) × (replies ≡ r ∷ []) × (r.id ≡ id) × ((r.ok_field ≡ true) ↔ (r.error ≡ none))

replies_to_bind : (id : Json) (b : Bound) → OneReply (some id) (reply_to_bind id b).1
unfolding reply_to_bind
replies_to_bind id (h, ok u) =
    (record { id = some id; ok_field = true; error = none }, refl, refl, ((λ e. refl), (λ e. refl)))
replies_to_bind id (h, err e) = (failed_with (some id) e, refl, refl, ((λ x. cc), (λ x. cc)))

one_reply : (r : HelperReply) → ((r.ok_field ≡ true) ↔ (r.error ≡ none)) → OneReply r.id (r ∷ [])
one_reply r h = (r, refl, refl, h)

handle_request-OneReply :
    (os : MountCalls) (req : HelperRequest) (h : VfsHelper)
    → OneReply (some req.id) (handle_request os req h).1
unfolding handle_request
handle_request-OneReply os req h = elim (Bool-cases (eqb req.op (codes "bind"))) [
  | inl e ↦ rw e (replies_to_bind req.id (do_bind os req h))
  | inr e ↦ rw e (elim (Bool-cases (eqb req.op (codes "unbind"))) [
    | inl f ↦ rw f (one_reply (succeeded req.id) ((λ x. refl), (λ x. refl)))
    | inr f ↦ rw f (elim (Bool-cases (eqb req.op (codes "stop"))) [
      | inl g ↦ rw g (one_reply (succeeded req.id) ((λ x. refl), (λ x. refl)))
      | inr g ↦ rw g (
          one_reply (failed_with (some req.id) (codes "unknown op: " ++ req.op))
            ((λ x. cc), (λ x. cc)))
    ])
  ])
]

handle_decoded-OneReply :
    (os : MountCalls) (d : HelperRequest × Option DecodeError) (h : VfsHelper)
    → OneReply (id_of d) (handle_decoded os d h).1
unfolding handle_decoded
handle_decoded-OneReply os (req, none) h = handle_request-OneReply os req h
handle_decoded-OneReply os (req, some e) h =
    one_reply (failed_with none (codes "invalid JSON")) ((λ x. cc), (λ x. cc))

handle_text-OneReply :
    (os : MountCalls) (v : Option Json) (h : VfsHelper)
    → OneReply (request_id os v) (handle_text os v h).1
unfolding handle_text
handle_text-OneReply os none h =
    one_reply (failed_with none (codes "invalid JSON")) ((λ x. cc), (λ x. cc))
handle_text-OneReply os (some v) h =
    handle_decoded-OneReply os (decode (request_fields os) no_request (some v)) h

-- A line of white space has no reply. Any other line has exactly one, whatever the system calls
-- answer: with the id of the request as it is decoded, a number as a float64, or without one where
-- the line is no request or does not decode, and with an error's text just when it does not say ok.
pub handle_line-OneReply :
    (parse : Bytes → Option Json) (os : MountCalls) (line : Bytes) (h : VfsHelper)
    → (is_empty (trim_line line) ≡ true → handle_line parse os line h ≡ (h, []))
      × (is_empty (trim_line line) ≡ false
          → OneReply (request_id os (parse (trim_line line))) (handle_line parse os line h).1)
unfolding handle_line
handle_line-OneReply parse os line h =
    ((λ e. rw e), (λ e. rw e (handle_text-OneReply os (parse (trim_line line)) h)))

-- Before the remount the target is mounted writable, and a bind of this mode is not taken back.
abbrev pub FailedRemount : MountCalls → HelperRequest → Bytes → Bytes → Type 0
FailedRemount os req target e =
    (req.mode ≡ codes "ro")
    × (os.stat req.host_path ≡ directory)
    × (os.mkdir_error target ≡ none)
    × (os.mount_error target ≡ none)
    × (os.remount_error target ≡ some e)

-- When the remount of a read-only bind fails, the request is answered by an error, but the source
-- stays mounted, writable, at the target, and an unbind of the path then changes nothing, since the
-- path is not among the active binds.
pub FailedRemount-leaks :
    (os : MountCalls) (req : HelperRequest) (h : VfsHelper) (target e : Bytes)
    → is_empty req.host_path ≡ false
    → is_abs req.host_path ≡ true
    → validate_rel_path h req.rel_path ≡ ok target
    → elem req.rel_path h.active_binds ≡ false
    → FailedRemount os req target e
    → let (h', answer) = do_bind os req h in
      let left : Mount = record { source = req.host_path; target = target; read_only = false } in
      (answer ≡ err (codes "remount ro failed: " ++ e))
      × (h'.mounts ≡ left ∷ h.mounts)
      × (do_unbind os req.rel_path h' ≡ h')
unfolding do_bind do_unbind bind_source add_mount
FailedRemount-leaks os req h target e he ha v fresh f = ground (arith, v)
