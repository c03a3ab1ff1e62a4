-- ===== src/Vm/Helper/Requests.antt =====
-- The lines that the helper reads: handleLine, doUnbind and doStop of vm/helper.go, and its loop
-- over the lines of its input.
use mathlib.Core.Option
use claude_cowork_service.Base.{
  Bool, Bytes, List, Option, [], codes, elem, eqb, err, false, if◌then◌else◌, is_empty, none, ok,
  some, true, ℕ, ◌&&◌, ◌++◌, ◌==◌, ◌||◌, ◌∷◌,
}
use claude_cowork_service.Json.{Json, bool, null, str}
use claude_cowork_service.Json.Decode.{DecodeError, Field, decode, store_str}
use claude_cowork_service.Vm.Helper.{
  Bound, HelperRequest, Mount, MountCalls, VfsHelper, do_bind, validate_rel_path,
}

unfoldable pub drop_elem : Bytes → List Bytes → List Bytes
unfolding eqb
drop_elem s [] = []
drop_elem s (t ∷ ts) = let rest = drop_elem s ts in if eqb t s then rest else t ∷ rest

-- umount -l: the newest mount at the target goes.
unfoldable pub unmount : Bytes → List Mount → List Mount
unfolding eqb
unmount target [] = []
unmount target (m ∷ ms) =
    let rest = unmount target ms in if eqb m.target target then ms else m ∷ rest

-- doUnbind. A umount that fails is logged only.
unfoldable pub do_unbind : MountCalls → Bytes → VfsHelper → VfsHelper
unfolding validate_rel_path elem unmount drop_elem
do_unbind os rel_path h = elim (validate_rel_path h rel_path) [
  | err e ↦ h
  | ok target ↦
      if elem rel_path h.active_binds
      then record h {
        mounts = elim (os.umount_error target) [
          | none ↦ unmount target h.mounts
          | some e ↦ h.mounts
        ];
        active_binds = drop_elem rel_path h.active_binds;
      }
      else h
]

-- The loop of doStop, over the keys of activeBinds from the last one that range gave.
unfoldable pub unbind_all : MountCalls → List Bytes → VfsHelper → VfsHelper
unfolding do_unbind
unbind_all os [] h = h
unbind_all os (p ∷ ps) h = do_unbind os p (unbind_all os ps h)

-- doStop, with a virtiofsd that runs.
unfoldable pub do_stop : MountCalls → VfsHelper → VfsHelper
unfolding unbind_all
do_stop os h =
    if h.stopping
    then h
    else record (unbind_all os h.active_binds (record h { stopping = true })) { terminated = true }

-- What the helper writes: the id of a reply is missing when the request could not be read.
pub record HelperReply : Type 0 where
  pub id : Option Json
  pub ok_field : Bool
  pub error : Option Bytes

-- A record with no fields set.
abbrev pub no_request : HelperRequest
no_request = record { id = null; op = []; host_path = []; rel_path = []; mode = [] }

-- An id of type interface{}.
unfoldable pub id_value : MountCalls → Json → Option Json
id_value os null = some null
id_value os (bool b) = some (bool b)
id_value os (str s) = some (str s)
id_value os other = os.to_any other

-- The fields of helperRequest.
abbrev pub request_fields : MountCalls → List (Field HelperRequest)
request_fields os =
    record {
      name = codes "id";
      store = λ v r. Option.map (λ id. record r { id = id }) (id_value os v);
    }
    ∷ record { name = codes "op"; store = store_str (λ s r. record r { op = s }) }
    ∷ record { name = codes "hostPath"; store = store_str (λ s r. record r { host_path = s }) }
    ∷ record { name = codes "relPath"; store = store_str (λ s r. record r { rel_path = s }) }
    ∷ record { name = codes "mode"; store = store_str (λ s r. record r { mode = s }) }
    ∷ []

abbrev pub succeeded : Json → HelperReply
succeeded id = record { id = some id; ok_field = true; error = none }

abbrev pub failed_with : Option Json → Bytes → HelperReply
failed_with id e = record { id = id; ok_field = false; error = some e }

abbrev pub Handled : Type 0
Handled = VfsHelper × List HelperReply

unfoldable pub reply_to_bind : Json → Bound → Handled
reply_to_bind id (h, ok u) = (h, succeeded id ∷ [])
reply_to_bind id (h, err e) = (h, failed_with (some id) e ∷ [])

-- The switch on the operation.
unfoldable pub handle_request : MountCalls → HelperRequest → VfsHelper → Handled
unfolding eqb do_bind do_unbind do_stop reply_to_bind
handle_request os req h =
    if eqb req.op (codes "bind")
    then reply_to_bind req.id (do_bind os req h)
    else if eqb req.op (codes "unbind")
    then (do_unbind os req.rel_path h, succeeded req.id ∷ [])
    else if eqb req.op (codes "stop")
    then (do_stop os h, succeeded req.id ∷ [])
    else (h, failed_with (some req.id) (codes "unknown op: " ++ req.op) ∷ [])

is_end_space : ℕ → Bool
is_end_space c = c == 10 || c == 13 || (c == b' ' || c == 9)

trim_end : Bytes → Bytes
unfolding is_end_space is_empty
trim_end [] = []
trim_end (c ∷ s) = let rest = trim_end s in if is_empty rest && is_end_space c then [] else c ∷ rest

trim_start : Bytes → Bytes
trim_start [] = []
trim_start (c ∷ s) = let rest = trim_start s in if c == b' ' || c == 9 then rest else c ∷ s

-- trimLine.
unfoldable pub trim_line : Bytes → Bytes
unfolding trim_end trim_start
trim_line b = trim_start (trim_end b)

-- A request that decodes, or the reply that it does not.
unfoldable pub handle_decoded :
    MountCalls → HelperRequest × Option DecodeError → VfsHelper → Handled
unfolding handle_request
handle_decoded os (req, none) h = handle_request os req h
handle_decoded os (req, some e) h = (h, failed_with none (codes "invalid JSON") ∷ [])

-- A line, by the JSON value of its text. The parser's error, which ends the text of "invalid JSON",
-- is left out.
unfoldable pub handle_text : MountCalls → Option Json → VfsHelper → Handled
unfolding decode handle_decoded
handle_text os none h = (h, failed_with none (codes "invalid JSON") ∷ [])
handle_text os (some v) h = handle_decoded os (decode (request_fields os) no_request (some v)) h

-- handleLine.
unfoldable pub handle_line : (Bytes → Option Json) → MountCalls → Bytes → VfsHelper → Handled
unfolding trim_line is_empty handle_text
handle_line parse os line h =
    let l = trim_line line in if is_empty l then (h, []) else handle_text os (parse l) h

-- The loop of run over the lines of its input, which end with the input: then it stops.
unfoldable pub run_lines : (Bytes → Option Json) → MountCalls → List Bytes → VfsHelper → Handled
unfolding handle_line do_stop
run_lines parse os [] h = (do_stop os h, [])
run_lines parse os (line ∷ lines) h =
    let (h', replies) = handle_line parse os line h in
    let (h'', rest) = run_lines parse os lines h' in (h'', replies ++ rest)
