-- ===== src/Vm/Backend/Processes.antt =====
-- The processes of the guest that the KVM backend knows of (vm/backend.go: noteProcessEvent,
-- exitedProcessID, eventProcessID, IsProcessRunning, and what Spawn and Kill do to the set).
use claude_cowork_service.Base.{
  Bool, Bool-cases, Bytes, Dict, List, Option, [], ap, arith, codes, elem, eqb, eqb_iff, false, get,
  if◌then◌else◌, inl, inr, is_empty, none, not, refl, some, true, ◌&&◌, ◌||◌, ◌∙◌, ◌∷◌, ◌≡◌,
}
use claude_cowork_service.Json.{Json, arr, bool, frac, int, null, obj, str}

-- What emit is handed.
pub data Emitted : Type 0 where
  exit_event : Bytes → Emitted
  nil_exit_event : Emitted
  message : Dict Json → Emitted
  other_event : Emitted

-- eventProcessID of a member that may be missing. A number is a float64, whose text is given.
unfoldable pub event_process_id : (Json → Bytes) → Option Json → Bytes
event_process_id float_text (some (str s)) = s
event_process_id float_text (some (int negative n)) = float_text (int negative n)
event_process_id float_text (some (frac s)) = float_text (frac s)
event_process_id float_text other = []

abbrev string_of : Option Json → Bytes
string_of (some (str s)) = s
string_of other = []

-- exitedProcessID.
unfoldable pub exited_process_id : (Json → Bytes) → Emitted → Option Bytes
unfolding eqb get event_process_id
exited_process_id float_text (exit_event id) = some id
exited_process_id float_text nil_exit_event = none
exited_process_id float_text (message ev) =
    if eqb (string_of (get (codes "type") ev)) (codes "exit")
    then some (event_process_id float_text (get (codes "id") ev))
    else none
exited_process_id float_text other_event = none

-- delete(b.processes, id).
unfoldable pub drop_process : Bytes → List Bytes → List Bytes
unfolding eqb
drop_process id [] = []
drop_process id (p ∷ ps) = let rest = drop_process id ps in if eqb p id then rest else p ∷ rest

note_exit : Option Bytes → List Bytes → List Bytes
note_exit none ps = ps
note_exit (some id) ps = if is_empty id then ps else drop_process id ps

-- noteProcessEvent.
unfoldable pub note_process_event : (Json → Bytes) → Emitted → List Bytes → List Bytes
unfolding note_exit
note_process_event float_text ev ps = note_exit (exited_process_id float_text ev) ps

-- IsProcessRunning. The exit code is always 0.
unfoldable pub is_process_running : Bytes → List Bytes → Bool
unfolding elem
is_process_running id ps = elem id ps

-- What happens to the set: Spawn has succeeded, Kill was called, with a bridge or without one, an
-- event was emitted, the VM was cleaned up.
pub data ProcessAct : Type 0 where
  spawned : Bytes → ProcessAct
  killed : Bool → Bytes → ProcessAct
  emitted : Emitted → ProcessAct
  cleaned_up : ProcessAct

unfoldable pub process_act : (Json → Bytes) → ProcessAct → List Bytes → List Bytes
process_act float_text (spawned id) ps = id ∷ drop_process id ps
process_act float_text (killed has_bridge id) ps = if has_bridge then drop_process id ps else ps
process_act float_text (emitted ev) ps = note_process_event float_text ev ps
process_act float_text cleaned_up ps = []

unfoldable pub process_acts : (Json → Bytes) → List ProcessAct → List Bytes → List Bytes
unfolding process_act
process_acts float_text [] ps = ps
process_acts float_text (a ∷ acts) ps = process_acts float_text acts (process_act float_text a ps)

-- A member "type" that is the string "exit".
abbrev pub says_exit : Option Json → Bool
says_exit (some (str s)) = eqb s (codes "exit")
says_exit other = false

-- A member "id" that is this process, as a string or as a number.
abbrev pub names_process : (Json → Bytes) → Bytes → Option Json → Bool
names_process float_text id (some (str s)) = eqb s id
names_process float_text id (some (int negative n)) = eqb (float_text (int negative n)) id
names_process float_text id (some (frac s)) = eqb (float_text (frac s)) id
names_process float_text id other = false

-- An event tells that the process has ended. No process has an empty id.
abbrev pub reports_exit : (Json → Bytes) → Bytes → Emitted → Bool
reports_exit float_text id (exit_event j) = not (is_empty id) && eqb j id
reports_exit float_text id nil_exit_event = false
reports_exit float_text id (message ev) =
    not (is_empty id)
    && (says_exit (get (codes "type") ev) && names_process float_text id (get (codes "id") ev))
reports_exit float_text id other_event = false

-- Whether a process runs after an act, by whether it ran before: but for the end of the VM, only acts
-- on its own id count.
abbrev pub runs_after_act : (Json → Bytes) → Bytes → ProcessAct → Bool → Bool
runs_after_act float_text id (spawned j) ran = eqb j id || ran
runs_after_act float_text id (killed has_bridge j) ran = not (has_bridge && eqb j id) && ran
runs_after_act float_text id (emitted ev) ran = not (reports_exit float_text id ev) && ran
runs_after_act float_text id cleaned_up ran = false

abbrev pub runs_after : (Json → Bytes) → Bytes → List ProcessAct → Bool → Bool
runs_after float_text id [] ran = ran
runs_after float_text id (a ∷ acts) ran =
    runs_after float_text id acts (runs_after_act float_text id a ran)

drop_process-elem :
    (id j : Bytes) (ps : List Bytes) → elem id (drop_process j ps) ≡ (not (eqb j id) && elem id ps)
unfolding drop_process elem
drop_process-elem id j [] = ground arith
drop_process-elem id j (p ∷ ps) =
    ground (arith, eqb_iff p j, eqb_iff p id, eqb_iff j id, drop_process-elem id j ps)

note_exit-elem :
    (id j : Bytes) (ps : List Bytes)
    → elem id (note_exit (some j) ps) ≡ (not (not (is_empty id) && eqb j id) && elem id ps)
unfolding note_exit is_empty
note_exit-elem [] [] ps = refl
note_exit-elem (c ∷ id) [] ps = ground (arith, eqb_iff [] (c ∷ id))
note_exit-elem [] (d ∷ j) ps = ground (arith, eqb_iff (d ∷ j) [], drop_process-elem [] (d ∷ j) ps)
note_exit-elem (c ∷ id) (d ∷ j) ps = drop_process-elem (c ∷ id) (d ∷ j) ps

string_of-says_exit : (o : Option Json) → eqb (string_of o) (codes "exit") ≡ says_exit o
unfolding eqb
string_of-says_exit none = refl
string_of-says_exit (some null) = refl
string_of-says_exit (some (bool b)) = refl
string_of-says_exit (some (int negative n)) = refl
string_of-says_exit (some (frac s)) = refl
string_of-says_exit (some (str s)) = refl
string_of-says_exit (some (arr items)) = refl
string_of-says_exit (some (obj kvs)) = refl

-- A member of another type names no process, nor does an empty id.
event_process_id-names_process :
    (float_text : Json → Bytes) (id : Bytes) (o : Option Json)
    → (not (is_empty id) && eqb (event_process_id float_text o) id)
      ≡ (not (is_empty id) && names_process float_text id o)
unfolding event_process_id is_empty eqb
event_process_id-names_process float_text [] o = refl
event_process_id-names_process float_text (c ∷ id) none = refl
event_process_id-names_process float_text (c ∷ id) (some null) = refl
event_process_id-names_process float_text (c ∷ id) (some (bool b)) = refl
event_process_id-names_process float_text (c ∷ id) (some (int negative n)) = refl
event_process_id-names_process float_text (c ∷ id) (some (frac s)) = refl
event_process_id-names_process float_text (c ∷ id) (some (str s)) = refl
event_process_id-names_process float_text (c ∷ id) (some (arr items)) = refl
event_process_id-names_process float_text (c ∷ id) (some (obj kvs)) = refl

note_process_event-elem :
    (float_text : Json → Bytes) (id : Bytes) (ev : Emitted) (ps : List Bytes)
    → elem id (note_process_event float_text ev ps)
      ≡ (not (reports_exit float_text id ev) && elem id ps)
unfolding note_process_event exited_process_id note_exit
note_process_event-elem float_text id (exit_event j) ps = note_exit-elem id j ps
note_process_event-elem float_text id nil_exit_event ps = refl
note_process_event-elem float_text id other_event ps = refl
note_process_event-elem float_text id (message ev) ps =
    let typ = get (codes "type") ev in
    let j = get (codes "id") ev in
    rw (exited_process_id, string_of-says_exit typ)
      (elim (Bool-cases (says_exit typ)) [
        | inl e ↦
            rw
              (
                e,
                note_exit-elem id (event_process_id float_text j) ps,
                event_process_id-names_process float_text id j,
              )
              refl
        | inr e ↦ rw e (ground arith)
      ])

process_act-elem :
    (float_text : Json → Bytes) (id : Bytes) (a : ProcessAct) (ps : List Bytes)
    → elem id (process_act float_text a ps) ≡ runs_after_act float_text id a (elem id ps)
unfolding process_act elem
process_act-elem float_text id (spawned j) ps = ground (arith, drop_process-elem id j ps)
process_act-elem float_text id (killed true j) ps = drop_process-elem id j ps
process_act-elem float_text id (killed false j) ps = refl
process_act-elem float_text id (emitted ev) ps = note_process_event-elem float_text id ev ps
process_act-elem float_text id cleaned_up ps = refl

-- After any spawns, kills, events and ends of the VM, IsProcessRunning says what the acts on that
-- process alone say: it runs if it was spawned, and since then not killed while there was a bridge,
-- not reported as exited, by an event of type "exit" with its id, and the VM was not cleaned up,
-- whatever happens to the other processes.
pub is_process_running_lem :
    (float_text : Json → Bytes) (id : Bytes) (acts : List ProcessAct) (ps : List Bytes)
    → is_process_running id (process_acts float_text acts ps)
      ≡ runs_after float_text id acts (is_process_running id ps)
unfolding is_process_running process_acts
is_process_running_lem float_text id [] ps = refl
is_process_running_lem float_text id (a ∷ acts) ps =
    is_process_running_lem float_text id acts (process_act float_text a ps)
    ∙ ap (runs_after float_text id acts) (process_act-elem float_text id a ps)
