-- ===== src/Function.antt =====
-- pkg/object/function/spec/fsm.go: the state machine of a function. States and events are texts, as
-- in the source; `none` is an error, which leaves the machine as it was.
pub mod Rows
pub mod Reach
mod Examples
use text.Mathlib.Text.{◌==◌}
use easegress.Prelude.{
  Bool, true, false, Option, none, some, List, [], ◌∷◌, ◌++◌, if◌then◌else◌, String,
}

pub record Fsm : Type 0 where
  pub current_state : String

-- `transition`
pub record Transition : Type 0 where
  pub from : String
  pub event : String
  pub to : String

abbrev pub is_one_of : String → List String → Bool
is_one_of s [] = false
is_one_of s (t ∷ ts) = if t == s then true else is_one_of s ts

-- `validState` and `validEvent`
abbrev pub valid_state : List String
valid_state = "initial" ∷ "active" ∷ "inactive" ∷ "failed" ∷ "destroyed" ∷ []

abbrev pub valid_event : List String
valid_event = "update" ∷ "delete" ∷ "stop" ∷ "start" ∷ "create" ∷ "pending" ∷ "error" ∷ "ready" ∷ []

abbrev row : String → String → String → Transition
row from event to = record { from = from; event = event; to = to }

-- The table of `init`.
abbrev pub table : List Transition
table =
    row "initial" "update" "initial"
    ∷ row "initial" "delete" "destroyed"
    ∷ row "initial" "ready" "active"
    ∷ row "initial" "pending" "initial"
    ∷ row "initial" "error" "failed"
    ∷ row "active" "stop" "inactive"
    ∷ row "active" "error" "failed"
    ∷ row "active" "ready" "active"
    ∷ row "active" "pending" "failed"
    ∷ row "inactive" "update" "initial"
    ∷ row "inactive" "start" "inactive"
    ∷ row "inactive" "delete" "destroyed"
    ∷ row "inactive" "ready" "active"
    ∷ row "inactive" "pending" "failed"
    ∷ row "inactive" "error" "failed"
    ∷ row "failed" "delete" "destroyed"
    ∷ row "failed" "update" "initial"
    ∷ row "failed" "ready" "initial"
    ∷ row "failed" "error" "failed"
    ∷ row "failed" "pending" "failed"
    ∷ []

-- `transitions`, a map from events to rows with the empty list for a missing key, which the loop of
-- `init` fills row by row.
abbrev pub Transitions : Type 0
Transitions = String → List Transition

abbrev pub add_row : Transition → Transitions → Transitions
add_row t transitions event =
    if event == t.event then transitions event ++ (t ∷ []) else transitions event

abbrev pub fill : List Transition → Transitions → Transitions
fill [] transitions = transitions
fill (t ∷ ts) transitions = fill ts (add_row t transitions)

unfoldable pub transitions : Transitions
transitions = fill table (λ event. [])

-- `InitState` and `InitFSM`
abbrev pub init_state : String
init_state = "initial"

unfoldable pub init_fsm : String → Option Fsm
init_fsm s = if is_one_of s valid_state then some (record { current_state = s }) else none

-- The loop of `Next` over the rows of an event.
abbrev pub take_row : List Transition → Fsm → Option Fsm
take_row [] fsm = none
take_row (t ∷ ts) fsm =
    if fsm.current_state == t.from then some (record { current_state = t.to }) else take_row ts fsm

-- `Next`
unfoldable pub next : String → Fsm → Option Fsm
unfolding transitions
next event fsm = if is_one_of event valid_event then take_row (transitions event) fsm else none
