-- ===== src/Function/Examples.antt =====
-- A function that is made, is provided, is stopped and started again.
use text.Mathlib.TextEquality.{eq_iff}
use easegress.Prelude.{◌≡◌, refl, none, some, true, [], ◌∷◌, if◌then◌else◌, String, clash}
use easegress.Function.{Fsm, init_fsm, init_state, next, table, is_one_of, valid_event, valid_state}
use easegress.Function.Rows.{find_row, goes_to, next-find_row}
use easegress.Function.Reach.{run, init_fsm-run, run-IsAlive, IsAlive}

abbrev at : String → Fsm
at s = record { current_state = s }

-- A start leaves a function inactive until it is ready.
started_again : run ("ready" ∷ "stop" ∷ "start" ∷ []) (at init_state) ≡ some (at "inactive")
unfolding next
started_again = refl

next-find_row_example :
    next "stop" (at "active")
    ≡ (if is_one_of "stop" valid_event then goes_to (find_row table "stop" "active") else none)
next-find_row_example = next-find_row "stop" (at "active")

init_fsm-run_example : is_one_of "inactive" valid_state ≡ true
unfolding init_fsm next
init_fsm-run_example =
    init_fsm-run "failed" ("update" ∷ "ready" ∷ "stop" ∷ []) (at "failed") (at "inactive") refl refl

abbrev ready : String
ready = "ready"

run-IsAlive_example : IsAlive "failed"
run-IsAlive_example =
    run-IsAlive "failed" refl (λ e. clash ((eq_iff "failed" "destroyed").1 e) refl)
