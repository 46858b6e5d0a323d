-- ===== src/Function/Rows.antt =====
-- pkg/object/function/spec/fsm.go: `Next` read off the table.
use text.Mathlib.Text.{◌==◌}
use easegress.Prelude.{
  inl, inr, ◌≡◌, refl, sym, ap, ◌∙◌, Option, none, some, List, [], ◌∷◌, ◌++◌, if◌then◌else◌, String,
  Bool-cases,
}
use easegress.Function.{
  Fsm, Transition, Transitions, table, transitions, add_row, fill, take_row, next, is_one_of,
  valid_event,
}

-- The first row of the table for an event and a state.
abbrev pub find_row : List Transition → String → String → Option Transition
find_row [] event s = none
find_row (t ∷ ts) event s =
    let later = find_row ts event s in
    if event == t.event then (if s == t.from then some t else later) else later

abbrev pub goes_to : Option Transition → Option Fsm
goes_to none = none
goes_to (some t) = some (record { current_state = t.to })

abbrev or_else : Option Fsm → Option Fsm → Option Fsm
or_else none b = b
or_else (some a) b = some a

take_row-append :
    (xs ys : List Transition) (fsm : Fsm)
    → take_row (xs ++ ys) fsm ≡ or_else (take_row xs fsm) (take_row ys fsm)
take_row-append [] ys fsm = refl
take_row-append (t ∷ xs) ys fsm = elim (Bool-cases (fsm.current_state == t.from)) [
  | inl e ↦ rw e refl
  | inr e ↦ rw e (take_row-append xs ys fsm)
]

or_else_assoc : (a b c : Option Fsm) → or_else (or_else a b) c ≡ or_else a (or_else b c)
or_else_assoc none b c = refl
or_else_assoc (some a) b c = refl

or_else-none : (a : Option Fsm) → or_else a none ≡ a
or_else-none none = refl
or_else-none (some a) = refl

add_row_lem :
    (t : Transition) (ts : List Transition) (rows : Transitions) (event : String) (fsm : Fsm)
    → or_else (take_row (add_row t rows event) fsm) (goes_to (find_row ts event fsm.current_state))
      ≡ or_else (take_row (rows event) fsm) (goes_to (find_row (t ∷ ts) event fsm.current_state))
add_row_lem t ts rows event fsm = elim (Bool-cases (event == t.event)) [
  | inr e ↦ rw e refl
  | inl e ↦ elim (Bool-cases (fsm.current_state == t.from)) [
    | inl h ↦
        rw (e, take_row-append (rows event) (t ∷ []) fsm, h)
          (or_else_assoc (take_row (rows event) fsm) _ _)
    | inr h ↦
        rw (e, take_row-append (rows event) (t ∷ []) fsm, h)
          (or_else_assoc (take_row (rows event) fsm) _ _)
  ]
]

fill_lem :
    (ts : List Transition) (rows : Transitions) (event : String) (fsm : Fsm)
    → take_row (fill ts rows event) fsm
      ≡ or_else (take_row (rows event) fsm) (goes_to (find_row ts event fsm.current_state))
fill_lem [] rows event fsm = sym (or_else-none (take_row (rows event) fsm))
fill_lem (t ∷ ts) rows event fsm =
    fill_lem ts (add_row t rows) event fsm ∙ add_row_lem t ts rows event fsm

-- For every machine and every event, known or not: Next takes the first row of the table that has the
-- event and the machine's state, and is an error if there is none or the event is unknown; that
-- the rows are looked for in a map by their events makes no difference.
pub next-find_row :
    (event : String) (fsm : Fsm)
    → next event fsm ≡ (
        if is_one_of event valid_event
        then goes_to (find_row table event fsm.current_state)
        else none)
unfolding next transitions
next-find_row event fsm =
    ap (λ r. if is_one_of event valid_event then r else none) (fill_lem table (λ e. []) event fsm)
