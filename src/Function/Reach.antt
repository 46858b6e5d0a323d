-- ===== src/Function/Reach.antt =====
-- pkg/object/function/spec/fsm.go: what the table makes of sequences of events.
use text.Mathlib.Text.{◌==◌}
use text.Mathlib.TextEquality.{eq_iff}
use mathlib.Core.Option.{some-injective, none-ne-some}
use easegress.Prelude.{
  ◌≡◌, ◌≢◌, refl, sym, ap, ◌∙◌, subst, ◌⊎◌, inl, inr, Bool, true, false, not, ◌||◌, ◌&&◌, Option,
  none, some, ◌>>=◌, List, [], ◌∷◌, if◌then◌else◌, String, Bool-cases, Option-cases, clash,
  bind_some,
}
use easegress.Function.{Fsm, Transition, table, init_fsm, next, is_one_of, valid_event, valid_state}
use easegress.Function.Rows.{find_row, goes_to, next-find_row}

abbrev all_rows : (Transition → Bool) → List Transition → Bool
all_rows test [] = true
all_rows test (t ∷ ts) = test t && all_rows test ts

and_true : (a b : Bool) → (a && b) ≡ true → (a ≡ true) × (b ≡ true)
and_true true b h = (refl, h)
and_true false b h = absurd (clash refl (sym h))

-- A row that is found is of the event and the state, and has what all rows have.
find_row_lem :
    (test : Transition → Bool) (ts : List Transition) (event s : String) (t : Transition)
    → all_rows test ts ≡ true
    → find_row ts event s ≡ some t
    → ((event == t.event) ≡ true) × ((s == t.from) ≡ true) × (test t ≡ true)
find_row_lem test [] event s t all h = absurd (none-ne-some t h)
find_row_lem test (r ∷ ts) event s t all h =
    let (here, rest) = and_true (test r) (all_rows test ts) all in
    elim (Bool-cases (event == r.event)) [
      | inr e ↦ find_row_lem test ts event s t rest (
          subst
            (λ b.
              (if b
                then (if s == r.from then some r else find_row ts event s)
                else find_row ts event s)
              ≡ some t)
            e h)
      | inl e ↦
          let h' : (if s == r.from then some r else find_row ts event s) ≡ some t =
            subst
              (λ b.
                (if b
                  then (if s == r.from then some r else find_row ts event s)
                  else find_row ts event s)
                ≡ some t)
              e h in
          elim (Bool-cases (s == r.from)) [
            | inr f ↦
                find_row_lem test ts event s t rest
                  (subst (λ b. (if b then some r else find_row ts event s) ≡ some t) f h')
            | inl f ↦
                let same =
                  some-injective r t
                    (subst (λ b. (if b then some r else find_row ts event s) ≡ some t) f h') in
                subst (λ t. ((event == t.event) ≡ true) × ((s == t.from) ≡ true) × (test t ≡ true))
                  same (e, f, here)
          ]
    ]

-- An event that is accepted is that of a row.
next-row :
    (test : Transition → Bool) (event : String) (fsm fsm' : Fsm)
    → all_rows test table ≡ true
    → next event fsm ≡ some fsm'
    → (t : Transition) × (fsm'.current_state ≡ t.to)
      × (event ≡ t.event)
      × (fsm.current_state ≡ t.from)
      × (test t ≡ true)
next-row test event fsm fsm' all h =
    let found = find_row table event fsm.current_state in
    let taken : (if is_one_of event valid_event then goes_to found else none) ≡ some fsm' =
      sym (next-find_row event fsm) ∙ h in
    elim (Bool-cases (is_one_of event valid_event)) [
      | inr e ↦
          absurd (
            none-ne-some fsm'
              (subst (λ b. (if b then goes_to found else none) ≡ some fsm') e taken))
      | inl e ↦
          let goes : goes_to found ≡ some fsm' =
            subst (λ b. (if b then goes_to found else none) ≡ some fsm') e taken in
          elim (Option-cases found) [
            | inl missing ↦
                absurd (none-ne-some fsm' (subst (λ o. goes_to o ≡ some fsm') missing goes))
            | inr (t, is_t) ↦
                let (of_event, of_state, holds) =
                  find_row_lem test table event fsm.current_state t all is_t in
                let to =
                  some-injective (record { current_state = t.to }) fsm'
                    (subst (λ o. goes_to o ≡ some fsm') is_t goes) in
                (
                  t,
                  ap (λ f. f.current_state) (sym to),
                  (eq_iff event t.event).0 of_event,
                  (eq_iff fsm.current_state t.from).0 of_state,
                  holds,
                )
          ]
    ]

-- A sequence of events, each accepted.
abbrev pub run : List String → Fsm → Option Fsm
run [] fsm = some fsm
run (event ∷ events) fsm = next event fsm >>= λ fsm'. run events fsm'

-- What the rows have in common.
abbrev to_valid : Transition → Bool
to_valid t = is_one_of t.to valid_state

abbrev is_sound : Transition → Bool
is_sound t =
    not (t.from == "destroyed")
    && (not (t.event == "create") && (not (t.to == "active") || (t.event == "ready")))

run-valid :
    (events : List String) (fsm fsm' : Fsm)
    → is_one_of fsm.current_state valid_state ≡ true
    → run events fsm ≡ some fsm'
    → is_one_of fsm'.current_state valid_state ≡ true
run-valid [] fsm fsm' valid h =
    subst (λ f. is_one_of f.current_state valid_state ≡ true) (some-injective fsm fsm' h) valid
run-valid (event ∷ events) fsm fsm' valid h =
    let (middle, e, later) = bind_some (next event fsm) _ fsm' h in
    let (t, to, _, _, holds) = next-row to_valid event fsm middle refl e in
    run-valid events middle fsm' (rw to holds) later

-- Whatever state a machine is made in and whatever events it accepts after that, it is in one of the
-- valid states.
pub init_fsm-run :
    (s : String) (events : List String) (fsm fsm' : Fsm)
    → init_fsm s ≡ some fsm
    → run events fsm ≡ some fsm'
    → is_one_of fsm'.current_state valid_state ≡ true
unfolding init_fsm
init_fsm-run s events fsm fsm' made h = elim (Bool-cases (is_one_of s valid_state)) [
  | inr e ↦ absurd (
      none-ne-some fsm
        (subst (λ b. (if b then some (record { current_state = s }) else none) ≡ some fsm) e made))
  | inl e ↦
      let is_s =
        some-injective (record { current_state = s }) fsm
          (subst (λ b. (if b then some (record { current_state = s }) else none) ≡ some fsm) e
            made) in
      run-valid events fsm fsm' (subst (λ f. is_one_of f.current_state valid_state ≡ true) is_s e) h
]

-- When a machine accepts an event, it was not destroyed, the event is not `create`, and if it is
-- active afterwards the event is `ready`.
pub next_sound :
    (event : String) (fsm fsm' : Fsm)
    → next event fsm ≡ some fsm'
    → (fsm.current_state ≢ "destroyed")
      × (event ≢ "create")
      × (fsm'.current_state ≡ "active" → event ≡ "ready")
next_sound event fsm fsm' h =
    let (t, to, of_event, of_state, holds) = next-row is_sound event fsm fsm' refl h in
    let (kept, rest) = and_true (not (t.from == "destroyed")) _ holds in
    let (known, activates) = and_true (not (t.event == "create")) _ rest in
    (
      λ p. clash kept (rw ((eq_iff t.from "destroyed").1 (sym of_state ∙ p)) refl),
      λ p. clash known (rw ((eq_iff t.event "create").1 (sym of_event ∙ p)) refl),
      λ p.
          of_event
          ∙ (eq_iff t.event "ready").0 (
              subst (λ b. (not b || (t.event == "ready")) ≡ true)
                ((eq_iff t.to "active").1 (sym to ∙ p)) activates),
    )

is_one_of_cases :
    (s t : String) (ts : List String)
    → is_one_of s (t ∷ ts) ≡ true
    → (t ≡ s) ⊎ (is_one_of s ts ≡ true)
is_one_of_cases s t ts h = elim (Bool-cases (t == s)) [
  | inl e ↦ inl ((eq_iff t s).0 e)
  | inr e ↦ inr (subst (λ b. (if b then true else is_one_of s ts) ≡ true) e h)
]

-- Events that lead from a state to `active`, and others that lead to `destroyed`.
abbrev pub IsAlive : String → Type 0
IsAlive s =
    (events : List String) × (later : List String) × (run events (record { current_state = s })
      ≡ some (record { current_state = "active" }))
    × (run later (record { current_state = s }) ≡ some (record { current_state = "destroyed" }))

initial_IsAlive : IsAlive "initial"
unfolding next
initial_IsAlive = ("ready" ∷ [], "delete" ∷ [], refl, refl)

active_IsAlive : IsAlive "active"
unfolding next
active_IsAlive = ([], "stop" ∷ "delete" ∷ [], refl, refl)

inactive_IsAlive : IsAlive "inactive"
unfolding next
inactive_IsAlive = ("ready" ∷ [], "delete" ∷ [], refl, refl)

failed_IsAlive : IsAlive "failed"
unfolding next
failed_IsAlive = ("update" ∷ "ready" ∷ [], "delete" ∷ [], refl, refl)

-- Each valid state but `destroyed` has a sequence of accepted events that ends in `active`, and one
-- that ends in `destroyed`.
pub run-IsAlive : (s : String) → is_one_of s valid_state ≡ true → s ≢ "destroyed" → IsAlive s
run-IsAlive s valid other =
    elim (is_one_of_cases s "initial" ("active" ∷ "inactive" ∷ "failed" ∷ "destroyed" ∷ []) valid) [
      | inl is_initial ↦ subst IsAlive is_initial initial_IsAlive
      | inr valid' ↦
          elim (is_one_of_cases s "active" ("inactive" ∷ "failed" ∷ "destroyed" ∷ []) valid') [
            | inl is_active ↦ subst IsAlive is_active active_IsAlive
            | inr valid'' ↦
                elim (is_one_of_cases s "inactive" ("failed" ∷ "destroyed" ∷ []) valid'') [
                  | inl is_inactive ↦ subst IsAlive is_inactive inactive_IsAlive
                  | inr valid3 ↦ elim (is_one_of_cases s "failed" ("destroyed" ∷ []) valid3) [
                    | inl is_failed ↦ subst IsAlive is_failed failed_IsAlive
                    | inr valid4 ↦ elim (is_one_of_cases s "destroyed" ([]) valid4) [
                      | inl is_destroyed ↦ absurd (other (sym is_destroyed))
                      | inr never ↦ absurd (clash never refl)
                    ]
                  ]
                ]
          ]
    ]
