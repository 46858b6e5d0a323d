-- ===== src/Pipeline/Jumps.antt =====
-- pkg/object/pipeline/pipeline.go: `ValidateJumpIf` against a description of the flows it accepts.
use text.Mathlib.Text.{◌==◌}
use mathlib.Core.Option.{some-injective, none-ne-some}
use text.Mathlib.TextEquality.{eq_iff}
use easegress.Prelude.{
  ℕ, ◌+◌, ◌≡◌, ◌≢◌, ◌↔◌, ◌⊎◌, inl, inr, refl, sym, ap, ◌∙◌, Bool, true, false, not, ◌&&◌, Option,
  none, some, ◌>>=◌, List, [], ◌∷◌, if◌then◌else◌, String, arith, Bool-cases, clash, Option-cases,
  All, bind_some, subst, ==_iff,
}
use easegress.Prelude as Prelude
use easegress.Pipeline.{
  FlowNode, FilterSpec, end, alias_of, str_in_slice, lookup, Targets, first_targets, bump,
  check_jumps, validate_node, validate_jump_if,
}

abbrev pub OneOf : String → List String → Type 0
OneOf s [] = ⊥
OneOf s (t ∷ ts) = (t ≡ s) ⊎ OneOf s ts

-- The nodes of a flow that run a filter and have the name `t`.
abbrev pub count_alias {ℓ} : {W : Type ℓ} → String → List (FlowNode W) → ℕ
count_alias t [] = 0
count_alias t (node ∷ flow) =
    (if node.filter_name == end then 0 else if t == alias_of node then 1 else 0)
    + count_alias t flow

-- The places that a jump to `t` may mean, the built in end included.
abbrev pub places {ℓ} : {W : Type ℓ} → String → List (FlowNode W) → ℕ
places t flow = (if t == end then 1 else 0) + count_alias t flow

-- A jump on a result of the filter's kind, or on no result, to the one place of that name.
abbrev pub JumpIsValid {ℓ} :
    {W : Type ℓ} → List String → List (FlowNode W) → String × String → Type 0
JumpIsValid results flow (result, target) =
    ((result ≡ "") ⊎ OneOf result results) × (places target flow ≡ 1)

-- Two texts are equal or not, and the test says which.
pub text_cases : (s t : String) → (((s == t) ≡ true) × (s ≡ t)) ⊎ (((s == t) ≡ false) × (s ≢ t))
text_cases s t = elim (Bool-cases (s == t)) [
  | inl e ↦ inl (e, (eq_iff s t).0 e)
  | inr e ↦ inr (e, λ p. clash ((eq_iff s t).1 p) e)
]

str_in_slice_iff : (s : String) (ts : List String) → (str_in_slice s ts ≡ true) ↔ OneOf s ts
str_in_slice_iff s [] = (λ h. cc, λ m. absurd m)
str_in_slice_iff s (t ∷ ts) =
    let (there, back) = str_in_slice_iff s ts in
    elim (text_cases t s) [
      | inl (e, same) ↦ (λ h. inl same, λ m. rw e refl)
      | inr (e, other) ↦ rw e (
        λ h. inr (there h),
        λ m. elim m [ inl same ↦ absurd (other same) | inr later ↦ back later ],
      )
    ]

-- A result that the kind of the filter does not have.
abbrev unknown : List String → String → Bool
unknown results result = not (result == "") && not (str_in_slice result results)

unknown_iff :
    (results : List String) (result : String)
    → (unknown results result ≡ false) ↔ ((result ≡ "") ⊎ OneOf result results)
unknown_iff results result =
    let (there, back) = str_in_slice_iff result results in
    elim (text_cases result "") [
      | inl (e, same) ↦ (λ h. inl same, λ m. rw e refl)
      | inr (e, other) ↦ elim (Bool-cases (str_in_slice result results)) [
        | inl h ↦ (λ _. inr (there h), λ _. rw (e, h) refl)
        | inr h ↦ (
          λ k. absurd (clash {b = unknown results result} (rw (e, h) refl) k),
          λ m. elim m [ inl same ↦ absurd (other same) | inr later ↦ clash (back later) h ],
        )
      ]
    ]

check_jumps_iff {ℓ} :
    {W : Type ℓ} (results : List String) (targets : Targets) (flow : List (FlowNode W))
    → ((t : String) → targets t ≡ places t flow)
    → (jumps : List (String × String))
    → (check_jumps results targets jumps ≡ true) ↔ All (JumpIsValid results flow) jumps
check_jumps_iff results targets flow same [] = (λ h. tt, λ h. refl)
check_jumps_iff results targets flow same ((result, target) ∷ jumps) =
    let (there, back) = check_jumps_iff results targets flow same jumps in
    let (known, tested) = unknown_iff results result in
    let counts = same target in
    let (one, is_one) = ==_iff (targets target) 1 in
    elim (Bool-cases (unknown results result)) [
      | inl e ↦ (λ h. absurd (clash h (rw e refl)), λ ((has, _), _). clash e (tested has))
      | inr e ↦ elim (Bool-cases (Prelude.◌==◌ (targets target) 1)) [
        | inl h ↦
            let rest : check_jumps results targets ((result, target) ∷ jumps)
                ≡ check_jumps results targets jumps =
              rw (e, h) refl in
            (
              λ k. ((known e, sym counts ∙ one h), there (sym rest ∙ k)),
              λ ((has, only), jumps_valid). rest ∙ back jumps_valid,
            )
        | inr h ↦ (
          λ k. absurd (clash k (rw (e, h) refl)),
          λ ((has, only), _). clash (is_one (counts ∙ only)) h,
        )
      ]
    ]

if_some {ℓ} :
    {A : Type ℓ} {b : Bool} {a a' : A}
    → (if b then some a else none) ≡ some a'
    → (b ≡ true) × (a ≡ a')
if_some {b = true} {a} {a'} h = (refl, some-injective a a' h)
if_some {b = false} {a' = a'} h = absurd (none-ne-some a' h)

module _ {ℓ} {W : Type ℓ} (kinds : String → Option (List String))
    (specs : List (String × FilterSpec)) where
  -- The flows whose nodes are the end or name a filter, all of whose jumps are valid.
  abbrev pub NodeIsValid : FlowNode W → List (FlowNode W) → Type 0
  NodeIsValid node flow =
      (node.filter_name ≡ end)
      ⊎ ((spec : FilterSpec) × (results : List String) × (lookup node.filter_name specs ≡ some spec)
          × (kinds spec.kind ≡ some results)
          × All (JumpIsValid results flow) node.jump_if)

  abbrev pub FlowIsValid : List (FlowNode W) → Type 0
  FlowIsValid [] = Unit
  FlowIsValid (node ∷ flow) = FlowIsValid flow × NodeIsValid node flow

  -- The map holds how many places each name has.
  first-places :
      (flow : List (FlowNode W)) → flow ≡ [] → (t : String) → first_targets t ≡ places t flow
  first-places flow e t = rw e (omega arith)

  bump-places :
      (node : FlowNode W) (flow : List (FlowNode W)) (targets : Targets)
      → (node.filter_name == end) ≡ false
      → ((t : String) → targets t ≡ places t flow)
      → (t : String) → bump (alias_of node) targets t ≡ places t (node ∷ flow)
  bump-places node flow targets e same t = elim (Bool-cases (t == alias_of node)) [
    | inl h ↦ rw (e, h) (omega (arith, same t))
    | inr h ↦ rw (e, h) (omega (arith, same t))
  ]

  -- What is accepted, with the map that is then held, is what is described.
  accepted :
      (flow : List (FlowNode W)) (targets : Targets)
      → validate_jump_if kinds specs flow ≡ some targets
      → FlowIsValid flow × ((t : String) → targets t ≡ places t flow)
  unfolding validate_jump_if validate_node
  accepted [] targets h = (
    tt,
    λ t. ap (λ f. f t) (sym (some-injective first_targets targets h)) ∙ first-places [] refl t,
  )
  accepted (node ∷ flow) targets h =
      let (held, e, after) = bind_some (validate_jump_if kinds specs flow) _ targets h in
      let (valid, same) = accepted flow held e in
      elim (text_cases node.filter_name end) [
        | inl (is_end, named) ↦
            let kept : some held ≡ some targets =
              subst
                (λ b. (if b then some held else validate_node kinds specs node held) ≡ some targets)
                is_end after in
            (
              (valid, inl named),
              λ t.
                  ap (λ f. f t) (sym (some-injective held targets kept))
                  ∙ same t
                  ∙ rw is_end (omega arith),
            )
        | inr (not_end, _) ↦
            let checked : validate_node kinds specs node held ≡ some targets =
              subst
                (λ b. (if b then some held else validate_node kinds specs node held) ≡ some targets)
                not_end after in
            let (spec, found, after_spec) =
              bind_some (lookup node.filter_name specs) _ targets checked in
            let (results, known, after_results) =
              bind_some (kinds spec.kind) _ targets after_spec in
            let (jumps, counted) = if_some after_results in
            (
              (
                valid,
                inr (
                  spec,
                  results,
                  found,
                  known,
                  (check_jumps_iff results held flow same node.jump_if).0 jumps,
                ),
              ),
              λ t. ap (λ f. f t) (sym counted) ∙ bump-places node flow held not_end same t,
            )
      ]

  accepts :
      (flow : List (FlowNode W))
      → FlowIsValid flow
      → (targets : Targets) × (validate_jump_if kinds specs flow ≡ some targets)
  unfolding validate_jump_if validate_node
  accepts [] valid = (first_targets, refl)
  accepts (node ∷ flow) (valid, node_valid) =
      let (held, e) = accepts flow valid in
      let (_, same) = accepted flow held e in
      elim (text_cases node.filter_name end) [
        | inl (is_end, named) ↦ (held, rw (e, is_end) refl)
        | inr (not_end, other) ↦ elim node_valid [
          | inl named ↦ absurd (other named)
          | inr (spec, results, found, known, jumps) ↦ (
            bump (alias_of node) held,
            rw
                (
                  e,
                  not_end,
                  found,
                  known,
                  (check_jumps_iff results held flow same node.jump_if).1 jumps,
                )
                refl,
          )
        ]
      ]

  -- The validation of a flow succeeds just when every node is an end or names a known filter and each
  -- of its jumps is on no result or on one of its kind's results, to a name that is in exactly one
  -- place behind the node, where the built in end is one place.
  pub validate_jump_if-FlowIsValid :
      (flow : List (FlowNode W))
      → ((targets : Targets) × (validate_jump_if kinds specs flow ≡ some targets))
        ↔ FlowIsValid flow
  validate_jump_if-FlowIsValid flow = (λ (targets, e). (accepted flow targets e).0, accepts flow)
