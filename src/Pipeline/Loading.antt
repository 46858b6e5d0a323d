-- ===== src/Pipeline/Loading.antt =====
-- pkg/object/pipeline/pipeline.go: a spec that `Validate` accepts, loaded by `reload`.
use text.Mathlib.TextEquality.{eq_iff}
use mathlib.Core.Option.{none-ne-some}
use easegress.Prelude.{
  ◌≡◌, ◌≢◌, ◌⊎◌, inl, inr, refl, sym, ◌∙◌, subst, Option, some, List, [], ◌∷◌, map, if◌then◌else◌,
  String, Bool-cases, All, bind_some, length, leb,
}
use easegress.Pipeline.{
  Context, Filter, FlowNode, FilterSpec, Targets, end, lookup, collect_specs, validate_jump_if,
  do_handle,
}
use easegress.Pipeline.Jumps.{OneOf, FlowIsValid, text_cases, validate_jump_if-FlowIsValid}
use easegress.Pipeline.Runs.{Outcome, Follows, IsBound}
use easegress.Pipeline.Handle.{do_handle-Follows}
use easegress.Pipeline.Generations.{
  Spec, Pipeline, plain_node, bind_node, get_filter, validate, create_filters, reload,
}
use easegress.Pipeline.Specs.{names, collect-All, collect_only}
use easegress.Pipeline.Binding.{FlowIsValid-bind}

-- What the registry of the filters' kinds gives for a specification that `NewSpec` has made.
abbrev pub IsRegistered {ℓ} :
    {W : Type ℓ}
    → (String → Option (List String))
    → (FilterSpec → Option (Option (Filter W) → Filter W))
    → FilterSpec
    → Type ℓ
IsRegistered {W = W} kinds create spec =
    ((results : List String) × (kinds spec.kind ≡ some results))
    × ((start : Option (Filter W) → Filter W) × (create spec ≡ some start))
    × (spec.name ≢ "")

module _ {ℓ} {W : Type ℓ} (kinds : String → Option (List String))
    (create : FilterSpec → Option (Option (Filter W) → Filter W)) where
  -- An instance is made for each filter and found by its name.
  create_filters-All :
      (prev : Option (Pipeline W)) (rest : List FilterSpec) (filters : List (String × Filter W))
      → All (IsRegistered kinds create) rest
      → (made : List (String × Filter W)) × (create_filters create prev rest filters ≡ some made)
        × ((n : String)
            → ((f : Filter W) × (lookup n filters ≡ some f)) ⊎ OneOf n (names rest)
            → (f : Filter W) × (lookup n made ≡ some f))
  unfolding create_filters
  create_filters-All prev [] filters registered =
      (filters, refl, λ n h. elim h [ inl has ↦ has | inr never ↦ absurd never ])
  create_filters-All prev (spec ∷ rest) filters ((_, (start, makes), _), registered) =
      let filter = start (get_filter prev spec.name) in
      let (made, e, finds) =
        create_filters-All prev rest ((spec.name, filter) ∷ filters) registered in
      let here : (n : String)
          → spec.name ≡ n
          → (f : Filter W) × (lookup n ((spec.name, filter) ∷ filters) ≡ some f) =
        λ n same. (filter, rw ((eq_iff spec.name n).1 same) refl) in
      (
        made,
        rw makes e,
        λ n h. elim (text_cases spec.name n) [
          | inl (_, same) ↦ finds n (inl (here n same))
          | inr (d, other) ↦ elim h [
            | inl (f, has) ↦ finds n (inl (f, rw d has))
            | inr (inl same) ↦ absurd (other same)
            | inr (inr among) ↦ finds n (inr among)
          ]
        ],
      )

  -- A name among those of registered specifications is not empty.
  registered-name :
      (specs : List FilterSpec) (n : String)
      → All (IsRegistered kinds create) specs
      → OneOf n (names specs)
      → n ≢ ""
  registered-name [] n _ among = absurd among
  registered-name (spec ∷ specs) n ((_, _, given), rest) (inl same) = λ p. given (same ∙ p)
  registered-name (spec ∷ specs) n (_, rest) (inr among) = registered-name specs n rest among

  -- The flow that is made for a spec without one is valid.
  plain_node-FlowIsValid :
      (rest : List FilterSpec) (specs : List (String × FilterSpec))
      → All (λ spec. (spec.name ≢ end) × (lookup spec.name specs ≡ some spec)) rest
      → All (IsRegistered kinds create) rest
      → FlowIsValid {W = W} kinds specs (map plain_node rest)
  plain_node-FlowIsValid [] specs found registered = tt
  plain_node-FlowIsValid (spec ∷ rest) specs ((_, here), found)
        (((results, known), _, _), registered) =
      (plain_node-FlowIsValid rest specs found registered, inr (spec, results, here, known, tt))

  -- A node that is valid is bound, if the end has no alias.
  abbrev pub IsPlain : FlowNode W → Type 0
  IsPlain node = node.filter_name ≡ end → node.filter_alias ≡ ""

  map-IsBound :
      (spec : List FilterSpec) (specs : List (String × FilterSpec))
      (made : List (String × Filter W)) (flow : List (FlowNode W))
      → ((n : String) (s : FilterSpec) → lookup n specs ≡ some s → OneOf n (names spec))
      → ((n : String) → OneOf n (names spec) → (f : Filter W) × (lookup n made ≡ some f))
      → All (IsRegistered kinds create) spec
      → FlowIsValid kinds specs flow
      → All IsPlain flow
      → All IsBound (map (bind_node made) flow)
  map-IsBound spec specs made [] only finds registered valid plain = tt
  map-IsBound spec specs made (node ∷ flow) only finds registered (valid, here) (is_plain, plain) =
      (
        elim (text_cases node.filter_name end) [
          | inl (e, named) ↦
              let kept : bind_node made node ≡ node = rw e refl in
              subst IsBound (sym kept) (inl (named, is_plain named))
          | inr (e, other) ↦
              let kept : bind_node made node
                  ≡ record node { filter = lookup node.filter_name made } =
                rw e refl in
              elim here [
                | inl named ↦ absurd (other named)
                | inr (found, _, has, _, _) ↦
                    let among = only node.filter_name found has in
                    subst IsBound (sym kept) (
                      inr (
                        other,
                        registered-name spec node.filter_name registered among,
                        finds node.filter_name among,
                      ))
              ]
        ],
        map-IsBound spec specs made flow only finds registered valid plain,
      )

  -- The flow that is loaded, before its nodes are bound.
  abbrev loaded_flow : Spec W → List (FlowNode W)
  loaded_flow spec = if leb (length spec.flow) 0 then map plain_node spec.filters else spec.flow

  plain_node-IsPlain : (rest : List FilterSpec) → All IsPlain (map plain_node rest)
  plain_node-IsPlain [] = tt
  plain_node-IsPlain (spec ∷ rest) = ((λ e. refl), plain_node-IsPlain rest)

  loaded_flow-FlowIsValid :
      (spec : Spec W) (specs : List (String × FilterSpec)) (targets : Targets)
      → collect_specs spec.filters [] ≡ some specs
      → validate_jump_if kinds specs spec.flow ≡ some targets
      → All (IsRegistered kinds create) spec.filters
      → All IsPlain spec.flow
      → FlowIsValid kinds specs (loaded_flow spec) × All IsPlain (loaded_flow spec)
  loaded_flow-FlowIsValid spec specs targets collected accepted registered plain =
      elim (Bool-cases (leb (length spec.flow) 0)) [
        | inl e ↦ rw e (
          plain_node-FlowIsValid spec.filters specs (collect-All spec.filters [] specs collected)
              registered,
          plain_node-IsPlain spec.filters,
        )
        | inr e ↦
            rw e ((validate_jump_if-FlowIsValid kinds specs spec.flow).0 (targets, accepted), plain)
      ]

  -- A spec that Validate accepts, whose filters are of registered kinds and have names, and whose ends
  -- have no alias, is loaded by reload without a panic, over any previous generation, with its own
  -- flow or with all its filters in a row; and every request then runs through it without a panic
  -- and follows its jumps.
  pub reload-Follows :
      (spec : Spec W) (specs : List (String × FilterSpec)) (targets : Targets)
      (prev : Option (Pipeline W)) (c : Context W)
      → validate kinds spec ≡ some (specs, targets)
      → All (IsRegistered kinds create) spec.filters
      → All IsPlain spec.flow
      → (p : Pipeline W) × (reload create prev spec ≡ some p)
        × ((o : Outcome W) × (do_handle c p.flow [] ≡ some o) × Follows c "" [] p.flow o)
  unfolding validate reload
  reload-Follows spec specs targets prev c valid registered plain =
      let (collected, e, rest) =
        bind_some (collect_specs spec.filters []) _ (specs, targets) valid in
      let (counted, accepted, same) =
        bind_some (validate_jump_if kinds collected spec.flow) _ (specs, targets) rest in
      let (made, makes, finds) = create_filters-All prev spec.filters [] registered in
      let (flow_valid, flow_plain) =
        loaded_flow-FlowIsValid spec collected counted e accepted registered plain in
      let flow = map (bind_node made) (loaded_flow spec) in
      let bound_valid = FlowIsValid-bind kinds collected made (loaded_flow spec) flow_valid in
      let (held, again) = (validate_jump_if-FlowIsValid kinds collected flow).1 bound_valid in
      let bound =
        map-IsBound spec.filters collected made (loaded_flow spec)
          (λ n s found. elim (collect_only spec.filters [] collected e n s found) [
            | inl never ↦ absurd (none-ne-some s never)
            | inr among ↦ among
          ])
          (λ n among. finds n (inr among)) registered flow_valid flow_plain in
      (
        record { filters = made; flow = flow },
        rw makes refl,
        do_handle-Follows W kinds collected c flow [] held again bound,
      )
