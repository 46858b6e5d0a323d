-- ===== src/Pipeline/Binding.antt =====
-- pkg/object/pipeline/pipeline.go: a flow stays valid when its nodes are bound.
use text.Mathlib.Text.{◌==◌}
use easegress.Prelude.{
  ◌≡◌, inl, inr, refl, sym, ap, ◌∙◌, subst, Option, List, [], ◌∷◌, map, String, Bool-cases, All,
}
use easegress.Pipeline.{Filter, FlowNode, FilterSpec, end, alias_of, lookup}
use easegress.Pipeline.Jumps.{count_alias, JumpIsValid, FlowIsValid}
use easegress.Pipeline.Generations.{bind_node}

module _ {ℓ} {W : Type ℓ} where
  -- Binding a node changes neither its names nor its jumps.
  pub bind_node-Fields :
      (filters : List (String × Filter W)) (node : FlowNode W)
      → ((bind_node filters node).filter_name ≡ node.filter_name)
        × (alias_of (bind_node filters node) ≡ alias_of node)
        × ((bind_node filters node).jump_if ≡ node.jump_if)
        × ((bind_node filters node).filter_alias ≡ node.filter_alias)
  bind_node-Fields filters node = elim (Bool-cases (node.filter_name == end)) [
    | inl e ↦ rw e (refl, refl, refl, refl)
    | inr e ↦ rw e (refl, refl, refl, refl)
  ]

  count_alias-bind :
      (filters : List (String × Filter W)) (t : String) (flow : List (FlowNode W))
      → count_alias t (map (bind_node filters) flow) ≡ count_alias t flow
  count_alias-bind filters t [] = refl
  count_alias-bind filters t (node ∷ flow) =
      let (named, _, _, same) = bind_node-Fields filters node in
      rw (named, same, count_alias-bind filters t flow) refl

  jumps-bind :
      (filters : List (String × Filter W)) (results : List String) (flow : List (FlowNode W))
      (jumps : List (String × String))
      → All (JumpIsValid results flow) jumps
      → All (JumpIsValid results (map (bind_node filters) flow)) jumps
  jumps-bind filters results flow [] valid = tt
  jumps-bind filters results flow ((r, t) ∷ jumps) ((known, one), valid) = (
    (known, rw (count_alias-bind filters t flow) one),
    jumps-bind filters results flow jumps valid,
  )

  module _ (kinds : String → Option (List String)) (specs : List (String × FilterSpec)) where
    pub FlowIsValid-bind :
        (filters : List (String × Filter W)) (flow : List (FlowNode W))
        → FlowIsValid kinds specs flow
        → FlowIsValid kinds specs (map (bind_node filters) flow)
    FlowIsValid-bind filters [] valid = tt
    FlowIsValid-bind filters (node ∷ flow) (valid, here) =
        let (named, _, jumps, _) = bind_node-Fields filters node in
        (
          FlowIsValid-bind filters flow valid,
          elim here [
            | inl is_end ↦ inl (named ∙ is_end)
            | inr (spec, results, found, known, entries) ↦ inr (
              spec,
              results,
              ap (λ n. lookup n specs) named ∙ found,
              known,
              subst (All (JumpIsValid results (map (bind_node filters) flow))) (sym jumps)
                  (jumps-bind filters results flow node.jump_if entries),
            )
          ],
        )
