-- ===== src/Pipeline/Generations.antt =====
-- pkg/object/pipeline/pipeline.go: `Validate` and `reload`. The code of the filters' kinds, which
-- makes an instance, by `Init` or by `Inherit` from the instance before, is the parameter `create`.
-- The resilience policies that `reload` hands to the filters are left out.
use easegress.Prelude.{
  Option, none, some, ◌>>=◌, List, [], ◌∷◌, map, if◌then◌else◌, String, leb, length,
}
use text.Mathlib.Text.{◌==◌}
use easegress.Pipeline.{
  Filter, FlowNode, FilterSpec, Targets, end, lookup, collect_specs, validate_jump_if,
}

pub record Spec {ℓ} (W : Type ℓ) : Type ℓ where
  pub flow : List (FlowNode W)
  pub filters : List FilterSpec

pub record Pipeline {ℓ} (W : Type ℓ) : Type ℓ where
  pub filters : List (String × Filter W)
  pub flow : List (FlowNode W)

module _ {ℓ} {W : Type ℓ} where
  -- A node of the flow that is made for a spec without one.
  abbrev pub plain_node : FilterSpec → FlowNode W
  plain_node spec = record {
    filter_name = spec.name;
    filter_alias = "";
    namespace = "";
    jump_if = [];
    filter = none;
  }

  -- The filter instance of a node, nil for the end.
  abbrev pub bind_node : List (String × Filter W) → FlowNode W → FlowNode W
  bind_node filters node =
      if node.filter_name == end
      then node
      else record node { filter = lookup node.filter_name filters }

  -- `getFilter` of the generation before, if there is one.
  abbrev pub get_filter : Option (Pipeline W) → String → Option (Filter W)
  get_filter none name = none
  get_filter (some p) name = lookup name p.filters

  -- `Validate`, with the specifications that it has collected.
  unfoldable pub validate :
      (String → Option (List String)) → Spec W → Option (List (String × FilterSpec) × Targets)
  unfolding validate_jump_if
  validate kinds spec = do
    specs ← collect_specs spec.filters []
    targets ← validate_jump_if kinds specs spec.flow
    some (specs, targets)

  module _ (create : FilterSpec → Option (Option (Filter W) → Filter W)) where
    -- The loop over the filters: the instances by their names.
    unfoldable pub create_filters :
        Option (Pipeline W)
        → List FilterSpec
        → List (String × Filter W)
        → Option (List (String × Filter W))
    create_filters prev [] filters = some filters
    create_filters prev (spec ∷ specs) filters = do
      start ← create spec
      create_filters prev specs ((spec.name, start (get_filter prev spec.name)) ∷ filters)

    -- `reload`
    unfoldable pub reload : Option (Pipeline W) → Spec W → Option (Pipeline W)
    unfolding create_filters
    reload prev spec = create_filters prev spec.filters [] >>= λ filters.
        let flow = if leb (length spec.flow) 0 then map plain_node spec.filters else spec.flow in
        some (record { filters = filters; flow = map (bind_node filters) flow })
