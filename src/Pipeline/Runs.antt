-- ===== src/Pipeline/Runs.antt =====
-- pkg/object/pipeline/pipeline.go: a valid flow, run by `doHandle`, follows its jumps.
use easegress.Prelude.{◌≡◌, ◌≢◌, ◌⊎◌, Bool, true, false, none, some, List, [], ◌∷◌, ◌++◌, String}
use easegress.Pipeline.{Context, Filter, FlowNode, FilterStat, end, alias_of, lookup, use_namespace}
use easegress.Pipeline.Jumps.{count_alias}

-- What `doHandle` leaves: the context, the last result, the statistics, whether the end was seen.
abbrev pub Outcome {ℓ} : Type ℓ → Type ℓ
Outcome W = Context W × String × List FilterStat × Bool

module _ {ℓ} {W : Type ℓ} where
  abbrev pub AllOther : String → List (FlowNode W) → Type 0
  AllOther t [] = Unit
  AllOther t (node ∷ flow) = (alias_of node ≢ t) × AllOther t flow

  -- The statistics of one call of a filter.
  abbrev pub stat_of : FlowNode W → Filter W → String → FilterStat
  stat_of node filter result = record { name = alias_of node; kind = filter.kind; result = result }

  -- How a flow is meant to run, from a context, a last result and the statistics so far: a node's
  -- filter is called in the node's namespace, and its result says which node comes next.
  pub data Follows
      : Context W → String → List FilterStat → List (FlowNode W) → Outcome W → Type ℓ where
    finishes :
        (c : Context W) (last : String) (stats : List FilterStat)
        → Follows c last stats [] (c, last, stats, false)
    reaches_end :
        (c : Context W) (last : String) (stats : List FilterStat) (node : FlowNode W)
        (flow : List (FlowNode W))
        → node.filter_name ≡ end
        → Follows c last stats (node ∷ flow) (c, last, stats, true)
    goes_on :
        (c c' : Context W) (last result : String) (stats : List FilterStat) (node : FlowNode W)
        (flow : List (FlowNode W)) (filter : Filter W) (o : Outcome W)
        → node.filter_name ≢ end
        → node.filter ≡ some filter
        → filter.handle (use_namespace node.namespace c) ≡ (c', result)
        → result ≡ ""
        → lookup result node.jump_if ≡ none
        → Follows c' result (stats ++ (stat_of node filter result ∷ [])) flow o
        → Follows c last stats (node ∷ flow) o
    ends :
        (c c' : Context W) (last result : String) (stats : List FilterStat) (node : FlowNode W)
        (flow : List (FlowNode W)) (filter : Filter W)
        → node.filter_name ≢ end
        → node.filter ≡ some filter
        → filter.handle (use_namespace node.namespace c) ≡ (c', result)
        → (lookup result node.jump_if ≡ some end)
          ⊎ ((result ≢ "") × (lookup result node.jump_if ≡ none))
        → Follows c last stats
            (node ∷ flow)
            (c', result, stats ++ (stat_of node filter result ∷ []), true)
    jumps :
        (c c' : Context W) (last result target : String) (stats : List FilterStat)
        (node found : FlowNode W) (flow before after : List (FlowNode W)) (filter : Filter W)
        (o : Outcome W)
        → node.filter_name ≢ end
        → node.filter ≡ some filter
        → filter.handle (use_namespace node.namespace c) ≡ (c', result)
        → lookup result node.jump_if ≡ some target
        → target ≢ ""
        → target ≢ end
        → flow ≡ before ++ (found ∷ after)
        → AllOther target before
        → alias_of found ≡ target
        → found.filter_name ≢ end
        → count_alias target after ≡ 0
        → Follows c' result (stats ++ (stat_of node filter result ∷ [])) (found ∷ after) o
        → Follows c last stats (node ∷ flow) o

  -- A node that is an end has no alias, and another one has a name and its filter.
  abbrev pub IsBound : FlowNode W → Type ℓ
  IsBound node =
      ((node.filter_name ≡ end) × (node.filter_alias ≡ ""))
      ⊎ ((node.filter_name ≢ end)
          × (node.filter_name ≢ "")
          × ((filter : Filter W) × (node.filter ≡ some filter)))
