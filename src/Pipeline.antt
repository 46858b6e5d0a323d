-- ===== src/Pipeline.antt =====
-- pkg/object/pipeline/pipeline.go: the flow of a pipeline, its validation and how it is run. A filter
-- is a function on the request's context, which holds all that filters read and write; the times in
-- the statistics are left out. `none` is a Go panic.
pub mod Jumps
pub mod Runs
pub mod Seek
pub mod Handle
pub mod Generations
pub mod Specs
pub mod Binding
pub mod Loading
pub mod Around
pub mod Append
pub mod Chain
mod Examples
use text.Mathlib.Text.{◌==◌}
use easegress.Prelude.{
  ℕ, ◌+◌, Bool, true, false, not, ◌&&◌, ◌||◌, Option, none, some, ◌>>=◌, List, [], ◌∷◌, ◌++◌,
  if◌then◌else◌, String,
}
use easegress.Prelude as Prelude

-- The part of pkg/context that a pipeline itself uses, and the rest, `W`, for the filters.
pub record Context {ℓ} (W : Type ℓ) : Type ℓ where
  pub active_ns : String
  pub world : W

-- A filter instance: its kind's name and `Handle`.
pub record Filter {ℓ} (W : Type ℓ) : Type ℓ where
  pub kind : String
  pub handle : Context W → Context W × String

pub record FlowNode {ℓ} (W : Type ℓ) : Type ℓ where
  pub filter_name : String
  pub filter_alias : String
  pub namespace : String
  pub jump_if : List (String × String)
  pub filter : Option (Filter W)

pub record FilterStat : Type 0 where
  pub name : String
  pub kind : String
  pub result : String

-- What `filters.NewSpec` makes of a filter's specification.
pub record FilterSpec : Type 0 where
  pub name : String
  pub kind : String

-- `BuiltInFilterEnd`
abbrev pub end : String
end = "END"

-- `UseNamespace`
unfoldable pub use_namespace {ℓ} : {W : Type ℓ} → String → Context W → Context W
use_namespace ns c =
    if ns == "" then record c { active_ns = "DEFAULT" } else record c { active_ns = ns }

-- `filterAlias`
abbrev pub alias_of {ℓ} : {W : Type ℓ} → FlowNode W → String
alias_of node = if node.filter_alias == "" then node.filter_name else node.filter_alias

-- `StrInSlice`
abbrev pub str_in_slice : String → List String → Bool
str_in_slice s [] = false
str_in_slice s (t ∷ ts) = if t == s then true else str_in_slice s ts

-- `m[key]` of a map that is written as a list.
abbrev pub lookup {ℓ} : {A : Type ℓ} → String → List (String × A) → Option A
lookup key [] = none
lookup key ((k, a) ∷ entries) = if k == key then some a else lookup key entries

-- `validTargets`, a map to numbers that are 0 for a missing key, and its `++`.
abbrev pub Targets : Type 0
Targets = String → ℕ

abbrev pub first_targets : Targets
first_targets t = if t == end then 1 else 0

abbrev pub bump : String → Targets → Targets
bump name targets t = if t == name then targets t + 1 else targets t

-- The entries of one node's `jumpIf`: the results are the kind's and the targets stand later, once.
abbrev pub check_jumps : List String → Targets → List (String × String) → Bool
check_jumps results targets [] = true
check_jumps results targets ((result, target) ∷ jumps) =
    let later = check_jumps results targets jumps in
    if not (result == "") && not (str_in_slice result results)
    then false
    else if Prelude.◌==◌ (targets target) 1
    then later
    else false

-- `ValidateJumpIf`, from the last node to the first; `kinds` are the results of the registered kinds.
module _ {ℓ} {W : Type ℓ} (kinds : String → Option (List String))
    (specs : List (String × FilterSpec)) where
  unfoldable pub validate_node : FlowNode W → Targets → Option Targets
  validate_node node targets = do
    spec ← lookup node.filter_name specs
    results ← kinds spec.kind
    if check_jumps results targets node.jump_if then some (bump (alias_of node) targets) else none

  unfoldable pub validate_jump_if : List (FlowNode W) → Option Targets
  unfolding validate_node
  validate_jump_if [] = some first_targets
  validate_jump_if (node ∷ flow) = do
    targets ← validate_jump_if flow
    if node.filter_name == end then some targets else validate_node node targets

-- The specifications of the filters by their names, with no name twice and none the built in one.
abbrev pub collect_specs :
    List FilterSpec → List (String × FilterSpec) → Option (List (String × FilterSpec))
collect_specs [] specs = some specs
collect_specs (spec ∷ rest) specs =
    let collected = collect_specs rest ((spec.name, spec) ∷ specs) in
    if spec.name == end
    then none
    else elim (lookup spec.name specs) [ none ↦ collected | some _ ↦ none ]

-- What one round of the loop in `doHandle` does with a node, when `next` is the target of a jump.
pub data Turn {ℓ} (W : Type ℓ) : Type ℓ where
  skips : Turn W
  stops : Turn W
  handles : Context W → FilterStat → String → Turn W

-- The name that the flow goes on with after a result: "" for the node that follows.
abbrev pub next_of : String → List (String × String) → String
next_of result jump_if = elim (lookup result jump_if) [
  | none ↦ if result == "" then "" else end
  | some target ↦ target
]

module _ {ℓ} {W : Type ℓ} where
  unfoldable pub run_filter : Context W → FlowNode W → Filter W → Turn W
  unfolding use_namespace
  run_filter c node filter =
      let (c', result) = filter.handle (use_namespace node.namespace c) in
      handles c' (record { name = alias_of node; kind = filter.kind; result = result })
        (next_of result node.jump_if)

  unfoldable pub visit : Context W → String → FlowNode W → Option (Turn W)
  unfolding run_filter
  visit c next node =
      if not (next == "") && not (next == alias_of node)
      then some skips
      else if node.filter_name == end
      then some stops
      else (node.filter >>= λ filter. some (run_filter c node filter))

  -- The loop of `doHandle`, and what the function returns with the context: the last result, the
  -- statistics and whether the flow saw its end.
  unfoldable pub do_nodes :
      Context W
      → String
      → String
      → List FilterStat
      → List (FlowNode W)
      → Option (Context W × String × List FilterStat × Bool)
  unfolding visit
  do_nodes c result next stats [] = some (c, result, stats, false)
  do_nodes c result next stats (node ∷ flow) = elim (visit c next node) [
    | none ↦ none
    | some skips ↦ do_nodes c result next stats flow
    | some stops ↦ some (c, result, stats, true)
    | some (handles c' stat next') ↦ elim (next' == end) [
      | true ↦ some (c', stat.result, stats ++ (stat ∷ []), true)
      | false ↦ do_nodes c' stat.result next' (stats ++ (stat ∷ [])) flow
    ]
  ]

  -- `doHandle`
  unfoldable pub do_handle :
      Context W
      → List (FlowNode W)
      → List FilterStat
      → Option (Context W × String × List FilterStat × Bool)
  unfolding do_nodes
  do_handle c flow stats = do_nodes c "" "" stats flow
