-- ===== src/Pipeline/Examples.antt =====
-- A pipeline with a validator, a proxy, an end, and the proxy again under an alias.
use text.Mathlib.Text.{◌==◌}
use text.Mathlib.TextEquality.{eq_iff}
use easegress.Prelude.{
  ◌≢◌, map, All, Bool, ◌++◌, ◌≡◌, ◌↔◌, refl, inl, inr, false, Option, none, some, List, [], ◌∷◌,
  String, clash, if◌then◌else◌,
}
use easegress.Pipeline.{
  FilterStat, Context, Filter, FlowNode, FilterSpec, Targets, end, validate_jump_if, do_handle,
  use_namespace,
}
use easegress.Pipeline.Generations.{Spec, Pipeline, validate, reload}
use easegress.Pipeline.Loading.{reload-Follows}
use easegress.Pipeline.Around.{handle_with_before_after}
use easegress.Pipeline.Chain.{no_fallthrough, IsLoaded, handle_with_before_after-append}
use easegress.Pipeline.Jumps.{FlowIsValid, validate_jump_if-FlowIsValid}
use easegress.Pipeline.Runs.{Outcome, Follows, IsBound}
use easegress.Pipeline.Handle.{do_handle-Follows}

abbrev kinds : String → Option (List String)
kinds kind =
    if kind == "Validator"
    then some ("invalid" ∷ "fallback" ∷ [])
    else if kind == "Proxy"
    then some []
    else none

abbrev specs : List (String × FilterSpec)
specs =
    ("check", record { name = "check"; kind = "Validator" })
    ∷ ("proxy", record { name = "proxy"; kind = "Proxy" })
    ∷ []

-- The world is the text of the request; the validator gives it back as its result.
abbrev validator : Filter String
validator = record { kind = "Validator"; handle = λ c. (c, c.world) }

abbrev proxy : Filter String
proxy = record { kind = "Proxy"; handle = λ c. (c, "") }

abbrev checking : FlowNode String
checking = record {
  filter_name = "check";
  filter_alias = "";
  namespace = "";
  jump_if = ("invalid", "END") ∷ ("fallback", "again") ∷ [];
  filter = some validator;
}

abbrev checking_only : FlowNode String
checking_only = record checking { jump_if = [] }

abbrev proxying : String → String → FlowNode String
proxying name ns = record {
  filter_name = "proxy";
  filter_alias = name;
  namespace = ns;
  jump_if = [];
  filter = some proxy;
}

abbrev ending : FlowNode String
ending = record {
  filter_name = "END";
  filter_alias = "";
  namespace = "";
  jump_if = [];
  filter = none;
}

abbrev flow : List (FlowNode String)
flow = checking ∷ proxying "" "a" ∷ ending ∷ proxying "again" "b" ∷ []

abbrev asked : String → Context String
asked request = record { active_ns = "DEFAULT"; world = request }

-- A node that is not the end and has its filter.
has_filter :
    (node : FlowNode String) (filter : Filter String)
    → (node.filter_name == end) ≡ false
    → (node.filter_name == "") ≡ false
    → node.filter ≡ some filter
    → IsBound node
has_filter node filter e g has = inr (
  λ p. clash ((eq_iff node.filter_name end).1 p) e,
  λ p. clash ((eq_iff node.filter_name "").1 p) g,
  (filter, has),
)

flow_runs :
    do_handle (asked "fallback") flow []
    ≡ some (
      record { active_ns = "b"; world = "fallback" },
      "",
      record { name = "check"; kind = "Validator"; result = "fallback" }
          ∷ record { name = "again"; kind = "Proxy"; result = "" }
          ∷ [],
      false,
    )
unfolding do_handle use_namespace
flow_runs = refl

validate_jump_if-FlowIsValid_example :
    ((targets : Targets) × (validate_jump_if kinds specs flow ≡ some targets))
    ↔ FlowIsValid kinds specs flow
validate_jump_if-FlowIsValid_example = validate_jump_if-FlowIsValid kinds specs flow

abbrev flow_targets : Option Targets → Targets
flow_targets none = λ t. 0
flow_targets (some targets) = targets

flow-IsBound : All IsBound flow
flow-IsBound = (
  has_filter checking validator refl refl refl,
  (
    has_filter (proxying "" "a") proxy refl refl refl,
    (inl (refl, refl), (has_filter (proxying "again" "b") proxy refl refl refl, tt)),
  ),
)

do_handle-Follows_example :
    (o : Outcome String) × (do_handle (asked "fallback") flow [] ≡ some o)
    × Follows (asked "fallback") "" [] flow o
unfolding validate_jump_if
do_handle-Follows_example =
    do_handle-Follows String kinds specs (asked "fallback") flow []
      (flow_targets (validate_jump_if kinds specs flow)) refl flow-IsBound

-- The same flow as it stands in a spec, whose filters are made when it is loaded.
abbrev create : FilterSpec → Option (Option (Filter String) → Filter String)
create spec =
    if spec.kind == "Validator"
    then some (λ prev. validator)
    else if spec.kind == "Proxy"
    then some (λ prev. proxy)
    else none

abbrev unbound : FlowNode String → FlowNode String
unbound node = record node { filter = none }

abbrev a_spec : Spec String
a_spec = record {
  flow = map unbound flow;
  filters =
      record { name = "check"; kind = "Validator" }
      ∷ record { name = "proxy"; kind = "Proxy" }
      ∷ [];
}

abbrev or_empty :
    Option (List (String × FilterSpec) × Targets) → List (String × FilterSpec) × Targets
or_empty none = ([], λ t. 0)
or_empty (some collected) = collected

given_name : (s : String) → (s == "") ≡ false → s ≢ ""
given_name s e p = clash ((eq_iff s "").1 p) e

not_end : (s : String) → (s == end) ≡ false → s ≢ end
not_end s e p = clash ((eq_iff s end).1 p) e

reload-Follows_example :
    (p : Pipeline String) × (reload create none a_spec ≡ some p)
    × ((o : Outcome String) × (do_handle (asked "invalid") p.flow [] ≡ some o)
        × Follows (asked "invalid") "" [] p.flow o)
unfolding validate
reload-Follows_example =
    reload-Follows kinds create a_spec (or_empty (validate kinds a_spec)).0
      (or_empty (validate kinds a_spec)).1 none (asked "invalid") refl
      (
        (("invalid" ∷ "fallback" ∷ [], refl), (λ prev. validator, refl), given_name "check" refl),
        ((([], refl), (λ prev. proxy, refl), given_name "proxy" refl), tt),
      )
      ((λ p. refl), ((λ p. refl), ((λ p. refl), ((λ p. absurd (not_end "proxy" refl p)), tt))))

-- Pipelines around the flow: the proxy before it, and the validator after it.
abbrev in_front : Pipeline String
in_front = record { filters = []; flow = proxying "" "front" ∷ [] }

abbrev middle : Pipeline String
middle = record { filters = []; flow = flow }

abbrev behind : Pipeline String
behind = record { filters = []; flow = checking_only ∷ [] }

around_runs :
    handle_with_before_after (asked "fallback") middle (some in_front) (some behind) no_fallthrough
    ≡ some (
      record { active_ns = "DEFAULT"; world = "fallback" },
      "fallback",
      record { name = "proxy"; kind = "Proxy"; result = "" }
          ∷ record { name = "check"; kind = "Validator"; result = "fallback" }
          ∷ record { name = "again"; kind = "Proxy"; result = "" }
          ∷ record { name = "check"; kind = "Validator"; result = "fallback" }
          ∷ [],
    )
unfolding handle_with_before_after do_handle use_namespace
around_runs = refl

flow_IsLoaded : IsLoaded kinds flow
unfolding validate_jump_if
flow_IsLoaded = (specs, flow_targets (validate_jump_if kinds specs flow), refl, flow-IsBound)

front_IsLoaded : IsLoaded kinds in_front.flow
unfolding validate_jump_if
front_IsLoaded = (
  specs,
  flow_targets (validate_jump_if kinds specs in_front.flow),
  refl,
  (has_filter (proxying "" "front") proxy refl refl refl, tt),
)

behind_IsLoaded : IsLoaded kinds behind.flow
unfolding validate_jump_if
behind_IsLoaded = (
  specs,
  flow_targets (validate_jump_if kinds specs behind.flow),
  refl,
  (has_filter checking_only validator refl refl refl, tt),
)

handle_with_before_after-append_example :
    (c' : Context String) × (result result' : String) × (stats : List FilterStat) × (ended : Bool)
    × (handle_with_before_after
          (asked "fallback")
          middle
          (some in_front)
          (some behind)
          no_fallthrough
        ≡ some (c', result, stats))
    × (do_handle (asked "fallback") (in_front.flow ++ (flow ++ behind.flow)) []
        ≡ some (c', result', stats, ended))
handle_with_before_after-append_example =
    handle_with_before_after-append kinds (asked "fallback") in_front middle behind front_IsLoaded
      flow_IsLoaded behind_IsLoaded
