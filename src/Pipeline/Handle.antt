-- ===== src/Pipeline/Handle.antt =====
-- pkg/object/pipeline/pipeline.go: `doHandle` on valid flows.
use text.Mathlib.Text.{◌==◌}
use text.Mathlib.TextEquality.{eq_iff}
use mathlib.Core.Option.{some-injective}
use easegress.Prelude.{
  subst, length-append, ℕ, suc, zero, ◌+◌, ◌≤◌, ◌≡◌, ◌≢◌, ◌⊎◌, inl, inr, refl, sym, ap, ◌∙◌, true,
  false, Option, none, some, List, [], ◌∷◌, ◌++◌, if◌then◌else◌, String, arith, Bool-cases, clash,
  Option-cases, All, length,
}
use easegress.Pipeline.{
  Filter, Context, FlowNode, FilterStat, FilterSpec, end, alias_of, lookup, use_namespace, next_of,
  stops, handles, run_filter, visit, do_nodes, do_handle, validate_jump_if, Targets,
}
use easegress.Pipeline.Jumps.{
  count_alias, places, JumpIsValid, FlowIsValid, NodeIsValid, text_cases,
  validate_jump_if-FlowIsValid,
}
use easegress.Pipeline.Runs.{
  Outcome, Follows, finishes, reaches_end, goes_on, ends, jumps, AllOther, IsBound, stat_of,
}
use easegress.Pipeline.Seek.{
  HasFilter, bound_filter, HasFilter-alias, locate, resume, do_nodes-resume, visit_other,
}

-- Where a result leads to.
next_cases :
    (result : String) (jump_if : List (String × String))
    → ((result ≡ "") × (lookup result jump_if ≡ none) × (next_of result jump_if ≡ ""))
      ⊎ (((result ≢ "") × (lookup result jump_if ≡ none) × (next_of result jump_if ≡ end))
          ⊎ ((target : String) × (lookup result jump_if ≡ some target)
              × (next_of result jump_if ≡ target)))
next_cases result jump_if = elim (Option-cases (lookup result jump_if)) [
  | inl missing ↦ elim (text_cases result "") [
    | inl (e, same) ↦ inl (same, missing, rw (missing, next_of, e) refl)
    | inr (e, other) ↦ inr (inl (other, missing, rw (missing, next_of, e) refl))
  ]
  | inr (target, found) ↦ inr (inr (target, found, rw (found, next_of) refl))
]

pub empty_other : "" ≢ end
empty_other e = clash ((eq_iff "" end).1 e) refl

module _ {ℓ} {W : Type ℓ} where
  pub do_nodes-end :
      (c : Context W) (last : String) (stats : List FilterStat) (node : FlowNode W)
      (flow : List (FlowNode W))
      → node.filter_name ≡ end
      → do_nodes c last "" stats (node ∷ flow) ≡ some (c, last, stats, true)
  unfolding do_nodes visit
  do_nodes-end c last stats node flow named =
      let stopped : visit c "" node ≡ some stops =
        rw ((eq_iff node.filter_name end).1 named) refl in
      rw (stopped, do_nodes) refl

  -- With the nodes before it skipped, a jump's place is gone on from as if it were next.
  pub do_nodes-jump :
      (c : Context W) (t last : String) (stats : List FilterStat) (before : List (FlowNode W))
      (found : FlowNode W) (after : List (FlowNode W))
      → t ≢ ""
      → AllOther t before
      → alias_of found ≡ t
      → found.filter_name ≢ end
      → ((filter : Filter W) × (found.filter ≡ some filter))
      → do_nodes c last t stats (before ++ (found ∷ after))
        ≡ do_nodes c last "" stats (found ∷ after)
  unfolding do_nodes
  do_nodes-jump c t last stats [] found after given others same other (filter, has) =
      do_nodes-resume c last t stats found after filter (inr same) other has
      ∙ sym (do_nodes-resume c last "" stats found after filter (inl refl) other has)
  do_nodes-jump c t last stats (node ∷ before) found after given (other, others) same runs has =
      rw (visit_other c t node given other, do_nodes)
        (do_nodes-jump c t last stats before found after given others same runs has)

  lookup-places :
      (results : List String) (flow : List (FlowNode W)) (entries : List (String × String))
      (result target : String)
      → All (JumpIsValid results flow) entries
      → lookup result entries ≡ some target
      → places target flow ≡ 1
  lookup-places results flow [] result target valid h = cc
  lookup-places results flow ((r, t) ∷ entries) result target ((_, one), valid) h =
      elim (Bool-cases (r == result)) [
        | inl e ↦
            subst (λ target. places target flow ≡ 1)
              (some-injective t target
                (subst (λ b. (if b then some t else lookup result entries) ≡ some target) e h))
              one
        | inr e ↦
            lookup-places results flow entries result target valid
              (subst (λ b. (if b then some t else lookup result entries) ≡ some target) e h)
      ]

  pub resume-end :
      (stats : List FilterStat) (flow : List (FlowNode W)) (c : Context W) (stat : FilterStat)
      (next : String)
      → next ≡ end
      → resume stats flow (handles c stat next) ≡ some (c, stat.result, stats ++ (stat ∷ []), true)
  resume-end stats flow c stat next e = rw ((eq_iff next end).1 e) refl

  pub resume_go :
      (stats : List FilterStat) (flow : List (FlowNode W)) (c : Context W) (stat : FilterStat)
      (next target : String)
      → next ≡ target
      → target ≢ end
      → resume stats flow (handles c stat next)
        ≡ do_nodes c stat.result target (stats ++ (stat ∷ [])) flow
  resume_go stats flow c stat next target e other = elim (text_cases next end) [
    | inl (_, same) ↦ absurd (other (sym e ∙ same))
    | inr (h, _) ↦ rw (h, e) refl
  ]

  All-suffix :
      (P : FlowNode W → Type ℓ) (before rest : List (FlowNode W))
      → All P (before ++ rest)
      → All P rest
  All-suffix P [] rest h = h
  All-suffix P (node ∷ before) rest (_, h) = All-suffix P before rest h

module _ {ℓ} (W : Type ℓ) (kinds : String → Option (List String))
    (specs : List (String × FilterSpec)) where
  FlowIsValid-suffix :
      (before rest : List (FlowNode W))
      → FlowIsValid kinds specs (before ++ rest)
      → FlowIsValid kinds specs rest
  FlowIsValid-suffix [] rest h = h
  FlowIsValid-suffix (node ∷ before) rest (h, _) = FlowIsValid-suffix before rest h

  jump_places :
      (node : FlowNode W) (flow : List (FlowNode W)) (result target : String)
      → NodeIsValid kinds specs node flow
      → node.filter_name ≢ end
      → lookup result node.jump_if ≡ some target
      → target ≢ end
      → count_alias target flow ≡ 1
  jump_places node flow result target (inl named) other h far = absurd (other named)
  jump_places node flow result target (inr (spec, results, _, _, entries)) other h far =
      let one = lookup-places results flow node.jump_if result target entries h in
      elim (text_cases target end) [
        | inl (_, same) ↦ absurd (far same)
        | inr (e, _) ↦
            let counted : 0 + count_alias target flow ≡ 1 =
              subst (λ b. (if b then 1 else 0) + count_alias target flow ≡ 1) e one in
            omega arith
      ]

  -- What is shown of the flows of at most `n` nodes.
  abbrev Followed : ℕ → Type ℓ
  Followed n =
      (c : Context W) (last : String) (stats : List FilterStat) (flow : List (FlowNode W))
      → length flow ≤ n
      → FlowIsValid kinds specs flow
      → All IsBound flow
      → (o : Outcome W) × (do_nodes c last "" stats flow ≡ some o) × Follows c last stats flow o

  follow_filter :
      (n : ℕ)
      → Followed n
      → (c : Context W) (last : String) (stats : List FilterStat) (node : FlowNode W)
        (flow : List (FlowNode W))
      → length flow ≤ n
      → FlowIsValid kinds specs flow
      → NodeIsValid kinds specs node flow
      → HasFilter node
      → All IsBound flow
      → (o : Outcome W) × (do_nodes c last "" stats (node ∷ flow) ≡ some o)
        × Follows c last stats (node ∷ flow) o
  unfolding run_filter
  follow_filter n later c last stats node flow le valid here (other, given, (filter, has)) bound =
      let called = filter.handle (use_namespace node.namespace c) in
      let stat = stat_of node filter called.1 in
      let runs : do_nodes c last "" stats (node ∷ flow)
          ≡ resume stats flow (run_filter c node filter) =
        do_nodes-resume c last "" stats node flow filter (inl refl) other has in
      elim (next_cases called.1 node.jump_if) [
        | inl (empty, missing, leads) ↦
            let (o, result, followed) =
              later called.0 called.1 (stats ++ (stat ∷ [])) flow le valid bound in
            (
              o,
              runs ∙ resume_go stats flow called.0 stat _ "" leads empty_other ∙ result,
              goes_on c called.0 last called.1 stats node flow filter o other has refl empty missing
                  followed,
            )
        | inr (inl (full, missing, leads)) ↦ (
          (called.0, called.1, stats ++ (stat ∷ []), true),
          runs ∙ resume-end stats flow called.0 stat _ leads,
          ends c called.0 last called.1 stats node flow filter other has refl (inr (full, missing)),
        )
        | inr (inr (target, found, leads)) ↦ elim (text_cases target end) [
          | inl (_, same) ↦ (
            (called.0, called.1, stats ++ (stat ∷ []), true),
            runs ∙ resume-end stats flow called.0 stat _ (leads ∙ same),
            ends c called.0 last called.1 stats node flow filter other has refl
                (inl (found ∙ ap some same)),
          )
          | inr (_, far) ↦
              let (before, place, after, parts, others, same, at, rest) =
                locate target flow far bound
                  (jump_places node flow called.1 target here other found far) in
              let named : target ≢ "" = λ p. HasFilter-alias place at (same ∙ p) in
              let stats' = stats ++ (stat ∷ []) in
              let (o, result, followed) =
                later called.0 called.1 stats' (place ∷ after)
                  (omega (arith, length-append before (place ∷ after), ap length parts))
                  (FlowIsValid-suffix before (place ∷ after)
                    (subst (FlowIsValid kinds specs) parts valid))
                  (All-suffix IsBound before (place ∷ after) (subst (All IsBound) parts bound)) in
              (
                o,
                runs
                    ∙ resume_go stats flow called.0 stat _ target leads far
                    ∙ ap (do_nodes called.0 called.1 target stats') parts
                    ∙ do_nodes-jump called.0 target called.1 stats' before place after named others
                        same at.0 at.2
                    ∙ result,
                jumps c called.0 last called.1 target stats node place flow before after filter o
                    other has refl found named far parts others same at.0 rest followed,
              )
        ]
      ]

  follow : (n : ℕ) → Followed n
  unfolding do_nodes
  follow n c last stats [] le valid bound = ((c, last, stats, false), refl, finishes c last stats)
  follow zero c last stats (node ∷ flow) le valid bound = absurd (omega arith)
  follow (suc n) c last stats (node ∷ flow) le (valid, here) (bound_here, bound) =
      elim (text_cases node.filter_name end) [
        | inl (_, named) ↦ (
          (c, last, stats, true),
          do_nodes-end c last stats node flow named,
          reaches_end c last stats node flow named,
        )
        | inr (_, other) ↦
            follow_filter n (follow n) c last stats node flow (omega arith) valid here
              (bound_filter node bound_here other) bound
      ]

  -- A flow that the validation accepts, whose ends have no alias and whose other nodes have a name and
  -- a filter, does not panic when it is run, and follows its jumps: after each result the flow ends,
  -- goes on with the node behind, or with the one node of the jump's name, which is always found.
  pub do_handle-Follows :
      (c : Context W) (flow : List (FlowNode W)) (stats : List FilterStat) (targets : Targets)
      → validate_jump_if kinds specs flow ≡ some targets
      → All IsBound flow
      → (o : Outcome W) × (do_handle c flow stats ≡ some o) × Follows c "" stats flow o
  unfolding do_handle
  do_handle-Follows c flow stats targets accepted bound =
      follow (length flow) c "" stats flow (omega arith)
        ((validate_jump_if-FlowIsValid kinds specs flow).0 (targets, accepted)) bound
