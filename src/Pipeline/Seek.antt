-- ===== src/Pipeline/Seek.antt =====
-- pkg/object/pipeline/pipeline.go: one round of the loop in `doHandle`, and the place a jump is to.
use text.Mathlib.Text.{◌==◌}
use text.Mathlib.TextEquality.{eq_iff}
use easegress.Prelude.{
  ◌+◌, ◌≡◌, ◌≢◌, ◌⊎◌, inl, inr, refl, sym, ap, ◌∙◌, true, Option, none, some, List, [], ◌∷◌, ◌++◌,
  if◌then◌else◌, String, arith, Bool-cases, All,
}
use easegress.Pipeline.{
  Context, Filter, FlowNode, FilterStat, end, alias_of, use_namespace, next_of, Turn, skips, stops,
  handles, run_filter, visit, do_nodes,
}
use easegress.Pipeline.Jumps.{count_alias, text_cases}
use easegress.Pipeline.Runs.{Outcome, AllOther, IsBound}

module _ {ℓ} {W : Type ℓ} where
  abbrev pub HasFilter : FlowNode W → Type ℓ
  HasFilter node =
      (node.filter_name ≢ end)
      × (node.filter_name ≢ "")
      × ((filter : Filter W) × (node.filter ≡ some filter))

  end-alias : (node : FlowNode W) → IsBound node → node.filter_name ≡ end → alias_of node ≡ end
  end-alias node (inl (named, plain)) e = rw ((eq_iff node.filter_alias "").1 plain) named
  end-alias node (inr (other, _, _)) e = absurd (other e)

  pub bound_filter : (node : FlowNode W) → IsBound node → node.filter_name ≢ end → HasFilter node
  bound_filter node (inl (named, plain)) other = absurd (other named)
  bound_filter node (inr has) other = has

  pub HasFilter-alias : (node : FlowNode W) → HasFilter node → alias_of node ≢ ""
  HasFilter-alias node (_, given, _) = elim (text_cases node.filter_alias "") [
    | inl (e, _) ↦ rw e given
    | inr (e, other) ↦ rw e other
  ]

  count-skip :
      (t : String) (node : FlowNode W) (flow : List (FlowNode W))
      → (node.filter_name ≡ end) ⊎ (t ≢ alias_of node)
      → count_alias t (node ∷ flow) ≡ count_alias t flow
  count-skip t node flow (inl named) = rw ((eq_iff node.filter_name end).1 named) (omega arith)
  count-skip t node flow (inr differs) = elim (text_cases t (alias_of node)) [
    | inl (_, same) ↦ absurd (differs same)
    | inr (e, _) ↦ elim (Bool-cases (node.filter_name == end)) [
      | inl h ↦ rw h (omega arith)
      | inr h ↦ rw (h, e) (omega arith)
    ]
  ]

  -- A name that is in one place is found there.
  pub locate :
      (t : String) (flow : List (FlowNode W))
      → t ≢ end
      → All IsBound flow
      → count_alias t flow ≡ 1
      → (before : List (FlowNode W)) × (found : FlowNode W) × (after : List (FlowNode W)) × (flow
          ≡ before ++ (found ∷ after))
        × AllOther t before
        × (alias_of found ≡ t)
        × HasFilter found
        × (count_alias t after ≡ 0)
  locate t [] other bound one = absurd (omega arith)
  locate t (node ∷ flow) other (here, bound) one = elim (text_cases node.filter_name end) [
    | inl (is_end, named) ↦
        let (before, found, after, parts, others, same, runs, rest) =
          locate t flow other bound (sym (count-skip t node flow (inl named)) ∙ one) in
        let elsewhere : alias_of node ≢ t = λ p. other (sym p ∙ end-alias node here named) in
        (node ∷ before, found, after, ap (◌∷◌ node) parts, (elsewhere, others), same, runs, rest)
    | inr (not_end, named) ↦ elim (text_cases t (alias_of node)) [
      | inl (e, same) ↦
          let counted : count_alias t (node ∷ flow) ≡ 1 + count_alias t flow =
            rw (not_end, e) refl in
          ([], node, flow, refl, tt, sym same, bound_filter node here named, omega arith)
      | inr (e, differs) ↦
          let (before, found, after, parts, others, same, runs, rest) =
            locate t flow other bound (sym (count-skip t node flow (inr differs)) ∙ one) in
          (
            node ∷ before,
            found,
            after,
            ap (◌∷◌ node) parts,
            (λ p. differs (sym p), others),
            same,
            runs,
            rest,
          )
    ]
  ]

  pub visit_other :
      (c : Context W) (t : String) (node : FlowNode W)
      → t ≢ ""
      → alias_of node ≢ t
      → visit c t node ≡ some skips
  unfolding visit
  visit_other c t node given other = elim (text_cases t "") [
    | inl (_, same) ↦ absurd (given same)
    | inr (e, _) ↦ elim (text_cases t (alias_of node)) [
      | inl (_, same) ↦ absurd (other (sym same))
      | inr (d, _) ↦ rw (e, d) refl
    ]
  ]

  pub visit_filter :
      (c : Context W) (next : String) (node : FlowNode W) (filter : Filter W)
      → (next ≡ "") ⊎ (alias_of node ≡ next)
      → node.filter_name ≢ end
      → node.filter ≡ some filter
      → visit c next node ≡ some (run_filter c node filter)
  unfolding visit
  visit_filter c next node filter turn other has = elim (text_cases node.filter_name end) [
    | inl (_, named) ↦ absurd (other named)
    | inr (e, _) ↦ elim turn [
      | inl none_next ↦ rw ((eq_iff next "").1 none_next, e, has) refl
      | inr same ↦ elim (Bool-cases (next == "")) [
        | inl h ↦ rw (h, e, has) refl
        | inr h ↦ rw (h, (eq_iff next (alias_of node)).1 (sym same), e, has) refl
      ]
    ]
  ]

  -- How the flow goes on behind a filter.
  abbrev pub resume : List FilterStat → List (FlowNode W) → Turn W → Option (Outcome W)
  resume stats flow skips = none
  resume stats flow stops = none
  resume stats flow (handles c stat next) =
      if next == end
      then some (c, stat.result, stats ++ (stat ∷ []), true)
      else do_nodes c stat.result next (stats ++ (stat ∷ [])) flow

  pub do_nodes-resume :
      (c : Context W) (last next : String) (stats : List FilterStat) (node : FlowNode W)
      (flow : List (FlowNode W)) (filter : Filter W)
      → (next ≡ "") ⊎ (alias_of node ≡ next)
      → node.filter_name ≢ end
      → node.filter ≡ some filter
      → do_nodes c last next stats (node ∷ flow) ≡ resume stats flow (run_filter c node filter)
  unfolding do_nodes run_filter
  do_nodes-resume c last next stats node flow filter turn other has =
      elim (Bool-cases
        (next_of (filter.handle (use_namespace node.namespace c)).1 node.jump_if == end)) [
          | inl e ↦ rw (visit_filter c next node filter turn other has, do_nodes) (rw e refl)
          | inr e ↦ rw (visit_filter c next node filter turn other has, do_nodes) (rw e refl)
        ]
