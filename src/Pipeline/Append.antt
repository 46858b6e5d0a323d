-- ===== src/Pipeline/Append.antt =====
-- pkg/object/pipeline/pipeline.go: flows one behind the other.
use text.Mathlib.TextEquality.{eq_iff}
use mathlib.Core.List.{append_assoc}
use easegress.Pipeline.Jumps.{text_cases}
use easegress.Prelude.{
  ◌≡◌, ◌≢◌, ◌⊎◌, inl, inr, refl, ap, ◌∙◌, true, Option, none, some, List, [], ◌∷◌, ◌++◌,
  if◌then◌else◌, String,
}
use easegress.Pipeline.{
  Context, Filter, FlowNode, FilterStat, end, lookup, use_namespace, next_of, handles, run_filter,
  do_nodes,
}
use easegress.Pipeline.Runs.{Outcome, Follows, finishes, reaches_end, goes_on, ends, jumps, stat_of}
use easegress.Pipeline.Seek.{resume, do_nodes-resume}
use easegress.Pipeline.Handle.{do_nodes-end, do_nodes-jump, resume-end, resume_go, empty_other}

ends_next :
    (result : String) (jump_if : List (String × String))
    → (lookup result jump_if ≡ some end) ⊎ ((result ≢ "") × (lookup result jump_if ≡ none))
    → next_of result jump_if ≡ end
ends_next result jump_if (inl found) = rw (found, next_of) refl
ends_next result jump_if (inr (full, missing)) = elim (text_cases result "") [
  | inl (_, same) ↦ absurd (full same)
  | inr (e, _) ↦ rw (missing, next_of, e) refl
]

module _ {ℓ} {W : Type ℓ} where
  -- A node that runs a filter has one.
  Follows-filter :
      {c : Context W} {last : String} {stats : List FilterStat} {node : FlowNode W}
      {flow : List (FlowNode W)} {o : Outcome W}
      → Follows c last stats (node ∷ flow) o
      → node.filter_name ≢ end
      → (filter : Filter W) × (node.filter ≡ some filter)
  Follows-filter (reaches_end c last stats node flow named) other = absurd (other named)
  Follows-filter (goes_on c c' last result stats node flow filter o other' has h e l f) other =
      (filter, has)
  Follows-filter (ends c c' last result stats node flow filter other' has h l) other = (filter, has)
  Follows-filter
        (jumps c c' last result t stats node found flow before after filter o other' has h l n f p a
          s d k r)
        other =
      (filter, has)

  -- The last result before a flow matters only to its result.
  pub Follows-last :
      {c : Context W} {last : String} {stats : List FilterStat} {flow : List (FlowNode W)}
      {o : Outcome W}
      → Follows c last stats flow o
      → (last' : String) → (r : String) × Follows c last' stats flow (o.0, r, o.2, o.3)
  Follows-last (finishes c last stats) last' = (last', finishes c last' stats)
  Follows-last (reaches_end c last stats node flow named) last' =
      (last', reaches_end c last' stats node flow named)
  Follows-last (goes_on c c' last result stats node flow filter o other has h e l f) last' =
      (o.1, goes_on c c' last' result stats node flow filter o other has h e l f)
  Follows-last (ends c c' last result stats node flow filter other has h l) last' =
      (result, ends c c' last' result stats node flow filter other has h l)
  Follows-last
        (jumps c c' last result t stats node found flow before after filter o other has h l n f p a
          s d k r)
        last' =
      (
        o.1,
        jumps c c' last' result t stats node found flow before after filter o other has h l n f p a
            s d k r,
      )

  -- What follows a flow in front of other nodes.
  abbrev pub then_run : Outcome W → List (FlowNode W) → Option (Outcome W)
  then_run (c, last, stats, ended) rest =
      if ended then some (c, last, stats, true) else do_nodes c last "" stats rest

  called :
      (c c' : Context W) (last result target : String) (stats : List FilterStat) (node : FlowNode W)
      (flow : List (FlowNode W)) (filter : Filter W)
      → node.filter_name ≢ end
      → node.filter ≡ some filter
      → filter.handle (use_namespace node.namespace c) ≡ (c', result)
      → next_of result node.jump_if ≡ target
      → do_nodes c last "" stats (node ∷ flow)
        ≡ resume stats flow (handles c' (stat_of node filter result) target)
  unfolding run_filter
  called c c' last result target stats node flow filter other has h leads =
      do_nodes-resume c last "" stats node flow filter (inl refl) other has
      ∙ ap
          (λ r.
            resume stats flow (handles r.0 (stat_of node filter r.1) (next_of r.1 node.jump_if)))
          h
      ∙ ap (λ t. resume stats flow (handles c' (stat_of node filter result) t)) leads

  pub Follows-append :
      {c : Context W} {last : String} {stats : List FilterStat} {flow : List (FlowNode W)}
      {o : Outcome W}
      → Follows c last stats flow o
      → (rest : List (FlowNode W)) → do_nodes c last "" stats (flow ++ rest) ≡ then_run o rest
  Follows-append (finishes c last stats) rest = refl
  Follows-append (reaches_end c last stats node flow named) rest =
      do_nodes-end c last stats node (flow ++ rest) named
  Follows-append (goes_on c c' last result stats node flow filter o other has h e l f) rest =
      called c c' last result "" stats node (flow ++ rest) filter other has h
        (rw (l, next_of, (eq_iff result "").1 e) refl)
      ∙ resume_go stats (flow ++ rest) c' (stat_of node filter result) "" "" refl empty_other
      ∙ Follows-append f rest
  Follows-append (ends c c' last result stats node flow filter other has h l) rest =
      called c c' last result end stats node (flow ++ rest) filter other has h
        (ends_next result node.jump_if l)
      ∙ resume-end stats (flow ++ rest) c' (stat_of node filter result) end refl
  Follows-append
        (jumps c c' last result t stats node found flow before after filter o other has h l n f p a
          s d k r)
        rest =
      let stats' = stats ++ (stat_of node filter result ∷ []) in
      called c c' last result t stats node (flow ++ rest) filter other has h (rw (l, next_of) refl)
      ∙ resume_go stats (flow ++ rest) c' (stat_of node filter result) t t refl f
      ∙ ap (λ nodes. do_nodes c' result t stats' (nodes ++ rest)) p
      ∙ ap (do_nodes c' result t stats') (rw append_assoc refl)
      ∙ do_nodes-jump c' t result stats' before found (after ++ rest) n a s d (Follows-filter r d)
      ∙ Follows-append r rest
