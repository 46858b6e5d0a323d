-- ===== src/Pipeline/Chain.antt =====
-- pkg/object/pipeline/pipeline.go: `HandleWithBeforeAfter` against one flow.
use easegress.Prelude.{
  inl, inr, ◌≡◌, refl, sym, ap, ◌∙◌, Bool, true, false, Option, some, List, [], ◌++◌, String,
  Bool-cases, All,
}
use mathlib.Core.List.{append-nil}
use easegress.Pipeline.{
  Context, FlowNode, FilterStat, FilterSpec, Targets, validate_jump_if, do_nodes, do_handle,
}
use easegress.Pipeline.Generations.{Pipeline}
use easegress.Pipeline.Runs.{Outcome, Follows, IsBound}
use easegress.Pipeline.Handle.{do_handle-Follows}
use easegress.Pipeline.Append.{Follows-last, Follows-append, then_run}
use easegress.Pipeline.Around.{HandleOption, handle_with_before_after, run_before, run_after}

-- No flow runs behind one that has seen its end.
abbrev pub no_fallthrough : HandleOption
no_fallthrough = record { fallthrough_before = false; fallthrough_pipeline = false }

module _ {ℓ} {W : Type ℓ} where
  -- A flow that the validation accepted, with its filters.
  abbrev pub IsLoaded : (String → Option (List String)) → List (FlowNode W) → Type ℓ
  IsLoaded kinds flow =
      (specs : List (String × FilterSpec)) × (targets : Targets) × (validate_jump_if kinds specs
          flow
        ≡ some targets)
      × All IsBound flow

  runs_on :
      (kinds : String → Option (List String)) (c : Context W) (flow : List (FlowNode W))
      (stats : List FilterStat)
      → IsLoaded kinds flow
      → (o : Outcome W) × (do_handle c flow stats ≡ some o) × Follows c "" stats flow o
  runs_on kinds c flow stats (specs, targets, accepted, bound) =
      do_handle-Follows W kinds specs c flow stats targets accepted bound

  -- The same after another last result: all but the result is the same.
  runs_after :
      {c : Context W} {stats : List FilterStat} {flow : List (FlowNode W)} {o : Outcome W}
      → Follows c "" stats flow o
      → (last : String) (rest : List (FlowNode W))
      → (r : String) × (do_nodes c last "" stats (flow ++ rest) ≡ then_run (o.0, r, o.2, o.3) rest)
  runs_after followed last rest =
      let (r, again) = Follows-last followed last in (r, Follows-append again rest)

  then_run-nil : (o : Outcome W) → then_run o [] ≡ some o
  unfolding do_nodes
  then_run-nil (c, last, stats, true) = refl
  then_run-nil (c, last, stats, false) = refl

  then_run_end :
      (o : Outcome W) (rest : List (FlowNode W))
      → o.3 ≡ true
      → then_run o rest ≡ some (o.0, o.1, o.2, true)
  then_run_end o rest e = rw e refl

  then_run_on :
      (o : Outcome W) (rest : List (FlowNode W))
      → o.3 ≡ false
      → then_run o rest ≡ do_nodes o.0 o.1 "" o.2 rest
  then_run_on o rest e = rw e refl

  -- Nothing stands behind.
  runs_last :
      {c : Context W} {stats : List FilterStat} {flow : List (FlowNode W)} {o : Outcome W}
      → Follows c "" stats flow o
      → (last : String) → (r : String) × (do_nodes c last "" stats flow ≡ some (o.0, r, o.2, o.3))
  unfolding do_nodes
  runs_last {c} {stats} {flow} {o} followed last =
      let (r, e) = runs_after followed last [] in
      (
        r,
        ap (do_nodes c last "" stats) (sym (append-nil flow)) ∙ e ∙ then_run-nil (o.0, r, o.2, o.3),
      )

  module _ (c : Context W) (before p after : Pipeline W) (o1 : Outcome W)
      (e1 : do_handle c before.flow [] ≡ some o1) where
    handle_ends_before :
        o1.3 ≡ true
        → handle_with_before_after c p (some before) (some after) no_fallthrough
          ≡ some (o1.0, o1.1, o1.2)
    unfolding handle_with_before_after run_before run_after
    handle_ends_before h = rw (e1, h) refl

    handle_ends_within :
        (o2 : Outcome W)
        → o1.3 ≡ false
        → do_handle o1.0 p.flow o1.2 ≡ some o2
        → o2.3 ≡ true
        → handle_with_before_after c p (some before) (some after) no_fallthrough
          ≡ some (o2.0, o2.1, o2.2)
    unfolding handle_with_before_after run_before run_after
    handle_ends_within o2 h e2 k = rw (e1, h, e2, k) refl

    handle_ends_after :
        (o2 o3 : Outcome W)
        → o1.3 ≡ false
        → do_handle o1.0 p.flow o1.2 ≡ some o2
        → o2.3 ≡ false
        → do_handle o2.0 after.flow o2.2 ≡ some o3
        → handle_with_before_after c p (some before) (some after) no_fallthrough
          ≡ some (o3.0, o3.1, o3.2)
    unfolding handle_with_before_after run_before run_after
    handle_ends_after o2 o3 h e2 k e3 = rw (e1, h, e2, k, e3) refl

  -- For flows that the validation accepted and whose nodes are bound, without the fallthroughs: the
  -- flow of the pipeline between those of the other two leaves the context and the statistics, and
  -- calls the filters, that the three flows do which are put together to one; neither panics.
  pub handle_with_before_after-append :
      (kinds : String → Option (List String)) (c : Context W) (before p after : Pipeline W)
      → IsLoaded kinds before.flow
      → IsLoaded kinds p.flow
      → IsLoaded kinds after.flow
      → (c' : Context W) × (result result' : String) × (stats : List FilterStat) × (ended : Bool)
        × (handle_with_before_after c p (some before) (some after) no_fallthrough
            ≡ some (c', result, stats))
        × (do_handle c (before.flow ++ (p.flow ++ after.flow)) []
            ≡ some (c', result', stats, ended))
  unfolding do_handle
  handle_with_before_after-append kinds c before p after b_loaded p_loaded a_loaded =
      let (o1, e1, f1) = runs_on kinds c before.flow [] b_loaded in
      let first = Follows-append f1 (p.flow ++ after.flow) in
      elim (Bool-cases o1.3) [
        | inl h ↦ (
          o1.0,
          o1.1,
          o1.1,
          o1.2,
          true,
          handle_ends_before c before p after o1 e1 h,
          first ∙ then_run_end o1 (p.flow ++ after.flow) h,
        )
        | inr h ↦
            let (o2, e2, f2) = runs_on kinds o1.0 p.flow o1.2 p_loaded in
            let (r2, second) = runs_after f2 o1.1 after.flow in
            let behind = first ∙ then_run_on o1 (p.flow ++ after.flow) h ∙ second in
            elim (Bool-cases o2.3) [
              | inl k ↦ (
                o2.0,
                o2.1,
                r2,
                o2.2,
                true,
                handle_ends_within c before p after o1 e1 o2 h e2 k,
                behind ∙ then_run_end (o2.0, r2, o2.2, o2.3) after.flow k,
              )
              | inr k ↦
                  let (o3, e3, f3) = runs_on kinds o2.0 after.flow o2.2 a_loaded in
                  let (r3, third) = runs_last f3 r2 in
                  (
                    o3.0,
                    o3.1,
                    r3,
                    o3.2,
                    o3.3,
                    handle_ends_after c before p after o1 e1 o2 o3 h e2 k e3,
                    behind ∙ then_run_on (o2.0, r2, o2.2, o2.3) after.flow k ∙ third,
                  )
            ]
      ]
