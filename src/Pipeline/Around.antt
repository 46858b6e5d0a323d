-- ===== src/Pipeline/Around.antt =====
-- pkg/object/pipeline/pipeline.go: `Handle` and `HandleWithBeforeAfter`. The data of the spec, which
-- is put into the context first, is left out.
use easegress.Prelude.{
  Bool, false, not, ◌||◌, Option, none, some, ◌>>=◌, List, [], String, if◌then◌else◌,
}
use easegress.Pipeline.{Context, FilterStat, do_handle}
use easegress.Pipeline.Generations.{Pipeline}
use easegress.Pipeline.Runs.{Outcome}

-- `HandleWithBeforeAfterOption`
pub record HandleOption : Type 0 where
  pub fallthrough_before : Bool
  pub fallthrough_pipeline : Bool

module _ {ℓ} {W : Type ℓ} where
  -- `Handle`: the context, the result and the statistics for the tag.
  unfoldable pub handle_request :
      Context W → Pipeline W → Option (Context W × String × List FilterStat)
  unfolding do_handle
  handle_request c p = do (c', result, stats, _) ← do_handle c p.flow []; some (c', result, stats)

  unfoldable pub run_before : Context W → Option (Pipeline W) → Option (Outcome W)
  unfolding do_handle
  run_before c none = some (c, "", [], false)
  run_before c (some before) = do_handle c before.flow []

  unfoldable pub run_after : Bool → Outcome W → Option (Pipeline W) → Option (Outcome W)
  unfolding do_handle
  run_after runs o none = some o
  run_after runs o (some after) = if runs then do_handle o.0 after.flow o.2 else some o

  -- `HandleWithBeforeAfter`
  unfoldable pub handle_with_before_after :
      Context W
      → Pipeline W
      → Option (Pipeline W)
      → Option (Pipeline W)
      → HandleOption
      → Option (Context W × String × List FilterStat)
  unfolding run_before run_after
  handle_with_before_after c p before after option = do
    o ← run_before c before
    o' ← (if not o.3 || option.fallthrough_before then do_handle o.0 p.flow o.2 else some o)
    (c', result, stats, _) ← run_after (not o'.3 || option.fallthrough_pipeline) o' after
    some (c', result, stats)
