-- ===== src/Chain/Service/Ordered/Changes.antt =====
-- The changes of a run by the service, and the order of its stages.
use go_mivia.Base.{
  ℕ, String, ◌≡◌, ◌≢◌, refl, sym, ap, subst, ◌∙◌, true, none, some, List, [], ◌∷◌, All, arith, map,
  string_eq, ◌==◌, if_ind, Option, if◌then◌else◌,
}
use go_mivia.Base.Result.{ok}
use go_mivia.Base.Exec.{ok-inj}
use go_mivia.Chain.Model.{
  StageStatus, Config, StageConfig, StageRun, stage_planned, stage_status_eq,
}
use go_mivia.Chain.Rules.{Engine}
use go_mivia.Chain.Cycle.{deps_of}
use go_mivia.Chain.Service.{WorkflowCompileResult}
use go_mivia.Chain.Run.{next_ready_stage, first_ready, status_from, status_of}
use go_mivia.Chain.Run.Order.{AreDone, InOrder, PlansLater, has_left}
use go_mivia.Chain.Run.Order.Change.{InOrder-change}
use go_mivia.Chain.Run.Order.Complete.{
  InOrder-completion, PlansLater-completion, InOrder-start, PlansLater-planned,
}
use go_mivia.Chain.Service.Stages.{config, stage_run_of}
use go_mivia.Chain.Service.Start.{planned_stage, set_first, new_run, started}
use go_mivia.Chain.Service.Handle.{
  change_stage, set_last_reason, block_stage, blocked_on_draft, blocked_on_stage, with_compiled,
}
use go_mivia.Chain.Service.Stable.{IsStable, first_stage}
use go_mivia.Chain.Service.Ordered.{config-IsFound, StartsFree, IsOrderly, IsDistinct-refs}

PlansLater-change :
    (change : StageRun → StageRun) (ref : String) (runs : List StageRun)
    → ((run : StageRun) → (change run).status ≢ stage_planned)
    → PlansLater runs
    → PlansLater (change_stage change ref runs)
PlansLater-change change ref [] moved h = tt
PlansLater-change change ref (run ∷ runs) moved (p, h) = (
  if_ind (λ r. r.status ≡ stage_planned → r.work_plan_id ≡ "") (run.stage_ref == ref) (change run)
      run (λ _ planned. absurd (moved run planned)) (λ _. p),
  PlansLater-change change ref runs moved h,
)

PlansLater-set_last_reason :
    (reason : String) (runs : List StageRun)
    → PlansLater runs
    → PlansLater (set_last_reason reason runs)
PlansLater-set_last_reason reason [] h = tt
PlansLater-set_last_reason reason (run ∷ []) h = h
PlansLater-set_last_reason reason (run ∷ next ∷ runs) (p, h) =
    (p, PlansLater-set_last_reason reason (next ∷ runs) h)

status_from-set_last_reason :
    (reason : String) (runs : List StageRun) (found : Option StageStatus) (ref : String)
    → status_from found (set_last_reason reason runs) ref ≡ status_from found runs ref
unfolding status_from
status_from-set_last_reason reason [] found ref = refl
status_from-set_last_reason reason (run ∷ []) found ref = refl
status_from-set_last_reason reason (run ∷ next ∷ runs) found ref =
    status_from-set_last_reason reason (next ∷ runs)
      (if run.stage_ref == ref then some run.status else found) ref

status_of-set_last_reason :
    (reason : String) (runs : List StageRun) (ref : String)
    → status_of (set_last_reason reason runs) ref ≡ status_of runs ref
unfolding status_of
status_of-set_last_reason reason runs ref = status_from-set_last_reason reason runs none ref

AreDone-set_last_reason :
    (reason : String) (runs : List StageRun) (deps : List String)
    → AreDone runs deps
    → AreDone (set_last_reason reason runs) deps
AreDone-set_last_reason reason runs [] h = tt
AreDone-set_last_reason reason runs (dep ∷ deps) (p, h) =
    (status_of-set_last_reason reason runs dep ∙ p, AreDone-set_last_reason reason runs deps h)

InOrder-set_last_reason :
    (reason : String) (stages : List StageConfig) (runs : List StageRun)
    → InOrder stages runs
    → InOrder stages (set_last_reason reason runs)
InOrder-set_last_reason reason stages runs order = record {
  at = λ ref left. AreDone-set_last_reason reason runs (deps_of stages ref) (
      order.at ref
        (subst (λ o. has_left o ≡ true) (status_of-set_last_reason reason runs ref) left));
}

module _ (workflow : String) (compiled : WorkflowCompileResult) (t : ℕ) where
  started-InOrder :
      (first : StageConfig) (stages : List StageConfig)
      → first_stage stages ≡ some first
      → first.depends_on ≡ []
      → InOrder stages
          (set_first (stage_run_of first workflow compiled t) (map planned_stage stages))
  unfolding stage_run_of
  started-InOrder first [] e free = cc
  started-InOrder first (stage ∷ stages) e free =
      InOrder-start planned_stage (λ _. refl) (λ _. refl) stage stages
        (stage_run_of first workflow compiled t) (ap (λ o. ref_or o) (sym e))
        (ap (λ o. deps_or o) e ∙ free)
    where
      ref_or : Option StageConfig → String
      ref_or none = ""
      ref_or (some s) = s.stage_ref

      deps_or : Option StageConfig → List String
      deps_or none = []
      deps_or (some s) = s.depends_on

  started-PlansLater :
      (first : StageConfig) (stages : List StageConfig)
      → PlansLater (set_first (stage_run_of first workflow compiled t) (map planned_stage stages))
  unfolding stage_run_of
  started-PlansLater first [] = tt
  started-PlansLater first (stage ∷ stages) = (
    λ planned. absurd (ground (arith, planned)),
    PlansLater-planned planned_stage (λ _. refl) stages,
  )

module _ (engine : Engine) (configs : List Config) (free : All StartsFree configs) where
  found_again :
      (p c : String) (cfg other : Config)
      → config engine configs p c ≡ ok cfg
      → config engine configs cfg.project_id cfg.chain_ref ≡ ok other
      → cfg ≡ other
  found_again p c cfg other known e =
      let ((project, chain, _), _) = config-IsFound StartsFree engine configs p c cfg free known in
      ok-inj cfg other (
        sym known
        ∙ ap (λ q. config engine configs q c) (sym project)
        ∙ ap (λ d. config engine configs cfg.project_id d) (sym chain)
        ∙ e)

  -- The changes that the service makes keep the stages of a run in their order.
  pub IsOrderly-IsStable :
      IsStable engine configs
        (λ plan_id. plan_id ≢ "")
        (λ run. IsOrderly engine configs run.project_id run.chain_ref run.stage_runs)
  unfolding started new_run blocked_on_draft blocked_on_stage with_compiled next_ready_stage
  IsOrderly-IsStable = record {
    same = λ run other ep ec es good.
        subst (λ p. IsOrderly engine configs p other.chain_ref other.stage_runs) (sym ep)
          (subst (λ c. IsOrderly engine configs run.project_id c other.stage_runs) (sym ec)
            (subst (λ s. IsOrderly engine configs run.project_id run.chain_ref s) (sym es) good));
    starts = λ cfg p c input_ref run_id trace_id id workflow t u v first compiled known e. (
      started-PlansLater workflow compiled u first cfg.stages,
      λ other again.
          subst
            (λ f.
              InOrder f.stages
                (set_first (stage_run_of first workflow compiled u) (map planned_stage cfg.stages)))
            (found_again p c cfg other known again)
            (started-InOrder workflow compiled u first cfg.stages e
              ((config-IsFound StartsFree engine configs p c cfg free known).1 first e)),
    );
    fails = λ run problem (later, order). (
      PlansLater-set_last_reason _ run.stage_runs later,
      λ cfg known. InOrder-set_last_reason _ cfg.stages run.stage_runs (order cfg known),
    );
    blocks = λ cfg run next known ready (later, order). (
      PlansLater-change block_stage next.stage_ref run.stage_runs
          (λ _ e. absurd (ground (arith, e))) later,
      λ other again.
          InOrder-change block_stage next.stage_ref (λ _ e. e) other.stages run.stage_runs next
            (IsDistinct-refs engine configs run.project_id run.chain_ref other again)
            (subst (λ f. first_ready run.stage_runs f.stages ≡ some next)
              (ok-inj cfg other (sym known ∙ again)) ready)
            refl (order other again),
    );
    compiles = λ cfg run next stage known ready named queued (later, order). (
      PlansLater-change (λ _. stage) next.stage_ref run.stage_runs
          (λ _ e. absurd (ground (arith, queued, e))) later,
      λ other again.
          InOrder-change (λ _. stage) next.stage_ref (λ _ _. named) other.stages run.stage_runs next
            (IsDistinct-refs engine configs run.project_id run.chain_ref other again)
            (subst (λ f. first_ready run.stage_runs f.stages ≡ some next)
              (ok-inj cfg other (sym known ∙ again)) ready)
            refl (order other again),
    );
    completes = λ run plan_id stages t named completion (later, order). (
      PlansLater-completion plan_id named run.stage_runs stages completion later,
      λ cfg known.
          InOrder-completion plan_id named cfg.stages run.stage_runs stages completion later
            (order cfg known),
    );
  }
