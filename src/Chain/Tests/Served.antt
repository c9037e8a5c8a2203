-- ===== src/Chain/Tests/Served.antt =====
-- What the requests to the work plans and the chains together have done.
use go_mivia.Base.{◌≡◌, refl, false, List, [], ◌∷◌, map}
use go_mivia.Base.Result.{Result, ok}
use go_mivia.WorkPlan.TaskStatus.{ready, claimed}
use go_mivia.WorkPlan.Store.{found_task}
use go_mivia.WorkPlan.Tests.{test_task}
use go_mivia.WorkPlan.Tests.Stories.{choosing}
use go_mivia.WorkPlan.Tests.Handled.{serving}
use go_mivia.WorkPlan.Service.{new_id}
use go_mivia.WorkPlan.Service.Tasks.{list_open_work_tasks, is_open_task}
use go_mivia.WorkPlan.Service.Plans.{get_work_plan}
use go_mivia.Chain.Model.{ChainRun, StageStatus, stage_completed, stage_queued, chain_completed}
use go_mivia.Chain.Rules
use go_mivia.Chain.Memory as Chains
use go_mivia.Chain.Run.{git_ops_source_work_plan_id, context_refs_for_input, render_template}
use go_mivia.Chain.Service.Stages.{
  title_of, resolve_all, validate_configured_workflows, release_tasks,
}
use go_mivia.Chain.Service.Start.{start, start_first, new_run, started, start_result}
use go_mivia.Chain.Service.Handle.{
  retry_git_ops, retry_blocked_git_ops, finalize_git_ops, create_draft, drafted,
}
use go_mivia.Chain.System.{
  fan_out, plan_api, chain_service, status_handler, serve_system, serve_requests,
}
use go_mivia.Chain.System.Both.{plan_memory}
use go_mivia.Chain.Tests.Calls.{handling}
use go_mivia.Chain.Tests.System.{releases, last_world, undrafted, second_task}

serving_both : Unit {0}
unfolding serving choosing handling new_id list_open_work_tasks is_open_task get_work_plan
    Rules.safe_optional_ref Rules.safe_project_object Rules.contains_sensitive Rules.safe_text
    Rules.normalize_input_ref Rules.ref_of_kind Rules.jira_key_pattern Chains.create_chain_run
    git_ops_source_work_plan_id context_refs_for_input render_template title_of resolve_all
    validate_configured_workflows release_tasks start start_first new_run started start_result
    retry_git_ops retry_blocked_git_ops finalize_git_ops create_draft drafted fan_out plan_api
    chain_service status_handler serve_system serve_requests releases
serving_both = tt

-- The chain has released the task, and the run has claimed it.
first_task_claimed :
    found_task plan_memory "p1" "task_1" last_world.db
    ≡ ok (record (test_task claimed "run_1") {
      agent_run_ids = "run_1" ∷ "workflow_chain_run" ∷ [];
      updated_at = 107;
      claimed_at = 107;
    })
unfolding serving_both
first_task_claimed = refl

-- The automation has released the other one.
second_task_released :
    found_task plan_memory "p1" "task_2" last_world.db
    ≡ ok (record second_task { status = ready; updated_at = 109 })
unfolding serving_both
second_task_released = refl

-- The run whose draft had failed is completed.
draft_made :
    (Chains.get_chain_run "p1" "r2" last_world.db.1).0
    ≡ ok (record undrafted {
      status = chain_completed;
      git_ops_ready = false;
      pull_request_ref = "pr_1";
      next_action = "workflow chain completed with draft PR GitOps output";
      updated_at = 114;
    })
unfolding serving_both
draft_made = refl

abbrev stage_statuses : Result ChainRun → List StageStatus
stage_statuses (ok run) = map (λ stage. stage.status) run.stage_runs
stage_statuses _ = []

-- The chain that was started has completed its first stage and compiled the second.
chain_moved_on :
    stage_statuses (Chains.get_chain_run "p1" "workflow_chain_run" last_world.db.1).0
    ≡ stage_completed ∷ stage_queued ∷ []
unfolding serving_both
chain_moved_on = refl
