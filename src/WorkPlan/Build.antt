-- ===== src/WorkPlan/Build.antt =====
-- The records that the methods of the service in internal/projectworkplan/service.go build from a
-- request: a new plan, the fields of a plan's update, and a new task.
pub mod Laws
use go_mivia.Base.{
  ℕ, String, Bool, true, false, not, ◌&&◌, ◌||◌, List, [], ◌∷◌, string_eq, ◌==◌, ◌!=◌,
  if◌then◌else◌,
}
use go_mivia.Base.Result.{Result, ok, err, invalid_input, reject_if, ◌>>=◌, ◌>>◌}
use go_mivia.WorkPlan.TaskStatus
use go_mivia.WorkPlan.TaskStatus.{TaskStatus, is_terminal_task_status, safe_task_status}
use go_mivia.WorkPlan.PlanStatus
use go_mivia.WorkPlan.PlanStatus.{PlanStatus}
use go_mivia.WorkPlan.Safe.{
  safe_ref, safe_optional_ref, safe_required_text, safe_optional_text, safe_project_object,
  safe_resume_instructions, safe_text_list, safe_ref_list, safe_path_list,
  safe_work_plan_isolation_mode, safe_decomposition_quality, assess_decomposition,
}
use go_mivia.WorkPlan.Model.{
  WorkPlan, WorkTask, CreateWorkPlanInput, UpdateWorkPlanStatusInput, CreateWorkTaskInput,
}
use go_mivia.WorkPlan.Transition.{or_keep}

-- A plan that names a worktree, a branch or a workspace is isolated, unless it says how.
unfoldable pub isolation_of : String → String → String → String → String
isolation_of mode worktree branch workspace =
    if mode == "" && (worktree != "" || branch != "" || workspace != "")
    then "dedicated_worktree"
    else mode

-- `CreateWorkPlan`, up to the clock and the identifier.
unfoldable pub build_plan : CreateWorkPlanInput → Result WorkPlan
build_plan input = do
  project_id ← safe_ref input.project_id "project_id"
  plan_ref ← safe_ref input.plan_ref "plan_ref"
  user_request_ref ← safe_optional_ref input.user_request_ref "user_request_ref"
  title ← safe_required_text input.title "title" 200
  goal ← safe_required_text input.goal_summary "goal_summary" 500
  owner ← safe_optional_ref input.owner_agent "owner_agent"
  run_id ← safe_optional_ref input.created_by_run_id "created_by_run_id"
  trace_id ← safe_optional_ref input.trace_id "trace_id"
  resume ← safe_optional_text input.resume_summary "resume_summary" 500
  isolation_mode ← safe_work_plan_isolation_mode input.isolation_mode
  parallel_group_ref ← safe_optional_ref input.parallel_group_ref "parallel_group_ref"
  workspace_ref ← safe_optional_ref input.workspace_ref "workspace_ref"
  git_base_ref ← safe_optional_ref input.git_base_ref "git_base_ref"
  git_branch_ref ← safe_optional_ref input.git_branch_ref "git_branch_ref"
  git_worktree_ref ← safe_optional_ref input.git_worktree_ref "git_worktree_ref"
  ok (record {
    id = "";
    project_id = project_id;
    plan_ref = plan_ref;
    user_request_ref = user_request_ref;
    title = title;
    goal_summary = goal;
    status = PlanStatus.planned;
    owner_agent = owner;
    created_by_run_id = run_id;
    trace_id = trace_id;
    current_task_id = "";
    resume_summary = resume;
    outcome = "";
    isolation_mode = isolation_of isolation_mode git_worktree_ref git_branch_ref workspace_ref;
    parallel_group_ref = parallel_group_ref;
    workspace_ref = workspace_ref;
    git_base_ref = git_base_ref;
    git_branch_ref = git_branch_ref;
    git_worktree_ref = git_worktree_ref;
    created_at = 0;
    updated_at = 0;
  })

-- The fields that `UpdateWorkPlanStatus` sets; the next action and the run are only checked.
unfoldable pub merge_plan : WorkPlan → UpdateWorkPlanStatusInput → Result WorkPlan
merge_plan plan input = do
  resume ←
      or_keep input.resume_summary (λ v. safe_optional_text v "resume_summary" 500)
        plan.resume_summary
  outcome ← or_keep input.outcome (λ v. safe_optional_text v "outcome" 500) plan.outcome
  current ←
      or_keep input.current_task_id (λ v. safe_optional_ref v "current_task_id")
        plan.current_task_id
  or_keep input.safe_next_action (λ v. safe_optional_text v "safe_next_action" 500) ""
  or_keep input.run_id (λ v. safe_optional_ref v "run_id") ""
  trace ← or_keep input.trace_id (λ v. safe_optional_ref v "trace_id") plan.trace_id
  ok (record plan {
    resume_summary = resume;
    outcome = outcome;
    current_task_id = current;
    trace_id = trace;
  })

abbrev optional_ref_slice : String → List String
optional_ref_slice value = if value == "" then [] else value ∷ []

-- The texts of a new task that `CreateWorkTask` validates before it calls `buildTask`.
pub record TaskHead : Type 0 where
  pub task_ref : String
  pub title : String
  pub description : String
  pub owner : String
  pub run_id : String
  pub trace_id : String

unfoldable pub task_head : CreateWorkTaskInput → Result TaskHead
task_head input = do
  task_ref ← safe_ref input.task_ref "task_ref"
  title ← safe_required_text input.title "title" 200
  description ← safe_optional_text input.description "description" 1000
  owner ← safe_optional_ref input.owner_agent "owner_agent"
  run_id ← safe_optional_ref input.run_id "run_id"
  trace_id ← safe_optional_ref input.trace_id "trace_id"
  ok (record {
    task_ref = task_ref;
    title = title;
    description = description;
    owner = owner;
    run_id = run_id;
    trace_id = trace_id;
  })

-- The quality that is stored is the given text as it stands; only its check trims it.
unfoldable pub quality_of : String → String → Result String
quality_of given assessed = do
  let quality = if given == "" then assessed else given
  safe_decomposition_quality quality
  ok quality

-- `buildTask`, up to the clock: `status`, `id` and the times are set by the caller.
unfoldable pub build_task : String → String → TaskHead → CreateWorkTaskInput → Result WorkTask
build_task project_id plan_id head input = do
  evidence ← safe_text_list input.evidence_needed "evidence_needed" 200
  context_refs ← safe_ref_list input.context_pack_refs "context_pack_refs"
  files_to_read ← safe_path_list input.files_to_read "files_to_read"
  files_to_edit ← safe_path_list input.files_to_edit "files_to_edit"
  files ← safe_path_list input.likely_files_affected "likely_files_affected"
  deps ← safe_ref_list input.dependency_task_ids "dependency_task_ids"
  verify ← safe_required_text input.verification_requirement "verification_requirement" 500
  expected ← safe_optional_text input.expected_output "expected_output" 500
  failure ← safe_optional_text input.failure_criteria "failure_criteria" 500
  review_gate ← safe_optional_text input.review_gate "review_gate" 500
  resume ← safe_resume_instructions input.resume_instructions "resume_instructions"
  knowledge_refs ← safe_ref_list input.knowledge_candidate_refs "knowledge_candidate_refs"
  quality ←
      quality_of input.decomposition_quality
        (assess_decomposition evidence context_refs files verify expected failure resume)
  ok (record {
    id = "";
    project_id = project_id;
    plan_id = plan_id;
    task_ref = head.task_ref;
    title = head.title;
    description = head.description;
    status = TaskStatus.planned;
    owner_agent = head.owner;
    claimed_by_run_id = "";
    trace_id = head.trace_id;
    evidence_needed = evidence;
    context_pack_refs = context_refs;
    files_to_read = files_to_read;
    files_to_edit = files_to_edit;
    likely_files_affected = files;
    dependency_task_ids = deps;
    verification_requirement = verify;
    expected_output = expected;
    failure_criteria = failure;
    review_gate = review_gate;
    outcome = "";
    resume_instructions = resume;
    blocked_reason = "";
    blocked_by_task_ids = [];
    knowledge_candidate_refs = knowledge_refs;
    evidence_refs = [];
    claim_refs = [];
    verifier_result_refs = [];
    review_result_refs = [];
    review_exempt_reason = "";
    artifact_refs = [];
    agent_run_ids = optional_ref_slice head.run_id;
    decomposition_quality = quality;
    created_at = 0;
    updated_at = 0;
    claimed_at = 0;
    started_at = 0;
    completed_at = 0;
  })

-- The status of a new task: what the request says, if it is not terminal, else by its quality.
unfoldable pub first_status : String → String → Result TaskStatus
first_status quality given =
    if given == ""
    then ok (if quality == "ready" then TaskStatus.ready else TaskStatus.planned)
    else do
      status ← safe_task_status given
      reject_if (is_terminal_task_status status)
          (invalid_input "create task status cannot be terminal")
      ok status
