-- ===== src/WorkPlan/Tests.antt =====
-- Test data of the work plans.
mod Rules
mod Moves
pub mod Requests
pub mod Stories
pub mod Handled
use go_mivia.Base.{String, List, []}
use go_mivia.Base.Result.{Result}
use go_mivia.WorkPlan.TaskStatus.{TaskStatus}
use go_mivia.WorkPlan.PlanStatus.{PlanStatus}
use go_mivia.WorkPlan.Model.{
  WorkPlan, WorkTask, WorkTaskActionInput, CreateWorkTaskInput, Attachment, Kind,
}

abbrev pub test_plan : WorkPlan
test_plan = record {
  id = "plan_1";
  project_id = "p1";
  plan_ref = "ref_1";
  user_request_ref = "req_1";
  title = "Plan";
  goal_summary = "Goal";
  status = PlanStatus.active;
  owner_agent = "";
  created_by_run_id = "";
  trace_id = "";
  current_task_id = "";
  resume_summary = "";
  outcome = "";
  isolation_mode = "";
  parallel_group_ref = "";
  workspace_ref = "";
  git_base_ref = "";
  git_branch_ref = "";
  git_worktree_ref = "";
  created_at = 1;
  updated_at = 1;
}

abbrev pub test_task : TaskStatus → String → WorkTask
test_task status run = record {
  id = "task_1";
  project_id = "p1";
  plan_id = "plan_1";
  task_ref = "ref_1";
  title = "Task";
  description = "Text";
  status = status;
  owner_agent = "";
  claimed_by_run_id = run;
  trace_id = "";
  evidence_needed = [];
  context_pack_refs = [];
  files_to_read = [];
  files_to_edit = [];
  likely_files_affected = [];
  dependency_task_ids = [];
  verification_requirement = "go test";
  expected_output = "out";
  failure_criteria = "fail";
  review_gate = "";
  outcome = "";
  resume_instructions = "resume";
  blocked_reason = "";
  blocked_by_task_ids = [];
  knowledge_candidate_refs = [];
  evidence_refs = [];
  claim_refs = [];
  verifier_result_refs = [];
  review_result_refs = [];
  review_exempt_reason = "";
  artifact_refs = [];
  agent_run_ids = [];
  decomposition_quality = "ready";
  created_at = 1;
  updated_at = 1;
  claimed_at = 0;
  started_at = 0;
  completed_at = 0;
}

abbrev pub test_input : String → WorkTaskActionInput
test_input run = record {
  project_id = "p1";
  task_id = "task_1";
  owner_agent = "";
  run_id = run;
  trace_id = "";
  outcome = "";
  safe_next_action = "";
  blocked_reason = "";
  blocked_by_task_ids = [];
  context_pack_refs = [];
  evidence_refs = [];
  claim_refs = [];
  knowledge_refs = [];
  resume_instructions = "";
  verifier_result_refs = [];
  review_result_refs = [];
  review_exempt_reason = "";
}

abbrev pub test_create : CreateWorkTaskInput
test_create = record {
  project_id = "p1";
  plan_id = "plan_1";
  task_ref = "ref_1";
  title = "Task";
  description = "Text";
  status = "";
  owner_agent = "";
  run_id = "";
  trace_id = "";
  evidence_needed = [];
  context_pack_refs = [];
  files_to_read = [];
  files_to_edit = [];
  likely_files_affected = [];
  dependency_task_ids = [];
  verification_requirement = "";
  expected_output = "";
  failure_criteria = "";
  review_gate = "";
  resume_instructions = "resume";
  knowledge_candidate_refs = [];
  decomposition_quality = "";
}

abbrev pub test_review : String → Attachment
test_review run = record {
  id = "a1";
  project_id = "p1";
  plan_id = "plan_1";
  task_id = "task_1";
  kind = Kind.review_result_ref;
  ref = "review_1";
  attached_by_run_id = run;
  trace_id = "";
  note = "";
  created_at = 2;
}

-- The value of a result that is no error.
abbrev pub ok_or : {A : Type 0} → A → Result A → A
ok_or a (Result.ok b) = b
ok_or a (Result.err e) = a
