-- ===== src/WorkPlan/Model.antt =====
-- The records of internal/projectworkplan/model.go. A time is a number of nanoseconds, with 0 for the
-- zero time; `decomposition_quality` stays the text that the code stores.
use go_mivia.Base.{ℕ, String, Bool, true, false, List}
use go_mivia.WorkPlan.TaskStatus.{TaskStatus}
use go_mivia.WorkPlan.PlanStatus.{PlanStatus}

pub record WorkPlan : Type 0 where
  pub id : String
  pub project_id : String
  pub plan_ref : String
  pub user_request_ref : String
  pub title : String
  pub goal_summary : String
  pub status : PlanStatus
  pub owner_agent : String
  pub created_by_run_id : String
  pub trace_id : String
  pub current_task_id : String
  pub resume_summary : String
  pub outcome : String
  pub isolation_mode : String
  pub parallel_group_ref : String
  pub workspace_ref : String
  pub git_base_ref : String
  pub git_branch_ref : String
  pub git_worktree_ref : String
  pub created_at : ℕ
  pub updated_at : ℕ

pub record WorkTask : Type 0 where
  pub id : String
  pub project_id : String
  pub plan_id : String
  pub task_ref : String
  pub title : String
  pub description : String
  pub status : TaskStatus
  pub owner_agent : String
  pub claimed_by_run_id : String
  pub trace_id : String
  pub evidence_needed : List String
  pub context_pack_refs : List String
  pub files_to_read : List String
  pub files_to_edit : List String
  pub likely_files_affected : List String
  pub dependency_task_ids : List String
  pub verification_requirement : String
  pub expected_output : String
  pub failure_criteria : String
  pub review_gate : String
  pub outcome : String
  pub resume_instructions : String
  pub blocked_reason : String
  pub blocked_by_task_ids : List String
  pub knowledge_candidate_refs : List String
  pub evidence_refs : List String
  pub claim_refs : List String
  pub verifier_result_refs : List String
  pub review_result_refs : List String
  pub review_exempt_reason : String
  pub artifact_refs : List String
  pub agent_run_ids : List String
  pub decomposition_quality : String
  pub created_at : ℕ
  pub updated_at : ℕ
  pub claimed_at : ℕ
  pub started_at : ℕ
  pub completed_at : ℕ

-- What a reference is attached as.
pub data Kind : Type 0 where
  evidence_ref context_pack_ref claim_ref verifier_result_ref : Kind
  review_result_ref knowledge_candidate_ref : Kind

unfoldable pub kind_text : Kind → String
kind_text evidence_ref = "evidence_ref"
kind_text context_pack_ref = "context_pack_ref"
kind_text claim_ref = "claim_ref"
kind_text verifier_result_ref = "verifier_result_ref"
kind_text review_result_ref = "review_result_ref"
kind_text knowledge_candidate_ref = "knowledge_candidate_ref"

abbrev pub is_review : Kind → Bool
is_review review_result_ref = true
is_review _ = false

pub record Attachment : Type 0 where
  pub id : String
  pub project_id : String
  pub plan_id : String
  pub task_id : String
  pub kind : Kind
  pub ref : String
  pub attached_by_run_id : String
  pub trace_id : String
  pub note : String
  pub created_at : ℕ

pub record CreateWorkPlanInput : Type 0 where
  pub project_id : String
  pub plan_ref : String
  pub user_request_ref : String
  pub title : String
  pub goal_summary : String
  pub owner_agent : String
  pub created_by_run_id : String
  pub trace_id : String
  pub resume_summary : String
  pub isolation_mode : String
  pub parallel_group_ref : String
  pub workspace_ref : String
  pub git_base_ref : String
  pub git_branch_ref : String
  pub git_worktree_ref : String

-- No code of the package reads the page size or token of a filter, so the filters have none.
pub record WorkPlanFilter : Type 0 where
  pub project_id : String
  pub status : String
  pub owner_agent : String

pub record UpdateWorkPlanStatusInput : Type 0 where
  pub project_id : String
  pub plan_id : String
  pub status : String
  pub safe_next_action : String
  pub resume_summary : String
  pub outcome : String
  pub current_task_id : String
  pub run_id : String
  pub trace_id : String

pub record CreateWorkTaskInput : Type 0 where
  pub project_id : String
  pub plan_id : String
  pub task_ref : String
  pub title : String
  pub description : String
  pub status : String
  pub owner_agent : String
  pub run_id : String
  pub trace_id : String
  pub evidence_needed : List String
  pub context_pack_refs : List String
  pub files_to_read : List String
  pub files_to_edit : List String
  pub likely_files_affected : List String
  pub dependency_task_ids : List String
  pub verification_requirement : String
  pub expected_output : String
  pub failure_criteria : String
  pub review_gate : String
  pub resume_instructions : String
  pub knowledge_candidate_refs : List String
  pub decomposition_quality : String

pub record WorkTaskFilter : Type 0 where
  pub project_id : String
  pub plan_id : String
  pub status : String
  pub owner_agent : String
  pub claimed_by_run_id : String

pub record WorkTaskActionInput : Type 0 where
  pub project_id : String
  pub task_id : String
  pub owner_agent : String
  pub run_id : String
  pub trace_id : String
  pub outcome : String
  pub safe_next_action : String
  pub blocked_reason : String
  pub blocked_by_task_ids : List String
  pub context_pack_refs : List String
  pub evidence_refs : List String
  pub claim_refs : List String
  pub knowledge_refs : List String
  pub resume_instructions : String
  pub verifier_result_refs : List String
  pub review_result_refs : List String
  pub review_exempt_reason : String

pub record ExpandWorkTaskScopeInput : Type 0 where
  pub project_id : String
  pub task_id : String
  pub files_to_edit : List String
  pub resume_instructions : String
  pub run_id : String
  pub trace_id : String

pub record GetNextWorkTaskInput : Type 0 where
  pub project_id : String
  pub plan_id : String
  pub owner_agent : String
  pub run_id : String
  pub trace_id : String
  pub include_claimed_by_me : Bool

pub record DependencySummary : Type 0 where
  pub task_id : String
  pub status : String
  pub ready : Bool

pub record AttachInput : Type 0 where
  pub project_id : String
  pub task_id : String
  pub ref : String
  pub attached_by_run_id : String
  pub trace_id : String
  pub note : String

pub record WorkPlanStatusChange : Type 0 where
  pub project_id : String
  pub plan_id : String
  pub plan_ref : String
  pub old_status : PlanStatus
  pub new_status : PlanStatus
  pub owner_agent : String
  pub changed_at : ℕ
