-- ===== src/WorkPlan/References.antt =====
-- `addAttachmentRef` of internal/projectworkplan/service.go: a task with one more reference. A result of
-- the verifier or of a review moves a task that is in progress on.
pub mod Laws
use go_mivia.Base.{String, Bool, ◌==◌, if◌then◌else◌}
use go_mivia.Base.Result.{Result, ok, ◌>>=◌, ◌>>◌}
use go_mivia.WorkPlan.TaskStatus.{
  TaskStatus, in_progress, needs_review, verifying, task_status_eq, validate_task_transition,
}
use go_mivia.WorkPlan.Unique.{append_unique}
use go_mivia.WorkPlan.Model.{
  WorkTask, Kind, evidence_ref, context_pack_ref, claim_ref, verifier_result_ref, review_result_ref,
  knowledge_candidate_ref,
}

unfoldable pub advance : WorkTask → TaskStatus → Result WorkTask
advance task next =
    if task.status == in_progress
    then (do validate_task_transition task.status next; ok (record task { status = next }))
    else ok task

unfoldable pub with_ref : WorkTask → Kind → String → Result WorkTask
unfolding advance
with_ref task evidence_ref ref =
    ok (record task { evidence_refs = append_unique task.evidence_refs ref })
with_ref task context_pack_ref ref =
    ok (record task { context_pack_refs = append_unique task.context_pack_refs ref })
with_ref task claim_ref ref = ok (record task { claim_refs = append_unique task.claim_refs ref })
with_ref task verifier_result_ref ref =
    advance (record task { verifier_result_refs = append_unique task.verifier_result_refs ref })
      verifying
with_ref task review_result_ref ref =
    advance (record task { review_result_refs = append_unique task.review_result_refs ref })
      needs_review
with_ref task knowledge_candidate_ref ref =
    ok (record task { knowledge_candidate_refs = append_unique task.knowledge_candidate_refs ref })
