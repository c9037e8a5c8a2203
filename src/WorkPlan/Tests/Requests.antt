-- ===== src/WorkPlan/Tests/Requests.antt =====
-- Claims of a task over the store in memory, at concrete values.
use text.Mathlib.TextEquality.{eq_iff}
use go_mivia.Base.{◌≡◌, ◌≢◌, ◌⊎◌, refl, ◌+◌, String, [], ◌∷◌, arith, string_eq}
use go_mivia.Base.Result.{ok}
use go_mivia.Base.Exec.{◌>>=◌}
use go_mivia.Text.{trim_space}
use go_mivia.WorkPlan.TaskStatus.{
  ready, claimed, task_status_eq, validate_task_transition, allowed_task, release_is_stale,
}
use go_mivia.WorkPlan.Safe.{validators}
use go_mivia.WorkPlan.Model.{WorkTask}
use go_mivia.WorkPlan.Transition.{
  check_before, check_claim, check_status, is_releasable, allows_git_ops_recovery_rerun,
  merge_input, or_keep, or_keep_list, added, finish, stamp, check_after, check_reviews, reviews_of,
}
use go_mivia.WorkPlan.Unique.{append_unique, append_all_unique}
use go_mivia.WorkPlan.Memory.{
  MemoryStore, new_memory_store, memory_store, lookup, insert, pair_key, keeps_task, keeps_plan,
  plan_before, task_before,
}
use go_mivia.WorkPlan.Memory
use go_mivia.WorkPlan.Store.{found_task}
use go_mivia.WorkPlan.Memory.Laws.{memory_store-IsLawful}
use go_mivia.WorkPlan.Service.{Env, World, call, now}
use go_mivia.WorkPlan.Service.Move.{
  transition_task, change_task, check_reviewed, claim_work_task, validate_independent_review_refs,
}
use go_mivia.WorkPlan.Service.Move.Progress.{claim_request, claim_succeeds}
use go_mivia.WorkPlan.Safe.Laws.{safe_ref-IsSafeRef}
use go_mivia.WorkPlan.Service.Move.Terminal.{transition_task-ends}
use go_mivia.WorkPlan.TaskStatus.{done, superseded, is_terminal_task_status}
use go_mivia.WorkPlan.Service.Move.Claim.{claim_takes, claim_excludes}
use go_mivia.WorkPlan.Memory.{task_ref_key}
use go_mivia.WorkPlan.Tests.{test_plan, test_task, test_input}

-- All that a move of a task in memory computes with.
unfoldable pub moving : Unit {0}
unfolding ◌>>=◌ validators transition_task change_task check_reviewed claim_work_task
    validate_independent_review_refs check_before check_claim check_status is_releasable
    allows_git_ops_recovery_rerun validate_task_transition allowed_task release_is_stale merge_input
    or_keep or_keep_list added append_unique append_all_unique finish stamp check_after
    check_reviews reviews_of call now Memory.get_work_task Memory.update_work_task lookup insert
    pair_key
moving = tt

abbrev pub clock : Env
clock = record { time_at = λ n. 100 + n; id_at = λ prefix n. prefix }

-- A store with one plan and one task.
abbrev pub world_of : WorkTask → World MemoryStore
world_of task = record {
  db = record {
    plans = (pair_key "p1" "plan_1", test_plan) ∷ [];
    plan_refs = [];
    tasks = (pair_key "p1" "task_1", task) ∷ [];
    task_refs = [];
    attachments = [];
  };
  readings = 0;
}

abbrev pub free_world : World MemoryStore
free_world = world_of (test_task ready "")

abbrev pub claimed_task : WorkTask
claimed_task = record (test_task claimed "run_1") {
  agent_run_ids = "run_1" ∷ [];
  updated_at = 100;
  claimed_at = 100;
}

abbrev Takes : WorkTask → WorkTask → String → MemoryStore → Type 0
Takes task u run s =
    (u.status ≡ claimed)
    × (u.claimed_by_run_id ≡ trim_space run)
    × (trim_space run ≢ "")
    × ((task.claimed_by_run_id ≡ "") ⊎ (task.claimed_by_run_id ≡ u.claimed_by_run_id))
    × (found_task memory_store u.project_id u.id s ≡ ok u)

claim_takes_example :
    Takes
      (test_task ready "")
      claimed_task
      "run_1"
      (claim_work_task memory_store clock (test_input "run_1") free_world).1.db
unfolding moving
claim_takes_example =
    claim_takes memory_store memory_store-IsLawful clock (test_input "run_1") free_world "p1"
      "task_1" (test_task ready "") claimed_task refl refl refl

claim_excludes_example :
    (claim_work_task memory_store clock (test_input "run_2") (world_of claimed_task)).0
    ≢ ok claimed_task
unfolding moving
claim_excludes_example =
    claim_excludes memory_store memory_store-IsLawful clock (test_input "run_2")
      (world_of claimed_task) "p1" "task_1" claimed_task claimed_task refl refl
      (λ e. ground (arith, eq_iff "run_1" "")) (λ e. ground (arith, eq_iff "run_2" "run_1"))

claim_succeeds_example :
    (u : WorkTask) × ((claim_work_task memory_store clock
        (claim_request "p1" "task_1" "run_1")
        free_world).0
      ≡ ok u)
unfolding moving
claim_succeeds_example =
    claim_succeeds memory_store memory_store-IsLawful clock "p1" "task_1" "run_1"
      (test_task ready "") free_world (safe_ref-IsSafeRef "p1" "project_id" refl)
      (safe_ref-IsSafeRef "task_1" "task_id" refl) (safe_ref-IsSafeRef "run_1" "run_id" refl) refl
      refl refl refl refl

abbrev superseded_task : WorkTask
superseded_task = record (test_task superseded "run_1") { updated_at = 100 }

transition_task-ends_example :
    (superseded_task.status ≡ (test_task done "run_1").status)
    ⊎ (superseded_task.status ≡ superseded)
unfolding moving is_terminal_task_status
transition_task-ends_example =
    transition_task-ends memory_store memory_store-IsLawful clock (test_input "") superseded
      (world_of (test_task done "run_1")) "p1" "task_1" (test_task done "run_1") superseded_task
      refl refl refl refl
