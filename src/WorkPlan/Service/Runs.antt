-- ===== src/WorkPlan/Service/Runs.antt =====
-- Any sequence of requests to the service, in any order, the failing ones included. The mutex of the
-- store makes each of its calls one step; a request here runs to its end before the next.
use go_mivia.Base.{String, ◌≡◌, ◌≢◌, List, [], ◌∷◌, none}
use go_mivia.Base.Result.{ok}
use go_mivia.WorkPlan.Model.{
  WorkTaskActionInput, Kind, AttachInput, CreateWorkTaskInput, ExpandWorkTaskScopeInput,
  CreateWorkPlanInput, UpdateWorkPlanStatusInput, WorkTask,
}
use go_mivia.WorkPlan.Store.{WorkPlanStore, IsLawful, found_task}
use go_mivia.WorkPlan.Transition.Finish.{IsSound}
use go_mivia.WorkPlan.Memory.{new_memory_store, memory_store, get_work_task, lookup}
use go_mivia.WorkPlan.Memory.Laws.{memory_store-IsLawful}
use go_mivia.WorkPlan.Service.{Env, World}
use go_mivia.WorkPlan.Service.Keeps.{Sound}
use go_mivia.WorkPlan.Service.Plans.{create_work_plan, update_work_plan_status, Handler}
use go_mivia.WorkPlan.Service.Tasks.{create_work_task, expand_work_task_scope}
use go_mivia.WorkPlan.Service.Attach.{attach}
use go_mivia.WorkPlan.Service.Move.{
  claim_work_task, release_work_task, start_work_task, complete_work_task, fail_work_task,
  block_work_task, update_work_task_status,
}
use go_mivia.WorkPlan.Service.Invariant.{
  Harmless, transition_task-Sound, update_work_task_status-Sound, attach-Sound, expand-Sound,
  create-Sound, create_plan-Sound, update_plan-Sound,
}

-- The requests that write.
pub data Request : Type 0 where
  create_plan : CreateWorkPlanInput → Request
  update_plan : UpdateWorkPlanStatusInput → Request
  create_task : CreateWorkTaskInput → Request
  expand_scope : ExpandWorkTaskScopeInput → Request
  claim : WorkTaskActionInput → Request
  release : WorkTaskActionInput → Request
  start : WorkTaskActionInput → Request
  complete : WorkTaskActionInput → Request
  fail : WorkTaskActionInput → Request
  block : WorkTaskActionInput → Request
  update_status : WorkTaskActionInput → String → Request
  attach_ref : Kind → AttachInput → Request

module _ {S : Type 0} (store : WorkPlanStore S) (env : Env) (handler : Handler S) where
  -- The world after a request.
  unfoldable pub serve : Request → World S → World S
  serve (create_plan input) w = (create_work_plan store env input w).1
  serve (update_plan input) w = (update_work_plan_status store env handler input w).1
  serve (create_task input) w = (create_work_task store env input w).1
  serve (expand_scope input) w = (expand_work_task_scope store env input w).1
  serve (claim input) w = (claim_work_task store env input w).1
  serve (release input) w = (release_work_task store env input w).1
  serve (start input) w = (start_work_task store env input w).1
  serve (complete input) w = (complete_work_task store env input w).1
  serve (fail input) w = (fail_work_task store env input w).1
  serve (block input) w = (block_work_task store env input w).1
  serve (update_status input status) w = (update_work_task_status store env input status w).1
  serve (attach_ref kind input) w = (attach store env kind input w).1

  unfoldable pub serve_all : List Request → World S → World S
  serve_all [] w = w
  serve_all (r ∷ rs) w = serve_all rs (serve r w)

module _ {S : Type 0} (store : WorkPlanStore S) (law : IsLawful store) (env : Env)
    (handler : Handler S) (harmless : Harmless store handler) where
  pub serve-Sound :
      (r : Request) (w : World S) → Sound store w → Sound store (serve store env handler r w)
  unfolding serve claim_work_task release_work_task start_work_task complete_work_task
      fail_work_task block_work_task
  serve-Sound (create_plan input) = (create_plan-Sound store law env input).at
  serve-Sound (update_plan input) = (update_plan-Sound store law env handler input harmless).at
  serve-Sound (create_task input) = (create-Sound store law env input).at
  serve-Sound (expand_scope input) = (expand-Sound store law env input).at
  serve-Sound (claim input) = (transition_task-Sound store law env input _).at
  serve-Sound (release input) = (transition_task-Sound store law env input _).at
  serve-Sound (start input) = (transition_task-Sound store law env input _).at
  serve-Sound (complete input) = (transition_task-Sound store law env input _).at
  serve-Sound (fail input) = (transition_task-Sound store law env input _).at
  serve-Sound (block input) = (transition_task-Sound store law env input _).at
  serve-Sound (update_status input status) =
      (update_work_task_status-Sound store law env input status).at
  serve-Sound (attach_ref kind input) = (attach-Sound store law env kind input).at

  -- A service over any lawful store, with a handler of status changes that keeps the stored tasks
  -- sound, keeps them sound whatever requests that write, other than `UpdateWorkTask`, it serves,
  -- in any order and the failing ones included.
  pub serve_all-Sound :
      (rs : List Request) (w : World S)
      → Sound store w
      → Sound store (serve_all store env handler rs w)
  unfolding serve_all
  serve_all-Sound [] w h = h
  serve_all-Sound (r ∷ rs) w h = serve_all-Sound rs _ (serve-Sound r w h)

empty_lacks : (p i : String) {x : WorkTask} → found_task memory_store p i new_memory_store ≢ ok x
unfolding get_work_task new_memory_store lookup
empty_lacks p i e = cc

-- Whatever requests that write, other than `UpdateWorkTask`, a service serves, in any order and the
-- failing ones included, from the empty store in memory and with no handler of status changes:
-- every task that the store finds is sound. A task that is done was verified, and reviewed or
-- exempt from review; a task that is ready is held by no run; only a blocked task has a reason or
-- tasks that block it.
pub started_empty-IsSound :
    (env : Env) (rs : List Request) (project id : String) (task : WorkTask)
    → found_task memory_store project id
        (serve_all memory_store env none rs (record { db = new_memory_store; readings = 0 })).db
      ≡ ok task
    → IsSound task
started_empty-IsSound env rs project id task =
    (serve_all-Sound memory_store memory_store-IsLawful env none tt rs _
        (record { at = λ p i x e. absurd (empty_lacks p i e) })).at
      project id task
