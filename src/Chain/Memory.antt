-- ===== src/Chain/Memory.antt =====
-- internal/projectworkflowchain/store/memory.go: the store in memory. A Go map is an association list
-- whose order stands for the order in which a loop over the map meets the entries. A record is a value,
-- so the copies that `cloneRun` makes are the records themselves.
pub mod Laws
use go_mivia.Base.{
  String, ◌≡◌, ◌↔◌, Bool, true, not, ◌&&◌, ◌||◌, Option, none, some, List, [], ◌∷◌, Eq, nat_eq,
  string_eq, ◌==◌, ltb, keep_if, map, if◌then◌else◌, arith,
}
use go_mivia.Base.Result.{ok, err, not_found, duplicate}
use go_mivia.Base.Exec.{Exec}
use go_mivia.Base.Sort.{sort_by}
use text.Mathlib.TextEquality.{eq_iff}
use go_mivia.Text.Order.{str_ltb}
use go_mivia.Chain.Model.{ChainRun, StageRun, ChainFilter, chain_status_text}
use go_mivia.Chain.Service.{ChainStore}

-- `runKey` and `planKey`: a project, and a run or a plan of it
abbrev pub Key : Type 0
Key = String × String

abbrev pub key_beq : Key → Key → Bool
key_beq k l = k.0 == l.0 && k.1 == l.1

module _ {V : Type 0} where
  unfoldable pub lookup : Key → List (Key × V) → Option V
  lookup key [] = none
  lookup key (entry ∷ entries) =
      let later = lookup key entries in if key_beq entry.0 key then some entry.1 else later

  -- `m[key] = value`
  unfoldable pub insert : Key → V → List (Key × V) → List (Key × V)
  insert key value [] = (key, value) ∷ []
  insert key value (entry ∷ entries) =
      let later = insert key value entries in
      if key_beq entry.0 key then (key, value) ∷ entries else entry ∷ later

pub record MemoryStore : Type 0 where
  pub runs : List (Key × ChainRun)
  pub plan_id : List (Key × Key)

unfoldable pub new_memory_store : MemoryStore
new_memory_store = record { runs = []; plan_id = [] }

abbrev pub key_of : ChainRun → Key
key_of run = (run.project_id, run.id)

-- `m[planKey{project, planID}] = key` for each of the plans
unfoldable pub index_plans : String → Key → List String → List (Key × Key) → List (Key × Key)
index_plans project key [] index = index
index_plans project key (plan ∷ plans) index =
    index_plans project key plans (insert (project, plan) key index)

-- the plans of stages that have one
unfoldable pub stage_plans : List StageRun → List String
stage_plans [] = []
stage_plans (stage ∷ stages) =
    let rest = stage_plans stages in
    if stage.work_plan_id == "" then rest else stage.work_plan_id ∷ rest

unfoldable pub index_plans_locked : Key → ChainRun → List (Key × Key) → List (Key × Key)
index_plans_locked key run index =
    index_plans run.project_id key (stage_plans run.stage_runs)
      (index_plans run.project_id key run.work_plan_ids index)

unfoldable pub create_chain_run : ChainRun → Exec MemoryStore ChainRun
create_chain_run run s = elim (lookup (key_of run) s.runs) [
  | some old ↦ (err duplicate, s)
  | none ↦ (
    ok run,
    record {
      runs = insert (key_of run) run s.runs;
      plan_id = index_plans_locked (key_of run) run s.plan_id;
    },
  )
]

unfoldable pub get_chain_run : String → String → Exec MemoryStore ChainRun
get_chain_run project_id chain_run_id s = elim (lookup (project_id, chain_run_id) s.runs) [
  | none ↦ (err not_found, s)
  | some run ↦ (ok run, s)
]

unfoldable pub keeps_run : ChainFilter → ChainRun → Bool
keeps_run filter run =
    (filter.project_id == "" || run.project_id == filter.project_id)
    && (filter.chain_ref == "" || run.chain_ref == filter.chain_ref)
    && (filter.status == "" || chain_status_text run.status == filter.status)

unfoldable pub run_before : ChainRun → ChainRun → Bool
run_before a b =
    if a.created_at == b.created_at then str_ltb a.id b.id else ltb a.created_at b.created_at

unfoldable pub list_chain_runs : ChainFilter → Exec MemoryStore (List ChainRun)
list_chain_runs filter s =
    (ok (sort_by run_before (keep_if (keeps_run filter) (map (λ entry. entry.1) s.runs))), s)

-- The entries of the index that lead to another run.
unfoldable pub forget : Key → List (Key × Key) → List (Key × Key)
forget key index = keep_if (λ entry. not (key_beq entry.1 key)) index

unfoldable pub update_chain_run : ChainRun → Exec MemoryStore ChainRun
update_chain_run run s = elim (lookup (key_of run) s.runs) [
  | none ↦ (err not_found, s)
  | some old ↦ (
    ok run,
    record {
      runs = insert (key_of run) run s.runs;
      plan_id = index_plans_locked (key_of run) run (forget (key_of run) s.plan_id);
    },
  )
]

unfoldable pub find_chain_run_by_work_plan : String → String → Exec MemoryStore ChainRun
find_chain_run_by_work_plan project_id plan_id s = elim (lookup (project_id, plan_id) s.plan_id) [
  | none ↦ (err not_found, s)
  | some key ↦ elim (lookup key s.runs) [ none ↦ (err not_found, s) | some run ↦ (ok run, s) ]
]

abbrev pub memory_store : ChainStore MemoryStore
memory_store = record {
  create_chain_run = create_chain_run;
  get_chain_run = get_chain_run;
  list_chain_runs = list_chain_runs;
  update_chain_run = update_chain_run;
  find_chain_run_by_work_plan = find_chain_run_by_work_plan;
}
