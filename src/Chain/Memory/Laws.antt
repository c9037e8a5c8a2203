-- ===== src/Chain/Memory/Laws.antt =====
-- The store in memory has the laws that the service relies on, and its index finds the runs.
use text.Mathlib.TextEquality.{eq_iff}
use go_mivia.Base.{
  String, ◌≡◌, inl, inr, ◌∙◌, Bool, true, false, Option, none, some, List, [], ◌∷◌, arith,
  string_eq, ◌==◌, Bool-cases, if◌then◌else◌, contains, ◌||◌,
}
use go_mivia.Base.Result.{ok}
use go_mivia.Chain.Model.{ChainRun}
use go_mivia.Chain.Memory.{
  Key, key_beq, lookup, insert, MemoryStore, key_of, index_plans, stage_plans, index_plans_locked,
  forget, create_chain_run, get_chain_run, update_chain_run, find_chain_run_by_work_plan,
  memory_store,
}
use go_mivia.Chain.Service.Ordered.Stored.{IsLawfulChains}

key_beq_self : (k : Key) → key_beq k k ≡ true
key_beq_self k = ground (arith, eq_iff k.0 k.0, eq_iff k.1 k.1)

module _ {V : Type 0} where
  lookup-insert_same :
      (k l : Key) (v : V) (entries : List (Key × V))
      → key_beq k l ≡ true
      → lookup l (insert k v entries) ≡ some v
  unfolding lookup insert
  lookup-insert_same k l v [] e = ground arith
  lookup-insert_same k l v ((m, w) ∷ entries) e = ground (
    arith,
    eq_iff k.0 l.0,
    eq_iff k.1 l.1,
    eq_iff m.0 k.0,
    eq_iff m.1 k.1,
    eq_iff m.0 l.0,
    eq_iff m.1 l.1,
    lookup-insert_same k l v entries,
  )

  lookup-insert_other :
      (k l : Key) (v : V) (entries : List (Key × V))
      → key_beq k l ≡ false
      → lookup l (insert k v entries) ≡ lookup l entries
  unfolding lookup insert
  lookup-insert_other k l v [] e = ground arith
  lookup-insert_other k l v ((m, w) ∷ entries) e = ground (
    arith,
    eq_iff k.0 l.0,
    eq_iff k.1 l.1,
    eq_iff m.0 k.0,
    eq_iff m.1 k.1,
    eq_iff m.0 l.0,
    eq_iff m.1 l.1,
    lookup-insert_other k l v entries,
  )

  lookup-insert :
      (k l : Key) (v : V) (entries : List (Key × V))
      → lookup l (insert k v entries) ≡ (if key_beq k l then some v else lookup l entries)
  lookup-insert k l v entries = elim (Bool-cases (key_beq k l)) [
    | inl e ↦ lookup-insert_same k l v entries e ∙ ground (arith, e)
    | inr e ↦ lookup-insert_other k l v entries e ∙ ground (arith, e)
  ]

abbrev or_no_key : Option Key → Key
or_no_key none = ("", "")
or_no_key (some key) = key

-- The store in memory is a lawful store of chain runs: its reads change nothing, a search by a work
-- plan finds a stored run, and a write changes no other run that is found.
pub memory_store-IsLawfulChains : IsLawfulChains memory_store
unfolding create_chain_run get_chain_run update_chain_run find_chain_run_by_work_plan
memory_store-IsLawfulChains = record {
  get_reads = λ p i s. ground arith;
  find_reads = λ p i s. ground arith;
  find_stored =
      λ p i s run e. let k = or_no_key (lookup (p, i) s.plan_id) in (k.0, k.1, ground arith);
  create_frame = λ run s p i x e. ground (arith, lookup-insert (key_of run) (p, i) run s.runs);
  update_frame = λ run s p i x e. ground (arith, lookup-insert (key_of run) (p, i) run s.runs);
}

module _ (project : String) (key : Key) where
  index_plans-kept :
      (plans : List String) (index : List (Key × Key)) (plan : String)
      → lookup (project, plan) index ≡ some key
      → lookup (project, plan) (index_plans project key plans index) ≡ some key
  unfolding index_plans
  index_plans-kept [] index plan e = e
  index_plans-kept (next ∷ plans) index plan e =
      index_plans-kept plans (insert (project, next) key index) plan
        (ground (arith, lookup-insert (project, next) (project, plan) key index, e))

  index_plans-found :
      (plans : List String) (index : List (Key × Key)) (plan : String)
      → contains plans plan ≡ true
      → lookup (project, plan) (index_plans project key plans index) ≡ some key
  unfolding index_plans
  index_plans-found [] index plan e = cc
  index_plans-found (next ∷ plans) index plan e = elim (Bool-cases (next == plan)) [
    | inl same ↦ index_plans-kept plans (insert (project, next) key index) plan (
        ground (
          arith,
          lookup-insert (project, next) (project, plan) key index,
          same,
          eq_iff project project,
        ))
    | inr other ↦ index_plans-found plans (insert (project, next) key index) plan (ground arith)
  ]

-- The plans of a run: those that it lists, and those of its stages.
abbrev pub has_plan : ChainRun → String → Bool
has_plan run plan = contains run.work_plan_ids plan || contains (stage_plans run.stage_runs) plan

index_plans_locked-found :
    (run : ChainRun) (index : List (Key × Key)) (plan : String)
    → has_plan run plan ≡ true
    → lookup (run.project_id, plan) (index_plans_locked (key_of run) run index) ≡ some (key_of run)
unfolding index_plans_locked
index_plans_locked-found run index plan e =
    elim (Bool-cases (contains (stage_plans run.stage_runs) plan)) [
      | inl of_stage ↦
          index_plans-found run.project_id (key_of run) (stage_plans run.stage_runs) _ plan of_stage
      | inr other ↦
          index_plans-kept run.project_id (key_of run) (stage_plans run.stage_runs) _ plan (
            index_plans-found run.project_id (key_of run) run.work_plan_ids index plan
              (ground arith))
    ]

-- After the update of a run in the store in memory succeeds, each work plan that the run lists, or
-- that one of its stages has, leads to the run as it was written, whatever the plan led to before.
pub find_chain_run_by_work_plan-update_chain_run :
    (run : ChainRun) (s : MemoryStore) (plan : String) {u : ChainRun}
    → has_plan run plan ≡ true
    → (update_chain_run run s).0 ≡ ok u
    → (find_chain_run_by_work_plan run.project_id plan (update_chain_run run s).1).0 ≡ ok run
unfolding update_chain_run find_chain_run_by_work_plan
find_chain_run_by_work_plan-update_chain_run run s plan has e = ground (
  arith,
  index_plans_locked-found run (forget (key_of run) s.plan_id) plan has,
  lookup-insert_same (key_of run) (key_of run) run s.runs (key_beq_self (key_of run)),
)
