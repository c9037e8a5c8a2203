-- ===== src/Chain/Config/Live.antt =====
-- The progress of a run of a chain whose configuration `validateConfig` accepts.
use go_mivia.Base.{
  String, ◌≡◌, ◌⊎◌, inl, inr, refl, sym, ap, subst, ◌∙◌, true, false, none, some, List, [], ◌∷◌,
  contains, all, is_empty, All, All-map, All-both, arith, string_eq, ◌==◌, Bool-cases,
}
use go_mivia.Base.Members.{IsWithin, IsDistinct, All-contains}
use go_mivia.Base.Result.{ok}
use go_mivia.Text.{trim_space}
use go_mivia.Chain.Model.{
  Config, StageConfig, ChainRun, StageRun, StageStatus, stage_planned, stage_completed,
  stage_status_eq, stage_status_beq_iff,
}
use go_mivia.Chain.Rules.{Engine}
use go_mivia.Chain.Cycle.{stage_refs, has_dependency_cycle}
use go_mivia.Chain.Cycle.Search.{has_dependency_cycle_iff}
use go_mivia.Chain.Config.{validate_config}
use go_mivia.Chain.Config.Laws.{IsValidConfig, validate_config-IsValidConfig, first_trigger}
use go_mivia.Chain.Run.{status_of, next_ready_stage, all_stages_completed}
use go_mivia.Chain.Run.Progress.{run_refs, status_of-own, All-done}

-- A stage that is neither running nor blocked.
abbrev pub IsIdle : StageStatus → Type 0
IsIdle status = (status ≡ stage_planned) ⊎ (status ≡ stage_completed)

-- References without white space round them.
abbrev pub IsTrimmed : StageConfig → Type 0
IsTrimmed stage = All (λ dep. trim_space dep ≡ dep) stage.depends_on

module _ (P : String → Type 0) where
  All-run_refs : (runs : List StageRun) → All (λ run. P run.stage_ref) runs → All P (run_refs runs)
  All-run_refs [] h = tt
  All-run_refs (run ∷ runs) (p, h) = (p, All-run_refs runs h)

  All-of_run_refs :
      (runs : List StageRun) → All P (run_refs runs) → All (λ run. P run.stage_ref) runs
  All-of_run_refs [] h = tt
  All-of_run_refs (run ∷ runs) (p, h) = (p, All-of_run_refs runs h)

IsWithin-trimmed :
    (refs deps : List String)
    → All (λ dep. contains refs (trim_space dep) ≡ true) deps
    → All (λ dep. trim_space dep ≡ dep) deps
    → IsWithin refs deps
IsWithin-trimmed refs [] h t = tt
IsWithin-trimmed refs (dep ∷ deps) (p, h) (q, t) =
    (subst (λ d. contains refs d ≡ true) q p, IsWithin-trimmed refs deps h t)

closed_of :
    (refs : List String) (stages : List StageConfig)
    → All (λ stage. All (λ dep. contains refs (trim_space dep) ≡ true) stage.depends_on) stages
    → All IsTrimmed stages
    → All (λ stage. IsWithin refs stage.depends_on) stages
closed_of refs [] h t = tt
closed_of refs (stage ∷ stages) (p, h) (q, t) =
    (IsWithin-trimmed refs stage.depends_on p q, closed_of refs stages h t)

all_completed :
    (runs : List StageRun)
    → All (λ run. run.status ≡ stage_completed) runs
    → all (λ run. run.status == stage_completed) runs ≡ true
all_completed [] h = refl
all_completed (run ∷ runs) (p, h) =
    ground (arith, stage_status_beq_iff run.status stage_completed, all_completed runs h)

not_acyclic : (cfg : Config) → IsValidConfig cfg → has_dependency_cycle cfg.stages ≡ false
not_acyclic cfg valid = elim (Bool-cases (has_dependency_cycle cfg.stages)) [
  | inl e ↦ absurd (valid.acyclic ((has_dependency_cycle_iff cfg.stages).0 e))
  | inr e ↦ e
]

some_run :
    (runs : List StageRun) (stages : List StageConfig)
    → run_refs runs ≡ stage_refs stages
    → first_trigger stages ≡ "on_chain_start"
    → is_empty runs ≡ false
some_run (run ∷ runs) stages same starts = refl
some_run [] [] same starts = cc
some_run [] (stage ∷ stages) same starts = cc

module _ (runs : List StageRun) (distinct : IsDistinct (run_refs runs)) where
  abbrev Reads : (StageStatus → Type 0) → String → Type 0
  Reads P ref = (status : StageStatus) × (status_of runs ref ≡ some status) × P status

  Reads-of :
      (P : StageStatus → Type 0) → All (λ run. P run.status) runs → All (Reads P) (run_refs runs)
  Reads-of P h = All-run_refs (Reads P) runs (
      All-map (λ run (p, own). (run.status, own, p)) runs
        (All-both _ _ runs h (status_of-own runs distinct)))

  read_idle :
      (ref : String)
      → Reads IsIdle ref
      → (status_of runs ref ≡ some stage_planned) ⊎ (status_of runs ref ≡ some stage_completed)
  read_idle ref (status, own, inl e) = inl (own ∙ ap some e)
  read_idle ref (status, own, inr e) = inr (own ∙ ap some e)

  statuses_of :
      All (λ ref. status_of runs ref ≡ some stage_completed) (run_refs runs)
      → All (λ run. run.status ≡ stage_completed) runs
  statuses_of h =
      All-map (λ run (done, own). same_status run.status (sym own ∙ done)) runs
        (All-both _ _ runs (All-of_run_refs _ runs h) (status_of-own runs distinct))
    where
      same_status :
          (status : StageStatus) → some status ≡ some stage_completed → status ≡ stage_completed
      same_status status e = cc

-- A run of an accepted configuration whose dependencies have no white space round them, with one
-- stage for each configured one and in their order, each planned or completed: if no stage is ready
-- to be compiled, all are completed.
pub next_ready_stage-progress :
    (engine : Engine) (cfg : Config) (run : ChainRun)
    → validate_config engine cfg ≡ ok tt
    → All IsTrimmed cfg.stages
    → run_refs run.stage_runs ≡ stage_refs cfg.stages
    → All (λ stage. IsIdle stage.status) run.stage_runs
    → next_ready_stage cfg run ≡ none
    → all_stages_completed run ≡ true
unfolding next_ready_stage all_stages_completed
next_ready_stage-progress engine cfg run accepted trimmed same idle stuck =
    let valid = validate_config-IsValidConfig engine cfg accepted in
    let runs = run.stage_runs in
    let distinct = subst IsDistinct (sym same) valid.distinct in
    let done =
      All-done runs cfg.stages
        (λ ref known. read_idle runs distinct ref (
          All-contains (Reads runs distinct IsIdle) (run_refs runs) ref
            (Reads-of runs distinct IsIdle idle)
            (subst (λ refs. contains refs ref ≡ true) (sym same) known)))
        (closed_of (stage_refs cfg.stages) cfg.stages valid.known trimmed) stuck
        (not_acyclic cfg valid) in
    ground (
      arith,
      some_run runs cfg.stages same valid.starts,
      all_completed runs (
          statuses_of runs distinct
            (subst (All (λ ref. status_of runs ref ≡ some stage_completed)) (sym same) done)),
    )
