-- ===== src/Chain/Cycle/Walks.antt =====
-- The graph of the dependencies between stages, its walks and its cycles.
use text.Mathlib.TextEquality.{eq_iff}
use go_mivia.Base.{
  String, ◌≡◌, refl, sym, subst, true, false, List, [], ◌∷◌, contains, arith, string_eq, ◌==◌,
  Bool-cases, inl, inr, if◌then◌else◌,
}
use go_mivia.Base.Members.{IsWithin, IsWithin-cons, All-contains}
use go_mivia.Chain.Model.{StageConfig}
use go_mivia.Chain.Cycle.{deps_from, deps_of, stage_refs}

-- A walk of at least one step, each from a stage to a reference that it depends on.
pub data Walk (stages : List StageConfig) : String → String → Type 0 where
  one : {a b : String} → contains (deps_of stages a) b ≡ true → Walk stages a b
  more : {a b c : String} → contains (deps_of stages a) b ≡ true → Walk stages b c → Walk stages a c

module _ (stages : List StageConfig) where
  -- A stage that waits, through its dependencies, for itself.
  abbrev pub IsCyclic : Type 0
  IsCyclic = (ref : String) × Walk stages ref ref

  pub Walk-snoc :
      (a b c : String) → Walk stages a b → contains (deps_of stages b) c ≡ true → Walk stages a c
  Walk-snoc a b c (one e) f = more e (one f)
  Walk-snoc a b c (more e w) f = more e (Walk-snoc _ b c w f)

  -- Each reference stands before those that it depends on.
  abbrev pub IsOrdered : List String → Type 0
  IsOrdered [] = Unit
  IsOrdered (ref ∷ refs) = IsWithin refs (deps_of stages ref) × IsOrdered refs

  -- The dependencies of a member of an ordered list are members.
  pub IsOrdered-deps :
      (refs : List String) (ref : String)
      → IsOrdered refs
      → contains refs ref ≡ true
      → IsWithin refs (deps_of stages ref)
  IsOrdered-deps [] ref h e = cc
  IsOrdered-deps (x ∷ xs) ref (deps, h) e = elim (Bool-cases (x == ref)) [
    | inl same ↦
        IsWithin-cons x xs _
          (subst (λ r. IsWithin xs (deps_of stages r)) ((eq_iff x ref).0 same) deps)
    | inr other ↦ IsWithin-cons x xs _ (IsOrdered-deps xs ref h (ground arith))
  ]

  IsOrdered-walk :
      (refs : List String) (a b : String)
      → IsOrdered refs
      → contains refs a ≡ true
      → Walk stages a b
      → contains refs b ≡ true
  IsOrdered-walk refs a b h e (one d) =
      All-contains (λ x. contains refs x ≡ true) (deps_of stages a) b (IsOrdered-deps refs a h e) d
  IsOrdered-walk refs a b h e (more d w) =
      IsOrdered-walk refs _ b h
        (All-contains (λ x. contains refs x ≡ true) (deps_of stages a) _ (IsOrdered-deps refs a h e)
          d)
        w

  -- A step from the first of an ordered list leads behind it, and no walk from there comes back.
  IsOrdered-leaves :
      (x : String) (xs : List String)
      → IsWithin xs (deps_of stages x)
      → IsOrdered xs
      → Walk stages x x
      → contains xs x ≡ true
  IsOrdered-leaves x xs deps h (one d) =
      All-contains (λ y. contains xs y ≡ true) (deps_of stages x) x deps d
  IsOrdered-leaves x xs deps h (more d w) =
      IsOrdered-walk xs _ x h (All-contains (λ y. contains xs y ≡ true) (deps_of stages x) _ deps d)
        w

  -- No member of an ordered list lies on a cycle.
  pub IsOrdered-acyclic :
      (refs : List String) (ref : String)
      → IsOrdered refs
      → contains refs ref ≡ true
      → ¬ Walk stages ref ref
  IsOrdered-acyclic [] ref h e w = cc
  IsOrdered-acyclic (x ∷ xs) ref (deps, h) e w = elim (Bool-cases (x == ref)) [
    | inl same ↦
        let back = subst (λ r. Walk stages r r) (sym ((eq_iff x ref).0 same)) w in
        IsOrdered-acyclic xs x h (IsOrdered-leaves x xs deps h back) back
    | inr other ↦ IsOrdered-acyclic xs ref h (ground arith) w
  ]

deps_from-known :
    (deps : List String) (stages : List StageConfig) (ref dep : String)
    → contains deps dep ≡ false
    → contains (deps_from deps stages ref) dep ≡ true
    → contains (stage_refs stages) ref ≡ true
unfolding deps_from
deps_from-known deps [] ref dep h e = cc
deps_from-known deps (stage ∷ stages) ref dep h e = elim (Bool-cases (stage.stage_ref == ref)) [
  | inl same ↦ ground arith
  | inr other ↦
      let rest = deps_from-known deps stages ref dep h (
        subst
          (λ b. contains (deps_from (if b then stage.depends_on else deps) stages ref) dep ≡ true)
          other e) in
      ground arith
]

-- Only a stage has dependencies.
pub deps_of-known :
    (stages : List StageConfig) (ref dep : String)
    → contains (deps_of stages ref) dep ≡ true
    → contains (stage_refs stages) ref ≡ true
unfolding deps_of
deps_of-known stages ref dep e = deps_from-known [] stages ref dep refl e
