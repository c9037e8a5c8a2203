-- ===== src/Chain/Cycle/Search.antt =====
-- What the search for a cycle finds: the walks behind it.
use text.Mathlib.TextEquality.{eq_iff}
use go_mivia.Base.{
  ℕ, zero, suc, ◌+◌, ◌<◌, String, ◌≡◌, ◌↔◌, refl, Bool, true, false, Option, none, some, List, [],
  ◌∷◌, contains, All, All-map, length, length-map, arith, string_eq,
}
use go_mivia.Base.Members.{
  IsWithin, IsWithin-cons, IsWithin-refl, IsWithin-trans, IsDistinct, length-IsDistinct,
  All-contains,
}
use go_mivia.Chain.Model.{StageConfig}
use go_mivia.Chain.Cycle.{deps_of, visit, visit_all, stage_refs, has_dependency_cycle}
use go_mivia.Chain.Cycle.Walks.{
  Walk, one, more, Walk-snoc, IsCyclic, IsOrdered, IsOrdered-acyclic, deps_of-known,
}

module _ (stages : List StageConfig) where
  -- A cycle, or an ordered list of visited references: those from before, and the wanted ones.
  abbrev Found : List String → List String → Option (List String) → Type 0
  Found wanted seen none = IsCyclic stages
  Found wanted seen (some now_seen) =
      IsOrdered stages now_seen × IsWithin now_seen seen × IsWithin now_seen wanted

  Found-last :
      (ref : String) (refs seen next : List String)
      → IsWithin next seen
      → contains next ref ≡ true
      → (o : Option (List String)) → Found refs next o
      → Found (ref ∷ refs) seen o
  Found-last ref refs seen next kept has none h = h
  Found-last ref refs seen next kept has (some last) (ordered, onward, all_has) = (
    ordered,
    IsWithin-trans seen next last kept onward,
    (All-contains (λ x. contains last x ≡ true) next ref onward has, all_has),
  )

  module _ (visit_one : String → List String → Option (List String)) where
    Found-after :
        (ref : String) (refs seen : List String) (o : Option (List String))
        → Found (ref ∷ []) seen o
        → ((next : List String)
            → IsOrdered stages next
            → Found refs next (visit_all visit_one refs next))
        → Found
            (ref ∷ refs)
            seen
            (elim o [ none ↦ none | some now_seen ↦ visit_all visit_one refs now_seen ])
    Found-after ref refs seen none h k = h
    Found-after ref refs seen (some next) (ordered, kept, (has, _)) k =
        Found-last ref refs seen next kept has (visit_all visit_one refs next) (k next ordered)

    pub visit_all-Found :
        (refs seen : List String)
        → ((ref : String) (s : List String)
            → contains refs ref ≡ true
            → IsOrdered stages s
            → Found (ref ∷ []) s (visit_one ref s))
        → IsOrdered stages seen
        → Found refs seen (visit_all visit_one refs seen)
    unfolding visit_all
    visit_all-Found [] seen one_found ordered = (ordered, IsWithin-refl seen, tt)
    visit_all-Found (ref ∷ refs) seen one_found ordered =
        Found-after ref refs seen (visit_one ref seen)
          (one_found ref seen (ground (arith, eq_iff ref ref)) ordered)
          (λ next next_ordered.
            visit_all-Found refs next (λ r s e. one_found r s (ground arith)) next_ordered)

  Found-self :
      (ref : String) (deps seen : List String) (o : Option (List String))
      → deps_of stages ref ≡ deps
      → Found deps seen o
      → Found (ref ∷ []) seen (elim o [ none ↦ none | some now_seen ↦ some (ref ∷ now_seen) ])
  Found-self ref deps seen none same h = h
  Found-self ref deps seen (some next) same (ordered, kept, has) = (
    (rw same has, ordered),
    IsWithin-cons ref next seen kept,
    (ground (arith, eq_iff ref ref), tt),
  )

  -- the three ways through `visit`
  Found-step :
      (ref : String) (seen : List String) (is_seen is_open : Bool) (inner : Option (List String))
      → (is_seen ≡ true → Found (ref ∷ []) seen (some seen))
      → (is_open ≡ true → IsCyclic stages)
      → (is_open ≡ false → Found (deps_of stages ref) seen inner)
      → Found (ref ∷ []) seen (elim is_seen [
        | true ↦ some seen
        | false ↦ elim is_open [
          | true ↦ none
          | false ↦ elim inner [ none ↦ none | some now_seen ↦ some (ref ∷ now_seen) ]
        ]
      ])
  Found-step ref seen true is_open inner old cycle new = old refl
  Found-step ref seen false true inner old cycle new = cycle refl
  Found-step ref seen false false inner old cycle new =
      Found-self ref (deps_of stages ref) seen inner refl (new refl)

  -- The path is one of walks to `ref`, and the fuel makes up for what it lacks in stages.
  visit-Found :
      (fuel : ℕ) (path : List String) (ref : String) (seen : List String)
      → IsDistinct path
      → IsWithin (stage_refs stages) path
      → All (λ from. Walk stages from ref) path
      → length (stage_refs stages) < length path + fuel
      → IsOrdered stages seen
      → Found (ref ∷ []) seen (visit stages fuel path ref seen)
  unfolding visit
  visit-Found zero path ref seen distinct within walks enough ordered =
      absurd (omega (arith, length-IsDistinct path (stage_refs stages) distinct within))
  visit-Found (suc fuel) path ref seen distinct within walks enough ordered =
      Found-step ref seen (contains seen ref) (contains path ref) _
        (λ e. (ordered, IsWithin-refl seen, (e, tt)))
        (λ f. (ref, All-contains (λ from. Walk stages from ref) path ref walks f))
        (λ f.
          visit_all-Found (visit stages fuel (ref ∷ path)) (deps_of stages ref) seen
            (λ dep s d s_ordered.
              visit-Found fuel (ref ∷ path) dep s (f, distinct)
                (deps_of-known stages ref dep d, within)
                (one d, All-map (λ from w. Walk-snoc stages from ref dep w d) path walks)
                (omega (arith, enough)) s_ordered)
            ordered)

  search-Found :
      Found
        (stage_refs stages)
        []
        (visit_all (visit stages (suc (length stages)) []) (stage_refs stages) [])
  search-Found =
      visit_all-Found (visit stages (suc (length stages)) []) (stage_refs stages) []
        (λ ref s e ordered.
          visit-Found (suc (length stages)) [] ref s tt tt tt
            (omega (arith, length-map (λ stage. stage.stage_ref) stages)) ordered)
        tt

  IsOrdered-of :
      (o : Option (List String))
      → Found (stage_refs stages) [] o
      → elim o [ none ↦ true | some seen ↦ false ] ≡ false
      → (seen : List String) × IsOrdered stages seen × IsWithin seen (stage_refs stages)
  IsOrdered-of none h e = cc
  IsOrdered-of (some seen) (ordered, _, has) e = (seen, ordered, has)

  cyclic_of :
      (o : Option (List String))
      → Found (stage_refs stages) [] o
      → elim o [ none ↦ true | some seen ↦ false ] ≡ true
      → IsCyclic stages
  cyclic_of none h e = h
  cyclic_of (some seen) h e = cc

  -- Without a cycle the stages can be put in an order of their dependencies.
  pub has_dependency_cycle-IsOrdered :
      has_dependency_cycle stages ≡ false
      → (seen : List String) × IsOrdered stages seen × IsWithin seen (stage_refs stages)
  unfolding has_dependency_cycle
  has_dependency_cycle-IsOrdered e = IsOrdered-of _ search-Found e

  edge_from : (a b : String) → Walk stages a b → contains (stage_refs stages) a ≡ true
  edge_from a b (one d) = deps_of-known stages a b d
  edge_from a b (more d w) = deps_of-known stages a _ d

  cyclic_found : (b : Bool) → (b ≡ false → ¬ IsCyclic stages) → IsCyclic stages → b ≡ true
  cyclic_found true none_is c = refl
  cyclic_found false none_is c = absurd (none_is refl c)

  acyclic : has_dependency_cycle stages ≡ false → ¬ IsCyclic stages
  acyclic e (ref, w) =
      let (seen, ordered, has) = has_dependency_cycle-IsOrdered e in
      IsOrdered-acyclic stages seen ref ordered
        (All-contains (λ x. contains seen x ≡ true) (stage_refs stages) ref has
          (edge_from ref ref w))
        w

  -- For any list of stages, the search finds a cycle exactly when some reference is reached from
  -- itself by a walk of one or more dependencies, so its fuel, one more than the number of stages,
  -- is enough.
  pub has_dependency_cycle_iff : (has_dependency_cycle stages ≡ true) ↔ IsCyclic stages
  unfolding has_dependency_cycle
  has_dependency_cycle_iff =
      (cyclic_of _ search-Found, cyclic_found (has_dependency_cycle stages) acyclic)
