-- ===== src/WorkPlan/Unique.antt =====
-- `unique` and `appendUnique` of internal/projectworkplan/service.go, by which a task keeps its lists of
-- references.
pub mod Canonical
use go_mivia.Base.{String, ◌||◌, List, [], ◌∷◌, ◌++◌, string_eq, ◌==◌, contains, if◌then◌else◌}
use go_mivia.Text.Order.{sort_strings}

-- The loop, with `seen` a list of the texts that stand in the map.
unique_from : List String → List String → List String
unique_from seen [] = []
unique_from seen (value ∷ values) =
    let drop = value == "" || contains seen value in
    let rest = unique_from (if drop then seen else value ∷ seen) values in
    if drop then rest else value ∷ rest

unfoldable pub unique : List String → List String
unfolding unique_from sort_strings
unique values = sort_strings (unique_from [] values)

unfoldable pub append_unique : List String → String → List String
unfolding unique
append_unique values next = unique (values ++ next ∷ [])

-- `for _, x := range xs { values = appendUnique(values, x) }`
unfoldable pub append_all_unique : List String → List String → List String
unfolding append_unique
append_all_unique values [] = values
append_all_unique values (x ∷ xs) = append_all_unique (append_unique values x) xs
