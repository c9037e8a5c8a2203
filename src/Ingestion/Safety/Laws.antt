-- ===== src/Ingestion/Safety/Laws.antt =====
-- What is known of a file that is taken into the index, and of its chunks.
use text.Mathlib.TextEquality.{eq_iff}
use go_mivia.Base.{
  ℕ, ◌≤◌, ◌<◌, String, ◌≡◌, refl, sym, subst, Bool, true, false, nat_eq, string_eq, ◌&&◌, ◌||◌, ltb,
  Option, none, some, List, arith, if◌then◌else◌,
}
use go_mivia.Ingestion.Chunks.{Decoded}
use go_mivia.Ingestion.Paths.{normalize_relative_path, matches_denied_path}
use go_mivia.Ingestion.Paths.Laws.{IsNormal, normalize_relative_path-IsNormal}
use go_mivia.Ingestion.Safety.{
  denied_path, skip_file, skipped, size_of, has_nul, is_valid_utf8, looks_binary, Sensors,
  evaluate_content, evaluate_path, evaluate_safety,
}

module _ (sensors : Sensors) where
  -- What holds of a content at the path it is stored under.
  pub record Accepted (path : String) (content : List Decoded) (max_file_bytes : ℕ)
      (policy : String) : Type 0 where
    pub normal : IsNormal path
    pub allowed : matches_denied_path path ≡ false
    pub harmless_path : sensors.path_is_sensitive path ≡ false
    pub known_policy : policy ≡ skip_file
    pub fits : 0 < max_file_bytes → size_of content ≤ max_file_bytes
    pub no_nul : has_nul content ≡ false
    pub is_text : looks_binary content ≡ false
    pub valid : is_valid_utf8 content ≡ true
    pub harmless : sensors.contains_sensitive path content ≡ false

  in_bound : (max n : ℕ) → (ltb 0 max && ltb max n) ≡ false → 0 < max → n ≤ max
  in_bound max n e positive = ground arith

  content-Accepted :
      (path : String) (content : List Decoded) (max_file_bytes : ℕ) (policy : String)
      → IsNormal path
      → (matches_denied_path path || sensors.path_is_sensitive path) ≡ false
      → (evaluate_content sensors path content max_file_bytes policy).eligible ≡ true
      → Accepted path content max_file_bytes policy
  unfolding evaluate_content skipped
  content-Accepted path content max_file_bytes policy normal open_path e = record {
    normal = normal;
    allowed = ground arith;
    harmless_path = ground arith;
    known_policy = ground (arith, eq_iff policy skip_file);
    fits = in_bound max_file_bytes (size_of content) (ground arith);
    no_nul = ground arith;
    is_text = ground arith;
    valid = ground arith;
    harmless = ground arith;
  }

  same_path :
      (path : String) (content : List Decoded) (max_file_bytes : ℕ) (policy : String)
      → (evaluate_content sensors path content max_file_bytes policy).eligible ≡ true
      → (evaluate_content sensors path content max_file_bytes policy).relative_path ≡ path
  unfolding evaluate_content skipped
  same_path path content max_file_bytes policy e = ground arith

  path-Accepted :
      (found : Option String) (content : List Decoded) (max_file_bytes : ℕ) (policy : String)
      → ((q : String) → found ≡ some q → IsNormal q)
      → (evaluate_path sensors found content max_file_bytes policy).eligible ≡ true
      → Accepted
          (evaluate_path sensors found content max_file_bytes policy).relative_path
          content
          max_file_bytes
          policy
  unfolding evaluate_path skipped
  path-Accepted none content max_file_bytes policy normal e = cc
  path-Accepted (some path) content max_file_bytes policy normal e =
      at_path (matches_denied_path path || sensors.path_is_sensitive path) refl e
    where
      at_path :
          (closed : Bool)
          → (matches_denied_path path || sensors.path_is_sensitive path) ≡ closed
          → (if closed
              then skipped denied_path "" false (size_of content)
              else evaluate_content sensors path content max_file_bytes policy).eligible
            ≡ true
          → Accepted
              (if closed
                then skipped denied_path "" false (size_of content)
                else evaluate_content sensors path content max_file_bytes policy).relative_path
              content
              max_file_bytes
              policy
      at_path true shut h = cc
      at_path false shut h =
          subst (λ p. Accepted p content max_file_bytes policy)
            (sym (same_path path content max_file_bytes policy h))
            (content-Accepted path content max_file_bytes policy (normal path refl) shut h)

  -- A file that is taken into the index stands at a path that is clean and below the root, is not
  -- denied and not sensitive; its policy is the known one, its content is within the bound, without
  -- zero bytes, not binary by the share of control characters, valid UTF-8 and not sensitive.
  pub evaluate_safety-Accepted :
      (relative_path : String) (content : List Decoded) (max_file_bytes : ℕ) (policy : String)
      → (evaluate_safety sensors relative_path content max_file_bytes policy).eligible ≡ true
      → Accepted
          (evaluate_safety sensors relative_path content max_file_bytes policy).relative_path
          content
          max_file_bytes
          policy
  unfolding evaluate_safety
  evaluate_safety-Accepted relative_path content max_file_bytes policy e =
      path-Accepted (normalize_relative_path relative_path) content max_file_bytes policy
        (λ q. normalize_relative_path-IsNormal relative_path) e

  -- A file that is taken stands under its normal path.
  pub evaluate_safety-path :
      (relative_path : String) (content : List Decoded) (max_file_bytes : ℕ) (policy : String)
      {path : String}
      → normalize_relative_path relative_path ≡ some path
      → (evaluate_safety sensors relative_path content max_file_bytes policy).eligible ≡ true
      → (evaluate_safety sensors relative_path content max_file_bytes policy).relative_path ≡ path
  unfolding evaluate_safety evaluate_path evaluate_content skipped
  evaluate_safety-path relative_path content max_file_bytes policy accepted e = ground arith
