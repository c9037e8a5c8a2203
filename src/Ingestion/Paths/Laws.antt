-- ===== src/Ingestion/Paths/Laws.antt =====
-- What a path is like that `normalizeRelativePath` returns.
use Prim.Native.String.{[], ◌∷◌}
use go_mivia.Base.{
  String, ◌≡◌, refl, sym, ap, subst, ◌∙◌, true, false, some, List, [], ◌∷◌, nat_eq, string_eq, ◌==◌,
  all, any, contains, arith,
}
use go_mivia.Text.{trim_space, has_prefix, has_code, contains_text}
use go_mivia.Text.Path.{split, clean}
use go_mivia.Text.Path.Laws.{
  is_proper, proper-nonempty, clean-proper, has_prefix-proper, has_code-clean,
}
use go_mivia.Ingestion.Paths.{windows_root_pattern, is_bad_part, checked, normalize_relative_path}

contains_text-backslash : (s : String) → contains_text s "\\" ≡ has_code s b'\\'
unfolding contains_text has_code has_prefix
contains_text-backslash [] = refl
contains_text-backslash (c ∷ s) = ground (arith, contains_text-backslash s)

all_proper : (parts : List String) → any is_bad_part parts ≡ false → all is_proper parts ≡ true
all_proper [] e = refl
all_proper (part ∷ parts) e = ground (arith, all_proper parts)

none_bad : (parts : List String) → all is_proper parts ≡ true → any is_bad_part parts ≡ false
none_bad [] e = refl
none_bad (part ∷ parts) e = ground (arith, none_bad parts)

none_climbs : (parts : List String) → all is_proper parts ≡ true → contains parts ".." ≡ false
none_climbs [] e = refl
none_climbs (part ∷ parts) e = ground (arith, none_climbs parts)

checked-some :
    (s : String) {q : String} → checked s ≡ some q → (s ≡ q) × (all is_proper (split s) ≡ true)
unfolding checked
checked-some s e = (ground arith, ground (arith, all_proper (split s)))

-- What the tests before the cleaning leave.
passed :
    (given : String) {q : String}
    → normalize_relative_path given ≡ some q
    → (has_code given 0 ≡ false)
      × (contains_text given "\\" ≡ false)
      × (has_prefix given "/" ≡ false)
      × (contains (split given) ".." ≡ false)
      × (checked (clean given) ≡ some q)
unfolding normalize_relative_path
passed given e = (ground arith, ground arith, ground arith, ground arith, ground arith)

-- A path below its root: no part is empty, `.` or `..`, and it does not start at the root; and without
-- zero bytes and backslashes.
pub record IsNormal (path : String) : Type 0 where
  pub proper : all is_proper (split path) ≡ true
  pub relative : has_prefix path "/" ≡ false
  pub no_nul : has_code path 0 ≡ false
  pub no_backslash : contains_text path "\\" ≡ false

clean-IsNormal :
    (given : String)
    → has_code given 0 ≡ false
    → contains_text given "\\" ≡ false
    → has_prefix given "/" ≡ false
    → contains (split given) ".." ≡ false
    → all is_proper (split (clean given)) ≡ true
    → IsNormal (clean given)
unfolding has_code
clean-IsNormal given nul backslash relative level proper = record {
  proper = proper;
  relative = has_prefix-proper (clean given) proper;
  no_nul = has_code-clean 0 given relative level refl refl nul;
  no_backslash =
      contains_text-backslash (clean given)
      ∙ has_code-clean b'\\' given relative level refl refl
          (sym (contains_text-backslash given) ∙ backslash);
}

pub normalize_relative_path-IsNormal :
    (given : String) {q : String} → normalize_relative_path given ≡ some q → IsNormal q
normalize_relative_path-IsNormal given e =
    let (nul, backslash, relative, level, last) = passed given e in
    let (same, proper) = checked-some (clean given) last in
    subst IsNormal same (clean-IsNormal given nul backslash relative level proper)

has_prefix-double : (s : String) → has_prefix s "/" ≡ false → has_prefix s "//" ≡ false
unfolding has_prefix
has_prefix-double [] e = refl
has_prefix-double (c ∷ s) e = ground arith

-- A path that was returned is returned again unchanged, unless it is only white space or starts
-- with a drive.
pub normalize_relative_path_idem :
    (given : String) {q : String}
    → normalize_relative_path given ≡ some q
    → (trim_space q == "") ≡ false
    → windows_root_pattern q ≡ false
    → normalize_relative_path q ≡ some q
unfolding normalize_relative_path
normalize_relative_path_idem given {q = q} e some_text no_drive =
    let normal = normalize_relative_path-IsNormal given e in
    let (_, _, _, _, last) = passed given e in
    let same = (checked-some (clean given) last).0 in
    let again = ap checked (clean-proper q normal.relative normal.proper ∙ sym same) ∙ last in
    ground (
      arith,
      again,
      proper-nonempty q normal.proper,
      normal.no_nul,
      normal.no_backslash,
      normal.relative,
      has_prefix-double q normal.relative,
      none_climbs (split q) normal.proper,
    )
