-- ===== src/Text/Path.antt =====
-- Go's package `path`, and `strings.Split` at a slash: the parts of a path, `Clean`, `Base` and `Match`.
pub mod Laws
use Prim.Native.Char.{Char, code}
use Prim.Native.String.{[], ◌∷◌}
use go_mivia.Base.{
  ℕ, String, Bool, true, false, not, ◌&&◌, ◌||◌, List, [], ◌∷◌, ◌++◌, nat_eq, string_eq, ◌==◌,
  if◌then◌else◌,
}
use go_mivia.Text.{◌⧺◌, has_prefix, join}

abbrev put_first : Char → List String → List String
put_first c [] = (c ∷ "") ∷ []
put_first c (part ∷ parts) = (c ∷ part) ∷ parts

-- `strings.Split(s, "/")`
unfoldable pub split : String → List String
split [] = "" ∷ []
split (c ∷ s) = let rest = split s in if code c == b'/' then "" ∷ rest else put_first c rest

abbrev drop_last : List String → List String
drop_last [] = []
drop_last (x ∷ []) = []
drop_last (x ∷ y ∷ xs) = x ∷ drop_last (y ∷ xs)

abbrev last_part : String → List String → String
last_part found [] = found
last_part found (part ∷ parts) = last_part (if part == "" then found else part) parts

-- What `..` does to the parts before it.
unfoldable pub climb : Bool → List String → List String
climb rooted parts =
    let last = last_part "" parts in
    if last == "" || last == ".."
    then (if rooted then parts else parts ++ ".." ∷ [])
    else drop_last parts

unfoldable pub clean_parts : Bool → List String → List String → List String
clean_parts rooted done [] = done
clean_parts rooted done (part ∷ parts) =
    clean_parts rooted
      (if part == "" || part == "."
        then done
        else if part == ".."
        then climb rooted done
        else done ++ part ∷ [])
      parts

-- `path.Clean`
unfoldable pub clean : String → String
clean given =
    let rooted = has_prefix given "/" in
    let out = join (clean_parts rooted [] (split given)) "/" in
    if rooted then "/" ⧺ out else if out == "" then "." else out

-- `path.Base`: the last part that is not empty
unfoldable pub base : String → String
base given = if given == "" then "." else last_part "/" (split given)

star : (String → Bool) → String → Bool
star rest [] = rest ""
star rest (c ∷ s) = rest (c ∷ s) || not (code c == b'/') && star rest s

literal : ℕ → (String → Bool) → String → Bool
literal n rest [] = false
literal n rest (c ∷ s) = code c == n && rest s

-- `path.Match` for a pattern whose only special character is `*`
unfoldable pub match_path : String → String → Bool
unfolding star literal
match_path [] name = name == ""
match_path (c ∷ pattern) name =
    if code c == b'*'
    then star (match_path pattern) name
    else literal (code c) (match_path pattern) name

ext_from : String → String → String
ext_from found [] = found
ext_from found (c ∷ s) =
    ext_from (if code c == b'/' then "" else if code c == b'.' then c ∷ s else found) s

-- `path.Ext`: the last part from its last dot on
unfoldable pub ext : String → String
unfolding ext_from
ext given = ext_from "" given
