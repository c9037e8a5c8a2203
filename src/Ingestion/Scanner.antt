-- ===== src/Ingestion/Scanner.antt =====
-- The scanner of internal/projectingestion/sensitive_stream.go, which keeps the end of the text that it
-- was given, and `structuredConfigKind` of safety_structured.go. A piece is a rune, never empty, and the scanner is always set.
use Prim.Native.Char.{Char, len_utf8}
use go_mivia.Base.{
  ℕ, zero, suc, ◌-◌, String, List, [], ◌∷◌, ◌++◌, nat_eq, string_eq, ◌==◌, leb, contains,
  if◌then◌else◌,
}
use go_mivia.Text.{to_lower}
use go_mivia.Text.Path.{base, ext}
use go_mivia.Ingestion.Chunks.{Decoded, rune, bad_byte}
use go_mivia.Ingestion.Safety.{size_of}

unfoldable pub structured_config_kind : String → String
structured_config_kind relative_path =
    let name = to_lower (base relative_path) in
    let extension = to_lower (ext relative_path) in
    if contains ("openapi.json" ∷ "swagger.json" ∷ []) name
    then "json"
    else if contains ("openapi.yaml" ∷ "openapi.yml" ∷ "swagger.yaml" ∷ "swagger.yml" ∷ []) name
    then "yaml"
    else if extension == ".json"
    then "json"
    else if extension == ".toml"
    then "toml"
    else if contains (".yaml" ∷ ".yml" ∷ ".asset" ∷ ".prefab" ∷ ".unity" ∷ []) extension
    then "yaml"
    else ""

abbrev pub streaming_sensitive_window_bytes : ℕ
streaming_sensitive_window_bytes = 8192

-- The end of the content that was read, at most as long as the window.
pub record Scanner : Type 0 where
  pub relative_path : String
  pub window : List Decoded

bad_bytes : ℕ → List Decoded → List Decoded
bad_bytes zero rest = rest
bad_bytes (suc n) rest = bad_byte ∷ bad_bytes n rest

-- `window[n:]`: what is left of a rune that is cut is bytes that are part of none.
unfoldable pub drop_bytes : ℕ → List Decoded → List Decoded
unfolding bad_bytes
drop_bytes n [] = []
drop_bytes n (bad_byte ∷ window) =
    let rest = drop_bytes (n - 1) window in if n == 0 then bad_byte ∷ window else rest
drop_bytes n (rune c ∷ window) =
    let rest = drop_bytes (n - len_utf8 c) window in
    if n == 0
    then rune c ∷ window
    else if leb (len_utf8 c) n
    then rest
    else bad_bytes (len_utf8 c - n) window

-- `scanner.append`
unfoldable pub push : Scanner → Char → Scanner
push scanner c =
    let window = scanner.window ++ rune c ∷ [] in
    record scanner {
      window = drop_bytes (size_of window - streaming_sensitive_window_bytes) window;
    }
