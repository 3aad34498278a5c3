-- ===== src/Command/Scope.antt =====
-- manifest_io.rs: the manifests of an apply scope.
use hop_rs.Prelude.{
  Bool, List, Option, Text, [], any, ensure, if◌then◌else◌, length, nat_eq, none, not, ok, some,
  sort_by, text, ◌++◌, ◌==◌, ◌>>=◌, ◌||◌, ◌∷◌,
}
use hop_rs.Manifest.{CatalogResult, Manifest, source_scan_incomplete, apply_failed, fail}
use hop_rs.Manifest.Merge.{merge}
use hop_rs.Command.{Machine, Paths}

-- `matches!(character, '*' | '?' | '[')` for any of them.
unfoldable pub is_pattern : Text → Bool
is_pattern input = any (λ c. nat_eq c b'*' || nat_eq c b'?' || nat_eq c b'[') input

-- The loop over the matches of a pattern.
unfoldable pub scanned : Text → List (Option Text) → CatalogResult (List Text)
scanned pattern [] = ok []
scanned pattern (none ∷ entries) =
    fail source_scan_incomplete (some pattern) (text "manifest glob scan failed")
scanned pattern (some path ∷ entries) = do rest ← scanned pattern entries; ok (path ∷ rest)

unfoldable pub expand_pattern : Text → Option (List (Option Text)) → CatalogResult (List Text)
unfolding scanned
expand_pattern pattern none =
    fail source_scan_incomplete (some pattern) (text "invalid manifest glob pattern")
expand_pattern pattern (some entries) = do
  found ← scanned pattern entries
  _ ← ensure (not (nat_eq (length found) 0)) (record {
    code = source_scan_incomplete;
    path = some pattern;
    message = text "manifest glob matched no files";
  })
  ok found

unfoldable pub expand_inputs : Paths → List Text → CatalogResult (List Text)
unfolding is_pattern expand_pattern
expand_inputs paths [] = ok []
expand_inputs paths (input ∷ inputs) = do
  first ← if is_pattern input then expand_pattern input (paths.glob input) else ok (input ∷ [])
  rest ← expand_inputs paths inputs
  ok (first ++ rest)

-- `Vec::dedup`
unfoldable pub dedup : List Text → List Text
dedup [] = []
dedup (p ∷ []) = p ∷ []
dedup (p ∷ q ∷ rest) = let later = dedup (q ∷ rest) in if p == q then later else p ∷ later

unfoldable pub expand_manifest_scope : Paths → List Text → CatalogResult (List Text)
unfolding expand_inputs dedup
expand_manifest_scope paths inputs = do
  found ← expand_inputs paths inputs
  let scope = dedup (sort_by paths.path_before found)
  _ ← ensure (not (nat_eq (length scope) 0)) (record {
    code = source_scan_incomplete;
    path = none;
    message = text "manifest scope is empty";
  })
  ok scope

unfoldable pub parse_extension : Machine → Text → Option Text → Text → CatalogResult Manifest
parse_extension m path none raw =
    fail apply_failed (some path) (text "manifest file extension must be .yaml, .yml or .toml")
parse_extension m path (some extension) raw =
    if extension == text "yaml" || extension == text "yml"
    then m.from_yaml raw
    else if extension == text "toml"
    then m.from_toml raw
    else fail apply_failed (some path) (text "manifest file extension must be .yaml, .yml or .toml")

unfoldable pub load_manifest : Machine → Text → CatalogResult Manifest
unfolding parse_extension
load_manifest m path = elim (m.call.world.read_to_string path) [
  | none ↦ fail source_scan_incomplete (some path) (text "unable to read complete manifest scope")
  | some raw ↦ parse_extension m path (m.paths.extension path) raw
]

unfoldable pub load_manifests : Machine → List Text → CatalogResult (List Manifest)
unfolding load_manifest
load_manifests m [] = ok []
load_manifests m (path ∷ paths) = do
  manifest ← load_manifest m path
  rest ← load_manifests m paths
  ok (manifest ∷ rest)

unfoldable pub load_manifest_scope : Machine → List Text → CatalogResult Manifest
unfolding expand_manifest_scope load_manifests merge
load_manifest_scope m inputs = do
  paths ← expand_manifest_scope m.paths inputs
  manifests ← load_manifests m paths
  merge manifests
