-- ===== src/Manifest/Names.antt =====
-- Names, trimmed texts and the errors of manifest.rs.
use hop_rs.Prelude.{
  Bool, List, Option, Text, [], any, byte_len, every, false, if◌then◌else◌, is_ascii_alphanumeric,
  is_empty, leb, nat_eq, none, ok, ok_or, option_map, some, text, transpose, trim, ℕ, ◌&&◌, ◌++◌,
  ◌>>◌, ◌||◌, ◌∷◌,
}
use hop_rs.Manifest.{
  invalid_resource_name, invalid_credential_material, unknown_reference, apply_failed, CatalogError,
  CatalogResult, fail,
}

unfoldable pub missing_field : Text → Text → CatalogError
missing_field path message = record { code = apply_failed; path = some path; message = message }

unfoldable pub invalid_material : Text → Text → CatalogError
invalid_material path message = record {
  code = invalid_credential_material;
  path = some path;
  message = message;
}

-- `unknown_reference`
unfoldable pub unknown_reference_error : Text → Text → Text → CatalogError
unknown_reference_error path kind name = record {
  code = unknown_reference;
  path = some path;
  message = text "unknown " ++ (kind ++ (text " reference: " ++ name));
}

unfoldable pub is_name_char : ℕ → Bool
is_name_char c = is_ascii_alphanumeric c || nat_eq c b'-' || nat_eq c b'_' || nat_eq c b'.'

unfoldable pub name_chars : Text → Bool
unfolding is_name_char is_ascii_alphanumeric
name_chars [] = false
name_chars (c ∷ s) = is_ascii_alphanumeric c && every is_name_char s

unfoldable pub validate_name : Text → Text → CatalogResult (Unit {0})
unfolding name_chars byte_len
validate_name name path =
    if name_chars name && leb (byte_len name) 128
    then ok tt
    else fail invalid_resource_name (some path) (
        text
          "resource name must start with an ASCII letter or digit and contain only letters, digits, '.', '-' or '_'")

unfoldable pub optional_name : Option Text → Text → CatalogResult (Option Text)
unfolding validate_name
optional_name value path = transpose (option_map (λ v. validate_name v path >> ok v) value)

-- `.filter(|value| !value.is_empty())`
not_blank : Text → Option Text
not_blank v = if is_empty v then none else some v

unfoldable pub trim_optional : Option Text → Option Text
unfolding not_blank trim is_empty
trim_optional none = none
trim_optional (some v) = not_blank (trim v)

unfoldable pub required_text : Option Text → Text → CatalogResult Text
unfolding trim_optional missing_field
required_text value path =
    ok_or (trim_optional value) (missing_field path (text "field must not be empty"))

unfoldable pub require_absent_only : Text → List Bool → CatalogResult (Unit {0})
require_absent_only path fields =
    if any (λ b. b) fields
    then fail apply_failed (some path) (text "state absent cannot be combined with resource fields")
    else ok tt
