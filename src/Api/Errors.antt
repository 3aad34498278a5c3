-- ===== src/Api/Errors.antt =====
-- `ApiError` of control_api.rs, and the handler that ends at the first of them.
use hop_rs.Prelude.{Option, Outcome, Text, err, if◌then◌else◌, none, ok, starts_with, text}
use hop_rs.Errors.{Error, Result}
use hop_rs.Manifest.{
  CatalogError, CatalogErrorCode, CatalogResult, revision_conflict, ownership_conflict,
  managed_by_source, resource_in_use, apply_failed,
}
use hop_rs.Catalog.{Database}
use hop_rs.Bootstrap.Status.{error_code_as_str}
use hop_rs.Api.{Server}

-- `StatusCode`: those of errors.
pub data StatusCode : Type 0 where
  unauthorized_401 not_found_404 conflict_409 unprocessable_422 internal_500 : StatusCode

pub record ApiError : Type 0 where
  pub status : StatusCode
  pub code : Text
  pub path : Option Text
  pub message : Text

abbrev pub ApiResult : Type 0 → Type 0
ApiResult A = Outcome ApiError A

unfoldable pub unauthorized : ApiError
unauthorized = record {
  status = unauthorized_401;
  code = text "unauthorized";
  path = none;
  message = text "a valid Bearer management token is required";
}

unfoldable pub internal : ApiError
internal = record {
  status = internal_500;
  code = text "internal_error";
  path = none;
  message = text "Control API operation failed";
}

unfoldable pub validation_error : Text → ApiError
validation_error message = record {
  status = unprocessable_422;
  code = text "validation_failed";
  path = none;
  message = message;
}

unfoldable pub not_found : ApiError
not_found = record {
  status = not_found_404;
  code = text "not_found";
  path = none;
  message = text "catalog resource was not found";
}

-- `From<HopCoreError>`
unfoldable pub from_core : Error → ApiError
unfolding starts_with internal validation_error error_code_as_str
from_core (Error.validation message) =
    if starts_with (text "managed_by_source:") message
    then record {
      status = conflict_409;
      code = error_code_as_str managed_by_source;
      path = none;
      message = message;
    }
    else validation_error message
from_core (Error.database e) = record {
  status = conflict_409;
  code = text "catalog_conflict";
  path = none;
  message = text "catalog write conflicted with an existing or referenced resource";
}
from_core _ = internal

unfoldable pub status_of_code : CatalogErrorCode → StatusCode
status_of_code revision_conflict = conflict_409
status_of_code ownership_conflict = conflict_409
status_of_code managed_by_source = conflict_409
status_of_code resource_in_use = conflict_409
status_of_code apply_failed = internal_500
status_of_code _ = unprocessable_422

-- `From<CatalogError>`
unfoldable pub from_catalog : CatalogError → ApiError
unfolding status_of_code error_code_as_str
from_catalog e = record {
  status = status_of_code e.code;
  code = error_code_as_str e.code;
  path = e.path;
  message = e.message;
}

-- A handler: it goes on from each step to the next, and what was written before an error stays.
abbrev pub Action : Type 0 → Type 0
Action A = Server → ApiResult A × Server

infixl 5 ◌>>=◌ ◌>>◌
abbrev pub ◌>>=◌ : {A B : Type 0} → Action A → (A → Action B) → Action B
◌>>=◌ m f s = let (r, after) = m s in elim r [ ok a ↦ f a after | err e ↦ (err e, after) ]

abbrev pub ◌>>◌ : {B : Type 0} → Action (Unit {0}) → Action B → Action B
m >> k = m >>= λ done. k

abbrev pub answer : {A : Type 0} → ApiResult A → Action A
answer r s = (r, s)

-- `?`, and `map_err(ApiError::internal)?`
unfoldable pub or_core : {A : Type 0} → Result A → ApiResult A
unfolding from_core
or_core (ok a) = ok a
or_core (err e) = err (from_core e)

unfoldable pub or_internal : {A : Type 0} → Result A → ApiResult A
unfolding internal
or_internal (ok a) = ok a
or_internal (err e) = err internal

unfoldable pub or_catalog : {A : Type 0} → CatalogResult A → ApiResult A
unfolding from_catalog
or_catalog (ok a) = ok a
or_catalog (err e) = err (from_catalog e)

-- A read of the catalog.
abbrev pub ask : {A : Type 0} → (Database → ApiResult A) → Action A
ask f s = (f s.catalog, s)

-- A change of the catalog, which leaves it as it is where it fails.
abbrev pub change : (Database → Result Database) → Action (Unit {0})
change f s = elim (f s.catalog) [
  | ok after ↦ (ok tt, record s { catalog = after })
  | err e ↦ (err (from_core e), s)
]
