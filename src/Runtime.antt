-- ===== src/Runtime.antt =====
-- `Catalog` of crates/hop-core/src/catalog/runtime.rs: the queries that authorise a key, and the
-- operations that a transaction wraps. An operation takes the state at `begin` and gives the state
-- at `commit`; an error is a rollback. `new_id()` and the time are arguments.
pub mod Access
pub mod Keys
pub mod Assets
pub mod Credentials
pub mod Sessions
pub mod Listings
pub mod Changes
pub mod Laws
use hop_rs.Prelude.{Option, Text, err, find, none, ok, some, text, unwrap_or, ◌++◌, ◌>>=◌, ◌>>◌}
use hop_rs.Errors.{validation, Result}
use hop_rs.Catalog.{
  ResourceType, resource_type_as_str, local_mode, declarative, Ownership, Database,
}
use hop_rs.Catalog.Statements.{owns, delete_ownership, delete_row, increment_revision}

pub data ResourceOwnership : Type 0 where
  local_resource config_resource : ResourceOwnership

ownership_of : Option Ownership → ResourceOwnership
ownership_of none = local_resource
ownership_of (some o) = elim o.management_mode [
  | declarative ↦ config_resource
  | local_mode ↦ local_resource
]

unfoldable pub resource_ownership : ResourceType → Text → Database → ResourceOwnership
unfolding ownership_of owns
resource_ownership type id db = ownership_of (find (owns type id) db.resource_ownership)

local_owner : ResourceType → Text → Option Ownership → Result (Unit {0})
local_owner type id none =
    err (validation (text "unknown " ++ (resource_type_as_str type ++ (text " id: " ++ id))))
local_owner type id (some o) = elim o.management_mode [
  | local_mode ↦ ok tt
  | declarative ↦ err (
      validation (
        text "managed_by_source: resource is managed by "
        ++ unwrap_or (text "a declarative source") o.source_id))
]

-- `ensure_local`
unfoldable pub ensure_local : ResourceType → Text → Database → Result (Unit {0})
unfolding local_owner owns resource_type_as_str
ensure_local type id db = local_owner type id (find (owns type id) db.resource_ownership)

-- `delete_local_resource`. The table is fixed by the resource type in each of the three calls, so
-- the arm for another table is not there.
unfoldable pub delete_local_resource : ResourceType → Text → Database → Result Database
unfolding ensure_local delete_ownership delete_row increment_revision
delete_local_resource type id db = do
  ensure_local type id db
  deleted ← delete_row type id (delete_ownership type id db)
  ok (increment_revision deleted)
