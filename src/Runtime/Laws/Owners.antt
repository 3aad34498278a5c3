-- ===== src/Runtime/Laws/Owners.antt =====
-- Proofs about `ensure_local` of runtime.rs, and the operations that call it.
use hop_rs.Prelude.{Text, arith, ok, some, ◌≡◌}
use hop_rs.Models.{TagsJson}
use hop_rs.Catalog.{ResourceType, Database}
use hop_rs.Runtime.{local_resource, resource_ownership, ensure_local, delete_local_resource}
use hop_rs.Runtime.Keys.{
  set_authorized_key_active, set_authorized_key_access, delete_authorized_key,
}
use hop_rs.Runtime.Assets.{update_asset, delete_asset}
use hop_rs.Runtime.Credentials.{update_credential, delete_credential}
use hop_rs.Runtime.Changes.{Change, create_key, run, target}

-- A resource that the panel shows as managed by a configuration source does not pass the guard.
ensure_local_config :
    (type : ResourceType) (id : Text) (db : Database)
    → ensure_local type id db ≡ ok tt
    → resource_ownership type id db ≡ local_resource
unfolding resource_ownership ensure_local
ensure_local_config type id db e = ground arith

-- A change that succeeds went through the guard of its target.
run_guarded :
    (codec : TagsJson) (c : Change) (type : ResourceType) (id : Text) (db db' : Database)
    → target c ≡ some (type, id)
    → run codec c db ≡ ok db'
    → ensure_local type id db ≡ ok tt
unfolding run set_authorized_key_active set_authorized_key_access delete_authorized_key update_asset
    delete_asset update_credential delete_credential delete_local_resource
run_guarded codec (create_key i now k) type id db db' t h = cc
run_guarded codec _ type id db db' t h = ground arith

-- A change of, or a deletion of, an existing resource succeeds only if the resource is a local one:
-- what a configuration source declares is read-only for the panel and the local commands.
pub run_local_only :
    (codec : TagsJson) (c : Change) (type : ResourceType) (id : Text) (db db' : Database)
    → target c ≡ some (type, id)
    → run codec c db ≡ ok db'
    → resource_ownership type id db ≡ local_resource
run_local_only codec c type id db db' t h =
    ensure_local_config type id db (run_guarded codec c type id db db' t h)
