-- ===== src/Runtime/Laws/Revision.antt =====
-- Proofs about the revision under the operations of runtime.rs.
use hop_rs.Prelude.{
  Bool, Bool-cases, List, Text, [], any, ap, arith, false, first_step, inl, inr, ok, refl, true,
  update_where, ◌&&◌, ◌+◌, ◌==◌, ◌∙◌, ◌∷◌, ◌≡◌, ◌⊎◌,
}
use hop_rs.Models.{TagsJson, NewAuthorizedKey, NewAsset, NewCredential, AssetAccessMode, all}
use hop_rs.Catalog.{
  ResourceType, credential, asset, access_key, AssetRecord, KeyRecord, CredentialRecord, Database,
}
use hop_rs.Catalog.Statements.{
  insert_asset, update_asset_row, insert_credential, update_credential_row, insert_access_key,
  insert_assignment, insert_local_ownership, increment_revision, delete_row, delete_ownership,
}
use hop_rs.Runtime.{delete_local_resource}
use hop_rs.Runtime.Keys.{
  name_set, insert_assignments, clear_assignments, replace_access_assignments, add_authorized_key,
  add_authorized_key_with_access, write_access_mode, differs, write_enabled,
  set_authorized_key_active, set_authorized_key_access, delete_authorized_key,
}
use hop_rs.Runtime.Assets.{write_asset, bound_asset, add_asset, update_asset, delete_asset}
use hop_rs.Runtime.Credentials.{add_credential, update_credential, delete_credential}
use hop_rs.Runtime.Laws.Assignments.{set_access_replaced}
use hop_rs.Runtime.Changes.{
  Change, create_key, create_restricted_key, create_asset, create_credential, change_active,
  change_access, change_asset, change_credential, drop_key, drop_asset, drop_credential, run,
}

-- An UPDATE whose WHERE fits no row changes nothing.
update_where_none {ℓ} :
    {A : Type ℓ} (p : A → Bool) (f : A → A) (xs : List A)
    → any p xs ≡ false
    → update_where p f xs ≡ xs
update_where_none p f [] h = refl
update_where_none p f (x ∷ xs) h = ground (arith, update_where_none p f xs)

-- The revision has grown by one, or nothing has changed.
abbrev pub Counted : Database → Database → Type 0
Counted db db' = (db'.revision ≡ db.revision + 1) ⊎ (db' ≡ db)

insert_assignment-revision :
    (key_id id : Text) (db db' : Database)
    → insert_assignment key_id id db ≡ ok db'
    → db'.revision ≡ db.revision
unfolding insert_assignment
insert_assignment-revision key_id id db db' h = ground arith

insert_assignments-revision :
    (key_id : Text) (ids : List Text) (db db' : Database)
    → insert_assignments key_id ids db ≡ ok db'
    → db'.revision ≡ db.revision
unfolding insert_assignments
insert_assignments-revision key_id [] db db' h = ground arith
insert_assignments-revision key_id (id ∷ ids) db db' h =
    let (mid, one, rest) =
      first_step (insert_assignment key_id id db) (insert_assignments key_id ids) h in
    insert_assignments-revision key_id ids mid db' rest
    ∙ insert_assignment-revision key_id id db mid one

replace-revision :
    (id : Text) (ids : List Text) (db db' : Database)
    → replace_access_assignments id ids db ≡ ok db'
    → db'.revision ≡ db.revision
unfolding replace_access_assignments clear_assignments
replace-revision id ids db db' h = insert_assignments-revision id (name_set ids) _ db' h

insert_asset-revision :
    (row : AssetRecord) (db db' : Database)
    → insert_asset row db ≡ ok db'
    → db'.revision ≡ db.revision
unfolding insert_asset
insert_asset-revision row db db' h = ground arith

update_asset_row-revision :
    (row : AssetRecord) (db db' : Database)
    → update_asset_row row db ≡ ok db'
    → db'.revision ≡ db.revision
unfolding update_asset_row
update_asset_row-revision row db db' h = ground arith

insert_credential-revision :
    (row : CredentialRecord) (db db' : Database)
    → insert_credential row db ≡ ok db'
    → db'.revision ≡ db.revision
unfolding insert_credential
insert_credential-revision row db db' h = ground arith

update_credential_row-revision :
    (row : CredentialRecord) (db db' : Database)
    → update_credential_row row db ≡ ok db'
    → db'.revision ≡ db.revision
unfolding update_credential_row
update_credential_row-revision row db db' h = ground arith

insert_access_key-revision :
    (row : KeyRecord) (db db' : Database)
    → insert_access_key row db ≡ ok db'
    → db'.revision ≡ db.revision
unfolding insert_access_key
insert_access_key-revision row db db' h = ground arith

insert_local_ownership-revision :
    (type : ResourceType) (id : Text) (db db' : Database)
    → insert_local_ownership type id db ≡ ok db'
    → db'.revision ≡ db.revision
unfolding insert_local_ownership
insert_local_ownership-revision type id db db' h = ground arith

delete_row-revision :
    (type : ResourceType) (id : Text) (db db' : Database)
    → delete_row type id db ≡ ok db'
    → db'.revision ≡ db.revision
unfolding delete_row
delete_row-revision credential id db db' h = ground arith
delete_row-revision _ id db db' h = ground arith

delete_ownership-revision :
    (type : ResourceType) (id : Text) (db : Database)
    → (delete_ownership type id db).revision ≡ db.revision
unfolding delete_ownership
delete_ownership-revision type id db = refl

write_asset-revision :
    (codec : TagsJson) (id now : Text) (a : NewAsset) (u : Bool) (db db' : Database)
    → write_asset codec id now a u db ≡ ok db'
    → db'.revision ≡ db.revision
unfolding write_asset
write_asset-revision codec id now a true db db' h =
    let (row, _, e) = first_step (bound_asset codec id now a) (λ r. update_asset_row r db) h in
    update_asset_row-revision row db db' e
write_asset-revision codec id now a false db db' h =
    let (row, _, e) = first_step (bound_asset codec id now a) (λ r. insert_asset r db) h in
    insert_asset-revision row db db' e

ruleset keeps_revision = (
  insert_assignments-revision, replace-revision, write_asset-revision, insert_credential-revision,
  update_credential_row-revision, insert_access_key-revision, insert_local_ownership-revision,
  delete_row-revision, delete_ownership-revision,
)

-- An operation that ends by raising the revision of a state that has the old one.
bumped :
    (db mid db' : Database)
    → mid.revision ≡ db.revision
    → increment_revision mid ≡ db'
    → db'.revision ≡ db.revision + 1
unfolding increment_revision
bumped db mid db' e f = ground arith

module _ (db db' : Database) where
  delete-revision :
      (type : ResourceType) (id : Text)
      → delete_local_resource type id db ≡ ok db'
      → db'.revision ≡ db.revision + 1
  unfolding delete_local_resource increment_revision
  delete-revision type id h = grind (arith, keeps_revision)

  add_key-revision :
      (id now : Text) (k : NewAuthorizedKey) (m : AssetAccessMode) (ids : List Text)
      → add_authorized_key_with_access id now k m ids db ≡ ok db'
      → db'.revision ≡ db.revision + 1
  unfolding add_authorized_key_with_access increment_revision
  add_key-revision id now k m ids h = grind (arith, keeps_revision)

  add_asset-revision :
      (codec : TagsJson) (id now : Text) (a : NewAsset)
      → add_asset codec id now a db ≡ ok db'
      → db'.revision ≡ db.revision + 1
  unfolding add_asset increment_revision
  add_asset-revision codec id now a h = grind (arith, keeps_revision)

  update_asset-revision :
      (codec : TagsJson) (id now : Text) (a : NewAsset)
      → update_asset codec id now a db ≡ ok db'
      → db'.revision ≡ db.revision + 1
  unfolding update_asset increment_revision
  update_asset-revision codec id now a h = grind (arith, keeps_revision)

  add_credential-revision :
      (id now : Text) (c : NewCredential)
      → add_credential id now c db ≡ ok db'
      → db'.revision ≡ db.revision + 1
  unfolding add_credential increment_revision
  add_credential-revision id now c h = grind (arith, keeps_revision)

  update_credential-revision :
      (id now : Text) (c : NewCredential)
      → update_credential id now c db ≡ ok db'
      → db'.revision ≡ db.revision + 1
  unfolding update_credential increment_revision
  update_credential-revision id now c h = grind (arith, keeps_revision)

  set_access-revision :
      (id : Text) (m : AssetAccessMode) (ids : List Text)
      → set_authorized_key_access id m ids db ≡ ok db'
      → db'.revision ≡ db.revision + 1
  unfolding increment_revision write_access_mode clear_assignments
  set_access-revision id m ids h =
      let (mid, done, e) = set_access_replaced id m ids db db' h in
      ap (λ (d : Database). d.revision) e
      ∙ ap (λ n. n + 1) (insert_assignments-revision id (name_set ids) _ mid done)

  set_active-Counted :
      (id : Text) (active : Bool) → set_authorized_key_active id active db ≡ ok db' → Counted db db'
  unfolding set_authorized_key_active increment_revision write_enabled
  set_active-Counted id active h =
      let test : (k : KeyRecord) → Bool = λ k. k.id == id && differs k.enabled active in
      elim (Bool-cases (any test db.access_keys)) [
        | inl changed ↦ inl (ground arith)
        | inr same ↦ inr (
            ground (
              arith,
              update_where_none test (λ k. record k { enabled = active }) db.access_keys same,
            ))
      ]

-- A local change that succeeds raises the revision by one, or leaves the whole database as it was.
pub run-Counted :
    (codec : TagsJson) (c : Change) (db db' : Database) → run codec c db ≡ ok db' → Counted db db'
unfolding run add_authorized_key delete_authorized_key delete_asset delete_credential
run-Counted codec (create_key id now k) db db' h = inl (add_key-revision db db' id now k all [] h)
run-Counted codec (create_restricted_key id now k m ids) db db' h =
    inl (add_key-revision db db' id now k m ids h)
run-Counted codec (create_asset id now a) db db' h =
    inl (add_asset-revision db db' codec id now a h)
run-Counted codec (create_credential id now c) db db' h =
    inl (add_credential-revision db db' id now c h)
run-Counted codec (change_active id active) db db' h = set_active-Counted db db' id active h
run-Counted codec (change_access id m ids) db db' h = inl (set_access-revision db db' id m ids h)
run-Counted codec (change_asset id now a) db db' h =
    inl (update_asset-revision db db' codec id now a h)
run-Counted codec (change_credential id now c) db db' h =
    inl (update_credential-revision db db' id now c h)
run-Counted codec (drop_key id) db db' h = inl (delete-revision db db' access_key id h)
run-Counted codec (drop_asset id) db db' h = inl (delete-revision db db' asset id h)
run-Counted codec (drop_credential id) db db' h = inl (delete-revision db db' credential id h)
