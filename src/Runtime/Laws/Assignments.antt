-- ===== src/Runtime/Laws/Assignments.antt =====
-- Proofs about `set_authorized_key_access` of runtime.rs.
use hop_rs.Prelude.{
  Bool, List, Outcome-cases, Text, [], ap, arith, eq_iff, false, first_step, if◌then◌else◌, inl,
  inr, keep, not, ok, refl, ◌&&◌, ◌==◌, ◌||◌, ◌∙◌, ◌∷◌, ◌≡◌,
}
use hop_rs.Prelude.Map.{contains, contains-insert_name}
use hop_rs.Models.{AssetAccessMode}
use hop_rs.Catalog.{Assignment, Database}
use hop_rs.Catalog.Statements.{is_assigned, insert_assignment, increment_revision}
use hop_rs.Runtime.Keys.{
  name_set, insert_assignments, clear_assignments, replace_access_assignments, write_access_mode,
  set_authorized_key_access,
}

contains-name_set : (a : Text) (ids : List Text) → contains a (name_set ids) ≡ contains a ids
unfolding name_set contains
contains-name_set a [] = refl
contains-name_set a (x ∷ ids) =
    contains-insert_name x a (name_set ids) ∙ ap (λ b. (x == a) || b) (contains-name_set a ids)

-- One INSERT adds its pair, and changes no other table.
insert_assignment_lem :
    (key_id id : Text) (db db' : Database)
    → insert_assignment key_id id db ≡ ok db'
    → (db'.assets ≡ db.assets)
      × (db'.access_keys ≡ db.access_keys)
      × (db'.access_key_assets ≡ record { key_id = key_id; asset_id = id } ∷ db.access_key_assets)
unfolding insert_assignment
insert_assignment_lem key_id id db db' h = ground arith

is_assigned-cons :
    (key_id id j a : Text) (rows : List Assignment)
    → is_assigned j a (record { key_id = key_id; asset_id = id } ∷ rows)
      ≡ ((key_id == j && id == a) || is_assigned j a rows)
unfolding is_assigned
is_assigned-cons key_id id j a rows = refl

regroup : (k i c r : Bool) → ((k && c) || ((k && i) || r)) ≡ ((k && (i || c)) || r)
regroup k i c r = ground arith

insert_assignments_lem :
    (key_id : Text) (ids : List Text) (db db' : Database)
    → insert_assignments key_id ids db ≡ ok db'
    → (db'.assets ≡ db.assets)
      × (db'.access_keys ≡ db.access_keys)
      × ((j a : Text)
          → is_assigned j a db'.access_key_assets
            ≡ ((key_id == j && contains a ids) || is_assigned j a db.access_key_assets))
unfolding insert_assignments contains
insert_assignments_lem key_id [] db db' h = (ground arith, ground arith, λ j a. ground arith)
insert_assignments_lem key_id (id ∷ ids) db db' h =
    let (mid, one, rest) =
      first_step (insert_assignment key_id id db) (insert_assignments key_id ids) h in
    let (e, f, g) = insert_assignment_lem key_id id db mid one in
    let (e', f', g') = insert_assignments_lem key_id ids mid db' rest in
    (
      e' ∙ e,
      f' ∙ f,
      λ j a.
          g' j a
          ∙ ap (λ rows. (key_id == j && contains a ids) || is_assigned j a rows) g
          ∙ ap (λ b. (key_id == j && contains a ids) || b)
              (is_assigned-cons key_id id j a db.access_key_assets)
          ∙ regroup (key_id == j) (id == a) (contains a ids) (is_assigned j a db.access_key_assets),
    )

is_assigned-clear :
    (key_id j a : Text) (rows : List Assignment)
    → is_assigned j a (keep (λ r. not (r.key_id == key_id)) rows)
      ≡ (if key_id == j then false else is_assigned j a rows)
unfolding is_assigned
is_assigned-clear key_id j a [] = ground arith
is_assigned-clear key_id j a (r ∷ rows) = ground (
  arith,
  is_assigned-clear key_id j a rows,
  eq_iff r.key_id key_id,
  eq_iff r.key_id j,
  eq_iff key_id j,
)

-- The steps before the assignments are written change no row that they read.
pub set_access_replaced :
    (id : Text) (mode : AssetAccessMode) (ids : List Text) (db db' : Database)
    → set_authorized_key_access id mode ids db ≡ ok db'
    → (mid : Database) × (insert_assignments id
          (name_set ids)
          (clear_assignments id (write_access_mode id mode db))
        ≡ ok mid)
      × (db' ≡ increment_revision mid)
unfolding set_authorized_key_access replace_access_assignments
set_access_replaced id mode ids db db' h =
    elim (Outcome-cases (
      insert_assignments id (name_set ids) (clear_assignments id (write_access_mode id mode db)))) [
        | inl (mid, e) ↦ (mid, e, ground arith)
        | inr (f, e) ↦ absurd (ground arith)
      ]

merged : (same c r : Bool) → ((same && c) || (if same then false else r)) ≡ (if same then c else r)
merged same c r = ground arith

-- After a successful change of a key's access, the key is assigned exactly the assets of the list,
-- and the assignments of every other key are as they were.
pub set_authorized_key_access_assigns :
    (id : Text) (mode : AssetAccessMode) (ids : List Text) (db db' : Database) (j a : Text)
    → set_authorized_key_access id mode ids db ≡ ok db'
    → is_assigned j a db'.access_key_assets
      ≡ (if id == j then contains a ids else is_assigned j a db.access_key_assets)
unfolding clear_assignments write_access_mode increment_revision
set_authorized_key_access_assigns id mode ids db db' j a h =
    let (mid, done, e) = set_access_replaced id mode ids db db' h in
    let (_, _, g) =
      insert_assignments_lem id (name_set ids) (clear_assignments id (write_access_mode id mode db))
        mid done in
    ap (λ (d : Database). is_assigned j a d.access_key_assets) e
    ∙ g j a
    ∙ ap (λ b. (id == j && contains a (name_set ids)) || b)
        (is_assigned-clear id j a db.access_key_assets)
    ∙ ap (λ b. (id == j && b) || (if id == j then false else is_assigned j a db.access_key_assets))
        (contains-name_set a ids)
    ∙ merged (id == j) (contains a ids) (is_assigned j a db.access_key_assets)
