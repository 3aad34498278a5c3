-- ===== src/Runtime/Laws/Grants.antt =====
-- Proofs about `set_authorized_key_active` of runtime.rs.
use hop_rs.Prelude.{
  Bool, Bool-cases, List, Text, [], any, ap, arith, eq_iff, false, find, if◌then◌else◌, inl, inr,
  none, ok, refl, update_where, ◌&&◌, ◌==◌, ◌∙◌, ◌∷◌, ◌≡◌,
}
use hop_rs.Catalog.{AssetRecord, KeyRecord, Assignment, Database}
use hop_rs.Catalog.Statements.{increment_revision}
use hop_rs.Runtime.Access.{grants, may_access, key_can_access_asset}
use hop_rs.Runtime.Keys.{differs, write_enabled, set_authorized_key_active}

any-false {ℓ} :
    {A : Type ℓ} (p : A → Bool) (xs : List A) → ((a : A) → p a ≡ false) → any p xs ≡ false
any-false p [] h = refl
any-false p (x ∷ xs) h = ground (arith, h x, any-false p xs h)

find-disabled :
    (id : Text) (ks : List KeyRecord)
    → find
        (λ k. k.id == id && k.enabled)
        (update_where
          (λ k. k.id == id && differs k.enabled false)
          (λ k. record k { enabled = false })
          ks)
      ≡ none
unfolding differs
find-disabled id [] = refl
find-disabled id (k ∷ ks) = ground (arith, find-disabled id ks)

find-enabled_other :
    (id j : Text) (ks : List KeyRecord)
    → (id == j) ≡ false
    → find
        (λ k. k.id == j && k.enabled)
        (update_where
          (λ k. k.id == id && differs k.enabled false)
          (λ k. record k { enabled = false })
          ks)
      ≡ find (λ k. k.id == j && k.enabled) ks
unfolding differs
find-enabled_other id j [] h = refl
find-enabled_other id j (k ∷ ks) h =
    ground (arith, find-enabled_other id j ks h, eq_iff k.id id, eq_iff k.id j, eq_iff id j)

may_access-disabled :
    (id : Text) (db : Database) (a : AssetRecord)
    → may_access id (write_enabled id false db) a ≡ false
unfolding may_access write_enabled
may_access-disabled id db a =
    ap (λ o. grants o a.id db.access_key_assets) (find-disabled id db.access_keys)

may_access-disabled_other :
    (id j : Text) (db : Database) (a : AssetRecord)
    → (id == j) ≡ false
    → may_access j (write_enabled id false db) a ≡ may_access j db a
unfolding may_access write_enabled
may_access-disabled_other id j db a h =
    ap (λ o. grants o a.id db.access_key_assets) (find-enabled_other id j db.access_keys h)

any-same {ℓ} :
    {A : Type ℓ} (p q : A → Bool) (xs : List A) → ((a : A) → p a ≡ q a) → any p xs ≡ any q xs
any-same p q [] h = refl
any-same p q (x ∷ xs) h = ground (arith, h x, any-same p q xs h)

-- What the queries read of a database.
abbrev Reads : Database → List AssetRecord → List KeyRecord → List Assignment → Type 0
Reads db assets keys rows =
    (db.assets ≡ assets) × (db.access_keys ≡ keys) × (db.access_key_assets ≡ rows)

key_can_access_asset-Reads :
    (j asset_id : Text) (a b : Database)
    → Reads a b.assets b.access_keys b.access_key_assets
    → key_can_access_asset j asset_id a ≡ key_can_access_asset j asset_id b
unfolding key_can_access_asset may_access
key_can_access_asset-Reads j asset_id a b (e, f, g) i =
    any (λ x. x.id == asset_id && grants (find (λ k. k.id == j && k.enabled) (f i)) x.id (g i))
      (e i)

set_active-Reads :
    (id : Text) (active : Bool) (db db' : Database)
    → set_authorized_key_active id active db ≡ ok db'
    → let w = write_enabled id active db in Reads db' w.assets w.access_keys w.access_key_assets
unfolding set_authorized_key_active increment_revision
set_active-Reads id active db db' h = ground arith

and-false : (b : Bool) → (b && false) ≡ false
and-false b = ground arith

write_enabled_revokes :
    (id j asset_id : Text) (db : Database)
    → key_can_access_asset j asset_id (write_enabled id false db)
      ≡ (if id == j then false else key_can_access_asset j asset_id db)
unfolding key_can_access_asset write_enabled
write_enabled_revokes id j asset_id db = elim (Bool-cases (id == j)) [
  | inl same ↦
      rw (same, ← (eq_iff id j).0 same)
        (any-false _ db.assets λ a.
          ap (λ b. a.id == asset_id && b) (may_access-disabled id db a)
          ∙ and-false (a.id == asset_id))
  | inr other ↦ rw other (
      any-same _ _ db.assets
        λ a. ap (λ b. a.id == asset_id && b) (may_access-disabled_other id j db a other))
]

-- Once a key has been disabled it may access no asset, and every other key may access what it
-- could before.
pub set_authorized_key_active_revokes :
    (id j asset_id : Text) (db db' : Database)
    → set_authorized_key_active id false db ≡ ok db'
    → key_can_access_asset j asset_id db'
      ≡ (if id == j then false else key_can_access_asset j asset_id db)
set_authorized_key_active_revokes id j asset_id db db' h =
    key_can_access_asset-Reads j asset_id db' (write_enabled id false db)
      (set_active-Reads id false db db' h)
    ∙ write_enabled_revokes id j asset_id db
