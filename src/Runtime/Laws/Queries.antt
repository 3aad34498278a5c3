-- ===== src/Runtime/Laws/Queries.antt =====
-- Proofs about the authorisation queries of runtime.rs: ORDER BY, LIMIT 1 and the row tests.
use hop_rs.Prelude.{
  Bool, Bool-cases, List, Option, Text, [], and_parts, any, arith, eq_refl, every, false, inl, inr,
  keep, refl, some, sym, true, ◌&&◌, ◌==◌, ◌∙◌, ◌∷◌, ◌≡◌, ◌⊎◌,
}
use hop_rs.Catalog.{AssetRecord, Database}
use hop_rs.Runtime.Access.{
  insert_row, order_by, first_row, may_access, rows_for_key, key_can_access_asset, ranked_before,
}

module _ {ℓ} {A : Type ℓ} (before : A → A → Bool) (p : A → Bool) where
  any-insert_row : (x : A) (xs : List A) → any p (insert_row before x xs) ≡ any p (x ∷ xs)
  unfolding insert_row
  any-insert_row x [] = refl
  any-insert_row x (y ∷ ys) = ground (arith, any-insert_row x ys)

  any-order_by : (xs : List A) → any p (order_by before xs) ≡ any p xs
  unfolding order_by
  any-order_by [] = refl
  any-order_by (x ∷ xs) = ground (arith, any-insert_row x (order_by before xs), any-order_by xs)

  every-insert_row : (x : A) (xs : List A) → every p (insert_row before x xs) ≡ every p (x ∷ xs)
  unfolding insert_row
  every-insert_row x [] = refl
  every-insert_row x (y ∷ ys) = ground (arith, every-insert_row x ys)

  every-order_by : (xs : List A) → every p (order_by before xs) ≡ every p xs
  unfolding order_by
  every-order_by [] = refl
  every-order_by (x ∷ xs) =
      ground (arith, every-insert_row x (order_by before xs), every-order_by xs)

  -- The first row of a list passes what every row passes.
  every-first_row : (xs : List A) (a : A) → first_row xs ≡ some a → every p xs ≡ true → p a ≡ true
  every-first_row [] a h e = cc
  every-first_row (x ∷ xs) a h e = ground arith

  any-first_row : (xs : List A) → any p xs ≡ true → (a : A) × (first_row xs ≡ some a)
  any-first_row [] h = cc
  any-first_row (x ∷ xs) h = (x, refl)

module _ {ℓ} {A : Type ℓ} (p q : A → Bool) where
  any-keep : (xs : List A) → any q (keep p xs) ≡ any (λ x. q x && p x) xs
  any-keep [] = refl
  any-keep (x ∷ xs) = ground (arith, any-keep xs)

  every-keep : (xs : List A) → ((x : A) → p x ≡ true → q x ≡ true) → every q (keep p xs) ≡ true
  every-keep [] h = refl
  every-keep (x ∷ xs) h = ground (arith, every-keep xs h, h x)

-- The rows that `list_assets_for_key` selects hold an asset's id exactly when
-- `key_can_access_asset` says yes for that id.
pub any-rows_for_key :
    (key_id asset_id : Text) (db : Database)
    → any (λ a. a.id == asset_id) (rows_for_key key_id db) ≡ key_can_access_asset key_id asset_id db
unfolding rows_for_key key_can_access_asset
any-rows_for_key key_id asset_id db = any-order_by _ _ _ ∙ any-keep _ _ db.assets

module _ {ℓ} {A : Type ℓ} (before : A → A → Bool) (p : A → Bool) where
  -- An order that puts the rows with `p` first.
  abbrev pub PutsFirst : Type ℓ
  PutsFirst = (a b : A) → p a ≡ true → p b ≡ false → (before a b ≡ true) × (before b a ≡ false)

  abbrev HeadPasses : List A → Type 0
  HeadPasses [] = ⊥
  HeadPasses (x ∷ xs) = p x ≡ true

  head-insert_row :
      PutsFirst
      → (x : A) (xs : List A) → (p x ≡ true) ⊎ HeadPasses xs
      → HeadPasses (insert_row before x xs)
  unfolding insert_row
  head-insert_row first x [] h = ground arith
  head-insert_row first x (y ∷ ys) h = ground (arith, first x y, first y x)

  head-order_by : PutsFirst → (xs : List A) → any p xs ≡ true → HeadPasses (order_by before xs)
  unfolding order_by
  head-order_by first [] h = cc
  head-order_by first (x ∷ xs) h = elim (Bool-cases (p x)) [
    | inl e ↦ head-insert_row first x (order_by before xs) (inl e)
    | inr e ↦
        head-insert_row first x (order_by before xs) (inr (head-order_by first xs (rw e at h)))
  ]

  first-HeadPasses : (xs : List A) (a : A) → first_row xs ≡ some a → HeadPasses xs → p a ≡ true
  first-HeadPasses [] a e h = absurd h
  first-HeadPasses (x ∷ xs) a e h = ground arith

pub ranked_puts_first : (p : AssetRecord → Bool) → PutsFirst (ranked_before p) p
unfolding ranked_before
ranked_puts_first p a b ha hb = ground arith

module _ {ℓ} {A : Type ℓ} (p q : A → Bool) where
  any-of-first : (xs : List A) (a : A) → first_row xs ≡ some a → p a ≡ true → any p xs ≡ true
  any-of-first [] a h e = cc
  any-of-first (x ∷ xs) a h e = ground arith

  pub any-weaken :
      ((x : A) → p x ≡ true → q x ≡ true) → (xs : List A) → any p xs ≡ true → any q xs ≡ true
  any-weaken h [] e = e
  any-weaken h (x ∷ xs) e = ground (arith, h x, any-weaken h xs)

-- LIMIT 1 of the rows of `db.assets` that the key may access and that match, in some order.
module _ (key_id : Text) (matches : AssetRecord → Bool) (before : AssetRecord → AssetRecord → Bool)
    (db : Database) where
  abbrev pub picked : Option AssetRecord
  picked = first_row (order_by before (keep (λ a. may_access key_id db a && matches a) db.assets))

  pub picked_sound :
      (a : AssetRecord)
      → picked ≡ some a
      → (key_can_access_asset key_id a.id db ≡ true)
        × (may_access key_id db a ≡ true)
        × (matches a ≡ true)
  unfolding key_can_access_asset
  picked_sound a h =
      let rows = keep (λ b. may_access key_id db b && matches b) db.assets in
      let both =
        every-first_row before (λ b. may_access key_id db b && matches b) (order_by before rows) a h
          (every-order_by before _ rows ∙ every-keep _ _ db.assets (λ x e. e)) in
      let found =
        any-of-first (λ b. b.id == a.id) (λ b. true) (order_by before rows) a h (eq_refl a.id) in
      let here : any (λ b. b.id == a.id && (may_access key_id db b && matches b)) db.assets ≡ true =
        sym (any-keep _ _ db.assets) ∙ sym (any-order_by before _ rows) ∙ found in
      let parts = and_parts (may_access key_id db a) (matches a) both in
      (any-weaken _ _ (λ x e. ground arith) db.assets here, parts.0, parts.1)

  pub picked_complete :
      any (λ a. may_access key_id db a && matches a) db.assets ≡ true
      → (a : AssetRecord) × (picked ≡ some a)
  picked_complete h =
      any-first_row before (λ a. may_access key_id db a && matches a) _
        (any-order_by before _ _
          ∙ any-keep (λ a. may_access key_id db a && matches a)
              (λ a. may_access key_id db a && matches a) db.assets
          ∙ any_same db.assets h)
    where
      any_same :
          (xs : List AssetRecord)
          → any (λ a. may_access key_id db a && matches a) xs ≡ true
          → any
              (λ a. (may_access key_id db a && matches a) && (may_access key_id db a && matches a))
              xs
            ≡ true
      any_same xs e = any-weaken _ _ (λ x e'. ground arith) xs e

  pub picked_preferred :
      (p : AssetRecord → Bool) (a : AssetRecord)
      → PutsFirst before p
      → picked ≡ some a
      → any (λ b. p b && (may_access key_id db b && matches b)) db.assets ≡ true
      → p a ≡ true
  picked_preferred p a first h e = first-HeadPasses before p _ a h (
      head-order_by before p first _
        (any-keep (λ b. may_access key_id db b && matches b) p db.assets ∙ e))
