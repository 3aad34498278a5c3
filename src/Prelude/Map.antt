-- ===== src/Prelude/Map.antt =====
-- `BTreeMap<String, V>` as an association list in the order of the keys, and `BTreeSet<String>`.
use mathlib.Core.Path.{◌≡◌, refl}
use mathlib.Core.Bool.{Bool, false, ◌||◌}
use mathlib.Core.Option.{Option, none, some}
use mathlib.Core.List.{List, [], ◌∷◌}
use native.Mathlib.Omega.{arith}
use hop_rs.Prelude.Tests.{if◌then◌else◌}
use hop_rs.Prelude.Texts.{Text, ◌==◌, text_ltb, eq_iff}

abbrev pub Map {ℓ} : Type ℓ → Type ℓ
Map V = List (Text × V)

module _ {ℓ} {V : Type ℓ} where
  -- `BTreeMap::get`
  unfoldable pub lookup : Text → Map V → Option V
  lookup name [] = none
  lookup name ((first, value) ∷ rest) = if first == name then some value else lookup name rest

  -- `BTreeMap::insert`
  unfoldable pub insert : Text → V → Map V → Map V
  insert name value [] = (name, value) ∷ []
  insert name value ((first, other) ∷ rest) =
      let later = (first, other) ∷ insert name value rest in
      if first == name
      then (name, value) ∷ rest
      else if text_ltb name first
      then (name, value) ∷ (first, other) ∷ rest
      else later

  -- `BTreeMap::remove`
  unfoldable pub remove : Text → Map V → Map V
  remove k [] = []
  remove k ((j, v) ∷ m) = let rest = remove k m in if j == k then rest else (j, v) ∷ rest

  -- `BTreeMap::keys`
  unfoldable pub keys : Map V → List Text
  keys [] = []
  keys ((j, v) ∷ m) = j ∷ keys m

  pub lookup-insert :
      (name wanted : Text) (value : V) (entries : Map V)
      → lookup wanted (insert name value entries)
        ≡ (if name == wanted then some value else lookup wanted entries)
  unfolding lookup insert
  lookup-insert name wanted value [] = refl
  lookup-insert name wanted value ((first, other) ∷ rest) =
      let later = lookup-insert name wanted value rest in
      ground (arith, later, eq_iff first name, eq_iff name wanted, eq_iff first wanted)

  pub lookup-remove :
      (k j : Text) (m : Map V) → lookup j (remove k m) ≡ (if k == j then none else lookup j m)
  unfolding lookup remove
  lookup-remove k j [] = ground arith
  lookup-remove k j ((i, w) ∷ m) =
      ground (arith, eq_iff k j, eq_iff i k, eq_iff i j, lookup-remove k j m)

-- `BTreeSet::contains`, and `contains` of a slice.
unfoldable pub contains : Text → List Text → Bool
contains k [] = false
contains k (j ∷ s) = (j == k) || contains k s

-- `BTreeSet::insert`
unfoldable pub insert_name : Text → List Text → List Text
insert_name k [] = k ∷ []
insert_name k (j ∷ s) =
    let later = j ∷ insert_name k s in
    if j == k then j ∷ s else if text_ltb k j then k ∷ j ∷ s else later

-- `BTreeSet::remove`
unfoldable pub remove_name : Text → List Text → List Text
remove_name k [] = []
remove_name k (j ∷ s) = let rest = remove_name k s in if j == k then rest else j ∷ rest

pub contains-insert_name :
    (k j : Text) (s : List Text) → contains j (insert_name k s) ≡ ((k == j) || contains j s)
unfolding contains insert_name
contains-insert_name k j [] = refl
contains-insert_name k j (i ∷ s) =
    ground (arith, eq_iff k j, eq_iff i k, eq_iff i j, contains-insert_name k j s)

pub contains-remove_name :
    (k j : Text) (s : List Text)
    → contains j (remove_name k s) ≡ (if k == j then false else contains j s)
unfolding contains remove_name
contains-remove_name k j [] = ground arith
contains-remove_name k j (i ∷ s) =
    ground (arith, eq_iff k j, eq_iff i k, eq_iff i j, contains-remove_name k j s)

-- The values of a map, each mapped.
abbrev pub map_values {ℓ κ} : {V : Type ℓ} {W : Type κ} → (V → W) → Map V → Map W
map_values f [] = []
map_values f ((name, value) ∷ rest) = (name, f value) ∷ map_values f rest
