-- ===== src/Tui/Drawn.antt =====
-- Proofs about the lines of the grouped list that is drawn.
use hop_rs.Prelude.{
  Bool, Elem, List, Text, [], ap, arith, false, here, if-cases, if◌then◌else◌, inl, inr, leb,
  length, ltb, nat_eq, refl, some, suc, there, true, zero, ℕ, ◌&&◌, ◌+◌, ◌<◌, ◌==◌, ◌∙◌, ◌∷◌, ◌≡◌,
  ◌≤◌, ◌⊎◌,
}
use hop_rs.Models.{Asset}
use hop_rs.Tui.{AssetListItem, group_item, asset_item, asset_group_label, group_onto, item_at}
use hop_rs.Tui.Draw.{DrawnLine, first_line, draw_group, draw_asset, draw_items}

-- The assets of a grouped list, without the headers.
abbrev pub listed : List AssetListItem → List Asset
listed [] = []
listed (group_item label ∷ items) = listed items
listed (asset_item a ∷ items) = a ∷ listed items

pub listed-group_onto : (current : Text) (l : List Asset) → listed (group_onto current l) ≡ l
unfolding group_onto
listed-group_onto current [] = refl
listed-group_onto current (a ∷ l) =
    let rest = listed-group_onto (asset_group_label a) l in
    if-cases (λ items. listed items ≡ a ∷ l) (asset_group_label a == current)
      (λ same. ap (λ xs. a ∷ xs) rest) (λ other. ap (λ xs. a ∷ xs) rest)

-- The asset is in the list, at the position that is selected; the list starts at a position.
pub StandsAt : ℕ → ℕ → Asset → List Asset → Type 0
StandsAt selected idx a l = (k : ℕ) × (item_at k l ≡ some a) × (idx + k ≡ selected)

place_here :
    (idx selected : ℕ) (a b : Asset) (l : List Asset)
    → first_line a true ≡ first_line b (nat_eq idx selected)
    → StandsAt selected idx a (b ∷ l)
unfolding StandsAt item_at
place_here idx selected a b l same =
    let own : b ≡ a = cc in
    let chosen : nat_eq idx selected ≡ true = cc in (0, ap some own, ground (arith, chosen))

place_after :
    (idx selected : ℕ) (a b : Asset) (l : List Asset)
    → StandsAt selected (idx + 1) a l
    → StandsAt selected idx a (b ∷ l)
unfolding StandsAt item_at
place_after idx selected a b l (k, found, place) = (suc k, found, omega (arith, place))

Elem-draw_group :
    (drawn : Bool) (label : Text) (a : Asset) (rest : List DrawnLine)
    → Elem (first_line a true) (draw_group drawn label rest)
    → Elem (first_line a true) rest
unfolding draw_group
Elem-draw_group true label a rest (here same) = cc
Elem-draw_group true label a rest (there later) = later
Elem-draw_group false label a rest h = h

Elem-draw_asset :
    (skipped full whole is_selected : Bool) (a b : Asset) (rest : List DrawnLine)
    → Elem (first_line a true) (draw_asset skipped full whole b is_selected rest)
    → (first_line a true ≡ first_line b is_selected) ⊎ Elem (first_line a true) rest
unfolding draw_asset
Elem-draw_asset true full whole is_selected a b rest h = inr h
Elem-draw_asset false true whole is_selected a b rest h = elim h [ ]
Elem-draw_asset false false whole is_selected a b rest (here same) = inl same
Elem-draw_asset false false true is_selected a b rest (there (here same)) = cc
Elem-draw_asset false false true is_selected a b rest (there (there later)) = inr later
Elem-draw_asset false false false is_selected a b rest (there later) = inr later

pub draw_items-marked :
    (scroll available selected idx lines : ℕ) (items : List AssetListItem) (a : Asset)
    → Elem (first_line a true) (draw_items scroll available selected idx lines items)
    → StandsAt selected idx a (listed items)
unfolding draw_items
draw_items-marked scroll available selected idx lines [] a h = elim h [ ]
draw_items-marked scroll available selected idx lines (group_item label ∷ items) a h =
    let drawn = leb scroll idx && ltb lines available in
    let next = if drawn then lines + 1 else lines in
    draw_items-marked scroll available selected idx next items a (Elem-draw_group drawn label a _ h)
draw_items-marked scroll available selected idx lines (asset_item b ∷ items) a h =
    let skipped = ltb idx scroll in
    let whole = ltb (lines + 1) available in
    let next = if skipped then lines else if whole then lines + 2 else lines + 1 in
    elim (Elem-draw_asset skipped (leb available lines) whole (nat_eq idx selected) a b _ h) [
      | inl same ↦ place_here idx selected a b (listed items) same
      | inr later ↦
          place_after idx selected a b (listed items)
            (draw_items-marked scroll available selected (idx + 1) next items a later)
    ]

pub draw_items-shows :
    (available selected idx lines k : ℕ) (items : List AssetListItem) (a : Asset)
    → item_at k (listed items) ≡ some a
    → idx + k ≡ selected
    → lines + length items + length (listed items) ≤ available
    → Elem (first_line a true) (draw_items 0 available selected idx lines items)
unfolding draw_items draw_group draw_asset item_at
draw_items-shows available selected idx lines k [] a found place fits = cc
draw_items-shows available selected idx lines k (group_item label ∷ items) a found place fits =
    let drawn : (leb 0 idx && ltb lines available) ≡ true = ground arith in
    rw (draw_items, drawn)
      (there
        (draw_items-shows available selected idx (lines + 1) k items a found place (omega arith)))
draw_items-shows available selected idx lines zero (asset_item b ∷ items) a found place fits =
    let shown : ltb idx 0 ≡ false = ground arith in
    let free : leb available lines ≡ false = ground arith in
    let whole : ltb (lines + 1) available ≡ true = ground arith in
    let chosen : nat_eq idx selected ≡ true = ground arith in
    rw (draw_items, shown, free, whole, chosen) (here cc)
draw_items-shows available selected idx lines (suc k) (asset_item b ∷ items) a found place fits =
    let shown : ltb idx 0 ≡ false = ground arith in
    let free : leb available lines ≡ false = ground arith in
    let whole : ltb (lines + 1) available ≡ true = ground arith in
    rw (draw_items, shown, free, whole)
      (there (
        there (
          draw_items-shows available selected (idx + 1) (lines + 2) k items a found (omega arith)
            (omega arith))))

pub at_selected :
    (selected : ℕ) (a : Asset) (l : List Asset)
    → StandsAt selected 0 a l
    → item_at selected l ≡ some a
unfolding StandsAt
at_selected selected a l (k, found, place) =
    let same : selected ≡ k = omega (arith, place) in ap (λ n. item_at n l) same ∙ found

pub item_at-bound : (n : ℕ) (l : List Asset) (a : Asset) → item_at n l ≡ some a → n < length l
unfolding item_at
item_at-bound n [] a h = cc
item_at-bound zero (x ∷ l) a h = omega arith
item_at-bound (suc n) (x ∷ l) a h = let later = item_at-bound n l a h in omega arith

pub length-listed : (items : List AssetListItem) → length (listed items) ≤ length items
length-listed [] = omega arith
length-listed (group_item label ∷ items) = let rest = length-listed items in omega arith
length-listed (asset_item a ∷ items) = let rest = length-listed items in omega arith
