-- ===== src/Tui/Draw.antt =====
-- The drawing of the list of assets: `draw_assets` and `draw_empty_assets` of
-- crates/hop-server/src/tui/views.rs. A line is what it shows; its style, its padding and the cut at
-- the width of the area are left out.
use hop_rs.Prelude.{
  Bool, List, Text, [], if◌then◌else◌, is_empty, leb, length, ltb, nat_eq, text, ℕ, ◌&&◌, ◌++◌, ◌+◌,
  ◌-◌, ◌/◌, ◌∷◌,
}
use hop_rs.Models.{Asset}
use hop_rs.Tui.{TuiApp, AssetListItem, group_item, asset_item, filtered_assets, grouped_items, min}

-- The lines of `group_line` and `draw_empty_assets`, and the two of `asset_lines`, with whether the
-- asset is marked as the selected one.
pub data DrawnLine : Type 0 where
  group_line empty_line : Text → DrawnLine
  first_line second_line : Asset → Bool → DrawnLine

unfoldable pub visible_asset_count : ℕ → ℕ
visible_asset_count list_height = list_height / 2

unfoldable pub scroll_offset : ℕ → ℕ → ℕ
scroll_offset selected visible_count =
    if leb visible_count selected then selected - visible_count + 1 else 0

-- The lines of a header that is drawn or not, before those of the rest.
unfoldable pub draw_group : Bool → Text → List DrawnLine → List DrawnLine
draw_group drawn label rest = if drawn then group_line label ∷ rest else rest

-- The lines of an asset: `continue` where it is above the area, `break` where no line is free, and
-- only the first line where no other is.
unfoldable pub draw_asset : Bool → Bool → Bool → Asset → Bool → List DrawnLine → List DrawnLine
draw_asset skipped full whole a is_selected rest =
    if skipped
    then rest
    else if full
    then []
    else first_line a is_selected ∷ (if whole then second_line a is_selected ∷ rest else rest)

-- The loop over the grouped list, from an `asset_idx` and a number of lines on.
unfoldable pub draw_items : ℕ → ℕ → ℕ → ℕ → ℕ → List AssetListItem → List DrawnLine
unfolding draw_group draw_asset
draw_items scroll available selected asset_idx lines [] = []
draw_items scroll available selected asset_idx lines (group_item label ∷ items) =
    let drawn = leb scroll asset_idx && ltb lines available in
    let next = if drawn then lines + 1 else lines in
    draw_group drawn label (draw_items scroll available selected asset_idx next items)
draw_items scroll available selected asset_idx lines (asset_item a ∷ items) =
    let skipped = ltb asset_idx scroll in
    let whole = ltb (lines + 1) available in
    let next = if skipped then lines else if whole then lines + 2 else lines + 1 in
    draw_asset skipped (leb available lines) whole a (nat_eq asset_idx selected)
      (draw_items scroll available selected (asset_idx + 1) next items)

unfoldable pub draw_empty_assets : Text → List DrawnLine
unfolding is_empty
draw_empty_assets query =
    empty_line (
      if is_empty query
      then text "No assets configured"
      else text "No assets match \"" ++ (query ++ text "\""))
    ∷ []

-- The lines in an area, by its height, and the panel with its cache as it is afterwards.
unfoldable pub draw_assets : (Text → List Text → List Text) → ℕ → TuiApp → List DrawnLine × TuiApp
unfolding filtered_assets grouped_items min visible_asset_count scroll_offset draw_items
    draw_empty_assets
draw_assets match_list height app =
    let (filtered, searched) = filtered_assets match_list app in
    let (grouped, after) = grouped_items match_list searched in
    let visible_count = visible_asset_count height in
    let selected = min app.selected (length filtered - 1) in
    let lines = draw_items (scroll_offset selected visible_count) height selected 0 0 grouped in
    (
      (if nat_eq (length filtered) 0
          then draw_empty_assets app.query
          else if nat_eq visible_count 0
          then []
          else lines),
      after,
    )
