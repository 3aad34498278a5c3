-- ===== src/Tui/Connects.antt =====
-- Proofs about the list of assets that is drawn, and the asset that Enter connects to.
use hop_rs.Prelude.{
  Bool-cases, Elem, List, Option, Text, [], ap, arith, eq_refl, false, here, if◌then◌else◌, inl,
  inr, leb, length, length-sort_by, nat_eq, none, refl, some, sort_by, sym, there, true, ℕ, ◌+◌,
  ◌-◌, ◌/◌, ◌<◌, ◌==◌, ◌∙◌, ◌≡◌, ◌≤◌,
}
use std.Path.{subst}
use hop_rs.Models.{Asset}
use hop_rs.Tui.{
  TuiAction, enter, connect, connect_to, TuiApp, group_onto, filtered_assets, grouped_items,
  ordered_filtered_assets, selected_asset, shown_before, item_at, min, handle_input,
}
use hop_rs.Tui.Draw.{
  DrawnLine, first_line, draw_items, draw_empty_assets, scroll_offset, visible_asset_count,
  draw_assets,
}
use hop_rs.Tui.Drawn.{
  listed, StandsAt, listed-group_onto, draw_items-marked, draw_items-shows, at_selected,
  item_at-bound, length-listed,
}

filtered_assets-twice :
    (match_list : Text → List Text → List Text) (app : TuiApp)
    → filtered_assets match_list (filtered_assets match_list app).1 ≡ filtered_assets match_list app
unfolding filtered_assets
filtered_assets-twice match_list app = elim (Bool-cases (app.filtered_cache.query == app.query)) [
  | inl hit ↦ rw (filtered_assets, hit, hit) refl
  | inr miss ↦ rw (filtered_assets, miss, eq_refl app.query) refl
]

filtered_assets-selected :
    (match_list : Text → List Text → List Text) (app : TuiApp)
    → (filtered_assets match_list app).1.selected ≡ app.selected
unfolding filtered_assets
filtered_assets-selected match_list app = ground arith

-- What Enter connects to, by what a search finds.
chosen_of : TuiApp → List Asset → TuiAction
chosen_of app found =
    connect_to (item_at (min app.selected (length found - 1)) (sort_by shown_before found))

enter-chosen :
    (match_list : Text → List Text → List Text) (app : TuiApp)
    → (handle_input match_list enter app).0 ≡ chosen_of app (filtered_assets match_list app).0
unfolding handle_input selected_asset ordered_filtered_assets chosen_of
enter-chosen match_list app =
    let found = (filtered_assets match_list app).0 in
    ap (λ n. connect_to (item_at (min app.selected (n - 1)) (sort_by shown_before found)))
      (length-sort_by shown_before found)

draw_assets-after :
    (match_list : Text → List Text → List Text) (height : ℕ) (app : TuiApp)
    → (draw_assets match_list height app).1 ≡ (filtered_assets match_list app).1
unfolding draw_assets grouped_items ordered_filtered_assets
draw_assets-after match_list height app = ap (λ r. r.1) (filtered_assets-twice match_list app)

-- Enter, once the list is drawn, is for the asset at the position that the drawing marks.
draw_assets-chosen :
    (match_list : Text → List Text → List Text) (height : ℕ) (app : TuiApp)
    → (handle_input match_list enter (draw_assets match_list height app).1).0
      ≡ chosen_of app (filtered_assets match_list app).0
unfolding chosen_of
draw_assets-chosen match_list height app =
    let again = filtered_assets-twice match_list app in
    let kept = filtered_assets-selected match_list app in
    ap (λ t. (handle_input match_list enter t).0) (draw_assets-after match_list height app)
    ∙ enter-chosen match_list (filtered_assets match_list app).1
    ∙ ap (λ r. chosen_of (filtered_assets match_list app).1 r.0) again
    ∙ ap
        (λ n.
          let found = (filtered_assets match_list app).0 in
          connect_to (item_at (min n (length found - 1)) (sort_by shown_before found)))
        kept

-- The lines, by what a search finds.
lines_of : ℕ → TuiApp → List Asset → List DrawnLine
lines_of height app found =
    let visible_count = visible_asset_count height in
    let selected = min app.selected (length found - 1) in
    if nat_eq (length found) 0
    then draw_empty_assets app.query
    else if nat_eq visible_count 0
    then []
    else draw_items (scroll_offset selected visible_count) height selected 0 0
        (group_onto [] (sort_by shown_before found))

draw_assets-lines :
    (match_list : Text → List Text → List Text) (height : ℕ) (app : TuiApp)
    → (draw_assets match_list height app).0 ≡ lines_of height app (filtered_assets match_list app).0
unfolding draw_assets grouped_items ordered_filtered_assets lines_of
draw_assets-lines match_list height app =
    let found = (filtered_assets match_list app).0 in
    let visible_count = visible_asset_count height in
    let selected = min app.selected (length found - 1) in
    ap
      (λ r.
        if nat_eq (length found) 0
        then draw_empty_assets app.query
        else if nat_eq visible_count 0
        then []
        else draw_items (scroll_offset selected visible_count) height selected 0 0
            (group_onto [] (sort_by shown_before r.0)))
      (filtered_assets-twice match_list app)

lines_of-marked :
    (height : ℕ) (app : TuiApp) (found : List Asset) (a : Asset)
    → Elem (first_line a true) (lines_of height app found)
    → chosen_of app found ≡ connect a
unfolding lines_of chosen_of draw_empty_assets connect_to
lines_of-marked height app found a h = elim (Bool-cases (nat_eq (length found) 0)) [
  | inl none_found ↦ elim (rw (lines_of, none_found) at h) [
    | here same ↦ cc
    | there later ↦ elim later [ ]
  ]
  | inr some_found ↦ elim (Bool-cases (nat_eq (visible_asset_count height) 0)) [
    | inl no_room ↦ elim (rw (lines_of, some_found, no_room) at h) [ ]
    | inr room ↦
        let selected = min app.selected (length found - 1) in
        let scroll = scroll_offset selected (visible_asset_count height) in
        let shown = sort_by shown_before found in
        let marked =
          draw_items-marked scroll height selected 0 0 (group_onto [] shown) a
            (rw (lines_of, some_found, room) at h) in
        ap connect_to (
          at_selected selected a shown
            (subst (StandsAt selected 0 a) (listed-group_onto [] shown) marked))
  ]
]

connect_to-injective : (o : Option Asset) (a : Asset) → connect_to o ≡ connect a → o ≡ some a
unfolding connect_to
connect_to-injective none a h = cc
connect_to-injective (some b) a h = cc

lines_of-shows :
    (height : ℕ) (app : TuiApp) (found : List Asset) (a : Asset)
    → length (group_onto [] (sort_by shown_before found)) + length found ≤ height
    → chosen_of app found ≡ connect a
    → Elem (first_line a true) (lines_of height app found)
unfolding lines_of chosen_of scroll_offset visible_asset_count
lines_of-shows height app found a fits h =
    let selected = min app.selected (length found - 1) in
    let shown = sort_by shown_before found in
    let items = group_onto [] shown in
    let at = connect_to-injective (item_at selected shown) a h in
    let counted : length shown ≡ length found = length-sort_by shown_before found in
    let bound : selected < length shown = item_at-bound selected shown a at in
    let same : listed items ≡ shown = listed-group_onto [] shown in
    let lengths : length (listed items) ≡ length shown = ap length same in
    let more : length (listed items) ≤ length items = length-listed items in
    let some_found : nat_eq (length found) 0 ≡ false = ground (arith, bound, counted) in
    let room : nat_eq (height / 2) 0 ≡ false =
      ground (arith, bound, counted, lengths, more, fits) in
    let unscrolled : leb (height / 2) selected ≡ false =
      ground (arith, bound, counted, lengths, more, fits) in
    rw (lines_of, some_found, room, unscrolled)
      (draw_items-shows height selected 0 0 selected items a (ap (item_at selected) same ∙ at)
        (omega arith) (omega (arith, fits, counted, lengths)))

-- Every line that is drawn with the mark of the selection is of the asset that Enter then connects
-- to, whatever is scrolled, cut off at the end of the area, or held in the cache.
pub draw_assets-enter :
    (match_list : Text → List Text → List Text) (height : ℕ) (app : TuiApp) (a : Asset)
    → Elem (first_line a true) (draw_assets match_list height app).0
    → (handle_input match_list enter (draw_assets match_list height app).1).0 ≡ connect a
draw_assets-enter match_list height app a h =
    draw_assets-chosen match_list height app
    ∙ lines_of-marked height app (filtered_assets match_list app).0 a
        (subst (Elem (first_line a true)) (draw_assets-lines match_list height app) h)

-- Where the area has a line for each header and two for each asset of the grouped list, the asset
-- that Enter then connects to is drawn with the mark of the selection.
pub enter-draw_assets :
    (match_list : Text → List Text → List Text) (height : ℕ) (app : TuiApp) (a : Asset)
    → length (grouped_items match_list app).0 + length (filtered_assets match_list app).0 ≤ height
    → (handle_input match_list enter (draw_assets match_list height app).1).0 ≡ connect a
    → Elem (first_line a true) (draw_assets match_list height app).0
unfolding grouped_items ordered_filtered_assets
enter-draw_assets match_list height app a fits h =
    subst (Elem (first_line a true)) (sym (draw_assets-lines match_list height app)) (
      lines_of-shows height app (filtered_assets match_list app).0 a fits
        (sym (draw_assets-chosen match_list height app) ∙ h))
