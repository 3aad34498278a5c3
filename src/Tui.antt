-- ===== src/Tui.antt =====
-- The asset panel of the terminal client: `TuiApp` of crates/hop-server/src/tui/app.rs. The fuzzy
-- matcher of the crate nucleo is a parameter.
pub mod Spec
pub mod Laws
pub mod Draw
pub mod Drawn
pub mod Connects
use hop_rs.Prelude.{
  Bool, List, Option, Text, [], any, false, find, if◌then◌else◌, is_empty, keep, leb, length, ltb,
  map, nat_eq, none, not, option_map, some, sort_by, suc, text, text_ltb, to_ascii_lowercase, trim,
  true, zero, ℕ, ◌&&◌, ◌++◌, ◌+◌, ◌-◌, ◌==◌, ◌||◌, ◌∷◌,
}
use hop_rs.Models.{Asset}

pub data TuiInput : Type 0 where
  char_key : ℕ → TuiInput
  enter backspace escape up down ctrl_c : TuiInput

pub data TuiAction : Type 0 where
  no_action quit : TuiAction
  connect : Asset → TuiAction

pub record FilteredAssetCache : Type 0 where
  pub query : Text
  pub assets : List Asset

pub record TuiApp : Type 0 where
  pub assets : List Asset
  pub filtered_cache : FilteredAssetCache
  pub query : Text
  pub selected : ℕ
  pub searching : Bool

pub data AssetListItem : Type 0 where
  group_item : Text → AssetListItem
  asset_item : Asset → AssetListItem

-- `!matches!(action, TuiAction::None)`
unfoldable pub is_action : TuiAction → Bool
is_action no_action = false
is_action _ = true

-- `TuiApp::new`
unfoldable pub new_app : List Asset → TuiApp
new_app assets = record {
  assets = assets;
  filtered_cache = record { query = []; assets = assets };
  query = [];
  selected = 0;
  searching = false;
}

-- `str::eq_ignore_ascii_case`
unfoldable pub eq_ignore_ascii_case : Text → Text → Bool
unfolding to_ascii_lowercase
eq_ignore_ascii_case a b = map to_ascii_lowercase a == map to_ascii_lowercase b

-- `split_once(':')`
unfoldable pub split_colon : Text → Option (Text × Text)
split_colon [] = none
split_colon (c ∷ s) =
    let later = option_map (λ (before, after). (c ∷ before, after)) (split_colon s) in
    if nat_eq c b':' then some ([], s) else later

tag_value : Option (Text × Text) → Option Text
tag_value none = none
tag_value (some (prefix, value)) =
    if eq_ignore_ascii_case prefix (text "tag") && not (is_empty (trim value))
    then some (trim value)
    else none

unfoldable pub tag_query : Text → Option Text
unfolding trim split_colon tag_value eq_ignore_ascii_case is_empty
tag_query query = tag_value (split_colon (trim query))

unfoldable pub asset_group_label : Asset → Text
asset_group_label a = elim a.tags [ [] ↦ text "untagged" | tag ∷ tags ↦ tag ]

-- `filter_map(|(name, _)| assets.iter().find(|asset| asset.name == name).cloned())`
unfoldable pub named_assets : List Asset → List Text → List Asset
named_assets assets [] = []
named_assets assets (name ∷ names) =
    let rest = named_assets assets names in
    elim (find (λ a. a.name == name) assets) [ some a ↦ a ∷ rest | none ↦ rest ]

unfoldable pub shown_before : Asset → Asset → Bool
unfolding asset_group_label
shown_before a b =
    text_ltb (asset_group_label a) (asset_group_label b)
    || (asset_group_label a == asset_group_label b && text_ltb a.name b.name)

-- The rounds of the loop of `grouped_items`.
unfoldable pub group_onto : Text → List Asset → List AssetListItem
unfolding asset_group_label
group_onto current [] = []
group_onto current (a ∷ rest) =
    let label = asset_group_label a in
    let items = asset_item a ∷ group_onto label rest in
    if label == current then items else group_item label ∷ items

-- The item at a position.
unfoldable pub item_at {ℓ} : {A : Type ℓ} → ℕ → List A → Option A
item_at n [] = none
item_at zero (x ∷ xs) = some x
item_at (suc n) (x ∷ xs) = item_at n xs

-- `usize::min`
unfoldable pub min : ℕ → ℕ → ℕ
min a b = if leb a b then a else b

-- `String::pop`
unfoldable pub pop : Text → Text
pop [] = []
pop (c ∷ []) = []
pop (c ∷ d ∷ s) = c ∷ pop (d ∷ s)

-- `selected` after a step down a list of a length.
unfoldable pub step_down : ℕ → ℕ → ℕ
unfolding min
step_down selected len = if ltb 0 len then min (selected + 1) (len - 1) else selected

unfoldable pub connect_to : Option Asset → TuiAction
connect_to none = no_action
connect_to (some a) = connect a

-- A key that is a character: quit, the start of a search, or a character of the query.
unfoldable pub handle_char : ℕ → TuiApp → TuiAction × TuiApp
handle_char c app =
    if app.searching
    then (no_action, record app { query = app.query ++ (c ∷ []); selected = 0 })
    else if nat_eq c b'q'
    then (quit, app)
    else if nat_eq c b'/'
    then (no_action, record app { searching = true; query = []; selected = 0 })
    else (no_action, app)

-- `match_list` gives the names that match a query, the best first.
module _ (match_list : Text → List Text → List Text) where
  unfoldable pub compute_filtered_assets : Text → List Asset → List Asset
  unfolding trim is_empty tag_query eq_ignore_ascii_case named_assets
  compute_filtered_assets query assets =
      if is_empty (trim query) then assets else elim (tag_query query) [
        | some tag ↦ keep (λ a. any (λ t. eq_ignore_ascii_case t tag) a.tags) assets
        | none ↦ named_assets assets (match_list query (map (λ a. a.name) assets))
      ]

  -- The assets, and the panel with its cache as it is afterwards.
  unfoldable pub filtered_assets : TuiApp → List Asset × TuiApp
  unfolding compute_filtered_assets
  filtered_assets app =
      let assets = compute_filtered_assets app.query app.assets in
      if app.filtered_cache.query == app.query
      then (app.filtered_cache.assets, app)
      else (assets, record app { filtered_cache = record { query = app.query; assets = assets } })

  unfoldable pub ordered_filtered_assets : TuiApp → List Asset × TuiApp
  unfolding filtered_assets shown_before
  ordered_filtered_assets app =
      let (assets, after) = filtered_assets app in (sort_by shown_before assets, after)

  unfoldable pub grouped_items : TuiApp → List AssetListItem × TuiApp
  unfolding ordered_filtered_assets group_onto
  grouped_items app =
      let (assets, after) = ordered_filtered_assets app in (group_onto [] assets, after)

  unfoldable pub selected_asset : TuiApp → Option Asset × TuiApp
  unfolding ordered_filtered_assets item_at min
  selected_asset app =
      let (items, after) = ordered_filtered_assets app in
      (item_at (min app.selected (length items - 1)) items, after)

  unfoldable pub handle_input : TuiInput → TuiApp → TuiAction × TuiApp
  unfolding handle_char pop filtered_assets selected_asset step_down connect_to
  handle_input (char_key c) app = handle_char c app
  handle_input backspace app =
      if app.searching
      then (no_action, record app { query = pop app.query; selected = 0 })
      else (no_action, app)
  handle_input escape app = (no_action, record app { searching = false })
  handle_input ctrl_c app = (no_action, record app { query = []; searching = false; selected = 0 })
  handle_input up app = (no_action, record app { selected = app.selected - 1 })
  handle_input down app =
      let (assets, after) = filtered_assets app in
      (no_action, record after { selected = step_down after.selected (length assets) })
  handle_input enter app = let (chosen, after) = selected_asset app in (connect_to chosen, after)

  -- `TuiSession::handle_bytes`, on the inputs that are parsed and without the redraw: the first
  -- action ends the round.
  unfoldable pub handle_bytes : List TuiInput → TuiApp → TuiAction × TuiApp
  unfolding handle_input is_action
  handle_bytes [] app = (no_action, app)
  handle_bytes (input ∷ rest) app =
      let (action, next) = handle_input input app in
      let later = handle_bytes rest next in if is_action action then (action, next) else later

  -- The rounds of a session, in their order, with the action of each.
  unfoldable pub handle_all : List (List TuiInput) → TuiApp → List TuiAction × TuiApp
  unfolding handle_bytes
  handle_all [] app = ([], app)
  handle_all (inputs ∷ rest) app =
      let (action, next) = handle_bytes inputs app in
      let (actions, last) = handle_all rest next in (action ∷ actions, last)
