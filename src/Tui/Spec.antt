-- ===== src/Tui/Spec.antt =====
-- The asset panel without its cache: what `TuiApp` of app.rs promises.
use hop_rs.Prelude.{
  Bool, List, Text, [], false, if◌then◌else◌, length, nat_eq, sort_by, true, ℕ, ◌++◌, ◌-◌, ◌∷◌,
}
use hop_rs.Models.{Asset}
use hop_rs.Tui.{
  is_action, TuiInput, char_key, enter, backspace, escape, up, down, ctrl_c, TuiAction, no_action,
  quit, connect_to, compute_filtered_assets, shown_before, item_at, min, pop, step_down,
}

pub record Panel : Type 0 where
  pub assets : List Asset
  pub query : Text
  pub selected : ℕ
  pub searching : Bool

unfoldable pub new_panel : List Asset → Panel
new_panel assets = record { assets = assets; query = []; selected = 0; searching = false }

unfoldable pub panel_char : ℕ → Panel → TuiAction × Panel
panel_char c p =
    if p.searching
    then (no_action, record p { query = p.query ++ (c ∷ []); selected = 0 })
    else if nat_eq c b'q'
    then (quit, p)
    else if nat_eq c b'/'
    then (no_action, record p { searching = true; query = []; selected = 0 })
    else (no_action, p)

module _ (match_list : Text → List Text → List Text) where
  -- The assets that match the query, as they are shown.
  unfoldable pub shown : Panel → List Asset
  unfolding compute_filtered_assets shown_before
  shown p = sort_by shown_before (compute_filtered_assets match_list p.query p.assets)

  unfoldable pub panel_input : TuiInput → Panel → TuiAction × Panel
  unfolding panel_char pop shown step_down item_at min connect_to
  panel_input (char_key c) p = panel_char c p
  panel_input backspace p =
      if p.searching
      then (no_action, record p { query = pop p.query; selected = 0 })
      else (no_action, p)
  panel_input escape p = (no_action, record p { searching = false })
  panel_input ctrl_c p = (no_action, record p { query = []; searching = false; selected = 0 })
  panel_input up p = (no_action, record p { selected = p.selected - 1 })
  panel_input down p = (no_action, record p { selected = step_down p.selected (length (shown p)) })
  panel_input enter p = (connect_to (item_at (min p.selected (length (shown p) - 1)) (shown p)), p)

  unfoldable pub panel_bytes : List TuiInput → Panel → TuiAction × Panel
  unfolding panel_input is_action
  panel_bytes [] p = (no_action, p)
  panel_bytes (input ∷ rest) p =
      let (action, next) = panel_input input p in
      let later = panel_bytes rest next in if is_action action then (action, next) else later

  unfoldable pub panel_all : List (List TuiInput) → Panel → List TuiAction × Panel
  unfolding panel_bytes
  panel_all [] p = ([], p)
  panel_all (inputs ∷ rest) p =
      let (action, next) = panel_bytes inputs p in
      let (actions, last) = panel_all rest next in (action ∷ actions, last)
