-- ===== src/Tui/Laws.antt =====
-- Proofs about `TuiApp` of app.rs against the panel without a cache.
use hop_rs.Prelude.{
  List, Text, [], ap, cons-equal, eq_iff, if-both, if-cases, is_empty, length, length-sort_by,
  nat_eq, refl, sort_by, sym, trim, trim_start, ℕ, ◌-◌, ◌==◌, ◌∙◌, ◌∷◌, ◌≡◌,
}
use hop_rs.Models.{Asset}
use hop_rs.Tui.{
  is_action, handle_bytes, TuiInput, char_key, enter, backspace, escape, up, down, ctrl_c,
  TuiAction, TuiApp, new_app, compute_filtered_assets, filtered_assets, ordered_filtered_assets,
  selected_asset, shown_before, item_at, min, step_down, connect_to, handle_char, handle_input,
  handle_all,
}
use hop_rs.Tui.Spec.{panel_bytes, Panel, new_panel, panel_char, shown, panel_input, panel_all}

-- The panel that an app shows.
abbrev pub view : TuiApp → Panel
view app = record {
  assets = app.assets;
  query = app.query;
  selected = app.selected;
  searching = app.searching;
}

module _ (match_list : Text → List Text → List Text) where
  -- The cache holds what a new search for its query would give.
  abbrev pub CacheIsRight : TuiApp → Type 0
  CacheIsRight app =
      app.filtered_cache.assets
      ≡ compute_filtered_assets match_list app.filtered_cache.query app.assets

  Filtered : TuiApp → List Asset × TuiApp → Type 0
  Filtered app (assets, after) =
      (assets ≡ compute_filtered_assets match_list app.query app.assets)
      × (view after ≡ view app)
      × CacheIsRight after

  filtered_assets-refines :
      (app : TuiApp) → CacheIsRight app → Filtered app (filtered_assets match_list app)
  unfolding filtered_assets Filtered
  filtered_assets-refines app right =
      if-cases (Filtered app) (app.filtered_cache.query == app.query)
        (λ hit. (
          right
              ∙ ap (λ q. compute_filtered_assets match_list q app.assets)
                  ((eq_iff app.filtered_cache.query app.query).0 hit),
          refl,
          right,
        ))
        (λ miss. (refl, refl, refl))

  -- A step of the app and one of the panel: the same action, the same panel, and a right cache.
  abbrev Meets : TuiAction × TuiApp → TuiAction × Panel → Type 0
  Meets (action, after) (expected, panel) =
      (action ≡ expected) × (view after ≡ panel) × CacheIsRight after

  handle_char-refines :
      (c : ℕ) (app : TuiApp)
      → CacheIsRight app
      → Meets (handle_char c app) (panel_char c (view app))
  unfolding handle_char panel_char
  handle_char-refines c app right =
      if-both Meets app.searching (refl, refl, right)
        (if-both Meets (nat_eq c b'q') (refl, refl, right)
          (if-both Meets (nat_eq c b'/') (refl, refl, right) (refl, refl, right)))

  -- Every input does to the app, with its cache, what it does to the panel without one.
  handle_input-refines :
      (input : TuiInput) (app : TuiApp)
      → CacheIsRight app
      → Meets (handle_input match_list input app) (panel_input match_list input (view app))
  unfolding handle_input panel_input shown selected_asset ordered_filtered_assets Filtered
  handle_input-refines (char_key c) app right = handle_char-refines c app right
  handle_input-refines backspace app right =
      if-both Meets app.searching (refl, refl, right) (refl, refl, right)
  handle_input-refines escape app right = (refl, refl, right)
  handle_input-refines ctrl_c app right = (refl, refl, right)
  handle_input-refines up app right = (refl, refl, right)
  handle_input-refines down app right =
      let (found, same, kept) = filtered_assets-refines app right in
      let counted =
        ap length found
        ∙ sym (
            length-sort_by shown_before
              (compute_filtered_assets match_list app.query app.assets)) in
      (
        refl,
        ap {A = Panel} {B = Panel}
              (λ p. record p {
                selected = step_down p.selected (length (filtered_assets match_list app).0);
              })
              same
            ∙ ap {A = ℕ} {B = Panel}
                (λ n. record (view app) { selected = step_down app.selected n }) counted,
        kept,
      )
  handle_input-refines enter app right =
      let (found, same, kept) = filtered_assets-refines app right in
      (
        ap
            (λ l.
              let items = sort_by shown_before l in
              connect_to (item_at (min app.selected (length items - 1)) items))
            found,
        same,
        kept,
      )

  handle_bytes-refines :
      (inputs : List TuiInput) (app : TuiApp)
      → CacheIsRight app
      → Meets (handle_bytes match_list inputs app) (panel_bytes match_list inputs (view app))
  unfolding handle_bytes panel_bytes
  handle_bytes-refines [] app right = (refl, refl, right)
  handle_bytes-refines (input ∷ rest) app right =
      let (acts, shows, kept) = handle_input-refines input app right in
      let later = handle_bytes-refines rest (handle_input match_list input app).1 kept in
      rw (← acts, ← shows)
        (if-both Meets (is_action (handle_input match_list input app).0) (refl, refl, kept) later)

  -- Over any rounds, from a panel whose cache is right, the app acts as the panel without a cache.
  handle_all-refines :
      (rounds : List (List TuiInput)) (app : TuiApp)
      → CacheIsRight app
      → ((handle_all match_list rounds app).0 ≡ (panel_all match_list rounds (view app)).0)
        × (view (handle_all match_list rounds app).1 ≡ (panel_all match_list rounds (view app)).1)
  unfolding handle_all panel_all
  handle_all-refines [] app right = (refl, refl)
  handle_all-refines (inputs ∷ rest) app right =
      let (acts, shows, kept) = handle_bytes-refines inputs app right in
      let (later, last) = handle_all-refines rest (handle_bytes match_list inputs app).1 kept in
      (
        cons-equal acts (later ∙ ap (λ p. (panel_all match_list rest p).0) shows),
        last ∙ ap (λ p. (panel_all match_list rest p).1) shows,
      )

  new_app-CacheIsRight : (assets : List Asset) → CacheIsRight (new_app assets)
  unfolding new_app compute_filtered_assets trim trim_start is_empty
  new_app-CacheIsRight assets = refl

  -- The cache of the panel is never seen: from a new panel, every sequence of rounds has the
  -- actions, and ends in the query and the selection, that it has when the assets are searched
  -- again at every step.
  pub handle_all-new_app :
      (rounds : List (List TuiInput)) (assets : List Asset)
      → ((handle_all match_list rounds (new_app assets)).0
          ≡ (panel_all match_list rounds (new_panel assets)).0)
        × (view (handle_all match_list rounds (new_app assets)).1
            ≡ (panel_all match_list rounds (new_panel assets)).1)
  unfolding new_app new_panel
  handle_all-new_app rounds assets =
      handle_all-refines rounds (new_app assets) (new_app-CacheIsRight assets)
