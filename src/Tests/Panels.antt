-- ===== src/Tests/Panels.antt =====
-- The theorems on the asset panel at concrete inputs.
use hop_rs.Prelude.{
  Elem, List, Text, [], arith, here, map, refl, text, text_ltb, there, true, ◌==◌, ◌∷◌, ◌≡◌,
}
use hop_rs.Models.{Asset}
use hop_rs.Tests.{web_asset}
use hop_rs.Tui.{TuiInput, char_key, enter, down, connect, TuiApp, new_app, handle_input, handle_all}
use hop_rs.Tui.Spec.{new_panel, panel_all}
use hop_rs.Tui.Laws.{view, handle_all-new_app}
use hop_rs.Tui.Draw.{first_line, draw_assets}
use hop_rs.Tui.Connects.{draw_assets-enter, enter-draw_assets}

abbrev alias : Asset
alias = record web_asset { id = text "a2"; name = text "alias"; tags = text "prod" ∷ [] }

abbrev two_assets : List Asset
two_assets = web_asset ∷ alias ∷ []

-- A matcher that gives every name.
abbrev every_name : Text → List Text → List Text
every_name query names = names

-- A search for a tag, and Enter.
abbrev tag_search : List (List TuiInput)
tag_search = (char_key b'/' ∷ map char_key (text "tag:PROD")) ∷ (down ∷ enter ∷ []) ∷ []

handle_all-new_app_example :
    ((handle_all every_name tag_search (new_app two_assets)).0
      ≡ (panel_all every_name tag_search (new_panel two_assets)).0)
    × (view (handle_all every_name tag_search (new_app two_assets)).1
        ≡ (panel_all every_name tag_search (new_panel two_assets)).1)
handle_all-new_app_example = handle_all-new_app every_name tag_search two_assets

abbrev second_selected : TuiApp
second_selected = record (new_app two_assets) { selected = 1 }

draw_assets-enter_example :
    (handle_input every_name enter (draw_assets every_name 6 second_selected).1).0
    ≡ connect web_asset
unfolding new_app draw_assets hop_rs.Tui.ordered_filtered_assets hop_rs.Prelude.◌==◌ text
    hop_rs.Prelude.text_ltb
draw_assets-enter_example =
    draw_assets-enter every_name 6 second_selected web_asset
      (there (there (there (there (here refl)))))

enter-draw_assets_example :
    Elem (first_line web_asset true) (draw_assets every_name 6 second_selected).0
unfolding new_app draw_assets hop_rs.Tui.ordered_filtered_assets hop_rs.Prelude.◌==◌ text
    hop_rs.Prelude.text_ltb handle_input
enter-draw_assets_example =
    enter-draw_assets every_name 6 second_selected web_asset (omega arith) refl
