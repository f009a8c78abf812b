-- ===== src/Examples/Popup.antt =====
-- The popup with a shortcut that is added, shown and removed.
use open_madt.Prelude.{codes, none, [], ◌≡◌, refl}
use open_madt.Prelude.Int.{pos, negsuc}
use open_madt.Prelude.Map.{lookup, bytes_key}
use open_madt.Browser.Popup.{
  Panel, columns_of, setup_shortcut_ui, new_shortcut, kill_shortcut, toggle_shortcut_popup,
}
use open_madt.Browser.Popup.Current.{
  Runs, begins, adds, kills, toggles, IsCurrent, FillCells, Runs-IsCurrent,
}
use open_madt.Examples.Docs.{Doc}
use open_madt.Examples.Browser.{one_tab}

abbrev fresh : Panel Doc
fresh = setup_shortcut_ui one_tab

abbrev one_shortcut : Panel Doc
one_shortcut = (new_shortcut (codes "http://a") [] (negsuc 0) (pos 0) (codes "s") fresh).1

abbrev opened : Panel Doc
opened = toggle_shortcut_popup one_shortcut

abbrev last : Panel Doc
last = (kill_shortcut (codes "s") opened).1

is_new : lookup (codes "s") fresh.browser.shortcuts ≡ none
unfolding lookup setup_shortcut_ui
is_new = refl

run : Runs one_tab last
run = kills one_tab opened (codes "s") (
    toggles one_tab one_shortcut (
      adds one_tab fresh (codes "http://a") [] (negsuc 0) (pos 0) (codes "s") is_new
        (begins one_tab)))

Runs-IsCurrent_example :
    IsCurrent last × FillCells (columns_of last.browser.runtime_config) 0 last.buttons
Runs-IsCurrent_example = Runs-IsCurrent one_tab last run
