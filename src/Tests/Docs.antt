-- ===== src/Tests/Docs.antt =====
-- The menu and the sections of the documentation at concrete inputs.
use fiberio.Base.{
  ◌≡◌, refl, true, false, [], ◌∷◌, map, none, some, codes, arith, text_eq, starts_with,
}
use fiberio.Menu.{tree, init_menu}
use fiberio.Menu.Data.{files_items}
use fiberio.Menu.RoundTrip.{Plain, size, read_menu, read_menu-init_menu}
use fiberio.Sections.Directory.{
  Row, folder_open, down, toggle_level, toggle_folder, first_child_visible, is_child,
}
use fiberio.Sections.Directory.Levels.{visible_stripes, alternate, toggle_level-visible}
use fiberio.Sections.Directory.Folders.{view, hidden_below, reopened, row_id, toggle_folder_twice}

files_items-Plain : Plain (tree files_items)
unfolding Plain
files_items-Plain = ground arith

read_menu-init_menu_example :
    read_menu
      (codes "../")
      (size (tree files_items))
      (init_menu (codes "../") true false [] (codes "Search") (tree files_items)).html
    ≡ some (tree files_items, [])
read_menu-init_menu_example =
    read_menu-init_menu (codes "../") true false [] (codes "Search") (tree files_items)
      files_items-Plain

-- A folder, a folder in it with a file, and a file.
abbrev top : Row
top = record {
  id = codes "row_0_";
  visible = true;
  even = true;
  icon = some folder_open;
  arrow = some down;
}

abbrev folder : Row
folder = record {
  id = codes "row_0_0_";
  visible = true;
  even = false;
  icon = some folder_open;
  arrow = some down;
}

abbrev inner : Row
inner = record { id = codes "row_0_0_0_"; visible = true; even = true; icon = none; arrow = none }

abbrev file : Row
file = record { id = codes "row_0_1_"; visible = true; even = false; icon = none; arrow = none }

toggle_level-visible_example :
    let s = toggle_level 2 (top ∷ folder ∷ inner ∷ file ∷ []) in
    (map (λ (r : Row). r.visible) s ≡ true ∷ true ∷ false ∷ true ∷ [])
    × (visible_stripes s ≡ alternate true (visible_stripes s))
toggle_level-visible_example = toggle_level-visible 2 (top ∷ folder ∷ inner ∷ file ∷ [])

toggle_folder_twice_example :
    (map view (toggle_folder (codes "0_") (top ∷ folder ∷ inner ∷ file ∷ []))
      ≡ view top ∷ map (hidden_below (row_id (codes "0_"))) (map view (folder ∷ inner ∷ file ∷ [])))
    × (map view (
          toggle_folder
            (codes "0_")
            (toggle_folder (codes "0_") (top ∷ folder ∷ inner ∷ file ∷ [])))
        ≡ view top ∷ map (reopened (row_id (codes "0_"))) (map view (folder ∷ inner ∷ file ∷ [])))
unfolding text_eq starts_with first_child_visible is_child
toggle_folder_twice_example =
    toggle_folder_twice (codes "0_") [] top (folder ∷ inner ∷ file ∷ []) tt refl refl
      (λ _. refl, (λ _. refl, (λ _. refl, tt)))
