-- ===== src/Menu.antt =====
-- docs/html/menu.js: the menu of the documentation pages, as the HTML that initMenu puts on the page.
pub mod Data
pub mod RoundTrip
use fiberio.Base.{
  join, ◌∷◌, Bool, true, false, [], ◌++◌, Option, none, some, if◌then◌else◌, Text, codes,
}

-- An object of docs/html/menudata.js: `leaf` has no `children`. An item has its text, its url and what
-- is below it.
mutual
  pub data Menu : Type 0 where
    leaf : Menu
    tree : Items → Menu

  pub data Items : Type 0 where
    nil : Items
    item : Text → Text → Menu → Items → Items

module _ (rel_path : Text) where
  -- `makeTree(data, relPath)` and its loop.
  unfoldable mutual
    pub make_tree : Menu → Text
    make_tree leaf = []
    make_tree (tree xs) = codes "<ul>" ++ (make_items xs ++ codes "</ul>")

    pub make_items : Items → Text
    make_items nil = []
    make_items (item text url below xs) =
        codes "<li><a href=\""
        ++ (rel_path
            ++ (url
                ++ (codes "\">"
                    ++ (text
                        ++ (codes "</a>"
                            ++ (make_tree below ++ (codes "</li>" ++ make_items xs)))))))

-- The list items of the search box: with a server, and with docs/html/search/search.js.
abbrev pub server_search_item : Text → Text → Text → Text
server_search_item rel_path search_page search_text = join (
    codes "<li style=\"float:right\"><div id=\"MSearchBox\" "
    ∷ codes "class=\"MSearchBoxInactive\"><div class=\"left\"><form id=\"FSearchBox\" "
    ∷ codes "action=\""
    ∷ search_page
    ∷ codes "\" method=\"get\"><img id=\"MSearchSelect\" src=\""
    ∷ rel_path
    ∷ codes "search/mag.png\" alt=\"\"/><input type=\"text\" id=\"MSearchField\" "
    ∷ codes "name=\"query\" value=\""
    ∷ search_text
    ∷ codes "\" size=\"20\" accesskey=\"S\" "
    ∷ codes "onfocus=\"searchBox.OnSearchFieldFocus(true)\" "
    ∷ codes "onblur=\"searchBox.OnSearchFieldFocus(false)\"></form></div><div "
    ∷ codes "class=\"right\"></div></div></li>"
    ∷ [])

abbrev pub client_search_item : Text → Text → Text
client_search_item rel_path search_text = join (
    codes "<li style=\"float:right\"><div id=\"MSearchBox\" "
    ∷ codes "class=\"MSearchBoxInactive\"><span class=\"left\"><img "
    ∷ codes "id=\"MSearchSelect\" src=\""
    ∷ rel_path
    ∷ codes "search/mag_sel.png\" onmouseover=\"return "
    ∷ codes "searchBox.OnSearchSelectShow()\" onmouseout=\"return "
    ∷ codes "searchBox.OnSearchSelectHide()\" alt=\"\"/><input type=\"text\" "
    ∷ codes "id=\"MSearchField\" value=\""
    ∷ search_text
    ∷ codes "\" accesskey=\"S\" onfocus=\"searchBox.OnSearchFieldFocus(true)\" "
    ∷ codes "onblur=\"searchBox.OnSearchFieldFocus(false)\" "
    ∷ codes "onkeyup=\"searchBox.OnSearchFieldChange(event)\"/></span><span "
    ∷ codes "class=\"right\"><a id=\"MSearchClose\" "
    ∷ codes "href=\"javascript:searchBox.CloseResultsWindow()\"><img "
    ∷ codes "id=\"MSearchCloseImg\" border=\"0\" src=\""
    ∷ rel_path
    ∷ codes "search/close.png\" alt=\"\"/></a></span></div></li>"
    ∷ [])

-- The element `main-nav`: the HTML that is appended to it, the class and the id that its first child
-- is given, what is appended to the menu of that id, and whether it is handed to smartmenus.
pub record MainNav : Type 0 where
  pub html : Text
  pub class_and_id : Option (Text × Text)
  pub search_item : Option Text
  pub smart : Bool

abbrev pub when_tree {ℓ} : {A : Type ℓ} → Menu → A → Option A
when_tree leaf a = none
when_tree (tree xs) a = some a

-- `initMenu(relPath, searchEnabled, serverSide, searchPage, search)`, with `data` for `menudata`. With
-- no tree there is no first child, and no `main-menu`.
unfoldable pub init_menu : Text → Bool → Bool → Text → Text → Menu → MainNav
init_menu rel_path search_enabled server_side search_page search_text data_ = record {
  html = make_tree rel_path data_;
  class_and_id = when_tree data_ (codes "sm sm-dox", codes "main-menu");
  search_item =
      if search_enabled
      then when_tree data_ (
          if server_side
          then server_search_item rel_path search_page search_text
          else client_search_item rel_path search_text)
      else none;
  smart = elim data_ [ leaf ↦ false | tree xs ↦ true ];
}
