-- ===== src/Menu/Data.antt =====
-- The data of docs/html/menudata.js.
use fiberio.Base.{codes}
use fiberio.Menu.{Menu, Items, leaf, tree, nil, item}

-- Below "Namespace Members".
abbrev pub namespace_members_items : Items
namespace_members_items = item (codes "All") (codes "namespacemembers.html") leaf (
    item (codes "Functions") (codes "namespacemembers_func.html") leaf
      (item (codes "Typedefs") (codes "namespacemembers_type.html") leaf nil))

-- Below "Namespaces".
abbrev pub namespaces_items : Items
namespaces_items = item (codes "Namespace List") (codes "namespaces.html") leaf (
    item (codes "Namespace Members") (codes "namespacemembers.html") (tree namespace_members_items)
      nil)

-- Below "All".
abbrev pub member_all_items : Items
member_all_items = item (codes "a") (codes "functions.html#index_a") leaf (
    item (codes "b") (codes "functions.html#index_b") leaf (
      item (codes "c") (codes "functions.html#index_c") leaf (
        item (codes "d") (codes "functions.html#index_d") leaf (
          item (codes "g") (codes "functions.html#index_g") leaf (
            item (codes "i") (codes "functions.html#index_i") leaf (
              item (codes "l") (codes "functions.html#index_l") leaf (
                item (codes "o") (codes "functions.html#index_o") leaf (
                  item (codes "r") (codes "functions.html#index_r") leaf (
                    item (codes "s") (codes "functions.html#index_s") leaf (
                      item (codes "w") (codes "functions.html#index_w") leaf
                        (item (codes "~") (codes "functions.html#index_0x7e") leaf nil)))))))))))

-- Below "Functions".
abbrev pub member_functions_items : Items
member_functions_items = item (codes "a") (codes "functions_func.html#index_a") leaf (
    item (codes "b") (codes "functions_func.html#index_b") leaf (
      item (codes "c") (codes "functions_func.html#index_c") leaf (
        item (codes "g") (codes "functions_func.html#index_g") leaf (
          item (codes "i") (codes "functions_func.html#index_i") leaf (
            item (codes "l") (codes "functions_func.html#index_l") leaf (
              item (codes "o") (codes "functions_func.html#index_o") leaf (
                item (codes "r") (codes "functions_func.html#index_r") leaf (
                  item (codes "s") (codes "functions_func.html#index_s") leaf (
                    item (codes "w") (codes "functions_func.html#index_w") leaf
                      (item (codes "~") (codes "functions_func.html#index_0x7e") leaf nil))))))))))

-- Below "Class Members".
abbrev pub class_members_items : Items
class_members_items = item (codes "All") (codes "functions.html") (tree member_all_items) (
    item (codes "Functions") (codes "functions_func.html") (tree member_functions_items)
      (item (codes "Variables") (codes "functions_vars.html") leaf nil))

-- Below "Classes".
abbrev pub classes_items : Items
classes_items = item (codes "Class List") (codes "annotated.html") leaf (
    item (codes "Class Index") (codes "classes.html") leaf (
      item (codes "Class Hierarchy") (codes "inherits.html") leaf
        (item (codes "Class Members") (codes "functions.html") (tree class_members_items) nil)))

-- Below "Files".
abbrev pub files_items : Items
files_items = item (codes "File List") (codes "files.html") leaf nil

-- The entries of the menu.
abbrev pub main_items : Items
main_items = item (codes "Main Page") (codes "index.html") leaf (
    item (codes "Namespaces") (codes "namespaces.html") (tree namespaces_items) (
      item (codes "Classes") (codes "annotated.html") (tree classes_items)
        (item (codes "Files") (codes "files.html") (tree files_items) nil)))

abbrev pub menudata : Menu
menudata = tree main_items
