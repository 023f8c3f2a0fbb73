-- ===== src/SearchData.antt =====
-- The data of the results pages: docs/html/search/all_0.js and its like, by section and page.
pub mod Index
pub mod Complete
pub mod AllFirst
pub mod AllRest
pub mod Classes
pub mod Namespaces
pub mod Files
pub mod Functions
pub mod Variables
pub mod Typedefs
pub mod Pages
use fiberio.Base.{List, [], ◌∷◌}
use fiberio.SearchResults.Create.{Entry}
use fiberio.SearchData.AllFirst.{
  all_0, all_1, all_2, all_3, all_4, all_5, all_6, all_7, all_8, all_9,
}
use fiberio.SearchData.AllRest.{all_a, all_b, all_c, all_d, all_e}
use fiberio.SearchData.Classes.{classes_0, classes_1, classes_2}
use fiberio.SearchData.Namespaces.{namespaces_0}
use fiberio.SearchData.Files.{files_0, files_1, files_2, files_3, files_4}
use fiberio.SearchData.Functions.{
  functions_0, functions_1, functions_2, functions_3, functions_4, functions_5, functions_6,
  functions_7, functions_8, functions_9, functions_a, functions_b,
}
use fiberio.SearchData.Variables.{variables_0}
use fiberio.SearchData.Typedefs.{typedefs_0}
use fiberio.SearchData.Pages.{pages_0}

-- The pages of each section, in the order of indexSectionNames.
abbrev pub section_pages : List (List (List Entry))
section_pages =
    (all_0 ∷ all_1 ∷ all_2 ∷ all_3 ∷ all_4 ∷ all_5 ∷ all_6 ∷ all_7 ∷ all_8 ∷ all_9 ∷ all_a ∷ all_b
      ∷ all_c ∷ all_d ∷ all_e ∷ [])
    ∷ (classes_0 ∷ classes_1 ∷ classes_2 ∷ [])
    ∷ (namespaces_0 ∷ [])
    ∷ (files_0 ∷ files_1 ∷ files_2 ∷ files_3 ∷ files_4 ∷ [])
    ∷ (functions_0 ∷ functions_1 ∷ functions_2 ∷ functions_3 ∷ functions_4 ∷ functions_5
        ∷ functions_6 ∷ functions_7 ∷ functions_8 ∷ functions_9 ∷ functions_a ∷ functions_b ∷ [])
    ∷ (variables_0 ∷ [])
    ∷ (typedefs_0 ∷ [])
    ∷ (pages_0 ∷ [])
    ∷ []
