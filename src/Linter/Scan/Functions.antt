-- ===== src/Linter/Scan/Functions.antt =====
-- Which functions `scan_file` of crates/soroban-storage-lints/src/parse.rs scans.
use mathlib.Core.List.{append_assoc, append-nil, flatten}
use soroban_storage_the_on_c.Prelude.{
  ◌≡◌, ◌∙◌, refl, sym, ap, Option, none, List, [], ◌∷◌, ◌++◌, String, map, Bool, true, false, some,
  last,
}
use soroban_storage_the_on_c.Linter.Words.{Unicode}
use soroban_storage_the_on_c.Linter.Syntax.{Ty, path_type, reference_type, other_type}
use soroban_storage_the_on_c.Linter.Model.{FnStorage, FileModel}
use soroban_storage_the_on_c.Linter.Scan.{
  last_is, derives_critical, ImplItem, method, other_impl_item, Item, struct_item, enum_item,
  impl_item, macro_item, fn_item, other_item, type_path_last, empty_model, add_critical, add_named,
  impl_critical, scan_item_fn, push_fn, scan_impl, scan_item, scan_items, note_item, note_items,
  scan_file,
}

module _ (u : Unicode) where
  -- The functions of an implementation, and of an item.
  abbrev pub methods_of : Option String → List ImplItem → List FnStorage
  methods_of self_type [] = []
  methods_of self_type (method f ∷ rest) = scan_item_fn u f self_type ∷ methods_of self_type rest
  methods_of self_type (other_impl_item ∷ rest) = methods_of self_type rest

  abbrev pub fns_of : Item → List FnStorage
  fns_of (fn_item f) = scan_item_fn u f none ∷ []
  fns_of (impl_item trait_path self_ty items) = methods_of (type_path_last self_ty) items
  fns_of item = []

  scan_impl-fns :
      (self_type : Option String) (items : List ImplItem) (model : FileModel)
      → (scan_impl u self_type items model).fns ≡ model.fns ++ methods_of self_type items
  scan_impl-fns self_type [] model = sym (append-nil model.fns)
  scan_impl-fns self_type (method f ∷ rest) model =
      scan_impl-fns self_type rest (push_fn u (scan_item_fn u f self_type) model)
      ∙ append_assoc model.fns (scan_item_fn u f self_type ∷ []) (methods_of self_type rest)
  scan_impl-fns self_type (other_impl_item ∷ rest) model = scan_impl-fns self_type rest model

  scan_item-fns :
      (item : Item) (model : FileModel) → (scan_item u item model).fns ≡ model.fns ++ fns_of item
  unfolding scan_item
  scan_item-fns (struct_item name attrs fields) model = sym (append-nil model.fns)
  scan_item-fns (enum_item name attrs) model = sym (append-nil model.fns)
  scan_item-fns (impl_item trait_path self_ty items) model =
      scan_impl-fns (type_path_last self_ty) items model
  scan_item-fns (macro_item path entries) model = sym (append-nil model.fns)
  scan_item-fns (fn_item f) model = refl
  scan_item-fns other_item model = sym (append-nil model.fns)

  scan_items-fns :
      (items : List Item) (model : FileModel)
      → (scan_items u items model).fns ≡ model.fns ++ flatten (map fns_of items)
  unfolding scan_items flatten
  scan_items-fns [] model = sym (append-nil model.fns)
  scan_items-fns (item ∷ items) model =
      scan_items-fns items (scan_item u item model)
      ∙ ap (λ fns. fns ++ flatten (map fns_of items)) (scan_item-fns item model)
      ∙ append_assoc model.fns (fns_of item) (flatten (map fns_of items))

  add_critical-fns :
      (critical : Bool) (name : String) (model : FileModel)
      → (add_critical critical name model).fns ≡ model.fns
  add_critical-fns true name model = refl
  add_critical-fns false name model = refl

  add_named-fns :
      (critical : Bool) (name : Option String) (model : FileModel)
      → (add_named critical name model).fns ≡ model.fns
  add_named-fns critical none model = refl
  add_named-fns critical (some name) model = add_critical-fns critical name model

  impl_critical-fns :
      (trait_path : Option (List String)) (self_ty : Ty) (model : FileModel)
      → (impl_critical trait_path self_ty model).fns ≡ model.fns
  impl_critical-fns none self_ty model = refl
  impl_critical-fns (some trait_path) (path_type segments tokens) model =
      add_named-fns (last_is "Critical" trait_path) (last segments) model
  impl_critical-fns (some trait_path) (reference_type elem tokens) model = refl
  impl_critical-fns (some trait_path) (other_type tokens) model = refl

  note_item-fns : (item : Item) (model : FileModel) → (note_item u item model).fns ≡ model.fns
  unfolding note_item
  note_item-fns (struct_item name attrs fields) model =
      add_critical-fns (derives_critical attrs) name _
  note_item-fns (enum_item name attrs) model = add_critical-fns (derives_critical attrs) name model
  note_item-fns (impl_item trait_path self_ty items) model =
      impl_critical-fns trait_path self_ty model
  note_item-fns (macro_item path entries) model = refl
  note_item-fns (fn_item f) model = refl
  note_item-fns other_item model = refl

  note_items-fns :
      (items : List Item) (model : FileModel) → (note_items u items model).fns ≡ model.fns
  unfolding note_items
  note_items-fns [] model = refl
  note_items-fns (item ∷ items) model =
      note_items-fns items (note_item u item model) ∙ note_item-fns item model

  -- The functions and the methods of a file are scanned once each, in the order of the source,
  -- each with the bindings of its own signature and nested functions only, and a method with the
  -- type that it is implemented for.
  pub scan_file-fns : (items : List Item) → (scan_file u items).fns ≡ flatten (map fns_of items)
  unfolding scan_file
  scan_file-fns items =
      scan_items-fns items (note_items u items empty_model)
      ∙ ap (λ fns. fns ++ flatten (map fns_of items)) (note_items-fns items empty_model)
