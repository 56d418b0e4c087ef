-- ===== src/Linter/Scan.antt =====
-- crates/soroban-storage-lints/src/parse.rs: from the items of a file to its model.
pub mod Functions
use soroban_storage_the_on_c.Prelude.{
  ℕ, Bool, true, false, ◌&&◌, Option, none, some, List, [], ◌∷◌, ◌++◌, String, str_eq, any, last,
  length, if◌then◌else◌,
}
use soroban_storage_the_on_c.Linter.Decl.{StorageDecl, RawDecl, parse_storage_decl}
use soroban_storage_the_on_c.Linter.Words.{Unicode}
use soroban_storage_the_on_c.Linter.Syntax.{
  Ty, path_type, reference_type, other_type, FnArg, typed_ident, other_arg, Block, end, stmt,
  fn_stmt,
}
use soroban_storage_the_on_c.Linter.Model.{StringMap, FnStorage, FileModel, type_string}
use soroban_storage_the_on_c.Linter.Visitor.{scan_fn}

-- An attribute: its path, and the paths that syn reads between its parentheses, if it can.
pub record Attr : Type 0 where
  pub path : String
  pub paths : Option (List (List String))

-- Named fields, or the number of the others.
pub data Fields : Type 0 where
  named : List (String × Ty) → Fields
  unnamed : ℕ → Fields

pub record FnItem : Type 0 where
  pub inputs : List FnArg
  pub body : Block

pub data ImplItem : Type 0 where
  method : FnItem → ImplItem
  other_impl_item : ImplItem

-- A macro comes with the entries that syn finds in it, if it reads as a `storage!` block.
pub data Item : Type 0 where
  struct_item : (name : String) → List Attr → Fields → Item
  enum_item : (name : String) → List Attr → Item
  impl_item : (trait_path : Option (List String)) (self_ty : Ty) → List ImplItem → Item
  macro_item : (path : List String) → Option (List RawDecl) → Item
  fn_item : FnItem → Item
  other_item : Item

abbrev pub last_is : String → List String → Bool
last_is word segments = elim (last segments) [ none ↦ false | some name ↦ str_eq name word ]

abbrev pub names_critical : Option (List (List String)) → Bool
names_critical none = false
names_critical (some paths) = any (last_is "Critical") paths

unfoldable pub derives_critical : List Attr → Bool
derives_critical attrs = any (λ (a : Attr). str_eq a.path "derive" && names_critical a.paths) attrs

unfoldable pub type_path_last : Ty → Option String
type_path_last (path_type segments tokens) = last segments
type_path_last (reference_type elem tokens) = type_path_last elem
type_path_last (other_type tokens) = none

abbrev pub field_count : Fields → ℕ
field_count (named fields) = length fields
field_count (unnamed n) = n

-- `FileModel::default()`.
abbrev pub empty_model : FileModel
empty_model = record {
  decls = [];
  fns = [];
  critical_types = [];
  struct_field_counts = [];
  struct_field_types = [];
  bindings = [];
}

abbrev pub add_critical : Bool → String → FileModel → FileModel
add_critical critical name model =
    if critical then record model { critical_types = name ∷ model.critical_types } else model

abbrev pub add_named : Bool → Option String → FileModel → FileModel
add_named critical none model = model
add_named critical (some name) model = add_critical critical name model

-- `impl Critical for X`, where `X` is a path.
abbrev pub impl_critical : Option (List String) → Ty → FileModel → FileModel
impl_critical (some trait_path) (path_type segments tokens) model =
    add_named (last_is "Critical" trait_path) (last segments) model
impl_critical trait_path self_ty model = model

abbrev pub decls_of : List String → Option (List RawDecl) → List StorageDecl
decls_of path none = []
decls_of path (some entries) = if last_is "storage" path then parse_storage_decl entries else []

module _ (u : Unicode) where
  abbrev pub collect_inputs : List FnArg → StringMap String → StringMap String
  collect_inputs [] out = out
  collect_inputs (typed_ident name ty ∷ inputs) out =
      collect_inputs inputs ((name, type_string u ty) ∷ out)
  collect_inputs (other_arg ∷ inputs) out = collect_inputs inputs out

  -- The nested functions of a body.
  abbrev pub collect_nested : Block → StringMap String → StringMap String
  collect_nested end out = out
  collect_nested (stmt e rest) out = collect_nested rest out
  collect_nested (fn_stmt inputs body rest) out =
      collect_nested rest (collect_nested body (collect_inputs inputs out))

  unfoldable pub collect_bindings : FnItem → StringMap String → StringMap String
  collect_bindings f out = collect_nested f.body (collect_inputs f.inputs out)

  abbrev pub field_types : List (String × Ty) → StringMap String → StringMap String
  field_types [] out = out
  field_types ((name, ty) ∷ fields) out = field_types fields ((name, type_string u ty) ∷ out)

  abbrev pub types_of : Fields → StringMap String
  types_of (named fields) = field_types fields []
  types_of (unnamed n) = []

  abbrev pub impl_bindings : List ImplItem → StringMap String → StringMap String
  impl_bindings [] out = out
  impl_bindings (method f ∷ rest) out = impl_bindings rest (collect_bindings f out)
  impl_bindings (other_impl_item ∷ rest) out = impl_bindings rest out

  -- Pass 1: the body of the loop over the items.
  unfoldable pub note_item : Item → FileModel → FileModel
  note_item (struct_item name attrs fields) model =
      add_critical (derives_critical attrs) name (record model {
        struct_field_counts = (name, field_count fields) ∷ model.struct_field_counts;
        struct_field_types = (name, types_of fields) ∷ model.struct_field_types;
      })
  note_item (enum_item name attrs) model = add_critical (derives_critical attrs) name model
  note_item (impl_item trait_path self_ty items) model =
      let noted = impl_critical trait_path self_ty model in
      record noted { bindings = impl_bindings items noted.bindings }
  note_item (macro_item path entries) model = record model {
    decls = model.decls ++ decls_of path entries;
  }
  note_item (fn_item f) model = record model { bindings = collect_bindings f model.bindings }
  note_item other_item model = model

  unfoldable pub note_items : List Item → FileModel → FileModel
  unfolding note_item
  note_items [] model = model
  note_items (item ∷ items) model = note_items items (note_item item model)

  -- A function with its own bindings.
  abbrev pub scan_item_fn : FnItem → Option String → FnStorage
  scan_item_fn f self_type = scan_fn f.body (collect_bindings f []) self_type

  abbrev pub push_fn : FnStorage → FileModel → FileModel
  push_fn f model = record model { fns = model.fns ++ f ∷ [] }

  abbrev pub scan_impl : Option String → List ImplItem → FileModel → FileModel
  scan_impl self_type [] model = model
  scan_impl self_type (method f ∷ rest) model =
      scan_impl self_type rest (push_fn (scan_item_fn f self_type) model)
  scan_impl self_type (other_impl_item ∷ rest) model = scan_impl self_type rest model

  -- Pass 2: the body of the loop over the items.
  unfoldable pub scan_item : Item → FileModel → FileModel
  scan_item (fn_item f) model = push_fn (scan_item_fn f none) model
  scan_item (impl_item trait_path self_ty items) model =
      scan_impl (type_path_last self_ty) items model
  scan_item item model = model

  unfoldable pub scan_items : List Item → FileModel → FileModel
  unfolding scan_item
  scan_items [] model = model
  scan_items (item ∷ items) model = scan_items items (scan_item item model)

  unfoldable pub scan_file : List Item → FileModel
  scan_file items = scan_items items (note_items items empty_model)
