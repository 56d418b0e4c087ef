-- ===== src/Linter/Resolve.antt =====
-- crates/soroban-storage-lints/src/rules.rs: the type of a written value and the entry of a key, as
-- far as the syntax tells.
pub mod Readable
use Prim.Native.Char.{Char, code}
use soroban_storage_the_on_c.Prelude.{
  ℕ, zero, suc, ◌+◌, ◌-◌, Bool, true, false, ◌||◌, Option, none, some, List, [], ◌∷◌, ◌++◌, String,
  str_eq, if◌then◌else◌, ◌==◌, leb, is_empty, any, last, take, drop, reverse, to_list, of_list,
  Result, ok, err, ◌>>=◌,
}
use soroban_storage_the_on_c.Storage.Lifecycle.{Lifecycle, temporary, persistent, instance}
use soroban_storage_the_on_c.Linter.Words.{Unicode, type_looks_critical}
use soroban_storage_the_on_c.Linter.Syntax.{
  Ty, Expr, path, field, struct_lit, method_call, call, reference, closure, index, Exprs, none_left,
  and_then,
}
use soroban_storage_the_on_c.Linter.Model.{lookup, StorageChain, FnStorage, FileModel, type_string}

-- The panic of a slice whose end lies before its beginning.
pub data Panic : Type 0 where
  slice_end_before_start : Panic

abbrev pub find_code : ℕ → List Char → Option ℕ
find_code n [] = none
find_code n (c ∷ s) =
    if code c == n then some 0 else elim (find_code n s) [ none ↦ none | some i ↦ some (suc i) ]

abbrev pub rfind_code : ℕ → List Char → Option ℕ
rfind_code n [] = none
rfind_code n (c ∷ s) = elim (rfind_code n s) [
  | some i ↦ some (suc i)
  | none ↦ if code c == n then some 0 else none
]

-- `&ty[start..end]`
abbrev pub slice : List Char → ℕ → ℕ → Result Panic (List Char)
slice s start end =
    if leb start end then ok (take (end - start) (drop start s)) else err slice_end_before_start

abbrev pub has_code : ℕ → List Char → Bool
has_code n s = any (λ (c : Char). code c == n) s

-- `rsplit(',').next()`: what is behind the last comma.
abbrev pub last_part : List Char → List Char
last_part [] = []
last_part (c ∷ s) =
    let behind = last_part s in
    if has_code b',' s then behind else if code c == b',' then s else c ∷ s

abbrev pub arg_at : Exprs → ℕ → Option Expr
arg_at none_left i = none
arg_at (and_then e es) zero = some e
arg_at (and_then e es) (suc i) = arg_at es i

-- A name that is a binding, or `self`.
abbrev pub type_of_name : Option String → FnStorage → Option String
type_of_name none f = none
type_of_name (some name) f = if str_eq name "self" then f.self_type else lookup name f.bindings

unfoldable pub binding_type_of : Expr → FnStorage → Option String
binding_type_of (path segments) f = type_of_name (last segments) f
binding_type_of _ f = none

-- `Expr::Path`: a binding, and `self` if no binding has the name.
abbrev pub bound_or_self : Option String → FnStorage → Option String
bound_or_self none f = none
bound_or_self (some name) f = elim (lookup name f.bindings) [
  | some ty ↦ some ty
  | none ↦ if str_eq name "self" then f.self_type else none
]

abbrev pub field_type : Option String → String → FileModel → Option String
field_type none member model = none
field_type (some receiver) member model = elim (lookup receiver model.struct_field_types) [
  | none ↦ none
  | some fields ↦ lookup member fields
]

abbrev pub writes : String → Bool
writes method = str_eq method "set" || str_eq method "update" || str_eq method "try_update"

module _ (u : Unicode) where
  abbrev pub trim_start : List Char → List Char
  trim_start [] = []
  trim_start (c ∷ s) = if u.is_whitespace (code c) then trim_start s else c ∷ s

  abbrev pub trim : List Char → List Char
  trim s = reverse (trim_start (reverse (trim_start s)))

  -- The last of the generic arguments.
  abbrev pub element_of : List Char → Option String
  element_of args =
      let last_arg = trim (last_part args) in
      if is_empty last_arg || has_code b'<' last_arg then none else some (of_list last_arg)

  unfoldable pub generic_element : String → Result Panic (Option String)
  generic_element ty = elim (find_code b'<' (to_list ty)) [
    | none ↦ ok none
    | some opening ↦ elim (rfind_code b'>' (to_list ty)) [
      | none ↦ ok none
      | some closing ↦ do args ← slice (to_list ty) (opening + 1) closing; ok (element_of args)
    ]
  ]

  abbrev pub element_of_type : Option String → Result Panic (Option String)
  element_of_type none = ok none
  element_of_type (some ty) = generic_element ty

  abbrev pub or_method : Option String → String → Option String
  or_method (some element) method = some element
  or_method none method = if type_looks_critical u method then some method else none

  unfoldable pub resolve_value_expr : Expr → FnStorage → FileModel → Result Panic (Option String)
  unfolding generic_element binding_type_of
  resolve_value_expr (path segments) f model = ok (bound_or_self (last segments) f)
  resolve_value_expr (field base member) f model =
      ok (field_type (binding_type_of base f) member model)
  resolve_value_expr (struct_lit segments fields) f model = ok (last segments)
  resolve_value_expr (method_call start receiver method args) f model = do
    element ← element_of_type (binding_type_of receiver f)
    ok (or_method element method)
  resolve_value_expr (index base at) f model = element_of_type (binding_type_of base f)
  resolve_value_expr _ f model = ok none

  -- The first input of a closure that has a type.
  abbrev pub first_typed : List (Option Ty) → Option String
  first_typed [] = none
  first_typed (none ∷ inputs) = first_typed inputs
  first_typed (some ty ∷ inputs) = some (type_string u ty)

  abbrev pub resolve_value_arg : Option Expr → FnStorage → FileModel → Result Panic (Option String)
  resolve_value_arg none f model = ok none
  resolve_value_arg (some (reference e)) f model = resolve_value_expr e f model
  resolve_value_arg (some (closure inputs body)) f model = ok (first_typed inputs)
  resolve_value_arg (some e) f model = resolve_value_expr e f model

  unfoldable pub resolve_value_type :
      StorageChain → FnStorage → FileModel → Result Panic (Option String)
  unfolding resolve_value_expr
  resolve_value_type chain f model =
      if writes chain.method then resolve_value_arg (arg_at chain.args 1) f model else ok none

-- `while let Expr::Reference(r) = expr`, then `while let Expr::Call(c) = expr`.
abbrev pub unwrap_references : Expr → Expr
unwrap_references (reference e) = unwrap_references e
unwrap_references e = e

abbrev pub unwrap_calls : Expr → Expr
unwrap_calls (call func args) = unwrap_calls func
unwrap_calls e = e

abbrev pub path_variant : Expr → Option String
path_variant (path segments) = last segments
path_variant e = none

abbrev pub key_of : Lifecycle → Option Expr → Option String
key_of instance key = none
key_of lc none = none
key_of lc (some e) = path_variant (unwrap_calls (unwrap_references e))

unfoldable pub key_variant : StorageChain → Option String
key_variant chain = key_of chain.lifecycle (arg_at chain.args 0)
