-- ===== src/Linter/Resolve/Readable.antt =====
-- Where crates/soroban-storage-lints/src/rules.rs resolves a type without a panic: the only slice is
-- that of `generic_element`.
use soroban_storage_the_on_c.Prelude.{
  ℕ, ◌+◌, ◌-◌, ◌<◌, ◌≡◌, refl, true, Option, none, some, [], ◌∷◌, String, str_eq, to_list, last,
  take, drop, All, Bool-cases, Option-cases, inl, inr, IsOk, leb, arith,
}
use soroban_storage_the_on_c.Linter.Words.{Unicode}
use soroban_storage_the_on_c.Linter.Syntax.{
  Expr, path, field, struct_lit, method_call, call, reference, closure, index, lit, for_loop,
  while_loop, loop, block, other,
}
use soroban_storage_the_on_c.Linter.Model.{StringMap, lookup, StorageChain, FnStorage, FileModel}
use soroban_storage_the_on_c.Linter.Resolve.{
  find_code, rfind_code, element_of_type, generic_element, element_of, or_method, type_of_name,
  binding_type_of, writes, resolve_value_expr, resolve_value_arg, resolve_value_type, arg_at,
}

-- The first `<` of a type stands before its last `>`, if it has both.
abbrev pub IsOrdered : String → Type 0
IsOrdered ty =
    (opening closing : ℕ)
    → find_code b'<' (to_list ty) ≡ some opening
    → rfind_code b'>' (to_list ty) ≡ some closing
    → opening < closing

abbrev pub IsOrderedIfAny : Option String → Type 0
IsOrderedIfAny none = Unit
IsOrderedIfAny (some ty) = IsOrdered ty

-- The types that a function's names have.
pub record IsReadable (f : FnStorage) : Type 0 where
  pub bound : All (λ (entry : String × String). IsOrdered entry.1) f.bindings
  pub own : IsOrderedIfAny f.self_type

lookup-IsOrderedIfAny :
    (name : String) (bindings : StringMap String)
    → All (λ (entry : String × String). IsOrdered entry.1) bindings
    → IsOrderedIfAny (lookup name bindings)
lookup-IsOrderedIfAny name [] bound = tt
lookup-IsOrderedIfAny name ((key, ty) ∷ rest) (here, bound) = elim (Bool-cases (str_eq name key)) [
  | inl q ↦ rw q here
  | inr q ↦ rw q (lookup-IsOrderedIfAny name rest bound)
]

name-IsOrderedIfAny :
    (name : Option String) (f : FnStorage) → IsReadable f → IsOrderedIfAny (type_of_name name f)
name-IsOrderedIfAny none f readable = tt
name-IsOrderedIfAny (some name) f readable = elim (Bool-cases (str_eq name "self")) [
  | inl q ↦ rw q readable.own
  | inr q ↦ rw q (lookup-IsOrderedIfAny name f.bindings readable.bound)
]

binding-IsOrderedIfAny :
    (e : Expr) (f : FnStorage) → IsReadable f → IsOrderedIfAny (binding_type_of e f)
unfolding binding_type_of
binding-IsOrderedIfAny (path segments) f readable = name-IsOrderedIfAny (last segments) f readable
binding-IsOrderedIfAny (field base member) f readable = tt
binding-IsOrderedIfAny (struct_lit segments fields) f readable = tt
binding-IsOrderedIfAny (method_call start receiver method args) f readable = tt
binding-IsOrderedIfAny (call func args) f readable = tt
binding-IsOrderedIfAny (reference e) f readable = tt
binding-IsOrderedIfAny (closure inputs body) f readable = tt
binding-IsOrderedIfAny (index base at) f readable = tt
binding-IsOrderedIfAny (lit value) f readable = tt
binding-IsOrderedIfAny (for_loop over body) f readable = tt
binding-IsOrderedIfAny (while_loop condition body) f readable = tt
binding-IsOrderedIfAny (loop body) f readable = tt
binding-IsOrderedIfAny (block body) f readable = tt
binding-IsOrderedIfAny (other children) f readable = tt

module _ (u : Unicode) where
  pub generic_element-IsOk : (ty : String) → IsOrdered ty → IsOk (generic_element u ty)
  unfolding generic_element
  generic_element-IsOk ty ordered = elim (Option-cases (find_code b'<' (to_list ty))) [
    | inl q ↦ (none, rw (generic_element, q) refl)
    | inr (opening, q) ↦ elim (Option-cases (rfind_code b'>' (to_list ty))) [
      | inl q' ↦ (none, rw (generic_element, q, q') refl)
      | inr (closing, q') ↦
          let fits : leb (opening + 1) closing ≡ true =
            ground (arith, ordered opening closing q q') in
          (
            element_of u (take (closing - (opening + 1)) (drop (opening + 1) (to_list ty))),
            rw (generic_element, q, q', fits) refl,
          )
    ]
  ]

  element-IsOk : (ty : Option String) → IsOrderedIfAny ty → IsOk (element_of_type u ty)
  element-IsOk none ordered = (none, refl)
  element-IsOk (some ty) ordered = generic_element-IsOk ty ordered

  module _ (f : FnStorage) (readable : IsReadable f) (model : FileModel) where
    expr-IsOk : (e : Expr) → IsOk (resolve_value_expr u e f model)
    unfolding resolve_value_expr
    expr-IsOk (path segments) = (_, refl)
    expr-IsOk (field base member) = (_, refl)
    expr-IsOk (struct_lit segments fields) = (_, refl)
    expr-IsOk (method_call start receiver method args) =
        let (element, q) =
          element-IsOk (binding_type_of receiver f) (binding-IsOrderedIfAny receiver f readable) in
        (or_method u element method, rw q refl)
    expr-IsOk (call func args) = (_, refl)
    expr-IsOk (reference e) = (_, refl)
    expr-IsOk (closure inputs body) = (_, refl)
    expr-IsOk (index base at) =
        element-IsOk (binding_type_of base f) (binding-IsOrderedIfAny base f readable)
    expr-IsOk (lit value) = (_, refl)
    expr-IsOk (for_loop over body) = (_, refl)
    expr-IsOk (while_loop condition body) = (_, refl)
    expr-IsOk (loop body) = (_, refl)
    expr-IsOk (block body) = (_, refl)
    expr-IsOk (other children) = (_, refl)

    arg-IsOk : (e : Option Expr) → IsOk (resolve_value_arg u e f model)
    unfolding resolve_value_expr
    arg-IsOk none = (_, refl)
    arg-IsOk (some (reference e)) = expr-IsOk e
    arg-IsOk (some (closure inputs body)) = (_, refl)
    arg-IsOk (some (path segments)) = expr-IsOk (path segments)
    arg-IsOk (some (field base member)) = expr-IsOk (field base member)
    arg-IsOk (some (struct_lit segments fields)) = expr-IsOk (struct_lit segments fields)
    arg-IsOk (some (method_call start receiver method args)) =
        expr-IsOk (method_call start receiver method args)
    arg-IsOk (some (call func args)) = expr-IsOk (call func args)
    arg-IsOk (some (index base at)) = expr-IsOk (index base at)
    arg-IsOk (some (lit value)) = (_, refl)
    arg-IsOk (some (for_loop over body)) = (_, refl)
    arg-IsOk (some (while_loop condition body)) = (_, refl)
    arg-IsOk (some (loop body)) = (_, refl)
    arg-IsOk (some (block body)) = (_, refl)
    arg-IsOk (some (other children)) = (_, refl)

    pub value-IsOk : (chain : StorageChain) → IsOk (resolve_value_type u chain f model)
    unfolding resolve_value_type
    value-IsOk chain = elim (Bool-cases (writes chain.method)) [
      | inl q ↦
          let (ty, q') = arg-IsOk (arg_at chain.args 1) in (ty, rw (resolve_value_type, q, q') refl)
      | inr q ↦ (none, rw (resolve_value_type, q) refl)
    ]
