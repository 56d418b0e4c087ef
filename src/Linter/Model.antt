-- ===== src/Linter/Model.antt =====
-- What crates/soroban-storage-lints/src/parse.rs keeps of a file for the rules.
use soroban_storage_the_on_c.Prelude.{
  ℕ, Bool, not, Option, none, some, List, [], ◌∷◌, String, str_eq, any, keep_if, to_list, of_list,
  if◌then◌else◌,
}
use Prim.Native.Char.{Char, code}
use soroban_storage_the_on_c.Storage.Lifecycle.{Lifecycle}
use soroban_storage_the_on_c.Linter.Decl.{StorageDecl}
use soroban_storage_the_on_c.Linter.Words.{Unicode}
use soroban_storage_the_on_c.Linter.Syntax.{Ty, path_type, reference_type, other_type, Exprs}

-- Maps from names: an insertion is in front, so that it hides an older one of the name.
abbrev pub StringMap : Type 0 → Type 0
StringMap A = List (String × A)

module _ {A : Type 0} where
  abbrev pub lookup : String → StringMap A → Option A
  lookup k [] = none
  lookup k ((k', v) ∷ rest) = if str_eq k k' then some v else lookup k rest

abbrev pub contains : List String → String → Bool
contains names name = any (λ other_name. str_eq other_name name) names

pub record StorageChain : Type 0 where
  pub lifecycle : Lifecycle
  pub method : String
  pub args : Exprs
  pub line : ℕ
  pub column : ℕ
  pub inside_loop : Bool

pub record FnStorage : Type 0 where
  pub chains : List StorageChain
  pub has_ttl_call : Bool
  pub bindings : StringMap String
  pub self_type : Option String

pub record FileModel : Type 0 where
  pub decls : List StorageDecl
  pub fns : List FnStorage
  pub critical_types : List String
  pub struct_field_counts : StringMap ℕ
  pub struct_field_types : StringMap (StringMap String)
  pub bindings : StringMap String

abbrev pub tokens_of : Ty → String
tokens_of (path_type segments tokens) = tokens
tokens_of (reference_type elem tokens) = tokens
tokens_of (other_type tokens) = tokens

module _ (u : Unicode) where
  unfoldable pub normalize : String → String
  normalize s = of_list (keep_if (λ (c : Char). not (u.is_whitespace (code c))) (to_list s))

  abbrev pub type_string : Ty → String
  type_string ty = normalize (tokens_of ty)
