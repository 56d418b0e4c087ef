-- ===== src/Macro/Gen.antt =====
-- crates/soroban-storage-macros/src/lib.rs, `gen_storage`.
use Prim.Native.String.{◌++◌}
use soroban_storage_the_on_c.Prelude.{
  Bool, ◌&&◌, Option, none, some, List, [], ◌∷◌, String, if◌then◌else◌, Result, ok, err, ◌>>=◌,
}
use soroban_storage_the_on_c.Storage.Lifecycle.{Lifecycle, is_temporary}
use soroban_storage_the_on_c.Macro.Tokens.{Token, Attribute}
use soroban_storage_the_on_c.Macro.Options.{
  MacroError, no_lifecycle, critical_temporary, no_entries, StorageOpts, merge_opts,
}

pub record Entry (Ty : Type 0) : Type 0 where
  pub attrs : List Attribute
  pub name : String
  pub arg_types : List Ty
  pub value_type : Ty

-- The policy constant: the expression given, or `default_policy` of the lifecycle.
pub data Policy (Expr : Type 0) : Type 0 where
  given : Expr → Policy Expr
  default_for : Lifecycle → Policy Expr

-- What is generated for an entry: its variant of `StorageKey`, and the accessor struct with its
-- constants. The methods are those of Storage/Accessor.
pub record Generated (Expr Ty : Type 0) : Type 0 where
  pub variant : String
  pub variant_args : List Ty
  pub key_struct : String
  pub value_type : Ty
  pub lifecycle : Lifecycle
  pub critical : Bool
  pub auto_bump : Bool
  pub policy : Policy Expr

abbrev pub policy_of : {Expr : Type 0} → Lifecycle → Option Expr → Policy Expr
policy_of lc none = default_for lc
policy_of lc (some e) = given e

module _ {Expr Ty : Type 0} where
  abbrev pub gen_with :
      Entry Ty → StorageOpts Expr → Lifecycle → Result MacroError (Generated Expr Ty)
  gen_with entry opts lc =
      if opts.critical && is_temporary lc
      then err (critical_temporary entry.name)
      else ok (record {
        variant = entry.name;
        variant_args = entry.arg_types;
        key_struct = entry.name ++ "Key";
        value_type = entry.value_type;
        lifecycle = lc;
        critical = opts.critical;
        auto_bump = opts.auto_bump;
        policy = policy_of lc opts.policy;
      })

  abbrev pub with_lifecycle :
      Entry Ty → StorageOpts Expr → Option Lifecycle → Result MacroError (Generated Expr Ty)
  with_lifecycle entry opts none = err (no_lifecycle entry.name)
  with_lifecycle entry opts (some lc) = gen_with entry opts lc

module _ {Expr Ty : Type 0} (parse_expr : List Token → Option (Expr × List Token)) where
  -- The body of the loop over the entries.
  unfoldable pub gen_entry : Entry Ty → Result MacroError (Generated Expr Ty)
  gen_entry entry = do
    opts ← merge_opts parse_expr entry.attrs
    with_lifecycle entry opts opts.lifecycle

  unfoldable pub gen_entries : List (Entry Ty) → Result MacroError (List (Generated Expr Ty))
  gen_entries [] = ok []
  gen_entries (entry ∷ entries) = gen_entry entry >>= λ g. gen_entries entries >>= λ gs. ok (g ∷ gs)

  unfoldable pub gen_storage : List (Entry Ty) → Result MacroError (List (Generated Expr Ty))
  unfolding gen_entries gen_entry
  gen_storage [] = err no_entries
  gen_storage (entry ∷ entries) = gen_entries (entry ∷ entries)
