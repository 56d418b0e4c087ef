-- ===== src/Linter/Decl/Examples.antt =====
-- Witnesses of the theorems about the linter's reading of `storage!`.
use soroban_storage_the_on_c.Prelude.{◌≡◌, refl, true, false, some, [], ◌∷◌, ok}
use soroban_storage_the_on_c.Storage.Lifecycle.{temporary, persistent}
use soroban_storage_the_on_c.Macro.Tokens.{ident, eq, comma, other}
use soroban_storage_the_on_c.Macro.Options.{StorageOpts, parse_args}
use soroban_storage_the_on_c.Macro.Merge.{storage_attr}
use soroban_storage_the_on_c.Macro.Examples.{one_token}
use soroban_storage_the_on_c.Linter.Decl.{RawDecl, read_attr, decl_of}
use soroban_storage_the_on_c.Linter.Decl.Valued.{decl_of-loses_valued}
use soroban_storage_the_on_c.Linter.Decl.Agreement.{lifecycle, critical, read_attr-parse_args}

-- `#[storage(temporary, policy = POLICY)] Nonce(Address) -> u64`.
abbrev nonce : RawDecl
nonce = record {
  attrs = storage_attr (ident "temporary" ∷ comma ∷ ident "policy" ∷ eq ∷ other 7 ∷ []) ∷ [];
  name = "Nonce";
  value_type = "u64";
  line = 4;
  column = 8;
}

-- The macro takes the same attribute for a temporary entry.
nonce_in_macro :
    parse_args one_token (ident "temporary" ∷ comma ∷ ident "policy" ∷ eq ∷ other 7 ∷ [])
    ≡ ok
        (record { lifecycle = some temporary; critical = false; auto_bump = true; policy = some 7 })
unfolding parse_args
nonce_in_macro = refl

decl_of-loses_valued_example :
    ((decl_of nonce).lifecycle ≡ persistent) × ((decl_of nonce).critical ≡ false)
decl_of-loses_valued_example =
    decl_of-loses_valued nonce (ident "temporary" ∷ comma ∷ ident "policy" ∷ []) (other 7 ∷ []) refl

read_attr-parse_args_example :
    (o : StorageOpts _) × (parse_args one_token (ident "persistent" ∷ comma ∷ ident "critical" ∷ [])
      ≡ ok o)
    × (read_attr (ident "persistent" ∷ comma ∷ ident "critical" ∷ [])
        ≡ some (o.lifecycle, o.critical))
read_attr-parse_args_example = read_attr-parse_args one_token (lifecycle persistent ∷ critical ∷ [])
