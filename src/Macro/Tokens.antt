-- ===== src/Macro/Tokens.antt =====
-- The tokens inside `#[storage(...)]` that the macro and the linter tell apart, and attributes.
use soroban_storage_the_on_c.Prelude.{ℕ, Bool, String, List, Option}

-- `other` is any token that is none of these, by a number that tells such tokens apart.
pub data Token : Type 0 where
  ident : String → Token
  eq comma : Token
  bool_lit : Bool → Token
  other : ℕ → Token

-- An outer attribute: its path, and the tokens between its parentheses, if it has any.
pub record Attribute : Type 0 where
  pub path : String
  pub args : Option (List Token)
