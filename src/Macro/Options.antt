-- ===== src/Macro/Options.antt =====
-- crates/soroban-storage-macros/src/lib.rs, `StorageOpts::parse` and `merge_opts`.
use soroban_storage_the_on_c.Prelude.{
  ℕ, zero, suc, Bool, true, false, ◌||◌, Option, none, some, List, [], ◌∷◌, String, str_eq, length,
  if◌then◌else◌, Result, ok, err, ◌>>=◌,
}
use soroban_storage_the_on_c.Storage.Lifecycle.{Lifecycle, temporary, persistent, instance}
use soroban_storage_the_on_c.Macro.Tokens.{Token, ident, eq, comma, bool_lit, Attribute}

-- The compile errors, by what each of them names. `out_of_fuel` is none of the macro's.
pub data MacroError : Type 0 where
  unknown_option : String → MacroError
  expected_eq expected_bool expected_expr unexpected_token expected_parentheses : MacroError
  no_lifecycle : String → MacroError
  critical_temporary : String → MacroError
  no_entries : MacroError
  out_of_fuel : MacroError

pub record StorageOpts (Expr : Type 0) : Type 0 where
  pub lifecycle : Option Lifecycle
  pub critical : Bool
  pub auto_bump : Bool
  pub policy : Option Expr

-- `StorageOpts::default()`, and the options with which an attribute's parse begins.
abbrev pub default_opts : {Expr : Type 0} → StorageOpts Expr
default_opts = record { lifecycle = none; critical = false; auto_bump = false; policy = none }

abbrev pub initial_opts : {Expr : Type 0} → StorageOpts Expr
initial_opts = record { lifecycle = none; critical = false; auto_bump = true; policy = none }

-- `if let Some(a) = new { merged = Some(a) }`.
abbrev pub or_else : {A : Type 0} → Option A → Option A → Option A
or_else none old = old
or_else (some a) old = some a

-- `parse_expr` is syn's parser of an expression: `none` is its error, and `some` has the
-- expression and the tokens behind it.
module _ {Expr : Type 0} (parse_expr : List Token → Option (Expr × List Token)) where
  abbrev pub Parsed : Type 0
  Parsed = Result MacroError (StorageOpts Expr × List Token)

  abbrev pub parse_auto_bump : StorageOpts Expr → List Token → Parsed
  parse_auto_bump opts (eq ∷ bool_lit b ∷ rest) = ok (record opts { auto_bump = b }, rest)
  parse_auto_bump opts (eq ∷ rest) = err expected_bool
  parse_auto_bump opts rest = ok (record opts { auto_bump = true }, rest)

  abbrev pub with_policy : StorageOpts Expr → Option (Expr × List Token) → Parsed
  with_policy opts none = err expected_expr
  with_policy opts (some (e, rest)) = ok (record opts { policy = some e }, rest)

  abbrev pub parse_policy : StorageOpts Expr → List Token → Parsed
  parse_policy opts (eq ∷ rest) = with_policy opts (parse_expr rest)
  parse_policy opts rest = err expected_eq

  -- The `match` on the keyword, with the tokens that follow it.
  unfoldable pub parse_option : StorageOpts Expr → String → List Token → Parsed
  parse_option opts kw rest =
      if str_eq kw "persistent"
      then ok (record opts { lifecycle = some persistent }, rest)
      else if str_eq kw "temporary"
      then ok (record opts { lifecycle = some temporary }, rest)
      else if str_eq kw "instance"
      then ok (record opts { lifecycle = some instance }, rest)
      else if str_eq kw "critical"
      then ok (record opts { critical = true }, rest)
      else if str_eq kw "auto_bump"
      then parse_auto_bump opts rest
      else if str_eq kw "no_bump"
      then ok (record opts { auto_bump = false }, rest)
      else if str_eq kw "policy"
      then parse_policy opts rest
      else err (unknown_option kw)

  -- `if input.peek(,) { consume it and go round } else { break }`.
  abbrev pub after_option :
      (StorageOpts Expr → List Token → Parsed) → StorageOpts Expr × List Token → Parsed
  after_option again (opts, comma ∷ rest) = again opts rest
  after_option again (opts, rest) = ok (opts, rest)

  unfoldable pub parse_loop : ℕ → StorageOpts Expr → List Token → Parsed
  parse_loop zero opts tokens = err out_of_fuel
  parse_loop (suc fuel) opts (ident kw ∷ rest) =
      parse_option opts kw rest >>= after_option (parse_loop fuel)
  parse_loop (suc fuel) opts tokens = ok (opts, tokens)

  -- `parse_args` refuses tokens that the parser left.
  abbrev pub all_consumed : StorageOpts Expr × List Token → Result MacroError (StorageOpts Expr)
  all_consumed (opts, []) = ok opts
  all_consumed (opts, t ∷ rest) = err unexpected_token

  unfoldable pub parse_args : List Token → Result MacroError (StorageOpts Expr)
  unfolding parse_loop parse_option
  parse_args tokens = parse_loop (suc (length tokens)) initial_opts tokens >>= all_consumed

  -- `attr.parse_args::<StorageOpts>()`, which refuses an attribute without parentheses.
  abbrev pub parse_delimited : Option (List Token) → Result MacroError (StorageOpts Expr)
  parse_delimited none = err expected_parentheses
  parse_delimited (some tokens) = parse_args tokens

  -- The body of the loop over the attributes, for one `#[storage(...)]`.
  abbrev pub merge_one : StorageOpts Expr → StorageOpts Expr → StorageOpts Expr
  merge_one merged parsed = record {
    lifecycle = or_else parsed.lifecycle merged.lifecycle;
    critical = merged.critical || parsed.critical;
    auto_bump = parsed.auto_bump;
    policy = or_else parsed.policy merged.policy;
  }

  unfoldable pub merge_from :
      StorageOpts Expr → List Attribute → Result MacroError (StorageOpts Expr)
  merge_from merged [] = ok merged
  merge_from merged (a ∷ attrs) =
      if str_eq a.path "storage"
      then (parse_delimited a.args >>= λ parsed. merge_from (merge_one merged parsed) attrs)
      else merge_from merged attrs

  unfoldable pub merge_opts : List Attribute → Result MacroError (StorageOpts Expr)
  unfolding merge_from
  merge_opts attrs = merge_from default_opts attrs
