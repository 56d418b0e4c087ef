-- ===== src/Macro/Examples.antt =====
-- Witnesses of the theorems about the macro, with expressions that are one token.
use soroban_storage_the_on_c.Prelude.{
  ℕ, ◌≡◌, ◌≢◌, inl, inr, refl, ap, true, false, Option, none, some, List, [], ◌∷◌, String, arith,
  length, ok, err,
}
use soroban_storage_the_on_c.Storage.Lifecycle.{persistent}
use soroban_storage_the_on_c.Macro.Tokens.{Token, ident, eq, comma, bool_lit, other}
use soroban_storage_the_on_c.Macro.Options.{
  out_of_fuel, critical_temporary, unknown_option, unexpected_token, StorageOpts, default_opts,
  parse_args, merge_opts,
}
use soroban_storage_the_on_c.Macro.Fuel.{Consumes, parse_args-ne-out_of_fuel}
use soroban_storage_the_on_c.Macro.Gen.{Entry, Generated, default_for, gen_storage}
use soroban_storage_the_on_c.Macro.Merge.{
  storage_attr, IsMerged, merge_opts-IsMerged, merge_opts-forgets_no_bump,
}
use soroban_storage_the_on_c.Macro.Guarantees.{AllDescribed, gen_storage-AllDescribed}

abbrev pub one_token : List Token → Option (ℕ × List Token)
one_token (other n ∷ rest) = some (n, rest)
one_token _ = none

one_token-Consumes : Consumes one_token
one_token-Consumes [] e rest h = absurd (ground arith)
one_token-Consumes (ident s ∷ t) e rest h = absurd (ground arith)
one_token-Consumes (eq ∷ t) e rest h = absurd (ground arith)
one_token-Consumes (comma ∷ t) e rest h = absurd (ground arith)
one_token-Consumes (bool_lit b ∷ t) e rest h = absurd (ground arith)
one_token-Consumes (other n ∷ t) e rest h =
    let same : t ≡ rest = ground arith in omega (arith, ap (λ (l : List Token). length l) same)

abbrev balance_tokens : List Token
balance_tokens = ident "persistent" ∷ comma ∷ ident "critical" ∷ []

parse_args-ne-out_of_fuel_example : parse_args one_token balance_tokens ≢ err out_of_fuel
parse_args-ne-out_of_fuel_example =
    parse_args-ne-out_of_fuel one_token one_token-Consumes balance_tokens

abbrev balance_opts : StorageOpts ℕ
balance_opts = record {
  lifecycle = some persistent;
  critical = true;
  auto_bump = true;
  policy = none;
}

balance_parses : parse_args one_token balance_tokens ≡ ok balance_opts
unfolding parse_args
balance_parses = refl

unknown_word : parse_args one_token (ident "ephemeral" ∷ []) ≡ err (unknown_option "ephemeral")
unfolding parse_args
unknown_word = refl

trailing_token : parse_args one_token (ident "critical" ∷ eq ∷ []) ≡ err unexpected_token
unfolding parse_args
trailing_token = refl

abbrev balance : Entry String
balance = record {
  attrs = record { path = "doc"; args = none } ∷ storage_attr balance_tokens ∷ [];
  name = "Balance";
  arg_types = "Address" ∷ [];
  value_type = "i128";
}

abbrev generated : List (Generated ℕ String)
generated =
    record {
      variant = "Balance";
      variant_args = "Address" ∷ [];
      key_struct = "BalanceKey";
      value_type = "i128";
      lifecycle = persistent;
      critical = true;
      auto_bump = true;
      policy = default_for persistent;
    }
    ∷ []

generates : gen_storage one_token (balance ∷ []) ≡ ok generated
unfolding gen_storage merge_opts parse_args
generates = refl

-- The entry that tests/ui/critical_temporary.rs declares.
rejects_critical_temporary :
    gen_storage one_token (
      record balance {
        attrs = storage_attr (ident "temporary" ∷ comma ∷ ident "critical" ∷ []) ∷ [];
      }
      ∷ [])
    ≡ err (critical_temporary "Balance")
unfolding gen_storage merge_opts parse_args
rejects_critical_temporary = refl

gen_storage-AllDescribed_example : AllDescribed one_token (balance ∷ []) generated
gen_storage-AllDescribed_example =
    gen_storage-AllDescribed one_token (balance ∷ []) generated generates

merge_opts-IsMerged_example :
    (r : StorageOpts ℕ) × (merge_opts one_token balance.attrs ≡ ok r)
    × IsMerged one_token default_opts (balance_opts ∷ []) r
merge_opts-IsMerged_example =
    merge_opts-IsMerged one_token balance.attrs (balance_opts ∷ [])
      (inl (refl, inr (refl, balance_parses, tt)))

merge_opts-forgets_no_bump_example :
    merge_opts one_token (
      storage_attr (ident "persistent" ∷ comma ∷ ident "no_bump" ∷ [])
      ∷ storage_attr (ident "policy" ∷ eq ∷ other 7 ∷ [])
      ∷ [])
    ≡ ok (record {
      lifecycle = some persistent;
      critical = false;
      auto_bump = true;
      policy = some 7;
    })
merge_opts-forgets_no_bump_example =
    merge_opts-forgets_no_bump one_token persistent (other 7 ∷ []) 7 refl
