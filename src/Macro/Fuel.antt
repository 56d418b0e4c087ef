-- ===== src/Macro/Fuel.antt =====
-- `StorageOpts::parse` of crates/soroban-storage-macros/src/lib.rs ends: the fuel of the model is
-- never used up.
use soroban_storage_the_on_c.Prelude.{
  ℕ, zero, suc, ◌≤◌, ◌<◌, ◌≡◌, ◌≢◌, refl, Bool, true, false, Option, none, some, List, [], ◌∷◌,
  String, arith, length, if◌then◌else◌, ok, err, ◌>>=◌,
}
use native.Mathlib.Nat.{le_refl}
use soroban_storage_the_on_c.Macro.Tokens.{Token, ident, eq, comma, bool_lit}
use soroban_storage_the_on_c.Macro.Options.{
  MacroError, out_of_fuel, unknown_option, StorageOpts, Parsed, parse_auto_bump, with_policy,
  parse_policy, parse_option, after_option, parse_loop, all_consumed, parse_args, initial_opts,
}

-- A parser of syn takes its tokens off the front of the stream.
abbrev pub Consumes : {Expr : Type 0} → (List Token → Option (Expr × List Token)) → Type 0
Consumes {Expr} p =
    (tokens : List Token) (e : Expr) (rest : List Token)
    → p tokens ≡ some (e, rest)
    → length rest ≤ length tokens

module _ {Expr : Type 0} (p : List Token → Option (Expr × List Token)) (consumes : Consumes p) where
  -- Not out of fuel, and at most `n` tokens left.
  data Good (n : ℕ) : Parsed p → Type 0 where
    left :
        (opts : StorageOpts Expr) (rest : List Token) → length rest ≤ n → Good n (ok (opts, rest))
    failed : (e : MacroError) → e ≢ out_of_fuel → Good n (err e)

  Good-if : (n : ℕ) (b : Bool) (x y : Parsed p) → Good n x → Good n y → Good n (if b then x else y)
  Good-if n true x y gx gy = gx
  Good-if n false x y gx gy = gy

  parse_auto_bump-Good :
      (opts : StorageOpts Expr) (rest : List Token)
      → Good (length rest) (parse_auto_bump p opts rest)
  parse_auto_bump-Good opts [] = left _ _ (omega arith)
  parse_auto_bump-Good opts (eq ∷ []) = failed _ (λ q. cc)
  parse_auto_bump-Good opts (eq ∷ bool_lit b ∷ rest) = left _ _ (omega arith)
  parse_auto_bump-Good opts (eq ∷ t ∷ rest) = failed _ (λ q. cc)
  parse_auto_bump-Good opts (t ∷ rest) = left _ _ (omega arith)

  with_policy-Good :
      (opts : StorageOpts Expr) (tokens : List Token) (o : Option (Expr × List Token))
      → p tokens ≡ o
      → Good (suc (length tokens)) (with_policy p opts o)
  with_policy-Good opts tokens none q = failed _ (λ q. cc)
  with_policy-Good opts tokens (some (e, rest)) q =
      left _ _ (omega (arith, consumes tokens e rest q))

  parse_policy-Good :
      (opts : StorageOpts Expr) (rest : List Token) → Good (length rest) (parse_policy p opts rest)
  parse_policy-Good opts [] = failed _ (λ q. cc)
  parse_policy-Good opts (eq ∷ rest) = with_policy-Good opts rest (p rest) refl
  parse_policy-Good opts (t ∷ rest) = failed _ (λ q. cc)

  known : (opts : StorageOpts Expr) (rest : List Token) → Good (length rest) (ok (opts, rest))
  known opts rest = left opts rest (le_refl _)

  unknown : (n : ℕ) (kw : String) → Good n (err (unknown_option kw))
  unknown n kw = failed _ (λ q. cc)

  parse_option-Good :
      (opts : StorageOpts Expr) (kw : String) (rest : List Token)
      → Good (length rest) (parse_option p opts kw rest)
  unfolding parse_option
  parse_option-Good opts kw rest =
      search (Good-if, known, unknown, parse_auto_bump-Good, parse_policy-Good) depth 12

  after_option-ends :
      (n : ℕ) (r : Parsed p) (again : StorageOpts Expr → List Token → Parsed p)
      → Good n r
      → ((opts : StorageOpts Expr) (rest : List Token)
          → length rest < n
          → again opts rest ≢ err out_of_fuel)
      → (r >>= after_option p again) ≢ err out_of_fuel
  after_option-ends n _ again (failed e fine) h = λ q. fine (cc)
  after_option-ends n _ again (left opts [] short) h = λ q. cc
  after_option-ends n _ again (left opts (comma ∷ rest) short) h = h opts rest short
  after_option-ends n _ again (left opts (t ∷ rest) short) h = λ q. cc

  parse_loop-ends :
      (fuel : ℕ) (opts : StorageOpts Expr) (tokens : List Token)
      → length tokens < fuel
      → parse_loop p fuel opts tokens ≢ err out_of_fuel
  unfolding parse_loop
  parse_loop-ends zero opts tokens h = absurd (omega arith)
  parse_loop-ends (suc fuel) opts [] h = λ q. cc
  parse_loop-ends (suc fuel) opts (ident kw ∷ rest) h =
      after_option-ends (length rest) _ (parse_loop p fuel) (parse_option-Good opts kw rest)
        (λ o r l. parse_loop-ends fuel o r (omega arith))
  parse_loop-ends (suc fuel) opts (t ∷ rest) h = λ q. cc

  all_consumed-ends :
      (r : Parsed p) → r ≢ err out_of_fuel → (r >>= all_consumed p) ≢ err out_of_fuel
  all_consumed-ends (ok (opts, [])) h = λ q. cc
  all_consumed-ends (ok (opts, t ∷ rest)) h = λ q. cc
  all_consumed-ends (err e) h = λ q. h (cc)

  -- Where syn's expression parser leaves no more tokens than it was given, the parse of an
  -- attribute's options ends within the fuel on every input.
  pub parse_args-ne-out_of_fuel : (tokens : List Token) → parse_args p tokens ≢ err out_of_fuel
  unfolding parse_args
  parse_args-ne-out_of_fuel tokens =
      all_consumed-ends _ (parse_loop-ends (suc (length tokens)) initial_opts tokens (omega arith))
