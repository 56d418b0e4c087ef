-- ===== src/Macro/Guarantees.antt =====
-- What `gen_storage` of crates/soroban-storage-macros/src/lib.rs guarantees of the code that it
-- generates.
use Prim.Native.String.{◌++◌}
use mathlib.Core.Path.{subst}
use soroban_storage_the_on_c.Prelude.{
  ◌≡◌, refl, true, Option, none, some, List, [], ◌∷◌, arith, ok, ◌>>=◌, bind-ok,
}
use soroban_storage_the_on_c.Storage.Lifecycle.{Lifecycle, accepts_critical}
use soroban_storage_the_on_c.Macro.Tokens.{Token}
use soroban_storage_the_on_c.Macro.Options.{StorageOpts, merge_opts}
use soroban_storage_the_on_c.Macro.Gen.{
  Entry, Generated, Policy, given, default_for, policy_of, with_lifecycle, gen_entry, gen_entries,
  gen_storage,
}

-- The expression that was given, or the default of the lifecycle if none was.
pub data IsPolicy {Expr : Type 0} (lc : Lifecycle) : Option Expr → Policy Expr → Type 0 where
  explicit : (e : Expr) → IsPolicy lc (some e) (given e)
  default : IsPolicy lc none (default_for lc)

policy_of-IsPolicy :
    {Expr : Type 0} (lc : Lifecycle) (policy : Option Expr)
    → IsPolicy lc policy (policy_of lc policy)
policy_of-IsPolicy lc none = default
policy_of-IsPolicy lc (some e) = explicit e

module _ {Expr Ty : Type 0} (p : List Token → Option (Expr × List Token)) where
  -- The generated code `g` is that of `entry`: it carries the merged options of the attributes,
  -- and its lifecycle accepts critical data if it is critical.
  pub record Describes (entry : Entry Ty) (g : Generated Expr Ty) : Type 0 where
    pub opts : StorageOpts Expr
    pub merged : merge_opts p entry.attrs ≡ ok opts
    pub lifecycle : opts.lifecycle ≡ some g.lifecycle
    pub critical : g.critical ≡ opts.critical
    pub auto_bump : g.auto_bump ≡ opts.auto_bump
    pub policy : IsPolicy g.lifecycle opts.policy g.policy
    pub variant : g.variant ≡ entry.name
    pub variant_args : g.variant_args ≡ entry.arg_types
    pub key_struct : g.key_struct ≡ entry.name ++ "Key"
    pub value_type : g.value_type ≡ entry.value_type
    pub safe : g.critical ≡ true → accepts_critical g.lifecycle ≡ true

  -- The two lists have the same length, and are described pairwise.
  abbrev pub AllDescribed : List (Entry Ty) → List (Generated Expr Ty) → Type 0
  AllDescribed [] [] = Unit
  AllDescribed (e ∷ es) (g ∷ gs) = Describes e g × AllDescribed es gs
  AllDescribed _ _ = ⊥

  with_lifecycle-Describes :
      (entry : Entry Ty) (opts : StorageOpts Expr) (o : Option Lifecycle) (g : Generated Expr Ty)
      → merge_opts p entry.attrs ≡ ok opts
      → opts.lifecycle ≡ o
      → with_lifecycle entry opts o ≡ ok g
      → Describes entry g
  unfolding accepts_critical
  with_lifecycle-Describes entry opts none g m q h = absurd (ground arith)
  with_lifecycle-Describes entry opts (some lc) g m q h = record {
    opts = opts;
    merged = m;
    lifecycle = ground arith;
    critical = ground arith;
    auto_bump = ground arith;
    policy =
        let made : policy_of g.lifecycle opts.policy ≡ g.policy = ground arith in
        subst (IsPolicy g.lifecycle opts.policy) made (policy_of-IsPolicy g.lifecycle opts.policy);
    variant = ground arith;
    variant_args = ground arith;
    key_struct = ground arith;
    value_type = ground arith;
    safe = ground arith;
  }

  gen_entry-Describes :
      (entry : Entry Ty) (g : Generated Expr Ty) → gen_entry p entry ≡ ok g → Describes entry g
  unfolding gen_entry
  gen_entry-Describes entry g h =
      let (opts, m, q) =
        bind-ok (merge_opts p entry.attrs) (λ o. with_lifecycle entry o o.lifecycle) h in
      with_lifecycle-Describes entry opts opts.lifecycle g m refl q

  gen_entries-AllDescribed :
      (entries : List (Entry Ty)) (gs : List (Generated Expr Ty))
      → gen_entries p entries ≡ ok gs
      → AllDescribed entries gs
  unfolding gen_entries
  gen_entries-AllDescribed [] [] h = tt
  gen_entries-AllDescribed [] (g ∷ gs) h = absurd (ground arith)
  gen_entries-AllDescribed (e ∷ es) gs h =
      let (g, q, r) = bind-ok (gen_entry p e) (λ g. gen_entries p es >>= λ gs. ok (g ∷ gs)) h in
      let (gs', s, t) = bind-ok (gen_entries p es) (λ gs. ok (g ∷ gs)) r in
      let same : ◌≡◌ {A = List (Generated Expr Ty)} (g ∷ gs') gs = cc t in
      subst (AllDescribed (e ∷ es)) same
        (gen_entry-Describes e g q, gen_entries-AllDescribed es gs' s)

  -- If `storage!` compiles, it has generated one accessor for each entry, in order. Its constants
  -- are the options that the entry's attributes merge to; the policy is the expression given, or the
  -- default one of the lifecycle if none is. None of them is critical in temporary storage.
  pub gen_storage-AllDescribed :
      (entries : List (Entry Ty)) (gs : List (Generated Expr Ty))
      → gen_storage p entries ≡ ok gs
      → AllDescribed entries gs
  unfolding gen_storage
  gen_storage-AllDescribed [] gs h = absurd (ground arith)
  gen_storage-AllDescribed (e ∷ es) gs h = gen_entries-AllDescribed (e ∷ es) gs h
