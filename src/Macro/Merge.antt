-- ===== src/Macro/Merge.antt =====
-- How the options of several `#[storage(...)]` attributes of one entry combine.
use soroban_storage_the_on_c.Prelude.{
  ◌≡◌, ◌⊎◌, inl, inr, refl, Bool, true, false, ◌||◌, Option, some, List, [], ◌∷◌, str_eq, arith, ok,
}
use soroban_storage_the_on_c.Storage.Lifecycle.{Lifecycle, temporary, persistent, instance, as_str}
use soroban_storage_the_on_c.Macro.Tokens.{Token, ident, eq, comma, Attribute}
use soroban_storage_the_on_c.Macro.Options.{
  StorageOpts, default_opts, or_else, with_policy, parse_args, parse_delimited, merge_one,
  merge_from, merge_opts,
}

abbrev pub storage_attr : List Token → Attribute
storage_attr tokens = record { path = "storage"; args = some tokens }

module _ {Expr : Type 0} where
  -- The last lifecycle, the last policy and the last auto-bump setting of a list of options, with
  -- what holds if there is none; and whether one of them is critical.
  abbrev pub last_lifecycle : Option Lifecycle → List (StorageOpts Expr) → Option Lifecycle
  last_lifecycle lc [] = lc
  last_lifecycle lc (o ∷ os) = last_lifecycle (or_else o.lifecycle lc) os

  abbrev pub last_policy : Option Expr → List (StorageOpts Expr) → Option Expr
  last_policy e [] = e
  last_policy e (o ∷ os) = last_policy (or_else o.policy e) os

  abbrev pub last_auto_bump : Bool → List (StorageOpts Expr) → Bool
  last_auto_bump b [] = b
  last_auto_bump b (o ∷ os) = last_auto_bump o.auto_bump os

  abbrev pub any_critical : List (StorageOpts Expr) → Bool
  any_critical [] = false
  any_critical (o ∷ os) = o.critical || any_critical os

module _ {Expr : Type 0} (p : List Token → Option (Expr × List Token)) where
  -- The `storage` attributes among these parse to the options listed, in order.
  abbrev pub ParseTo : List Attribute → List (StorageOpts Expr) → Type 0
  ParseTo [] [] = Unit
  ParseTo [] (o ∷ os) = ⊥
  ParseTo (a ∷ attrs) [] = (str_eq a.path "storage" ≡ false) × ParseTo attrs []
  ParseTo (a ∷ attrs) (o ∷ os) =
      ((str_eq a.path "storage" ≡ false) × ParseTo attrs (o ∷ os))
      ⊎ ((str_eq a.path "storage" ≡ true) × (parse_delimited p a.args ≡ ok o) × ParseTo attrs os)

  -- What the merge of `os` over `m` is.
  pub record IsMerged (m : StorageOpts Expr) (os : List (StorageOpts Expr)) (r : StorageOpts Expr)
      : Type 0 where
    pub lifecycle : r.lifecycle ≡ last_lifecycle m.lifecycle os
    pub policy : r.policy ≡ last_policy m.policy os
    pub auto_bump : r.auto_bump ≡ last_auto_bump m.auto_bump os
    pub critical : r.critical ≡ (m.critical || any_critical os)

  merge_from-IsMerged :
      (m : StorageOpts Expr) (attrs : List Attribute) (os : List (StorageOpts Expr))
      → ParseTo attrs os
      → (r : StorageOpts Expr) × (merge_from p m attrs ≡ ok r) × IsMerged m os r
  unfolding merge_from
  merge_from-IsMerged m [] [] h = (
    m,
    refl,
    record { lifecycle = refl; policy = refl; auto_bump = refl; critical = ground arith },
  )
  merge_from-IsMerged m [] (o ∷ os) h = absurd h
  merge_from-IsMerged m (a ∷ attrs) [] h = rw h.0 (merge_from-IsMerged m attrs [] h.1)
  merge_from-IsMerged m (a ∷ attrs) (o ∷ os) (inl (not_storage, h)) =
      rw not_storage (merge_from-IsMerged m attrs (o ∷ os) h)
  merge_from-IsMerged m (a ∷ attrs) (o ∷ os) (inr (storage, q, h)) =
      let (r, s, t) = merge_from-IsMerged (merge_one p m o) attrs os h in
      rw (storage, q)
        (
          r,
          s,
          record {
            lifecycle = t.lifecycle;
            policy = t.policy;
            auto_bump = t.auto_bump;
            critical = ground arith;
          },
        )

  -- Where every `storage` attribute of an entry parses, the merge succeeds: the last lifecycle and
  -- the last policy given win, one `critical` suffices, and auto-bump is what the last attribute
  -- alone says.
  pub merge_opts-IsMerged :
      (attrs : List Attribute) (os : List (StorageOpts Expr))
      → ParseTo attrs os
      → (r : StorageOpts Expr) × (merge_opts p attrs ≡ ok r) × IsMerged default_opts os r
  unfolding merge_opts
  merge_opts-IsMerged attrs os h = merge_from-IsMerged default_opts attrs os h

  -- An earlier attribute that turns auto-bump off is undone by a later one that says nothing of
  -- it: an entry whose first attribute is a lifecycle and `no_bump`, and whose second attribute
  -- gives only a policy, is merged with auto-bump on, whatever the lifecycle and the policy.
  pub merge_opts-forgets_no_bump :
      (lc : Lifecycle) (tokens : List Token) (e : Expr)
      → p tokens ≡ some (e, [])
      → merge_opts p (
          storage_attr (ident (as_str lc) ∷ comma ∷ ident "no_bump" ∷ [])
          ∷ storage_attr (ident "policy" ∷ eq ∷ tokens)
          ∷ [])
        ≡ ok (record { lifecycle = some lc; critical = false; auto_bump = true; policy = some e })
  unfolding merge_opts parse_args
  merge_opts-forgets_no_bump temporary tokens e h = rw (h, with_policy)
  merge_opts-forgets_no_bump persistent tokens e h = rw (h, with_policy)
  merge_opts-forgets_no_bump instance tokens e h = rw (h, with_policy)
