-- ===== src/Linter/Rules/Limits.antt =====
-- The TTL rules of crates/soroban-storage-lints/src/rules.rs and the limits of
-- crates/soroban-storage/src/ttl.rs.
use soroban_storage_the_on_c.Prelude.{
  ℕ, ◌≡◌, refl, true, not, ◌&&◌, [], ◌∷◌, ◌++◌, String, some, str_eq, ltb, if◌then◌else◌,
  Bool-cases, inl, inr,
}
use soroban_storage_the_on_c.Storage.Lifecycle.{
  Lifecycle, temporary, persistent, instance, same_lifecycle,
}
use soroban_storage_the_on_c.Storage.Ttl.{max_ttl}
use soroban_storage_the_on_c.Linter.Syntax.{Expr, lit, Exprs, none_left, and_then}
use soroban_storage_the_on_c.Linter.Model.{StorageChain}
use soroban_storage_the_on_c.Linter.Rules.{
  check_temporary_ttl, check_persistent_ttl, at_chain, warning, ttl_exceeds,
}

-- The rule that looks after a lifecycle.
abbrev pub ttl_rule : Lifecycle → String
ttl_rule temporary = "temporary_ttl_exceeded"
ttl_rule _ = "persistent_ttl_exceeded"

-- The arguments of the SDK's `extend_ttl`, and among them the ledgers to extend to: a keyed storage
-- takes the key, the threshold and the target, the instance takes the threshold and the target.
pub data IsExtension : Lifecycle → Exprs → Expr → Type 0 where
  temporary_args :
      (key threshold extend_to : Expr)
      → IsExtension temporary
          (and_then key (and_then threshold (and_then extend_to none_left)))
          extend_to
  persistent_args :
      (key threshold extend_to : Expr)
      → IsExtension persistent
          (and_then key (and_then threshold (and_then extend_to none_left)))
          extend_to
  instance_args :
      (threshold extend_to : Expr)
      → IsExtension instance (and_then threshold (and_then extend_to none_left)) extend_to

by_args :
    (chain : StorageChain) (lc : Lifecycle) (args : Exprs) (extend_to : Expr) (target : ℕ)
    → IsExtension lc args extend_to
    → chain.lifecycle ≡ lc
    → chain.args ≡ args
    → str_eq chain.method "extend_ttl" ≡ true
    → extend_to ≡ lit (some target)
    → check_temporary_ttl chain ++ check_persistent_ttl chain ≡ (
        if ltb (max_ttl lc) target && not (same_lifecycle lc instance)
        then at_chain (ttl_rule lc) warning chain (ttl_exceeds lc target) ∷ []
        else [])
by_args chain _ _ _ target (temporary_args key threshold extend_to) lc args extends found =
    elim (Bool-cases (ltb (max_ttl temporary) target)) [
      | inl q ↦ rw (lc, extends, args, found, q) refl
      | inr q ↦ rw (lc, extends, args, found, q) refl
    ]
by_args chain _ _ _ target (persistent_args key threshold extend_to) lc args extends found =
    elim (Bool-cases (ltb (max_ttl persistent) target)) [
      | inl q ↦ rw (lc, extends, args, found, q) refl
      | inr q ↦ rw (lc, extends, args, found, q) refl
    ]
by_args chain _ _ _ target (instance_args threshold extend_to) lc args extends found =
    elim (Bool-cases (ltb (max_ttl instance) target)) [
      | inl q ↦ rw (lc, extends, args, q) refl
      | inr q ↦ rw (lc, extends, args, q) refl
    ]

-- An extension with the SDK's arguments, by a literal: in temporary and in persistent storage, both
-- TTL rules together report one warning, at the chain and with the target, where the target is
-- above the maximum that the runtime has for that lifecycle, and nothing where it is not; an
-- extension of the instance is never reported, however far it goes.
pub check_ttl-eq-max :
    (chain : StorageChain) (extend_to : Expr) (target : ℕ)
    → str_eq chain.method "extend_ttl" ≡ true
    → IsExtension chain.lifecycle chain.args extend_to
    → extend_to ≡ lit (some target)
    → check_temporary_ttl chain ++ check_persistent_ttl chain ≡ (
        if ltb (max_ttl chain.lifecycle) target && not (same_lifecycle chain.lifecycle instance)
        then at_chain (ttl_rule chain.lifecycle) warning chain (ttl_exceeds chain.lifecycle target)
          ∷ []
        else [])
check_ttl-eq-max chain extend_to target extends args found =
    by_args chain chain.lifecycle chain.args extend_to target args refl refl extends found
