-- ===== src/Linter/Rules.antt =====
-- crates/soroban-storage-lints/src/rules.rs: the rules. A message is the values that its text is
-- formatted from.
pub mod Loops
pub mod Named
pub mod Limits
pub mod Total
pub mod RunAll
use soroban_storage_the_on_c.Prelude.{
  ℕ, Bool, true, false, not, ◌&&◌, ◌||◌, Option, none, some, List, [], ◌∷◌, ◌++◌, String, str_eq,
  if◌then◌else◌, ltb, is_empty, keep_if, map, find, Result, ok, err, ◌>>=◌,
}
use soroban_storage_the_on_c.Storage.Lifecycle.{
  Lifecycle, temporary, persistent, instance, same_lifecycle,
}
use soroban_storage_the_on_c.Linter.Decl.{StorageDecl}
use soroban_storage_the_on_c.Linter.Words.{Unicode, type_looks_critical, type_looks_collection}
use soroban_storage_the_on_c.Linter.Syntax.{Expr, lit}
use soroban_storage_the_on_c.Linter.Model.{StorageChain, FnStorage, FileModel, contains, lookup}
use soroban_storage_the_on_c.Linter.Resolve.{Panic, writes, resolve_value_type, key_variant, arg_at}

abbrev pub max_temp_ttl : ℕ
max_temp_ttl = 3_110_400

abbrev pub max_persistent_ttl : ℕ
max_persistent_ttl = 6_311_390

abbrev pub max_instance_struct_fields : ℕ
max_instance_struct_fields = 3

pub data Severity : Type 0 where
  error warning : Severity

pub data Reason : Type 0 where
  declared_critical : String → Reason
  derives_critical : String → Reason
  named_critical : String → Reason
  inside_a_loop : Reason
  unbounded : String → Reason
  many_fields : String → ℕ → Reason

pub data Message : Type 0 where
  critical_data : List Reason → Message
  wrong_lifecycle : (variant : String) (declared accessed : Lifecycle) → Message
  no_ttl_extension : (method : String) → Lifecycle → Message
  instance_bloat : List Reason → Message
  ttl_exceeds : Lifecycle → (target : ℕ) → Message

pub record RuleFinding : Type 0 where
  pub rule : String
  pub severity : Severity
  pub line : ℕ
  pub column : ℕ
  pub message : Message

abbrev pub at_chain : String → Severity → StorageChain → Message → RuleFinding
at_chain rule severity chain message = record {
  rule = rule;
  severity = severity;
  line = chain.line;
  column = chain.column;
  message = message;
}

abbrev pub Found : Type 0
Found = Result Panic (List RuleFinding)

-- `for f in &model.fns`, and `for chain in &f.chains`.
unfoldable pub for_each : {A : Type 0} → (A → Found) → List A → Found
for_each check [] = ok []
for_each check (a ∷ rest) = do found ← check a; more ← for_each check rest; ok (found ++ more)

abbrev pub for_chains : (FnStorage → StorageChain → Found) → FileModel → Found
for_chains check model = for_each (λ f. for_each (check f) f.chains) model.fns

-- A finding if there is a reason.
abbrev pub if_any : List Reason → RuleFinding → List RuleFinding
if_any [] finding = []
if_any (r ∷ reasons) finding = finding ∷ []

abbrev pub decl_of_variant : Option String → FileModel → Option StorageDecl
decl_of_variant none model = none
decl_of_variant (some variant) model =
    find (λ (d : StorageDecl). str_eq d.variant variant) model.decls

abbrev pub declared_reason : Option StorageDecl → List Reason
declared_reason none = []
declared_reason (some decl) = if decl.critical then declared_critical decl.variant ∷ [] else []

abbrev pub mismatch : StorageChain → Option StorageDecl → List RuleFinding
mismatch chain none = []
mismatch chain (some decl) =
    if not (same_lifecycle decl.lifecycle chain.lifecycle)
    then at_chain "lifecycle_mismatch" error chain
        (wrong_lifecycle decl.variant decl.lifecycle chain.lifecycle)
      ∷ []
    else []

unfoldable pub lifecycle_mismatch : FileModel → Found
lifecycle_mismatch model =
    for_chains (λ f chain. ok (mismatch chain (decl_of_variant (key_variant chain) model))) model

abbrev pub is_entry_write : StorageChain → Bool
is_entry_write c = not (same_lifecycle c.lifecycle instance) && writes c.method

abbrev pub unextended : StorageChain → RuleFinding
unextended chain =
    at_chain "missing_ttl_extension" warning chain (no_ttl_extension chain.method chain.lifecycle)

abbrev pub check_ttl : FnStorage → List RuleFinding
check_ttl f =
    let writes_of : List StorageChain = keep_if is_entry_write f.chains in
    if is_empty writes_of || f.has_ttl_call then [] else map unextended writes_of

unfoldable pub missing_ttl_extension : FileModel → Found
missing_ttl_extension model = for_each (λ f. ok (check_ttl f)) model.fns

abbrev pub field_reason : String → Option ℕ → List Reason
field_reason ty none = []
field_reason ty (some fields) =
    if ltb max_instance_struct_fields fields then many_fields ty fields ∷ [] else []

module _ (u : Unicode) where
  abbrev pub value_reason : FileModel → Option String → List Reason
  value_reason model none = []
  value_reason model (some ty) =
      if contains model.critical_types ty
      then derives_critical ty ∷ []
      else if type_looks_critical u ty
      then named_critical ty ∷ []
      else []

  unfoldable pub check_critical : FileModel → FnStorage → StorageChain → Found
  check_critical model f chain =
      if not (same_lifecycle chain.lifecycle temporary) || not (writes chain.method)
      then ok []
      else (do
        ty ← resolve_value_type u chain f model
        let reasons : List Reason =
            declared_reason (decl_of_variant (key_variant chain) model) ++ value_reason model ty
        ok (
            if_any reasons
              (at_chain "temporary_critical_type" error chain (critical_data reasons))))

  unfoldable pub temporary_critical_type : FileModel → Found
  temporary_critical_type model = for_chains (check_critical model) model

  abbrev pub size_reason : FileModel → Option String → List Reason
  size_reason model none = []
  size_reason model (some ty) =
      if type_looks_collection u ty
      then unbounded ty ∷ []
      else field_reason ty (lookup ty model.struct_field_counts)

  unfoldable pub check_bloat : FileModel → FnStorage → StorageChain → Found
  check_bloat model f chain =
      if not (same_lifecycle chain.lifecycle instance) || not (writes chain.method)
      then ok []
      else (do
        ty ← resolve_value_type u chain f model
        let reasons : List Reason =
            (if chain.inside_loop then inside_a_loop ∷ [] else []) ++ size_reason model ty
        ok (
            if_any reasons
              (at_chain "instance_storage_bloat" warning chain (instance_bloat reasons))))

  unfoldable pub instance_storage_bloat : FileModel → Found
  instance_storage_bloat model = for_chains (check_bloat model) model

-- The target of an extension, where it is a literal that fits `u32`.
abbrev pub literal_target : Option Expr → Option ℕ
literal_target (some (lit (some target))) = some target
literal_target e = none

abbrev pub exceeding : String → ℕ → StorageChain → Option ℕ → List RuleFinding
exceeding rule most chain none = []
exceeding rule most chain (some target) =
    if ltb most target
    then at_chain rule warning chain (ttl_exceeds chain.lifecycle target) ∷ []
    else []

abbrev pub check_temporary_ttl : StorageChain → List RuleFinding
check_temporary_ttl chain =
    if not (same_lifecycle chain.lifecycle temporary) || not (str_eq chain.method "extend_ttl")
    then []
    else exceeding "temporary_ttl_exceeded" max_temp_ttl chain
        (literal_target (arg_at chain.args 2))

unfoldable pub temporary_ttl_exceeded : FileModel → Found
temporary_ttl_exceeded model = for_chains (λ f chain. ok (check_temporary_ttl chain)) model

abbrev pub check_persistent_ttl : StorageChain → List RuleFinding
check_persistent_ttl chain =
    if not (same_lifecycle chain.lifecycle persistent || same_lifecycle chain.lifecycle instance)
      || not (str_eq chain.method "extend_ttl")
    then []
    else exceeding "persistent_ttl_exceeded" max_persistent_ttl chain
        (literal_target (arg_at chain.args 2))

unfoldable pub persistent_ttl_exceeded : FileModel → Found
persistent_ttl_exceeded model = for_chains (λ f chain. ok (check_persistent_ttl chain)) model
