-- ===== src/Linter/Examples.antt =====
-- Witnesses of the theorems about the linter, on a small file and on ASCII.
use mathlib.Core.List.{flatten}
use soroban_storage_the_on_c.Prelude.{
  ℕ, ◌+◌, ◌≡◌, refl, Bool, true, false, ◌&&◌, ◌||◌, Option, none, some, List, [], ◌∷◌, ◌++◌, String,
  map, All, Elem, head, codes, leb, Result, ok, err, IsOk, if◌then◌else◌, arith,
}
use soroban_storage_the_on_c.Storage.Lifecycle.{Lifecycle, temporary}
use soroban_storage_the_on_c.Linter.Decl.{RawDecl, decl_of, parse_storage_decl}
use soroban_storage_the_on_c.Macro.Tokens.{ident, comma}
use soroban_storage_the_on_c.Macro.Merge.{storage_attr}
use soroban_storage_the_on_c.Linter.Words.{Unicode, split_words}
use soroban_storage_the_on_c.Linter.Words.Camel.{camel, IsSmall, split_words-flatten}
use soroban_storage_the_on_c.Linter.Syntax.{
  Start, Expr, path, method_call, call, reference, lit, for_loop, Exprs, none_left, and_then, end,
  stmt, path_type, typed_ident,
}
use soroban_storage_the_on_c.Linter.Model.{StorageChain, FileModel, normalize}
use soroban_storage_the_on_c.Linter.Resolve.{
  Panic, slice_end_before_start, generic_element, resolve_value_type, key_variant,
}
use soroban_storage_the_on_c.Linter.Resolve.Readable.{IsReadable}
use soroban_storage_the_on_c.Linter.Rules.{
  RuleFinding, error, warning, for_each, check_critical, check_bloat, temporary_critical_type,
  lifecycle_mismatch, missing_ttl_extension, instance_storage_bloat, temporary_ttl_exceeded,
  persistent_ttl_exceeded, check_temporary_ttl, check_persistent_ttl, at_chain, ttl_exceeds,
}
use soroban_storage_the_on_c.Linter.Rules.Limits.{temporary_args, check_ttl-eq-max}
use soroban_storage_the_on_c.Linter.Rules.RunAll.{run_rules, run_all}
use soroban_storage_the_on_c.Linter.Rules.RunAll.Ignored.{kept, run_all-kept}
use soroban_storage_the_on_c.Linter.Rules.RunAll.Reports.{run_all-IsOk}
use soroban_storage_the_on_c.Linter.Visitor.{scan_fn}
use soroban_storage_the_on_c.Linter.Visitor.Reference.{
  goes_through, lifecycle_along, chains_in_block, ttl_in_block,
}
use soroban_storage_the_on_c.Linter.Visitor.Collected.{scan_fn-collect}
use soroban_storage_the_on_c.Linter.Scan.{
  Item, macro_item, fn_item, FnItem, scan_file, scan_items, scan_item, note_items, collect_bindings,
}
use soroban_storage_the_on_c.Linter.Run.{LintOptions, Finding, lint_source, exit_code}
use soroban_storage_the_on_c.Linter.Run.Guarantee.{lint_source-reports_critical}

abbrev pub is_upper : ℕ → Bool
is_upper c = leb b'A' c && leb c b'Z'

abbrev pub is_lower : ℕ → Bool
is_lower c = leb b'a' c && leb c b'z'

abbrev pub is_digit : ℕ → Bool
is_digit c = leb b'0' c && leb c b'9'

abbrev pub ascii : Unicode
ascii = record {
  is_alphanumeric = λ c. is_upper c || (is_lower c || is_digit c);
  is_uppercase = is_upper;
  is_lowercase = is_lower;
  is_numeric = is_digit;
  is_whitespace = λ c. leb c b' ';
  to_lowercase = map (λ c. if is_upper c then c + 32 else c);
}

small : (c : ℕ) → is_lower c ≡ true → IsSmall ascii c
small c low = record {
  alphanumeric = ground (arith, low);
  not_uppercase = ground (arith, low);
  not_numeric = ground (arith, low);
  lowercase = low;
}

split_words-flatten_example :
    split_words ascii (codes "TokenFund") ≡ codes "token" ∷ codes "fund" ∷ []
unfolding flatten
split_words-flatten_example = split_words-flatten ascii (codes "Token" ∷ codes "Fund" ∷ []) (
  camel _ _ _ refl refl (small b'o' refl)
      (small b'k' refl, (small b'e' refl, (small b'n' refl, tt))),
  (camel _ _ _ refl refl (small b'u' refl) (small b'n' refl, (small b'd' refl, tt)), tt),
)

-- `storage! { #[storage(persistent, critical)] Balance(Address) -> i128, }`
abbrev balance_entry : RawDecl
balance_entry = record {
  attrs = storage_attr (ident "persistent" ∷ comma ∷ ident "critical" ∷ []) ∷ [];
  name = "Balance";
  value_type = "i128";
  line = 3;
  column = 8;
}

abbrev at_line : ℕ → Start
at_line n = record { line = n; column = 8 }

-- `env.storage().temporary()`
abbrev temporary_storage : Expr
temporary_storage =
    method_call (at_line 7) (method_call (at_line 7) (path ("env" ∷ [])) "storage" none_left)
      "temporary" none_left

-- `&StorageKey::Balance(user)` and `&amount`.
abbrev set_args : Exprs
set_args =
    and_then
      (reference
        (call (path ("StorageKey" ∷ "Balance" ∷ [])) (and_then (path ("user" ∷ [])) none_left)))
      (and_then (reference (path ("amount" ∷ []))) none_left)

-- The write, in a loop.
abbrev paying : FnItem
paying = record {
  inputs = typed_ident "amount" (path_type ("i128" ∷ []) "i128") ∷ [];
  body =
      stmt
        (for_loop (path ("users" ∷ []))
          (stmt (method_call (at_line 7) temporary_storage "set" set_args) end))
        end;
}

abbrev file : List Item
file = macro_item ("storage" ∷ []) (some (balance_entry ∷ [])) ∷ fn_item paying ∷ []

abbrev the_write : StorageChain
the_write = record {
  lifecycle = temporary;
  method = "set";
  args = set_args;
  line = 7;
  column = 8;
  inside_loop = true;
}

abbrev parse : String → Option (List Item)
parse source = some file

abbrev all_rules : LintOptions
all_rules = record { deny_warnings = false; ignored_rules = [] }

readable : All IsReadable (scan_file ascii file).fns
unfolding scan_file scan_items note_items scan_item scan_fn collect_bindings normalize
readable = (record { bound = ((λ opening closing q q'. cc), tt); own = tt }, tt)

lint_source-reports_critical_example :
    (findings : List Finding) × (lint_source ascii parse "src/lib.rs" "" all_rules ≡ ok findings)
    × ((finding : Finding) × Elem finding findings
        × (finding.severity ≡ error)
        × (finding.path ≡ "src/lib.rs")
        × (finding.line ≡ 7)
        × (finding.column ≡ 8))
    × (exit_code all_rules findings ≡ 1)
unfolding chains_in_block goes_through lifecycle_along flatten scan_file parse_storage_decl
    key_variant scan_items note_items
lint_source-reports_critical_example =
    lint_source-reports_critical ascii parse "src/lib.rs" "" all_rules file paying none the_write
      (decl_of balance_entry) refl readable head head refl refl refl refl refl

run_all-IsOk_example : IsOk (run_all ascii (scan_file ascii file) [])
run_all-IsOk_example = run_all-IsOk ascii (scan_file ascii file) [] readable

-- What a file is made of where a function has the write alone.
abbrev model : FileModel
model = record {
  decls = decl_of balance_entry ∷ [];
  fns =
      record {
        chains = the_write ∷ [];
        has_ttl_call = false;
        bindings = ("amount", "i128") ∷ [];
        self_type = none;
      }
      ∷ [];
  critical_types = [];
  struct_field_counts = [];
  struct_field_types = [];
  bindings = [];
}

abbrev found_by : Result Panic (List RuleFinding) → List RuleFinding
found_by (ok found) = found
found_by (err panic) = []

all_findings : List RuleFinding
all_findings = found_by (run_all ascii model [])

model_has_findings : run_all ascii model [] ≡ ok all_findings
unfolding all_findings run_all run_rules temporary_critical_type for_each check_critical
    resolve_value_type lifecycle_mismatch missing_ttl_extension instance_storage_bloat check_bloat
    temporary_ttl_exceeded persistent_ttl_exceeded
model_has_findings = refl

run_all-kept_example :
    run_all ascii model ("lifecycle_mismatch" ∷ [])
    ≡ ok (kept ("lifecycle_mismatch" ∷ []) all_findings)
run_all-kept_example =
    run_all-kept ascii model ("lifecycle_mismatch" ∷ []) all_findings model_has_findings

-- `extend_ttl(&key, 100, 6_000_000)` on an entry of the lifecycle.
abbrev extension : Lifecycle → StorageChain
extension lc = record {
  lifecycle = lc;
  method = "extend_ttl";
  args =
      and_then (path ("key" ∷ []))
        (and_then (lit (some 100)) (and_then (lit (some 6_000_000)) none_left));
  line = 9;
  column = 4;
  inside_loop = false;
}

check_ttl-eq-max_example :
    check_temporary_ttl (extension temporary) ++ check_persistent_ttl (extension temporary)
    ≡ at_chain "temporary_ttl_exceeded" warning
        (extension temporary)
        (ttl_exceeds temporary 6_000_000)
      ∷ []
check_ttl-eq-max_example =
    check_ttl-eq-max (extension temporary) (lit (some 6_000_000)) 6_000_000 refl
      (temporary_args _ _ _) refl

scan_fn-collect_example :
    ((scan_fn paying.body [] none).chains ≡ the_write ∷ [])
    × ((scan_fn paying.body [] none).has_ttl_call ≡ false)
unfolding chains_in_block ttl_in_block goes_through lifecycle_along
scan_fn-collect_example = scan_fn-collect paying.body [] none

-- A name of type `fn() -> [u8; 1 << 3]`, in a call of one of its methods.
function_type_panics : generic_element ascii "fn()->[u8;1<<3]" ≡ err slice_end_before_start
unfolding generic_element
function_type_panics = refl
