-- ===== src/Linter/Visitor.antt =====
-- crates/soroban-storage-lints/src/parse.rs: the walk over a function's body that collects its
-- storage calls.
pub mod Reference
pub mod Collected
use soroban_storage_the_on_c.Prelude.{
  ℕ, ◌+◌, ◌-◌, Bool, true, false, ◌||◌, Option, none, some, List, [], ◌∷◌, ◌++◌, String, str_eq,
  if◌then◌else◌, ltb, last, any,
}
use soroban_storage_the_on_c.Storage.Lifecycle.{Lifecycle, temporary, persistent, instance}
use soroban_storage_the_on_c.Linter.Syntax.{
  Start, Expr, path, field, struct_lit, method_call, call, reference, closure, index, lit, for_loop,
  while_loop, loop, block, other, Exprs, none_left, and_then, Block, end, stmt, fn_stmt,
}
use soroban_storage_the_on_c.Linter.Model.{StringMap, StorageChain, FnStorage, contains}

abbrev pub terminal_methods : List String
terminal_methods =
    "set" ∷ "get" ∷ "update" ∷ "try_update" ∷ "extend_ttl" ∷ "extend_ttl_with_limits" ∷ "bump"
    ∷ "remove" ∷ "has" ∷ []

abbrev pub ttl_methods : List String
ttl_methods = "extend_ttl" ∷ "extend_ttl_with_limits" ∷ "bump" ∷ "set_ttl" ∷ []

-- `Lifecycle::from_str`.
abbrev pub from_str : String → Option Lifecycle
from_str s =
    if str_eq s "temporary"
    then some temporary
    else if str_eq s "persistent"
    then some persistent
    else if str_eq s "instance"
    then some instance
    else none

-- `iter().find_map(Lifecycle::from_str)`
abbrev pub first_lifecycle : List String → Option Lifecycle
first_lifecycle [] = none
first_lifecycle (name ∷ names) = elim (from_str name) [
  | some lc ↦ some lc
  | none ↦ first_lifecycle names
]

abbrev pub collect_method_names : Expr → List String
collect_method_names (method_call start receiver method args) =
    method ∷ collect_method_names receiver
collect_method_names (call func args) = collect_method_names func
collect_method_names e = []

pub record FnVisitor : Type 0 where
  pub chains : List StorageChain
  pub has_ttl_call : Bool
  pub loop_depth : ℕ

-- What `push_chain` pushes.
abbrev pub chain_of :
    ℕ → Start → String → Exprs → List String → Option Lifecycle → List StorageChain
chain_of depth start method args names none = []
chain_of depth start method args names (some lifecycle) =
    if any (λ n. str_eq n "storage") names
    then record {
      lifecycle = lifecycle;
      method = method;
      args = args;
      line = start.line;
      column = start.column;
      inside_loop = ltb 0 depth;
    }
      ∷ []
    else []

unfoldable pub push_chain : Start → Expr → String → Exprs → FnVisitor → FnVisitor
push_chain start receiver method args v =
    let names = collect_method_names receiver in
    record v {
      chains = v.chains ++ chain_of v.loop_depth start method args names (first_lifecycle names);
    }

abbrev pub note_ttl : Bool → FnVisitor → FnVisitor
note_ttl is_ttl v = if is_ttl then record v { has_ttl_call = true } else v

-- Whether the last segment of a called path is a TTL method.
abbrev pub calls_ttl : Expr → Bool
calls_ttl (path segments) = elim (last segments) [
  | none ↦ false
  | some name ↦ contains ttl_methods name
]
calls_ttl e = false

abbrev pub enter_loop : FnVisitor → FnVisitor
enter_loop v = record v { loop_depth = v.loop_depth + 1 }

abbrev pub leave_loop : FnVisitor → FnVisitor
leave_loop v = record v { loop_depth = v.loop_depth - 1 }

-- `visit_expr_method_call`, before what is below the call.
abbrev pub enter_method_call : Start → Expr → String → Exprs → FnVisitor → FnVisitor
enter_method_call start receiver method args v =
    note_ttl (contains ttl_methods method)
      (if contains terminal_methods method then push_chain start receiver method args v else v)

-- `Visit`: where the linter has no method of its own, syn's walks on.
unfoldable mutual
  pub visit_expr : Expr → FnVisitor → FnVisitor
  visit_expr (path segments) v = v
  visit_expr (field base member) v = visit_expr base v
  visit_expr (struct_lit segments fields) v = visit_exprs fields v
  visit_expr (method_call start receiver method args) v =
      visit_exprs args (visit_expr receiver (enter_method_call start receiver method args v))
  visit_expr (call func args) v = visit_exprs args (visit_expr func (note_ttl (calls_ttl func) v))
  visit_expr (reference e) v = visit_expr e v
  visit_expr (closure inputs body) v = visit_expr body v
  visit_expr (index base at) v = visit_expr at (visit_expr base v)
  visit_expr (lit value) v = v
  visit_expr (for_loop over body) v = leave_loop (visit_block body (visit_expr over (enter_loop v)))
  visit_expr (while_loop condition body) v =
      leave_loop (visit_block body (visit_expr condition (enter_loop v)))
  visit_expr (loop body) v = leave_loop (visit_block body (enter_loop v))
  visit_expr (block body) v = visit_block body v
  visit_expr (other children) v = visit_exprs children v

  pub visit_exprs : Exprs → FnVisitor → FnVisitor
  visit_exprs none_left v = v
  visit_exprs (and_then e es) v = visit_exprs es (visit_expr e v)

  pub visit_block : Block → FnVisitor → FnVisitor
  visit_block end v = v
  visit_block (stmt e rest) v = visit_block rest (visit_expr e v)
  visit_block (fn_stmt args body rest) v = visit_block rest (visit_block body v)

unfoldable pub scan_fn : Block → StringMap String → Option String → FnStorage
scan_fn body bindings self_type =
    let visitor = visit_block body (record { chains = []; has_ttl_call = false; loop_depth = 0 }) in
    record {
      chains = visitor.chains;
      has_ttl_call = visitor.has_ttl_call;
      bindings = bindings;
      self_type = self_type;
    }
