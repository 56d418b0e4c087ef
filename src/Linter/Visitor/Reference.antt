-- ===== src/Linter/Visitor/Reference.antt =====
-- What the walk of crates/soroban-storage-lints/src/parse.rs is to collect, said without its state.
use soroban_storage_the_on_c.Prelude.{
  Bool, true, false, ◌&&◌, ◌||◌, Option, none, some, List, [], ◌∷◌, ◌++◌, String, str_eq, any,
  if◌then◌else◌,
}
use soroban_storage_the_on_c.Linter.Syntax.{
  Start, Expr, path, field, struct_lit, method_call, call, reference, closure, index, lit, for_loop,
  while_loop, loop, block, other, Exprs, none_left, and_then, Block, end, stmt, fn_stmt,
}
use soroban_storage_the_on_c.Linter.Model.{StorageChain}
use soroban_storage_the_on_c.Storage.Lifecycle.{Lifecycle, temporary, persistent, instance}

-- Whether a method of that name is called along a receiver, from the outer call inwards.
unfoldable pub goes_through : Expr → String → Bool
goes_through (method_call start receiver method args) name =
    str_eq method name || goes_through receiver name
goes_through (call func args) name = goes_through func name
goes_through _ name = false

-- The lifecycle that is named first along a receiver.
abbrev pub nearer : String → Option Lifecycle → Option Lifecycle
nearer method further =
    if str_eq method "temporary"
    then some temporary
    else if str_eq method "persistent"
    then some persistent
    else if str_eq method "instance"
    then some instance
    else further

unfoldable pub lifecycle_along : Expr → Option Lifecycle
lifecycle_along (method_call start receiver method args) = nearer method (lifecycle_along receiver)
lifecycle_along (call func args) = lifecycle_along func
lifecycle_along _ = none

abbrev pub is_terminal : String → Bool
is_terminal method =
    any (λ name. str_eq name method)
      ("set" ∷ "get" ∷ "update" ∷ "try_update" ∷ "extend_ttl" ∷ "extend_ttl_with_limits" ∷ "bump"
        ∷ "remove" ∷ "has" ∷ [])

abbrev pub is_ttl : String → Bool
is_ttl method =
    any (λ name. str_eq name method)
      ("extend_ttl" ∷ "extend_ttl_with_limits" ∷ "bump" ∷ "set_ttl" ∷ [])

-- A path whose last segment is the name of a TTL method.
abbrev pub ends_in_ttl : List String → Bool
ends_in_ttl [] = false
ends_in_ttl (segment ∷ []) = is_ttl segment
ends_in_ttl (segment ∷ next ∷ segments) = ends_in_ttl (next ∷ segments)

abbrev pub names_ttl : Expr → Bool
names_ttl (path segments) = ends_in_ttl segments
names_ttl _ = false

-- The storage call that a method call is, if it is one: a method of a storage of that lifecycle,
-- reached through `storage`.
abbrev pub call_on : Bool → Start → String → Exprs → Option Lifecycle → List StorageChain
call_on in_loop start method args none = []
call_on in_loop start method args (some lc) =
    record {
      lifecycle = lc;
      method = method;
      args = args;
      line = start.line;
      column = start.column;
      inside_loop = in_loop;
    }
    ∷ []

abbrev pub chains_here : Bool → Start → Expr → String → Exprs → List StorageChain
chains_here in_loop start receiver method args =
    if is_terminal method && goes_through receiver "storage"
    then call_on in_loop start method args (lifecycle_along receiver)
    else []

-- The chains of the calls below a node, each with whether a loop is around it.
unfoldable mutual
  unfolding goes_through lifecycle_along

  pub chains_in : Bool → Expr → List StorageChain
  chains_in d (path segments) = []
  chains_in d (field base member) = chains_in d base
  chains_in d (struct_lit segments fields) = chains_in_all d fields
  chains_in d (method_call start receiver method args) =
      chains_here d start receiver method args ++ (chains_in d receiver ++ chains_in_all d args)
  chains_in d (call func args) = chains_in d func ++ chains_in_all d args
  chains_in d (reference e) = chains_in d e
  chains_in d (closure inputs body) = chains_in d body
  chains_in d (index base at) = chains_in d base ++ chains_in d at
  chains_in d (lit value) = []
  chains_in d (for_loop over body) = chains_in true over ++ chains_in_block true body
  chains_in d (while_loop condition body) = chains_in true condition ++ chains_in_block true body
  chains_in d (loop body) = chains_in_block true body
  chains_in d (block body) = chains_in_block d body
  chains_in d (other children) = chains_in_all d children

  pub chains_in_all : Bool → Exprs → List StorageChain
  chains_in_all d none_left = []
  chains_in_all d (and_then e es) = chains_in d e ++ chains_in_all d es

  pub chains_in_block : Bool → Block → List StorageChain
  chains_in_block d end = []
  chains_in_block d (stmt e rest) = chains_in d e ++ chains_in_block d rest
  chains_in_block d (fn_stmt args body rest) = chains_in_block d body ++ chains_in_block d rest

-- Whether a TTL call is below a node.
unfoldable mutual
  pub ttl_in : Expr → Bool
  ttl_in (path segments) = false
  ttl_in (field base member) = ttl_in base
  ttl_in (struct_lit segments fields) = ttl_in_any fields
  ttl_in (method_call start receiver method args) =
      is_ttl method || (ttl_in receiver || ttl_in_any args)
  ttl_in (call func args) = names_ttl func || (ttl_in func || ttl_in_any args)
  ttl_in (reference e) = ttl_in e
  ttl_in (closure inputs body) = ttl_in body
  ttl_in (index base at) = ttl_in base || ttl_in at
  ttl_in (lit value) = false
  ttl_in (for_loop over body) = ttl_in over || ttl_in_block body
  ttl_in (while_loop condition body) = ttl_in condition || ttl_in_block body
  ttl_in (loop body) = ttl_in_block body
  ttl_in (block body) = ttl_in_block body
  ttl_in (other children) = ttl_in_any children

  pub ttl_in_any : Exprs → Bool
  ttl_in_any none_left = false
  ttl_in_any (and_then e es) = ttl_in e || ttl_in_any es

  pub ttl_in_block : Block → Bool
  ttl_in_block end = false
  ttl_in_block (stmt e rest) = ttl_in e || ttl_in_block rest
  ttl_in_block (fn_stmt args body rest) = ttl_in_block body || ttl_in_block rest
