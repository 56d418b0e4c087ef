-- ===== src/Linter/Visitor/Collected.antt =====
-- What the walk of crates/soroban-storage-lints/src/parse.rs collects, said without its state.
use mathlib.Core.List.{append_assoc, append-nil}
use soroban_storage_the_on_c.Prelude.{
  ℕ, ◌+◌, ◌-◌, ◌≡◌, ◌∙◌, refl, ap, Bool, true, false, ◌||◌, Option, none, some, List, [], ◌∷◌, ◌++◌,
  String, str_eq, any, ltb, lt→ltb, if◌then◌else◌, Bool-cases, inl, inr, arith,
}
use soroban_storage_the_on_c.Storage.Lifecycle.{Lifecycle}
use soroban_storage_the_on_c.Linter.Syntax.{
  Start, Expr, path, field, struct_lit, method_call, call, reference, closure, index, lit, for_loop,
  while_loop, loop, block, other, Exprs, none_left, and_then, Block, end, stmt, fn_stmt,
}
use soroban_storage_the_on_c.Linter.Model.{StringMap, StorageChain, contains}
use soroban_storage_the_on_c.Linter.Visitor.{
  terminal_methods, ttl_methods, first_lifecycle, collect_method_names, FnVisitor, chain_of,
  push_chain, note_ttl, calls_ttl, enter_method_call, enter_loop, leave_loop, visit_expr,
  visit_exprs, visit_block, scan_fn,
}
use soroban_storage_the_on_c.Linter.Visitor.Reference.{
  goes_through, nearer, lifecycle_along, is_ttl, ends_in_ttl, names_ttl, call_on, chains_here,
  chains_in, chains_in_all, chains_in_block, ttl_in, ttl_in_any, ttl_in_block,
}

-- The visitor after it has collected more.
abbrev pub collect : List StorageChain → Bool → FnVisitor → FnVisitor
collect chains has_ttl v = record {
  chains = v.chains ++ chains;
  has_ttl_call = v.has_ttl_call || has_ttl;
  loop_depth = v.loop_depth;
}

or_false : (b : Bool) → (b || false) ≡ b
or_false true = refl
or_false false = refl

or_true : (b : Bool) → (b || true) ≡ true
or_true true = refl
or_true false = refl

or_assoc : (a b c : Bool) → ((a || b) || c) ≡ (a || (b || c))
or_assoc true b c = refl
or_assoc false b c = refl

collect_nothing : (v : FnVisitor) → v ≡ collect [] false v
collect_nothing v = rw (append-nil v.chains, or_false v.has_ttl_call) refl

collect_twice :
    (xs ys : List StorageChain) (a b : Bool) (v : FnVisitor)
    → collect ys b (collect xs a v) ≡ collect (xs ++ ys) (a || b) v
collect_twice xs ys a b v = rw (append_assoc v.chains xs ys, or_assoc v.has_ttl_call a b) refl

-- A step that collects, behind one that has.
in_turn :
    (next : FnVisitor → FnVisitor) (ys : ℕ → List StorageChain) (b : Bool)
    → ((x : FnVisitor) → next x ≡ collect (ys x.loop_depth) b x)
    → (xs : List StorageChain) (a : Bool) (v w : FnVisitor) → w ≡ collect xs a v
    → next w ≡ collect (xs ++ ys v.loop_depth) (a || b) v
in_turn next ys b collects xs a v w q =
    ap next q ∙ collects (collect xs a v) ∙ collect_twice xs (ys v.loop_depth) a b v

note_ttl-collect : (b : Bool) (v : FnVisitor) → note_ttl b v ≡ collect [] b v
note_ttl-collect true v = rw (append-nil v.chains, or_true v.has_ttl_call) refl
note_ttl-collect false v = collect_nothing v

leave_loop-collect :
    (xs : List StorageChain) (a : Bool) (v w : FnVisitor)
    → w ≡ collect xs a (enter_loop v)
    → leave_loop w ≡ collect xs a v
leave_loop-collect xs a v w q =
    let back : v.loop_depth + 1 - 1 ≡ v.loop_depth = omega arith in ap leave_loop q ∙ rw back refl

through-eq :
    (e : Expr) → any (λ n. str_eq n "storage") (collect_method_names e) ≡ goes_through e "storage"
unfolding goes_through
through-eq (method_call start receiver method args) =
    ap (λ b. str_eq method "storage" || b) (through-eq receiver)
through-eq (call func args) = through-eq func
through-eq _ = refl

nearer-eq :
    (method : String) (names : List String)
    → first_lifecycle (method ∷ names) ≡ nearer method (first_lifecycle names)
nearer-eq method names = elim (Bool-cases (str_eq method "temporary")) [
  | inl q ↦ rw (first_lifecycle, q) refl
  | inr q ↦ elim (Bool-cases (str_eq method "persistent")) [
    | inl r ↦ rw (first_lifecycle, q, r) refl
    | inr r ↦ elim (Bool-cases (str_eq method "instance")) [
      | inl t ↦ rw (first_lifecycle, q, r, t) refl
      | inr t ↦ rw (first_lifecycle, q, r, t) refl
    ]
  ]
]

lifecycle-eq : (e : Expr) → first_lifecycle (collect_method_names e) ≡ lifecycle_along e
unfolding lifecycle_along
lifecycle-eq (method_call start receiver method args) =
    nearer-eq method (collect_method_names receiver) ∙ ap (nearer method) (lifecycle-eq receiver)
lifecycle-eq (call func args) = lifecycle-eq func
lifecycle-eq _ = refl

chain_of-eq :
    (d : ℕ) (start : Start) (receiver : Expr) (method : String) (args : Exprs)
    (o : Option Lifecycle)
    → chain_of d start method args (collect_method_names receiver) o
      ≡ (if goes_through receiver "storage" then call_on (ltb 0 d) start method args o else [])
chain_of-eq d start receiver method args none =
    elim (Bool-cases (goes_through receiver "storage")) [ inl q ↦ rw q refl | inr q ↦ rw q refl ]
chain_of-eq d start receiver method args (some lc) = rw (through-eq receiver) refl

pushed-eq :
    (d : ℕ) (start : Start) (receiver : Expr) (method : String) (args : Exprs)
    → chain_of d start method args
        (collect_method_names receiver)
        (first_lifecycle (collect_method_names receiver))
      ≡ (if goes_through receiver "storage"
          then call_on (ltb 0 d) start method args (lifecycle_along receiver)
          else [])
pushed-eq d start receiver method args =
    ap (chain_of d start method args (collect_method_names receiver)) (lifecycle-eq receiver)
    ∙ chain_of-eq d start receiver method args (lifecycle_along receiver)

last-ttl : (segments : List String) → calls_ttl (path segments) ≡ ends_in_ttl segments
last-ttl [] = refl
last-ttl (segment ∷ []) = refl
last-ttl (segment ∷ next ∷ segments) = last-ttl (next ∷ segments)

calls_ttl-eq : (e : Expr) → calls_ttl e ≡ names_ttl e
calls_ttl-eq (path segments) = last-ttl segments
calls_ttl-eq _ = refl

calls_ttl-collect :
    (func : Expr) (v : FnVisitor) → note_ttl (calls_ttl func) v ≡ collect [] (names_ttl func) v
calls_ttl-collect func v =
    note_ttl-collect (calls_ttl func) v ∙ ap (λ b. collect [] b v) (calls_ttl-eq func)

enter_method_call-collect :
    (start : Start) (receiver : Expr) (method : String) (args : Exprs) (v : FnVisitor)
    → enter_method_call start receiver method args v
      ≡ collect (chains_here (ltb 0 v.loop_depth) start receiver method args) (is_ttl method) v
unfolding push_chain
enter_method_call-collect start receiver method args v =
    elim (Bool-cases (contains terminal_methods method)) [
      | inl q ↦ rw q (
          note_ttl-collect (contains ttl_methods method) _
          ∙ rw
              (
                append-nil (
                    v.chains
                    ++ chain_of v.loop_depth start method args (collect_method_names receiver)
                        (first_lifecycle (collect_method_names receiver))),
                pushed-eq v.loop_depth start receiver method args,
              )
              refl)
      | inr q ↦ rw q (note_ttl-collect (contains ttl_methods method) v)
    ]

in_loop : (d : ℕ) → ltb 0 (d + 1) ≡ true
in_loop d = lt→ltb 0 (d + 1) (omega arith)

-- A loop with an expression in front of its body.
loop_round :
    (e : Expr) (body : Block)
    → ((w : FnVisitor) → visit_expr e w ≡ collect (chains_in (ltb 0 w.loop_depth) e) (ttl_in e) w)
    → ((w : FnVisitor)
        → visit_block body w
          ≡ collect (chains_in_block (ltb 0 w.loop_depth) body) (ttl_in_block body) w)
    → (v : FnVisitor)
    → leave_loop (visit_block body (visit_expr e (enter_loop v)))
      ≡ collect
          (chains_in (ltb 0 (v.loop_depth + 1)) e
            ++ chains_in_block (ltb 0 (v.loop_depth + 1)) body)
          (ttl_in e || ttl_in_block body)
          v
loop_round e body over inside v =
    leave_loop-collect
      (chains_in (ltb 0 (v.loop_depth + 1)) e ++ chains_in_block (ltb 0 (v.loop_depth + 1)) body)
      (ttl_in e || ttl_in_block body) v (visit_block body (visit_expr e (enter_loop v)))
      (in_turn (visit_block body) (λ d. chains_in_block (ltb 0 d) body) (ttl_in_block body) inside
        (chains_in (ltb 0 (v.loop_depth + 1)) e) (ttl_in e) (enter_loop v)
        (visit_expr e (enter_loop v)) (over (enter_loop v)))

mutual
  unfolding visit_expr chains_in ttl_in

  visit_expr-collect :
      (e : Expr) (v : FnVisitor)
      → visit_expr e v ≡ collect (chains_in (ltb 0 v.loop_depth) e) (ttl_in e) v
  visit_expr-collect (path segments) v = collect_nothing v
  visit_expr-collect (field base member) v = visit_expr-collect base v
  visit_expr-collect (struct_lit segments fields) v = visit_exprs-collect fields v
  visit_expr-collect (method_call start receiver method args) v =
      in_turn (λ w. visit_exprs args (visit_expr receiver w))
        (λ d. chains_in (ltb 0 d) receiver ++ chains_in_all (ltb 0 d) args)
        (ttl_in receiver || ttl_in_any args)
        (λ w.
          in_turn (visit_exprs args) (λ d. chains_in_all (ltb 0 d) args) (ttl_in_any args)
            (visit_exprs-collect args) (chains_in (ltb 0 w.loop_depth) receiver) (ttl_in receiver) w
            (visit_expr receiver w) (visit_expr-collect receiver w))
        (chains_here (ltb 0 v.loop_depth) start receiver method args) (is_ttl method) v
        (enter_method_call start receiver method args v)
        (enter_method_call-collect start receiver method args v)
  visit_expr-collect (call func args) v =
      in_turn (λ w. visit_exprs args (visit_expr func w))
        (λ d. chains_in (ltb 0 d) func ++ chains_in_all (ltb 0 d) args)
        (ttl_in func || ttl_in_any args)
        (λ w.
          in_turn (visit_exprs args) (λ d. chains_in_all (ltb 0 d) args) (ttl_in_any args)
            (visit_exprs-collect args) (chains_in (ltb 0 w.loop_depth) func) (ttl_in func) w
            (visit_expr func w) (visit_expr-collect func w))
        [] (names_ttl func) v (note_ttl (calls_ttl func) v) (calls_ttl-collect func v)
  visit_expr-collect (reference e) v = visit_expr-collect e v
  visit_expr-collect (closure inputs body) v = visit_expr-collect body v
  visit_expr-collect (index base at) v =
      in_turn (visit_expr at) (λ d. chains_in (ltb 0 d) at) (ttl_in at) (visit_expr-collect at)
        (chains_in (ltb 0 v.loop_depth) base) (ttl_in base) v (visit_expr base v)
        (visit_expr-collect base v)
  visit_expr-collect (lit value) v = collect_nothing v
  visit_expr-collect (for_loop over body) v =
      rw (in_loop v.loop_depth) at
        (loop_round over body (visit_expr-collect over) (visit_block-collect body) v)
  visit_expr-collect (while_loop condition body) v =
      rw (in_loop v.loop_depth) at
        (loop_round condition body (visit_expr-collect condition) (visit_block-collect body) v)
  visit_expr-collect (loop body) v = rw (in_loop v.loop_depth) at (
      leave_loop-collect (chains_in_block (ltb 0 (v.loop_depth + 1)) body) (ttl_in_block body) v
        (visit_block body (enter_loop v)) (visit_block-collect body (enter_loop v)))
  visit_expr-collect (block body) v = visit_block-collect body v
  visit_expr-collect (other children) v = visit_exprs-collect children v

  visit_exprs-collect :
      (es : Exprs) (v : FnVisitor)
      → visit_exprs es v ≡ collect (chains_in_all (ltb 0 v.loop_depth) es) (ttl_in_any es) v
  visit_exprs-collect none_left v = collect_nothing v
  visit_exprs-collect (and_then e es) v =
      in_turn (visit_exprs es) (λ d. chains_in_all (ltb 0 d) es) (ttl_in_any es)
        (visit_exprs-collect es) (chains_in (ltb 0 v.loop_depth) e) (ttl_in e) v (visit_expr e v)
        (visit_expr-collect e v)

  visit_block-collect :
      (b : Block) (v : FnVisitor)
      → visit_block b v ≡ collect (chains_in_block (ltb 0 v.loop_depth) b) (ttl_in_block b) v
  visit_block-collect end v = collect_nothing v
  visit_block-collect (stmt e rest) v =
      in_turn (visit_block rest) (λ d. chains_in_block (ltb 0 d) rest) (ttl_in_block rest)
        (visit_block-collect rest) (chains_in (ltb 0 v.loop_depth) e) (ttl_in e) v (visit_expr e v)
        (visit_expr-collect e v)
  visit_block-collect (fn_stmt args body rest) v =
      in_turn (visit_block rest) (λ d. chains_in_block (ltb 0 d) rest) (ttl_in_block rest)
        (visit_block-collect rest) (chains_in_block (ltb 0 v.loop_depth) body) (ttl_in_block body) v
        (visit_block body v) (visit_block-collect body v)

-- The walk collects exactly the storage calls in the body, each with whether a loop is around it,
-- in the order of the source: the calls of a storage method on a receiver along which `storage` and
-- the name of a lifecycle are called, with the lifecycle that is named nearest to the call. It finds
-- a TTL call exactly if the body has a method call of a TTL method's name, or a call of a path that
-- ends in one.
pub scan_fn-collect :
    (body : Block) (bindings : StringMap String) (self_type : Option String)
    → ((scan_fn body bindings self_type).chains ≡ chains_in_block false body)
      × ((scan_fn body bindings self_type).has_ttl_call ≡ ttl_in_block body)
unfolding scan_fn
scan_fn-collect body bindings self_type =
    let start : FnVisitor = record { chains = []; has_ttl_call = false; loop_depth = 0 } in
    let q = visit_block-collect body start in
    (ap (λ (v : FnVisitor). v.chains) q, ap (λ (v : FnVisitor). v.has_ttl_call) q)
