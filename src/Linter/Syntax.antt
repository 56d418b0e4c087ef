-- ===== src/Linter/Syntax.antt =====
-- The parts of a parsed Rust file that crates/soroban-storage-lints/src/parse.rs tells apart. syn
-- makes them from the source; a node that the linter does not tell apart is `other`, over the
-- expressions below it in syn's order.
use soroban_storage_the_on_c.Prelude.{ℕ, Option, List, String}

-- A type, with its tokens as one text: a path with its segments, a reference, or another type.
pub data Ty : Type 0 where
  path_type : (segments : List String) (tokens : String) → Ty
  reference_type : (elem : Ty) (tokens : String) → Ty
  other_type : (tokens : String) → Ty

-- An argument of a function: a typed name, or a receiver or another pattern.
pub data FnArg : Type 0 where
  typed_ident : String → Ty → FnArg
  other_arg : FnArg

-- Rust's `line` and `column` of the first token.
pub record Start : Type 0 where
  pub line : ℕ
  pub column : ℕ

mutual
  pub data Expr : Type 0 where
    path : (segments : List String) → Expr
    field : (base : Expr) (member : String) → Expr
    struct_lit : (segments : List String) (fields : Exprs) → Expr
    method_call : (start : Start) (receiver : Expr) (method : String) (args : Exprs) → Expr
    call : (func : Expr) (args : Exprs) → Expr
    reference : Expr → Expr
    -- The type of each input that has one.
    closure : (inputs : List (Option Ty)) (body : Expr) → Expr
    index : (base : Expr) (at : Expr) → Expr
    -- A literal, with its value if it is an integer in the range of `u32`.
    lit : Option ℕ → Expr
    for_loop : (over : Expr) (body : Block) → Expr
    while_loop : (condition : Expr) (body : Block) → Expr
    loop : Block → Expr
    block : Block → Expr
    other : Exprs → Expr

  pub data Exprs : Type 0 where
    none_left : Exprs
    and_then : Expr → Exprs → Exprs

  pub data Block : Type 0 where
    end : Block
    stmt : Expr → Block → Block
    -- A function inside of the function.
    fn_stmt : List FnArg → Block → Block → Block
