-- ===== src/Linter/Run.antt =====
-- crates/soroban-storage-lints/src/lib.rs and src/main.rs: a lint run, its arguments and its exit
-- code. The parser and the file system are parameters.
pub mod Exit
pub mod Guarantee
use Prim.Native.Char.{Char, code}
use soroban_storage_the_on_c.Prelude.{
  ℕ, ◌-◌, Bool, true, false, not, ◌&&◌, ◌||◌, Option, none, some, List, [], ◌∷◌, ◌++◌, String,
  str_eq, any, map, keep_if, length, is_empty, get_elem?, ltb, if◌then◌else◌, ◌==◌, reverse,
  to_list, of_list, Result, ok, err, ◌>>=◌,
}
use soroban_storage_the_on_c.Linter.Words.{Unicode}
use soroban_storage_the_on_c.Linter.Model.{contains}
use soroban_storage_the_on_c.Linter.Resolve.{Panic, trim}
use soroban_storage_the_on_c.Linter.Rules.{Severity, error, warning, Message, RuleFinding}
use soroban_storage_the_on_c.Linter.Rules.RunAll.{run_all}
use soroban_storage_the_on_c.Linter.Scan.{Item, scan_file}

pub record LintOptions : Type 0 where
  pub deny_warnings : Bool
  pub ignored_rules : List String

pub record Finding : Type 0 where
  pub rule : String
  pub severity : Severity
  pub path : String
  pub line : ℕ
  pub column : ℕ
  pub message : Message
  pub snippet : String

-- `source.lines()`: what ends at a line feed, without a carriage return in front of it, and the
-- rest if there is one.
abbrev pub without_cr : List Char → List Char
without_cr [] = []
without_cr (c ∷ []) = if code c == 13 then [] else c ∷ []
without_cr (c ∷ d ∷ s) = c ∷ without_cr (d ∷ s)

abbrev pub lines_from : List Char → List Char → List (List Char)
lines_from current [] = if is_empty current then [] else current ∷ []
lines_from current (c ∷ s) =
    if code c == 10 then without_cr current ∷ lines_from [] s else lines_from (current ++ c ∷ []) s

abbrev pub lines : String → List (List Char)
lines source = lines_from [] (to_list source)

abbrev pub line_or_empty : Option (List Char) → List Char
line_or_empty none = []
line_or_empty (some line) = line

module _ (u : Unicode) where
  abbrev pub in_context : String → List (List Char) → RuleFinding → Finding
  in_context path source_lines rf = record {
    rule = rf.rule;
    severity = rf.severity;
    path = path;
    line = rf.line;
    column = rf.column;
    message = rf.message;
    snippet = of_list (trim u (line_or_empty (get_elem? source_lines (rf.line - 1))));
  }

module _ (u : Unicode) (parse_file : String → Option (List Item)) where
  unfoldable pub lint_source : String → String → LintOptions → Result Panic (List Finding)
  lint_source path source opts = elim (parse_file source) [
    | none ↦ ok []
    | some file ↦ do
      findings ← run_all u (scan_file u file) opts.ignored_rules
      ok (map (in_context u path (lines source)) findings)
  ]

  -- `read_to_string`, none if it fails.
  module _ (read_to_string : String → Option String) where
    -- `lint_file` and the loop of `main` over the files: one that cannot be read is passed over.
    unfoldable pub lint_files : List String → LintOptions → Result Panic (List Finding)
    lint_files [] opts = ok []
    lint_files (path ∷ rest) opts = elim (read_to_string path) [
      | none ↦ lint_files rest opts
      | some source ↦ do
        found ← lint_source path source opts
        more ← lint_files rest opts
        ok (found ++ more)
    ]

-- Where `main` ends, or the text that an option asks for.
pub data ArgsEnd : Type 0 where
  version help : ArgsEnd
  missing_rule : ArgsEnd
  unknown_option : String → ArgsEnd

pub record RunArgs : Type 0 where
  pub paths : List String
  pub opts : LintOptions
  pub json : Bool

abbrev pub starts_with_dash : List Char → Bool
starts_with_dash [] = false
starts_with_dash (c ∷ s) = code c == b'-'

-- An argument that takes no other.
abbrev pub one_arg : String → RunArgs → Result ArgsEnd RunArgs
one_arg arg args =
    if str_eq arg "--deny-warnings"
    then ok (record args { opts = record args.opts { deny_warnings = true } })
    else if str_eq arg "--json"
    then ok (record args { json = true })
    else if str_eq arg "--version"
    then err version
    else if str_eq arg "-h" || str_eq arg "--help"
    then err help
    else if starts_with_dash (to_list arg)
    then err (unknown_option arg)
    else ok (record args { paths = args.paths ++ arg ∷ [] })

abbrev pub ignore_rule : String → RunArgs → RunArgs
ignore_rule rule args = record args {
  opts = record args.opts { ignored_rules = rule ∷ args.opts.ignored_rules };
}

unfoldable pub args_loop : RunArgs → List String → Result ArgsEnd RunArgs
args_loop args [] = ok args
args_loop args (arg ∷ []) = if str_eq arg "--ignore" then err missing_rule else one_arg arg args
args_loop args (arg ∷ next ∷ rest) =
    let ignoring = args_loop (ignore_rule next args) rest in
    if str_eq arg "--ignore"
    then ignoring
    else (do args' ← one_arg arg args; args_loop args' (next ∷ rest))

abbrev pub initial_args : RunArgs
initial_args = record {
  paths = [];
  opts = record { deny_warnings = false; ignored_rules = [] };
  json = false;
}

-- `src` if it is a directory, where no path is given.
abbrev pub or_default_path : (is_dir : String → Bool) → RunArgs → RunArgs
or_default_path is_dir args =
    if is_empty args.paths
    then record args { paths = (if is_dir "src" then "src" else ".") ∷ [] }
    else args

unfoldable pub parse_args : (is_dir : String → Bool) → List String → Result ArgsEnd RunArgs
parse_args is_dir argv = do args ← args_loop initial_args argv; ok (or_default_path is_dir args)

abbrev pub is_error : Severity → Bool
is_error error = true
is_error warning = false

abbrev pub count : (Severity → Bool) → List Finding → ℕ
count p findings = length (keep_if (λ (f : Finding). p f.severity) findings)

unfoldable pub failed : LintOptions → List Finding → Bool
failed opts findings =
    ltb 0 (count is_error findings)
    || (opts.deny_warnings && ltb 0 (count (λ s. not (is_error s)) findings))

-- The exit code of a run.
unfoldable pub exit_code : LintOptions → List Finding → ℕ
unfolding failed
exit_code opts findings = if failed opts findings then 1 else 0

-- The exit code where the arguments end the run.
abbrev pub args_exit_code : ArgsEnd → ℕ
args_exit_code version = 0
args_exit_code help = 0
args_exit_code missing_rule = 2
args_exit_code (unknown_option arg) = 2
