-- ===== src/Linter/Decl.antt =====
-- crates/soroban-storage-lints/src/parse.rs, `parse_storage_decl`: the linter's own reading of a
-- `storage!` block, from the entries that syn has split it into.
pub mod Valued
pub mod Agreement
pub mod Examples
use soroban_storage_the_on_c.Prelude.{
  ℕ, Bool, true, false, ◌||◌, Option, none, some, List, [], ◌∷◌, String, str_eq, if◌then◌else◌, map,
}
use soroban_storage_the_on_c.Storage.Lifecycle.{Lifecycle, temporary, persistent, instance}
use soroban_storage_the_on_c.Macro.Tokens.{Token, ident, eq, comma, bool_lit, other, Attribute}

pub record StorageDecl : Type 0 where
  pub lifecycle : Lifecycle
  pub variant : String
  pub critical : Bool
  pub value_type : String
  pub line : ℕ
  pub column : ℕ

-- A parsed entry, with the position of its name and the spelling of its value type.
pub record RawDecl : Type 0 where
  pub attrs : List Attribute
  pub name : String
  pub value_type : String
  pub line : ℕ
  pub column : ℕ

abbrev pub Meta : Type 0
Meta = Option Lifecycle × Bool

-- The `match` on an identifier.
unfoldable pub read_word : Meta → String → Meta
read_word (lc, cr) kw =
    if str_eq kw "persistent"
    then (some persistent, cr)
    else if str_eq kw "temporary"
    then (some temporary, cr)
    else if str_eq kw "instance"
    then (some instance, cr)
    else if str_eq kw "critical"
    then (lc, true)
    else (lc, cr)

-- The loop over the tokens of an attribute: an identifier if there is one, then a comma or the
-- end. What is left behind it comes back too.
unfoldable pub read_words : Meta → List Token → Meta × List Token
read_words m (ident kw ∷ comma ∷ rest) = read_words (read_word m kw) rest
read_words m (ident kw ∷ rest) = (read_word m kw, rest)
read_words m (comma ∷ rest) = read_words m rest
read_words m rest = (m, rest)

-- `parse_args_with` is an error if tokens are left.
abbrev pub whole : Meta × List Token → Option Meta
whole (m, []) = some m
whole (m, t ∷ rest) = none

unfoldable pub read_attr : List Token → Option Meta
unfolding read_words read_word
read_attr tokens = whole (read_words (none, false) tokens)

abbrev pub keep_first : Option Lifecycle → Option Lifecycle → Option Lifecycle
keep_first none new = new
keep_first (some lc) new = some lc

-- The body of the loop over the attributes, for a `storage` attribute.
abbrev pub merge_meta : Meta → Option Meta → Meta
merge_meta m none = m
merge_meta (lc, cr) (some (lc', cr')) = (keep_first lc lc', cr || cr')

-- `attr.parse_args_with(…)`, which refuses an attribute without parentheses.
abbrev pub read_delimited : Option (List Token) → Option Meta
read_delimited none = none
read_delimited (some tokens) = read_attr tokens

unfoldable pub read_attrs : Meta → List Attribute → Meta
unfolding read_attr
read_attrs m [] = m
read_attrs m (a ∷ attrs) =
    read_attrs (if str_eq a.path "storage" then merge_meta m (read_delimited a.args) else m) attrs

abbrev pub or_persistent : Option Lifecycle → Lifecycle
or_persistent none = persistent
or_persistent (some lc) = lc

unfoldable pub decl_of : RawDecl → StorageDecl
unfolding read_attrs
decl_of d =
    let (lc, cr) = read_attrs (none, false) d.attrs in
    record {
      lifecycle = or_persistent lc;
      variant = d.name;
      critical = cr;
      value_type = d.value_type;
      line = d.line;
      column = d.column;
    }

unfoldable pub parse_storage_decl : List RawDecl → List StorageDecl
unfolding decl_of
parse_storage_decl = map decl_of
