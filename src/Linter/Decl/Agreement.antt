-- ===== src/Linter/Decl/Agreement.antt =====
-- The linter and the macro read an attribute that holds only plain words alike.
use soroban_storage_the_on_c.Prelude.{
  ℕ, zero, suc, ◌<◌, ◌≡◌, refl, true, false, Option, some, List, [], ◌∷◌, String, arith, length, ok,
}
use soroban_storage_the_on_c.Storage.Lifecycle.{Lifecycle, temporary, persistent, instance, as_str}
use soroban_storage_the_on_c.Macro.Tokens.{Token, ident, comma}
use soroban_storage_the_on_c.Macro.Options.{
  StorageOpts, initial_opts, parse_option, parse_loop, parse_args,
}
use soroban_storage_the_on_c.Linter.Decl.{Meta, read_word, read_words, read_attr}

-- The options of an attribute that are one word.
pub data Flag : Type 0 where
  lifecycle : Lifecycle → Flag
  critical auto_bump no_bump : Flag

abbrev pub word : Flag → String
word (lifecycle lc) = as_str lc
word critical = "critical"
word auto_bump = "auto_bump"
word no_bump = "no_bump"

-- The tokens of the words, with commas between them.
abbrev pub tokens_of : List Flag → List Token
tokens_of [] = []
tokens_of (f ∷ []) = ident (word f) ∷ []
tokens_of (f ∷ g ∷ fs) = ident (word f) ∷ comma ∷ tokens_of (g ∷ fs)

module _ {Expr : Type 0} (p : List Token → Option (Expr × List Token)) where
  -- What a word does to the macro's options.
  abbrev set_flag : StorageOpts Expr → Flag → StorageOpts Expr
  set_flag o (lifecycle lc) = record o { lifecycle = some lc }
  set_flag o critical = record o { critical = true }
  set_flag o auto_bump = record o { auto_bump = true }
  set_flag o no_bump = record o { auto_bump = false }

  abbrev set_flags : StorageOpts Expr → List Flag → StorageOpts Expr
  set_flags o [] = o
  set_flags o (f ∷ fs) = set_flags (set_flag o f) fs

  parse_last :
      (o : StorageOpts Expr) (f : Flag) → parse_option p o (word f) [] ≡ ok (set_flag o f, [])
  unfolding parse_option
  parse_last o (lifecycle temporary) = refl
  parse_last o (lifecycle persistent) = refl
  parse_last o (lifecycle instance) = refl
  parse_last o critical = refl
  parse_last o auto_bump = refl
  parse_last o no_bump = refl

  parse_flag :
      (o : StorageOpts Expr) (f : Flag) (rest : List Token)
      → parse_option p o (word f) (comma ∷ rest) ≡ ok (set_flag o f, comma ∷ rest)
  unfolding parse_option
  parse_flag o (lifecycle temporary) rest = refl
  parse_flag o (lifecycle persistent) rest = refl
  parse_flag o (lifecycle instance) rest = refl
  parse_flag o critical rest = refl
  parse_flag o auto_bump rest = refl
  parse_flag o no_bump rest = refl

  parse_flags :
      (fuel : ℕ) (o : StorageOpts Expr) (fs : List Flag)
      → length (tokens_of fs) < fuel
      → parse_loop p fuel o (tokens_of fs) ≡ ok (set_flags o fs, [])
  unfolding parse_loop
  parse_flags zero o fs h = absurd (omega arith)
  parse_flags (suc fuel) o [] h = refl
  parse_flags (suc fuel) o (f ∷ []) h = rw parse_last
  parse_flags (suc fuel) o (f ∷ g ∷ fs) h =
      rw parse_flag (parse_flags fuel (set_flag o f) (g ∷ fs) (omega arith))

  abbrev meta_of : StorageOpts Expr → Meta
  meta_of o = (o.lifecycle, o.critical)

  read_flag :
      (o : StorageOpts Expr) (f : Flag) → read_word (meta_of o) (word f) ≡ meta_of (set_flag o f)
  unfolding read_word
  read_flag o (lifecycle temporary) = refl
  read_flag o (lifecycle persistent) = refl
  read_flag o (lifecycle instance) = refl
  read_flag o critical = refl
  read_flag o auto_bump = refl
  read_flag o no_bump = refl

  read_flags :
      (o : StorageOpts Expr) (fs : List Flag)
      → read_words (meta_of o) (tokens_of fs) ≡ (meta_of (set_flags o fs), [])
  unfolding read_words
  read_flags o [] = refl
  read_flags o (f ∷ []) = rw read_flag
  read_flags o (f ∷ g ∷ fs) = rw read_flag (read_flags (set_flag o f) (g ∷ fs))

  -- For every list of plain words, separated by commas, the macro parses the attribute, and the
  -- linter reads the same lifecycle and the same criticality from it.
  pub read_attr-parse_args :
      (fs : List Flag)
      → (o : StorageOpts Expr) × (parse_args p (tokens_of fs) ≡ ok o)
        × (read_attr (tokens_of fs) ≡ some (o.lifecycle, o.critical))
  unfolding parse_args read_attr
  read_attr-parse_args fs = (
    set_flags initial_opts fs,
    rw (parse_flags (suc (length (tokens_of fs))) initial_opts fs (omega arith)),
    rw (read_flags initial_opts fs),
  )
