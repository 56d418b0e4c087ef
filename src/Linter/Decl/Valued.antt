-- ===== src/Linter/Decl/Valued.antt =====
-- An attribute in which an option has a value is lost on the linter: its loop stops at the `=`.
use soroban_storage_the_on_c.Prelude.{◌≡◌, refl, false, none, List, [], ◌∷◌, ◌++◌}
use soroban_storage_the_on_c.Storage.Lifecycle.{persistent}
use soroban_storage_the_on_c.Macro.Tokens.{Token, ident, eq, comma}
use soroban_storage_the_on_c.Macro.Merge.{storage_attr}
use soroban_storage_the_on_c.Linter.Decl.{RawDecl, Meta, read_word, read_words, whole, decl_of}

-- The loop never passes an `=`.
read_words-eq :
    (m : Meta) (before after : List Token) → whole (read_words m (before ++ eq ∷ after)) ≡ none
unfolding read_words
read_words-eq m [] after = refl
read_words-eq m (ident kw ∷ comma ∷ before) after = read_words-eq (read_word m kw) before after
read_words-eq m (ident kw ∷ []) after = refl
read_words-eq m (ident kw ∷ t ∷ before) after = refl
read_words-eq m (comma ∷ before) after = read_words-eq m before after
read_words-eq m (t ∷ before) after = refl

-- An entry whose one attribute is a `storage` attribute with an `=` in it, wherever it stands, is
-- taken by the linter for a persistent entry that is not critical, whatever else the attribute
-- says.
pub decl_of-loses_valued :
    (d : RawDecl) (before after : List Token)
    → d.attrs ≡ storage_attr (before ++ eq ∷ after) ∷ []
    → ((decl_of d).lifecycle ≡ persistent) × ((decl_of d).critical ≡ false)
unfolding decl_of
decl_of-loses_valued d before after h =
    rw (h, read_words-eq (none, false) before after) (refl, refl)
