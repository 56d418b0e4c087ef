-- ===== src/Prelude/Codes.antt =====
-- The characters of a text, as their numbers.
use Prim.Native.Nat.{ℕ}
use Prim.Native.Char.{Char, code}
use Prim.Native.String.{String}
use mathlib.Core.List.{List, [], ◌∷◌}

abbrev pub codes : String → List ℕ
codes String.[] = []
codes (String.◌∷◌ c s) = code c ∷ codes s

abbrev pub to_list : String → List Char
to_list String.[] = []
to_list (String.◌∷◌ c s) = c ∷ to_list s

abbrev pub of_list : List Char → String
of_list [] = String.[]
of_list (c ∷ s) = String.◌∷◌ c (of_list s)
