-- ===== src/Linter/Rules/Loops.antt =====
-- The loops of crates/soroban-storage-lints/src/rules.rs over functions and chains.
use mathlib.Core.Path.{subst}
use soroban_storage_the_on_c.Prelude.{
  ◌≡◌, refl, List, [], ◌∷◌, ◌++◌, All, All-append, Elem, head, tail, Elem-append_left,
  Elem-append_right, ok, ◌>>=◌, bind-ok, IsOk,
}
use soroban_storage_the_on_c.Linter.Rules.{RuleFinding, Found, for_each}

-- Two successes, one after the other.
pub both-ok :
    (first second : Found) (found more : List RuleFinding)
    → first ≡ ok found
    → second ≡ ok more
    → (first >>= λ xs. second >>= λ ys. ok (xs ++ ys)) ≡ ok (found ++ more)
both-ok first second found more q q' = rw (q, q') refl

module _ {A : Type 0} (check : A → Found) where
  -- What a successful loop was made of.
  pub for_each-cons :
      (a : A) (rest : List A) (out : List RuleFinding)
      → for_each check (a ∷ rest) ≡ ok out
      → (found more : List RuleFinding) × (check a ≡ ok found)
        × (for_each check rest ≡ ok more)
        × (found ++ more ≡ out)
  unfolding for_each
  for_each-cons a rest out q =
      let (found, q1, q') = bind-ok (check a) _ q in
      let (more, q2, q3) = bind-ok (for_each check rest) _ q' in (found, more, q1, q2, cc)

  pub for_each-All :
      {P : RuleFinding → Type 0}
      → ((a : A) (found : List RuleFinding) → check a ≡ ok found → All P found)
      → (items : List A) (out : List RuleFinding) → for_each check items ≡ ok out
      → All P out
  unfolding for_each
  for_each-All {P} each [] out q = let done : [] ≡ out = cc in subst (All P) done tt
  for_each-All {P} each (a ∷ rest) out q =
      let (found, more, q1, q2, q3) = for_each-cons a rest out q in
      subst (All P) q3 (All-append P found more (each a found q1) (for_each-All each rest more q2))

  -- What one round finds is among what the loop finds.
  pub for_each-Elem :
      (a : A) (items : List A) (out found : List RuleFinding) (x : RuleFinding)
      → for_each check items ≡ ok out
      → Elem a items
      → check a ≡ ok found
      → Elem x found
      → Elem x out
  for_each-Elem a [] out found x q at q' e = elim at [ ]
  for_each-Elem a (b ∷ rest) out found x q head q' e =
      let (found', more, q1, q2, q3) = for_each-cons a rest out q in
      let same : found ≡ found' = cc in
      subst (Elem x) q3 (Elem-append_left found' more (subst (Elem x) same e))
  for_each-Elem a (b ∷ rest) out found x q (tail at) q' e =
      let (found', more, q1, q2, q3) = for_each-cons b rest out q in
      subst (Elem x) q3
        (Elem-append_right found' more (for_each-Elem a rest more found x q2 at q' e))

  pub for_each-IsOk :
      (items : List A) → All (λ a. IsOk (check a)) items → IsOk (for_each check items)
  unfolding for_each
  for_each-IsOk [] fine = ([], refl)
  for_each-IsOk (a ∷ rest) ((found, q), fine) =
      let (more, q') = for_each-IsOk rest fine in (found ++ more, rw (q, ◌>>=◌, q') refl)
