-- ===== src/Fs/Layout/Chains.antt =====
-- What a change of the FAT leaves of the chains of the other files.
use ecs150_project.Fs.Fat.Chain.{Links, IsChain}
use ecs150_project.Fs.Fat.Grow.{not-has-Free, Free}
use ecs150_project.Fs.Fat.Links.{Links-ne_zero}
use ecs150_project.Fs.State.{eoc, Table}
use ecs150_project.Prelude.{
  ℕ, ◌≡◌, refl, ap, ◌∙◌, ◌≢◌, inl, inr, true, false, List, [], ◌∷◌, arith, ◌==◌, Bool-cases, ==→eq,
}
use ecs150_project.Prelude.Lists.{has}
use mathlib.Core.Bool.{false≢true}

Links-same :
    (fat fat' : Table) (b : ℕ) (bs : List ℕ)
    → Links fat b bs
    → ((j : ℕ) → has j bs ≡ true → fat' j ≡ fat j)
    → Links fat' b bs
Links-same fat fat' b [] l same = l
Links-same fat fat' b (x ∷ xs) l same = (
  l.0,
  l.1,
  rw (same x (ground arith)) (Links-same fat fat' (fat x) xs l.2 (λ j h. same j (ground arith))),
)

-- A chain none of whose entries has changed is still there.
pub IsChain-same :
    {n : ℕ} {fat fat' : Table} {first : ℕ} {bs : List ℕ}
    → IsChain n fat first bs
    → ((j : ℕ) → has j bs ≡ true → fat' j ≡ fat j)
    → IsChain n fat' first bs
IsChain-same {fat} {fat'} {first} {bs} c same = record {
  links = Links-same fat fat' first bs c.links same;
  distinct = c.distinct;
  in_range = c.in_range;
}

-- The empty chain.
pub IsChain-nil : (n : ℕ) (fat : Table) → IsChain n fat eoc []
IsChain-nil n fat = record { links = refl; distinct = tt; in_range = tt }

-- No block of a chain is free.
pub IsChain-ne_zero :
    {n : ℕ} {fat : Table} {first : ℕ} {bs : List ℕ} (j : ℕ)
    → IsChain n fat first bs
    → has j bs ≡ true
    → fat j ≢ 0
IsChain-ne_zero {n} {fat} {first} {bs} j c inside =
    Links-ne_zero n fat first j bs c.links c.in_range inside

-- So free blocks are not in it.
pub has-Free : (fat : Table) (j : ℕ) (new : List ℕ) → Free fat new → has j new ≡ true → fat j ≡ 0
has-Free fat j [] free inside = absurd (false≢true inside)
has-Free fat j (x ∷ xs) free inside = elim (Bool-cases (j == x)) [
  | inl e ↦ ap fat (==→eq j x e) ∙ free.0
  | inr ne ↦ has-Free fat j xs free.1 (ground arith)
]

-- A block is not both in a chain and free.
pub IsChain-apart :
    {n : ℕ} {fat : Table} {first : ℕ} {bs : List ℕ} (new : List ℕ) (j : ℕ)
    → IsChain n fat first bs
    → Free fat new
    → has j bs ≡ true
    → has j new ≡ false
IsChain-apart {fat} new j c free inside = not-has-Free fat j new free (IsChain-ne_zero j c inside)
