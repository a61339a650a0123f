-- ===== src/Fs/Persist/Chains.antt =====
-- The numbers in a chain: how large they are.
use ecs150_project.Fs.Fat.Chain.{InRange, Links, IsChain}
use ecs150_project.Fs.State.{eoc, Table}
use ecs150_project.Prelude.{
  ℕ, ◌^◌, ◌≤◌, ◌<◌, ◌≡◌, refl, sym, ap, ◌∙◌, inl, inr, true, List, [], ◌∷◌, arith, ◌==◌, Bool-cases,
  ==→eq,
}
use ecs150_project.Prelude.Lists.{has}
use mathlib.Core.Bool.{false≢true}
use mathlib.Core.Path.{subst}

Links-small :
    (n : ℕ) (fat : Table) (b j : ℕ) (bs : List ℕ)
    → n ≤ eoc
    → Links fat b bs
    → InRange n bs
    → has j bs ≡ true
    → fat j < 2 ^ 16
Links-small n fat b j (x ∷ []) small l r inside = elim (Bool-cases (j == x)) [
  | inl e ↦ omega (arith, ap fat (==→eq j x e), l.2)
  | inr ne ↦ absurd (ground arith)
]
Links-small n fat b j (x ∷ y ∷ ys) small l r inside = elim (Bool-cases (j == x)) [
  | inl e ↦ omega (arith, ap fat (==→eq j x e), l.2.0, r.2.1)
  | inr ne ↦ Links-small n fat (fat x) j (y ∷ ys) small l.2 r.2 (ground arith)
]
Links-small n fat b j [] small l r inside = absurd (false≢true inside)

-- every entry of a chain
pub IsChain-small :
    {n : ℕ} {fat : Table} {first : ℕ} {bs : List ℕ} (j : ℕ)
    → n ≤ eoc
    → IsChain n fat first bs
    → has j bs ≡ true
    → fat j < 2 ^ 16
IsChain-small {n} {fat} {first} {bs} j small c inside =
    Links-small n fat first j bs small c.links c.in_range inside

-- and its first index
pub IsChain-first :
    {n : ℕ} {fat : Table} {first : ℕ} (bs : List ℕ)
    → n ≤ eoc
    → IsChain n fat first bs
    → first < 2 ^ 16
IsChain-first [] small c = omega (arith, c.links)
IsChain-first (x ∷ xs) small c = omega (arith, c.links.0, c.in_range.1)

-- The blocks of a chain are entries of the FAT.
pub InRange-has : (n j : ℕ) (bs : List ℕ) → InRange n bs → has j bs ≡ true → j < n
InRange-has n j [] r inside = absurd (false≢true inside)
InRange-has n j (x ∷ xs) r inside = elim (Bool-cases (j == x)) [
  | inl e ↦ omega (arith, ==→eq j x e, r.1)
  | inr ne ↦ InRange-has n j xs r.2 (ground arith)
]

Links-unique : (fat : Table) (b : ℕ) (xs ys : List ℕ) → Links fat b xs → Links fat b ys → xs ≡ ys
Links-unique fat b [] [] l l' = refl
Links-unique fat b [] (y ∷ ys) l l' = absurd (l'.1 (sym l'.0 ∙ l))
Links-unique fat b (x ∷ xs) [] l l' = absurd (l.1 (sym l.0 ∙ l'))
Links-unique fat b (x ∷ xs) (y ∷ ys) l l' =
    let same : x ≡ y = sym l.0 ∙ l'.0 in
    let rest =
      Links-unique fat (fat x) xs ys l.2 (subst (λ z. Links fat (fat z) ys) (sym same) l'.2) in
    cc

-- A first index stands for one chain.
pub IsChain-unique :
    {n : ℕ} {fat : Table} {first : ℕ} {xs ys : List ℕ}
    → IsChain n fat first xs
    → IsChain n fat first ys
    → xs ≡ ys
IsChain-unique {fat} {first} {xs} {ys} c c' = Links-unique fat first xs ys c.links c'.links
