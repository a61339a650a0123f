-- ===== src/Fs/Fat/Links.antt =====
-- What the links of a chain say of its blocks, and of a chain that grows at its end.
use ecs150_project.Fs.Fat.Chain.{InRange, Distinct, Links, last_or}
use ecs150_project.Fs.State.{eoc, Table}
use ecs150_project.Prelude.{
  ℕ, ◌≡◌, sym, ap, ◌∙◌, ◌≢◌, inl, inr, true, List, [], ◌∷◌, ◌++◌, arith, ==→eq, Bool-cases, ◌==◌,
}
use ecs150_project.Prelude.Lists.{has}
use mathlib.Core.Bool.{false≢true}

-- The last block of a chain carries the end mark.
pub last_or-eoc :
    (fat : Table) (x : ℕ) (xs : List ℕ) → Links fat (fat x) xs → fat (last_or x xs) ≡ eoc
last_or-eoc fat x [] h = h
last_or-eoc fat x (y ∷ ys) h = last_or-eoc fat y ys h.2

pub has-last_or : (x : ℕ) (xs : List ℕ) → has (last_or x xs) (x ∷ xs) ≡ true
has-last_or x [] = ground arith
has-last_or x (y ∷ ys) = ground (arith, has-last_or y ys)

-- No block of a chain is marked as free.
pub Links-ne_zero :
    (n : ℕ) (fat : Table) (b j : ℕ) (bs : List ℕ)
    → Links fat b bs
    → InRange n bs
    → has j bs ≡ true
    → fat j ≢ 0
Links-ne_zero n fat b j [] h r inside = absurd (false≢true inside)
Links-ne_zero n fat b j (x ∷ xs) h r inside = elim (Bool-cases (j == x)) [
  | inl e ↦ λ z. Links-head n fat x xs h.2 r.2 (sym (ap fat (==→eq j x e)) ∙ z)
  | inr ne ↦ Links-ne_zero n fat (fat x) j xs h.2 r.2 (ground arith)
]
  where
    Links-head :
        (n : ℕ) (fat : Table) (x : ℕ) (xs : List ℕ)
        → Links fat (fat x) xs
        → InRange n xs
        → fat x ≢ 0
    Links-head n fat x [] h r z = omega arith
    Links-head n fat x (y ∷ ys) h r z = omega arith

-- A chain that is left alone but at its last block goes on where that block leads to.
pub Links-grow :
    (fat fat' : Table) (x : ℕ) (xs new : List ℕ)
    → Links fat (fat x) xs
    → Distinct (x ∷ xs)
    → ((j : ℕ) → has j (x ∷ xs) ≡ true → j ≢ last_or x xs → fat' j ≡ fat j)
    → Links fat' (fat' (last_or x xs)) new
    → Links fat' (fat' x) (xs ++ new)
Links-grow fat fat' x [] new h d same tail = tail
Links-grow fat fat' x (y ∷ ys) new h d same tail = (
  ground (arith, same x, last_ne),
  h.1,
  Links-grow fat fat' y ys new h.2 d.1 (λ j inside. same j (ground arith)) tail,
)
  where
    last_ne : x ≢ last_or y ys
    last_ne e = ground (arith, has-last_or y ys, d.0, ap (λ k. has k (y ∷ ys)) e)
