-- ===== src/Fs/Fat/Blocks.antt =====
-- Lists of distinct blocks of the FAT: appending them, and how long they can be.
use ecs150_project.Fs.Fat.Chain.{Distinct, InRange}
use ecs150_project.Prelude.{
  ℕ, zero, suc, ◌≤◌, ◌<◌, ◌≡◌, refl, ap, inl, inr, true, false, ◌||◌, List, [], ◌∷◌, ◌++◌, arith,
  if◌then◌else◌, ==→eq, ◌==◌, Bool-cases,
}
use ecs150_project.Prelude.Lists.{has, length}

pub has-append : (a : ℕ) (xs ys : List ℕ) → has a (xs ++ ys) ≡ (has a xs || has a ys)
has-append a [] ys = refl
has-append a (x ∷ xs) ys = ground (arith, has-append a xs ys)

pub Distinct-append :
    (xs ys : List ℕ)
    → Distinct xs
    → Distinct ys
    → ((j : ℕ) → has j xs ≡ true → has j ys ≡ false)
    → Distinct (xs ++ ys)
Distinct-append [] ys dx dy apart = dy
Distinct-append (x ∷ xs) ys dx dy apart = (
  ground (arith, has-append x xs ys, dx.0, apart x),
  Distinct-append xs ys dx.1 dy (λ j h. apart j (ground arith)),
)

pub InRange-append : (n : ℕ) (xs ys : List ℕ) → InRange n xs → InRange n ys → InRange n (xs ++ ys)
InRange-append n [] ys rx ry = ry
InRange-append n (x ∷ xs) ys rx ry = (rx.0, rx.1, InRange-append n xs ys rx.2 ry)

-- `xs` without `a`
drop_block : ℕ → List ℕ → List ℕ
drop_block a [] = []
drop_block a (x ∷ xs) = if a == x then xs else x ∷ drop_block a xs

has-drop_block : (a b : ℕ) (xs : List ℕ) → has b xs ≡ false → has b (drop_block a xs) ≡ false
unfolding drop_block
has-drop_block a b [] h = refl
has-drop_block a b (x ∷ xs) h = ground (arith, has-drop_block a b xs)

Distinct-drop_block : (a : ℕ) (xs : List ℕ) → Distinct xs → Distinct (drop_block a xs)
unfolding drop_block
Distinct-drop_block a [] d = tt
Distinct-drop_block a (x ∷ xs) d = elim (Bool-cases (a == x)) [
  | inl e ↦ rw e d.1
  | inr ne ↦ rw ne (has-drop_block a x xs d.0, Distinct-drop_block a xs d.1)
]

length-drop_block :
    (a : ℕ) (xs : List ℕ) → has a xs ≡ true → length xs ≡ suc (length (drop_block a xs))
unfolding drop_block
length-drop_block a [] h = ground arith
length-drop_block a (x ∷ xs) h = ground (arith, length-drop_block a xs)

abbrev Below : ℕ → List ℕ → Type 0
Below n [] = Unit {0}
Below n (x ∷ xs) = (x < n) × Below n xs

Below-pred : (n : ℕ) (xs : List ℕ) → Below (suc n) xs → has n xs ≡ false → Below n xs
Below-pred n [] h out = tt
Below-pred n (x ∷ xs) h out = (ground arith, Below-pred n xs h.1 (ground arith))

Below-drop_block :
    (n : ℕ) (xs : List ℕ) → Below (suc n) xs → Distinct xs → Below n (drop_block n xs)
unfolding drop_block
Below-drop_block n [] h d = tt
Below-drop_block n (x ∷ xs) h d = elim (Bool-cases (n == x)) [
  | inl e ↦ rw e (Below-pred n xs h.1 (ground (arith, d.0, ap (λ k. has k xs) (==→eq n x e))))
  | inr ne ↦ rw ne (ground arith, Below-drop_block n xs h.1 d.1)
]

-- The pigeonhole principle.
length-Below : (n : ℕ) (xs : List ℕ) → Below n xs → Distinct xs → length xs ≤ n
length-Below zero [] h d = omega arith
length-Below zero (x ∷ xs) h d = absurd (omega (arith, h.0))
length-Below (suc n) xs h d = elim (Bool-cases (has n xs)) [
  | inl inside ↦ omega (
    arith,
    length-drop_block n xs inside,
    length-Below n (drop_block n xs) (Below-drop_block n xs h d) (Distinct-drop_block n xs d),
  )
  | inr out ↦ omega (arith, length-Below n xs (Below-pred n xs h out) d)
]

InRange-Below : (n : ℕ) (xs : List ℕ) → InRange n xs → Below n xs
InRange-Below n [] h = tt
InRange-Below n (x ∷ xs) h = (h.1, InRange-Below n xs h.2)

-- A chain of distinct blocks is no longer than the FAT.
pub length-InRange : (n : ℕ) (xs : List ℕ) → InRange n xs → Distinct xs → length xs ≤ n
length-InRange n xs h d = length-Below n xs (InRange-Below n xs h) d

-- Entry 0 belongs to no chain.
pub has-zero : (n : ℕ) (xs : List ℕ) → InRange n xs → has 0 xs ≡ false
has-zero n [] r = refl
has-zero n (x ∷ xs) r = ground (arith, has-zero n xs r.2)
