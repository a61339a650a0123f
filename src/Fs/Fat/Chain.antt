-- ===== src/Fs/Fat/Chain.antt =====
-- Chains in the FAT: which lists of blocks a first index stands for, and what the walks over a chain
-- return.
use ecs150_project.Fs.Fat.{find_data_block, walk_to_end}
use ecs150_project.Fs.State.{Table, eoc}
use ecs150_project.Prelude.{
  ℕ, zero, suc, ◌+◌, ◌<◌, ◌≡◌, refl, ◌≢◌, false, some, List, [], ◌∷◌, arith,
}
use ecs150_project.Prelude.Lists.{get_or, has, length}

-- From `b` the FAT leads through the blocks of the list, in order, to the end mark.
abbrev pub Links : Table → ℕ → List ℕ → Type 0
Links fat b [] = b ≡ eoc
Links fat b (x ∷ xs) = (b ≡ x) × (x ≢ eoc) × Links fat (fat x) xs

-- No block is there twice.
abbrev pub Distinct : List ℕ → Type 0
Distinct [] = Unit {0}
Distinct (x ∷ xs) = (has x xs ≡ false) × Distinct xs

-- Every block is one that the FAT can hand out.
abbrev pub InRange : ℕ → List ℕ → Type 0
InRange n [] = Unit {0}
InRange n (x ∷ xs) = (0 < x) × (x < n) × InRange n xs

-- A file's chain in a FAT of `n` entries.
pub record IsChain (n : ℕ) (fat : Table) (first : ℕ) (bs : List ℕ) : Type 0 where
  pub links : Links fat first bs
  pub distinct : Distinct bs
  pub in_range : InRange n bs

find_data_block-eoc : (fat : Table) (k : ℕ) → find_data_block fat eoc k ≡ eoc
unfolding find_data_block
find_data_block-eoc fat zero = refl
find_data_block-eoc fat (suc k) = refl

find_data_block-Links :
    (fat : Table) (bs : List ℕ) (first k : ℕ)
    → Links fat first bs
    → find_data_block fat first k ≡ get_or bs k eoc
unfolding find_data_block
find_data_block-Links fat [] first zero h = h
find_data_block-Links fat [] first (suc k) h = ground arith
find_data_block-Links fat (x ∷ xs) first zero h = h.0
find_data_block-Links fat (x ∷ xs) first (suc k) h =
    ground (arith, find_data_block-Links fat xs (fat x) k h.2)

-- `find_data_block` returns the `k`-th block of a chain, and the end mark past its last block.
pub find_data_block-get_or :
    {n : ℕ} {fat : Table} {first : ℕ} {bs : List ℕ} (k : ℕ)
    → IsChain n fat first bs
    → find_data_block fat first k ≡ get_or bs k eoc
find_data_block-get_or {fat} {first} {bs} k c = find_data_block-Links fat bs first k c.links

abbrev pub last_or : ℕ → List ℕ → ℕ
last_or d [] = d
last_or d (x ∷ xs) = last_or x xs

pub walk_to_end-Links :
    (fuel : ℕ) (fat : Table) (x num : ℕ) (xs : List ℕ)
    → Links fat (fat x) xs
    → length xs < fuel
    → walk_to_end fuel fat x num ≡ some (last_or x xs, num + length xs)
unfolding walk_to_end
walk_to_end-Links zero fat x num xs h lt = absurd (omega arith)
walk_to_end-Links (suc fuel) fat x num [] h lt = ground arith
walk_to_end-Links (suc fuel) fat x num (y ∷ ys) h lt =
    ground (arith, walk_to_end-Links fuel fat y (num + 1) ys h.2)
