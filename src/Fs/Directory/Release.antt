-- ===== src/Fs/Directory/Release.antt =====
-- The loop of `fs_delete` over the FAT, from the first block of a file on.
use ecs150_project.Fs.Directory.{release_blocks}
use ecs150_project.Fs.Fat.Chain.{IsChain}
use ecs150_project.Fs.Fat.Release.{free_chain-single, free_chain-diverges, free_chain-leaks}
use ecs150_project.Fs.State.{Table, eoc}
use ecs150_project.Prelude.{
  ℕ, ◌≤◌, ◌≡◌, refl, ◌≢◌, none, some, List, [], ◌∷◌, arith, if◌then◌else◌, update,
}
use ecs150_project.Prelude.Lists.{has, length}

pub release_blocks-short :
    (n : ℕ) (fat : Table) (first : ℕ) (bs : List ℕ)
    → IsChain n fat first bs
    → length bs ≤ 1
    → (fat' : Table) × (release_blocks fat first ≡ some fat')
      × ((j : ℕ) → fat' j ≡ (if has j bs then 0 else fat j))
unfolding release_blocks
release_blocks-short n fat first [] c short = (fat, ground (arith, c.links), λ j. refl)
release_blocks-short n fat first (x ∷ []) c short = (
  update fat first 0,
  ground (arith, c.links, free_chain-single 1 fat first (rw c.links.0 c.links.2)),
  λ j. ground (arith, c.links),
)
release_blocks-short n fat first (x ∷ y ∷ ys) c short = absurd (omega arith)

module _ {n : ℕ} {fat : Table} {first b x : ℕ} {xs : List ℕ}
    (c : IsChain n fat first (b ∷ x ∷ xs)) where
  long_chain : (first ≢ eoc) × (fat first ≢ eoc) × (first ≢ 0)
  long_chain = (
    rw c.links.0 c.links.1,
    rw (c.links.0, c.links.2.0) c.links.2.1,
    omega (arith, c.links.0, c.in_range.0),
  )

  pub release_blocks-leaks :
      fat 0 ≡ eoc → release_blocks fat first ≡ some (update (update fat first 0) 0 0)
  unfolding release_blocks
  release_blocks-leaks z =
      ground (arith, long_chain, free_chain-leaks 0 fat first long_chain.1 z long_chain.2)

  pub release_blocks-diverges : fat 0 ≢ eoc → release_blocks fat first ≡ none
  unfolding release_blocks
  release_blocks-diverges z =
      ground (arith, long_chain, free_chain-diverges 2 fat first long_chain.1 z)
