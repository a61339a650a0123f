-- ===== src/Fs/Fat/Release.antt =====
-- The loop of `fs_delete` that frees a file's blocks. It clears an entry before it reads where the
-- entry leads, so the second round is always at entry 0.
use ecs150_project.Fs.Fat.{free_chain}
use ecs150_project.Fs.State.{Table, eoc}
use ecs150_project.Prelude.{
  ℕ, zero, suc, ◌≡◌, refl, ap, ◌≢◌, none, some, arith, ◌==◌, if◌then◌else◌, update,
}

free_chain-zero : (k : ℕ) (fat : Table) → fat 0 ≢ eoc → free_chain k fat 0 ≡ none
unfolding free_chain
free_chain-zero zero fat h = refl
free_chain-zero (suc k) fat h = ground (arith, free_chain-zero k (update fat 0 0) (ground arith))

-- the FAT after one round from `b`
abbrev cleared : Table → ℕ → Table
cleared fat b = update fat b 0

round-eq :
    (k : ℕ) (fat : Table) (b : ℕ)
    → free_chain k (cleared fat b) (cleared fat b b) ≡ free_chain k (cleared fat b) 0
round-eq k fat b = ap (free_chain k (cleared fat b)) (ground arith)

-- A chain of one block is freed as it should be.
pub free_chain-single :
    (k : ℕ) (fat : Table) (b : ℕ) → fat b ≡ eoc → free_chain (suc k) fat b ≡ some (update fat b 0)
unfolding free_chain
free_chain-single k fat b h = ground arith

-- From a block that is not the last of its chain, with the end mark in entry 0: the loop frees that
-- block and entry 0, which belongs to no file, and no other. The rest of the chain stays allocated.
pub free_chain-leaks :
    (k : ℕ) (fat : Table) (b : ℕ)
    → fat b ≢ eoc
    → fat 0 ≡ eoc
    → b ≢ 0
    → free_chain (suc (suc k)) fat b ≡ some (update (update fat b 0) 0 0)
unfolding free_chain
free_chain-leaks k fat b h z ne = ground (arith, round-eq (suc k) fat b)

-- If entry 0 has been cleared before, the loop does not end, whatever the fuel.
pub free_chain-diverges :
    (k : ℕ) (fat : Table) (b : ℕ) → fat b ≢ eoc → fat 0 ≢ eoc → free_chain k fat b ≡ none
unfolding free_chain
free_chain-diverges zero fat b h z = refl
free_chain-diverges (suc k) fat b h z =
    ground (arith, round-eq k fat b, free_chain-zero k (cleared fat b) (ground arith))

-- One round: the next one is at entry 0.
free_chain-suc :
    (k : ℕ) (fat : Table) (b : ℕ)
    → free_chain (suc k) fat b
      ≡ (if fat b == eoc then some (cleared fat b) else free_chain k (cleared fat b) 0)
unfolding free_chain
free_chain-suc k fat b = ground (arith, round-eq k fat b)

free_chain-second :
    (k : ℕ) (fat : Table)
    → free_chain (suc k) fat 0 ≡ (if fat 0 == eoc then some (cleared fat 0) else none)
unfolding free_chain
free_chain-second k fat = ground (arith, free_chain-zero (suc k) fat)

-- Two rounds decide: with more fuel the loop of `fs_delete` gives the same result, so it ends within
-- two rounds or never.
pub free_chain-fuel :
    (k : ℕ) (fat : Table) (b : ℕ) → free_chain (suc (suc k)) fat b ≡ free_chain 2 fat b
free_chain-fuel k fat b = ground (
  arith,
  free_chain-suc (suc k) fat b,
  free_chain-suc 1 fat b,
  free_chain-second k (cleared fat b),
  free_chain-second 0 (cleared fat b),
)
