-- ===== src/Fs/Fat.antt =====
-- The FAT in libfs/fs.c: the search for free entries, the growth of a file's chain, the walk to its
-- n-th block, and the loop of `fs_delete` that gives the blocks back.
-- A FAT is a table of 16-bit entries; `n` is `sb->num_data_blocks`.
pub mod Blocks
pub mod Allocate
pub mod Chain
pub mod Grow
pub mod Links
pub mod Release
use ecs150_project.Fs.State.{Table, eoc}
use ecs150_project.Prelude.{
  ℕ, zero, suc, ◌+◌, ◌-◌, Bool, true, false, Option, none, some, if◌then◌else◌, ◌==◌, update,
}
use ecs150_project.Prelude.Search.{find_first}

-- `for (i = 1; i < n; i++) if (fat[i] == 0)`: entry 0 is never handed out.
unfoldable pub find_free : ℕ → Table → Option ℕ
find_free n fat = find_first (λ i. fat i == 0) 1 (n - 1)

-- The walk to the last block of a chain, counting its blocks. `none`: the fuel ran out.
unfoldable pub walk_to_end : ℕ → Table → ℕ → ℕ → Option (ℕ × ℕ)
walk_to_end zero fat block_index num = none
walk_to_end (suc fuel) fat block_index num =
    let rest = walk_to_end fuel fat (fat block_index) (num + 1) in
    if fat block_index == eoc then some (block_index, num) else rest

-- `while (num_data_blocks < num_target_blocks)`: `missing` is the difference, which falls by one in
-- each round. The result says whether every block was found.
unfoldable pub extend_chain : ℕ → ℕ → Table → ℕ → Bool × Table
extend_chain zero n fat block_index = (true, fat)
extend_chain (suc missing) n fat block_index = elim (find_free n fat) [
  | none ↦ (false, fat)
  | some i ↦ extend_chain missing n (update (update fat block_index i) i eoc) i
]

-- What `allocate_blocks_in_fat` leaves: whether it returned 0, the FAT, and the file's first index.
pub record Allocated : Type 0 where
  pub success : Bool
  pub fat : Table
  pub first_index : ℕ

extend_from : ℕ → ℕ → ℕ → Table → ℕ → Option Allocated
extend_from fuel n target fat first = elim (walk_to_end fuel fat first 1) [
  | none ↦ none
  | some (last, num) ↦
      let (done, fat') = extend_chain (target - num) n fat last in
      some (record { success = done; fat = fat'; first_index = first })
]

-- `none`: the walk to the end of the chain does not end within `fuel` rounds.
unfoldable pub allocate_blocks : ℕ → ℕ → ℕ → Table → ℕ → Option Allocated
unfolding extend_from
allocate_blocks fuel n zero fat first =
    some (record { success = true; fat = fat; first_index = first })
allocate_blocks fuel n (suc target) fat first =
    if first == eoc
    then elim (find_free n fat) [
      | none ↦ some (record { success = false; fat = fat; first_index = first })
      | some i ↦ extend_from fuel n (suc target) (update fat i eoc) i
    ]
    else extend_from fuel n (suc target) fat first

-- `find_data_block`: the FAT index of block `block_num` of the chain from `block_index`.
unfoldable pub find_data_block : Table → ℕ → ℕ → ℕ
find_data_block fat block_index zero = block_index
find_data_block fat block_index (suc block_num) =
    let rest = find_data_block fat (fat block_index) block_num in
    if block_index == eoc then eoc else rest

-- The loop of `fs_delete`. It clears the entry before it reads the next index from it.
-- `none`: it does not end within `fuel` rounds.
unfoldable pub free_chain : ℕ → Table → ℕ → Option Table
free_chain zero fat block_index = none
free_chain (suc fuel) fat block_index =
    let fat' = update fat block_index 0 in
    let rest = free_chain fuel fat' (fat' block_index) in
    if fat block_index == eoc then some (update fat block_index 0) else rest
