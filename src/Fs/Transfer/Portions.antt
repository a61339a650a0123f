-- ===== src/Fs/Transfer/Portions.antt =====
-- The sizes of the three portions of a transfer: that they add up to the count.
use ecs150_project.Disk.State.{block_size}
use ecs150_project.Fs.Transfer.{num_full_blocks, find_num_target_blocks, full_start, first_amount}
use ecs150_project.Prelude.{
  ℕ, ◌+◌, ◌-◌, ◌*◌, ◌/◌, ◌%◌, ◌≤◌, ◌<◌, ◌≡◌, ◌≢◌, arith, if◌then◌else◌, ◌==◌,
}

-- What the first portion moves.
abbrev pub first_done : ℕ → ℕ → ℕ
first_done offset count = if offset % block_size == 0 then 0 else first_amount offset count

-- `num_full_blocks` in a transfer that goes on behind the first portion
abbrev pub full_blocks : ℕ → ℕ → ℕ
full_blocks offset count = num_full_blocks offset count (first_done offset count)

-- A transfer of at least one byte has as many full blocks as fit into what the first portion leaves.
pub num_full_blocks-first_done :
    (offset count : ℕ)
    → 0 < count
    → full_blocks offset count ≡ (count - first_done offset count) / block_size
unfolding num_full_blocks find_num_target_blocks
num_full_blocks-first_done offset count h = ground arith

-- How a transfer of `count` bytes, at least one, falls into its portions.
pub record Plan (offset count : ℕ) : Type 0 where
  -- the first block and the full blocks are among the target blocks
  pub first_target :
      offset % block_size ≢ 0 → offset / block_size < find_num_target_blocks offset count
  pub full_target :
      full_start offset + full_blocks offset count ≤ find_num_target_blocks offset count
  -- the full blocks start where the first portion ends
  pub full_place :
      0 < full_blocks offset count
      → full_start offset * block_size ≡ offset + first_done offset count
  -- what is left for the last portion is less than a block
  pub done_le : first_done offset count + full_blocks offset count * block_size ≤ count
  pub rest_lt : count < first_done offset count + full_blocks offset count * block_size + block_size
  -- and it is the beginning of the last target block
  pub last_target :
      first_done offset count + full_blocks offset count * block_size < count
      → find_num_target_blocks offset count - 1 < find_num_target_blocks offset count
  pub last_place :
      first_done offset count + full_blocks offset count * block_size < count
      → (find_num_target_blocks offset count - 1) * block_size
        ≡ offset + (first_done offset count + full_blocks offset count * block_size)

module _ (offset count : ℕ) (moves : 0 < count) where
  last_place_lem :
      first_done offset count + full_blocks offset count * block_size < count
      → (find_num_target_blocks offset count - 1) * block_size
        ≡ offset + (first_done offset count + full_blocks offset count * block_size)
  unfolding find_num_target_blocks
  last_place_lem h = ground (arith, num_full_blocks-first_done offset count moves)

  full_target_lem :
      full_start offset + full_blocks offset count ≤ find_num_target_blocks offset count
  unfolding find_num_target_blocks
  full_target_lem = ground (arith, num_full_blocks-first_done offset count moves)

  target_pos : 0 < find_num_target_blocks offset count
  unfolding find_num_target_blocks
  target_pos = ground arith

  first_target_lem :
      offset % block_size ≢ 0 → offset / block_size < find_num_target_blocks offset count
  unfolding find_num_target_blocks
  first_target_lem h = ground arith

  -- The three portions of a transfer of at least one byte make up the whole of it, each inside
  -- the blocks that `find_num_target_blocks` counts.
  pub Plan_lem : Plan offset count
  Plan_lem = record {
    first_target = first_target_lem;
    full_target = full_target_lem;
    full_place = λ h. ground (arith, num_full_blocks-first_done offset count moves);
    done_le = ground (arith, num_full_blocks-first_done offset count moves);
    rest_lt = ground (arith, num_full_blocks-first_done offset count moves);
    last_target = λ h. omega (arith, target_pos);
    last_place = last_place_lem;
  }
