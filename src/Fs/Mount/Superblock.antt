-- ===== src/Fs/Mount/Superblock.antt =====
-- `load_superblock`: which blocks it accepts.
-- The checks that a block must pass on a disk of `count` blocks.
use ecs150_project.Fs.Codec.{concatenate_two_bytes}
use ecs150_project.Fs.Mount.{load_superblock, first_nonzero}
use ecs150_project.Fs.State.{SuperBlock}
use ecs150_project.Prelude.{
  ℕ, ◌+◌, ◌-◌, ◌*◌, ◌%◌, ◌^◌, ◌≤◌, ◌<◌, ◌≡◌, ap, ◌∙◌, ◌≢◌, ◌↔◌, not, none, arith, Option-cases, pos,
  ◌==◌, Bytes,
}
use ecs150_project.Prelude.Search.{find_first-none, none-find_first}

-- two bytes, the low one first
abbrev pub word : ℕ → ℕ → ℕ
word low high = (low + 256 * high) % 2 ^ 16

pub concatenate_two_bytes-word : (low high : ℕ) → concatenate_two_bytes low high ≡ word low high
unfolding concatenate_two_bytes
concatenate_two_bytes-word low high = omega arith

pub record IsAccepted (count : ℕ) (buf : Bytes) : Type 0 where
  pub blocks : word (buf 8) (buf 9) ≡ count
  pub root_set : word (buf 10) (buf 11) ≢ 0
  pub data_set : word (buf 12) (buf 13) ≢ 0
  pub root_apart : word (buf 12) (buf 13) ≢ word (buf 10) (buf 11)
  pub data_fits : word (buf 14) (buf 15) < count
  pub fat_fits : buf 16 < count
  pub padding : (k : ℕ) → 17 ≤ k → k < 4096 → buf k ≡ 0

module _ (count : ℕ) (buf : Bytes) (sb0 : SuperBlock) where
  padding-none : ((k : ℕ) → 17 ≤ k → k < 4096 → buf k ≡ 0) → first_nonzero buf 17 4079 ≡ none
  padding-none zeros =
      none-find_first (λ i. not (buf (17 + i) == 0)) 0 4079
        (λ k lo hi. ground (arith, zeros (17 + k) (omega arith) (omega arith)))

  padding-zero : first_nonzero buf 17 4079 ≡ none → (k : ℕ) → 17 ≤ k → k < 4096 → buf k ≡ 0
  padding-zero missing k lo hi =
      let at : 17 + (k - 17) ≡ k = omega arith in
      ground (
        arith,
        find_first-none (λ i. not (buf (17 + i) == 0)) 0 4079 missing (k - 17) (omega arith)
            (omega arith),
        ap buf at,
      )

  load_superblock-accepts : IsAccepted count buf → (load_superblock (pos count) buf sb0).0 ≡ pos 0
  unfolding load_superblock
  load_superblock-accepts a = ground (
    arith,
    concatenate_two_bytes-word (buf 8) (buf 9),
    concatenate_two_bytes-word (buf 10) (buf 11),
    concatenate_two_bytes-word (buf 12) (buf 13),
    concatenate_two_bytes-word (buf 14) (buf 15),
    a.blocks,
    a.root_set,
    a.data_set,
    a.root_apart,
    a.data_fits,
    a.fat_fits,
    padding-none a.padding,
  )

  load_superblock-rejects : (load_superblock (pos count) buf sb0).0 ≡ pos 0 → IsAccepted count buf
  unfolding load_superblock
  load_superblock-rejects h = record {
    blocks = ground (arith, concatenate_two_bytes-word (buf 8) (buf 9));
    root_set = ground (arith, concatenate_two_bytes-word (buf 10) (buf 11));
    data_set = ground (arith, concatenate_two_bytes-word (buf 12) (buf 13));
    root_apart = ground (
      arith,
      concatenate_two_bytes-word (buf 10) (buf 11),
      concatenate_two_bytes-word (buf 12) (buf 13),
    );
    data_fits = ground (
      arith,
      concatenate_two_bytes-word (buf 8) (buf 9),
      concatenate_two_bytes-word (buf 14) (buf 15),
    );
    fat_fits = ground (arith, concatenate_two_bytes-word (buf 8) (buf 9));
    padding = padding-zero (ground (arith, Option-cases (first_nonzero buf 17 4079)));
  }

  -- `load_superblock` returns 0 for exactly those blocks that pass its checks.
  pub load_superblock-IsAccepted :
      ((load_superblock (pos count) buf sb0).0 ≡ pos 0) ↔ IsAccepted count buf
  load_superblock-IsAccepted = (load_superblock-rejects, load_superblock-accepts)

  -- The numbers that it takes from such a block.
  pub load_superblock-fields :
      IsAccepted count buf
      → ((load_superblock (pos count) buf sb0).1.root_index
          ≡ concatenate_two_bytes (buf 10) (buf 11))
        × ((load_superblock (pos count) buf sb0).1.data_start_index
            ≡ concatenate_two_bytes (buf 12) (buf 13))
        × ((load_superblock (pos count) buf sb0).1.num_data_blocks
            ≡ concatenate_two_bytes (buf 14) (buf 15))
        × ((load_superblock (pos count) buf sb0).1.num_fat_blocks ≡ buf 16)
  unfolding load_superblock
  load_superblock-fields a = ground (
    arith,
    concatenate_two_bytes-word (buf 8) (buf 9),
    concatenate_two_bytes-word (buf 10) (buf 11),
    concatenate_two_bytes-word (buf 12) (buf 13),
    concatenate_two_bytes-word (buf 14) (buf 15),
    a.blocks,
    a.root_set,
    a.data_set,
    a.root_apart,
    a.data_fits,
    a.fat_fits,
    padding-none a.padding,
  )

-- What the checks read lies in the bytes from 8 to 4095.
pub IsAccepted-same :
    (count : ℕ) (buf buf' : Bytes)
    → ((k : ℕ) → 8 ≤ k → k < 4096 → buf' k ≡ buf k)
    → IsAccepted count buf
    → IsAccepted count buf'
IsAccepted-same count buf buf' same a = record {
  blocks = rw (s 8 (omega arith) (omega arith), s 9 (omega arith) (omega arith)) a.blocks;
  root_set = rw (s 10 (omega arith) (omega arith), s 11 (omega arith) (omega arith)) a.root_set;
  data_set = rw (s 12 (omega arith) (omega arith), s 13 (omega arith) (omega arith)) a.data_set;
  root_apart =
      rw
        (
          s 10 (omega arith) (omega arith),
          s 11 (omega arith) (omega arith),
          s 12 (omega arith) (omega arith),
          s 13 (omega arith) (omega arith),
        )
        a.root_apart;
  data_fits = rw (s 14 (omega arith) (omega arith), s 15 (omega arith) (omega arith)) a.data_fits;
  fat_fits = rw (s 16 (omega arith) (omega arith)) a.fat_fits;
  padding = λ k lo hi. s k (omega arith) hi ∙ a.padding k lo hi;
}
  where
    s : (k : ℕ) → 8 ≤ k → k < 4096 → buf' k ≡ buf k
    s = same

-- The signature in the first 8 bytes plays no part: a block that differs from an accepted one there
-- only is accepted.
load_superblock-signature :
    (count : ℕ) (buf buf' : Bytes) (sb0 sb0' : SuperBlock)
    → ((k : ℕ) → 8 ≤ k → buf' k ≡ buf k)
    → (load_superblock (pos count) buf sb0).0 ≡ pos 0
    → (load_superblock (pos count) buf' sb0').0 ≡ pos 0
load_superblock-signature count buf buf' sb0 sb0' same h = load_superblock-accepts count buf' sb0' (
    IsAccepted-same count buf buf' (λ k lo hi. same k lo) (load_superblock-rejects count buf sb0 h))
