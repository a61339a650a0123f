-- ===== src/Fs/Directory/Report.antt =====
-- `fs_info` and `fs_ls`: what their output says of the root directory.
-- An update at one index changes a count by that index.
use ecs150_project.Disk.Lifecycle.{block_disk_count}
use ecs150_project.Fs.Directory.{list_from, count_if, fs_create, Info, fs_info, fs_ls}
use ecs150_project.Fs.Directory.Create.{fs_create-CreateResult}
use ecs150_project.Fs.Names.{is_filename_invalid, IsCString, CString, write_name}
use ecs150_project.Fs.Names.Match.{write_name-below}
use ecs150_project.Fs.State.{File, State, file_max_count}
use ecs150_project.Prelude.{
  ℕ, zero, suc, ◌+◌, ◌<◌, ◌≡◌, refl, sym, ap, ◌∙◌, ◌≢◌, inl, inr, Bool, true, false, some, [], ◌∷◌,
  arith, if◌then◌else◌, ==→eq, Bool-cases, pos, ◌==◌, update, Bytes,
}
use ecs150_project.Prelude.Lists.{length}

count_if-same :
    (test test' : ℕ → Bool) (n : ℕ)
    → ((k : ℕ) → k < n → test' k ≡ test k)
    → count_if test' n ≡ count_if test n
unfolding count_if
count_if-same test test' zero same = refl
count_if-same test test' (suc n) same =
    ground (arith, count_if-same test test' n (λ k lt. same k (omega arith)), same n)

count_if-cleared :
    (test test' : ℕ → Bool) (n i : ℕ)
    → i < n
    → ((k : ℕ) → k ≢ i → test' k ≡ test k)
    → test i ≡ true
    → test' i ≡ false
    → count_if test n ≡ count_if test' n + 1
unfolding count_if
count_if-cleared test test' zero i lt same hit miss = absurd (omega arith)
count_if-cleared test test' (suc n) i lt same hit miss = elim (Bool-cases (i == n)) [
  | inl e ↦ ground (
    arith,
    count_if-same test test' n (λ k below. same k (ground arith)),
    ap test (==→eq i n e),
    ap test' (==→eq i n e),
  )
  | inr ne ↦ ground (arith, count_if-cleared test test' n i, same n)
]

-- A count from its first index on.
count_if-head :
    (test : ℕ → Bool) (n : ℕ)
    → count_if test (suc n) ≡ (if test 0 then 1 else 0) + count_if (λ k. test (suc k)) n
unfolding count_if
count_if-head test zero = ground arith
count_if-head test (suc n) = ground (arith, count_if-head test n)

list_from-count_if :
    (n i : ℕ) (root : ℕ → File)
    → length (list_from n i root) + count_if (λ k. (root (i + k)).filename 0 == 0) n ≡ n
unfolding list_from count_if
list_from-count_if zero i root = refl
list_from-count_if (suc n) i root = ground (
  arith,
  count_if-head (λ k. (root (i + k)).filename 0 == 0) n,
  count_if-same (λ k. (root (i + 1 + k)).filename 0 == 0) (λ k. (root (i + suc k)).filename 0 == 0)
      n (λ k lt. ap (λ q. (root q).filename 0 == 0) (omega arith)),
  list_from-count_if n (i + 1) root,
  ap (λ q. (root q).filename 0) (unit i),
)
  where
    unit : (i : ℕ) → i + 0 ≡ i
    unit i = omega arith

write_name-head : (c : ℕ) (cs : CString) (buf : Bytes) → write_name (c ∷ cs) 0 buf 0 ≡ c
unfolding write_name
write_name-head c cs buf = write_name-below cs 1 0 (update buf 0 c) (omega arith) ∙ ground arith

-- The first byte of a valid name is stored, and is not NUL.
write_name-ne_zero :
    (name : CString) (buf : Bytes)
    → IsCString name
    → is_filename_invalid (some name) ≡ false
    → write_name name 0 buf 0 ≢ 0
unfolding is_filename_invalid
write_name-ne_zero [] buf text valid z = absurd (ground arith)
write_name-ne_zero (c ∷ cs) buf text valid z = text.0 (sym (write_name-head c cs buf) ∙ z)

-- what `fs_info` prints when a disk is mounted
abbrev info_of : State → Info
info_of s = record {
  total_blk_count = block_disk_count s.disk;
  fat_blk_count = s.sb.num_fat_blocks;
  rdir_blk = s.sb.root_index;
  data_blk = s.sb.data_start_index;
  data_blk_count = s.sb.num_data_blocks;
  free_fat_entries = count_if (λ i. s.fat i == 0) s.sb.num_data_blocks;
  free_root_entries = count_if (λ i. (s.root i).filename 0 == 0) file_max_count;
}

fs_info-info_of : (s : State) → s.is_disk_mounted ≡ true → fs_info s ≡ some (info_of s)
unfolding fs_info
fs_info-info_of s m = ground arith

-- A `fs_create` that returns 0 makes `fs_info` print one free root entry less, and the same number of
-- free FAT entries.
pub fs_info-fs_create :
    (name : CString) (s s' : State)
    → IsCString name
    → fs_create (some name) s ≡ (pos 0, s')
    → (info : Info) × (info' : Info) × (fs_info s ≡ some info)
      × (fs_info s' ≡ some info')
      × (info.free_root_entries ≡ info'.free_root_entries + 1)
      × (info.free_fat_entries ≡ info'.free_fat_entries)
fs_info-fs_create name s s' text e =
    let (z, (i, c)) = rw e at (fs_create-CreateResult name s) in
    let stored : (s'.root i).filename 0 ≢ 0 =
      rw c.after (λ q. write_name-ne_zero name (s.root i).filename text c.valid (ground arith)) in
    (
      info_of s,
      info_of s',
      fs_info-info_of s c.mounted,
      fs_info-info_of s' (rw c.after c.mounted),
      count_if-cleared (λ k. (s.root k).filename 0 == 0) (λ k. (s'.root k).filename 0 == 0)
          file_max_count i c.in_range (λ k ne. rw c.after (ground arith))
          (ground (arith, c.was_empty)) (ground arith),
      rw c.after refl,
    )

-- The lines that `fs_ls` prints and the free root entries that `fs_info` prints add up to the 128 entries of
-- the root directory.
pub fs_ls-fs_info :
    (s : State) (info : Info)
    → fs_info s ≡ some info
    → length (fs_ls s).1 + info.free_root_entries ≡ file_max_count
unfolding fs_ls fs_info
fs_ls-fs_info s info e = ground (
  arith,
  list_from-count_if file_max_count 0 s.root,
  count_if-same (λ k. (s.root k).filename 0 == 0) (λ k. (s.root (0 + k)).filename 0 == 0)
      file_max_count (λ k lt. ap (λ q. (s.root q).filename 0 == 0) (omega arith)),
)
