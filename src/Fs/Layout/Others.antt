-- ===== src/Fs/Layout/Others.antt =====
-- A write to one file leaves the contents of the others.
use ecs150_project.Disk.State.{Host, block_size}
use ecs150_project.Fs.Calls.{fs_write}
use ecs150_project.Fs.Calls.Effect.{fs_write-WriteEffect, WriteEffect}
use ecs150_project.Fs.Calls.Geometry.{get_or-past, has-get_or, on_disk-get_or}
use ecs150_project.Fs.Calls.Read.{HasChain, file_content}
use ecs150_project.Fs.Descriptors.Seek.{guarded_entry-IsOpenAt, IsOpenAt}
use ecs150_project.Fs.Fat.{find_data_block, Allocated}
use ecs150_project.Fs.Fat.Allocate.{Allocation}
use ecs150_project.Fs.Fat.Chain.{IsChain, find_data_block-get_or}
use ecs150_project.Fs.Layout.{Layout, IsNamed}
use ecs150_project.Fs.Layout.Chains.{IsChain-same}
use ecs150_project.Fs.Layout.Write.{other_same, written_chain, other_apart}
use ecs150_project.Fs.State.{
  State, FileDescriptor, open_max_count, file_max_count, guarded_entry, eoc,
}
use ecs150_project.Fs.Transfer.{on_disk}
use ecs150_project.Prelude.{
  ℕ, ◌*◌, ◌/◌, ◌%◌, ◌<◌, ◌≡◌, sym, ap, ◌∙◌, ◌≢◌, inl, inr, true, false, some, List, ◌++◌, arith,
  ltb, Bool-cases, pos, ◌==◌, ℤ, Bytes,
}
use ecs150_project.Prelude.Lists.{length, has, get_or}
use mathlib.Core.Bool.{false≢true}

module _ (host : Host) (bounce : Bytes) {s : State} {blocks : ℕ → List ℕ} {fd : ℕ}
    {d : FileDescriptor} (l : Layout s blocks) (o : IsOpenAt s fd d) (lt_fd : fd < open_max_count)
    {s' : State} {r : Allocated} {new : List ℕ} {target : ℕ}
    (a : Allocation s.sb.num_data_blocks target s.fat (blocks d.file) r new)
    (w : WriteEffect s s' d.file r) (g : ℕ) (lt : g < file_max_count) (named : IsNamed s g)
    (ne : g ≢ d.file) where
  chain_g : HasChain s g (blocks g)
  chain_g = l.chains g lt named

  block_g : ℕ → ℕ
  block_g k = on_disk s.sb.data_start_index (find_data_block s.fat (s.root g).first_index k)

  -- A block of the other file is none of the written one's.
  block-apart :
      (k k' : ℕ)
      → k < length (blocks g)
      → find_data_block r.fat r.first_index k' ≢ eoc
      → block_g k ≢ on_disk s.sb.data_start_index (find_data_block r.fat r.first_index k')
  unfolding block_g
  block-apart k k' inside present q = elim (Bool-cases (ltb k' (length (blocks d.file ++ new)))) [
    | inr past ↦
        present
          (find_data_block-get_or k' a.chain ∙ get_or-past (blocks d.file ++ new) k' (ground arith))
    | inl within ↦
        let j = get_or (blocks g) k eoc in
        let j' = get_or (blocks d.file ++ new) k' eoc in
        let e =
          on_disk-get_or s.sb.data_start_index s.disk l.laid.fat_small l.laid.fits l.laid.small
            chain_g k inside in
        let e' =
          on_disk-get_or s.sb.data_start_index s.disk l.laid.fat_small l.laid.fits l.laid.small
            a.chain k' (ground arith) in
        let same : j' ≡ j = omega (arith, q, e, e') in
        let out : has j (blocks d.file ++ new) ≡ false =
          other_apart host bounce l o lt_fd a w g j lt named ne (has-get_or (blocks g) k inside) in
        let within_j : has j' (blocks d.file ++ new) ≡ true =
          has-get_or (blocks d.file ++ new) k' (ground arith) in
        false≢true (sym out ∙ (ap (λ b. has b (blocks d.file ++ new)) (sym same) ∙ within_j))
  ]

  -- so its contents are what they were
  pub file_content-other :
      (p : ℕ) → p < length (blocks g) * block_size → file_content s' g p ≡ file_content s g p
  unfolding block_g
  file_content-other p inside =
      let k = p / block_size in
      let c' : IsChain s.sb.num_data_blocks s'.fat (s.root g).first_index (blocks g) =
        IsChain-same chain_g (λ j h. other_same host bounce l o lt_fd a w g j lt named ne h) in
      let same : find_data_block s'.fat (s.root g).first_index k
          ≡ find_data_block s.fat (s.root g).first_index k =
        find_data_block-get_or k c' ∙ sym (find_data_block-get_or k chain_g) in
      rw (w.others g ne, w.sb, same)
        (w.outside (block_g k) (p % block_size)
          (λ k' present. block-apart k k' (omega arith) present) (omega arith))

-- `fs_write` through a descriptor of one file leaves all bytes in the blocks of every other file as
-- they were, however it ends and on any host.
pub file_content-fs_write :
    (host : Host) (bounce : Bytes) (buf : Bytes) (count : ℕ) {s s' : State} {blocks : ℕ → List ℕ}
    {fd : ℕ} {d : FileDescriptor} {res : ℤ}
    → Layout s blocks
    → IsOpenAt s fd d
    → fd < open_max_count
    → fs_write host bounce (pos fd) (some buf) count s ≡ some (res, s')
    → (g p : ℕ) → g < file_max_count
    → IsNamed s g
    → g ≢ d.file
    → p < length (blocks g) * block_size
    → file_content s' g p ≡ file_content s g p
unfolding fs_write guarded_entry
file_content-fs_write host bounce buf count {s} {s'} l o lt_fd e g p lt named ne inside =
    elim (Bool-cases (count == 0)) [
      | inl none_moves ↦
          let same : s ≡ s' = ground (arith, e, guarded_entry-IsOpenAt o) in
          ap (λ t. file_content t g p) (sym same)
      | inr moves ↦
          let (out, q, new, e', a, w) =
            fs_write-WriteEffect host bounce l.laid o (written_chain host bounce l o lt_fd) buf
              count (ground arith) in
          let same : out.1 ≡ s' = ground (arith, e, e') in
          ap (λ t. file_content t g p) (sym same)
          ∙ file_content-other host bounce l o lt_fd a w g lt named ne p inside
    ]
