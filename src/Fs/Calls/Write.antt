-- ===== src/Fs/Calls/Write.antt =====
-- `fs_write` on a state: the file is written, or the FAT is full.
use ecs150_project.Disk.State.{IsReliable, Host}
use ecs150_project.Fs.Calls.{finish_write, fs_write}
use ecs150_project.Fs.Calls.Effect.{
  finish_write-returns, fs_write-finish_write, finish_write-goes_on,
}
use ecs150_project.Fs.Calls.Geometry.{IsLaidOut}
use ecs150_project.Fs.Calls.Outcome.{WriteDone, grown_state, WriteShort, final_state}
use ecs150_project.Fs.Calls.Read.{HasChain}
use ecs150_project.Fs.Calls.Written.{short_portions, WriteDone_lem, portions, WriteShort_lem}
use ecs150_project.Fs.Descriptors.Seek.{IsOpenAt}
use ecs150_project.Fs.Fat.Allocate.{allocate_blocks-Allocation}
use ecs150_project.Fs.State.{FileDescriptor, State}
use ecs150_project.Fs.Transfer.{find_num_target_blocks}
use ecs150_project.Prelude.{
  ℕ, ◌≤◌, ◌<◌, ◌≡◌, refl, ap, ◌∙◌, ◌⊎◌, inl, inr, some, List, ◌++◌, arith, Bool-cases, pos, ℤ,
  Bytes,
}
use ecs150_project.Prelude.Lists.{length-append, length}

module _ (host : Host) (good : IsReliable host) (bounce : Bytes) {s : State} {fd : ℕ}
    {d : FileDescriptor} {bs : List ℕ} (laid : IsLaidOut s) (o : IsOpenAt s fd d)
    (c : HasChain s d.file bs) (buf : Bytes) (count : ℕ) (moves : 0 < count) where
  -- What `fs_write` did: all that was asked for, or what it could until the FAT was full.
  abbrev pub WriteOutcome : ℤ × State → Type 0
  WriteOutcome (r, s') =
      ((r ≡ pos count) × ((new : List ℕ) × WriteDone s s' fd d bs new buf count))
      ⊎ ((n : ℕ) × (r ≡ pos n) × ((new : List ℕ) × WriteShort s s' d bs new buf count n))

  -- On a reliable host, `fs_write` of at least one byte through an open descriptor returns. Either it
  -- returns `count` and the file holds the user's bytes at the offset, as `WriteDone` says. Or no
  -- entry of the FAT is free any more, and it returns a smaller number: that of the bytes from the
  -- offset to the end of the file's last block, which the file then holds, or 0 if the offset is not
  -- before that end. The offset and the file size are then as before.
  pub fs_write-WriteOutcome :
      (res : ℤ × State) × (fs_write host bounce (pos fd) (some buf) count s ≡ some res)
      × WriteOutcome res
  fs_write-WriteOutcome =
      let (r, new, e, a) =
        allocate_blocks-Allocation s.sb.num_data_blocks (find_num_target_blocks d.offset count)
          s.fat (s.root d.file).first_index bs laid.fat_small c in
      elim (Bool-cases r.success) [
        | inl done ↦
            let enough : find_num_target_blocks d.offset count ≤ length (bs ++ new) =
              omega (arith, a.enough done, length-append bs new) in
            let (disk', eq, w) =
              portions host good bounce laid o c buf count moves r new a enough in
            (
              (pos count, final_state s fd d count r disk'),
              fs_write-finish_write host bounce laid o c buf count moves r e
                  ∙ (ap (λ p. some (finish_write host bounce (grown_state s d.file r) fd d p)) eq
                      ∙ ap some
                          (finish_write-goes_on host bounce laid o c buf count moves r disk')),
              inl (
                refl,
                (
                  new,
                  WriteDone_lem host good bounce laid o c buf count moves r new a disk' enough w,
                ),
              ),
            )
        | inr stuck ↦
            let p =
              short_portions host good bounce laid o c buf count moves r new a (a.short stuck).0 in
            (
              (pos p.done, record (grown_state s d.file r) { disk = p.after }),
              fs_write-finish_write host bounce laid o c buf count moves r e
                  ∙ (ap (λ q. some (finish_write host bounce (grown_state s d.file r) fd d q))
                        p.ended
                      ∙ ap some (
                          finish_write-returns host bounce laid o c buf count moves r p.after
                            p.done)),
              inr (
                p.done,
                refl,
                (
                  new,
                  WriteShort_lem host good bounce laid o c buf count moves r new a p.after p.done
                      stuck p.less p.covers p.stored,
                ),
              ),
            )
      ]
