-- ===== src/Fs/Calls/Written.antt =====
-- A complete `fs_write`: what the file holds afterwards.
use ecs150_project.Disk.State.{IsReliable, Disk, block_size, Host}
use ecs150_project.Fs.Calls.Geometry.{
  get_or-past, IsChain-HasBlock, on_disk-get_or, IsChain-separate, get_or-append, le-target,
  IsLaidOut,
}
use ecs150_project.Fs.Calls.Outcome.{final_state, grown_state, WriteDone, FileWritten, WriteShort}
use ecs150_project.Fs.Calls.Read.{HasChain, file_content}
use ecs150_project.Fs.Descriptors.Seek.{IsOpenAt}
use ecs150_project.Fs.Fat.{Allocated, find_data_block}
use ecs150_project.Fs.Fat.Allocate.{Allocation}
use ecs150_project.Fs.Fat.Chain.{find_data_block-get_or}
use ecs150_project.Fs.State.{FileDescriptor, State}
use ecs150_project.Fs.Transfer.{find_num_target_blocks, goes_on, write_portions}
use ecs150_project.Fs.Transfer.Read.{content}
use ecs150_project.Fs.Transfer.Write.{Written, write_portions-Written}
use ecs150_project.Fs.Transfer.Write.Short.{write_portions-ShortWrite, ShortWrite}
use ecs150_project.Prelude.{
  ℕ, ◌+◌, ◌-◌, ◌*◌, ◌/◌, ◌%◌, ◌≤◌, ◌<◌, ◌≡◌, refl, sym, ap, ◌∙◌, ◌≢◌, ◌⊎◌, inr, false, ◌&&◌, List,
  ◌++◌, arith, ltb, leb, if◌then◌else◌, Bytes,
}
use ecs150_project.Prelude.Lists.{length-append, length}

module _ (host : Host) (good : IsReliable host) (bounce : Bytes) {s : State} {fd : ℕ}
    {d : FileDescriptor} {bs : List ℕ} (laid : IsLaidOut s) (o : IsOpenAt s fd d)
    (c : HasChain s d.file bs) (buf : Bytes) (count : ℕ) (moves : 0 < count) where
  module _ (r : Allocated) (new : List ℕ)
      (a : Allocation s.sb.num_data_blocks
        (find_num_target_blocks d.offset count)
        s.fat
        bs
        r
        new) where
    pub portions :
        find_num_target_blocks d.offset count ≤ length (bs ++ new)
        → (e : Disk) × (write_portions host r.fat r.first_index s.sb.data_start_index bounce buf
              d.offset count s.disk
            ≡ goes_on e count)
          × Written host good r.fat r.first_index s.sb.data_start_index s.disk laid.opened bounce
              buf d.offset count
              (length (bs ++ new))
              e
              count
    portions enough =
        write_portions-Written host good r.fat r.first_index s.sb.data_start_index s.disk
          laid.opened bounce buf d.offset count (length (bs ++ new))
          (IsChain-HasBlock s.sb.data_start_index s.disk laid.fat_small laid.fits laid.small
            a.chain)
          (IsChain-separate s.sb.data_start_index s.disk laid.fat_small laid.fits laid.small
            a.chain)
          moves enough

    pub short_portions :
        length (bs ++ new) < find_num_target_blocks d.offset count
        → ShortWrite host good r.fat r.first_index s.sb.data_start_index s.disk laid.opened bounce
            buf d.offset count
            (length (bs ++ new))
            (IsChain-HasBlock s.sb.data_start_index s.disk laid.fat_small laid.fits laid.small
              a.chain)
            (IsChain-separate s.sb.data_start_index s.disk laid.fat_small laid.fits laid.small
              a.chain)
            (λ k h. find_data_block-get_or k a.chain ∙ get_or-past (bs ++ new) k h)
            (write_portions host r.fat r.first_index s.sb.data_start_index bounce buf d.offset count
              s.disk)
    short_portions short =
        write_portions-ShortWrite host good r.fat r.first_index s.sb.data_start_index s.disk
          laid.opened bounce buf d.offset count (length (bs ++ new))
          (IsChain-HasBlock s.sb.data_start_index s.disk laid.fat_small laid.fits laid.small
            a.chain)
          (IsChain-separate s.sb.data_start_index s.disk laid.fat_small laid.fits laid.small
            a.chain)
          (λ k h. find_data_block-get_or k a.chain ∙ get_or-past (bs ++ new) k h) moves short

    -- how a file that holds the first `n` bytes was written on the disk
    abbrev pub Stored : Disk → ℕ → Type 0
    Stored e n =
        Written host good r.fat r.first_index s.sb.data_start_index s.disk laid.opened bounce buf
          d.offset count (length (bs ++ new)) e n

    content-Written :
        (e : Disk) (n p : ℕ)
        → Stored e n
        → p < length (bs ++ new) * block_size
        → content r.fat r.first_index s.sb.data_start_index e p ≡ (
            if leb d.offset p && ltb p (d.offset + n)
            then buf (p - d.offset)
            else content r.fat r.first_index s.sb.data_start_index s.disk p)
    content-Written e n p w lt = ground (
      arith,
      w.inside (p / block_size) (p % block_size) (omega arith) (omega arith),
      ap buf (index p),
    )
      where
        index : (p : ℕ) → p / block_size * block_size + p % block_size - d.offset ≡ p - d.offset
        index p = omega arith

    -- The old blocks of the file are still its first ones.
    content-old :
        (p : ℕ)
        → p < length bs * block_size
        → content r.fat r.first_index s.sb.data_start_index s.disk p ≡ file_content s d.file p
    content-old p lt =
        let k = p / block_size in
        let same : find_data_block r.fat r.first_index k
            ≡ find_data_block s.fat (s.root d.file).first_index k =
          find_data_block-get_or k a.chain
          ∙ (get_or-append bs new k (omega arith) ∙ sym (find_data_block-get_or k c)) in
        rw same

    pub m-length : length (bs ++ new) ≡ length bs + length new
    m-length = length-append bs new

    blocks-cover :
        find_num_target_blocks d.offset count ≤ length (bs ++ new)
        → d.offset + count ≤ length (bs ++ new) * block_size
    blocks-cover enough = omega (arith, le-target d.offset count)

    written_lem :
        (e : Disk) (n k : ℕ)
        → d.offset + n ≤ length (bs ++ new) * block_size
        → Stored e n
        → k < n
        → content r.fat r.first_index s.sb.data_start_index e (d.offset + k) ≡ buf k
    written_lem e n k enough w lt =
        ground (arith, content-Written e n (d.offset + k) w (omega arith), ap buf (index k))
      where
        index : (k : ℕ) → d.offset + k - d.offset ≡ k
        index k = omega arith

    kept_lem :
        (e : Disk) (n p : ℕ)
        → Stored e n
        → p < length bs * block_size
        → (p < d.offset) ⊎ (d.offset + n ≤ p)
        → content r.fat r.first_index s.sb.data_start_index e p ≡ file_content s d.file p
    kept_lem e n p w lt out =
        ground (arith, content-Written e n p w (omega (arith, m-length)), content-old p lt)

    -- A state in which the file has the new blocks and the disk is the written one.
    FileWritten_lem :
        (s' : State) (n : ℕ)
        → s'.sb ≡ s.sb
        → s'.fat ≡ r.fat
        → (s'.root d.file).first_index ≡ r.first_index
        → ((f : ℕ) → f ≢ d.file → s'.root f ≡ s.root f)
        → (n ≡ 0) ⊎ (d.offset + n ≤ length (bs ++ new) * block_size)
        → Stored s'.disk n
        → FileWritten s s' d bs new buf n
    FileWritten_lem s' n sb fat first others enough w =
        let content_eq : (p : ℕ)
            → file_content s' d.file p
              ≡ content r.fat r.first_index s.sb.data_start_index s'.disk p =
          λ p. rw (sb, fat, first) in
        record {
          chain = rw (sb, fat, first) a.chain;
          free = a.free;
          fat_same = λ j out fresh. ap (λ t. t j) fat ∙ a.same j out fresh;
          written = λ k lt. content_eq (d.offset + k) ∙ written_lem s'.disk n k (omega arith) w lt;
          kept = λ p lt out. content_eq p ∙ kept_lem s'.disk n p w lt out;
          other_blocks = λ b j apart lj.
              w.outside b j
                (λ k lt q. apart k lt (
                  q
                  ∙ on_disk-get_or s.sb.data_start_index s.disk laid.fat_small laid.fits laid.small
                      a.chain k lt))
                lj;
          laid = record {
            opened = rw w.fd laid.opened;
            fat_small = rw sb laid.fat_small;
            fits = rw (sb, w.bcount) laid.fits;
            small = rw sb laid.small;
          };
          other_files = others;
        }

    pub WriteDone_lem :
        (e : Disk)
        → find_num_target_blocks d.offset count ≤ length (bs ++ new)
        → Stored e count
        → WriteDone s (final_state s fd d count r e) fd d bs new buf count
    WriteDone_lem e enough w = record {
      file =
          FileWritten_lem (final_state s fd d count r e) count refl refl (ground arith)
            (λ f ne. ground arith) (inr (blocks-cover enough)) w;
      covers = blocks-cover enough;
      opened = record { mounted = o.mounted; in_range = o.in_range; entry = ground arith };
      offset = refl;
      size = ground arith;
    }

    pub WriteShort_lem :
        (e : Disk) (n : ℕ)
        → r.success ≡ false
        → n < count
        → (d.offset + n ≡ length (bs ++ new) * block_size)
          ⊎ ((n ≡ 0) × (length (bs ++ new) * block_size ≤ d.offset))
        → Stored e n
        → WriteShort s (record (grown_state s d.file r) { disk = e }) d bs new buf count n
    WriteShort_lem e n stuck less covers w = record {
      file =
          FileWritten_lem (record (grown_state s d.file r) { disk = e }) n refl refl (ground arith)
            (λ f ne. ground arith) (ground arith) w;
      full = (a.short stuck).1;
      less = less;
      covers = covers;
      offset = refl;
      size = ground arith;
    }
