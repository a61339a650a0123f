-- ===== src/Fs/Transfer/Frame.antt =====
-- `write_portions`: however a write ends, and on any host, only blocks of the file have changed.
use ecs150_project.Disk.Access.{
  bcount-block_write, fd-block_write, byte_at, block_write, block_read, byte_at-block_write_other,
}
use ecs150_project.Disk.State.{Disk, Host, block_size}
use ecs150_project.Fs.Fat.{find_data_block}
use ecs150_project.Fs.State.{Table, eoc}
use ecs150_project.Fs.Transfer.{
  write_first, write_full, write_last, write_portions, ◌then_portion◌, Portion, num_full_blocks,
  returns, first_amount, goes_on, on_disk, find_num_target_blocks, full_start,
}
use ecs150_project.Prelude.{
  ℕ, zero, suc, ◌+◌, ◌-◌, ◌/◌, ◌%◌, ◌<◌, ◌≡◌, refl, ◌∙◌, ◌≢◌, arith, Bytes, memcpy,
}

module _ (host : Host) (fat : Table) (first start : ℕ) (bounce : Bytes) where
  -- `e` differs from `d` at most in the blocks of the file.
  pub record Kept (d e : Disk) : Type 0 where
    pub fd : e.fd ≡ d.fd
    pub bcount : e.bcount ≡ d.bcount
    pub outside :
        (b j : ℕ)
        → ((k : ℕ)
            → find_data_block fat first k ≢ eoc
            → b ≢ on_disk start (find_data_block fat first k))
        → j < block_size
        → byte_at e b j ≡ byte_at d b j

  Kept-refl : (d : Disk) → Kept d d
  Kept-refl d = record { fd = refl; bcount = refl; outside = λ b j apart lj. refl }

  Kept-trans : {d e f : Disk} → Kept d e → Kept e f → Kept d f
  Kept-trans p q = record {
    fd = q.fd ∙ p.fd;
    bcount = q.bcount ∙ p.bcount;
    outside = λ b j apart lj. q.outside b j apart lj ∙ p.outside b j apart lj;
  }

  -- A write into a block of the file keeps the others.
  Kept-block_write :
      (d : Disk) (k : ℕ) (src : Bytes) (from : ℕ)
      → find_data_block fat first k ≢ eoc
      → Kept d (block_write host d (on_disk start (find_data_block fat first k)) src from).1
  Kept-block_write d k src from present = record {
    fd = fd-block_write host d _ src from;
    bcount = bcount-block_write host d _ src from;
    outside = λ b j apart lj. byte_at-block_write_other host d _ src from b j (apart k present) lj;
  }

  -- the disk with which a portion ends
  abbrev pub left : Portion Disk → Disk
  left (returns r e) = e
  left (goes_on e n) = e

  module _ (buf : Bytes) (offset count : ℕ) where
    write_first-Kept :
        (d : Disk) → Kept d (left (write_first host fat first start bounce buf offset count d))
    unfolding write_first
    write_first-Kept d =
        let k = offset / block_size in
        let a = on_disk start (find_data_block fat first k) in
        let block = (block_read host d a bounce 0).1 in
        let src = memcpy block (offset % block_size) buf 0 (first_amount offset count) in
        record {
          fd = ground (arith, fd-block_write host d a src 0);
          bcount = ground (arith, bcount-block_write host d a src 0);
          outside =
              λ b j apart lj. ground (arith, byte_at-block_write_other host d a src 0 b j, apart k);
        }

    write_full-Kept :
        (n i : ℕ) (d : Disk) (done : ℕ)
        → Kept d (left (write_full host fat first start bounce buf offset count n i d done))
    unfolding write_full
    write_full-Kept zero i d done = Kept-refl d
    write_full-Kept (suc n) i d done =
        let a = on_disk start (find_data_block fat first i) in
        let e = (block_write host d a buf done).1 in
        let rest = write_full-Kept n (i + 1) e (done + block_size) in
        record {
          fd = ground (arith, fd-block_write host d a buf done, rest.fd);
          bcount = ground (arith, bcount-block_write host d a buf done, rest.bcount);
          outside = λ b j apart lj. ground (
            arith,
            byte_at-block_write_other host d a buf done b j,
            rest.outside b j apart lj,
            apart i,
          );
        }

    write_last-Kept :
        (d : Disk) (done : ℕ)
        → Kept d (left (write_last host fat first start bounce buf offset count d done))
    unfolding write_last
    write_last-Kept d done =
        let k = find_num_target_blocks offset count - 1 in
        let a = on_disk start (find_data_block fat first k) in
        let block = (block_read host d a bounce 0).1 in
        let src = memcpy block 0 buf done (count - done) in
        record {
          fd = ground (arith, fd-block_write host d a src 0);
          bcount = ground (arith, bcount-block_write host d a src 0);
          outside =
              λ b j apart lj. ground (arith, byte_at-block_write_other host d a src 0 b j, apart k);
        }

    Kept-then_portion :
        {d : Disk} (p : Portion Disk) (next : Disk → ℕ → Portion Disk)
        → Kept d (left p)
        → ((e : Disk) (n : ℕ) → Kept e (left (next e n)))
        → Kept d (left (p then_portion next))
    Kept-then_portion (returns r e) next k h = k
    Kept-then_portion (goes_on e n) next k h = Kept-trans k (h e n)

    abbrev full_part : Disk → ℕ → Portion Disk
    full_part e done =
        write_full host fat first start bounce buf offset count (num_full_blocks offset count done)
          (full_start offset) e done

    -- A write leaves every byte of the disk outside the blocks of the file as it was, also one that
    -- fails in the middle.
    pub write_portions-Kept :
        (d : Disk) → Kept d (left (write_portions host fat first start bounce buf offset count d))
    unfolding write_portions
    write_portions-Kept d =
        let p = write_first host fat first start bounce buf offset count d in
        Kept-then_portion (p then_portion full_part)
          (λ e done. write_last host fat first start bounce buf offset count e done)
          (Kept-then_portion p full_part (write_first-Kept d) (λ e done.
            write_full-Kept (num_full_blocks offset count done) (full_start offset) e done))
          (λ e done. write_last-Kept e done)
