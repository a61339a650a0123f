-- ===== src/Fs/Transfer/Zero.antt =====
-- `read_portions` for zero bytes that starts inside a block.
use ecs150_project.Disk.Access.{block_read-ok, IsOpen, byte_at, block_read-byte_at, block_read}
use ecs150_project.Disk.State.{Disk, block_size, IsReliable, Host}
use ecs150_project.Fs.Fat.{find_data_block}
use ecs150_project.Fs.State.{Table}
use ecs150_project.Fs.Transfer.{
  read_first, read_full, read_last, goes_on, first_amount, num_full_blocks, on_disk, read_portions,
  find_num_target_blocks, returns,
}
use ecs150_project.Fs.Transfer.Read.{HasBlock}
use ecs150_project.Prelude.{
  ℕ, zero, suc, ◌+◌, ◌-◌, ◌/◌, ◌%◌, ◌<◌, ◌≡◌, ap, ◌∙◌, ◌≢◌, arith, if◌then◌else◌, failure, pos, ltb,
  memcpy, Bytes,
}

module _ (host : Host) (good : IsReliable host) (fat : Table) (first start : ℕ) (d : Disk)
    (opened : IsOpen d) (bounce buf : Bytes) (offset : ℕ) (part : offset % block_size ≢ 0)
    (here : HasBlock fat first start d (offset / block_size))
    (next : HasBlock fat first start d (offset / block_size + 1)) where
  abbrev pub next_block : ℕ
  next_block = on_disk start (find_data_block fat first (offset / block_size + 1))

  first_zero : first_amount offset 0 ≡ 0
  first_zero = ground arith

  one_block : num_full_blocks offset 0 (first_amount offset 0) ≡ 1
  unfolding num_full_blocks find_num_target_blocks
  one_block = ground arith

  -- the buffer behind the first portion
  abbrev first_buf : Bytes
  first_buf =
      memcpy buf 0
        (block_read host d (on_disk start (find_data_block fat first (offset / block_size))) bounce
          0).1
        (offset % block_size) (first_amount offset 0)

  next_ok : (block_read host d next_block first_buf (first_amount offset 0)).0 ≡ pos 0
  next_ok =
      block_read-ok host good d next_block opened next.in_range first_buf (first_amount offset 0)

  first_part :
      read_first host fat first start bounce d offset 0 buf
      ≡ goes_on first_buf (first_amount offset 0)
  unfolding read_first
  first_part = ground (
    arith,
    here.present,
    block_read-ok host good d (on_disk start (find_data_block fat first (offset / block_size)))
        opened here.in_range bounce 0,
  )

  abbrev second_buf : Bytes
  second_buf = (block_read host d next_block first_buf (first_amount offset 0)).1

  full_part :
      (n : ℕ)
      → n ≡ 1
      → read_full host fat first start bounce d offset 0 n
          (offset / block_size + 1)
          first_buf
          (first_amount offset 0)
        ≡ goes_on second_buf (first_amount offset 0 + block_size)
  unfolding read_full
  full_part zero e = absurd (omega arith)
  full_part (suc zero) e = ground (arith, next.present, next_ok)
  full_part (suc (suc n)) e = absurd (omega arith)

  last_part :
      (b : Bytes) (done : ℕ)
      → 0 < done
      → read_last host fat first start bounce d offset 0 b done ≡ returns failure b
  unfolding read_last
  last_part b done some_done = ground arith

  -- The first portion reads its block and copies nothing; but then the loop over the full blocks makes a
  -- round, so the next block of the file is read into the buffer, and the end returns -1.
  pub read_portions-zero :
      (b : Bytes) × (read_portions host fat first start bounce d offset 0 buf ≡ returns failure b)
      × ((k : ℕ) → b k ≡ (if ltb k block_size then byte_at d next_block k else buf k))
  unfolding read_portions
  read_portions-zero = (
    second_buf,
    ground (
      arith,
      first_part,
      full_part _ one_block,
      last_part second_buf (first_amount offset 0 + block_size) (omega arith),
    ),
    λ k.
        block_read-byte_at host d next_block first_buf (first_amount offset 0) k next_ok
        ∙ ground (arith, ap (byte_at d next_block) (shift k)),
  )
    where
      shift : (k : ℕ) → 0 + (k - first_amount offset 0) ≡ k
      shift k = omega (arith, first_zero)
