-- ===== src/Fs/Transfer/Read.antt =====
-- `read_portions`: a read of bytes whose blocks the file has delivers exactly these bytes.
use ecs150_project.Disk.Access.{IsOpen, byte_at, block_read-byte_at, block_read, block_read-ok}
use ecs150_project.Disk.State.{Disk, Host, IsReliable, block_size}
use ecs150_project.Fs.Fat.{find_data_block}
use ecs150_project.Fs.State.{Table, eoc}
use ecs150_project.Fs.Transfer.{
  read_first, read_full, read_last, on_disk, read_portions, full_start, goes_on, first_amount,
  Portion, find_num_target_blocks,
}
use ecs150_project.Fs.Transfer.Portions.{full_blocks, first_done, Plan_lem}
use ecs150_project.Prelude.{
  ℕ, zero, suc, ◌+◌, ◌-◌, ◌*◌, ◌/◌, ◌%◌, ◌≤◌, ◌<◌, ◌≡◌, ap, ◌≢◌, inl, inr, arith, ltb, ◌==◌, pos,
  if◌then◌else◌, Bool-cases, memcpy, Bytes,
}
use mathlib.Core.Path.{subst}

module _ (fat : Table) (first start : ℕ) (d : Disk) where
  -- The `p`-th byte of the file's blocks.
  abbrev pub content : ℕ → ℕ
  content p =
      byte_at d (on_disk start (find_data_block fat first (p / block_size))) (p % block_size)

  -- The file has a `k`-th block, and it lies on the disk.
  pub record HasBlock (k : ℕ) : Type 0 where
    pub present : find_data_block fat first k ≢ eoc
    pub in_range : on_disk start (find_data_block fat first k) < d.bcount

module _ (host : Host) (good : IsReliable host) (fat : Table) (first start : ℕ) (d : Disk) where
  module _ (opened : IsOpen d) (bounce : Bytes) (buf : Bytes) (offset count : ℕ) where
    -- the user's buffer when the first `done` bytes have arrived
    abbrev Filled : Bytes → ℕ → Type 0
    Filled b done =
        (k : ℕ) → b k ≡ (if ltb k done then content fat first start d (offset + k) else buf k)

    content-block :
        (i j p : ℕ)
        → i * block_size + j ≡ p
        → j < block_size
        → content fat first start d p ≡ byte_at d (on_disk start (find_data_block fat first i)) j
    content-block i j p e lt =
        let q : p / block_size ≡ i = omega arith in
        let r : p % block_size ≡ j = omega arith in rw (q, r)

    -- One `block_read` of the `i`-th block of the file.
    module _ (i : ℕ) (h : HasBlock fat first start d i) (b : Bytes) (to : ℕ) where
      read_ok : (block_read host d (on_disk start (find_data_block fat first i)) b to).0 ≡ pos 0
      read_ok = block_read-ok host good d _ opened h.in_range b to

      read_bytes :
          (k : ℕ)
          → (block_read host d (on_disk start (find_data_block fat first i)) b to).1 k
            ≡ memcpy b to (byte_at d (on_disk start (find_data_block fat first i))) 0 block_size k
      read_bytes k = block_read-byte_at host d _ b to k read_ok

    Filled-eq : (b : Bytes) (m n : ℕ) → m ≡ n → Filled b m → Filled b n
    Filled-eq b m n e f = subst (Filled b) e f

    -- After the block that holds the byte at `done` has been read there, a block more has arrived.
    Filled-read :
        (i : ℕ) (h : HasBlock fat first start d i) (b : Bytes) (done : ℕ)
        → i * block_size ≡ offset + done
        → Filled b done
        → Filled
            (block_read host d (on_disk start (find_data_block fat first i)) b done).1
            (done + block_size)
    Filled-read i h b done e f k =
        ground (arith, read_bytes i h b done k, f k, content-block i (k - done) (offset + k))

    -- What a portion leaves that goes on with `done` bytes moved.
    abbrev GoesOn : Portion Bytes → ℕ → Type 0
    GoesOn p done = (b : Bytes) × (p ≡ goes_on b done) × Filled b done

    read_full-GoesOn :
        (n i done : ℕ) (b : Bytes)
        → (0 < n → i * block_size ≡ offset + done)
        → ((k : ℕ) → k < i + n → HasBlock fat first start d k)
        → Filled b done
        → GoesOn
            (read_full host fat first start bounce d offset count n i b done)
            (done + n * block_size)
    unfolding read_full
    read_full-GoesOn zero i done b e h f =
        (b, ap (goes_on b) (omega arith), Filled-eq b done _ (omega arith) f)
    read_full-GoesOn (suc n) i done b e h f =
        let place : i * block_size ≡ offset + done = e (omega arith) in
        let hi = h i (omega arith) in
        let b1 = (block_read host d (on_disk start (find_data_block fat first i)) b done).1 in
        let (b', eq, f') =
          read_full-GoesOn n (i + 1) (done + block_size) b1 (λ m. omega arith)
            (λ k lt. h k (omega arith)) (Filled-read i hi b done place f) in
        (b', ground (arith, hi.present, read_ok i hi b done, eq), Filled-eq b' _ _ (omega arith) f')

    -- The first portion delivers the part of its block behind the offset.
    read_first-GoesOn :
        (0 < count)
        → (offset % block_size ≢ 0 → HasBlock fat first start d (offset / block_size))
        → GoesOn
            (read_first host fat first start bounce d offset count buf)
            (first_done offset count)
    unfolding read_first
    read_first-GoesOn moves h = elim (Bool-cases (offset % block_size == 0)) [
      | inl e ↦ (buf, ground arith, λ k. ground arith)
      | inr ne ↦
          let hi = h (ground arith) in
          let i = offset / block_size in
          let r = block_read host d (on_disk start (find_data_block fat first i)) bounce 0 in
          (
            memcpy buf 0 r.1 (offset % block_size) (first_amount offset count),
            ground (arith, hi.present, read_ok i hi bounce 0),
            λ k. ground (
              arith,
              read_bytes i hi bounce 0 (offset % block_size + (k - 0)),
              content-block i (offset % block_size + k) (offset + k),
            ),
          )
    ]

    -- The last portion delivers the beginning of its block.
    read_last-GoesOn :
        (done : ℕ) (b : Bytes)
        → done ≤ count
        → count < done + block_size
        → (done < count
            → HasBlock fat first start d (find_num_target_blocks offset count - 1)
              × ((find_num_target_blocks offset count - 1) * block_size ≡ offset + done))
        → Filled b done
        → GoesOn (read_last host fat first start bounce d offset count b done) count
    unfolding read_last
    read_last-GoesOn done b le lt h f = elim (Bool-cases (count == done)) [
      | inl e ↦ (b, ground arith, Filled-eq b done count (ground arith) f)
      | inr ne ↦
          let (hi, e) = h (ground arith) in
          let i = find_num_target_blocks offset count - 1 in
          let r = block_read host d (on_disk start (find_data_block fat first i)) bounce 0 in
          (
            memcpy b done r.1 0 (count - done),
            ground (arith, hi.present, read_ok i hi bounce 0),
            λ k. ground (
              arith,
              f k,
              read_bytes i hi bounce 0 (0 + (k - done)),
              content-block i (k - done) (offset + k),
            ),
          )
    ]

    -- `fs_read` of at least one byte, on a reliable host, for a file that has every block up to
    -- the end of the read: the portions run to the end, and the user's buffer holds the bytes of the
    -- file from the offset on, `count` of them, and behind these what it held before.
    pub read_portions-content :
        0 < count
        → ((k : ℕ) → k < find_num_target_blocks offset count → HasBlock fat first start d k)
        → (b : Bytes) × (read_portions host fat first start bounce d offset count buf
            ≡ goes_on b count)
          × ((k : ℕ)
              → b k ≡ (if ltb k count then content fat first start d (offset + k) else buf k))
    unfolding read_portions
    read_portions-content moves has_block =
        let plan = Plan_lem offset count moves in
        let n = full_blocks offset count in
        let done = first_done offset count in
        let (b1, e1, f1) =
          read_first-GoesOn moves (λ ne. has_block (offset / block_size) (plan.first_target ne)) in
        let (b2, e2, f2) =
          read_full-GoesOn n (full_start offset) done b1 plan.full_place
            (λ k lt. has_block k (omega (arith, plan.full_target))) f1 in
        let (b3, e3, f3) =
          read_last-GoesOn (done + n * block_size) b2 plan.done_le plan.rest_lt
            (λ lt. (has_block _ (plan.last_target lt), plan.last_place lt)) f2 in
        (b3, ground (arith, e1, e2, e3), f3)
