-- ===== src/Disk/Access.antt =====
-- `block_read` and `block_write` of libfs/disk.c, and what they do to the bytes of a block.
use ecs150_project.Disk.State.{Disk, IsReliable, Host, block_size}
use ecs150_project.Prelude.{
  ℕ, ◌+◌, ◌-◌, ◌*◌, ◌<◌, ◌≡◌, ap, ◌≢◌, none, some, arith, if◌then◌else◌, pos, ◌==◌, failure, leb, ℤ,
  update, memcpy, Bytes,
}

module _ (host : Host) where
  -- the write into the file behind the descriptor, once the guard on the index has passed
  write_at : Disk → ℕ → ℕ → Bytes → ℕ → ℤ × Disk
  write_at d f block buf from =
      if host.lseek_fails (block * block_size)
      then (failure, d)
      else if host.write_fails (block * block_size)
      then (failure, d)
      else (
        pos 0,
        record d {
          files = update d.files f (memcpy (d.files f) (block * block_size) buf from block_size);
        },
      )

  -- `block_write(block, buf + from)`
  unfoldable pub block_write : Disk → ℕ → Bytes → ℕ → ℤ × Disk
  unfolding write_at
  block_write d block buf from = elim d.fd [
    | none ↦ (failure, d)
    | some f ↦ if leb d.bcount block then (failure, d) else write_at d f block buf from
  ]

  read_at : Disk → ℕ → ℕ → Bytes → ℕ → ℤ × Bytes
  read_at d f block buf to =
      if host.lseek_fails (block * block_size)
      then (failure, buf)
      else if host.read_fails (block * block_size)
      then (failure, buf)
      else (pos 0, memcpy buf to (d.files f) (block * block_size) block_size)

  -- `block_read(block, buf + to)`: the status, and the buffer afterwards.
  unfoldable pub block_read : Disk → ℕ → Bytes → ℕ → ℤ × Bytes
  unfolding read_at
  block_read d block buf to = elim d.fd [
    | none ↦ (failure, buf)
    | some f ↦ if leb d.bcount block then (failure, buf) else read_at d f block buf to
  ]

-- the byte at place `k` of a block of the open disk
abbrev pub byte_at : Disk → ℕ → ℕ → ℕ
byte_at d block k = elim d.fd [ none ↦ 0 | some f ↦ d.files f (block * block_size + k) ]

abbrev pub IsOpen : Disk → Type 0
IsOpen d = d.fd ≢ none

module _ (host : Host) (good : IsReliable host) (d : Disk) (block : ℕ) (opened : IsOpen d)
    (inside : block < d.bcount) where
  pub block_write-ok : (buf : Bytes) (from : ℕ) → (block_write host d block buf from).0 ≡ pos 0
  unfolding block_write
  block_write-ok buf from =
      ground (arith, good.seeks (block * block_size), good.writes (block * block_size))

  pub block_read-ok : (buf : Bytes) (to : ℕ) → (block_read host d block buf to).0 ≡ pos 0
  unfolding block_read
  block_read-ok buf to =
      ground (arith, good.seeks (block * block_size), good.reads (block * block_size))

module _ (host : Host) (d : Disk) (block : ℕ) (buf : Bytes) where
  -- A successful `block_read` puts the block into the buffer at `to`, and leaves the rest of the
  -- buffer as it was.
  pub block_read-byte_at :
      (to k : ℕ)
      → (block_read host d block buf to).0 ≡ pos 0
      → (block_read host d block buf to).1 k ≡ memcpy buf to (byte_at d block) 0 block_size k
  unfolding block_read
  block_read-byte_at to k h = ground arith

  -- A successful `block_write` changes the block that it names to the buffer's bytes, and no other.
  pub byte_at-block_write :
      (from b k : ℕ)
      → (block_write host d block buf from).0 ≡ pos 0
      → k < block_size
      → byte_at (block_write host d block buf from).1 b k
        ≡ (if b == block then buf (from + k) else byte_at d b k)
  unfolding block_write
  byte_at-block_write from b k h lt = ground arith

module _ (host : Host) (d : Disk) (block : ℕ) (buf : Bytes) (from : ℕ) where
  pub fd-block_write : (block_write host d block buf from).1.fd ≡ d.fd
  unfolding block_write
  fd-block_write = ground arith

  pub bcount-block_write : (block_write host d block buf from).1.bcount ≡ d.bcount
  unfolding block_write
  bcount-block_write = ground arith

  -- Whether it succeeds or not, `block_write` changes no other block.
  pub byte_at-block_write_other :
      (b k : ℕ)
      → b ≢ block
      → k < block_size
      → byte_at (block_write host d block buf from).1 b k ≡ byte_at d b k
  unfolding block_write
  byte_at-block_write_other b k ne lt = ground arith

-- On a reliable host, reading a block that was written gives the bytes written to it, and reading
-- any other block of the disk what it gave before.
pub block_read-block_write :
    (host : Host) (good : IsReliable host) (d : Disk) (block b : ℕ) (src buf : Bytes) (k : ℕ)
    → IsOpen d
    → block < d.bcount
    → b < d.bcount
    → k < block_size
    → (block_read host (block_write host d block src 0).1 b buf 0).1 k
      ≡ (if b == block then src k else (block_read host d b buf 0).1 k)
block_read-block_write host good d block b src buf k opened inside inside_b lt =
    let e = (block_write host d block src 0).1 in
    let opened_e : IsOpen e = rw (fd-block_write host d block src 0) opened in
    let inside_e : b < e.bcount = rw (bcount-block_write host d block src 0) inside_b in
    ground (
      arith,
      block_read-byte_at host e b buf 0 k (block_read-ok host good e b opened_e inside_e buf 0),
      block_read-byte_at host d b buf 0 k (block_read-ok host good d b opened inside_b buf 0),
      byte_at-block_write host d block src 0 b (0 + (k - 0))
          (block_write-ok host good d block opened inside src 0) (omega arith),
      ap src (unit k),
    )
  where
    unit : (k : ℕ) → 0 + (0 + (k - 0)) ≡ k
    unit k = omega arith
