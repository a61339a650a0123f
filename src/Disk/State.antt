-- ===== src/Disk/State.antt =====
-- The state of libfs/disk.c, and the host that it runs on.
use ecs150_project.Prelude.{ℕ, Bytes, ◌≡◌, Bool, false, Option, List}

-- What the calls of the host answer. A descriptor is written as the number of the file behind it.
pub record Host : Type 0 where
  -- `open(diskname, O_RDWR, 0644)`, `none` for a failure
  pub open_file : List ℕ → Option ℕ
  -- `st.st_size` after `fstat(fd, &st)`, `none` for a failure
  pub fstat : ℕ → Option ℕ
  -- whether a call at this byte offset fails
  pub lseek_fails : ℕ → Bool
  pub read_fails : ℕ → Bool
  pub write_fails : ℕ → Bool

-- `static struct disk disk`; `none` is INVALID_FD. `files` holds the bytes of the host files.
pub record Disk : Type 0 where
  pub fd : Option ℕ
  pub bcount : ℕ
  pub files : ℕ → Bytes

abbrev pub block_size : ℕ
block_size = 4096

-- A host on which no access fails.
pub record IsReliable (h : Host) : Type 0 where
  pub seeks : (n : ℕ) → h.lseek_fails n ≡ false
  pub reads : (n : ℕ) → h.read_fails n ≡ false
  pub writes : (n : ℕ) → h.write_fails n ≡ false
