-- ===== src/Disk/Lifecycle.antt =====
-- `block_disk_open`, `block_disk_close` and `block_disk_count` of libfs/disk.c.
use ecs150_project.Disk.State.{Host, Disk, block_size}
use ecs150_project.Prelude.{
  ℕ, ◌-◌, ◌/◌, ◌%◌, ◌^◌, ◌<◌, ◌≡◌, ◌≢◌, Option, none, some, List, arith, pos, ltb, ℤ, negsuc,
  if◌then◌else◌, ◌==◌, failure,
}

module _ (host : Host) where
  opened : Disk → ℕ → ℕ → ℤ × Disk
  opened d f size =
      if size % block_size == 0
      then (pos 0, record d { fd = some f; bcount = size / block_size })
      else (failure, d)

  -- `diskname` is `none` for a NULL pointer.
  unfoldable pub block_disk_open : Disk → Option (List ℕ) → ℤ × Disk
  unfolding opened
  block_disk_open d diskname = elim diskname [
    | none ↦ (failure, d)
    | some name ↦ elim d.fd [
      | some _ ↦ (failure, d)
      | none ↦ elim (host.open_file name) [
        | none ↦ (failure, d)
        | some f ↦ elim (host.fstat f) [ none ↦ (failure, d) | some size ↦ opened d f size ]
      ]
    ]
  ]

unfoldable pub block_disk_close : Disk → ℤ × Disk
block_disk_close d = elim d.fd [ none ↦ (failure, d) | some _ ↦ (pos 0, record d { fd = none }) ]

-- a `size_t` that becomes an `int`
abbrev pub int_of_size : ℕ → ℤ
int_of_size n =
    let low = n % 2 ^ 32 in if ltb low (2 ^ 31) then pos low else negsuc (2 ^ 32 - low - 1)

-- `disk.bcount` is a `size_t` that the function returns as an `int`.
unfoldable pub block_disk_count : Disk → ℤ
block_disk_count d = elim d.fd [ none ↦ failure | some _ ↦ int_of_size d.bcount ]

-- A disk of less than 8 TiB is counted right.
pub block_disk_count-bcount :
    (d : Disk) → d.fd ≢ none → d.bcount < 2 ^ 31 → block_disk_count d ≡ pos d.bcount
unfolding block_disk_count
block_disk_count-bcount d is_open small = ground (arith, int_of_size-small d.bcount small)
  where
    int_of_size-small : (n : ℕ) → n < 2 ^ 31 → int_of_size n ≡ pos n
    int_of_size-small n lt = let low : n % 2 ^ 32 ≡ n = omega arith in rw low (ground arith)

-- A failed `block_disk_open` changes nothing.
pub block_disk_open-failure :
    (host : Host) (d : Disk) (name : Option (List ℕ))
    → (block_disk_open host d name).0 ≢ pos 0
    → (block_disk_open host d name).1 ≡ d
unfolding block_disk_open
block_disk_open-failure host d name h = ground arith

-- A successful one leaves a disk open.
pub block_disk_open-fd :
    (host : Host) (d : Disk) (name : Option (List ℕ))
    → (block_disk_open host d name).0 ≡ pos 0
    → (block_disk_open host d name).1.fd ≢ none
unfolding block_disk_open
block_disk_open-fd host d name h = ground arith
