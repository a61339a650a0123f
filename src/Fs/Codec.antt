-- ===== src/Fs/Codec.antt =====
-- How libfs/fs.c turns bytes into numbers when it loads a disk, and back when it saves one.
use ecs150_project.Fs.State.{File, Table}
use ecs150_project.Prelude.{
  ℕ, ◌+◌, ◌-◌, ◌*◌, ◌/◌, ◌%◌, ◌^◌, ◌<◌, ◌≡◌, arith, if◌then◌else◌, ltb, ◌==◌, Bytes, u32, u16,
}

unfoldable pub concatenate_two_bytes : ℕ → ℕ → ℕ
concatenate_two_bytes byte1 byte2 = u16 (u16 (256 * byte2) + byte1)

-- The `double` that `pow` returns holds every product and sum here exactly.
unfoldable pub concatenate_four_bytes : ℕ → ℕ → ℕ → ℕ → ℕ
concatenate_four_bytes byte1 byte2 byte3 byte4 =
    u32 (u32 (u32 (u32 (2 ^ 24 * byte4) + 2 ^ 16 * byte3) + 2 ^ 8 * byte2) + byte1)

-- `(n >> shift) & 0xFF`
abbrev pub low_byte : ℕ → ℕ → ℕ
low_byte n shift = n / 2 ^ shift % 2 ^ 8

-- Byte `j` of the 32 that `fs_umount` stores for a file: its name, its size and its first index,
-- low byte first, and its padding.
unfoldable pub file_byte : File → ℕ → ℕ
file_byte f j =
    if ltb j 16
    then f.filename j
    else if j == 16
    then low_byte f.file_size 0
    else if j == 17
    then low_byte f.file_size 8
    else if j == 18
    then low_byte f.file_size 16
    else if j == 19
    then low_byte f.file_size 24
    else if j == 20
    then low_byte f.first_index 0
    else if j == 21
    then low_byte f.first_index 8
    else f.padding (j - 22)

-- `root_array`: its loops fill every index once.
unfoldable pub root_array : (ℕ → File) → Bytes
root_array root k = file_byte (root (k / 32)) (k % 32)

-- The FAT in memory as bytes, on a machine that stores the low byte first.
unfoldable pub fat_bytes : Table → Bytes
fat_bytes fat k = if k % 2 == 0 then low_byte (fat (k / 2)) 0 else low_byte (fat (k / 2)) 8

-- entry `i` of a buffer of `uint16_t`
unfoldable pub u16_at : Bytes → ℕ → ℕ
u16_at buf i = buf (2 * i) + 256 * buf (2 * i + 1)

-- Storing a 16-bit number as two bytes and loading it gives the number back.
pub concatenate_two_bytes-low_byte :
    (n : ℕ) → n < 2 ^ 16 → concatenate_two_bytes (low_byte n 0) (low_byte n 8) ≡ n
unfolding concatenate_two_bytes
concatenate_two_bytes-low_byte n h = omega arith

-- The same for a 32-bit number and four bytes.
pub concatenate_four_bytes-low_byte :
    (n : ℕ)
    → n < 2 ^ 32
    → concatenate_four_bytes (low_byte n 0) (low_byte n 8) (low_byte n 16) (low_byte n 24) ≡ n
unfolding concatenate_four_bytes
concatenate_four_bytes-low_byte n h = omega arith
