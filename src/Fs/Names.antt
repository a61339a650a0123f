-- ===== src/Fs/Names.antt =====
-- File names in libfs/fs.c. A C string is the list of its bytes before the NUL; the 16 bytes of a root
-- entry are an array.
pub mod Match
use ecs150_project.Prelude.{
  ℕ, zero, suc, ◌+◌, ◌<◌, ◌≢◌, Bytes, update, Bool, true, false, ◌&&◌, ◌||◌, not, Option, none,
  some, List, [], ◌∷◌, ℤ, pos, failure, ltb, ◌==◌, if◌then◌else◌,
}
use ecs150_project.Prelude.Lists.{length, get_or}
use ecs150_project.Fs.State.{filename_len}

abbrev pub CString : Type 0
CString = List ℕ

-- the bytes of a C string in memory
unfoldable pub c_str : CString → Bytes
c_str s i = get_or s i 0

-- no byte of a C string is NUL, and each is a byte
abbrev pub IsCString : CString → Type 0
IsCString [] = Unit {0}
IsCString (c ∷ cs) = (c ≢ 0) × (c < 256) × IsCString cs

streq_from : ℕ → ℕ → Bytes → Bytes → ℤ
streq_from zero i str1 str2 = failure
streq_from (suc n) i str1 str2 =
    let rest = streq_from n (i + 1) str1 str2 in
    if str1 i == 0 && str2 i == 0 then pos 0 else if not (str1 i == str2 i) then failure else rest

unfoldable pub streq : Bytes → Bytes → ℤ
unfolding streq_from
streq str1 str2 = streq_from filename_len 0 str1 str2

-- `strcmp(s, buf + i) == 0`
unfoldable pub strcmp_eq : CString → Bytes → ℕ → Bool
strcmp_eq [] buf i = buf i == 0
strcmp_eq (c ∷ cs) buf i = c == buf i && strcmp_eq cs buf (i + 1)

-- `none` is NULL.
unfoldable pub is_filename_invalid : Option CString → Bool
is_filename_invalid none = true
is_filename_invalid (some []) = true
is_filename_invalid (some (c ∷ cs)) = ltb filename_len (length (c ∷ cs) + 1)

-- The loop of `fs_create` that stores a name, and the NUL behind it.
unfoldable pub write_name : CString → ℕ → Bytes → Bytes
write_name [] i buf = update buf i 0
write_name (c ∷ cs) i buf = write_name cs (i + 1) (update buf i c)
