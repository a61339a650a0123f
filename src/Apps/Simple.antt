-- ===== src/Apps/Simple.antt =====
-- apps/simple_writer.c and apps/simple_reader.c: one stores a file, the other reads a part of it.
pub mod WriteRead
use ecs150_project.Apps.{
  argument, Process, never_ends, finished, exited, strncmp_eq, Ending, is_nonneg,
}
use ecs150_project.Disk.State.{Host}
use ecs150_project.Fs.Calls.{fs_write, fs_read}
use ecs150_project.Fs.Descriptors.{fs_close, fs_open, fs_lseek}
use ecs150_project.Fs.Directory.{fs_create}
use ecs150_project.Fs.Mount.{fs_mount, fs_umount}
use ecs150_project.Fs.Names.{CString}
use ecs150_project.Fs.State.{State}
use ecs150_project.Prelude.{
  ℕ, zero, suc, ◌+◌, Bool, false, Option, none, some, List, [], ◌∷◌, pos, int_eq, if◌then◌else◌,
  ltb, is_zero, Bytes,
}
use ecs150_project.Prelude.Lists.{length, get_or}
use Prim.Native.String.{String}

-- "myfile"
abbrev pub my_file : CString
my_file = b'm' ∷ b'y' ∷ b'f' ∷ b'i' ∷ b'l' ∷ b'e' ∷ []

-- `n` bytes that count up from `c`
abbrev pub letters : ℕ → ℕ → CString
letters zero c = []
letters (suc n) c = c ∷ letters n (c + 1)

-- `data` of the writer: its 26 bytes, and behind them the stack
abbrev pub alphabet : Bytes → Bytes
alphabet stack i = get_or (letters 26 b'a') i (stack i)

-- "mnopqrstuv"
abbrev pub expected : CString
expected = letters 10 b'm'

-- the macro `ASSERT`, in a state of the globals, before the rest of the program
abbrev pub assert_then : Bool → String → State → Ending → Ending
assert_then condition func s rest = if condition then rest else exited func s

-- `main` of apps/simple_writer.c
unfoldable pub simple_writer : Host → Process → List CString → State → Ending
simple_writer host p argv s0 =
    if ltb (length argv) 1
    then exited "Usage" s0
    else let (mounted, s1) = fs_mount host p.memory (argument argv 1) s0 in
      assert_then (is_zero mounted) "fs_mount" s1 (
        let (created, s2) = fs_create (some my_file) s1 in
        assert_then (is_zero created) "fs_create" s2 (
          let (fd, s3) = fs_open p.malloc_ok (some my_file) s2 in
          assert_then (is_nonneg fd) "fs_open" s3
            (elim (fs_write host p.bounce fd (some (alphabet p.stack)) 26 s3) [
              | none ↦ never_ends
              | some (ret, s4) ↦
                  assert_then (int_eq ret (pos 26)) "fs_write" s4
                    (finished (fs_umount host (fs_close fd s4).1).1)
            ])))

-- whether the buffer holds the expected bytes
abbrev pub is_expected : Option Bytes → Bool
is_expected none = false
is_expected (some buf) = strncmp_eq 10 expected buf 0

-- `main` of apps/simple_reader.c
unfoldable pub simple_reader : Host → Process → List CString → State → Ending
simple_reader host p argv s0 =
    if ltb (length argv) 1
    then exited "Usage" s0
    else let (mounted, s1) = fs_mount host p.memory (argument argv 1) s0 in
      assert_then (is_zero mounted) "fs_mount" s1 (
        let (fd, s2) = fs_open p.malloc_ok (some my_file) s1 in
        assert_then (is_nonneg fd) "fs_open" s2 (
          let s3 = (fs_lseek fd 12 s2).1 in
          let (ret, buf, s4) = fs_read host p.bounce fd (some p.stack) 10 s3 in
          assert_then (int_eq ret (pos 10)) "fs_read" s4 (
            assert_then (is_expected buf) "fs_read" s4
              (finished (fs_umount host (fs_close fd s4).1).1))))
