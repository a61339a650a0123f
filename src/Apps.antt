-- ===== src/Apps.antt =====
-- The programs under apps/, which use the library: what a process is, and how it ends.
-- A message on stderr is the text of it; stdout is left out.
pub mod Simple
pub mod Text
pub mod Desks
pub mod Script
pub mod Tool
use ecs150_project.Fs.Mount.{Memory}
use ecs150_project.Fs.Names.{CString}
use ecs150_project.Fs.State.{State}
use ecs150_project.Prelude.{
  ℕ, zero, suc, ◌+◌, Bool, true, false, ◌&&◌, Option, none, some, List, [], ◌∷◌, pos, ℤ, ◌==◌,
  negsuc, Bytes,
}
use Prim.Native.String.{String}

-- What a process runs on besides the host: what its calls of `malloc` return, what its stack holds, and
-- whether `fs_open` gets memory.
pub record Process : Type 0 where
  pub memory : Memory
  pub malloc_ok : Bool
  pub bounce : Bytes
  pub stack : Bytes

-- How it ends, with the globals at the end: `main` returns 0, or `exit(1)` behind a message. A call that
-- does not return is `never_ends`, and a NULL pointer that is followed `crashed`.
pub data Ending : Type 0 where
  finished : State → Ending
  exited : String → State → Ending
  never_ends : Ending
  crashed : Ending

-- `argv[i]`, which is NULL at `argc`
abbrev pub argument : List CString → ℕ → Option CString
argument [] i = none
argument (a ∷ argv) zero = some a
argument (a ∷ argv) (suc i) = argument argv i

abbrev pub is_nonneg : ℤ → Bool
is_nonneg (pos n) = true
is_nonneg (negsuc n) = false

-- `strncmp(s, buf + i, n) == 0`
unfoldable pub strncmp_eq : ℕ → CString → Bytes → ℕ → Bool
strncmp_eq zero s buf i = true
strncmp_eq (suc n) [] buf i = buf i == 0
strncmp_eq (suc n) (c ∷ cs) buf i = c == buf i && strncmp_eq n cs buf (i + 1)
