-- ===== src/Fs/Layout.antt =====
-- The invariant of a mounted file system: each file of the root directory has its own chain of data
-- blocks in the FAT, and descriptors are open on files.
pub mod Chains
pub mod Descriptors
pub mod Directory
pub mod Write
pub mod Others
pub mod Steps
pub mod Counted
pub mod Unique
use ecs150_project.Fs.Calls.Effect.{open_file}
use ecs150_project.Fs.Calls.Geometry.{IsLaidOut}
use ecs150_project.Fs.Calls.Read.{HasChain}
use ecs150_project.Fs.State.{file_max_count, eoc, State, open_max_count}
use ecs150_project.Prelude.{ℕ, ◌<◌, ◌≡◌, ◌≢◌, true, false, some, List}
use ecs150_project.Prelude.Lists.{has}

-- Root entry `f` is a file.
abbrev pub IsNamed : State → ℕ → Type 0
IsNamed s f = (s.root f).filename 0 ≢ 0

-- The files of the root directory have the blocks that `blocks` says.
pub record Layout (s : State) (blocks : ℕ → List ℕ) : Type 0 where
  pub laid : IsLaidOut s
  -- entry 0 of the FAT, which belongs to no file, carries the end mark
  pub mark : s.fat 0 ≡ eoc
  pub chains : (f : ℕ) → f < file_max_count → IsNamed s f → HasChain s f (blocks f)
  -- no block belongs to two files
  pub apart :
      (f g j : ℕ)
      → f < file_max_count
      → g < file_max_count
      → IsNamed s f
      → IsNamed s g
      → f ≢ g
      → has j (blocks f) ≡ true
      → has j (blocks g) ≡ false
  pub open_named :
      (k f : ℕ) → k < open_max_count → open_file s k ≡ some f → (f < file_max_count) × IsNamed s f

abbrev pub IsWellFormed : State → Type 0
IsWellFormed s = (blocks : ℕ → List ℕ) × Layout s blocks
