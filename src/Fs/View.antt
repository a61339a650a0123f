-- ===== src/Fs/View.antt =====
-- What a user sees of the file system: names, and what is stored under them. Which root entry and which
-- blocks a file has is left out.
pub mod Blocks
pub mod Names
pub mod Create
pub mod Delete
pub mod Write
pub mod Steps
pub mod Reopen
use ecs150_project.Disk.State.{Disk, block_size}
use ecs150_project.Fs.Directory.Create.{UniqueAt}
use ecs150_project.Fs.Fat.{find_data_block}
use ecs150_project.Fs.Names.{IsCString, CString, strcmp_eq}
use ecs150_project.Fs.Root.{find_matching_filename}
use ecs150_project.Fs.State.{File, Table, filename_len, State, eoc}
use ecs150_project.Fs.Transfer.Read.{content}
use ecs150_project.Prelude.{
  ℕ, ◌+◌, ◌/◌, ◌≤◌, ◌<◌, ◌≡◌, ◌≢◌, ◌⊎◌, true, false, Option, none, some, List, [], ◌∷◌,
  if◌then◌else◌, ◌==◌, Bytes, u32,
}
use ecs150_project.Prelude.Lists.{length}

-- A name that a call accepts.
pub record IsValidName (name : CString) : Type 0 where
  pub text : IsCString name
  pub nonempty : name ≢ []
  pub short : length name < filename_len

-- No two entries of the root directory carry the same valid name.
abbrev pub UniqueValid : (ℕ → File) → Type 0
UniqueValid root = (name : CString) → IsValidName name → UniqueAt name root

-- A file: its size, and its bytes as far as its blocks reach.
pub record Contents : Type 0 where
  pub size : ℕ
  pub bytes : ℕ → Option ℕ

unfoldable pub contents_of : Table → ℕ → Disk → File → Contents
contents_of fat start disk file = record {
  size = file.file_size;
  bytes = λ p.
      if find_data_block fat file.first_index (p / block_size) == eoc
      then none
      else some (content fat file.first_index start disk p);
}

abbrev pub file_view : State → ℕ → Contents
file_view s f = contents_of s.fat s.sb.data_start_index s.disk (s.root f)

unfoldable pub view : State → CString → Option Contents
view s name = elim (find_matching_filename name s.root) [
  | none ↦ none
  | some f ↦ some (file_view s f)
]

-- `n` bytes of `buf` at `offset` have replaced what was there; where there was a byte beside them, it has
-- stayed. The size has grown by `n` if those were all of the `count` bytes, and is the old one otherwise.
pub record IsOverwritten (c c' : Contents) (offset count n : ℕ) (buf : Bytes) : Type 0 where
  pub stored : (k : ℕ) → k < n → c'.bytes (offset + k) ≡ some (buf k)
  pub kept : (p b : ℕ) → (p < offset) ⊎ (offset + n ≤ p) → c.bytes p ≡ some b → c'.bytes p ≡ some b
  pub size : c'.size ≡ (if n == count then u32 (c.size + n) else c.size)

-- What the specification is told of a call or of a change of process. A write names the file by the bytes of
-- its root entry, and has the offset, the count, the number of bytes that it returned, and the buffer.
pub data Event : Type 0 where
  creates : CString → Event
  deletes : CString → Event
  writes : Bytes → ℕ → ℕ → ℕ → Bytes → Event
  nothing : Event
  remounts : Event

abbrev pub View : Type 0
View = CString → Option Contents

abbrev pub Unchanged : View → View → Type 0
Unchanged v v' = (name : CString) → IsValidName name → v' name ≡ v name

-- What an event does to the files: everything about the names that it does not say is unchanged.
abbrev pub Effect : Event → View → View → Type 0
Effect (creates name) v v' =
    (v name ≡ none)
    × (v' name ≡ some (record { size = 0; bytes = λ p. none }))
    × ((other : CString) → IsValidName other → other ≢ name → v' other ≡ v other)
Effect (deletes name) v v' =
    ((c : Contents) × (v name ≡ some c))
    × (v' name ≡ none)
    × ((other : CString) → IsValidName other → other ≢ name → v' other ≡ v other)
Effect (writes stored offset count n buf) v v' =
    ((name : CString)
      → IsValidName name
      → strcmp_eq name stored 0 ≡ true
      → (c c' : Contents) × (v name ≡ some c)
        × (v' name ≡ some c')
        × IsOverwritten c c' offset count n buf)
    × ((other : CString)
        → IsValidName other
        → strcmp_eq other stored 0 ≡ false
        → v' other ≡ v other)
Effect nothing v v' = Unchanged v v'
Effect remounts v v' = Unchanged v v'

-- The events, the last one first, from one view to another.
pub data AbstractRun (v : View) : List Event → View → Type 0 where
  no_event : AbstractRun v [] v
  then_event :
      (es : List Event) (e : Event) (v' v'' : View)
      → AbstractRun v es v'
      → Effect e v' v''
      → AbstractRun v (e ∷ es) v''
