-- ===== src/Fs/Layout/Steps.antt =====
-- Sequences of calls on a mounted file system, and what every state that they reach satisfies.
use ecs150_project.Disk.State.{Host}
use ecs150_project.Fs.Calls.{finish_read, fs_write, fs_read}
use ecs150_project.Fs.Calls.Read.{finish_read-cases}
use ecs150_project.Fs.Descriptors.{fs_close, fs_open, fs_lseek}
use ecs150_project.Fs.Descriptors.Seek.{
  guarded_entry-IsRefused, IsOpenAt-cases, IsOpenAt, guarded_entry-IsOpenAt,
}
use ecs150_project.Fs.Directory.{fs_create, fs_delete}
use ecs150_project.Fs.Directory.Delete.{IsDeletable}
use ecs150_project.Fs.Fat.Chain.{IsChain}
use ecs150_project.Fs.Layout.{Layout, IsWellFormed}
use ecs150_project.Fs.Layout.Descriptors.{
  Layout-fs_lseek, IsFirstNamed-IsNamed, Layout-fs_open, Layout-fs_close, Layout-moved,
}
use ecs150_project.Fs.Layout.Directory.{IsWellFormed-fs_delete, IsWellFormed-fs_create}
use ecs150_project.Fs.Layout.Write.{IsWellFormed-fs_write}
use ecs150_project.Fs.Names.{CString, IsCString}
use ecs150_project.Fs.State.{State, guarded_entry, Table, eoc, open_max_count, FileDescriptor}
use ecs150_project.Fs.Transfer.{read_portions, Portion}
use ecs150_project.Prelude.{
  ℕ, ◌≤◌, ◌<◌, ◌≡◌, sym, ap, ◌∙◌, ◌⊎◌, inl, inr, Bool, Option, none, some, List, [], ◌∷◌, arith,
  failure, pos, Option-cases, ℤ, Bytes,
}
use ecs150_project.Prelude.Lists.{length}

-- The file in root entry `f` has at most one block.
abbrev pub IsShort : State → ℕ → Type 0
IsShort s f = ((s.root f).first_index ≡ eoc) ⊎ (s.fat (s.root f).first_index ≡ eoc)

-- A call that returns, on the entries of `open_files`. Of the deletions that succeed, those of files with
-- more than one block are left out.
pub data Call (host : Host) (bounce : Bytes) (s : State) : State → Type 0 where
  on_create : (name : CString) → IsCString name → Call host bounce s (fs_create (some name) s).1
  on_delete :
      (name : CString) (i : ℕ) (r : ℤ) (s' : State)
      → IsDeletable name s i
      → IsShort s i
      → fs_delete (some name) s ≡ some (r, s')
      → Call host bounce s s'
  on_open :
      (malloc_ok : Bool) (name : CString)
      → IsCString name
      → Call host bounce s (fs_open malloc_ok (some name) s).1
  on_close : (fd : ℕ) → fd < open_max_count → Call host bounce s (fs_close (pos fd) s).1
  on_lseek :
      (fd offset : ℕ) → fd < open_max_count → Call host bounce s (fs_lseek (pos fd) offset s).1
  on_write :
      (fd : ℕ) (buf : Option Bytes) (count : ℕ) (r : ℤ) (s' : State)
      → fd < open_max_count
      → fs_write host bounce (pos fd) buf count s ≡ some (r, s')
      → Call host bounce s s'
  on_read :
      (fd : ℕ) (buf : Option Bytes) (count : ℕ)
      → fd < open_max_count
      → Call host bounce s (fs_read host bounce (pos fd) buf count s).2

-- Any number of calls.
pub data Run (host : Host) (bounce : Bytes) : State → State → Type 0 where
  no_call : (s : State) → Run host bounce s s
  one_more :
      (s s' s'' : State) → Run host bounce s s' → Call host bounce s' s'' → Run host bounce s s''

pub IsShort-length :
    (n : ℕ) (fat : Table) (first : ℕ) (bs : List ℕ)
    → IsChain n fat first bs
    → (first ≡ eoc) ⊎ (fat first ≡ eoc)
    → length bs ≤ 1
IsShort-length n fat first [] c h = omega arith
IsShort-length n fat first (x ∷ []) c h = omega arith
IsShort-length n fat first (x ∷ y ∷ ys) c (inl e) = absurd (ground (arith, c.links))
IsShort-length n fat first (x ∷ y ∷ ys) c (inr e) =
    absurd (c.links.2.1 (sym c.links.2.0 ∙ (ap fat (sym c.links.0) ∙ e)))

finish_read-IsWellFormed :
    (host : Host) (bounce : Bytes) {s : State} {blocks : ℕ → List ℕ} {fd : ℕ} {d : FileDescriptor}
    (p : Portion Bytes)
    → Layout s blocks
    → IsOpenAt s fd d
    → fd < open_max_count
    → IsWellFormed (finish_read host bounce s fd d p).2
finish_read-IsWellFormed host bounce {s} {blocks} {fd} {d} p l o lt =
    elim (finish_read-cases host bounce s fd d p) [
      | inl same ↦ rw same (blocks, l)
      | inr (offset, moved) ↦ rw moved (
        blocks,
        Layout-moved fd d (some (record d { offset = offset })) s.num_open_files l lt o.entry
            (λ e q. ground arith),
      )
    ]

IsWellFormed-fs_read :
    (host : Host) (bounce : Bytes) (fd : ℕ) (buf : Option Bytes) (count : ℕ) {s : State}
    → IsWellFormed s
    → fd < open_max_count
    → IsWellFormed (fs_read host bounce (pos fd) buf count s).2
unfolding fs_read guarded_entry
IsWellFormed-fs_read host bounce fd buf count {s} (blocks, l) lt = elim (IsOpenAt-cases s fd) [
  | inl refused ↦
      let E : fs_read host bounce (pos fd) buf count s ≡ (failure, buf, s) =
        ground (arith, guarded_entry-IsRefused refused) in
      rw E (blocks, l)
  | inr (d, o) ↦ elim (Option-cases buf) [
    | inl no_buf ↦
        let E : fs_read host bounce (pos fd) buf count s ≡ (failure, none, s) =
          ground (arith, guarded_entry-IsOpenAt o, no_buf) in
        rw E (blocks, l)
    | inr (b, some_buf) ↦
        let p =
          read_portions host s.fat (s.root d.file).first_index s.sb.data_start_index bounce s.disk
            d.offset count b in
        let E : fs_read host bounce (pos fd) buf count s ≡ finish_read host bounce s fd d p =
          ground (arith, guarded_entry-IsOpenAt o, some_buf) in
        rw E (finish_read-IsWellFormed host bounce p l o lt)
  ]
]

IsWellFormed-short_delete :
    {name : CString} {s s' : State} {i : ℕ} {r : ℤ}
    → IsWellFormed s
    → IsDeletable name s i
    → IsShort s i
    → fs_delete (some name) s ≡ some (r, s')
    → IsWellFormed s'
IsWellFormed-short_delete {name} {s} {i} (blocks, l) h short e =
    let (lt, named) = IsFirstNamed-IsNamed name s i h.text h.valid h.found in
    IsWellFormed-fs_delete l h
      (IsShort-length s.sb.num_data_blocks s.fat (s.root i).first_index (blocks i)
        (l.chains i lt named) short)
      e

IsWellFormed-Call :
    {host : Host} {bounce : Bytes} {s s' : State}
    → Call host bounce s s'
    → IsWellFormed s
    → IsWellFormed s'
IsWellFormed-Call (on_create name text) w = IsWellFormed-fs_create name w
IsWellFormed-Call (on_delete name i r s' h short e) w = IsWellFormed-short_delete w h short e
IsWellFormed-Call (on_open malloc_ok name text) (blocks, l) =
    (blocks, Layout-fs_open malloc_ok name text l)
IsWellFormed-Call (on_close fd lt) (blocks, l) = (blocks, Layout-fs_close fd lt l)
IsWellFormed-Call (on_lseek fd offset lt) (blocks, l) = (blocks, Layout-fs_lseek fd offset lt l)
IsWellFormed-Call {host} {bounce} (on_write fd buf count r s' lt e) w =
    IsWellFormed-fs_write host bounce fd buf count w lt e
IsWellFormed-Call {host} {bounce} (on_read fd buf count lt) w =
    IsWellFormed-fs_read host bounce fd buf count w lt

-- Every state that calls of `fs_create`, `fs_open`, `fs_close`, `fs_lseek`, `fs_read`, `fs_write` and
-- `fs_delete` of files of at most one block reach from a well-formed one is well-formed, on any host
-- and whether the calls succeed or not: each file has its own chain of blocks on the disk, no block
-- belongs to two files, and the descriptors are open on files. The descriptors are below 32.
pub IsWellFormed-Run :
    {host : Host} {bounce : Bytes} {s s' : State}
    → Run host bounce s s'
    → IsWellFormed s
    → IsWellFormed s'
IsWellFormed-Run (no_call s) w = w
IsWellFormed-Run (one_more s s' s'' run call) w = IsWellFormed-Call call (IsWellFormed-Run run w)
