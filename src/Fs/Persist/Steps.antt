-- ===== src/Fs/Persist/Steps.antt =====
-- Every call leaves a disk that can be saved.
use ecs150_project.Disk.Access.{byte_at}
use ecs150_project.Disk.State.{block_size, Host}
use ecs150_project.Fs.Calls.{fs_write}
use ecs150_project.Fs.Calls.Effect.{WriteEffect, fs_write-WriteEffect}
use ecs150_project.Fs.Calls.Geometry.{get_or-past, on_disk-get_or}
use ecs150_project.Fs.Descriptors.Seek.{
  guarded_entry-IsRefused, guarded_entry-IsOpenAt, IsOpenAt-cases,
}
use ecs150_project.Fs.Directory.{fs_delete, empty_file, new_file}
use ecs150_project.Fs.Directory.Create.{CreateResult, fs_create-CreateResult}
use ecs150_project.Fs.Directory.Delete.{IsDeletable, fs_delete-frees}
use ecs150_project.Fs.Fat.{Allocated}
use ecs150_project.Fs.Fat.Allocate.{Allocation}
use ecs150_project.Fs.Fat.Blocks.{has-append}
use ecs150_project.Fs.Fat.Chain.{find_data_block-get_or}
use ecs150_project.Fs.Layout.{IsWellFormed, Layout}
use ecs150_project.Fs.Layout.Descriptors.{IsFirstNamed-IsNamed}
use ecs150_project.Fs.Layout.Steps.{
  on_write, one_more, on_lseek, no_call, Call, IsShort, on_delete, on_open, on_read, Run,
  IsWellFormed-Run, on_create, IsShort-length, on_close,
}
use ecs150_project.Fs.Layout.Write.{written_chain}
use ecs150_project.Fs.Mount.Root.{IsStorable}
use ecs150_project.Fs.Names.{CString}
use ecs150_project.Fs.Persist.{IsSavable}
use ecs150_project.Fs.Persist.Chains.{IsChain-small, IsChain-first}
use ecs150_project.Fs.Persist.Savable.{
  Unmoved-fs_read, IsSavable-Unmoved, Unmoved-fs_close, Unmoved-fs_lseek, IsSavable-change,
  Unmoved-fs_open,
}
use ecs150_project.Fs.State.{file_max_count, State, open_max_count, guarded_entry, File}
use ecs150_project.Prelude.{
  ℕ, ◌^◌, ◌<◌, ◌≡◌, refl, sym, ap, ◌∙◌, inl, inr, Option, some, List, ◌++◌, arith, ltb, ==→eq, ℤ,
  pos, ◌==◌, negsuc, Bool-cases, Option-cases, update, Bytes,
}
use ecs150_project.Prelude.Lists.{length, has}
use mathlib.Core.Path.{subst}

module _ {s s' : State} {blocks : ℕ → List ℕ} {file image count : ℕ} {r : Allocated} {new : List ℕ}
    {target : ℕ} (h : IsSavable image count s) (l : Layout s blocks)
    (a : Allocation s.sb.num_data_blocks target s.fat (blocks file) r new)
    (w : WriteEffect s s' file r) where
  -- A write stays away from block 0,
  block0-written : (j : ℕ) → j < block_size → byte_at s'.disk 0 j ≡ byte_at s.disk 0 j
  block0-written j lj =
      w.outside 0 j
        (λ k present e. elim (Bool-cases (ltb k (length (blocks file ++ new)))) [
          | inr past ↦
              present (
                find_data_block-get_or k a.chain
                ∙ get_or-past (blocks file ++ new) k (ground arith))
          | inl inside ↦ omega (
            arith,
            e,
            h.data_behind,
            on_disk-get_or s.sb.data_start_index s.disk l.laid.fat_small l.laid.fits l.laid.small
                a.chain k (ground arith),
          )
        ])
        lj

  -- its FAT can be stored,
  fat-written : (i : ℕ) → i < s.sb.num_data_blocks → s'.fat i < 2 ^ 16
  fat-written i lt = rw w.fat (elim (Bool-cases (has i (blocks file ++ new))) [
    | inl inside ↦ IsChain-small i l.laid.fat_small a.chain inside
    | inr out ↦
        rw
          (a.same i (ground (arith, has-append i (blocks file) new))
            (ground (arith, has-append i (blocks file) new)))
          (h.formatted.fat_fits i lt)
  ])

  -- and so can the root directory.
  root-written : (f : ℕ) → f < file_max_count → IsStorable (s'.root f)
  root-written f lt = elim (Bool-cases (f == file)) [
    | inr ne ↦ rw (w.others f (ground arith)) (h.formatted.storable f lt)
    | inl e ↦
        let at : f ≡ file = ==→eq f file e in
        let old = subst (λ g. IsStorable (s.root g)) at (h.formatted.storable f lt) in
        subst (λ g. IsStorable (s'.root g)) (sym at)
          (record {
            size_fits = elim w.size [
              | inl same ↦ omega (arith, same, old.size_fits)
              | inr small ↦ small
            ];
            index_fits = rw w.first (IsChain-first (blocks file ++ new) l.laid.fat_small a.chain);
            padding_zero = λ j lj. ap (λ p. p j) w.padding ∙ old.padding_zero j lj;
          })
  ]

  IsSavable-written : IsSavable image count s'
  IsSavable-written =
      IsSavable-change h w.sb w.mounted w.fd w.bcount block0-written fat-written root-written

IsSavable-fs_write :
    (host : Host) (bounce : Bytes) (fd : ℕ) (buf : Option Bytes) (count : ℕ) {image size : ℕ}
    {s s' : State} {r : ℤ}
    → IsSavable image size s
    → IsWellFormed s
    → fd < open_max_count
    → fs_write host bounce (pos fd) buf count s ≡ some (r, s')
    → IsSavable image size s'
unfolding fs_write guarded_entry
IsSavable-fs_write host bounce fd buf count {image} {size} {s} {s'} {r} h (blocks, l) lt e =
    elim (IsOpenAt-cases s fd) [
      | inl refused ↦
          let same : s ≡ s' = ground (arith, e, guarded_entry-IsRefused refused) in
          subst (IsSavable image size) same h
      | inr (d, o) ↦ elim (Option-cases buf) [
        | inl no_buf ↦
            let same : s ≡ s' = ground (arith, e, guarded_entry-IsOpenAt o, no_buf) in
            subst (IsSavable image size) same h
        | inr (b, some_buf) ↦ elim (Bool-cases (count == 0)) [
          | inl none_moves ↦
              let same : s ≡ s' = ground (arith, e, guarded_entry-IsOpenAt o) in
              subst (IsSavable image size) same h
          | inr moves ↦
              let (res, q, new, e', a, w) =
                fs_write-WriteEffect host bounce l.laid o (written_chain host bounce l o lt) b count
                  (ground arith) in
              let same : res.1 ≡ s' = ground (arith, e, e', some_buf) in
              subst (IsSavable image size) same (IsSavable-written h l a w)
        ]
      ]
    ]

-- A root directory with one entry replaced.
IsStorable-update :
    {image size : ℕ} {s : State} (i : ℕ) (f : File)
    → IsSavable image size s
    → IsStorable f
    → (g : ℕ) → g < file_max_count
    → IsStorable (update s.root i f g)
IsStorable-update {s} i f h new g lt = elim (Bool-cases (g == i)) [
  | inl e ↦ rw e new
  | inr ne ↦ rw ne (h.formatted.storable g lt)
]

IsSavable-CreateResult :
    (name : CString) {image size : ℕ} {s : State} (r : ℤ × State)
    → IsSavable image size s
    → CreateResult name s r
    → IsSavable image size r.1
IsSavable-CreateResult name {s} (pos n, s') h (z, (i, c)) = rw c.after (
    IsSavable-change h refl refl refl refl (λ j lj. refl) h.formatted.fat_fits
      (IsStorable-update i (new_file name (s.root i)) h (record {
        size_fits = omega arith;
        index_fits = omega arith;
        padding_zero = (h.formatted.storable i c.in_range).padding_zero;
      })))
IsSavable-CreateResult name (negsuc k, s') h (z, same, e) = rw same h

IsSavable-fs_delete :
    {image size : ℕ} {name : CString} {s s' : State} {i : ℕ} {r : ℤ}
    → IsSavable image size s
    → IsWellFormed s
    → IsDeletable name s i
    → IsShort s i
    → fs_delete (some name) s ≡ some (r, s')
    → IsSavable image size s'
IsSavable-fs_delete {image} {size} {name} {s} {s'} {i} h (blocks, l) gone short e =
    let (lt, named) = IsFirstNamed-IsNamed name s i gone.text gone.valid gone.found in
    let c = l.chains i lt named in
    let (fat', e', freed) =
      fs_delete-frees gone c
        (IsShort-length s.sb.num_data_blocks s.fat (s.root i).first_index (blocks i) c short) in
    let same : record s { fat = fat'; root = update s.root i (empty_file (s.root i)) } ≡ s' =
      ground (arith, e, e') in
    subst (IsSavable image size) same (
      IsSavable-change h refl refl refl refl (λ j lj. refl)
        (λ k lk. ground (arith, freed k, h.formatted.fat_fits k lk))
        (IsStorable-update i (empty_file (s.root i)) h (record {
          size_fits = omega arith;
          index_fits = omega arith;
          padding_zero = (h.formatted.storable i lt).padding_zero;
        })))

IsSavable-Call :
    {host : Host} {bounce : Bytes} {image size : ℕ} {s s' : State}
    → Call host bounce s s'
    → IsWellFormed s
    → IsSavable image size s
    → IsSavable image size s'
IsSavable-Call {s} (on_create name text) w h =
    IsSavable-CreateResult name _ h (fs_create-CreateResult name s)
IsSavable-Call (on_delete name i r s' gone short e) w h = IsSavable-fs_delete h w gone short e
IsSavable-Call {s} (on_open malloc_ok name text) w h =
    IsSavable-Unmoved h (Unmoved-fs_open malloc_ok name s)
IsSavable-Call {s} (on_close fd lt) w h = IsSavable-Unmoved h (Unmoved-fs_close fd s)
IsSavable-Call {s} (on_lseek fd offset lt) w h = IsSavable-Unmoved h (Unmoved-fs_lseek fd offset s)
IsSavable-Call {host} {bounce} (on_write fd buf count r s' lt e) w h =
    IsSavable-fs_write host bounce fd buf count h w lt e
IsSavable-Call {host} {bounce} {s} (on_read fd buf count lt) w h =
    IsSavable-Unmoved h (Unmoved-fs_read host bounce fd buf count s)

-- Whatever calls are made on a well-formed disk that can be saved, it can still be saved.
pub IsSavable-Run :
    {host : Host} {bounce : Bytes} {image size : ℕ} {s s' : State}
    → Run host bounce s s'
    → IsWellFormed s
    → IsSavable image size s
    → IsSavable image size s'
IsSavable-Run (no_call s) w h = h
IsSavable-Run (one_more s s' s'' run call) w h =
    IsSavable-Call call (IsWellFormed-Run run w) (IsSavable-Run run w h)
