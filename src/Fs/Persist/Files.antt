-- ===== src/Fs/Persist/Files.antt =====
-- What a mount of a saved disk has of its files.
use ecs150_project.Disk.Access.{byte_at}
use ecs150_project.Disk.State.{block_size}
use ecs150_project.Fs.Calls.Geometry.{on_disk-get_or}
use ecs150_project.Fs.Calls.Read.{file_content, HasChain}
use ecs150_project.Fs.Fat.{find_data_block}
use ecs150_project.Fs.Fat.Chain.{find_data_block-get_or, IsChain}
use ecs150_project.Fs.Layout.{IsNamed, Layout}
use ecs150_project.Fs.Layout.Chains.{IsChain-same}
use ecs150_project.Fs.Mount.Save.{Remounted}
use ecs150_project.Fs.Mount.Superblock.{IsAccepted-same}
use ecs150_project.Fs.Names.{CString, strcmp_eq}
use ecs150_project.Fs.Names.Match.{strcmp_eq-same}
use ecs150_project.Fs.Persist.{IsSavable}
use ecs150_project.Fs.Persist.Chains.{InRange-has}
use ecs150_project.Fs.Root.{IsFirstNamed, IsAbsent}
use ecs150_project.Fs.State.{filename_len, State, file_max_count}
use ecs150_project.Fs.Transfer.{on_disk}
use ecs150_project.Prelude.{ℕ, ◌*◌, ◌/◌, ◌%◌, ◌<◌, ◌≡◌, sym, ◌∙◌, List, arith}
use ecs150_project.Prelude.Lists.{length}
use mathlib.Core.Path.{subst}

-- The files of `s`, whose blocks are `blocks`, in `s'`, and its free entries.
pub record FilesKept (s s' : State) (blocks : ℕ → List ℕ) : Type 0 where
  pub found :
      (name : CString) (f : ℕ)
      → length name < filename_len
      → IsFirstNamed name s.root f
      → IsFirstNamed name s'.root f
  pub absent :
      (name : CString) → length name < filename_len → IsAbsent name s.root → IsAbsent name s'.root
  pub names :
      (name : CString) (f : ℕ)
      → length name < filename_len
      → f < file_max_count
      → strcmp_eq name (s'.root f).filename 0 ≡ strcmp_eq name (s.root f).filename 0
  pub size : (f : ℕ) → f < file_max_count → (s'.root f).file_size ≡ (s.root f).file_size
  pub content :
      (f p : ℕ)
      → f < file_max_count
      → IsNamed s f
      → p < length (blocks f) * block_size
      → file_content s' f p ≡ file_content s f p
  pub num_data_blocks : s'.sb.num_data_blocks ≡ s.sb.num_data_blocks
  pub fat : (i : ℕ) → i < s.sb.num_data_blocks → s'.fat i ≡ s.fat i
  pub empty : (f : ℕ) → f < file_max_count → (s.root f).filename 0 ≡ 0 → (s'.root f).filename 0 ≡ 0

module _ {image count : ℕ} {s s' : State} {blocks : ℕ → List ℕ} (h : IsSavable image count s)
    (l : Layout s blocks) (r : Remounted s s') where
  -- all of the FAT
  fat-remounted : (i : ℕ) → i < s.sb.num_data_blocks → s'.fat i ≡ s.fat i
  fat-remounted i lt =
      r.fat i lt (omega (arith, h.few, h.formatted.some_fat)) (omega (arith, h.few))

  was-IsNamed : (f : ℕ) → f < file_max_count → IsNamed s' f → IsNamed s f
  was-IsNamed f lt named z = named ((r.root f lt).filename 0 (omega arith) ∙ z)

  chain-remounted : (f : ℕ) → f < file_max_count → IsNamed s f → HasChain s' f (blocks f)
  chain-remounted f lt named =
      rw (r.num_data_blocks, (r.root f lt).first_index)
        (IsChain-same (l.chains f lt named) (λ j inside.
          fat-remounted j
            (InRange-has s.sb.num_data_blocks j (blocks f) (l.chains f lt named).in_range inside)))

  pub Layout-remounted : Layout s' blocks
  Layout-remounted = record {
    laid = record {
      opened = rw r.fd l.laid.opened;
      fat_small = rw r.num_data_blocks l.laid.fat_small;
      fits = rw (r.data_start_index, r.num_data_blocks, r.bcount) l.laid.fits;
      small = rw (r.data_start_index, r.num_data_blocks) l.laid.small;
    };
    mark = fat-remounted 0 h.formatted.some_data ∙ l.mark;
    chains = λ f lt named. chain-remounted f lt (was-IsNamed f lt named);
    apart = λ f g j lf lg nf ng ne inside.
        l.apart f g j lf lg (was-IsNamed f lf nf) (was-IsNamed g lg ng) ne inside;
    open_named = λ k f lt e. absurd (ground (arith, r.closed_files k lt));
  }

  strcmp_eq-remounted :
      (name : CString) (f : ℕ)
      → length name < filename_len
      → f < file_max_count
      → strcmp_eq name (s'.root f).filename 0 ≡ strcmp_eq name (s.root f).filename 0
  strcmp_eq-remounted name f short lt =
      strcmp_eq-same name (s.root f).filename (s'.root f).filename 0 (omega arith)
        (r.root f lt).filename

  content-remounted :
      (f p : ℕ)
      → f < file_max_count
      → IsNamed s f
      → p < length (blocks f) * block_size
      → file_content s' f p ≡ file_content s f p
  content-remounted f p lt named inside =
      let k = p / block_size in
      let c = l.chains f lt named in
      let same : find_data_block s'.fat (s.root f).first_index k
          ≡ find_data_block s.fat (s.root f).first_index k =
        find_data_block-get_or k (
          subst (λ first. IsChain s'.sb.num_data_blocks s'.fat first (blocks f))
            (r.root f lt).first_index (chain-remounted f lt named))
        ∙ sym (find_data_block-get_or k c) in
      rw ((r.root f lt).first_index, r.data_start_index, same)
        (r.data_blocks
          (on_disk s.sb.data_start_index (find_data_block s.fat (s.root f).first_index k))
          (p % block_size)
          (omega (
            arith,
            h.data_behind,
            on_disk-get_or s.sb.data_start_index s.disk l.laid.fat_small l.laid.fits l.laid.small c
                k (omega arith),
          ))
          (omega arith))

  pub FilesKept-remounted : FilesKept s s' blocks
  FilesKept-remounted = record {
    found = λ name f short i. record {
      in_range = i.in_range;
      named = strcmp_eq-remounted name f short i.in_range ∙ i.named;
      first = λ k lt. strcmp_eq-remounted name k short (omega (arith, i.in_range)) ∙ i.first k lt;
    };
    absent = λ name short a k lt. strcmp_eq-remounted name k short lt ∙ a k lt;
    names = strcmp_eq-remounted;
    size = λ f lt. (r.root f lt).file_size;
    content = content-remounted;
    num_data_blocks = r.num_data_blocks;
    fat = fat-remounted;
    empty = λ f lt e. (r.root f lt).filename 0 (omega arith) ∙ e;
  }

  -- and it can be saved again
  pub IsSavable-remounted : IsSavable image count s'
  IsSavable-remounted =
      let f = h.formatted in
      record {
        formatted = record {
          mounted = r.mounted;
          accepted = rw r.bcount (
              IsAccepted-same s.disk.bcount (byte_at s.disk 0) (byte_at s'.disk 0)
                (λ k lo lk. r.superblock k lk) f.accepted);
          root_index =
              rw (r.superblock 10 (omega arith), r.superblock 11 (omega arith))
                (r.root_index ∙ f.root_index);
          data_start_index =
              rw (r.superblock 12 (omega arith), r.superblock 13 (omega arith))
                (r.data_start_index ∙ f.data_start_index);
          num_data_blocks =
              rw (r.superblock 14 (omega arith), r.superblock 15 (omega arith))
                (r.num_data_blocks ∙ f.num_data_blocks);
          num_fat_blocks = rw (r.superblock 16 (omega arith)) (r.num_fat_blocks ∙ f.num_fat_blocks);
          root_behind_fat = rw (r.root_index, r.num_fat_blocks) f.root_behind_fat;
          root_on_disk = rw (r.root_index, r.bcount) f.root_on_disk;
          some_fat = rw r.num_fat_blocks f.some_fat;
          some_data = rw r.num_data_blocks f.some_data;
          buffer_holds = rw (r.num_data_blocks, r.num_fat_blocks) f.buffer_holds;
          fat_fits = λ i lt.
              let lt' : i < s.sb.num_data_blocks = omega (arith, r.num_data_blocks) in
              rw (fat-remounted i lt') (f.fat_fits i lt');
          storable = λ k lt.
              let same = r.root k lt in
              record {
                size_fits = rw same.file_size (f.storable k lt).size_fits;
                index_fits = rw same.first_index (f.storable k lt).index_fits;
                padding_zero = λ j lj. same.padding j lj ∙ (f.storable k lt).padding_zero j lj;
              };
        };
        data_behind = rw (r.root_index, r.data_start_index) h.data_behind;
        few = rw r.num_data_blocks h.few;
        opened = r.fd ∙ h.opened;
        bcount = r.bcount ∙ h.bcount;
      }
