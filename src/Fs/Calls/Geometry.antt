-- ===== src/Fs/Calls/Geometry.antt =====
-- Which blocks of the disk a file occupies.
use ecs150_project.Disk.Access.{IsOpen}
use ecs150_project.Disk.State.{block_size, Disk}
use ecs150_project.Fs.Fat.{find_data_block}
use ecs150_project.Fs.Fat.Chain.{Distinct, InRange, find_data_block-get_or, IsChain}
use ecs150_project.Fs.State.{eoc, Table, State}
use ecs150_project.Fs.Transfer.{find_num_target_blocks, on_disk}
use ecs150_project.Fs.Transfer.Read.{HasBlock}
use ecs150_project.Prelude.{
  ℕ, zero, suc, ◌+◌, ◌*◌, ◌^◌, ◌≤◌, ◌<◌, ◌≡◌, refl, ap, true, List, [], ◌∷◌, ◌++◌, arith,
}
use ecs150_project.Prelude.Lists.{length, has, get_or}

-- The data blocks of the file system lie on the open disk, and their numbers fit into 16 bits.
pub record IsLaidOut (s : State) : Type 0 where
  pub opened : IsOpen s.disk
  pub fat_small : s.sb.num_data_blocks ≤ eoc
  pub fits : s.sb.data_start_index + s.sb.num_data_blocks ≤ s.disk.bcount
  pub small : s.sb.data_start_index + s.sb.num_data_blocks ≤ 2 ^ 16

pub get_or-InRange :
    (n : ℕ) (bs : List ℕ) (k : ℕ) → InRange n bs → k < length bs → get_or bs k eoc < n
get_or-InRange n [] k r h = absurd (omega arith)
get_or-InRange n (x ∷ xs) zero r h = r.1
get_or-InRange n (x ∷ xs) (suc k) r h = get_or-InRange n xs k r.2 (omega arith)

pub has-get_or : (bs : List ℕ) (k : ℕ) → k < length bs → has (get_or bs k eoc) bs ≡ true
has-get_or [] k h = absurd (omega arith)
has-get_or (x ∷ xs) zero h = ground arith
has-get_or (x ∷ xs) (suc k) h = ground (arith, has-get_or xs k)

pub get_or-injective :
    (bs : List ℕ) (k k' : ℕ)
    → Distinct bs
    → k < length bs
    → k' < length bs
    → get_or bs k eoc ≡ get_or bs k' eoc
    → k ≡ k'
get_or-injective [] k k' d h h' e = absurd (omega arith)
get_or-injective (x ∷ xs) zero zero d h h' e = refl
get_or-injective (x ∷ xs) zero (suc k') d h h' e =
    ground (arith, d.0, has-get_or xs k' (omega arith), ap (λ q. has q xs) e)
get_or-injective (x ∷ xs) (suc k) zero d h h' e =
    ground (arith, d.0, has-get_or xs k (omega arith), ap (λ q. has q xs) e)
get_or-injective (x ∷ xs) (suc k) (suc k') d h h' e =
    ap suc (get_or-injective xs k k' d.1 (omega arith) (omega arith) e)

module _ {n : ℕ} {fat : Table} {first : ℕ} {bs : List ℕ} (start : ℕ) (d : Disk) (small : n ≤ eoc)
    (inside : start + n ≤ d.bcount) (narrow : start + n ≤ 2 ^ 16) (c : IsChain n fat first bs) where
  pub on_disk-get_or :
      (k : ℕ)
      → k < length bs
      → on_disk start (find_data_block fat first k) ≡ get_or bs k eoc + start
  on_disk-get_or k h = omega (arith, find_data_block-get_or k c, get_or-InRange n bs k c.in_range h)

  -- Every block of a chain is on the disk.
  pub IsChain-HasBlock : (k : ℕ) → k < length bs → HasBlock fat first start d k
  IsChain-HasBlock k h = record {
    present = omega (arith, find_data_block-get_or k c, get_or-InRange n bs k c.in_range h);
    in_range = omega (arith, on_disk-get_or k h, get_or-InRange n bs k c.in_range h);
  }

  -- Different blocks of a chain are different blocks of the disk.
  pub IsChain-separate :
      (k k' : ℕ)
      → k < length bs
      → k' < length bs
      → on_disk start (find_data_block fat first k) ≡ on_disk start (find_data_block fat first k')
      → k ≡ k'
  IsChain-separate k k' h h' e =
      get_or-injective bs k k' c.distinct h h'
        (omega (arith, e, on_disk-get_or k h, on_disk-get_or k' h'))

pub get_or-append :
    (xs ys : List ℕ) (k : ℕ) → k < length xs → get_or (xs ++ ys) k eoc ≡ get_or xs k eoc
get_or-append [] ys k h = absurd (omega arith)
get_or-append (x ∷ xs) ys zero h = refl
get_or-append (x ∷ xs) ys (suc k) h = get_or-append xs ys k (omega arith)

-- The target blocks hold everything up to the end of the transfer.
pub le-target :
    (offset count : ℕ) → offset + count ≤ find_num_target_blocks offset count * block_size
unfolding find_num_target_blocks
le-target offset count = ground arith

pub get_or-past : (xs : List ℕ) (k : ℕ) → length xs ≤ k → get_or xs k eoc ≡ eoc
get_or-past [] k h = refl
get_or-past (x ∷ xs) zero h = absurd (omega arith)
get_or-past (x ∷ xs) (suc k) h = get_or-past xs k (omega arith)
