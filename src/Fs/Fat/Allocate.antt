-- ===== src/Fs/Fat/Allocate.antt =====
-- `allocate_blocks_in_fat`: on a file's chain it terminates, and it leaves a longer chain.
use ecs150_project.Fs.Fat.{extend_from, find_free, extend_chain, Allocated, allocate_blocks}
use ecs150_project.Fs.Fat.Blocks.{InRange-append, Distinct-append, length-InRange}
use ecs150_project.Fs.Fat.Chain.{IsChain, last_or, walk_to_end-Links}
use ecs150_project.Fs.Fat.Grow.{
  Free, find_free-some, find_free-none, grown, extend_chain-Growth, IsFull, not-has-Free, Free-mono,
}
use ecs150_project.Fs.Fat.Links.{Links-grow, last_or-eoc, Links-ne_zero, has-last_or}
use ecs150_project.Fs.State.{Table, eoc}
use ecs150_project.Prelude.{
  ℕ, zero, suc, ◌+◌, ◌-◌, ◌≤◌, ◌<◌, ◌≡◌, refl, sym, ap, inl, inr, Bool, true, false, some, List, [],
  ◌∷◌, ◌++◌, arith, Option-cases, update,
}
use ecs150_project.Prelude.Lists.{length-append, has, length}
use mathlib.Core.List.{append-nil}
use mathlib.Core.Bool.{false≢true}

-- What `allocate_blocks_in_fat` has done to a chain `bs`: it appended the blocks `new`.
pub record Allocation (n target : ℕ) (fat : Table) (bs : List ℕ) (r : Allocated) (new : List ℕ)
    : Type 0 where
  pub chain : IsChain n r.fat r.first_index (bs ++ new)
  pub free : Free fat new
  pub same : (j : ℕ) → has j bs ≡ false → has j new ≡ false → r.fat j ≡ fat j
  pub enough : r.success ≡ true → length new ≡ target - length bs
  pub short : r.success ≡ false → (length (bs ++ new) < target) × IsFull n r.fat

-- The result of `extend_from` on a chain whose first block is `x`.
abbrev extended : ℕ → ℕ → Table → ℕ → List ℕ → Allocated
extended n target fat x xs =
    let out = extend_chain (target - length (x ∷ xs)) n fat (last_or x xs) in
    record { success = out.0; fat = out.1; first_index = x }

abbrev extension : ℕ → ℕ → Table → ℕ → List ℕ → List ℕ
extension n target fat x xs = grown (target - length (x ∷ xs)) n fat (last_or x xs)

extend_from-extended :
    (n target : ℕ) (fat : Table) (x : ℕ) (xs : List ℕ)
    → IsChain n fat x (x ∷ xs)
    → extend_from n n target fat x ≡ some (extended n target fat x xs)
unfolding extend_from
extend_from-extended n target fat x xs c = ground (
  arith,
  walk_to_end-Links n fat x 1 xs c.links.2 (length-InRange n (x ∷ xs) c.in_range c.distinct),
  one (length xs),
)
  where
    one : (k : ℕ) → 1 + k ≡ suc k
    one k = omega arith

Allocation-extended :
    (n target : ℕ) (fat : Table) (x : ℕ) (xs : List ℕ)
    → n ≤ eoc
    → IsChain n fat x (x ∷ xs)
    → Allocation n target fat (x ∷ xs) (extended n target fat x xs) (extension n target fat x xs)
Allocation-extended n target fat x xs small c =
    let last = last_or x xs in
    let new = extension n target fat x xs in
    let g =
      extend_chain-Growth (target - length (x ∷ xs)) n fat last small
        (last_or-eoc fat x xs c.links.2) in
    let apart : ((j : ℕ) → has j (x ∷ xs) ≡ true → has j new ≡ false) = λ j inside.
      not-has-Free fat j new g.free (Links-ne_zero n fat x j (x ∷ xs) c.links c.in_range inside) in
    record {
      chain = record {
        links = (
          refl,
          c.links.1,
          Links-grow fat _ x xs new c.links.2 c.distinct
              (λ j inside ne. g.same j ne (apart j inside)) g.links,
        );
        distinct = Distinct-append (x ∷ xs) new c.distinct g.distinct apart;
        in_range = InRange-append n (x ∷ xs) new c.in_range g.in_range;
      };
      free = g.free;
      same = λ j out fresh.
          g.same j (λ e. ground (arith, out, has-last_or x xs, ap (λ k. has k (x ∷ xs)) e)) fresh;
      enough = g.done;
      short = λ t. (omega (arith, (g.stuck t).0, length-append (x ∷ xs) new), (g.stuck t).1);
    }

-- A chain that is empty: its first block is taken from the free ones.
IsChain-single :
    (n i : ℕ) (fat : Table) → n ≤ eoc → 0 < i → i < n → IsChain n (update fat i eoc) i (i ∷ [])
IsChain-single n i fat small lo hi = record {
  links = (refl, omega arith, ground arith);
  distinct = (refl, tt);
  in_range = (lo, hi, tt);
}

Allocation-first :
    (n target i : ℕ) (fat : Table) (r : Allocated) (new : List ℕ)
    → 0 < target
    → 0 < i
    → i < n
    → fat i ≡ 0
    → Allocation n target (update fat i eoc) (i ∷ []) r new
    → Allocation n target fat [] r (i ∷ new)
Allocation-first n target i fat r new pos_target lo hi zero_i a = record {
  chain = a.chain;
  free = (zero_i, Free-mono fat (update fat i eoc) new (λ j h. ground arith) a.free);
  same = λ j out fresh. ground (arith, a.same j);
  enough = λ t. omega (arith, a.enough t);
  short = a.short;
}

abbrev nothing_new : ℕ → Bool → Table → ℕ → Allocated
nothing_new n b fat first = record { success = b; fat = fat; first_index = first }

Allocation-nothing :
    (n target : ℕ) (fat : Table) (first : ℕ) (bs : List ℕ) (b : Bool)
    → IsChain n fat first bs
    → (b ≡ true → target ≤ length bs)
    → (b ≡ false → (length bs < target) × IsFull n fat)
    → Allocation n target fat bs (nothing_new n b fat first) []
Allocation-nothing n target fat first bs b c enough short = record {
  chain = rw (append-nil bs) c;
  free = tt;
  same = λ j out fresh. refl;
  enough = λ t. omega (arith, enough t);
  short = rw (append-nil bs) short;
}

IsChain-head :
    {n : ℕ} {fat : Table} {first x : ℕ} {xs : List ℕ}
    → IsChain n fat first (x ∷ xs)
    → IsChain n fat x (x ∷ xs)
IsChain-head c = record {
  links = (refl, c.links.1, c.links.2);
  distinct = c.distinct;
  in_range = c.in_range;
}

abbrev Outcome : ℕ → ℕ → Table → ℕ → List ℕ → Type 0
Outcome n target fat first bs =
    (r : Allocated) × (new : List ℕ) × (allocate_blocks n n target fat first ≡ some r)
    × Allocation n target fat bs r new

allocate-empty :
    (n target : ℕ) (fat : Table) (first : ℕ)
    → n ≤ eoc
    → IsChain n fat first []
    → Outcome n (suc target) fat first []
unfolding allocate_blocks
allocate-empty n target fat first small c = elim (Option-cases (find_free n fat)) [
  | inl h ↦ (
    nothing_new n false fat first,
    [],
    ground (arith, c.links),
    Allocation-nothing n (suc target) fat first [] false c (λ t. absurd (false≢true t))
        (λ t. (omega arith, find_free-none n fat h)),
  )
  | inr (i, h) ↦
      let (lo, hi, zero_i) = find_free-some n fat h in
      let fat1 = update fat i eoc in
      let c1 = IsChain-single n i fat small lo hi in
      (
        extended n (suc target) fat1 i [],
        i ∷ extension n (suc target) fat1 i [],
        ground (arith, c.links, extend_from-extended n (suc target) fat1 i [] c1),
        Allocation-first n (suc target) i fat _ _ (omega arith) lo hi zero_i
            (Allocation-extended n (suc target) fat1 i [] small c1),
      )
]

-- For a file whose blocks are `bs`, in a FAT of `n` entries, `allocate_blocks_in_fat` terminates
-- (`n` rounds of the walk are enough). It appends blocks that were free to the chain, so that the
-- blocks are still distinct and in range, and changes no entry outside the chain and these blocks.
-- If it returns 0, it has added exactly the blocks that were missing. If it returns -1, the chain is
-- still too short and no entry is free.
pub allocate_blocks-Allocation :
    (n target : ℕ) (fat : Table) (first : ℕ) (bs : List ℕ)
    → n ≤ eoc
    → IsChain n fat first bs
    → (r : Allocated) × (new : List ℕ) × (allocate_blocks n n target fat first ≡ some r)
      × Allocation n target fat bs r new
unfolding allocate_blocks
allocate_blocks-Allocation n zero fat first bs small c = (
  nothing_new n true fat first,
  [],
  refl,
  Allocation-nothing n zero fat first bs true c (λ t. omega arith)
      (λ t. absurd (false≢true (sym t))),
)
allocate_blocks-Allocation n (suc target) fat first [] small c =
    allocate-empty n target fat first small c
allocate_blocks-Allocation n (suc target) fat first (x ∷ xs) small c = (
  extended n (suc target) fat x xs,
  extension n (suc target) fat x xs,
  ground (arith, c.links, extend_from-extended n (suc target) fat x xs (IsChain-head c)),
  Allocation-extended n (suc target) fat x xs small (IsChain-head c),
)
