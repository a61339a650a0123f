-- ===== src/Fs/Fat/Grow.antt =====
-- `extend_chain`, the second loop of `allocate_blocks_in_fat`: which blocks it appends to a chain.
use ecs150_project.Fs.Fat.{extend_chain, find_free}
use ecs150_project.Fs.Fat.Chain.{Links, Distinct, InRange}
use ecs150_project.Fs.State.{eoc, Table}
use ecs150_project.Prelude.{
  ℕ, zero, suc, ◌-◌, ◌≤◌, ◌<◌, ◌≡◌, refl, sym, ap, ◌∙◌, ◌≢◌, inl, inr, Bool, true, false, none,
  some, List, [], ◌∷◌, arith, Bool-cases, ◌==◌, ==→eq, Option-cases, update,
}
use ecs150_project.Prelude.Lists.{has, length}
use ecs150_project.Prelude.Search.{find_first-none, find_first-Found}
use mathlib.Core.Bool.{false≢true}

-- The blocks that `extend_chain` takes, in order.
unfoldable pub grown : ℕ → ℕ → Table → ℕ → List ℕ
grown zero n fat b = []
grown (suc missing) n fat b = elim (find_free n fat) [
  | none ↦ []
  | some i ↦ i ∷ grown missing n (update (update fat b i) i eoc) i
]

-- Every block of the list is free.
abbrev pub Free : Table → List ℕ → Type 0
Free fat [] = Unit {0}
Free fat (x ∷ xs) = (fat x ≡ 0) × Free fat xs

-- No entry that could be handed out is free.
abbrev pub IsFull : ℕ → Table → Type 0
IsFull n fat = (k : ℕ) → 0 < k → k < n → fat k ≢ 0

pub find_free-some :
    (n : ℕ) (fat : Table) {i : ℕ} → find_free n fat ≡ some i → (0 < i) × (i < n) × (fat i ≡ 0)
unfolding find_free
find_free-some n fat {i} h =
    let f = find_first-Found (λ i. fat i == 0) 1 (n - 1) h in
    (f.lower, omega (arith, f.lower, f.upper), ==→eq (fat i) 0 f.passes)

pub find_free-none : (n : ℕ) (fat : Table) → find_free n fat ≡ none → IsFull n fat
unfolding find_free
find_free-none n fat h k lo hi e =
    ground (arith, find_first-none (λ i. fat i == 0) 1 (n - 1) h k lo (omega arith))

pub not-has-Free : (fat : Table) (a : ℕ) (xs : List ℕ) → Free fat xs → fat a ≢ 0 → has a xs ≡ false
not-has-Free fat a [] h ne = refl
not-has-Free fat a (x ∷ xs) h ne = elim (Bool-cases (a == x)) [
  | inl e ↦ absurd (ne (ap fat (==→eq a x e) ∙ h.0))
  | inr e ↦ ground (arith, not-has-Free fat a xs h.1 ne)
]

-- What is free after other entries were set to something else was free before.
pub Free-mono :
    (fat fat' : Table) (xs : List ℕ)
    → ((j : ℕ) → fat' j ≡ 0 → fat j ≡ 0)
    → Free fat' xs
    → Free fat xs
Free-mono fat fat' [] keep h = tt
Free-mono fat fat' (x ∷ xs) keep h = (keep x h.0, Free-mono fat fat' xs keep h.1)

-- What `extend_chain` has done when it stops with `out`, started at the last block `b` of a chain,
-- if `new` are the blocks that it took.
pub record Growth (missing n : ℕ) (fat : Table) (b : ℕ) (out : Bool × Table) (new : List ℕ)
    : Type 0 where
  pub links : Links out.1 (out.1 b) new
  pub free : Free fat new
  pub distinct : Distinct new
  pub in_range : InRange n new
  pub same : (j : ℕ) → j ≢ b → has j new ≡ false → out.1 j ≡ fat j
  pub done : out.0 ≡ true → length new ≡ missing
  pub stuck : out.0 ≡ false → (length new < missing) × IsFull n out.1

-- the table after one more block has been linked
abbrev linked : Table → ℕ → ℕ → Table
linked fat b i = update (update fat b i) i eoc

linked-free : (fat : Table) (b i j : ℕ) → i ≢ 0 → linked fat b i j ≡ 0 → fat j ≡ 0
linked-free fat b i j ne h = ground arith

Growth-full :
    (missing n : ℕ) (fat : Table) (b : ℕ)
    → fat b ≡ eoc
    → IsFull n fat
    → Growth (suc missing) n fat b (false, fat) []
Growth-full missing n fat b e full = record {
  links = e;
  free = tt;
  distinct = tt;
  in_range = tt;
  same = λ j ne out. refl;
  done = λ t. absurd (false≢true t);
  stuck = λ t. (omega arith, full);
}

Growth-suc :
    (missing n : ℕ) (fat : Table) (b i : ℕ) (out : Bool × Table) (new : List ℕ)
    → n ≤ eoc
    → fat b ≡ eoc
    → find_free n fat ≡ some i
    → Growth missing n (linked fat b i) i out new
    → Growth (suc missing) n fat b out (i ∷ new)
Growth-suc missing n fat b i out new small e h g =
    let (lo, hi, zero_i) = find_free-some n fat h in
    let ne : i ≢ b = λ q. absurd (omega (arith, zero_i, e, ap fat q)) in
    let old : has b new ≡ false = not-has-Free (linked fat b i) b new g.free (ground arith) in
    let fresh : has i new ≡ false = not-has-Free (linked fat b i) i new g.free (ground arith) in
    record {
      links = (ground (arith, g.same b), omega arith, g.links);
      free = (
        zero_i,
        Free-mono fat (linked fat b i) new (λ j. linked-free fat b i j (omega arith)) g.free,
      );
      distinct = (fresh, g.distinct);
      in_range = (lo, hi, g.in_range);
      same = λ j apart outside. ground (arith, g.same j);
      done = λ t. ap suc (g.done t);
      stuck = λ t. (omega (arith, (g.stuck t).0), (g.stuck t).1);
    }

pub extend_chain-Growth :
    (missing n : ℕ) (fat : Table) (b : ℕ)
    → n ≤ eoc
    → fat b ≡ eoc
    → Growth missing n fat b (extend_chain missing n fat b) (grown missing n fat b)
unfolding extend_chain grown
extend_chain-Growth zero n fat b small e = record {
  links = e;
  free = tt;
  distinct = tt;
  in_range = tt;
  same = λ j ne out. refl;
  done = λ t. refl;
  stuck = λ t. absurd (false≢true (sym t));
}
extend_chain-Growth (suc missing) n fat b small e = elim (Option-cases (find_free n fat)) [
  | inl h ↦ rw (h, extend_chain, grown) (Growth-full missing n fat b e (find_free-none n fat h))
  | inr (i, h) ↦
      rw (h, extend_chain, grown)
        (Growth-suc missing n fat b i _ _ small e h
          (extend_chain-Growth missing n (linked fat b i) i small (ground arith)))
]
