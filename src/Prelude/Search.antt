-- ===== src/Prelude/Search.antt =====
-- The search loops `for (i = from; i < from + n; i++) if (test(i)) ...; break;`.
use ecs150_project.Prelude.Tests.{◌==◌, ==→eq, if◌then◌else◌, Bool-cases}
use Prim.Native.Nat.{ℕ, zero, suc, ◌+◌, ◌≤◌, ◌<◌}
use mathlib.Core.Path.{◌≡◌, refl, ap}
use mathlib.Core.Logic.{inl, inr}
use mathlib.Core.Bool.{Bool, true, false}
use mathlib.Core.Option.{Option, none, some}
use native.Mathlib.Omega.{arith}

-- the first index from `i` on, among `n`, that passes the test
unfoldable pub find_first : (ℕ → Bool) → ℕ → ℕ → Option ℕ
find_first test i zero = none
find_first test i (suc n) = let rest = find_first test (i + 1) n in if test i then some i else rest

-- What a search that stopped at `j` has found.
pub record Found (test : ℕ → Bool) (i n j : ℕ) : Type 0 where
  pub lower : i ≤ j
  pub upper : j < i + n
  pub passes : test j ≡ true
  pub first : (k : ℕ) → i ≤ k → k < j → test k ≡ false

step-Found :
    (test : ℕ → Bool) (i n j : ℕ) → test i ≡ false → Found test (i + 1) n j → Found test i (suc n) j
step-Found test i n j miss f = record {
  lower = omega arith;
  upper = omega arith;
  passes = f.passes;
  first = λ k lo hi. elim (Bool-cases (i == k)) [
    | inl e ↦ ground (arith, miss, ap test (==→eq i k e))
    | inr ne ↦ f.first k (ground arith) hi
  ];
}

here-Found : (test : ℕ → Bool) (i n j : ℕ) → test i ≡ true → i ≡ j → Found test i (suc n) j
here-Found test i n j hit e = record {
  lower = omega arith;
  upper = omega arith;
  passes = rw (← e) hit;
  first = λ k lo hi. absurd (omega arith);
}

pub find_first-Found :
    (test : ℕ → Bool) (i n : ℕ) {j : ℕ} → find_first test i n ≡ some j → Found test i n j
unfolding find_first
find_first-Found test i zero h = cc
find_first-Found test i (suc n) {j} h = elim (Bool-cases (test i)) [
  | inl hit ↦ here-Found test i n j hit (ground arith)
  | inr miss ↦ step-Found test i n j miss (find_first-Found test (i + 1) n (ground arith))
]

pub find_first-none :
    (test : ℕ → Bool) (i n : ℕ)
    → find_first test i n ≡ none
    → (k : ℕ) → i ≤ k
    → k < i + n
    → test k ≡ false
unfolding find_first
find_first-none test i zero h k lo hi = absurd (omega arith)
find_first-none test i (suc n) h k lo hi = elim (Bool-cases (i == k)) [
  | inl e ↦ ground (arith, ap test (==→eq i k e))
  | inr ne ↦ find_first-none test (i + 1) n (ground arith) k (ground arith) (omega arith)
]

-- The search finds the first index that passes.
pub Found-find_first :
    (test : ℕ → Bool) (i n j : ℕ)
    → i ≤ j
    → j < i + n
    → test j ≡ true
    → ((k : ℕ) → k < j → test k ≡ false)
    → find_first test i n ≡ some j
unfolding find_first
Found-find_first test i zero j lo hi hit before = absurd (omega arith)
Found-find_first test i (suc n) j lo hi hit before = elim (Bool-cases (i == j)) [
  | inl e ↦ ground (arith, hit, ap test (==→eq i j e))
  | inr ne ↦
      ground
        (arith, before i, Found-find_first test (i + 1) n j (ground arith) (omega arith) hit before)
]

-- A search in which no index passes finds none.
pub none-find_first :
    (test : ℕ → Bool) (i n : ℕ)
    → ((k : ℕ) → i ≤ k → k < i + n → test k ≡ false)
    → find_first test i n ≡ none
unfolding find_first
none-find_first test i zero fails = refl
none-find_first test i (suc n) fails = ground (
  arith,
  fails i (omega arith) (omega arith),
  none-find_first test (i + 1) n (λ k lo hi. fails k (omega arith) (omega arith)),
)
