-- ===== src/Prelude/Arrays.antt =====
-- C arrays as functions of the index, and machine words.
-- An array is given at every index, also outside its bounds: there it stands for the memory around
-- it. Which accesses stay inside the bounds is a matter of theorems.
use Prim.Native.Nat.{ℕ, ◌+◌, ◌-◌, ◌%◌, ◌^◌}
use mathlib.Core.Bool.{◌&&◌}
use ecs150_project.Prelude.Tests.{◌==◌, ltb, leb, if◌then◌else◌}

-- `uint16_t` and `uint32_t`
abbrev pub u16 : ℕ → ℕ
u16 n = n % 2 ^ 16

abbrev pub u32 : ℕ → ℕ
u32 n = n % 2 ^ 32

abbrev pub u8 : ℕ → ℕ
u8 n = n % 2 ^ 8

-- a run of bytes in memory
abbrev pub Bytes : Type 0
Bytes = ℕ → ℕ

-- a[i] = v
abbrev pub update {ℓ} : {A : Type ℓ} → (ℕ → A) → ℕ → A → ℕ → A
update a i v j = if j == i then v else a j

-- `memcpy(dst + to, src + from, n)`
abbrev pub memcpy : Bytes → ℕ → Bytes → ℕ → ℕ → Bytes
memcpy dst to src from n k = if leb to k && ltb k (to + n) then src (from + (k - to)) else dst k
