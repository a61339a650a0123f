-- ===== src/Fs/Names/Match.antt =====
-- What the two string comparisons of libfs/fs.c decide, and what a stored name compares equal to.
use ecs150_project.Fs.Names.{
  streq_from, is_filename_invalid, streq, CString, strcmp_eq, write_name, c_str, IsCString,
}
use ecs150_project.Fs.State.{filename_len}
use ecs150_project.Prelude.{
  ℕ, zero, suc, ◌+◌, ◌≤◌, ◌<◌, ◌≡◌, refl, ap, ◌∙◌, ◌⊎◌, inl, inr, true, false, some, [], ◌∷◌, arith,
  failure, if◌then◌else◌, pos, update, Bytes,
}
use ecs150_project.Prelude.Lists.{length, get_or}

-- Storing a name writes from `i` on only.
pub write_name-below : (s : CString) (i k : ℕ) (buf : Bytes) → k < i → write_name s i buf k ≡ buf k
unfolding write_name
write_name-below [] i k buf h = ground arith
write_name-below (c ∷ cs) i k buf h = ground (arith, write_name-below cs (i + 1) k (update buf i c))

-- A stored name compares equal to itself.
pub strcmp_eq-write_name_self :
    (s : CString) (i : ℕ) (buf : Bytes) → strcmp_eq s (write_name s i buf) i ≡ true
unfolding strcmp_eq write_name
strcmp_eq-write_name_self [] i buf = ground arith
strcmp_eq-write_name_self (c ∷ cs) i buf = ground (
  arith,
  write_name-below cs (i + 1) i (update buf i c),
  strcmp_eq-write_name_self cs (i + 1) (update buf i c),
)

-- Two C strings that compare equal to one buffer are the same string.
pub strcmp_eq_unique :
    (s t : CString) (buf : Bytes) (i : ℕ)
    → IsCString s
    → IsCString t
    → strcmp_eq s buf i ≡ true
    → strcmp_eq t buf i ≡ true
    → s ≡ t
unfolding strcmp_eq
strcmp_eq_unique [] [] buf i hs ht e f = refl
strcmp_eq_unique [] (d ∷ ds) buf i hs ht e f = ground arith
strcmp_eq_unique (c ∷ cs) [] buf i hs ht e f = ground arith
strcmp_eq_unique (c ∷ cs) (d ∷ ds) buf i hs ht e f =
    ground (arith, strcmp_eq_unique cs ds buf (i + 1) hs.2 ht.2)

-- `tail` is what `str2` holds from index `i` on.
abbrev Holds : Bytes → ℕ → CString → Type 0
Holds str2 i tail = (k : ℕ) → str2 (i + k) ≡ get_or tail k 0

Holds-tail : (str2 : Bytes) (i c : ℕ) (cs : CString) → Holds str2 i (c ∷ cs) → Holds str2 (i + 1) cs
Holds-tail str2 i c cs h k = ground (arith, h (suc k), ap str2 (shift i k))
  where
    shift : (i k : ℕ) → i + 1 + k ≡ i + suc k
    shift i k = omega arith

Holds-head : (str2 : Bytes) (i : ℕ) (s : CString) → Holds str2 i s → str2 i ≡ get_or s 0 0
Holds-head str2 i s h = ground (arith, h 0, ap str2 (unit i))
  where
    unit : (i : ℕ) → i + 0 ≡ i
    unit i = omega arith

streq_from-strcmp_eq :
    (n i : ℕ) (buf str2 : Bytes) (s : CString)
    → IsCString s
    → length s < n
    → Holds str2 i s
    → streq_from n i buf str2 ≡ (if strcmp_eq s buf i then pos 0 else failure)
unfolding streq_from strcmp_eq
streq_from-strcmp_eq zero i buf str2 s cs lt h = absurd (omega arith)
streq_from-strcmp_eq (suc n) i buf str2 [] cs lt h = ground (arith, Holds-head str2 i [] h)
streq_from-strcmp_eq (suc n) i buf str2 (c ∷ tail) cs lt h = ground (
  arith,
  Holds-head str2 i (c ∷ tail) h,
  streq_from-strcmp_eq n (i + 1) buf str2 tail cs.2 (omega arith) (Holds-tail str2 i c tail h),
)

-- On a name of at most 15 characters `streq`, which `fs_delete` compares open files by, agrees with
-- `strcmp`, by which the root directory is searched: it returns 0 exactly when they are equal, and
-- -1 otherwise.
pub streq-strcmp_eq :
    (buf : Bytes) (s : CString)
    → IsCString s
    → length s < filename_len
    → streq buf (c_str s) ≡ (if strcmp_eq s buf 0 then pos 0 else failure)
unfolding streq c_str
streq-strcmp_eq buf s cs lt =
    streq_from-strcmp_eq filename_len 0 buf (c_str s) s cs lt
      (λ k. ap (λ j. get_or s j 0) (omega arith))

-- A name that is not refused is not empty, and fits into an entry with its NUL.
pub is_filename_invalid-bounds :
    (s : CString)
    → is_filename_invalid (some s) ≡ false
    → (0 < length s) × (length s < filename_len)
unfolding is_filename_invalid
is_filename_invalid-bounds [] h = cc
is_filename_invalid-bounds (c ∷ cs) h = ground arith

-- `strcmp` looks no further than the NUL of its first argument.
pub strcmp_eq-same :
    (name : CString) (buf buf' : Bytes) (i : ℕ)
    → i + length name < filename_len
    → ((j : ℕ) → j < filename_len → buf' j ≡ buf j)
    → strcmp_eq name buf' i ≡ strcmp_eq name buf i
unfolding strcmp_eq
strcmp_eq-same [] buf buf' i short same = ground (arith, same i (omega arith))
strcmp_eq-same (c ∷ cs) buf buf' i short same =
    ground (arith, same i (omega arith), strcmp_eq-same cs buf buf' (i + 1) (omega arith) same)

-- What `write_name` stores: the bytes of the name, the NUL, and nothing beside them.
write_name-before : (s : CString) (i j : ℕ) (buf : Bytes) → j < i → write_name s i buf j ≡ buf j
unfolding write_name
write_name-before [] i j buf lt = ground arith
write_name-before (c ∷ cs) i j buf lt =
    ground (arith, write_name-before cs (i + 1) j (update buf i c) (omega arith))

write_name-at :
    (s : CString) (i k : ℕ) (buf : Bytes) → k < length s → write_name s i buf (i + k) ≡ get_or s k 0
unfolding write_name
write_name-at [] i k buf lt = absurd (omega arith)
write_name-at (c ∷ cs) i zero buf lt =
    ground (arith, write_name-before cs (i + 1) (i + 0) (update buf i c) (omega arith))
write_name-at (c ∷ cs) i (suc k) buf lt =
    ap (write_name cs (i + 1) (update buf i c)) (shift i k)
    ∙ write_name-at cs (i + 1) k (update buf i c) (omega arith)
  where
    shift : (i k : ℕ) → i + suc k ≡ i + 1 + k
    shift i k = omega arith

write_name-nul : (s : CString) (i : ℕ) (buf : Bytes) → write_name s i buf (i + length s) ≡ 0
unfolding write_name
write_name-nul [] i buf = ground arith
write_name-nul (c ∷ cs) i buf =
    ap (write_name cs (i + 1) (update buf i c)) (shift i (length cs))
    ∙ write_name-nul cs (i + 1) (update buf i c)
  where
    shift : (i k : ℕ) → i + suc k ≡ i + 1 + k
    shift i k = omega arith

write_name-behind :
    (s : CString) (i j : ℕ) (buf : Bytes) → i + length s < j → write_name s i buf j ≡ buf j
unfolding write_name
write_name-behind [] i j buf lt = ground arith
write_name-behind (c ∷ cs) i j buf lt =
    ground (arith, write_name-behind cs (i + 1) j (update buf i c) (omega arith))

-- A buffer that holds a name: its bytes, the NUL, and behind them what was there.
pub record IsStoredName (name : CString) (old new : Bytes) : Type 0 where
  pub letters : (k : ℕ) → k < length name → new k ≡ get_or name k 0
  pub nul : new (length name) ≡ 0
  pub rest : (k : ℕ) → length name < k → new k ≡ old k

pub write_name-IsStoredName :
    (name : CString) (buf : Bytes) → IsStoredName name buf (write_name name 0 buf)
write_name-IsStoredName name buf = record {
  letters = λ k lt. ap (write_name name 0 buf) (from_start k) ∙ write_name-at name 0 k buf lt;
  nul = ap (write_name name 0 buf) (from_start (length name)) ∙ write_name-nul name 0 buf;
  rest = λ k lt. write_name-behind name 0 k buf (omega (arith, lt));
}
  where
    from_start : (k : ℕ) → k ≡ 0 + k
    from_start k = omega arith

-- Exactly the empty name and names of 16 characters and more are refused.
pub invalid-bounds :
    (s : CString) → is_filename_invalid (some s) ≡ true → (s ≡ []) ⊎ (filename_len ≤ length s)
unfolding is_filename_invalid
invalid-bounds [] h = inl refl
invalid-bounds (c ∷ cs) h = inr (ground arith)
