-- ===== src/Fs/Mount/Root.antt =====
-- The root directory as `fs_umount` stores it and `fs_mount` loads it.
use ecs150_project.Fs.Codec.{
  concatenate_two_bytes-low_byte, root_array, file_byte, concatenate_four_bytes-low_byte,
}
use ecs150_project.Fs.Mount.{load_entries, load_root_directory, first_nonzero, parse_file}
use ecs150_project.Fs.State.{file_max_count, filename_len, File}
use ecs150_project.Prelude.{
  ℕ, zero, suc, ◌+◌, ◌-◌, ◌*◌, ◌/◌, ◌%◌, ◌^◌, ◌≤◌, ◌<◌, ◌≡◌, refl, ap, ◌∙◌, inl, inr, true, not,
  Option, none, arith, pos, ◌==◌, ==→eq, Bool-cases, ℤ, Option-cases, is_some, update, Bytes,
}
use ecs150_project.Prelude.Search.{none-find_first}

-- Two entries that agree in every byte that is stored.
pub record SameFile (f g : File) : Type 0 where
  pub filename : (j : ℕ) → j < filename_len → f.filename j ≡ g.filename j
  pub file_size : f.file_size ≡ g.file_size
  pub first_index : f.first_index ≡ g.first_index
  pub padding : (j : ℕ) → j < 10 → f.padding j ≡ g.padding j

-- An entry that can be stored and loaded: its numbers fit, and its padding is zero.
pub record IsStorable (f : File) : Type 0 where
  pub size_fits : f.file_size < 2 ^ 32
  pub index_fits : f.first_index < 2 ^ 16
  pub padding_zero : (j : ℕ) → j < 10 → f.padding j ≡ 0

root_array-file_byte :
    (root : ℕ → File) (f j : ℕ) → j < 32 → root_array root (32 * f + j) ≡ file_byte (root f) j
unfolding root_array
root_array-file_byte root f j lt =
    let q : (32 * f + j) / 32 ≡ f = omega arith in
    let r : (32 * f + j) % 32 ≡ j = omega arith in rw (q, r) refl

module _ (root : ℕ → File) (buf : Bytes) (stored : (k : ℕ) → k < 4096 → buf k ≡ root_array root k)
    (f : ℕ) (lt : f < file_max_count) where
  buf-file_byte : (j : ℕ) → j < 32 → buf (32 * f + j) ≡ file_byte (root f) j
  buf-file_byte j lj = stored (32 * f + j) (omega arith) ∙ root_array-file_byte root f j lj

  -- Loading an entry gives the entry that was stored.
  SameFile-parse_file :
      (f0 : File) → IsStorable (root f) → SameFile (parse_file buf (32 * f) f0) (root f)
  unfolding parse_file file_byte
  SameFile-parse_file f0 h = record {
    filename = λ j lj. ground (arith, buf-file_byte j (omega arith), ap buf (index f j));
    file_size =
        rw
          (
            buf-file_byte 16 (omega arith),
            buf-file_byte 17 (omega arith),
            buf-file_byte 18 (omega arith),
            buf-file_byte 19 (omega arith),
          )
          (concatenate_four_bytes-low_byte (root f).file_size h.size_fits);
    first_index =
        rw (buf-file_byte 20 (omega arith), buf-file_byte 21 (omega arith))
          (concatenate_two_bytes-low_byte (root f).first_index h.index_fits);
    padding = λ j lj.
        ground (arith, buf-file_byte (22 + j) (omega arith), ap buf (padding_index f j), unshift j);
  }
    where
      index : (f j : ℕ) → 32 * f + (j - 0) ≡ 32 * f + j
      index f j = omega arith

      padding_index : (f j : ℕ) → 32 * f + 22 + (j - 0) ≡ 32 * f + (22 + j)
      padding_index f j = omega arith

      unshift : (j : ℕ) → (root f).padding (22 + j - 22) ≡ (root f).padding j
      unshift j = ap (root f).padding (omega arith)

  first_nonzero-stored : IsStorable (root f) → first_nonzero buf (32 * f + 22) 10 ≡ none
  unfolding file_byte
  first_nonzero-stored h =
      none-find_first (λ i. not (buf (32 * f + 22 + i) == 0)) 0 10
        (λ k lo hi. ground (
          arith,
          buf-file_byte (22 + k) (omega arith),
          ap buf (padding_index f k),
          ap (root f).padding (unshift k),
          h.padding_zero k (omega arith),
        ))
    where
      padding_index : (f j : ℕ) → 32 * f + 22 + j ≡ 32 * f + (22 + j)
      padding_index f j = omega arith

      unshift : (j : ℕ) → 22 + j - 22 ≡ j
      unshift j = omega arith

module _ (root : ℕ → File) (buf : Bytes) (stored : (k : ℕ) → k < 4096 → buf k ≡ root_array root k)
    (storable : (f : ℕ) → f < file_max_count → IsStorable (root f)) (new_file : ℕ → Option File)
    (allocated : (f : ℕ) → is_some (new_file f) ≡ true) where
  -- What a load of the entries from `f` on gives: those, and before them what was there.
  record LoadedFrom (n f : ℕ) (old : ℕ → File) (out : ℤ × (ℕ → File)) : Type 0 where
    success : out.0 ≡ pos 0
    same : (g : ℕ) → f ≤ g → g < f + n → SameFile (out.1 g) (root g)
    before : (g : ℕ) → g < f → out.1 g ≡ old g

  load_entries-LoadedFrom :
      (n f : ℕ) (old : ℕ → File)
      → f + n ≤ file_max_count
      → LoadedFrom n f old (load_entries new_file buf n f old)
  unfolding load_entries
  load_entries-LoadedFrom zero f old le = record {
    success = refl;
    same = λ g lo hi. absurd (omega arith);
    before = λ g lt. refl;
  }
  load_entries-LoadedFrom (suc n) f old le = elim (Option-cases (new_file f)) [
    | inl failed ↦ absurd (ground (arith, allocated f))
    | inr (f0, e) ↦
        let lt : f < file_max_count = omega arith in
        let zero_padding = first_nonzero-stored root buf stored f lt (storable f lt) in
        let entry = parse_file buf (32 * f) f0 in
        let rest = load_entries-LoadedFrom n (f + 1) (update old f entry) (omega arith) in
        let E : load_entries new_file buf (suc n) f old
            ≡ load_entries new_file buf n (f + 1) (update old f entry) =
          ground (arith, e, zero_padding) in
        let here : SameFile entry (root f) =
          SameFile-parse_file root buf stored f lt f0 (storable f lt) in
        rw E (record {
          success = rest.success;
          same = λ g lo hi. elim (Bool-cases (g == f)) [
            | inl q ↦
                let r : (load_entries new_file buf n (f + 1) (update old f entry)).1 g ≡ entry =
                  rest.before g (ground arith) ∙ ground arith in
                rw (r, ==→eq g f q) here
            | inr ne ↦ rest.same g (ground arith) (omega arith)
          ];
          before = λ g below. rest.before g (omega arith) ∙ ground arith;
        })
  ]

  -- Loading the block that `fs_umount` stored succeeds, and gives the entries back.
  pub load_root_directory-root_array :
      (old : ℕ → File)
      → ((load_root_directory new_file buf old).0 ≡ pos 0)
        × ((f : ℕ)
            → f < file_max_count
            → SameFile ((load_root_directory new_file buf old).1 f) (root f))
  unfolding load_root_directory
  load_root_directory-root_array old =
      let l = load_entries-LoadedFrom file_max_count 0 old (omega arith) in
      (l.success, λ f lt. l.same f (omega arith) (omega arith))
