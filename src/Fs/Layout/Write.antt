-- ===== src/Fs/Layout/Write.antt =====
-- `fs_write` keeps the layout of the files, and the contents of the files that it is not about.
use ecs150_project.Disk.State.{Host}
use ecs150_project.Fs.Calls.{fs_write}
use ecs150_project.Fs.Calls.Effect.{fs_write-WriteEffect, WriteEffect}
use ecs150_project.Fs.Calls.Read.{HasChain}
use ecs150_project.Fs.Descriptors.Seek.{
  IsOpenAt-cases, guarded_entry-IsRefused, guarded_entry-IsOpenAt, IsOpenAt,
}
use ecs150_project.Fs.Fat.{Allocated}
use ecs150_project.Fs.Fat.Allocate.{Allocation}
use ecs150_project.Fs.Fat.Blocks.{has-append, has-zero}
use ecs150_project.Fs.Layout.{Layout, IsWellFormed, IsNamed}
use ecs150_project.Fs.Layout.Chains.{IsChain-apart, IsChain-same}
use ecs150_project.Fs.State.{
  open_max_count, eoc, State, file_max_count, FileDescriptor, guarded_entry,
}
use ecs150_project.Prelude.{
  ℕ, ◌<◌, ◌≡◌, sym, ap, ◌∙◌, ◌≢◌, inl, inr, true, false, Option, some, List, ◌++◌, arith,
  Bool-cases, Option-cases, ℤ, ==→eq, ◌==◌, pos, Bytes, update,
}
use ecs150_project.Prelude.Lists.{has}
use mathlib.Core.Path.{subst}

module _ (host : Host) (bounce : Bytes) {s : State} {blocks : ℕ → List ℕ} {fd : ℕ}
    {d : FileDescriptor} (l : Layout s blocks) (o : IsOpenAt s fd d)
    (lt_fd : fd < open_max_count) where
  written-IsNamed : (d.file < file_max_count) × IsNamed s d.file
  written-IsNamed = l.open_named fd d.file lt_fd (ground (arith, o.entry))

  pub written_chain : HasChain s d.file (blocks d.file)
  written_chain = l.chains d.file written-IsNamed.0 written-IsNamed.1

  module _ {s' : State} {r : Allocated} {new : List ℕ} {target : ℕ}
      (a : Allocation s.sb.num_data_blocks target s.fat (blocks d.file) r new)
      (w : WriteEffect s s' d.file r) where
    abbrev pub grown_blocks : ℕ → List ℕ
    grown_blocks = update blocks d.file (blocks d.file ++ new)

    was-IsNamed : (g : ℕ) → IsNamed s' g → IsNamed s g
    was-IsNamed g named = elim (Bool-cases (g == d.file)) [
      | inl e ↦ subst (IsNamed s) (sym (==→eq g d.file e)) written-IsNamed.1
      | inr ne ↦ rw (← w.others g (ground arith)) named
    ]

    still-IsNamed : (g : ℕ) → IsNamed s g → IsNamed s' g
    still-IsNamed g named = elim (Bool-cases (g == d.file)) [
      | inl e ↦ rw (==→eq g d.file e, w.name) written-IsNamed.1
      | inr ne ↦ rw (w.others g (ground arith)) named
    ]

    -- The blocks of another file are not among the ones written.
    pub other_apart :
        (g j : ℕ)
        → g < file_max_count
        → IsNamed s g
        → g ≢ d.file
        → has j (blocks g) ≡ true
        → has j (blocks d.file ++ new) ≡ false
    other_apart g j lt named ne inside = ground (
      arith,
      has-append j (blocks d.file) new,
      l.apart g d.file j lt written-IsNamed.0 named written-IsNamed.1 ne inside,
      IsChain-apart new j (l.chains g lt named) a.free inside,
    )

    pub other_same :
        (g j : ℕ)
        → g < file_max_count
        → IsNamed s g
        → g ≢ d.file
        → has j (blocks g) ≡ true
        → s'.fat j ≡ s.fat j
    other_same g j lt named ne inside =
        ap (λ t. t j) w.fat
        ∙ a.same j (l.apart g d.file j lt written-IsNamed.0 named written-IsNamed.1 ne inside)
            (IsChain-apart new j (l.chains g lt named) a.free inside)

    chain-grown : (g : ℕ) → g < file_max_count → IsNamed s' g → HasChain s' g (grown_blocks g)
    chain-grown g lt named = elim (Bool-cases (g == d.file)) [
      | inl e ↦ rw (e, ==→eq g d.file e, w.sb, w.fat, w.first) a.chain
      | inr ne ↦
          let old = was-IsNamed g named in
          let apart_g : g ≢ d.file = ground arith in
          rw (ne, w.sb, w.others g apart_g)
            (IsChain-same (l.chains g lt old) (λ j inside. other_same g j lt old apart_g inside))
    ]

    apart-grown :
        (g h j : ℕ)
        → g < file_max_count
        → h < file_max_count
        → IsNamed s g
        → IsNamed s h
        → g ≢ h
        → has j (grown_blocks g) ≡ true
        → has j (grown_blocks h) ≡ false
    apart-grown g h j lg lh ng nh ne inside = elim (Bool-cases (h == d.file)) [
      | inl eh ↦
          let apart_g : g ≢ d.file = λ q. ne (q ∙ sym (==→eq h d.file eh)) in
          rw eh (other_apart g j lg ng apart_g (ground arith))
      | inr nh_file ↦ elim (Bool-cases (g == d.file)) [
        | inr ng_file ↦ rw nh_file (l.apart g h j lg lh ng nh ne (ground arith))
        | inl eg ↦ elim (Bool-cases (has j (blocks h))) [
          | inr out ↦ rw nh_file out
          | inl both ↦ absurd (ground (arith, other_apart h j lh nh (ground arith) both))
        ]
      ]
    ]

    mark-grown : s'.fat 0 ≡ eoc
    mark-grown =
        let out : has 0 (blocks d.file ++ new) ≡ false =
          has-zero s.sb.num_data_blocks (blocks d.file ++ new) a.chain.in_range in
        ap (λ t. t 0) w.fat
        ∙ (a.same 0 (ground (arith, out, has-append 0 (blocks d.file) new))
              (ground (arith, out, has-append 0 (blocks d.file) new))
            ∙ l.mark)

    pub Layout-grown : Layout s' grown_blocks
    Layout-grown = record {
      laid = record {
        opened = rw w.fd l.laid.opened;
        fat_small = rw w.sb l.laid.fat_small;
        fits = rw (w.sb, w.bcount) l.laid.fits;
        small = rw w.sb l.laid.small;
      };
      mark = mark-grown;
      chains = chain-grown;
      apart = λ g h j lg lh ng nh ne inside.
          apart-grown g h j lg lh (was-IsNamed g ng) (was-IsNamed h nh) ne inside;
      open_named = λ k g lt e.
          let (lg, named) = l.open_named k g lt (sym (w.files k) ∙ e) in
          (lg, still-IsNamed g named);
    }

-- `fs_write` keeps the layout.
pub IsWellFormed-fs_write :
    (host : Host) (bounce : Bytes) (fd : ℕ) (buf : Option Bytes) (count : ℕ) {s s' : State} {r : ℤ}
    → IsWellFormed s
    → fd < open_max_count
    → fs_write host bounce (pos fd) buf count s ≡ some (r, s')
    → IsWellFormed s'
unfolding fs_write guarded_entry
IsWellFormed-fs_write host bounce fd buf count {s} {s'} {r} (blocks, l) lt e =
    elim (IsOpenAt-cases s fd) [
      | inl refused ↦
          let same : s ≡ s' = ground (arith, e, guarded_entry-IsRefused refused) in
          subst IsWellFormed same (blocks, l)
      | inr (d, o) ↦ elim (Option-cases buf) [
        | inl no_buf ↦
            let same : s ≡ s' = ground (arith, e, guarded_entry-IsOpenAt o, no_buf) in
            subst IsWellFormed same (blocks, l)
        | inr (b, some_buf) ↦ elim (Bool-cases (count == 0)) [
          | inl none_moves ↦
              let same : s ≡ s' = ground (arith, e, guarded_entry-IsOpenAt o) in
              subst IsWellFormed same (blocks, l)
          | inr moves ↦
              let (res, q, new, e', a, w) =
                fs_write-WriteEffect host bounce l.laid o (written_chain host bounce l o lt) b count
                  (ground arith) in
              let same : res.1 ≡ s' = ground (arith, e, e', some_buf) in
              subst IsWellFormed same (_, Layout-grown host bounce l o lt a w)
        ]
      ]
    ]
