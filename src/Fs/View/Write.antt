-- ===== src/Fs/View/Write.antt =====
-- `fs_write` in the view: bytes are overwritten or appended under one name.
use ecs150_project.Disk.State.{Host, IsReliable, block_size}
use ecs150_project.Fs.Calls.{fs_write}
use ecs150_project.Fs.Calls.Effect.{WriteEffect, fs_write-WriteEffect}
use ecs150_project.Fs.Calls.Geometry.{IsLaidOut}
use ecs150_project.Fs.Calls.Outcome.{FileWritten}
use ecs150_project.Fs.Calls.Read.{HasChain}
use ecs150_project.Fs.Calls.Slots.{fs_write-SameSlots}
use ecs150_project.Fs.Calls.Write.{WriteOutcome, fs_write-WriteOutcome}
use ecs150_project.Fs.Descriptors.Seek.{IsOpenAt}
use ecs150_project.Fs.Layout.{Layout, IsNamed}
use ecs150_project.Fs.Layout.Descriptors.{IsFirstNamed-IsNamed}
use ecs150_project.Fs.Layout.Others.{file_content-fs_write}
use ecs150_project.Fs.Layout.Write.{Layout-grown, written_chain}
use ecs150_project.Fs.Names.{CString, strcmp_eq}
use ecs150_project.Fs.Root.{IsFirstNamed}
use ecs150_project.Fs.State.{State, file_max_count, FileDescriptor, open_max_count}
use ecs150_project.Fs.Usage.Succeeds.{IsFirstNamed-same}
use ecs150_project.Fs.View.{
  contents_of, UniqueValid, writes, view, IsValidName, Effect, IsOverwritten, file_view,
}
use ecs150_project.Fs.View.Blocks.{bytes-inside, file_view-same, bytes-outside}
use ecs150_project.Fs.View.Names.{view-same, valid-guard, view-some}
use ecs150_project.Prelude.{
  ℕ, ◌+◌, ◌*◌, ◌≤◌, ◌<◌, ◌≡◌, sym, ap, ◌∙◌, ◌≢◌, ◌⊎◌, inl, inr, true, some, List, ◌++◌, arith, ltb,
  ℤ, if◌then◌else◌, ltb→lt, pos, Bool-cases, ◌==◌, Bytes, update, u32,
}
use ecs150_project.Prelude.Lists.{length-append, length}
use mathlib.Core.Path.{subst}
use mathlib.Core.Bool.{false≢true}

-- The file that was written, in the view.
module _ {s s' : State} {d : FileDescriptor} {bs new : List ℕ} {buf : Bytes} {n : ℕ}
    (laid : IsLaidOut s) (c : HasChain s d.file bs) (w : FileWritten s s' d bs new buf n)
    (covers : (k : ℕ) → k < n → d.offset + k < length (bs ++ new) * block_size) where
  kept-view :
      (p b : ℕ)
      → (p < d.offset) ⊎ (d.offset + n ≤ p)
      → (file_view s d.file).bytes p ≡ some b
      → (file_view s' d.file).bytes p ≡ some b
  kept-view p b out e = elim (Bool-cases (ltb p (length bs * block_size))) [
    | inr outside ↦
        let none_there = bytes-outside s d.file laid.fat_small c p (ground arith) in
        absurd (ground (arith, e, none_there))
    | inl inside ↦
        let lt : p < length bs * block_size = ltb→lt _ _ inside in
        bytes-inside s' d.file w.laid.fat_small w.chain p (omega (arith, lt, length-append bs new))
        ∙ (ap some (w.kept p lt out) ∙ (sym (bytes-inside s d.file laid.fat_small c p lt) ∙ e))
  ]

  FileWritten-IsOverwritten :
      (count : ℕ)
      → (s'.root d.file).file_size
        ≡ (if n == count then u32 ((s.root d.file).file_size + n) else (s.root d.file).file_size)
      → IsOverwritten (file_view s d.file) (file_view s' d.file) d.offset count n buf
  unfolding contents_of
  FileWritten-IsOverwritten count size = record {
    stored = λ k lt.
        bytes-inside s' d.file w.laid.fat_small w.chain (d.offset + k) (covers k lt)
        ∙ ap some (w.written k lt);
    kept = kept-view;
    size = size;
  }

module _ (host : Host) (good : IsReliable host) (bounce : Bytes) {s s' : State}
    {blocks : ℕ → List ℕ} {fd : ℕ} {d : FileDescriptor} (l : Layout s blocks) (o : IsOpenAt s fd d)
    (lt : fd < open_max_count) (buf : Bytes) (count : ℕ) (moves : 0 < count) {r : ℤ}
    (e : fs_write host bounce (pos fd) (some buf) count s ≡ some (r, s')) where
  chain_d : HasChain s d.file (blocks d.file)
  chain_d = written_chain host bounce l o lt

  -- What the descriptor's file looks like afterwards.
  abbrev Overwritten : ℕ → Type 0
  Overwritten n = IsOverwritten (file_view s d.file) (file_view s' d.file) d.offset count n buf

  written-view : (n : ℕ) × (r ≡ pos n) × Overwritten n
  unfolding chain_d
  written-view =
      let (res, e', out) =
        fs_write-WriteOutcome host good bounce l.laid o chain_d buf count moves in
      let same : res ≡ (r, s') = ground (arith, e, e') in
      by_outcome (subst (WriteOutcome host good bounce l.laid o chain_d buf count moves) same out)
    where
      by_outcome :
          WriteOutcome host good bounce l.laid o chain_d buf count moves (r, s')
          → (n : ℕ) × (r ≡ pos n) × Overwritten n
      by_outcome (inl (ret, (new, w))) = (
        count,
        ret,
        FileWritten-IsOverwritten l.laid chain_d w.file (λ k lk. omega (arith, w.covers)) count
            (w.size ∙ ground arith),
      )
      by_outcome (inr (n, ret, (new, w))) = (
        n,
        ret,
        FileWritten-IsOverwritten l.laid chain_d w.file (λ k lk. omega (arith, w.covers)) count
            (w.size ∙ ground (arith, w.less)),
      )

  -- Every other file looks as before.
  other-view :
      (g : ℕ) → g < file_max_count → IsNamed s g → g ≢ d.file → file_view s' g ≡ file_view s g
  other-view g lg named ne =
      let (res, q, new, e', a, w) =
        fs_write-WriteEffect host bounce l.laid o chain_d buf count moves in
      let same : res.1 ≡ s' = ground (arith, e, e') in
      let w' : WriteEffect s s' d.file q = subst (λ t. WriteEffect s t d.file q) same w in
      let l' = Layout-grown host bounce l o lt a w' in
      let named' : IsNamed s' g = rw (w'.others g ne) named in
      let chain' : HasChain s' g (blocks g) =
        subst (HasChain s' g) (apart_blocks g new ne) (l'.chains g lg named') in
      file_view-same s s' g l.laid.fat_small l'.laid.fat_small (l.chains g lg named) chain'
        (ap (λ file. file.file_size) (w'.others g ne))
        (λ p inside. file_content-fs_write host bounce buf count l o lt e g p lg named ne inside)
    where
      apart_blocks :
          (g : ℕ) (new : List ℕ)
          → g ≢ d.file
          → update blocks d.file (blocks d.file ++ new) g ≡ blocks g
      apart_blocks g new ne = ground arith

  names-kept : (f : ℕ) → (s'.root f).filename ≡ (s.root f).filename
  names-kept = (fs_write-SameSlots host bounce fd (some buf) count e).names

  -- A name that stands for another file, or for none, stays.
  view-other :
      (name : CString)
      → IsValidName name
      → ((f : ℕ) → IsFirstNamed name s.root f → f ≢ d.file)
      → view s' name ≡ view s name
  view-other name valid apart =
      view-same s s' name (λ k lk. ap (λ b. strcmp_eq name b 0) (names-kept k))
        (λ f found.
          let (lf, named) = IsFirstNamed-IsNamed name s f valid.text (valid-guard valid) found in
          other-view f lf named (apart f found))

  -- The name of the file that is written stands for that file.
  found-written :
      UniqueValid s.root
      → (name : CString) → IsValidName name
      → strcmp_eq name (s.root d.file).filename 0 ≡ true
      → IsFirstNamed name s.root d.file
  found-written u name valid it =
      let (in_range, named) = l.open_named fd d.file lt (ground (arith, o.entry)) in
      record {
        in_range = in_range;
        named = it;
        first = λ k lk. elim (Bool-cases (strcmp_eq name (s.root k).filename 0)) [
          | inr no_match ↦ no_match
          | inl match' ↦
              let same : k ≡ d.file =
                u name valid k d.file valid.nonempty (omega (arith, lk, in_range)) in_range match'
                  it in
              absurd (omega (arith, same, lk))
        ];
      }

  pub Effect-written :
      UniqueValid s.root
      → (n : ℕ) × (r ≡ pos n)
        × Effect (writes (s.root d.file).filename d.offset count n buf) (view s) (view s')
  Effect-written u =
      let (n, ret, over) = written-view in
      (
        n,
        ret,
        (
          λ name valid it.
              let found = found-written u name valid it in
              (
                file_view s d.file,
                file_view s' d.file,
                view-some s name found,
                view-some s' name (IsFirstNamed-same names-kept found),
                over,
              ),
          λ other valid not_it. view-other other valid (λ f found same. false≢true (
              sym not_it
              ∙ (ap (λ g. strcmp_eq other (s.root g).filename 0) (sym same) ∙ found.named))),
        ),
      )
