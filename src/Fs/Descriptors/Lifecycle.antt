-- ===== src/Fs/Descriptors/Lifecycle.antt =====
-- Sequences of `fs_open` and `fs_close`, and the count of open files.
use ecs150_project.Fs.Descriptors.{fs_close, fs_open}
use ecs150_project.Fs.Descriptors.Count.{
  count_open-le, count_open-update, count_open-full, IsCounted,
}
use ecs150_project.Fs.Descriptors.Open.{OpenedAt, OpenResult, fs_open-OpenResult}
use ecs150_project.Fs.Names.{CString}
use ecs150_project.Fs.State.{FileDescriptor, open_max_count, State}
use ecs150_project.Prelude.{
  ℕ, ◌^◌, ◌<◌, ◌≡◌, sym, ap, ◌∙◌, fun_ext, ◌≢◌, inl, inr, Bool, Option, none, some, arith, failure,
  ℤ, ◌==◌, negsuc, Bool-cases, pos, ==→eq, update,
}

pub OpenedAt-eq :
    (malloc_ok : Bool) (name : CString) (s : State) {fd : ℕ} {s' : State}
    → fs_open malloc_ok (some name) s ≡ (pos fd, s')
    → OpenedAt name s s' fd
OpenedAt-eq malloc_ok name s e = rw e at (fs_open-OpenResult malloc_ok name s)

-- Taking a slot and giving it back leaves the table as it was.
update-back :
    (f : ℕ → Option FileDescriptor) (i : ℕ) (d : FileDescriptor)
    → f i ≡ none
    → update (update f i (some d)) i none ≡ f
update-back f i d h = fun_ext λ k. elim (Bool-cases (k == i)) [
  | inl e ↦ ground (arith, h, ap f (==→eq k i e))
  | inr e ↦ ground arith
]

OpenResult-IsCounted :
    (malloc_ok : Bool) (name : CString) {s : State} (r : ℤ × State)
    → OpenResult malloc_ok name s r
    → IsCounted s
    → IsCounted r.1
OpenResult-IsCounted malloc_ok name {s} (pos fd, s') o c = rw o.after (record {
  counted = ground (
    arith,
    c.counted,
    o.was_free,
    count_open-update open_max_count fd s.open_files (some (record { file = o.file; offset = 0 }))
        o.in_range,
    count_open-le open_max_count
        (update s.open_files fd (some (record { file = o.file; offset = 0 }))),
  );
})
OpenResult-IsCounted malloc_ok name (negsuc k, s') (z, same, e) c = rw same c

-- `fs_open` keeps the count of open files, on every branch.
pub fs_open-IsCounted :
    (malloc_ok : Bool) (name : CString) {s : State}
    → IsCounted s
    → IsCounted (fs_open malloc_ok (some name) s).1
fs_open-IsCounted malloc_ok name {s} c =
    OpenResult-IsCounted malloc_ok name _ (fs_open-OpenResult malloc_ok name s) c

-- Closing the descriptor that `fs_open` returned gives back the state before it, the count included.
pub fs_close-fs_open :
    (malloc_ok : Bool) (name : CString) (s : State) {fd : ℕ} {s' : State}
    → s.num_open_files < 2 ^ 8
    → fs_open malloc_ok (some name) s ≡ (pos fd, s')
    → fs_close (pos fd) s' ≡ (pos 0, s)
unfolding fs_close
fs_close-fs_open malloc_ok name s {fd} {s'} small e =
    let o = OpenedAt-eq malloc_ok name s e in
    rw o.after (
      ground (
        arith,
        o.mounted,
        o.in_range,
        update-back s.open_files fd (record { file = o.file; offset = 0 }) o.was_free,
      ))

-- A second `fs_open` returns another descriptor than the first.
pub fs_open-distinct :
    (malloc_ok malloc_ok' : Bool) (name name' : CString) (s s1 s2 : State) (a b : ℕ)
    → fs_open malloc_ok (some name) s ≡ (pos a, s1)
    → fs_open malloc_ok' (some name') s1 ≡ (pos b, s2)
    → a ≢ b
fs_open-distinct malloc_ok malloc_ok' name name' s s1 s2 a b e f same =
    let o = OpenedAt-eq malloc_ok name s e in
    let o' = OpenedAt-eq malloc_ok' name' s1 f in
    let taken : s1.open_files a ≡ some (record { file = o.file; offset = 0 }) =
      ground (arith, o.after) in
    ground (arith, taken, o'.was_free, ap s1.open_files same)

OpenResult-full :
    (malloc_ok : Bool) (name : CString) {s : State} (r : ℤ × State)
    → OpenResult malloc_ok name s r
    → IsCounted s
    → s.num_open_files ≡ open_max_count
    → r ≡ (failure, s)
OpenResult-full malloc_ok name {s} (pos fd, s') o c full = ground (
  arith,
  o.was_free,
  count_open-full open_max_count s.open_files (sym c.counted ∙ full) fd o.in_range,
)
OpenResult-full malloc_ok name (negsuc k, s') (z, same, e) c full = ground arith

-- With all 32 entries taken `fs_open` returns -1 and changes nothing.
fs_open-full :
    (malloc_ok : Bool) (name : CString) (s : State)
    → IsCounted s
    → s.num_open_files ≡ open_max_count
    → fs_open malloc_ok (some name) s ≡ (failure, s)
fs_open-full malloc_ok name s c full =
    OpenResult-full malloc_ok name _ (fs_open-OpenResult malloc_ok name s) c full

-- `fs_close` keeps the count of open files, if the descriptor is one of the 32 entries.
pub fs_close-IsCounted :
    (fd : ℕ) {s : State} → IsCounted s → fd < open_max_count → IsCounted (fs_close (pos fd) s).1
unfolding fs_close
fs_close-IsCounted fd {s} c lt = record {
  counted = ground (
    arith,
    c.counted,
    count_open-update open_max_count fd s.open_files none lt,
    count_open-le open_max_count s.open_files,
  );
}
