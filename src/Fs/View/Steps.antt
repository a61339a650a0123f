-- ===== src/Fs/View/Steps.antt =====
-- Every call is a step of the specification.
use ecs150_project.Disk.State.{Host, IsReliable}
use ecs150_project.Fs.Calls.{fs_read, fs_write}
use ecs150_project.Fs.Descriptors.{fs_close, fs_open, fs_lseek}
use ecs150_project.Fs.Descriptors.Seek.{
  guarded_entry-IsOpenAt, guarded_entry-IsRefused, IsOpenAt-cases,
}
use ecs150_project.Fs.Directory.{fs_create}
use ecs150_project.Fs.Layout.{IsWellFormed}
use ecs150_project.Fs.Layout.Steps.{
  on_lseek, Call, on_open, on_write, on_read, on_close, on_delete, on_create,
}
use ecs150_project.Fs.Persist.Savable.{
  Unmoved, Unmoved-fs_read, Unmoved-fs_open, Unmoved-fs_lseek, Unmoved-fs_close,
}
use ecs150_project.Fs.State.{open_max_count, guarded_entry, State, FileDescriptor}
use ecs150_project.Fs.View.{UniqueValid, writes, view, deletes, nothing, Unchanged, Effect, Event}
use ecs150_project.Fs.View.Create.{create_event, Effect-fs_create}
use ecs150_project.Fs.View.Delete.{Effect-fs_delete}
use ecs150_project.Fs.View.Write.{Effect-written}
use ecs150_project.Prelude.{
  ℕ, ◌<◌, ◌≡◌, refl, sym, ap, ◌∙◌, inl, inr, true, Option, none, some, arith, ℤ, negsuc,
  Option-cases, if◌then◌else◌, pos, ◌==◌, Bool-cases, Bytes,
}
use mathlib.Core.Path.{subst}

view-Unmoved : (s s' : State) → Unmoved s s' → Unchanged (view s) (view s')
unfolding view
view-Unmoved s s' u name valid = rw (u.root, u.fat, u.sb, u.disk) refl

-- The event of a write through `fd`: bytes are written only through an open descriptor, from a buffer.
abbrev pub write_event : State → ℕ → Option Bytes → ℕ → ℤ → Event
write_event s fd buf count (negsuc k) = nothing
write_event s fd none count (pos n) = nothing
write_event s fd (some b) count (pos n) = elim (guarded_entry s (pos fd)) [
  | none ↦ nothing
  | some (_, d) ↦ if count == 0 then nothing else writes (s.root d.file).filename d.offset count n b
]

refused-event :
    (s : State) (fd : ℕ) (buf : Option Bytes) (count : ℕ) (r : ℤ)
    → guarded_entry s (pos fd) ≡ none
    → write_event s fd buf count r ≡ nothing
refused-event s fd buf count (negsuc k) e = refl
refused-event s fd none count (pos n) e = refl
refused-event s fd (some b) count (pos n) e = ground arith

null-event : (s : State) (fd count : ℕ) (r : ℤ) → write_event s fd none count r ≡ nothing
null-event s fd count (negsuc k) = refl
null-event s fd count (pos n) = refl

zero-event :
    (s : State) {fd : ℕ} {d : FileDescriptor} (b : Bytes) (count : ℕ) (r : ℤ)
    → guarded_entry s (pos fd) ≡ some (fd, d)
    → (count == 0) ≡ true
    → write_event s fd (some b) count r ≡ nothing
zero-event s b count (negsuc k) e z = refl
zero-event s b count (pos n) e z = ground arith

Effect-fs_write :
    (host : Host) (bounce : Bytes) (fd : ℕ) (buf : Option Bytes) (count : ℕ) (s s' : State) (r : ℤ)
    → IsReliable host
    → IsWellFormed s
    → UniqueValid s.root
    → fd < open_max_count
    → fs_write host bounce (pos fd) buf count s ≡ some (r, s')
    → Effect (write_event s fd buf count r) (view s) (view s')
unfolding fs_write
Effect-fs_write host bounce fd buf count s s' r good (blocks, l) u lt e =
    elim (IsOpenAt-cases s fd) [
      | inl refused ↦
          let g = guarded_entry-IsRefused refused in
          quiet buf (refused-event s fd buf count r g) (ground (arith, e, g))
      | inr (d, o) ↦
          let g = guarded_entry-IsOpenAt o in
          elim (Option-cases buf) [
            | inl no_buf ↦
                quiet buf (rw no_buf (null-event s fd count r)) (ground (arith, e, g, no_buf))
            | inr (b, some_buf) ↦
                let e' = ap (λ q. fs_write host bounce (pos fd) q count s) (sym some_buf) ∙ e in
                elim (Bool-cases (count == 0)) [
                  | inl none_moves ↦
                      quiet buf (rw some_buf (zero-event s b count r g none_moves))
                        (ground (arith, e', g))
                  | inr moves ↦
                      let (n, ret, effect) =
                        Effect-written host good bounce l o lt b count (ground arith) e' u in
                      let event : write_event s fd buf count r
                          ≡ writes (s.root d.file).filename d.offset count n b =
                        rw (some_buf, ret) (ground (arith, g)) in
                      subst (λ ev. Effect ev (view s) (view s')) (sym event) effect
                ]
          ]
    ]
  where
    quiet :
        (q : Option Bytes)
        → write_event s fd q count r ≡ nothing
        → s ≡ s'
        → Effect (write_event s fd q count r) (view s) (view s')
    quiet q event same =
        subst (λ ev. Effect ev (view s) (view s')) (sym event)
          (λ name valid. ap (λ t. view t name) (sym same))

-- The event of a call.
abbrev pub event_of : {host : Host} {bounce : Bytes} {s s' : State} → Call host bounce s s' → Event
event_of {s = s} (on_create name text) = create_event name (fs_create (some name) s).0
event_of (on_delete name i r s2 gone short e) = deletes name
event_of (on_open malloc_ok name text) = nothing
event_of (on_close fd lt) = nothing
event_of (on_lseek fd offset lt) = nothing
event_of {s = s} (on_write fd buf count r s2 lt e) = write_event s fd buf count r
event_of (on_read fd buf count lt) = nothing

-- On a reliable host every call on a well-formed file system whose names are unique has the effect of
-- its event.
pub Effect-Call :
    {host : Host} {bounce : Bytes} {s s' : State}
    → IsReliable host
    → IsWellFormed s
    → UniqueValid s.root
    → (call : Call host bounce s s') → Effect (event_of call) (view s) (view s')
Effect-Call {s} good w u (on_create name text) = Effect-fs_create name s text
Effect-Call {s} {s'} good w u (on_delete name i r s2 gone short e) =
    Effect-fs_delete name s s2 i r w u gone short e
Effect-Call {s} good w u (on_open malloc_ok name text) =
    view-Unmoved s (fs_open malloc_ok (some name) s).1 (Unmoved-fs_open malloc_ok name s)
Effect-Call {s} good w u (on_close fd lt) =
    view-Unmoved s (fs_close (pos fd) s).1 (Unmoved-fs_close fd s)
Effect-Call {s} good w u (on_lseek fd offset lt) =
    view-Unmoved s (fs_lseek (pos fd) offset s).1 (Unmoved-fs_lseek fd offset s)
Effect-Call {host} {bounce} {s} good w u (on_write fd buf count r s2 lt e) =
    Effect-fs_write host bounce fd buf count s s2 r good w u lt e
Effect-Call {host} {bounce} {s} good w u (on_read fd buf count lt) =
    view-Unmoved s (fs_read host bounce (pos fd) buf count s).2
      (Unmoved-fs_read host bounce fd buf count s)
