-- ===== src/Apps/Script/Unmounts.antt =====
-- However a command of a script ends the program, the disk has been unmounted.
use ecs150_project.Apps.{is_nonneg, argument, crashed, never_ends, Ending, finished, exited}
use ecs150_project.Apps.Desks.{
  goes, not_regular, HostFile, Line, zeroed, no_file, Desk, regular, Session, ends, no_stat, wrote,
  successful, Step,
}
use ecs150_project.Apps.Script.{
  comparison, with_data, run_write, unmounted_then, fail, run_mount, with_file, run_open, run_read,
  on_status,
}
use ecs150_project.Apps.Text.{literal, same_text}
use ecs150_project.Fs.Calls.{fs_write, fs_read}
use ecs150_project.Fs.Calls.Slots.{fs_write-mounted}
use ecs150_project.Fs.Descriptors.{fs_open}
use ecs150_project.Fs.Mount.{fs_mount, fs_umount}
use ecs150_project.Fs.Mount.Errors.{fs_mount-mounted}
use ecs150_project.Fs.Names.{c_str, CString}
use ecs150_project.Fs.State.{State}
use ecs150_project.Fs.Usage.Mounted.{
  fs_umount-unmounted, SameMounted-fs_read, fs_umount-zero, SameMounted, SameMounted-fs_open,
}
use ecs150_project.Prelude.{
  ℕ, ◌+◌, ◌≡◌, refl, sym, ap, ◌∙◌, ◌⊎◌, inl, inr, true, false, Option, none, some, List, [], ◌∷◌,
  arith, is_zero, ==→eq, Bool-cases, pos, ℤ, if◌then◌else◌, negsuc,
}
use ecs150_project.Prelude.Lists.{length}
use Prim.Native.String.{String}

-- The flag `mounted` of the script is the one of the library.
abbrev pub IsTracked : Session → Type 0
IsTracked t = t.mounted ≡ t.fs.is_disk_mounted

-- The program has ended with no disk mounted, or a `fs_mount` has failed; or it has not come to an end.
abbrev pub IsClean : Ending → Type 0
IsClean (finished s) = s.is_disk_mounted ≡ false
IsClean (exited message s) =
    ((message ≡ "Cannot mount disk") ⊎ (message ≡ "Cannot mount diskname"))
    ⊎ (s.is_disk_mounted ≡ false)
IsClean never_ends = Unit {0}
IsClean crashed = Unit {0}

abbrev pub IsCleanStep : Step → Type 0
IsCleanStep (goes t) = IsTracked t
IsCleanStep (ends e) = IsClean e

-- A session that has gone on with another state of the library.
IsTracked-same :
    (t : Session) (s : State) (fd : ℤ) (out : List Line)
    → IsTracked t
    → SameMounted t.fs s
    → IsTracked (record t { fs = s; fs_fd = fd; out = out })
IsTracked-same t s fd out h same = h ∙ sym same

pub is_zero-eq : (r : ℤ) → is_zero r ≡ true → r ≡ pos 0
is_zero-eq (pos n) e = ap pos (==→eq n 0 e)
is_zero-eq (negsuc n) e = absurd (ground arith)

module _ (desk : Desk) where
  fail-IsClean : (message : String) (t : Session) → IsCleanStep (fail desk message t)
  unfolding fail
  fail-IsClean message t = inr (fs_umount-unmounted desk.host t.fs)

  with_file-IsClean :
      (path : CString) (t : Session) (use_data : List ℕ → Step)
      → ((bytes : List ℕ) → IsCleanStep (use_data bytes))
      → IsCleanStep (with_file desk path t use_data)
  unfolding with_file
  with_file-IsClean path t use_data h = by_file (desk.file_at path)
    where
      by_file :
          (f : HostFile)
          → IsCleanStep (elim f [
            | no_file ↦ fail desk "open" t
            | no_stat ↦ fail desk "fstat" t
            | not_regular ↦ fail desk "Not a regular file" t
            | regular bytes ↦ use_data bytes
          ])
      by_file no_file = fail-IsClean "open" t
      by_file no_stat = fail-IsClean "fstat" t
      by_file not_regular = fail-IsClean "Not a regular file" t
      by_file (regular bytes) = h bytes

  pub on_status-IsClean :
      (name message : String) (t : Session) (r : ℤ × State)
      → IsTracked t
      → SameMounted t.fs r.1
      → IsCleanStep (on_status desk name message t r)
  unfolding on_status
  on_status-IsClean name message t (r, s) h same = elim (Bool-cases (is_zero r)) [
    | inl ok ↦ rw ok (IsTracked-same t s t.fs_fd (successful name ∷ t.out) h same)
    | inr bad ↦ rw bad (fail-IsClean message (record t { fs = s }))
  ]

  pub with_data-IsClean :
      (message : String) (args : List CString) (t : Session) (use_data : List ℕ → Step)
      → ((bytes : List ℕ) → IsCleanStep (use_data bytes))
      → IsCleanStep (with_data desk message args t use_data)
  unfolding with_data
  with_data-IsClean message [] t use_data h = tt
  with_data-IsClean message (source ∷ args) t use_data h =
      elim (Bool-cases (same_text source (literal "DATA"))) [
        | inl is_data ↦ rw is_data (of_text args)
        | inr other ↦ rw other (elim (Bool-cases (same_text source (literal "FILE"))) [
          | inl is_file ↦ rw is_file (of_file args)
          | inr neither ↦ rw neither (fail-IsClean message t)
        ])
      ]
    where
      of_text :
          (rest : List CString)
          → IsCleanStep (elim (argument rest 0) [ none ↦ ends crashed | some text ↦ use_data text ])
      of_text [] = tt
      of_text (text ∷ rest) = h text

      of_file :
          (rest : List CString)
          → IsCleanStep (elim (argument rest 0) [
            | none ↦ fail desk "open" t
            | some path ↦ with_file desk path t use_data
          ])
      of_file [] = fail-IsClean "open" t
      of_file (path ∷ rest) = with_file-IsClean path t use_data h

  pub run_write-IsClean :
      (bytes : List ℕ) (t : Session) → IsTracked t → IsCleanStep (run_write desk bytes t)
  unfolding run_write
  run_write-IsClean bytes t h =
      by_result
        (fs_write desk.host desk.process.bounce t.fs_fd (some (c_str bytes)) (length bytes) t.fs)
        (λ r e.
          fs_write-mounted desk.host desk.process.bounce t.fs_fd (some (c_str bytes)) (length bytes)
            t.fs e)
    where
      by_result :
          (result : Option (ℤ × State))
          → ((r : ℤ × State) → result ≡ some r → SameMounted t.fs r.1)
          → IsCleanStep (elim result [
            | none ↦ ends never_ends
            | some (count, s) ↦
                if is_nonneg count
                then goes (record t { fs = s; out = wrote count ∷ t.out })
                else fail desk "write error" (record t { fs = s })
          ])
      by_result none same = tt
      by_result (some (count, s)) same = elim (Bool-cases (is_nonneg count)) [
        | inl ok ↦ rw ok (IsTracked-same t s t.fs_fd (wrote count ∷ t.out) h (same (count, s) refl))
        | inr bad ↦ rw bad (fail-IsClean "write error" (record t { fs = s }))
      ]

  pub run_read-IsClean :
      (n : ℤ) (bytes : List ℕ) (t : Session) → IsTracked t → IsCleanStep (run_read desk n bytes t)
  unfolding run_read
  run_read-IsClean (negsuc n) bytes t h = fail-IsClean "invalid data read length" t
  run_read-IsClean (pos n) bytes t h =
      let r =
        fs_read desk.host desk.process.bounce t.fs_fd (some (zeroed (n + 1) desk.process.stack)) n
          t.fs in
      elim (Bool-cases (is_nonneg r.0)) [
        | inl ok ↦ rw ok (
            IsTracked-same t r.2 t.fs_fd (comparison desk r.0 r.1 bytes ∷ t.out) h (
              SameMounted-fs_read desk.host desk.process.bounce t.fs_fd
                (some (zeroed (n + 1) desk.process.stack)) n t.fs))
        | inr bad ↦ rw bad (fail-IsClean "read error" (record t { fs = r.2 }))
      ]

  pub run_open-IsClean :
      (name : Option CString) (t : Session) → IsTracked t → IsCleanStep (run_open desk name t)
  unfolding run_open
  run_open-IsClean name t h =
      let r = fs_open desk.process.malloc_ok name t.fs in
      elim (Bool-cases (is_nonneg r.0)) [
        | inl ok ↦ rw ok (
            IsTracked-same t r.1 r.0 (successful "OPEN" ∷ t.out) h
              (SameMounted-fs_open desk.process.malloc_ok name t.fs))
        | inr bad ↦ rw bad (fail-IsClean "Cannot open file" (record t { fs = r.1; fs_fd = r.0 }))
      ]

  pub run_mount-IsClean : (t : Session) → IsCleanStep (run_mount desk t)
  unfolding run_mount
  run_mount-IsClean t =
      let r = fs_mount desk.host desk.process.memory (some desk.diskname) t.fs in
      elim (Bool-cases (is_zero r.0)) [
        | inl ok ↦ rw ok (
            sym (
              fs_mount-mounted desk.host desk.process.memory (some desk.diskname) t.fs
                (is_zero-eq r.0 ok)))
        | inr bad ↦ rw bad (inl (inl refl))
      ]

  pub run_umount-IsClean :
      (message : String) (t : Session) (next : State → Step)
      → IsTracked t
      → ((s : State) → s.is_disk_mounted ≡ false → IsCleanStep (next s))
      → IsCleanStep (unmounted_then desk message t next)
  unfolding unmounted_then
  run_umount-IsClean message t next h clean = elim (Bool-cases t.mounted) [
    | inl m ↦
        rw (m, fs_umount-zero desk.host t.fs (sym h ∙ m))
          (clean (fs_umount desk.host t.fs).1 (fs_umount-unmounted desk.host t.fs))
    | inr idle ↦ rw idle (clean t.fs (sym h ∙ idle))
  ]
