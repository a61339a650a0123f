-- ===== src/Apps/Tool/Unmounts.antt =====
-- The steps that the commands of apps/test_fs.c share, and the mounted disk.
use ecs150_project.Apps.{finished, Ending, exited, never_ends, is_nonneg, crashed}
use ecs150_project.Apps.Desks.{Desk}
use ecs150_project.Apps.Script.Unmounts.{IsClean, is_zero-eq}
use ecs150_project.Apps.Tool.{
  mount_then, unmount_then, Extras, empty_report, Report, open_then, close_then, CommandResult,
}
use ecs150_project.Fs.Descriptors.{fs_open, fs_close}
use ecs150_project.Fs.Mount.{fs_mount}
use ecs150_project.Fs.Mount.Errors.{fs_mount-mounted}
use ecs150_project.Fs.Names.{CString}
use ecs150_project.Fs.State.{State}
use ecs150_project.Fs.Usage.Mounted.{
  SameMounted-fs_open, fs_umount-zero, SameMounted-fs_close, fs_umount-unmounted,
}
use ecs150_project.Prelude.{
  ◌≡◌, refl, ◌∙◌, ◌⊎◌, inl, inr, true, false, some, List, [], ◌∷◌, ℤ, is_zero, Bool-cases,
}
use Prim.Native.String.{String}

-- No disk is mounted at the end, or `fs_mount` has failed; or a call of the library has not returned.
abbrev pub EndsClean : CommandResult → Type 0
EndsClean (finished s, out) = s.is_disk_mounted ≡ false
EndsClean (exited message s, out) =
    ((message ≡ "Cannot mount disk") ⊎ (message ≡ "Cannot mount diskname"))
    ⊎ (s.is_disk_mounted ≡ false)
EndsClean (never_ends, out) = Unit {0}
EndsClean (crashed, out) = ⊥

-- A script can also follow a NULL pointer.
abbrev pub ScriptEnd : CommandResult → Type 0
ScriptEnd r = EndsClean r ⊎ (r.0 ≡ crashed)

pub clean_or_crashed : (out : List Report) (e : Ending) → IsClean e → ScriptEnd (e, out)
clean_or_crashed out (finished s) h = inl h
clean_or_crashed out (exited message s) h = inl h
clean_or_crashed out never_ends h = inl h
clean_or_crashed out crashed h = inr refl

-- `cat` of an empty file: it has returned with the disk mounted.
abbrev pub LeftMounted : CommandResult → Type 0
LeftMounted r = (s : State) × (r ≡ (finished s, empty_report ∷ [])) × (s.is_disk_mounted ≡ true)

module _ (desk : Desk) (extras : Extras) where
  -- The steps that commands share, for a property that every clean end has.
  module _ (P : CommandResult → Type 0) (clean : (r : CommandResult) → EndsClean r → P r) where
    pub mount_then-ends :
        (diskname : CString) (s : State) (rest : State → CommandResult)
        → ((s1 : State) → s1.is_disk_mounted ≡ true → P (rest s1))
        → P (mount_then desk extras diskname s rest)
    unfolding mount_then
    mount_then-ends diskname s rest h =
        let r = fs_mount desk.host desk.process.memory (some diskname) s in
        elim (Bool-cases (is_zero r.0)) [
          | inl ok ↦ rw ok (
              h r.1 (
                fs_mount-mounted desk.host desk.process.memory (some diskname) s
                  (is_zero-eq r.0 ok)))
          | inr bad ↦ rw bad (clean _ (inl (inr refl)))
        ]

    pub open_then-ends :
        (filename : CString) (s : State) (rest : ℤ → State → CommandResult)
        → s.is_disk_mounted ≡ true
        → ((fd : ℤ) (s1 : State) → s1.is_disk_mounted ≡ true → P (rest fd s1))
        → P (open_then desk extras filename s rest)
    unfolding open_then
    open_then-ends filename s rest m h =
        let r = fs_open desk.process.malloc_ok (some filename) s in
        elim (Bool-cases (is_nonneg r.0)) [
          | inl ok ↦
              rw ok (h r.0 r.1 (SameMounted-fs_open desk.process.malloc_ok (some filename) s ∙ m))
          | inr bad ↦ rw bad (clean _ (inr (fs_umount-unmounted desk.host r.1)))
        ]

  pub unmount_then-EndsClean :
      (message : String) (s : State) (out : List Report)
      → s.is_disk_mounted ≡ true
      → EndsClean (unmount_then desk extras message s out)
  unfolding unmount_then
  unmount_then-EndsClean message s out m =
      rw (fs_umount-zero desk.host s m) (fs_umount-unmounted desk.host s)

  pub close_then-EndsClean :
      (message : String) (fd : ℤ) (s : State) (out : List Report)
      → s.is_disk_mounted ≡ true
      → EndsClean (close_then desk extras message fd s out)
  unfolding close_then
  close_then-EndsClean message fd s out m =
      let r = fs_close fd s in
      elim (Bool-cases (is_zero r.0)) [
        | inl ok ↦ rw ok (unmount_then-EndsClean message r.1 out (SameMounted-fs_close fd s ∙ m))
        | inr bad ↦ rw bad (inr (fs_umount-unmounted desk.host r.1))
      ]
