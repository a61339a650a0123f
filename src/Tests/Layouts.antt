-- ===== src/Tests/Layouts.antt =====
-- The invariant of the files on the disk of `Demo`.
use ecs150_project.Fs.Calls.Read.{file_content}
use ecs150_project.Fs.Descriptors.{fs_lseek}
use ecs150_project.Fs.Descriptors.Count.{count_open, IsCounted}
use ecs150_project.Fs.Directory.{fs_create}
use ecs150_project.Fs.Layout.{IsNamed, IsWellFormed, Layout}
use ecs150_project.Fs.Layout.Counted.{IsCounted-Run}
use ecs150_project.Fs.Layout.Others.{file_content-fs_write}
use ecs150_project.Fs.Layout.Steps.{
  no_call, on_lseek, on_write, one_more, IsWellFormed-Run, Run, on_create,
}
use ecs150_project.Prelude.{
  ℕ, ◌≤◌, ◌<◌, ◌≡◌, refl, inl, inr, false, some, List, [], ◌∷◌, arith, ◌==◌, ==→eq, pos, Bool-cases,
  if◌then◌else◌,
}
use ecs150_project.Tests.Demo.{
  state-IsLaidOut, state, zeros, host, chain_c, name_d-IsCString, chain_ab, state-IsOpenAt, name_d,
}
use ecs150_project.Tests.Transfers.{data_bytes, after, after-eq}

abbrev pub demo_blocks : ℕ → List ℕ
demo_blocks f = if f == 0 then 1 ∷ 2 ∷ [] else if f == 1 then 3 ∷ [] else []

state-named : (f : ℕ) → IsNamed state f → f < 2
state-named f named = ground arith

pub state-Layout : Layout state demo_blocks
state-Layout = record {
  laid = state-IsLaidOut;
  mark = refl;
  chains = λ f lt named. elim (Bool-cases (f == 0)) [
    | inl e ↦ rw (==→eq f 0 e) chain_ab
    | inr ne ↦ rw (single f named ne) chain_c
  ];
  apart = λ f g j lf lg nf ng ne inside. ground (arith, state-named f nf, state-named g ng);
  open_named = λ k f lt e. (ground arith, λ z. ground arith);
}
  where
    single : (f : ℕ) → IsNamed state f → (f == 0) ≡ false → f ≡ 1
    single f named ne = ground (arith, state-named f named)

-- 300 bytes into "ab", a seek, and a new file
demo-Run : Run host zeros state (fs_create (some name_d) (fs_lseek (pos 0) 100 after.1).1).1
demo-Run =
    one_more _ _ _
      (one_more _ _ _
        (one_more _ _ _ (no_call state)
          (on_write 0 (some data_bytes) 300 (pos 300) after.1 (omega arith) after-eq))
        (on_lseek 0 100 (omega arith)))
      (on_create name_d name_d-IsCString)

IsWellFormed-Run_example : IsWellFormed (fs_create (some name_d) (fs_lseek (pos 0) 100 after.1).1).1
IsWellFormed-Run_example =
    IsWellFormed-Run {host = host} {bounce = zeros} demo-Run (demo_blocks, state-Layout)

pub demo-IsCounted : IsCounted state
unfolding count_open
demo-IsCounted = record { counted = refl }

IsCounted-Run_example :
    IsCounted (fs_create (some name_d) (fs_lseek (pos 0) 100 after.1).1).1
    × ((fs_create (some name_d) (fs_lseek (pos 0) 100 after.1).1).1.num_open_files ≤ 32)
IsCounted-Run_example = IsCounted-Run {host = host} {bounce = zeros} demo-Run demo-IsCounted

file_content-fs_write_example : file_content after.1 1 5 ≡ file_content state 1 5
file_content-fs_write_example =
    file_content-fs_write host zeros data_bytes 300 {res = pos 300} state-Layout state-IsOpenAt
      (omega arith) after-eq 1 5 (omega arith) (λ z. ground arith) (λ e. omega arith) (omega arith)
