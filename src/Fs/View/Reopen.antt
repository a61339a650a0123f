-- ===== src/Fs/View/Reopen.antt =====
-- Processes in the view: only their calls are steps, `fs_umount` and the next `fs_mount` change nothing.
use ecs150_project.Disk.State.{IsReliable, Host}
use ecs150_project.Fs.Layout.{Layout}
use ecs150_project.Fs.Layout.Descriptors.{IsFirstNamed-IsNamed}
use ecs150_project.Fs.Layout.Unique.{UniqueAt-Call}
use ecs150_project.Fs.Names.{CString}
use ecs150_project.Fs.Persist.Sessions.{
  next_process-Reopened, one_call, History, Reopened, IsIntact, no_step, one_process,
  IsIntact-History,
}
use ecs150_project.Fs.State.{State}
use ecs150_project.Fs.View.{
  IsValidName, then_event, no_event, Event, remounts, AbstractRun, UniqueValid, view,
}
use ecs150_project.Fs.View.Blocks.{file_view-same}
use ecs150_project.Fs.View.Names.{view-same, valid-guard}
use ecs150_project.Fs.View.Steps.{event_of, Effect-Call}
use ecs150_project.Prelude.{ℕ, ◌≡◌, sym, ap, ◌∙◌, List, [], ◌∷◌, Bytes}
use mathlib.Core.Path.{subst}

view-Reopened :
    {file count : ℕ} (s s' : State) {blocks : ℕ → List ℕ}
    → Layout s blocks
    → Reopened file count s s' blocks
    → (name : CString) → IsValidName name
    → view s' name ≡ view s name
view-Reopened s s' l o name valid =
    view-same s s' name (λ k lk. o.kept.names name k valid.short lk)
      (λ f found.
        let (lt, named) = IsFirstNamed-IsNamed name s f valid.text (valid-guard valid) found in
        let (lt', named') =
          IsFirstNamed-IsNamed name s' f valid.text (valid-guard valid)
            (o.kept.found name f valid.short found) in
        file_view-same s s' f l.laid.fat_small o.layout.laid.fat_small (l.chains f lt named)
          (o.layout.chains f lt named') (o.kept.size f lt)
          (λ p inside. o.kept.content f p lt named inside))

UniqueValid-Reopened :
    {file count : ℕ} (s s' : State) {blocks : ℕ → List ℕ}
    → Reopened file count s s' blocks
    → UniqueValid s.root
    → UniqueValid s'.root
UniqueValid-Reopened s s' o u name valid i j ne li lj hi hj =
    u name valid i j ne li lj (sym (o.kept.names name i valid.short li) ∙ hi)
      (sym (o.kept.names name j valid.short lj) ∙ hj)

-- The events of a history, the last one first: one for each call, and one for each unmount and mount.
abbrev pub events_of :
    {host : Host} {bounce : Bytes} {file count : ℕ} {s s' : State}
    → History host bounce file count s s'
    → List Event
events_of (no_step s) = []
events_of (one_call s s1 s2 before call) = event_of call ∷ events_of before
events_of (one_process mem name t s s1 s2 r r' before ample image e) = remounts ∷ events_of before

-- On a reliable host the file system refines the specification that maps names to sizes and bytes, over
-- any number of processes: what happens to the map is what the events say, in order. An `fs_create` that
-- returns 0 makes its name appear with an empty file, and another one does nothing; an `fs_delete` of an
-- unopened file of at most one block makes its name vanish; an `fs_write` that returns `n` stores the first
-- `n` bytes of its buffer at the offset of the descriptor in the file that the descriptor is open on,
-- keeps the other bytes, and adds `n` to the size if that is the whole count; the other calls change
-- nothing, nor does `fs_umount` with `fs_mount` in the next process. All other names keep what they
-- stand for, and valid names stay unique.
pub AbstractRun-History :
    {host : Host} {bounce : Bytes} {file count : ℕ} {s s' : State}
    → IsReliable host
    → (h : History host bounce file count s s') → IsIntact file count s
    → UniqueValid s.root
    → AbstractRun (view s) (events_of h) (view s') × UniqueValid s'.root
AbstractRun-History good (no_step s) i u = (no_event, u)
AbstractRun-History good (one_call s s1 s2 before call) i u =
    let j = IsIntact-History good before i in
    let (run, u') = AbstractRun-History good before i u in
    (
      then_event (events_of before) (event_of call) (view s1) (view s2) run
          (Effect-Call good j.well_formed u' call),
      λ name valid. UniqueAt-Call name valid.text call (u' name valid),
    )
AbstractRun-History {host} {file} {count} good
      (one_process mem name t s s1 s2 r r' before ample image e) i u =
    let j = IsIntact-History good before i in
    let (run, u') = AbstractRun-History good before i u in
    let (blocks, l) = j.well_formed in
    let (q, e', o) = next_process-Reopened host good mem name t ample image j.savable l in
    let same : q ≡ s2 = ap (λ w. w.2) (sym e' ∙ e) in
    let o' = subst (λ w. Reopened file count s1 w blocks) same o in
    (
      then_event (events_of before) remounts (view s1) (view s2) run (view-Reopened s1 s2 l o'),
      UniqueValid-Reopened s1 s2 o' u',
    )
