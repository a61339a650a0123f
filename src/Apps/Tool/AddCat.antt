-- ===== src/Apps/Tool/AddCat.antt =====
-- `test_fs.x cat` behind `test_fs.x add`.
use ecs150_project.Apps.{Process, finished}
use ecs150_project.Apps.Desks.{Desk, regular}
use ecs150_project.Apps.Text.{literal}
use ecs150_project.Apps.Tool.{
  cat_end, Extras, test_fs, thread_fs_cat, added_report, open_then, content_report, thread_fs_add,
  mount_then,
}
use ecs150_project.Disk.State.{block_size, IsReliable}
use ecs150_project.Fs.Calls.{fs_read}
use ecs150_project.Fs.Descriptors.{fs_close}
use ecs150_project.Fs.Descriptors.Seek.{IsOpenAt}
use ecs150_project.Fs.Layout.{IsWellFormed}
use ecs150_project.Fs.Layout.Descriptors.{IsFirstNamed-IsNamed}
use ecs150_project.Fs.Layout.Steps.{IsWellFormed-Run}
use ecs150_project.Fs.Mount.{fs_mount, fs_umount}
use ecs150_project.Fs.Names.{c_str, CString}
use ecs150_project.Fs.Persist.{booted, IsSavable, IsImage, IsAmple}
use ecs150_project.Fs.Persist.Chains.{IsChain-unique}
use ecs150_project.Fs.Persist.Sessions.{next_process-Reopened, next_process-fs_mount}
use ecs150_project.Fs.Persist.Steps.{IsSavable-Run}
use ecs150_project.Fs.State.{FileDescriptor, filename_len, State}
use ecs150_project.Fs.Usage.Content.{FetchedWhole_lem, FetchedWhole}
use ecs150_project.Fs.Usage.Mounted.{fs_umount-zero}
use ecs150_project.Fs.Usage.Store.{HasRoom, StoredFile, StoredFile_lem}
use ecs150_project.Fs.Usage.Succeeds.{fs_close-IsOpenAt, closed_state}
use ecs150_project.Prelude.{
  ℕ, zero, suc, ◌*◌, ◌≤◌, ◌<◌, ◌≡◌, ap, ◌∙◌, true, some, List, [], ◌∷◌, arith, pos, Bytes,
}
use ecs150_project.Prelude.Lists.{length}

module _ (desk : Desk) (extras : Extras) (program path name : CString) (bytes : List ℕ) (t : State)
    {s : State} (mounts : fs_mount desk.host desk.process.memory (some path) t ≡ (pos 0, s))
    (memory : desk.process.malloc_ok ≡ true) where
  add_finished :
      desk.file_at name ≡ regular bytes
      → (st : StoredFile desk.host desk.process.bounce name s (length bytes) (c_str bytes))
      → st.after.is_disk_mounted ≡ true
      → test_fs desk extras (program ∷ literal "add" ∷ path ∷ name ∷ []) t ≡ (
        finished (fs_umount desk.host st.after).1,
        added_report (pos (length bytes)) (length bytes) ∷ [],
      )
  unfolding test_fs thread_fs_add
  add_finished source st m =
      ground
        (arith, st.creates, st.opens, st.writes, st.closes, fs_umount-zero desk.host st.after m)

  -- A read that returns every byte, and the end of the command.
  cat_end-read :
      (s1 : State) {fd size : ℕ} {s2 : State} {d : FileDescriptor} {buf out : Bytes}
      → extras.new_buffer ≡ some buf
      → 0 < size
      → fs_read desk.host desk.process.bounce (pos fd) (some buf) size s1 ≡ (pos size, some out, s2)
      → IsOpenAt s2 fd d
      → cat_end desk extras (pos size) (pos fd) s1 ≡ (
        finished (fs_umount desk.host (fs_close (pos fd) s2).1).1,
        content_report (pos size) (pos size) (some out) ∷ [],
      )
  unfolding cat_end
  cat_end-read s1 {size = zero} has_buffer moves reads o = absurd (omega arith)
  cat_end-read s1 {fd} {size = suc n} {s2} has_buffer moves reads o = ground (
    arith,
    has_buffer,
    reads,
    fs_close-IsOpenAt o,
    fs_umount-zero desk.host (closed_state s2 fd) o.mounted,
  )

  cat_finished :
      {f : ℕ} (buf : Bytes)
      → extras.new_buffer ≡ some buf
      → (r : FetchedWhole desk.host desk.process.bounce name s f buf) → 0 < (s.root f).file_size
      → test_fs desk extras (program ∷ literal "cat" ∷ path ∷ name ∷ []) t ≡ (
        finished (fs_umount desk.host (fs_close (pos r.fd) r.after).1).1,
        content_report (pos (s.root f).file_size) (pos (s.root f).file_size) (some r.bytes) ∷ [],
      )
  unfolding test_fs thread_fs_cat mount_then open_then
  cat_finished buf has_buffer r moves =
      ground (arith, r.opens, r.stats, cat_end-read r.opened has_buffer moves r.reads r.still_open)

-- On a reliable host, `test_fs.x add` of a host file of 1 to 4096 bytes, on a well-formed disk that can be
-- saved and has room for a file of the name, exits with status 0 and reports that all bytes are written.
-- If `test_fs.x cat` then runs on the same image in another process, with memory, it exits with
-- status 0 and prints the size and the bytes of the host file.
pub thread_fs_cat-thread_fs_add :
    (desk : Desk) (q : Process) (extras : Extras) (program path name : CString) (bytes : List ℕ)
    {file count : ℕ} (t t' : State) (buf : Bytes) {s : State}
    → IsReliable desk.host
    → desk.process.malloc_ok ≡ true
    → q.malloc_ok ≡ true
    → IsAmple q.memory
    → extras.new_buffer ≡ some buf
    → desk.file_at name ≡ regular bytes
    → IsImage desk.host file count path
    → fs_mount desk.host desk.process.memory (some path) t ≡ (pos 0, s)
    → IsSavable file count s
    → IsWellFormed s
    → HasRoom name s
    → length name < filename_len
    → 0 < length bytes
    → length bytes ≤ 4096
    → (s1 s2 : State) × (out : Bytes) × (test_fs desk extras
          (program ∷ literal "add" ∷ path ∷ name ∷ [])
          t
        ≡ (finished s1, added_report (pos (length bytes)) (length bytes) ∷ []))
      × (test_fs
            (record desk { process = q })
            extras
            (program ∷ literal "cat" ∷ path ∷ name ∷ [])
            (booted t' s1.disk.files)
          ≡ (finished s2, content_report (pos (length bytes)) (pos (length bytes)) (some out) ∷ []))
      × ((k : ℕ) → k < length bytes → out k ≡ c_str bytes k)
thread_fs_cat-thread_fs_add desk q extras program path name bytes {file} {count} t t' buf {s} good
      has_p has_q ample has_buffer source image mounts savable (blocks0, l0) room short moves one =
    let st =
      StoredFile_lem desk.host good desk.process.bounce room (c_str bytes) (length bytes) moves one
        l0.laid savable.formatted.mounted in
    let (blocks, l) = IsWellFormed-Run st.run (blocks0, l0) in
    let savable' = IsSavable-Run st.run (blocks0, l0) savable in
    let (s2, e, o) = next_process-Reopened desk.host good q.memory path t' ample image savable' l in
    let (lt, named) = IsFirstNamed-IsNamed name st.after st.file room.text room.valid st.found in
    let same_blocks : st.blocks ≡ blocks st.file =
      IsChain-unique st.chain (l.chains st.file lt named) in
    let covers : length bytes ≤ length (blocks st.file) * block_size =
      rw (← same_blocks) st.covers in
    let found = o.kept.found name st.file short st.found in
    let (lt', named') = IsFirstNamed-IsNamed name s2 st.file room.text room.valid found in
    let size : (s2.root st.file).file_size ≡ length bytes = o.kept.size st.file lt ∙ st.size in
    let r =
      FetchedWhole_lem desk.host good q.bounce {f = st.file} 0 buf o.layout.laid
        o.savable.formatted.mounted room.valid found (o.layout.chains st.file lt' named')
        (omega (arith, o.none_counted)) (omega arith) (o.none_open 0 (omega arith))
        (omega (arith, size)) (omega (arith, size)) (omega (arith, size, covers)) in
    (
      (fs_umount desk.host st.after).1,
      (fs_umount desk.host (fs_close (pos r.fd) r.after).1).1,
      r.bytes,
      add_finished desk extras program path name bytes t mounts has_p source st
          savable'.formatted.mounted,
      cat_finished (record desk { process = q }) extras program path name bytes
            (booted t' (fs_umount desk.host st.after).1.disk.files)
            (next_process-fs_mount desk.host q.memory path t' st.after e) has_q buf has_buffer r
            (omega (arith, size))
          ∙ ap
              (λ n. (
                finished (fs_umount desk.host (fs_close (pos r.fd) r.after).1).1,
                content_report (pos n) (pos n) (some r.bytes) ∷ [],
              ))
              size,
      λ k lk.
          r.same k (omega (arith, size))
          ∙ (o.kept.content st.file k lt named (omega (arith, covers)) ∙ st.content k lk),
    )
