-- ===== src/Fs/Transfer/Write.antt =====
-- `write_portions`: a write into blocks that the file has stores exactly the user's bytes.
pub mod Short
use ecs150_project.Disk.Access.{
  block_read-byte_at, IsOpen, block_read-ok, fd-block_write, block_read, bcount-block_write,
  byte_at, byte_at-block_write, block_write, block_write-ok,
}
use ecs150_project.Disk.State.{Host, Disk, block_size, IsReliable}
use ecs150_project.Fs.Fat.{find_data_block}
use ecs150_project.Fs.State.{Table}
use ecs150_project.Fs.Transfer.{
  write_first, write_full, write_last, Portion, first_amount, on_disk, write_portions,
  find_num_target_blocks, full_start, goes_on,
}
use ecs150_project.Fs.Transfer.Portions.{full_blocks, first_done, Plan_lem}
use ecs150_project.Fs.Transfer.Read.{HasBlock}
use ecs150_project.Prelude.{
  ℕ, zero, suc, ◌+◌, ◌-◌, ◌*◌, ◌/◌, ◌%◌, ◌≤◌, ◌<◌, ◌≡◌, refl, ap, ◌∙◌, ◌≢◌, inl, inr, ◌&&◌, arith,
  leb, ltb, ==→eq, ◌==◌, Bool-cases, if◌then◌else◌, pos, Bytes, memcpy,
}
use mathlib.Core.Path.{subst}

module _ (host : Host) (good : IsReliable host) (fat : Table) (first start : ℕ) (d : Disk)
    (opened : IsOpen d) (bounce buf : Bytes) (offset count : ℕ) where
  -- the block of the disk that holds block `k` of the file
  abbrev pub blk : ℕ → ℕ
  blk k = on_disk start (find_data_block fat first k)

  -- the byte that belongs at place `p` of the file, where `old` stood, once `done` bytes are written
  abbrev pub overwritten : ℕ → ℕ → ℕ → ℕ
  overwritten done p old = if leb offset p && ltb p (offset + done) then buf (p - offset) else old

  -- The disk once the first `done` bytes are written into the first `m` blocks of the file.
  pub record Written (m : ℕ) (e : Disk) (done : ℕ) : Type 0 where
    pub fd : e.fd ≡ d.fd
    pub bcount : e.bcount ≡ d.bcount
    pub inside :
        (k j : ℕ)
        → k < m
        → j < block_size
        → byte_at e (blk k) j ≡ overwritten done (k * block_size + j) (byte_at d (blk k) j)
    pub outside :
        (b j : ℕ) → ((k : ℕ) → k < m → b ≢ blk k) → j < block_size → byte_at e b j ≡ byte_at d b j

  module _ (m : ℕ) (has_block : (k : ℕ) → k < m → HasBlock fat first start d k)
      (separate : (k k' : ℕ) → k < m → k' < m → blk k ≡ blk k' → k ≡ k') where
    Written-start : Written m d 0
    Written-start = record {
      fd = refl;
      bcount = refl;
      inside = λ k j lt lj. ground arith;
      outside = λ b j apart lj. refl;
    }

    Written-eq : (e : Disk) (a b : ℕ) → a ≡ b → Written m e a → Written m e b
    Written-eq e a b eq w = subst (Written m e) eq w

    module _ (e : Disk) (i : ℕ) (lt : i < m) (src : Bytes) (from : ℕ) {done : ℕ}
        (w : Written m e done) where
      abbrev stored : Disk
      stored = (block_write host e (blk i) src from).1

      write_ok : (block_write host e (blk i) src from).0 ≡ pos 0
      write_ok =
          block_write-ok host good e (blk i) (rw w.fd opened)
            (rw w.bcount (has_block i lt).in_range) src from

      -- A write of one block that holds the right bytes makes progress.
      Written-block_write :
          (done' : ℕ)
          → ((k j : ℕ)
              → k ≢ i
              → j < block_size
              → (old : ℕ)
              → overwritten done (k * block_size + j) old
                ≡ overwritten done' (k * block_size + j) old)
          → ((j : ℕ)
              → j < block_size
              → src (from + j) ≡ overwritten done' (i * block_size + j) (byte_at d (blk i) j))
          → Written m stored done'
      Written-block_write done' others here = record {
        fd = fd-block_write host e (blk i) src from ∙ w.fd;
        bcount = bcount-block_write host e (blk i) src from ∙ w.bcount;
        inside = λ k j lk lj. elim (Bool-cases (k == i)) [
          | inl eq ↦ rw (==→eq k i eq) (
              ground (
                arith,
                byte_at-block_write host e (blk i) src from (blk i) j write_ok lj,
                here j lj,
              ))
          | inr ne ↦
              (let apart : blk k ≢ blk i = λ q. ground (arith, separate k i lk lt q) in
                ground (
                  arith,
                  byte_at-block_write host e (blk i) src from (blk k) j write_ok lj,
                  w.inside k j lk lj,
                  others k j (ground arith) lj (byte_at d (blk k) j),
                ))
        ];
        outside = λ b j apart lj.
            rw (byte_at-block_write host e (blk i) src from b j write_ok lj)
              (ground (arith, apart i lt, w.outside b j apart lj));
      }

    abbrev GoesOn : Portion Disk → ℕ → Type 0
    GoesOn p done = (e : Disk) × (p ≡ goes_on e done) × Written m e done

    -- One round of the loop over the full blocks.
    Written-round :
        (i done : ℕ) (e : Disk)
        → i < m
        → i * block_size ≡ offset + done
        → Written m e done
        → ((block_write host e (blk i) buf done).0 ≡ pos 0)
          × Written m (block_write host e (blk i) buf done).1 (done + block_size)
    Written-round i done e lt at w = (
      write_ok e i lt buf done w,
      Written-block_write e i lt buf done w (done + block_size) (λ k j ne lj old. ground arith)
          (λ j lj. ground (arith, ap buf (same_place i done j at))),
    )
      where
        same_place :
            (i done j : ℕ) → i * block_size ≡ offset + done → done + j ≡ i * block_size + j - offset
        same_place i done j at = omega arith

    write_full-GoesOn :
        (n i done : ℕ) (e : Disk)
        → (0 < n → i * block_size ≡ offset + done)
        → (0 < n → i + n ≤ m)
        → Written m e done
        → GoesOn
            (write_full host fat first start bounce buf offset count n i e done)
            (done + n * block_size)
    unfolding write_full
    write_full-GoesOn zero i done e place le w =
        (e, ap (goes_on e) (omega arith), Written-eq e done _ (omega arith) w)
    write_full-GoesOn (suc n) i done e place le w =
        let room : i + suc n ≤ m = le (omega arith) in
        let (ok, w1) = Written-round i done e (omega arith) (place (omega arith)) w in
        let (e', eq, w') =
          write_full-GoesOn n (i + 1) (done + block_size) _
            (λ q. omega (arith, place (omega arith))) (λ q. omega arith) w1 in
        (
          e',
          ground (arith, (has_block i (omega arith)).present, ok, eq),
          Written-eq e' _ _ (omega arith) w',
        )

    -- The bounce buffer holds the block that it has been filled with.
    module _ (e : Disk) (i : ℕ) (lt : i < m) {done : ℕ} (w : Written m e done) where
      bounce_ok : (block_read host e (blk i) bounce 0).0 ≡ pos 0
      bounce_ok =
          block_read-ok host good e (blk i) (rw w.fd opened) (rw w.bcount (has_block i lt).in_range)
            bounce 0

      bounce_bytes :
          (j : ℕ) → j < block_size → (block_read host e (blk i) bounce 0).1 j ≡ byte_at e (blk i) j
      bounce_bytes j lj = ground (
        arith,
        block_read-byte_at host e (blk i) bounce 0 j bounce_ok,
        ap (byte_at e (blk i)) (unit j),
      )
        where
          unit : (j : ℕ) → 0 + (j - 0) ≡ j
          unit j = omega arith

    zero_add : (j : ℕ) → 0 + j ≡ j
    zero_add j = omega arith

    -- What the bounce buffer of the first portion holds before it is written back.
    first_bytes :
        (lt : offset / block_size < m) (j : ℕ)
        → j < block_size
        → memcpy
            (block_read host d (blk (offset / block_size)) bounce 0).1
            (offset % block_size)
            buf
            0
            (first_amount offset count)
            (0 + j)
          ≡ overwritten
              (first_amount offset count)
              (offset / block_size * block_size + j)
              (byte_at d (blk (offset / block_size)) j)
    first_bytes lt j lj = rw (zero_add j) (
        ground
          (arith, bounce_bytes d (offset / block_size) lt Written-start j lj, ap buf (index j)))
      where
        index :
            (j : ℕ) → 0 + (j - offset % block_size) ≡ offset / block_size * block_size + j - offset
        index j = omega arith

    -- The same for the last portion.
    last_bytes :
        (e : Disk) (done : ℕ) {i : ℕ} (lt : i < m)
        → i * block_size ≡ offset + done
        → done ≤ count
        → count < done + block_size
        → (w : Written m e done) (j : ℕ) → j < block_size
        → memcpy (block_read host e (blk i) bounce 0).1 0 buf done (count - done) (0 + j)
          ≡ overwritten count (i * block_size + j) (byte_at d (blk i) j)
    last_bytes e done {i} lt at le rest w j lj =
        rw (zero_add j)
          (ground (arith, bounce_bytes e i lt w j lj, w.inside i j lt lj, ap buf (index i j at)))
      where
        index :
            (i j : ℕ)
            → i * block_size ≡ offset + done
            → done + (j - 0) ≡ i * block_size + j - offset
        index i j at = omega arith

    write_first-GoesOn :
        0 < count
        → (offset % block_size ≢ 0 → offset / block_size < m)
        → GoesOn
            (write_first host fat first start bounce buf offset count d)
            (first_done offset count)
    unfolding write_first
    write_first-GoesOn moves inside = elim (Bool-cases (offset % block_size == 0)) [
      | inl e ↦ (d, ground arith, Written-eq d 0 _ (ground arith) Written-start)
      | inr ne ↦
          let i = offset / block_size in
          let lt : i < m = inside (ground arith) in
          let n = first_amount offset count in
          let r = block_read host d (blk i) bounce 0 in
          let src = memcpy r.1 (offset % block_size) buf 0 n in
          let w =
            Written-block_write d i lt src 0 Written-start n (λ k j ne' lj old. ground arith)
              (λ j lj. first_bytes lt j lj) in
          (
            stored d i lt src 0 Written-start,
            ground (
              arith,
              (has_block i lt).present,
              bounce_ok d i lt Written-start,
              write_ok d i lt src 0 Written-start,
            ),
            Written-eq _ n _ (ground arith) w,
          )
    ]

    write_last-GoesOn :
        (done : ℕ) (e : Disk)
        → done ≤ count
        → count < done + block_size
        → (done < count
            → (find_num_target_blocks offset count - 1 < m)
              × ((find_num_target_blocks offset count - 1) * block_size ≡ offset + done))
        → Written m e done
        → GoesOn (write_last host fat first start bounce buf offset count e done) count
    unfolding write_last
    write_last-GoesOn done e le rest h w = elim (Bool-cases (count == done)) [
      | inl eq ↦ (e, ground arith, Written-eq e done count (ground arith) w)
      | inr ne ↦
          let i = find_num_target_blocks offset count - 1 in
          let (lt, at) = h (ground arith) in
          let r = block_read host e (blk i) bounce 0 in
          let src = memcpy r.1 0 buf done (count - done) in
          let w' =
            Written-block_write e i lt src 0 w count (λ k j ne' lj old. ground arith)
              (λ j lj. last_bytes e done lt at le rest w j lj) in
          (
            stored e i lt src 0 w,
            ground (arith, (has_block i lt).present, bounce_ok e i lt w, write_ok e i lt src 0 w),
            w',
          )
    ]

    -- The portions of a write, on a reliable host, into a file that has every block up to the end
    -- of the write, in different blocks of the disk, run to the end and report `count` bytes. Then
    -- the file holds the user's bytes from the offset on, what it held before around them, and no other block
    -- of the disk has changed.
    pub write_portions-Written :
        0 < count
        → find_num_target_blocks offset count ≤ m
        → (e : Disk) × (write_portions host fat first start bounce buf offset count d
            ≡ goes_on e count)
          × Written m e count
    unfolding write_portions
    write_portions-Written moves enough =
        let plan = Plan_lem offset count moves in
        let n = full_blocks offset count in
        let done = first_done offset count in
        let (d1, e1, w1) = write_first-GoesOn moves (λ ne. omega (arith, plan.first_target ne)) in
        let (d2, e2, w2) =
          write_full-GoesOn n (full_start offset) done d1 plan.full_place
            (λ some_blocks. omega (arith, plan.full_target)) w1 in
        let (d3, e3, w3) =
          write_last-GoesOn (done + n * block_size) d2 plan.done_le plan.rest_lt
            (λ lt. (omega (arith, plan.last_target lt), plan.last_place lt)) w2 in
        (d3, ground (arith, e1, e2, e3), w3)
