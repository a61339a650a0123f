-- ===== src/Fs/Transfer/Write/Short.antt =====
-- `write_portions` on a file that lacks blocks, because the FAT was full: how much is written.
use ecs150_project.Disk.Access.{IsOpen}
use ecs150_project.Disk.State.{Disk, block_size, IsReliable, Host}
use ecs150_project.Fs.Fat.{find_data_block}
use ecs150_project.Fs.State.{eoc, Table}
use ecs150_project.Fs.Transfer.{
  write_first, write_full, full_start, Portion, returns, find_num_target_blocks, write_portions,
}
use ecs150_project.Fs.Transfer.Portions.{
  first_done, Plan_lem, full_blocks, num_full_blocks-first_done,
}
use ecs150_project.Fs.Transfer.Read.{HasBlock}
use ecs150_project.Fs.Transfer.Write.{
  Written-start, Written-eq, Written-round, write_full-GoesOn, write_first-GoesOn, Written, blk,
}
use ecs150_project.Prelude.{
  ℕ, zero, suc, ◌+◌, ◌-◌, ◌*◌, ◌/◌, ◌%◌, ◌≤◌, ◌<◌, ◌≡◌, refl, ◌≢◌, ◌⊎◌, inl, inr, not, ◌&&◌, arith,
  ltb, ◌==◌, leb, Bool-cases, pos, Bytes,
}

module _ (host : Host) (good : IsReliable host) (fat : Table) (first start : ℕ) (d : Disk)
    (opened : IsOpen d) (bounce buf : Bytes) (offset count m : ℕ)
    (has_block : (k : ℕ) → k < m → HasBlock fat first start d k)
    (separate : (k k' : ℕ)
      → k < m
      → k' < m
      → blk host good fat first start d opened bounce buf offset count k
        ≡ blk host good fat first start d opened bounce buf offset count k'
      → k ≡ k')
    (absent : (k : ℕ) → m ≤ k → find_data_block fat first k ≡ eoc) where
  -- A portion that ends the write after `n` bytes.
  abbrev Stops : Portion Disk → ℕ → Type 0
  Stops p n =
      (e : Disk) × (p ≡ returns (pos n) e)
      × Written host good fat first start d opened bounce buf offset count m e n

  write_full-Stops :
      (n i done : ℕ) (e : Disk)
      → 0 < n
      → m < i + n
      → i * block_size ≡ offset + done
      → Written host good fat first start d opened bounce buf offset count m e done
      → Stops
          (write_full host fat first start bounce buf offset count n i e done)
          (done + (m - i) * block_size)
  unfolding write_full
  write_full-Stops zero i done e some_n more at w = absurd (omega arith)
  write_full-Stops (suc n) i done e some_n more at w = elim (Bool-cases (ltb i m)) [
    | inl lt ↦
        let (ok, w1) =
          Written-round host good fat first start d opened bounce buf offset count m has_block
            separate i done e (ground arith) at w in
        let (e', eq, w') =
          write_full-Stops n (i + 1) (done + block_size) _ (ground arith) (omega arith)
            (omega arith) w1 in
        (
          e',
          ground (arith, (has_block i (ground arith)).present, ok, eq),
          Written-eq host good fat first start d opened bounce buf offset count m has_block separate
              e' _ _ (ground arith) w',
        )
    | inr ge ↦ (
      e,
      ground (arith, absent i (ground arith)),
      Written-eq host good fat first start d opened bounce buf offset count m has_block separate e
          done _ (ground arith) w,
    )
  ]

  -- How the portions end when the file has less blocks than the write needs.
  pub record ShortWrite (p : Portion Disk) : Type 0 where
    pub done : ℕ
    pub after : Disk
    pub ended : p ≡ returns (pos done) after
    pub less : done < count
    pub covers : (offset + done ≡ m * block_size) ⊎ ((done ≡ 0) × (m * block_size ≤ offset))
    pub stored : Written host good fat first start d opened bounce buf offset count m after done

  last_missing :
      0 < count
      → m < find_num_target_blocks offset count
      → (offset % block_size ≢ 0 → offset / block_size < m)
      → (0 < full_blocks offset count → full_start offset + full_blocks offset count ≤ m)
      → first_done offset count + full_blocks offset count * block_size < count
  unfolding find_num_target_blocks
  last_missing moves short inside le = ground (arith, num_full_blocks-first_done offset count moves)

  -- The numbers of a write whose full blocks are all there.
  covers_last :
      0 < count
      → m < find_num_target_blocks offset count
      → (offset % block_size ≢ 0 → offset / block_size < m)
      → (0 < full_blocks offset count → full_start offset + full_blocks offset count ≤ m)
      → (offset + (first_done offset count + full_blocks offset count * block_size)
          ≡ m * block_size)
        ⊎ ((first_done offset count + full_blocks offset count * block_size ≡ 0)
            × (m * block_size ≤ offset))
  unfolding find_num_target_blocks
  covers_last moves short inside le = ground (arith, num_full_blocks-first_done offset count moves)

  -- The numbers of a write that ends in the loop over the full blocks.
  covers_full :
      0 < full_blocks offset count
      → m < full_start offset + full_blocks offset count
      → (offset % block_size ≢ 0 → offset / block_size < m)
      → full_start offset * block_size ≡ offset + first_done offset count
      → (offset + (first_done offset count + (m - full_start offset) * block_size) ≡ m * block_size)
        ⊎ ((first_done offset count + (m - full_start offset) * block_size ≡ 0)
            × (m * block_size ≤ offset))
  covers_full some_n more inside at = ground arith

  abbrev first_part : Portion Disk
  first_part = write_first host fat first start bounce buf offset count d

  abbrev full_part : Disk → Portion Disk
  full_part e =
      write_full host fat first start bounce buf offset count (full_blocks offset count)
        (full_start offset) e (first_done offset count)

  ShortWrite-full :
      0 < count
      → (offset % block_size ≢ 0 → offset / block_size < m)
      → 0 < full_blocks offset count
      → m < full_start offset + full_blocks offset count
      → ShortWrite (write_portions host fat first start bounce buf offset count d)
  unfolding write_portions
  ShortWrite-full moves inside some_n more =
      let plan = Plan_lem offset count moves in
      let (d1, e1, w1) =
        write_first-GoesOn host good fat first start d opened bounce buf offset count m has_block
          separate moves inside in
      let (d2, e2, w2) =
        write_full-Stops (full_blocks offset count) (full_start offset) (first_done offset count) d1
          some_n more (plan.full_place some_n) w1 in
      record {
        done = _;
        after = d2;
        ended = ground (arith, e1, e2);
        less = omega (arith, plan.done_le);
        covers = covers_full some_n more inside (plan.full_place some_n);
        stored = w2;
      }

  ShortWrite-last :
      0 < count
      → m < find_num_target_blocks offset count
      → (offset % block_size ≢ 0 → offset / block_size < m)
      → (0 < full_blocks offset count → full_start offset + full_blocks offset count ≤ m)
      → ShortWrite (write_portions host fat first start bounce buf offset count d)
  unfolding write_portions
  ShortWrite-last moves short inside le =
      let plan = Plan_lem offset count moves in
      let (d1, e1, w1) =
        write_first-GoesOn host good fat first start d opened bounce buf offset count m has_block
          separate moves inside in
      let (d2, e2, w2) =
        write_full-GoesOn host good fat first start d opened bounce buf offset count m has_block
          separate (full_blocks offset count) (full_start offset) (first_done offset count) d1
          plan.full_place le w1 in
      let less = last_missing moves short inside le in
      record {
        done = first_done offset count + full_blocks offset count * block_size;
        after = d2;
        ended =
            ground
              (arith, e1, e2, less, absent (find_num_target_blocks offset count - 1) (omega arith));
        less = less;
        covers = covers_last moves short inside le;
        stored = w2;
      }

  ShortWrite-first :
      0 < count
      → offset % block_size ≢ 0
      → m ≤ offset / block_size
      → ShortWrite (write_portions host fat first start bounce buf offset count d)
  unfolding write_portions
  ShortWrite-first moves part out = record {
    done = 0;
    after = d;
    ended = ground (arith, absent (offset / block_size) out);
    less = moves;
    covers = inr (refl, omega arith);
    stored =
        Written-start host good fat first start d opened bounce buf offset count m has_block
          separate;
  }

  -- The portions of a write into a file with too few blocks fill the blocks that there are, and
  -- return how many bytes that was.
  pub write_portions-ShortWrite :
      0 < count
      → m < find_num_target_blocks offset count
      → ShortWrite (write_portions host fat first start bounce buf offset count d)
  write_portions-ShortWrite moves short =
      elim (Bool-cases (not (offset % block_size == 0) && leb m (offset / block_size))) [
        | inl none_first ↦ ShortWrite-first moves (ground arith) (ground arith)
        | inr has_first ↦
            let n = full_blocks offset count in
            elim (Bool-cases (ltb 0 n && ltb m (full_start offset + n))) [
              | inl stops ↦ ShortWrite-full moves (ground arith) (ground arith) (ground arith)
              | inr goes ↦ ShortWrite-last moves short (ground arith) (ground arith)
            ]
      ]
