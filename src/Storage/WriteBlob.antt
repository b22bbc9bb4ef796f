-- ===== src/Storage/WriteBlob.antt =====
-- storage_write_blob of src/jekv_storage.c: the segments of a blob, sector by sector, and its
-- descriptor behind the last.
use jekv.Base.{
  ℕ, ◌>>=◌, ◌>>◌, Exec, List, Result, attempt, drop, err, fail, fault, give, if◌then◌else◌, is_ok,
  le_ℤ, leb, length, lt_ℤ, ltb, no_space, none, not, ok, pos, pure, raise, require, signed32, some,
  sub_ℕ, suc, take, to_u32, u8, zero, ℤ, ◌&&◌, ◌*◌, ◌+ℤ◌, ◌+◌, ◌-ℤ◌, ◌-◌, ◌==◌, ◌||◌,
}
use jekv.Config.{
  slice_size, entry_count, single_item_max_data_size, blob_min_seg_size, seg_num_max, type_blob_seg,
}
use jekv.Port.{Driver}
use jekv.Sector.Write.{write_item}
use jekv.Manager.State.{Manager, sector_at, get_current_sector, get_free_size, deref}
use jekv.Manager.Request.{request_sector}
use jekv.Storage.State.{StCtx, the_storage, on_sm, on_sec}
use jekv.Storage.Blob.{write_blob_desc}

-- The arguments, and `start_sec`.
pub record BlobJob : Type 0 where
  pub group_id : ℕ
  pub key : List ℕ
  pub buf : List ℕ
  pub seg_start : ℕ
  pub start_sec : ℕ

-- The variables of the loop.
pub record BlobWrite : Type 0 where
  pub sec : ℕ
  pub seg_id : ℕ
  pub left_size : ℤ
  pub offset : ℕ

-- How the part of a turn in front of the request of a sector ends.
pub data Turn : Type 0 where
  done : Result (Unit {0}) → Turn
  more : BlobWrite → Turn

module _ ⦃d : Driver⦄ (job : BlobJob) where
  -- seg_id - seg_start, as a `uint8_t`.
  abbrev seg_count_of : BlobWrite → ℕ
  seg_count_of w = u8 (w.seg_id + 256 - job.seg_start)

  abbrev write_desc : BlobWrite → Exec StCtx Turn
  write_desc w = do
    r ←
        attempt (
          write_blob_desc w.sec job.group_id job.key (length job.buf) (seg_count_of w)
            job.seg_start)
    pure (Turn.done r)

  -- One segment of `size` bytes from `offset` on.
  abbrev write_seg : BlobWrite → ℕ → Exec StCtx (Unit {0})
  write_seg w size =
      on_sec w.sec
        (write_item job.group_id type_blob_seg job.key (take size (drop w.offset job.buf)) w.seg_id)

  -- All that is left fits; the descriptor too, where a slice is left for it.
  unfoldable pub write_last : BlobWrite → Exec StCtx Turn
  unfolding write_item write_blob_desc
  write_last w = do
    written ← attempt (write_seg w (to_u32 w.left_size))
    let w' = record w { seg_id = u8 (w.seg_id + 1); left_size = pos 0 }
    storage ← the_storage
    elim written [
      | err c ↦ pure (Turn.done (err c))
      | ok _ ↦
          if leb ((sector_at storage.sm w.sec).next_free_slice + 1) entry_count
          then write_desc w'
          else pure (Turn.more w')
    ]

  -- A segment fills the rest of the sector.
  unfoldable pub write_part : BlobWrite → ℤ → Exec StCtx Turn
  unfolding write_item
  write_part w free_size = do
    let cur_seg_size = free_size -ℤ pos slice_size
    written ← attempt (write_seg w (to_u32 cur_seg_size))
    elim written [
      | err c ↦ pure (Turn.done (err c))
      | ok _ ↦ pure (
          Turn.more (record w {
            seg_id = u8 (w.seg_id + 1);
            left_size = w.left_size -ℤ cur_seg_size;
            offset = w.offset + to_u32 cur_seg_size;
          }))
    ]

  -- The part of a turn in front of the request of a sector.
  unfoldable pub blob_turn : BlobWrite → Exec StCtx Turn
  unfolding write_last write_part write_blob_desc
  blob_turn w = do
    storage ← the_storage
    let free_size = get_free_size (sector_at storage.sm w.sec)
    if le_ℤ (pos seg_num_max) (sub_ℕ w.seg_id job.seg_start) && lt_ℤ (pos 0) w.left_size
        then pure (Turn.done (err no_space))
        else if lt_ℤ (pos 0) w.left_size
        then (if le_ℤ (w.left_size +ℤ pos slice_size) free_size
            then write_last w
            else if le_ℤ (pos (blob_min_seg_size + slice_size)) free_size
            then write_part w free_size
            else pure (Turn.more w))
        else if le_ℤ (pos slice_size) free_size
        then write_desc w
        else pure (Turn.more w)

  -- The request of the next sector.
  unfoldable pub next_sector : BlobWrite → Exec StCtx BlobWrite
  unfolding request_sector
  next_sector w = do
    requested ← attempt (on_sm (request_sector (pos slice_size)))
    require (is_ok requested) no_space
    storage ← the_storage
    elim (get_current_sector storage.sm) [
      | none ↦ raise fail
      | some sec ↦ (do require (not (sec == job.start_sec)) no_space; pure (record w { sec = sec }))
    ]

  -- The loop, cut off with `fault` after `turns` turns.
  unfoldable pub blob_loop : ℕ → BlobWrite → Exec StCtx (Unit {0})
  unfolding blob_turn next_sector
  blob_loop zero w = raise fault
  blob_loop (suc turns) w = do
    t ← blob_turn w
    elim t [ Turn.done r ↦ give r | Turn.more w' ↦ (do w'' ← next_sector w'; blob_loop turns w'') ]

module _ ⦃d : Driver⦄ where
  -- The request in front of the loop; its result is not looked at.
  abbrev split_first : Manager → ℕ → ℤ → Exec StCtx ℕ
  split_first sm sec left_size =
      if (ltb 0 (sector_at sm sec).droped_slice
          && lt_ℤ (get_free_size (sector_at sm sec)) (left_size +ℤ pos slice_size))
        || lt_ℤ (pos ((seg_num_max - 1) * single_item_max_data_size)) left_size
      then (do
        attempt (on_sm (request_sector (pos slice_size)))
        storage ← the_storage
        deref (get_current_sector storage.sm))
      else pure sec

  -- storage_write_blob
  unfoldable pub write_blob : ℕ → ℕ → List ℕ → List ℕ → ℕ → Exec StCtx (Unit {0})
  unfolding blob_loop request_sector
  write_blob turns gid key buf seg_start = do
    storage ← the_storage
    elim (get_current_sector storage.sm) [
      | none ↦ raise fail
      | some sec ↦ (do
        let left_size = signed32 (length buf)
        sec ← split_first storage.sm sec left_size
        let job : BlobJob = record {
          group_id = gid;
          key = key;
          buf = buf;
          seg_start = seg_start;
          start_sec = sec;
        }
        blob_loop job turns
            (record { sec = sec; seg_id = seg_start; left_size = left_size; offset = 0 }))
    ]
