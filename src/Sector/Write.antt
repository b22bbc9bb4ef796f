-- ===== src/Sector/Write.antt =====
-- jekv_sector_erase_item, jekv_sector_write_item_data, jekv_sector_read_item_data and
-- jekv_sector_write_item of src/jekv_sector.c.
pub mod Slices
pub mod Errors
pub mod Program
pub mod RoundTrip
pub mod Lookup
pub mod Ready
pub mod Dropped
pub mod Frame
use Prim.Native.Nat.{bit_and}
use jekv.Base.{
  ℕ, ◌+◌, ◌-◌, ◌*◌, ◌/◌, Bool, true, false, Option, none, some, List, [], ◌∷◌, length, take, ltb,
  ◌==◌, u8, u32, u32_max, if◌then◌else◌, Exec, Result, ok, err, fail, sector_full, value_too_long,
  ◌>>=◌, ◌>>◌, attempt, give, pure, require, not, leb, ◌&&◌,
}
use jekv.Config.{
  slice_size, entry_count, single_item_max_data_size, item_state_using, item_state_droped,
  sector_state_invalid, sector_state_full, sector_state_uninit,
}
use jekv.Port.{Driver}
use jekv.Item.{Item, get_span, item_init}
use jekv.Hash.{hash_append, hash_erase}
use jekv.Partition.{pt_write_raw, pt_write_item, pt_write, pt_read}
use jekv.Sector.State.{
  Sector, Ctx, on_flash, update_sec, the_sec, slice_offset, get_next_address, set_state,
  sector_init,
}

-- The slices that an item of `size` bytes takes: size rounded up by a mask.
unfoldable pub entry_cnt : ℕ → ℕ
entry_cnt size =
    if ltb 8 size
    then 1 + bit_and (u32 (size + slice_size - 1)) (u32_max - (slice_size - 1)) / slice_size
    else 1

-- The test of JEKV_ERR_SECTOR_FULL.
abbrev pub is_sector_full : Result (Unit {0}) → Bool
is_sector_full (err sector_full) = true
is_sector_full _ = false

abbrev pub advance : ℕ → Sector → Sector
advance cnt sec = record sec {
  next_free_slice = u8 (sec.next_free_slice + cnt);
  used_slice = u8 (sec.used_slice + cnt);
}

module _ ⦃d : Driver⦄ where
  -- The call of jekv_hash_append, whose result is not looked at.
  abbrev pub append_hash : Item → ℕ → Exec Ctx (Unit {0})
  append_hash item index =
      update_sec (λ sec. record sec { hash = (hash_append sec.hash item index).1 })

  abbrev erase_hash : Bool → ℕ → Exec Ctx (Unit {0})
  erase_hash true index = update_sec (λ sec. record sec { hash = (hash_erase sec.hash index).1 })
  erase_hash false index = pure tt

  -- jekv_sector_erase_item
  unfoldable pub erase_item : ℕ → Item → Bool → Exec Ctx (Unit {0})
  unfolding pt_write_raw
  erase_item index item with_hash = do
    update_sec (λ sec. record sec { droped_slice = u8 (sec.droped_slice + get_span item) })
    sec ← the_sec
    written ←
        attempt (on_flash (pt_write_raw sec.pt (slice_offset sec index) (item_state_droped ∷ [])))
    erase_hash with_hash index
    give written

  abbrev write_extra : Sector → Option (List ℕ) → Exec Ctx (Unit {0})
  write_extra sec none = pure tt
  write_extra sec (some extra) =
      on_flash (pt_write sec.pt (u32 (get_next_address sec + slice_size)) extra)

  -- jekv_sector_write_item_data. The results of both writes are not looked at.
  unfoldable pub write_item_data : Item → Option (List ℕ) → ℕ → Exec Ctx (Unit {0})
  unfolding pt_write_item pt_write
  write_item_data item extra cnt = do
    sec ← the_sec
    attempt (on_flash (pt_write_item sec.pt (get_next_address sec) item))
    attempt (write_extra sec extra)
    update_sec (advance cnt)

  -- jekv_sector_read_item_data
  unfoldable pub read_item_data : ℕ → Item → ℕ → Exec Ctx (List ℕ)
  unfolding pt_read
  read_item_data index item size = do
    sec ← the_sec
    if leb size 8
        then pure (take size item.payload)
        else on_flash (pt_read sec.pt (u32 (sec.address + (index + 1 + 1) * slice_size)) size)

  abbrev init_if_uninit : Sector → Exec Ctx (Unit {0})
  init_if_uninit sec = if sec.state == sector_state_uninit then sector_init else pure tt

  abbrev hash_written : Result (Unit {0}) → Item → ℕ → Exec Ctx (Unit {0})
  hash_written (ok _) item index = append_hash item index
  hash_written (err c) item index = pure tt

  abbrev mark_full : Result (Unit {0}) → Exec Ctx (Unit {0})
  mark_full r = do
    sec ← the_sec
    if is_sector_full r && not (sec.state == sector_state_full)
        then set_state sector_state_full
        else pure tt

  -- The part of jekv_sector_write_item behind its checks.
  unfoldable pub put_item : Item → List ℕ → Exec Ctx (Unit {0})
  unfolding write_item_data
  put_item item buf = do
    sec ← the_sec
    written ← attempt (
        write_item_data item (if ltb 8 (length buf) then some buf else none)
          (entry_cnt (length buf)))
    hash_written written item sec.next_free_slice
    attempt (mark_full written)
    give written

  -- jekv_sector_write_item; `buf` is the `size` bytes at `data`.
  unfoldable pub write_item : ℕ → ℕ → List ℕ → List ℕ → ℕ → Exec Ctx (Unit {0})
  write_item gid type key buf seg_id = do
    sec ← the_sec
    require (not (sec.state == sector_state_invalid)) fail
    require (not (sec.state == sector_state_full)) sector_full
    init_if_uninit sec
    require (leb (length buf) single_item_max_data_size) value_too_long
    sec ← the_sec
    require (leb (sec.next_free_slice + entry_cnt (length buf)) entry_count) sector_full
    put_item (item_init item_state_using gid type key (some buf) (length buf) seg_id) buf
