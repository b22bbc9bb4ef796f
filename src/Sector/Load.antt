-- ===== src/Sector/Load.antt =====
-- sector_update_slice_and_hash, sector_check_empty and jekv_sector_load of src/jekv_sector.c: what
-- the program makes of a sector when it starts.
pub mod Scan
pub mod Chain
use jekv.Base.{
  ℕ, zero, suc, ◌+◌, ◌*◌, Bool, true, false, not, ◌&&◌, ◌||◌, List, [], ◌∷◌, ltb, ◌==◌, u8, u32,
  if◌then◌else◌, Exec, Result, ok, err, no_mem, ◌>>=◌, ◌>>◌, attempt, pure, require,
}
use jekv.Config.{
  slice_size, entry_count, item_state_unused, item_state_using, item_state_droped, sector_magic,
  version_num, sector_state_crash, sector_state_invalid, sector_state_uninit, sector_state_full,
  sector_state_using, sector_state_deletting,
}
use jekv.Port.{Driver}
use jekv.Item.{Item, get_span, decode, crc_head}
use jekv.Hash.{hash_init}
use jekv.Partition.{Partition, pt_read_raw}
use jekv.Sector.State.{
  SectorHeader, decode_header, sector_crc32, Ctx, on_flash, update_sec, the_sec, slice_offset,
}
use jekv.Sector.Write.{append_hash, erase_item}

abbrev set_sec_state : ℕ → Exec Ctx (Unit {0})
set_sec_state state = update_sec (λ sec. record sec { state = state })

abbrev add_used : ℕ → Exec Ctx (Unit {0})
add_used span = update_sec (λ sec. record sec { used_slice = u8 (sec.used_slice + span) })

abbrev add_droped : ℕ → Exec Ctx (Unit {0})
add_droped span = update_sec (λ sec. record sec { droped_slice = u8 (sec.droped_slice + span) })

abbrev pub set_next_free : ℕ → Exec Ctx (Unit {0})
set_next_free i = update_sec (λ sec. record sec { next_free_slice = u8 i })

-- if (err != JEKV_ERR_OK) { sec->state = JEKV_SECTOR_STATE_INVALID; return err; }
abbrev pub or_invalid : {A : Type 0} → Result A → Exec Ctx A
or_invalid (ok a) c = (ok a, c)
or_invalid (err e) c = (err e, record c { sec = record c.sec { state = sector_state_invalid } })

-- Whether each word of the sector is 0xffffffff, that is, each byte 0xff.
unfoldable pub all_erased : List ℕ → Bool
all_erased [] = true
all_erased (b ∷ bs) = b == 255 && all_erased bs

module _ ⦃d : Driver⦄ where
  -- An item that is not unused: index it, drop it where its checksum is wrong, or count it.
  unfoldable pub count_item : ℕ → Item → Exec Ctx (Unit {0})
  unfolding erase_item
  count_item i item =
      if item.state == item_state_using
      then (if item.crc_item == crc_head item
          then (do append_hash item i; add_used (get_span item))
          else do
            add_used (get_span item)
            add_droped (get_span item)
            dropped ← attempt (erase_item i item false)
            or_invalid dropped)
      else if item.state == item_state_droped
      then (do add_droped (get_span item); add_used (get_span item))
      else pure tt

  -- One turn of the loop of sector_update_slice_and_hash; `continue` is the rest of it.
  unfoldable pub scan_step : (ℕ → Exec Ctx (Unit {0})) → ℕ → Exec Ctx (Unit {0})
  scan_step continue i = elim (ltb i entry_count) [
    | false ↦ set_next_free entry_count
    | true ↦ (do
      sec ← the_sec
      bytes ← attempt (on_flash (pt_read_raw sec.pt (slice_offset sec i) slice_size))
      bytes ← or_invalid bytes
      elim ((decode bytes).state == item_state_unused) [
        | true ↦ set_next_free i
        | false ↦ (do count_item i (decode bytes); continue (i + get_span (decode bytes)))
      ])
  ]

  -- The loop. `i` grows in each turn, so JEKV_ENTRY_COUNT turns are enough, and the end of the fuel
  -- is the end of the sector.
  unfoldable pub scan_loop : ℕ → ℕ → Exec Ctx (Unit {0})
  scan_loop zero i = set_next_free entry_count
  scan_loop (suc fuel) i = scan_step (scan_loop fuel) i

  -- sector_update_slice_and_hash
  unfoldable pub update_slice_and_hash : Exec Ctx (Unit {0})
  unfolding scan_loop scan_step count_item pt_read_raw
  update_slice_and_hash = scan_loop entry_count 0

  -- sector_check_empty
  unfoldable pub check_empty : Partition → SectorHeader → Exec Ctx (Unit {0})
  unfolding pt_read_raw all_erased
  check_empty pt header = do
    set_sec_state header.state
    require (d.can_alloc pt.sec_size) no_mem
    sec ← the_sec
    block ← attempt (on_flash (pt_read_raw pt sec.address pt.sec_size))
    block ← or_invalid block
    if all_erased block then pure tt else set_sec_state sector_state_crash

  -- The part of jekv_sector_load that judges the header.
  unfoldable pub judge_header : Partition → SectorHeader → Exec Ctx (Unit {0})
  unfolding check_empty sector_crc32
  judge_header pt header =
      if header.state == sector_state_uninit
      then check_empty pt header
      else if not (header.magic == sector_magic) || not (header.crc == sector_crc32 header)
      then set_sec_state sector_state_crash
      else if not (header.version == version_num)
      then set_sec_state sector_state_crash
      else update_sec
          (λ sec. record sec { serial_number = header.serial_number; state = header.state })

  -- jekv_sector_load. `sec` is the zeroed element of the sector array.
  unfoldable pub sector_load : Partition → ℕ → Exec Ctx (Unit {0})
  unfolding pt_read_raw decode_header judge_header update_slice_and_hash
  sector_load pt sec_index = do
    update_sec (λ sec. record sec {
      address = u32 (sec_index * pt.sec_size);
      used_slice = 0;
      droped_slice = 0;
      pt = pt;
      hash = hash_init;
    })
    sec ← the_sec
    bytes ← attempt (on_flash (pt_read_raw pt sec.address 32))
    bytes ← or_invalid bytes
    set_sec_state (decode_header bytes).state
    judge_header pt (decode_header bytes)
    sec ← the_sec
    if sec.state == sector_state_full
          || sec.state == sector_state_using
          || sec.state == sector_state_deletting
        then update_slice_and_hash
        else pure tt
