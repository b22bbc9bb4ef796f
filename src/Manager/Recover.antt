-- ===== src/Manager/Recover.antt =====
-- sm_check_item_data, sm_check_imcomplete_write and sm_check_imcomplete_gc of
-- src/jekv_sector_manager.c: what the start does about an operation that a power failure cut off.
pub mod Turns
use jekv.Base.{
  ℕ, Bool, Exec, List, Option, [], attempt, err, fail, false, if◌then◌else◌, is_ok, ltb, none, ok,
  pure, raise, some, suc, true, u32, u32_max, zero, ◌&&◌, ◌*◌, ◌+◌, ◌==◌, ◌||◌, ◌∷◌, ◌>>=◌, ◌>>◌,
}
use jekv.Config.{
  slice_size, entry_count, type_string, type_binary, type_blob_seg, type_any, group_id_any,
  seg_id_any, seg_start_any, sector_state_deletting, sector_state_using,
}
use jekv.Port.{Driver}
use jekv.Port.Crc32.{crc32}
use jekv.Item.{Item, get_span, crc_data}
use jekv.Partition.{pt_read}
use jekv.Sector.State.{Sector, Ctx, on_flash, the_sec, sector_erase}
use jekv.Sector.Write.{erase_item}
use jekv.Sector.Find.{Query, find_item, find_into}
use jekv.Sector.Copy.{sector_copy}
use jekv.Manager.State.{
  Manager, SmCtx, sector_at, the_sm, update_sm, on_sector, last_of, deref, move_to_idle,
}
use jekv.Manager.Request.{active_sector, init_if_uninit, copy_sector}

abbrev pub has_data : Item → Bool
has_data item =
    (item.type == type_string || item.type == type_binary || item.type == type_blob_seg)
    && ltb 8 item.length

-- A buffer whose contents nothing reads.
abbrev pub blank_item : Item
blank_item = record {
  state = 0;
  name = [];
  group_id = 0;
  recv1 = 0;
  seg_id = 0;
  type = 0;
  length = 0;
  crc_item = 0;
  payload = [];
}

-- A query for any item, without a key.
abbrev pub any_item : Query
any_item = record {
  group_id = group_id_any;
  type = type_any;
  key = none;
  seg_index = seg_id_any;
  seg_start = seg_start_any;
}

-- What identifies the last item.
abbrev pub same_item : Item → Query
same_item item = record {
  group_id = item.group_id;
  type = item.type;
  key = some item.name;
  seg_index = if item.type == type_blob_seg then item.seg_id else seg_id_any;
  seg_start = seg_start_any;
}

abbrev pub deleting_in : Manager → List ℕ → Option ℕ
deleting_in sm [] = none
deleting_in sm (i ∷ is) =
    let rest = deleting_in sm is in
    if (sector_at sm i).state == sector_state_deletting then some i else rest

module _ ⦃d : Driver⦄ where
  -- sm_check_item_data
  unfoldable pub check_item_data : ℕ → Item → Exec Ctx (Unit {0})
  unfolding erase_item pt_read crc32
  check_item_data index item = do
    sec ← the_sec
    if has_data item && d.can_alloc item.length
        then (do
          bytes ←
              on_flash (pt_read sec.pt (u32 (sec.address + (index + 2) * slice_size)) item.length)
          if crc32 u32_max bytes == crc_data item
              then pure tt
              else (do attempt (erase_item index item true); raise fail))
        else pure tt

  -- The loop that looks for the last item: the index of the last one found, and the buffer behind
  -- the search that found none. Each search starts behind the item found before, so that
  -- JEKV_ENTRY_COUNT + 1 searches are enough.
  unfoldable pub last_loop : ℕ → Option ℕ → ℕ → Item → Exec Ctx (Option ℕ × Item)
  unfolding find_item
  last_loop zero last next item = pure (last, item)
  last_loop (suc fuel) last next item = do
    (r, item') ← find_into any_item next item
    elim r [
      | err c ↦ pure (last, item')
      | ok at ↦ last_loop fuel (some at) (at + get_span item') item'
    ]

  -- The loop over the active sectors for an older copy of the last item; the first is dropped.
  unfoldable pub drop_old_loop : List ℕ → ℕ → ℕ → Item → Item → Exec SmCtx (Unit {0})
  unfolding find_item erase_item
  drop_old_loop [] last last_index item old = pure tt
  drop_old_loop (i ∷ is) last last_index item old = do
    (r, old') ← on_sector i (find_into (same_item item) 0 old)
    elim r [
      | err c ↦ drop_old_loop is last last_index item old'
      | ok at ↦ elim (i == last && at == last_index) [
        | true ↦ drop_old_loop is last last_index item old'
        | false ↦ (do attempt (on_sector i (erase_item at old' true)); pure tt)
      ]
    ]

  abbrev check_last : ℕ → Option ℕ × Item → Exec SmCtx (Unit {0})
  check_last last (none, item) = pure tt
  check_last last (some last_index, item) = do
    complete ← attempt (on_sector last (check_item_data last_index item))
    sm ← the_sm
    if is_ok complete then drop_old_loop sm.active last last_index item blank_item else pure tt

  -- sm_check_imcomplete_write
  unfoldable pub check_imcomplete_write : Exec SmCtx (Unit {0})
  unfolding last_loop check_item_data drop_old_loop
  check_imcomplete_write = do
    sm ← the_sm
    elim (last_of sm.active) [
      | none ↦ raise fail
      | some last ↦ (do
        found ← on_sector last (last_loop (suc entry_count) none 0 blank_item)
        check_last last found)
    ]

  -- STEP0: the target of the collection that was cut off is given back.
  abbrev drop_target : ℕ → Sector → Exec SmCtx (Unit {0})
  drop_target last sec =
      if sec.state == sector_state_using
      then (do on_sector last sector_erase; update_sm (move_to_idle last))
      else pure tt

  -- sm_check_imcomplete_gc
  unfoldable pub check_imcomplete_gc : Exec SmCtx (Unit {0})
  unfolding sector_erase active_sector sector_copy
  check_imcomplete_gc = do
    sm ← the_sm
    elim (deleting_in sm sm.active) [
      | none ↦ pure tt
      | some it ↦ (do
        last ← deref (last_of sm.active)
        drop_target last (sector_at sm last)
        active_sector
        sm ← the_sm
        new_sec ← deref (last_of sm.active)
        init_if_uninit new_sec (sector_at sm new_sec)
        copy_sector new_sec it
        on_sector it sector_erase
        update_sm (move_to_idle it))
    ]
