-- ===== src/Manager/Query.antt =====
-- jekv_sm_find_item, jekv_sm_check_write_blob_size and jekv_sm_get_status.
pub mod Reads
use jekv.Base.{
  ℕ, Exec, List, Result, [], err, if◌then◌else◌, invalid_length, le_ℤ, leb, length, lt_ℤ, neg,
  no_space, not_found, ok, pos, pure, u32, u32_mod, ℤ, ◌&&◌, ◌*ℤ◌, ◌*◌, ◌+ℤ◌, ◌+◌, ◌-ℤ◌, ◌-◌, ◌∷◌,
  ◌>>=◌, signed32,
}
use jekv.Config.{slice_size, entry_count, single_item_max_data_size, seg_num_max, blob_min_seg_size}
use jekv.Port.{Driver}
use jekv.Item.{Item, seg_count}
use jekv.Sector.Find.{find_item, find_into, Query}
use jekv.Sector.Find
use jekv.Manager.State.{Manager, SmCtx, sector_at, the_sm, on_sector, get_gc_size}

-- Where an item stands: the sector in the array, the slice in the sector, and the item.
pub record Place : Type 0 where
  pub sector : ℕ
  pub index : ℕ
  pub item : Item

module _ ⦃d : Driver⦄ where
  unfoldable pub find_in : List ℕ → Find.Query → ℕ → Item → Exec SmCtx (Result Place × Item)
  unfolding find_item
  find_in [] q start item = pure (err not_found, item)
  find_in (i ∷ is) q start item = do
    (r, item') ← on_sector i (find_into q start item)
    elim r [
      | ok at ↦ pure (ok (record { sector = i; index = at; item = item' }), item')
      | err c ↦ find_in is q start item'
    ]

  -- jekv_sm_find_item: the place, and the caller's buffer.
  unfoldable pub sm_find_item : Find.Query → ℕ → Item → Exec SmCtx (Result Place × Item)
  unfolding find_in
  sm_find_item q start item = do sm ← the_sm; find_in sm.active q start item

-- The loop of jekv_sm_check_write_blob_size over the active sectors.
unfoldable pub room_loop : Manager → List ℕ → ℤ → ℕ → Result (Unit {0})
room_loop sm [] left seg_count = err no_space
room_loop sm (i ∷ is) left seg_count =
    let sec = sector_at sm i in
    let free = get_gc_size sec in
    let cut = free -ℤ pos slice_size in
    let skip = room_loop sm is left seg_count in
    let all_in = room_loop sm is (pos 0) (seg_count + 1) in
    let part = room_loop sm is (left -ℤ cut) (seg_count + 1) in
    if lt_ℤ (pos 0) left && leb seg_num_max seg_count
    then err no_space
    else if lt_ℤ (pos 0) left
    then (if le_ℤ (left +ℤ pos slice_size) free
        then (if leb (sec.next_free_slice + 1) entry_count then ok tt else all_in)
        else if le_ℤ (pos (blob_min_seg_size + slice_size)) free
        then part
        else skip)
    else if le_ℤ (pos slice_size) free
    then ok tt
    else skip

-- jekv_sm_check_write_blob_size; `size` becomes an `int`.
unfoldable pub check_write_blob_size : Manager → ℕ → Result (Unit {0})
unfolding room_loop
check_write_blob_size sm size =
    let left = signed32 size in
    let left' = left -ℤ (pos single_item_max_data_size *ℤ (pos (length sm.idle) -ℤ pos 1)) in
    if lt_ℤ (pos ((sm.pt.sec_num - 1) * single_item_max_data_size)) left
    then err no_space
    else if lt_ℤ (pos (seg_num_max * single_item_max_data_size)) left
    then err invalid_length
    else if le_ℤ left' (neg (pos slice_size))
    then ok tt
    else room_loop sm sm.active left' 0

-- What jekv_sm_get_status sets of jekv_status_t.
pub record SizeStatus : Type 0 where
  pub total_size : ℕ
  pub using_size : ℕ
  pub droped_size : ℕ
  pub free_size : ℕ

-- The sums over the active sectors, each with its header.
unfoldable pub sum_used : Manager → List ℕ → ℕ → ℕ
sum_used sm [] used = used
sum_used sm (i ∷ is) used = sum_used sm is (u32 (used + ((sector_at sm i).used_slice + 1)))

unfoldable pub sum_droped : Manager → List ℕ → ℕ → ℕ
sum_droped sm [] droped = droped
sum_droped sm (i ∷ is) droped = sum_droped sm is (u32 (droped + (sector_at sm i).droped_slice))

-- jekv_sm_get_status, on `uint32_t`.
unfoldable pub sm_get_status : Manager → SizeStatus
unfolding sum_used sum_droped
sm_get_status sm =
    let total = u32 (sm.pt.sec_size * sm.pt.sec_num) in
    let using = u32 (sum_used sm sm.active 0 * slice_size) in
    record {
      total_size = total;
      using_size = using;
      droped_size = u32 (sum_droped sm sm.active 0 * slice_size);
      free_size = u32 (total + u32_mod - using);
    }
