-- ===== src/Sector/Write/Errors.antt =====
-- jekv_sector_write_item where it takes the write, and the counters of the sector.
use jekv.Base.{ℕ, List, arith, length, ◌+◌, ◌≡◌, ◌≢◌, ◌≤◌, ok, some}
use jekv.Config.{
  entry_count, single_item_max_data_size, sector_state_invalid, sector_state_full,
  sector_state_uninit, item_state_using,
}
use jekv.Port.{Driver}
use jekv.Sector.State.{Sector, Ctx, sector_init}
use jekv.Sector.Write.{entry_cnt, write_item, put_item, write_item_data, Item, item_init}

-- The counters of a sector: every slice before the next free one is counted as used.
pub record IsCounted (sec : Sector) : Type 0 where
  pub room : sec.next_free_slice ≤ entry_count
  pub used : sec.used_slice ≡ sec.next_free_slice
  pub droped : sec.droped_slice ≤ sec.used_slice

-- A sector that takes writes.
abbrev pub IsWritable : Sector → Type 0
IsWritable sec =
    (sec.state ≢ sector_state_invalid)
    × (sec.state ≢ sector_state_full)
    × (sec.state ≢ sector_state_uninit)

module _ ⦃d : Driver⦄ (c : Ctx) (gid type : ℕ) (key buf : List ℕ) (seg_id : ℕ) where
  -- Where the sector takes writes, the item fits and the used slices are those before the next free
  -- one, the result is OK and the counters go on by its slices, whatever the driver answers to the
  -- writes.
  pub write_item-ok :
      IsWritable c.sec
      → length buf ≤ single_item_max_data_size
      → c.sec.next_free_slice + entry_cnt (length buf) ≤ entry_count
      → c.sec.used_slice ≡ c.sec.next_free_slice
      → ((write_item gid type key buf seg_id c).0 ≡ ok tt)
        × ((write_item gid type key buf seg_id c).1.sec.next_free_slice
            ≡ c.sec.next_free_slice + entry_cnt (length buf))
        × ((write_item gid type key buf seg_id c).1.sec.used_slice
            ≡ c.sec.used_slice + entry_cnt (length buf))
        × ((write_item gid type key buf seg_id c).1.sec.droped_slice ≡ c.sec.droped_slice)
        × ((write_item gid type key buf seg_id c).1.sec.state ≡ c.sec.state)
  unfolding write_item put_item write_item_data
  write_item-ok w short room same = ground arith

sector_init-IsCounted : ⦃d : Driver⦄ (c : Ctx) → IsCounted (sector_init c).1.sec
unfolding sector_init
sector_init-IsCounted c = omega arith

put_item-IsCounted :
    ⦃d : Driver⦄ (c : Ctx) (item : Item) (buf : List ℕ)
    → IsCounted c.sec
    → c.sec.next_free_slice + entry_cnt (length buf) ≤ entry_count
    → IsCounted (put_item item buf c).1.sec
unfolding put_item write_item_data
put_item-IsCounted c item buf v room = ground arith

module _ ⦃d : Driver⦄ (c : Ctx) where
  -- Whatever the result, a write keeps the counters of a sector in order.
  pub write_item-IsCounted :
      (gid type : ℕ) (key buf : List ℕ) (seg_id : ℕ)
      → IsCounted c.sec
      → IsCounted (write_item gid type key buf seg_id c).1.sec
  unfolding write_item
  write_item-IsCounted gid type key buf seg_id v =
      let item = item_init item_state_using gid type key (some buf) (length buf) seg_id in
      ground (
        arith,
        put_item-IsCounted c item buf,
        put_item-IsCounted (sector_init c).1 item buf,
        sector_init-IsCounted c,
      )
