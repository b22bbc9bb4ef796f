-- ===== src/Sector/Load/Scan.antt =====
-- The scan of a sector: its loop ends, and what it makes of an item whose checksum is wrong.
use jekv.Item.Layout.{get_span_pos}
use jekv.Base.{ℕ, Exec, arith, refl, suc, zero, ◌+◌, ◌<◌, ◌≡◌, ◌≤◌, sym, u8, ◌*◌, ◌≢◌}
use jekv.Config.{entry_count, item_state_using}
use jekv.Port.{Driver}
use jekv.Item.{Item, get_span, crc_head}
use jekv.Sector.Write.{erase_item}
use jekv.Sector.State.{Ctx}
use jekv.Sector.Load.{scan_step, scan_loop, set_next_free, count_item, erase_item}

module _ ⦃d : Driver⦄ where
  scan_step_congr :
      (k l : ℕ → Exec Ctx (Unit {0})) (i : ℕ) (c : Ctx)
      → ((j : ℕ) (c : Ctx) → i < j → k j c ≡ l j c)
      → scan_step k i c ≡ scan_step l i c
  unfolding scan_step
  scan_step_congr k l i c h = grind (arith, get_span_pos)

  pub scan_step_end :
      (k : ℕ → Exec Ctx (Unit {0})) (i : ℕ) (c : Ctx)
      → entry_count ≤ i
      → scan_step k i c ≡ set_next_free entry_count c
  unfolding scan_step
  scan_step_end k i c h = ground arith

  -- Where the turns and the slices in front of `i` are 127 together, more turns change nothing: the
  -- loop has ended by itself.
  pub scan_loop_fuel :
      (n m i : ℕ) (c : Ctx)
      → entry_count ≤ n + i
      → entry_count ≤ m + i
      → scan_loop n i c ≡ scan_loop m i c
  unfolding scan_loop
  scan_loop_fuel zero zero i c hn hm = refl
  scan_loop_fuel zero (suc m) i c hn hm = sym (scan_step_end (scan_loop m) i c (omega arith))
  scan_loop_fuel (suc n) zero i c hn hm = scan_step_end (scan_loop n) i c (omega arith)
  scan_loop_fuel (suc n) (suc m) i c hn hm =
      scan_step_congr (scan_loop n) (scan_loop m) i c
        (λ j c' lt. scan_loop_fuel n m j c' (omega arith) (omega arith))

  -- An item in use whose checksum is wrong is counted as used once, and as dropped twice.
  pub count_item_twice :
      (i : ℕ) (item : Item) (c : Ctx)
      → item.state ≡ item_state_using
      → item.crc_item ≢ crc_head item
      → ((count_item i item c).1.sec.used_slice ≡ u8 (c.sec.used_slice + get_span item))
        × ((count_item i item c).1.sec.droped_slice ≡ u8 (c.sec.droped_slice + 2 * get_span item))
  unfolding count_item erase_item
  count_item_twice i item c using wrong = ground arith
