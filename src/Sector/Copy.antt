-- ===== src/Sector/Copy.antt =====
-- jekv_sector_copy of src/jekv_sector.c: the items in use of one sector, moved together into another.
pub mod Turns
use jekv.Base.{
  ℕ, zero, suc, ◌+◌, ◌*◌, Bool, true, false, ltb, ◌==◌, u8, u32, if◌then◌else◌, Exec, Result, ok,
  err, no_mem, ◌>>=◌, ◌>>◌, attempt, pure, require,
}
use jekv.Config.{slice_size, entry_count, item_state_using, item_state_droped, sector_state_invalid}
use jekv.Port.{Flash, Driver}
use jekv.Item.{Item, get_span}
use jekv.Hash.{hash_append}
use jekv.Partition.{pt_read, pt_read_item, pt_write, pt_write_item}
use jekv.Sector.State.{Sector, slice_offset}

-- The device and the two sectors, which are different elements of the sector array.
pub record CopyCtx : Type 0 where
  pub flash : Flash
  pub dst : Sector
  pub src : Sector

abbrev on_device {ℓ} : {A : Type ℓ} → (Flash → Result A × Flash) → CopyCtx → Result A × CopyCtx
on_device m c = let (r, f) = m c.flash in (r, record c { flash = f })

-- if (err != JEKV_ERR_OK) { src->state = JEKV_SECTOR_STATE_INVALID; return err; }
abbrev or_src_invalid {ℓ} : {A : Type ℓ} → Result A → CopyCtx → Result A × CopyCtx
or_src_invalid (ok a) c = (ok a, c)
or_src_invalid (err e) c = (err e, record c { src = record c.src { state = sector_state_invalid } })

abbrev or_dst_invalid {ℓ} : {A : Type ℓ} → Result A → CopyCtx → Result A × CopyCtx
or_dst_invalid (ok a) c = (ok a, c)
or_dst_invalid (err e) c = (err e, record c { dst = record c.dst { state = sector_state_invalid } })

abbrev the_ctx : Exec CopyCtx CopyCtx
the_ctx c = (ok c, c)

abbrev update_dst : (Sector → Sector) → Exec CopyCtx (Unit {0})
update_dst g c = (ok tt, record c { dst = g c.dst })

module _ ⦃d : Driver⦄ where
  -- The bytes behind an item of more than one slice.
  unfoldable pub copy_data : Item → ℕ → ℕ → Exec CopyCtx (Unit {0})
  unfolding pt_read pt_write
  copy_data item src_index dst_index = do
    require (d.can_alloc item.length) no_mem
    c ← the_ctx
    bytes ← attempt (
        on_device
          (pt_read c.src.pt (u32 (c.src.address + (src_index + 2) * slice_size)) item.length))
    bytes ← or_src_invalid bytes
    written ←
        attempt
          (on_device (pt_write c.dst.pt (u32 (c.dst.address + (dst_index + 2) * slice_size)) bytes))
    or_dst_invalid written

  -- One item in use.
  unfoldable pub copy_item : Item → ℕ → ℕ → Exec CopyCtx (Unit {0})
  unfolding copy_data pt_write_item
  copy_item item src_index dst_index = do
    c ← the_ctx
    written ← attempt (on_device (pt_write_item c.dst.pt (slice_offset c.dst dst_index) item))
    or_dst_invalid written
    if ltb 1 (get_span item) then copy_data item src_index dst_index else pure tt
    update_dst (λ dst. record dst {
      hash = (hash_append dst.hash item dst_index).1;
      used_slice = u8 (dst.used_slice + get_span item);
      next_free_slice = u8 (dst.next_free_slice + get_span item);
    })

  unfoldable pub read_source : ℕ → Exec CopyCtx Item
  unfolding pt_read_item
  read_source src_index = do
    c ← the_ctx
    item ← attempt (on_device (pt_read_item c.src.pt (slice_offset c.src src_index)))
    or_src_invalid item

  -- The three branches on an item's state: how far the destination goes on, or the end.
  abbrev copy_step : Item → ℕ → ℕ → Exec CopyCtx (Bool × ℕ)
  copy_step item src_index dst_index =
      if item.state == item_state_droped
      then pure (true, dst_index)
      else if item.state == item_state_using
      then (do copy_item item src_index dst_index; pure (true, dst_index + get_span item))
      else (do
        update_dst (λ dst. record dst { next_free_slice = dst.used_slice })
        pure (false, dst_index))

  -- One turn of the loop; `continue` is the rest of it.
  unfoldable pub copy_turn : (ℕ → ℕ → Exec CopyCtx (Unit {0})) → ℕ → ℕ → Exec CopyCtx (Unit {0})
  copy_turn continue src_index dst_index = elim (ltb src_index entry_count) [
    | false ↦ pure tt
    | true ↦ (do
      item ← read_source src_index
      (more, dst_index') ← copy_step item src_index dst_index
      elim more [ true ↦ continue (src_index + get_span item) dst_index' | false ↦ pure tt ])
  ]

  -- The loop. `src_index` grows in each turn, so JEKV_ENTRY_COUNT turns are enough.
  unfoldable pub copy_loop : ℕ → ℕ → ℕ → Exec CopyCtx (Unit {0})
  copy_loop zero src_index dst_index = pure tt
  copy_loop (suc fuel) src_index dst_index = copy_turn (copy_loop fuel) src_index dst_index

  -- jekv_sector_copy
  unfoldable pub sector_copy : Exec CopyCtx (Unit {0})
  unfolding copy_loop copy_turn read_source copy_item
  sector_copy = copy_loop entry_count 0 0
