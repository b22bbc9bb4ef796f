-- ===== src/Sector/Write/RoundTrip.antt =====
-- A value that is written to a sector is found under its key and read back.
use jekv.Partition.Bounds.{pt_write_item_reliable, pt_write_reliable}
use jekv.Item.Init.{made-IsItem}
use jekv.Item.Layout.{length-encode}
use jekv.Sector.Write.Slices.{entry_cnt_pos, get_span-item_init}
use jekv.Base.{
  ap, ◌∙◌, inr, ℕ, List, false, if◌then◌else◌, length, ltb, ok, some, ◌+◌, ◌<◌, ◌≡◌, ◌≤◌, arith,
  u32, ◌*◌,
}
use jekv.Config.{
  entry_count, slice_size, sector_size, single_item_max_data_size, item_state_using,
  sector_state_using,
}
use jekv.Port.{Flash, Driver}
use jekv.Port.Laws.{IsReliable, overwrite, overwrite_outside}
use jekv.Item.{Item, encode, item_init}
use jekv.Hash.{nodes, hash_append}
use jekv.Hash.Index.{IsIndex, AllBelow}
use jekv.Sector.State.{Ctx, get_next_address}
use jekv.Sector.Write.{
  entry_cnt, advance, write_item, put_item, write_item_data, pt_write_item, pt_write,
}
use jekv.Sector.Write.Errors.{IsCounted}
use jekv.Sector.Write.Program.{AllBytes, AllBytes-encode, CanProgram-erased}
use jekv.Sector.Find.First.{IsPlaced, slice_address}

-- A sector in use that lies in a writable partition, whose counters and index are in order, and
-- whose slices behind the last entry are erased.
pub record IsReady (c : Ctx) : Type 0 where
  pub using : c.sec.state ≡ sector_state_using
  pub placed : IsPlaced c.sec
  pub writable : c.sec.pt.readonly ≡ false
  pub counted : IsCounted c.sec
  pub index : IsIndex c.sec.hash
  pub indexed : AllBelow c.sec.next_free_slice (nodes c.sec.hash.hash_table)
  pub erased :
      (p : ℕ)
      → slice_address c.sec c.sec.next_free_slice ≤ p
      → p < c.sec.pt.offset + (c.sec.address + sector_size)
      → c.flash p ≡ 255

module _ ⦃d : Driver⦄ (reliable : IsReliable d) (c : Ctx) (gid type : ℕ) (key buf : List ℕ)
    (seg_id : ℕ) where
  abbrev pub written : Item
  written = item_init item_state_using gid type key (some buf) (length buf) seg_id

  abbrev head_flash : Flash
  head_flash = overwrite c.flash (slice_address c.sec c.sec.next_free_slice) (encode written)

  abbrev pub after_write : Ctx
  after_write = record {
    flash =
        if ltb 8 (length buf)
        then overwrite head_flash (slice_address c.sec c.sec.next_free_slice + slice_size) buf
        else head_flash;
    sec = record (advance (entry_cnt (length buf)) c.sec) {
      hash = (hash_append c.sec.hash written c.sec.next_free_slice).1;
    };
  }

  abbrev nf : ℕ
  nf = c.sec.next_free_slice

  head_written :
      IsReady c
      → nf + entry_cnt (length buf) ≤ entry_count
      → seg_id < 256
      → AllBytes key
      → AllBytes buf
      → pt_write_item c.sec.pt (get_next_address c.sec) written c.flash ≡ (ok tt, head_flash)
  head_written v room small_id hk hb =
      let e : get_next_address c.sec ≡ c.sec.address + (nf + 1) * slice_size =
        omega (arith, v, entry_cnt_pos (length buf)) in
      let w = length-encode written (made-IsItem item_state_using gid type key buf seg_id) in
      rw e (
        pt_write_item_reliable reliable c.sec.pt v.placed.addressed
          (c.sec.address + (nf + 1) * slice_size) written c.flash v.writable
          (omega (arith, v, entry_cnt_pos (length buf)))
          (CanProgram-erased c.flash (slice_address c.sec nf) (encode written)
            (AllBytes-encode item_state_using gid type key buf seg_id (omega arith) small_id hk hb)
            (λ p lo hi. v.erased p lo (omega (arith, w, v, entry_cnt_pos (length buf))))))

  data_written :
      IsReady c
      → length buf ≤ single_item_max_data_size
      → nf + entry_cnt (length buf) ≤ entry_count
      → 8 < length buf
      → AllBytes buf
      → pt_write c.sec.pt (u32 (get_next_address c.sec + slice_size)) buf head_flash
        ≡ (ok tt, overwrite head_flash (slice_address c.sec nf + slice_size) buf)
  data_written v short room long hb =
      let at : u32 (get_next_address c.sec + slice_size)
          ≡ c.sec.address + (nf + 1) * slice_size + slice_size =
        omega (arith, v, entry_cnt_pos (length buf)) in
      let span = get_span-item_init item_state_using gid type key buf seg_id short in
      let w = length-encode written (made-IsItem item_state_using gid type key buf seg_id) in
      let data_at = c.sec.address + (nf + 1) * slice_size + slice_size in
      let same : c.sec.pt.offset + data_at ≡ slice_address c.sec nf + slice_size = omega arith in
      let base =
        pt_write_reliable reliable c.sec.pt v.placed.addressed data_at buf head_flash v.writable
          (omega (arith, v, span, long))
          (CanProgram-erased head_flash (c.sec.pt.offset + data_at) buf hb (λ p lo hi.
            overwrite_outside c.flash (slice_address c.sec nf) (encode written) p
              (inr (omega (arith, w, v, span, long)))
            ∙ v.erased p (omega arith) (omega (arith, v, span, long)))) in
      rw at (base ∙ ap (λ a. (ok tt, overwrite head_flash a buf)) same)

  -- The device and the sector behind a write that fits.
  pub write_item_reliable :
      IsReady c
      → length buf ≤ single_item_max_data_size
      → c.sec.next_free_slice + entry_cnt (length buf) ≤ entry_count
      → seg_id < 256
      → AllBytes key
      → AllBytes buf
      → write_item gid type key buf seg_id c ≡ (ok tt, after_write)
  unfolding write_item put_item write_item_data
  write_item_reliable v short room small_id hk hb =
      ground (arith, v, head_written v room small_id hk hb, data_written v short room)
