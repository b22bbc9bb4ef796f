-- ===== src/Sector/Write/Ready.antt =====
-- What a sector that is ready for writes stays behind a write.
use jekv.Hash.Append.{hash_append-AllBelow}
use jekv.Hash.Index.{hash_append-IsIndex}
use jekv.Item.Init.{made-IsItem}
use jekv.Item.Layout.{length-encode}
use jekv.Sector.Write.Program.{AllBytes}
use jekv.Sector.Write.Slices.{get_span-item_init, entry_cnt_pos}
use jekv.Sector.Write.{entry_cnt, write_item}
use jekv.Sector.Find.First.{slice_address}
use jekv.Config.{single_item_max_data_size, entry_count, item_state_using, sector_size, slice_size}
use jekv.Item.{Item, item_init, encode}
use jekv.Sector.State.{Ctx}
use jekv.Port.Laws.{IsReliable, overwrite, overwrite_outside}
use jekv.Port.{Driver, Flash}
use jekv.Base.{ℕ, Bool-cases, List, arith, inl, inr, length, ltb, some, u8, ◌+◌, ◌<◌, ◌∙◌, ◌≡◌, ◌≤◌}
use jekv.Item.{encode}
use jekv.Config.{item_state_using, sector_size, slice_size}
use jekv.Sector.Write.{entry_cnt, write_item}
use jekv.Sector.Write.RoundTrip.{IsReady, after_write, write_item_reliable}

module _ ⦃d : Driver⦄ (reliable : IsReliable d) (c : Ctx) (gid type : ℕ) (key buf : List ℕ)
    (seg_id : ℕ) where
  abbrev nf : ℕ
  nf = c.sec.next_free_slice

  abbrev after : Ctx
  after = after_write reliable c gid type key buf seg_id

  abbrev item : Item
  item = item_init item_state_using gid type key (some buf) (length buf) seg_id

  abbrev head : Flash
  head = overwrite c.flash (slice_address c.sec nf) (encode item)

  still_erased :
      IsReady c
      → length buf ≤ single_item_max_data_size
      → (p : ℕ) → slice_address c.sec (nf + entry_cnt (length buf)) ≤ p
      → p < c.sec.pt.offset + (c.sec.address + sector_size)
      → after.flash p ≡ 255
  still_erased v short p lo hi =
      let span = get_span-item_init item_state_using gid type key buf seg_id short in
      let w = length-encode item (made-IsItem item_state_using gid type key buf seg_id) in
      let start = slice_address c.sec nf in
      let old : head p ≡ 255 =
        overwrite_outside c.flash start (encode item) p (inr (omega (arith, w, span)))
        ∙ v.erased p (omega (arith, span)) hi in
      elim (Bool-cases (ltb 8 (length buf))) [
        | inr e ↦ rw e old
        | inl e ↦
            let long : 8 < length buf = ground (arith, e) in
            rw e (
              overwrite_outside head (start + slice_size) buf p (inr (omega (arith, span, long)))
              ∙ old)
      ]

  -- With a reliable driver, a write of bytes that fits, with a segment id of one byte, leaves a
  -- sector that was ready ready for the next write.
  pub write_item-IsReady :
      IsReady c
      → length buf ≤ single_item_max_data_size
      → nf + entry_cnt (length buf) ≤ entry_count
      → seg_id < 256
      → AllBytes key
      → AllBytes buf
      → IsReady (write_item gid type key buf seg_id c).1
  write_item-IsReady v short room hs hk hb =
      let w = write_item_reliable reliable c gid type key buf seg_id v short room hs hk hb in
      let span = entry_cnt_pos (length buf) in
      let small : nf < entry_count = omega (arith, span) in
      let same : u8 (nf + entry_cnt (length buf)) ≡ nf + entry_cnt (length buf) =
        omega (arith, room) in
      rw w (record {
        using = v.using;
        placed = record { inside = v.placed.inside; addressed = v.placed.addressed };
        writable = v.writable;
        counted = record {
          room = omega (arith, room);
          used = omega (arith, v);
          droped = omega (arith, v, room);
        };
        index = (hash_append-IsIndex c.sec.hash item nf reliable.allocs small v.indexed v.index).0;
        indexed =
            hash_append-AllBelow c.sec.hash item nf (u8 (nf + entry_cnt (length buf)))
              (omega (arith, room, span)) small v.indexed;
        erased = λ p lo hi. still_erased v short p (omega (arith, same, lo)) hi;
      })
