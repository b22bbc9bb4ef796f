-- ===== src/Sector/Write/Lookup.antt =====
-- A value that is written to a sector is found under its key and read back.
use jekv.Sector.Write.Program.{AllBytes}
use jekv.Sector.Find.Search.{find_loop_fuel}
use jekv.Hash.Append.{hash_find-hash_append}
use jekv.Hash.{nodes}
use jekv.Hash.Index.{NoNode}
use jekv.Partition.Bounds.{pt_read_reliable}
use jekv.Sector.Write.Slices.{get_span-item_init, entry_cnt_pos}
use jekv.Item.Layout.{length-encode, decode-encode}
use jekv.Sector.Write.{entry_cnt, read_item_data, write_item}
use jekv.Sector.Find.First.{item_at, slice_address, IsPlaced, read_slice_reliable}
use jekv.Item.Init.{strncmp_eq-name_field, made-IsItem}
use jekv.Sector.State.{Ctx}
use jekv.Port.Laws.{
  IsReliable, bytes_at, bytes_at-overwrite, bytes_at_congr, overwrite_outside, overwrite,
  bytes_at-overwrite_self,
}
use jekv.Port.{Driver, Flash}
use jekv.Item.{Item, item_init, crc_hash, encode}
use jekv.Base.{
  ℕ, List, arith, length, ok, refl, some, ◌+◌, ◌<◌, ◌≡◌, ◌≤◌, Bool-cases, inl, inr, ltb, ◌∙◌, drop,
  le→leb, replicate, take, take-append, take_all, u32, ◌%◌, ◌*◌, false, leb, lt→ltb, min, suc, true,
  u8, ◌-◌, ◌≢◌, ◌⊎◌,
}
use jekv.Config.{
  entry_count, single_item_max_data_size, item_state_using, seg_start_any, slice_size,
  type_any_without_seg, type_blob_seg,
}
use jekv.Sector.Write.Slices.{entry_cnt_pos}
use jekv.Sector.Write.RoundTrip.{IsReady, after_write, write_item_reliable}
use jekv.Sector.Find.{
  Query, probe, verdict, matches, hit, find_item, find_loop, find_step, look, FindCtx, searchable,
  find_into,
}

-- The search for one item.
abbrev pub query_for : ℕ → ℕ → List ℕ → ℕ → Query
query_for gid type key seg_id = record {
  group_id = gid;
  type = type;
  key = some key;
  seg_index = seg_id;
  seg_start = seg_start_any;
}

-- The types that a search for `wanted` accepts, where `wanted` is a type or that of any value.
abbrev pub Accepts : ℕ → ℕ → Type 0
Accepts wanted type = (wanted ≡ type) ⊎ ((wanted ≡ type_any_without_seg) × (type ≢ type_blob_seg))

module _ (gid type : ℕ) (key buf : List ℕ) (seg_id : ℕ) where
  abbrev pub made : Item
  made = item_init item_state_using gid type key (some buf) (length buf) seg_id

  crc_hash-probe :
      (wanted : ℕ) → crc_hash (probe (query_for gid wanted key seg_id) key) ≡ crc_hash made
  unfolding probe item_init crc_hash
  crc_hash-probe wanted = refl

  -- The item that is written is a hit for its own query, and for that of any value.
  verdict-made :
      (wanted : ℕ)
      → Accepts wanted type
      → gid < 64
      → type < 16
      → verdict (query_for gid wanted key seg_id) made ≡ hit
  unfolding verdict matches item_init
  verdict-made wanted accepted hg ht = ground (arith, accepted, strncmp_eq-name_field key)

module _ ⦃d : Driver⦄ (reliable : IsReliable d) (c : Ctx) (gid type : ℕ) (key buf : List ℕ)
    (seg_id : ℕ) where
  abbrev nf : ℕ
  nf = c.sec.next_free_slice

  abbrev after : Ctx
  after = after_write reliable c gid type key buf seg_id

  abbrev item : Item
  item = made gid type key buf seg_id

  abbrev head : Flash
  head = overwrite c.flash (slice_address c.sec nf) (encode item)

  pub head_read : item_at after.flash c.sec nf ≡ item
  head_read =
      let v = made-IsItem item_state_using gid type key buf seg_id in
      let base =
        bytes_at-overwrite c.flash (slice_address c.sec nf) slice_size (encode item)
          (length-encode item v) in
      let same : bytes_at after.flash (slice_address c.sec nf) slice_size ≡ encode item =
        elim (Bool-cases (ltb 8 (length buf))) [
          | inr e ↦ rw e base
          | inl e ↦ rw e (
              bytes_at_congr _ head (slice_address c.sec nf) slice_size (λ p lo hi.
                overwrite_outside head (slice_address c.sec nf + slice_size) buf p (inl hi))
              ∙ base)
        ] in
      rw same (decode-encode item v)

  payload_read : length buf ≤ 8 → take (length buf) item.payload ≡ buf
  unfolding item_init
  payload_read short =
      let tail : List ℕ = drop (length buf) (replicate 8 255) in
      let shut : ltb 8 (length buf) ≡ false = ground (arith, short) in
      rw (shut, take_all buf (length buf) refl) (take-append buf tail (length buf) refl)

  data_read :
      IsReady c
      → length buf ≤ single_item_max_data_size
      → nf + entry_cnt (length buf) ≤ entry_count
      → read_item_data nf item (length buf) after ≡ (ok buf, after)
  unfolding read_item_data
  data_read v short room = elim (Bool-cases (ltb 8 (length buf))) [
    | inr e ↦
        let le : length buf ≤ 8 = ground (arith, e) in
        rw (le→leb (length buf) 8 le, payload_read le) refl
    | inl e ↦
        let data_at = c.sec.address + (nf + 1) * slice_size + slice_size in
        let long : 8 < length buf = ground (arith, e) in
        let span = get_span-item_init item_state_using gid type key buf seg_id short in
        let at : u32 (c.sec.address + (nf + 1 + 1) * slice_size) ≡ data_at =
          omega (arith, v, span) in
        let same : c.sec.pt.offset + data_at ≡ slice_address c.sec nf + slice_size = omega arith in
        let base =
          pt_read_reliable reliable c.sec.pt v.placed.addressed data_at (length buf) after.flash
            (omega (arith, v, span, long)) in
        let back = bytes_at-overwrite_self head (slice_address c.sec nf + slice_size) buf in
        let off : leb (length buf) 8 ≡ false = ground (arith, e) in
        rw (off, at, base, e, same, back) refl
  ]

  found :
      IsReady c
      → length buf ≤ single_item_max_data_size
      → nf + entry_cnt (length buf) ≤ entry_count
      → gid < 64
      → type < 16
      → NoNode 0 nf (crc_hash item % 16777216) (nodes c.sec.hash.hash_table)
      → (wanted : ℕ) → Accepts wanted type
      → (buffer : Item)
      → find_item
          (query_for gid wanted key seg_id)
          0
          (record { flash = after.flash; sec = after.sec; item = buffer })
        ≡ (ok nf, record { flash = after.flash; sec = after.sec; item = item })
  unfolding find_item find_loop find_step look
  found v short room hg ht fresh wanted accepted buffer =
      let hit_at =
        hash_find-hash_append c.sec.hash item (probe (query_for gid wanted key seg_id) key) nf
          reliable.allocs v.index (omega (arith, v, entry_cnt_pos (length buf))) v.indexed
          (crc_hash-probe gid type key buf seg_id wanted) fresh in
      let good : searchable after.sec ≡ true = ground (arith, v.using) in
      let end = min (u8 (nf + entry_cnt (length buf))) entry_count in
      let span = entry_cnt_pos (length buf) in
      let ctx : FindCtx = record { flash = after.flash; sec = after.sec; item = buffer } in
      let q = query_for gid wanted key seg_id in
      let probed : FindCtx = record ctx { item = probe q key } in
      let turns = find_loop_fuel (end - 0) (suc end) q 0 end ctx (omega arith) (omega arith) in
      let placed : IsPlaced after.sec = record {
        inside = v.placed.inside;
        addressed = v.placed.addressed;
      } in
      let read = read_slice_reliable reliable nf probed placed (omega (arith, v, span)) in
      let busy : ltb 0 end ≡ true = lt→ltb 0 end (omega (arith, v, span)) in
      rw
        (
          good,
          find_item,
          turns,
          busy,
          find_step,
          hit_at,
          look,
          read,
          head_read,
          verdict-made gid type key buf seg_id wanted accepted hg ht,
        )
        refl

  -- With a reliable driver, bytes that fit are written with OK to a sector that is ready, under a
  -- key of bytes, a group id below 64, a type below 16 and a segment id below 256; where no older
  -- entry of the index has the same hash, the search for them then returns the slice that was the
  -- next free one, with its item, and reading the item's data returns the bytes written.
  pub find_item-write_item :
      IsReady c
      → length buf ≤ single_item_max_data_size
      → nf + entry_cnt (length buf) ≤ entry_count
      → gid < 64
      → type < 16
      → seg_id < 256
      → AllBytes key
      → AllBytes buf
      → NoNode 0 nf (crc_hash item % 16777216) (nodes c.sec.hash.hash_table)
      → (buffer : Item)
      → ((write_item gid type key buf seg_id c).0 ≡ ok tt)
        × (find_into
              (query_for gid type key seg_id)
              0
              buffer
              (write_item gid type key buf seg_id c).1
            ≡ (ok (ok nf, item), (write_item gid type key buf seg_id c).1))
        × (read_item_data nf item (length buf) (write_item gid type key buf seg_id c).1
            ≡ (ok buf, (write_item gid type key buf seg_id c).1))
  find_item-write_item v short room hg ht hs hk hb fresh buffer =
      let w = write_item_reliable reliable c gid type key buf seg_id v short room hs hk hb in
      rw (w, found v short room hg ht fresh type (inl refl) buffer)
        (refl, refl, data_read v short room)

  -- The same item is found by a search for a value of any type.
  pub find_item_any :
      IsReady c
      → length buf ≤ single_item_max_data_size
      → nf + entry_cnt (length buf) ≤ entry_count
      → gid < 64
      → type < 16
      → type ≢ type_blob_seg
      → seg_id < 256
      → AllBytes key
      → AllBytes buf
      → NoNode 0 nf (crc_hash item % 16777216) (nodes c.sec.hash.hash_table)
      → (buffer : Item)
      → find_into
          (query_for gid type_any_without_seg key seg_id)
          0
          buffer
          (write_item gid type key buf seg_id c).1
        ≡ (ok (ok nf, item), (write_item gid type key buf seg_id c).1)
  find_item_any v short room hg ht no_seg hs hk hb fresh buffer =
      let w = write_item_reliable reliable c gid type key buf seg_id v short room hs hk hb in
      rw (w, found v short room hg ht fresh type_any_without_seg (inr (refl, no_seg)) buffer) refl
