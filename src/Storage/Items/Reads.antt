-- ===== src/Storage/Items/Reads.antt =====
-- Which operations on values leave the device as it is.
use jekv.Sector.Find.{Query}
use jekv.Sector.State.{Ctx}
use jekv.Manager.State.{SmCtx, sector_at}
use jekv.Item.{seg_start, seg_count}
use jekv.Config.{type_blob_seg, seg_start_any, type_any_without_seg, type_blob}
use jekv.Partition.{pt_read, device_read}
use jekv.Base.{
  ℕ, List, Result-cases, arith, inl, inr, some, u8, ◌+◌, ◌≡◌, Option, none, refl, suc, zero, Result,
  err, ok, true, u32, ◌∙◌, ◌≢◌, set,
}
use jekv.Manager.Query.{sm_find_item}
use jekv.Manager.Query.Reads.{sm_find_item-flash}
use jekv.Sector.Write.{read_item_data}
use jekv.Storage.State.{StCtx}
use jekv.Storage.Items.{
  find_value, Driver, query, Item, seg_id_any, Place, sm_find_item, is_same, storage_find_key,
  blank_item, storage_read_item, storage_write_item,
}
use jekv.Storage.Blob.{cmp_find_item, find_seg, cmp_blob, cmp_segs}

module _ ⦃d : Driver⦄ where
  find_value-flash :
      (gid type : ℕ) (key : List ℕ) (c : StCtx) → (find_value gid type key c).1.flash ≡ c.flash
  find_value-flash gid type key c =
      let q = query gid type (some key) seg_id_any seg_start_any in
      let sm : SmCtx = record { flash = c.flash; sm = c.storage.sm } in
      elim (Result-cases (sm_find_item q 0 blank_item sm).0) [
        | inl (r, e) ↦ rw e (sm_find_item-flash q 0 blank_item sm)
        | inr (code, e) ↦ rw e (sm_find_item-flash q 0 blank_item sm)
      ]

  find_seg-flash : (item : Item) (i : ℕ) (c : StCtx) → (find_seg item i c).1.flash ≡ c.flash
  find_seg-flash item i c =
      let q =
        query item.group_id type_blob_seg (some item.name) (u8 (seg_start item + i))
          (seg_start item) in
      let sm : SmCtx = record { flash = c.flash; sm = c.storage.sm } in
      elim (Result-cases (sm_find_item q 0 blank_item sm).0) [
        | inl (r, e) ↦ rw e (sm_find_item-flash q 0 blank_item sm)
        | inr (code, e) ↦ rw e (sm_find_item-flash q 0 blank_item sm)
      ]

  read_item_data-flash :
      (index : ℕ) (item : Item) (size : ℕ) (c : Ctx)
      → (read_item_data index item size c).1.flash ≡ c.flash
  unfolding read_item_data pt_read device_read
  read_item_data-flash index item size c = ground arith

  cmp_find_item-flash :
      (place : Place) (buf : List ℕ) (c : StCtx) → (cmp_find_item place buf c).1.flash ≡ c.flash
  unfolding cmp_find_item pt_read device_read
  cmp_find_item-flash place buf c = ground arith

  cmp_segs-flash :
      (n : ℕ) (item : Item) (buf : List ℕ) (i offset : ℕ) (c : StCtx)
      → (cmp_segs n item buf i offset c).1.flash ≡ c.flash
  unfolding cmp_segs
  cmp_segs-flash zero item buf i offset c = refl
  cmp_segs-flash (suc n) item buf i offset c =
      elim (Result-cases (sm_find_item q 0 blank_item sm).0) [
        | inr (code, e) ↦ rw (e, cmp_segs) found
        | inl ((err code, seg), e) ↦ rw (e, cmp_segs) found
        | inl ((ok at, seg), e) ↦ ground (
          arith,
          e,
          found,
          bytes-flash at,
          cmp_segs-flash n item buf (i + 1) (u32 (offset + at.item.length)) (after at),
        )
      ]
    where
      q : Query
      q =
          query item.group_id type_blob_seg (some item.name) (u8 (seg_start item + i))
            (seg_start item)

      sm : SmCtx
      sm = record { flash = c.flash; sm = c.storage.sm }

      found : (sm_find_item q 0 blank_item sm).1.flash ≡ c.flash
      found = sm_find_item-flash q 0 blank_item sm

      bytes_of : Place → Result (List ℕ) × Ctx
      bytes_of at =
          let c' = (sm_find_item q 0 blank_item sm).1 in
          read_item_data at.index at.item at.item.length
            (record { flash = c'.flash; sec = sector_at c'.sm at.sector })

      after : Place → StCtx
      after at =
          let c' = (bytes_of at).1 in
          let sm' = (sm_find_item q 0 blank_item sm).1.sm in
          record {
            flash = c'.flash;
            storage = record c.storage {
              sm = record sm' { sec_arr = set sm'.sec_arr at.sector c'.sec };
            };
          }

      bytes-flash : (at : Place) → (bytes_of at).1.flash ≡ c.flash
      bytes-flash at = read_item_data-flash at.index at.item at.item.length _ ∙ found

  cmp_blob-flash :
      (item : Item) (buf : List ℕ) (c : StCtx) → (cmp_blob item buf c).1.flash ≡ c.flash
  unfolding cmp_blob
  cmp_blob-flash item buf c = ground (arith, cmp_segs-flash (seg_count item) item buf 0 0 c)

  is_same-flash :
      (old : Option Place) (type : ℕ) (buf : List ℕ) (c : StCtx)
      → (is_same old type buf c).1.flash ≡ c.flash
  unfolding is_same
  is_same-flash none type buf c = refl
  is_same-flash (some place) type buf c =
      ground (arith, cmp_blob-flash place.item buf c, cmp_find_item-flash place buf c)

  -- Looking up a key leaves the device as it is, whatever the driver answers.
  pub storage_find_key-flash :
      (gid : ℕ) (key : List ℕ) (c : StCtx) → (storage_find_key gid key c).1.flash ≡ c.flash
  unfolding storage_find_key
  storage_find_key-flash gid key c = ground (arith, find_value-flash gid type_any_without_seg key c)

  -- Where the value under the key is found to be the same, a write returns OK and leaves the
  -- device as it is.
  pub storage_write_item-is_same :
      (turns gid type : ℕ) (key buf : List ℕ) (c : StCtx) (place : Place)
      → (find_value gid type_any_without_seg key c).0 ≡ ok (ok place)
      → (is_same (some place) type buf (find_value gid type_any_without_seg key c).1).0 ≡ ok true
      → ((storage_write_item turns gid type key buf c).0 ≡ ok tt)
        × ((storage_write_item turns gid type key buf c).1.flash ≡ c.flash)
  unfolding storage_write_item
  storage_write_item-is_same turns gid type key buf c place found same = ground (
    arith,
    find_value-flash gid type_any_without_seg key c,
    is_same-flash (some place) type buf (find_value gid type_any_without_seg key c).1,
  )

  -- Reading a value that is no blob leaves the device as it is.
  pub storage_read_item-flash :
      (gid type : ℕ) (key : List ℕ) (size : ℕ) (c : StCtx)
      → type ≢ type_blob
      → (storage_read_item gid type key size c).1.flash ≡ c.flash
  unfolding storage_read_item
  storage_read_item-flash gid type key size c plain =
      elim (Result-cases (find_value gid type key c).0) [
        | inr (code, e) ↦ ground (arith, e, find_value-flash gid type key c)
        | inl (err code, e) ↦ ground (arith, e, find_value-flash gid type key c)
        | inl (ok place, e) ↦ ground (
          arith,
          e,
          find_value-flash gid type key c,
          read_item_data-flash place.index place.item place.item.length (behind place),
        )
      ]
    where
      behind : Place → Ctx
      behind place =
          let c' = (find_value gid type key c).1 in
          record { flash = c'.flash; sec = sector_at c'.storage.sm place.sector }
