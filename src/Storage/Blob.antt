-- ===== src/Storage/Blob.antt =====
-- storage_cmp_find_item, storage_write_blob_desc, storage_cmp_blob, storage_read_blob,
-- storage_erase_blob and storage_write_blob of src/jekv_storage.c.
use jekv.Base.{
  ℕ, ◌>>=◌, ◌>>◌, Exec, List, Result, [], attempt, drop, err, fail, false, give, if◌then◌else◌,
  invalid_length, le32, leb, length, ltb, no_mem, not_found, ok, pure, require, same_bytes, some,
  suc, take, true, u32, u8, zero, ◌&&◌, ◌*◌, ◌++◌, ◌+◌, ◌==◌, ◌∷◌,
}
use jekv.Config.{slice_size, single_item_max_data_size, type_blob, type_blob_seg, seg_id_any}
use jekv.Port.{Driver}
use jekv.Item.{Item, all_size, seg_count, seg_start}
use jekv.Item
use jekv.Partition.{pt_read}
use jekv.Sector.State.{on_flash}
use jekv.Sector.Write.{erase_item, read_item_data, write_item}
use jekv.Manager.State.{sector_at}
use jekv.Manager.Recover.{blank_item}
use jekv.Manager.Query.{Place, sm_find_item}
use jekv.Storage.State.{StCtx, the_storage, on_sm, on_sec, query}

module _ ⦃d : Driver⦄ where
  -- storage_cmp_find_item of the item found at `place` with the caller's data.
  unfoldable pub cmp_find_item : Place → List ℕ → Exec StCtx (Unit {0})
  unfolding pt_read
  cmp_find_item place buf = do
    require (length buf == place.item.length) fail
    if leb (length buf) 8
        then require (same_bytes buf (take (length buf) place.item.payload)) fail
        else (do
          require (d.can_alloc (length buf)) fail
          storage ← the_storage
          let sec = sector_at storage.sm place.sector
          bytes ← on_sec place.sector (
              on_flash
                (pt_read sec.pt (u32 (sec.address + (place.index + 2) * slice_size)) (length buf)))
          require (same_bytes buf bytes) fail)

  -- storage_write_blob_desc on the sector `sec`; the data is the union of `desc_item`.
  unfoldable pub write_blob_desc : ℕ → ℕ → List ℕ → ℕ → ℕ → ℕ → Exec StCtx (Unit {0})
  unfolding write_item
  write_blob_desc sec gid key size seg_count seg_start = on_sec sec (
      write_item gid type_blob key (le32 size ++ (u8 seg_count ∷ seg_start ∷ 255 ∷ 255 ∷ []))
        seg_id_any)

  -- The search for the segment `i` of the blob that `item` describes.
  abbrev pub find_seg : Item → ℕ → Exec StCtx (Result Place)
  find_seg item i = do
    (r, seg) ← on_sm (
        sm_find_item
          (query item.group_id type_blob_seg (some item.name) (u8 (Item.seg_start item + i))
            (Item.seg_start item))
          0 blank_item)
    pure r

  -- The loop of storage_cmp_blob: `n` segments from `i` on. It comes back with `i` and `offset`,
  -- also from a `break`.
  unfoldable pub cmp_segs : ℕ → Item → List ℕ → ℕ → ℕ → Exec StCtx (ℕ × ℕ)
  unfolding sm_find_item read_item_data
  cmp_segs zero item buf i offset = pure (i, offset)
  cmp_segs (suc n) item buf i offset = do
    found ← find_seg item i
    elim found [
      | err c ↦ pure (i, offset)
      | ok at ↦ (do
        let seg = at.item
        elim (ltb (length buf) (u32 (seg.length + offset))) [
          | true ↦ pure (i, offset)
          | false ↦ (do
            bytes ← attempt (on_sec at.sector (read_item_data at.index seg seg.length))
            elim bytes [
              | err c ↦ pure (i, offset)
              | ok bytes ↦ elim (same_bytes bytes (take seg.length (drop offset buf))) [
                | false ↦ pure (i, offset)
                | true ↦ cmp_segs n item buf (i + 1) (u32 (offset + seg.length))
              ]
            ])
        ])
    ]

  -- storage_cmp_blob
  unfoldable pub cmp_blob : Item → List ℕ → Exec StCtx (Unit {0})
  unfolding cmp_segs
  cmp_blob item buf = do
    require (all_size item == length buf) fail
    require (d.can_alloc single_item_max_data_size) no_mem
    (i, offset) ← cmp_segs (Item.seg_count item) item buf 0 0
    require (i == Item.seg_count item && offset == length buf) fail

  -- The loop of storage_read_blob: `n` segments from `i` on. It comes back with the bytes read
  -- and `offset`; what lies in the caller's buffer behind an error is not represented.
  unfoldable pub read_segs : ℕ → Item → ℕ → ℕ → ℕ → List ℕ → Exec StCtx (List ℕ × ℕ)
  unfolding sm_find_item read_item_data
  read_segs zero item size i offset buf = pure (buf, offset)
  read_segs (suc n) item size i offset buf = do
    found ← find_seg item i
    at ← give found
    require (leb (u32 (at.item.length + offset)) size) invalid_length
    bytes ← on_sec at.sector (read_item_data at.index at.item at.item.length)
    read_segs n item size (i + 1) (u32 (offset + at.item.length)) (buf ++ bytes)

  -- storage_read_blob
  unfoldable pub read_blob : Item → ℕ → Exec StCtx (List ℕ)
  unfolding read_segs
  read_blob item size = do
    (buf, offset) ← read_segs (Item.seg_count item) item size 0 0 []
    require (offset == size) (if ltb 0 offset then invalid_length else not_found)
    pure buf

  -- The loop of storage_erase_blob: `n` segments from `i` on; `before` is `err`.
  unfoldable pub erase_segs : ℕ → Item → ℕ → Result (Unit {0}) → Exec StCtx (Unit {0})
  unfolding sm_find_item erase_item
  erase_segs zero item i before = give before
  erase_segs (suc n) item i before = do
    found ← find_seg item i
    at ← give found
    attempt (on_sec at.sector (erase_item at.index at.item true))
    erase_segs n item (i + 1) (ok tt)

  -- storage_erase_blob
  unfoldable pub erase_blob : Place → Exec StCtx (Unit {0})
  unfolding erase_segs erase_item
  erase_blob place = do
    erased ← attempt (on_sec place.sector (erase_item place.index place.item true))
    erase_segs (Item.seg_count place.item) place.item 0 erased
