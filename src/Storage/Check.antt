-- ===== src/Storage/Check.antt =====
-- storage_blob_init_info, storage_blob_check_match, storage_blob_check_drop and storage_blob_check
-- of src/jekv_storage.c: which blobs are complete, and the removal of what is left of others.
use jekv.Manager.Recover.{blank_item}
use jekv.Sector.Write.{erase_item}
use jekv.Manager.Query.{Place, sm_find_item}
use jekv.Storage.State.{query, StCtx, each_item, walk, on_sec, the_storage, on_sm}
use jekv.Port.{Driver}
use jekv.Sector.Find.{Query}
use jekv.Base.{
  ◌>>=◌, ◌>>◌, ◌++◌, attempt, ℕ, ◌>>=◌, ◌>>◌, Bool, List, [], false, if◌then◌else◌, leb, ltb, u32,
  u8, ◌&&◌, ◌+◌, ◌==◌, ◌||◌, ◌∷◌, Exec, Result, err, no_mem, none, ok, pure, require, some, true,
}
use jekv.Config.{
  max_key_len, seg_start_any, seg_start_ver_1, group_id_any, seg_id_any, type_blob, type_blob_seg,
}
use jekv.Item.{Item, all_size, strnlen, strncmp_eq}
use jekv.Item

-- jekv_blob_into_t
pub record BlobInfo : Type 0 where
  pub name : List ℕ
  pub group_id : ℕ
  pub seg_count : ℕ
  pub count_seg_cnt : ℕ
  pub seg_start : ℕ
  pub desc_data_size : ℕ
  pub count_data_size : ℕ

-- What is recorded of a descriptor.
unfoldable pub blob_info : Item → BlobInfo
blob_info item = record {
  name = item.name;
  group_id = item.group_id;
  seg_count = Item.seg_count item;
  count_seg_cnt = 0;
  seg_start = Item.seg_start item;
  desc_data_size = all_size item;
  count_data_size = 0;
}

-- The test of a segment against a descriptor, but for the name.
abbrev pub in_version : Item → BlobInfo → Bool
in_version item desc =
    item.group_id == desc.group_id
    && (leb desc.seg_start item.seg_id
        && ltb item.seg_id
            (if desc.seg_start == seg_start_ver_1 then seg_start_any else seg_start_ver_1))

-- The test of storage_blob_check_match.
unfoldable pub is_seg_of : Item → BlobInfo → Bool
unfolding strncmp_eq
is_seg_of item desc = strncmp_eq item.name desc.name max_key_len && in_version item desc

-- The test of storage_blob_check_drop.
unfoldable pub is_kept_by : Item → BlobInfo → Bool
unfolding strncmp_eq strnlen
is_kept_by item desc =
    strncmp_eq item.name desc.name (strnlen desc.name max_key_len) && in_version item desc

-- The statistic: the segment counts for the first descriptor that it belongs to.
unfoldable pub count_seg : Item → List BlobInfo → List BlobInfo
unfolding is_seg_of
count_seg item [] = []
count_seg item (desc ∷ info) =
    let rest = count_seg item info in
    if is_seg_of item desc
    then record desc {
      count_seg_cnt = u8 (desc.count_seg_cnt + 1);
      count_data_size = u32 (desc.count_data_size + item.length);
    }
      ∷ info
    else desc ∷ rest

unfoldable pub has_desc : Item → List BlobInfo → Bool
unfolding is_kept_by
has_desc item [] = false
has_desc item (desc ∷ info) = is_kept_by item desc || has_desc item info

abbrev pub is_complete : BlobInfo → Bool
is_complete desc =
    desc.count_seg_cnt == desc.seg_count && desc.count_data_size == desc.desc_data_size

abbrev descs_query : Query
descs_query = query group_id_any type_blob none seg_id_any seg_start_any

abbrev segs_query : Query
segs_query = query group_id_any type_blob_seg none seg_id_any seg_start_any

module _ ⦃d : Driver⦄ where
  -- sizeof(jekv_blob_into_t)
  abbrev info_bytes : ℕ
  info_bytes = 36

  abbrev record_desc : ℕ → Item → List BlobInfo → Exec StCtx (List BlobInfo)
  record_desc at item info = do
    require (d.can_alloc info_bytes) no_mem
    pure (info ++ (blob_info item ∷ []))

  -- storage_blob_init_info: the active sectors that are left, and the list.
  unfoldable pub blob_init_info : List ℕ → List BlobInfo → Exec StCtx (List BlobInfo)
  unfolding each_item blob_info
  blob_init_info [] info = pure info
  blob_init_info (i ∷ is) info = do
    (stop, info) ← walk descs_query i record_desc blank_item info
    blob_init_info is info

  abbrev count_one : ℕ → Item → List BlobInfo → Exec StCtx (List BlobInfo)
  count_one at item info = pure (count_seg item info)

  -- The first loop of storage_blob_check_match. `item_index` comes out as the last sector's search
  -- has left it.
  unfoldable pub count_segs : List ℕ → ℕ → List BlobInfo → Exec StCtx (ℕ × List BlobInfo)
  unfolding each_item count_seg
  count_segs [] item_index info = pure (item_index, info)
  count_segs (i ∷ is) item_index info = do
    (stop, info) ← walk segs_query i count_one blank_item info
    count_segs is stop.item_index info

  abbrev erase_found : Result Place → Exec StCtx (Unit {0})
  erase_found (err c) = pure tt
  erase_found (ok at) = do attempt (on_sec at.sector (erase_item at.index at.item true)); pure tt

  -- `item_index` behind the call of jekv_sm_find_item.
  abbrev index_behind : Result Place → ℕ → ℕ
  index_behind (ok at) item_index = at.index
  index_behind (err c) item_index = item_index

  -- The second loop of storage_blob_check_match: an incomplete blob's descriptor is looked for from
  -- the slice where the search before has left `item_index`. The complete ones stay.
  unfoldable pub drop_incomplete : List BlobInfo → ℕ → Exec StCtx (List BlobInfo)
  unfolding sm_find_item erase_item
  drop_incomplete [] item_index = pure []
  drop_incomplete (desc ∷ info) item_index = elim (is_complete desc) [
    | true ↦ (do info ← drop_incomplete info item_index; pure (desc ∷ info))
    | false ↦ (do
      (r, item) ← on_sm (
          sm_find_item (query desc.group_id type_blob (some desc.name) seg_id_any seg_start_any)
            item_index blank_item)
      erase_found r
      drop_incomplete info (index_behind r item_index))
  ]

  -- storage_blob_check_match. Without an active sector `item_index` is not set, and not read.
  unfoldable pub blob_check_match : List BlobInfo → Exec StCtx (List BlobInfo)
  unfolding count_segs drop_incomplete
  blob_check_match [] = pure []
  blob_check_match (desc ∷ info) = do
    storage ← the_storage
    (item_index, info) ← count_segs storage.sm.active 0 (desc ∷ info)
    drop_incomplete info item_index

  -- A segment that no descriptor keeps is dropped; the result is not looked at.
  abbrev drop_orphan : List BlobInfo → ℕ → ℕ → Item → Unit {0} → Exec StCtx (Unit {0})
  drop_orphan info i at item u =
      if has_desc item info
      then pure tt
      else (do attempt (on_sec i (erase_item at item true)); pure tt)

  -- storage_blob_check_drop
  unfoldable pub blob_check_drop : List ℕ → List BlobInfo → Exec StCtx (Unit {0})
  unfolding each_item has_desc erase_item
  blob_check_drop [] info = pure tt
  blob_check_drop (i ∷ is) info = do
    walk segs_query i (drop_orphan info i) blank_item tt
    blob_check_drop is info

  -- storage_blob_check
  unfoldable pub blob_check : Exec StCtx (Unit {0})
  unfolding blob_init_info blob_check_match blob_check_drop
  blob_check = do
    storage ← the_storage
    info ← blob_init_info storage.sm.active []
    info ← blob_check_match info
    blob_check_drop storage.sm.active info
