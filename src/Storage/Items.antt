-- ===== src/Storage/Items.antt =====
-- jekv_storage_write_item, jekv_storage_read_item, jekv_storage_del_item, jekv_storage_del_group,
-- jekv_storage_find_key, and the operations on groups that stand on them.
use jekv.Storage.WriteBlob.{write_blob}
use jekv.Item
use jekv.Sector.Write.{is_sector_full, read_item_data}
pub mod Reads
pub mod RoundTrip
pub mod Kept
pub mod Deleted
pub mod Others
pub mod Same
use jekv.Base.{
  is_ok, not_found, raise, Code, value_too_long, invalid_length, ℕ, ◌>>=◌, ◌>>◌, Exec, List, Result,
  attempt, err, give, if◌then◌else◌, leb, length, none, pos, pure, some, true, ◌+◌, ◌==◌, ◌||◌,
  Bool, Option, [], false, ltb, ok, ◌&&◌, ◌∷◌,
}
use jekv.Config.{
  slice_size, type_string, type_binary, type_blob, seg_id_any, seg_start_any, seg_start_ver_0,
  seg_start_ver_1, type_any_without_seg,
}
use jekv.Port.{Driver}
use jekv.Item.{Item, all_size}
use jekv.Item
use jekv.Sector.Write.{erase_item, write_item, read_item_data}
use jekv.Manager.State.{get_current_sector}
use jekv.Manager.Recover.{blank_item}
use jekv.Manager.Request.{request_sector}
use jekv.Manager.Query.{Place, sm_find_item, check_write_blob_size}
use jekv.Storage.State.{StCtx, the_storage, on_sm, on_sec, query, each_item, walk}
use jekv.Storage.Blob.{erase_blob, cmp_blob, cmp_find_item, read_blob}

-- storage_get_non_blob_write_req_size
unfoldable pub write_req_size : ℕ → ℕ → ℕ
write_req_size type size =
    if type == type_string || type == type_binary
    then (if leb size 8 then slice_size else slice_size + size)
    else slice_size

module _ ⦃d : Driver⦄ where
  -- The write to the next sector where the current one is full.
  abbrev pub write_next : ℕ → ℕ → List ℕ → List ℕ → Exec StCtx Bool
  write_next gid type key buf = do
    on_sm (request_sector (pos (write_req_size type (length buf))))
    storage ← the_storage
    elim (get_current_sector storage.sm) [
      | none ↦ pure false
      | some cur ↦ (do on_sec cur (write_item gid type key buf seg_id_any); pure true)
    ]

  -- jekv_sm_find_item from the first slice on, for any segment.
  abbrev pub find_value : ℕ → ℕ → List ℕ → Exec StCtx (Result Place)
  find_value gid type key = do
    (r, item) ←
        on_sm (sm_find_item (query gid type (some key) seg_id_any seg_start_any) 0 blank_item)
    pure r

  -- The erasure of the item at `place`, with the segments of a blob.
  unfoldable pub erase_value : Place → Exec StCtx (Unit {0})
  unfolding erase_blob erase_item
  erase_value place =
      if place.item.type == type_blob
      then erase_blob place
      else on_sec place.sector (erase_item place.index place.item true)

  -- The branch of jekv_storage_write_item for values that are no blobs, behind the comparison:
  -- the current sector, and where it is full the next one. `false` is the early return of OK where
  -- there is no current sector.
  unfoldable pub write_value : ℕ → ℕ → List ℕ → List ℕ → Exec StCtx Bool
  unfolding write_item request_sector write_req_size
  write_value gid type key buf = do
    storage ← the_storage
    elim (get_current_sector storage.sm) [
      | none ↦ pure false
      | some cur ↦ (do
        written ← attempt (on_sec cur (write_item gid type key buf seg_id_any))
        elim (is_sector_full written) [
          | true ↦ write_next gid type key buf
          | false ↦ (do give written; pure true)
        ])
    ]

  -- The comparison with the value that is there; any failure of it counts as a difference.
  unfoldable pub is_same : Option Place → ℕ → List ℕ → Exec StCtx Bool
  unfolding cmp_blob cmp_find_item
  is_same none type buf = pure false
  is_same (some place) type buf =
      if type == place.item.type
      then (do
        r ← attempt (if type == type_blob then cmp_blob place.item buf else cmp_find_item place buf)
        pure (is_ok r))
      else pure false

  -- The version of the new blob's segments: the one that the old blob does not use.
  unfoldable pub new_seg_start : Option Place → ℕ
  new_seg_start none = seg_start_ver_0
  new_seg_start (some place) =
      if place.item.type == type_blob && Item.seg_start place.item == seg_start_ver_0
      then seg_start_ver_1
      else seg_start_ver_0

  abbrev pub write_new : ℕ → Option Place → ℕ → ℕ → List ℕ → List ℕ → Exec StCtx Bool
  write_new turns old gid type key buf =
      if type == type_blob
      then (do
        storage ← the_storage
        give (check_write_blob_size storage.sm (length buf))
        write_blob turns gid key buf (new_seg_start old)
        pure true)
      else write_value gid type key buf

  abbrev pub erase_old : Option Place → Exec StCtx (Unit {0})
  erase_old none = pure tt
  erase_old (some place) = erase_value place

  -- if (!(err == JEKV_ERR_OK || err == JEKV_ERR_NOT_FOUND)) return err;
  abbrev pub or_missing : Result Place → Result (Option Place)
  or_missing (ok place) = ok (some place)
  or_missing (err not_found) = ok none
  or_missing (err c) = err c

  -- jekv_storage_write_item; `turns` bounds the loop of storage_write_blob.
  unfoldable pub storage_write_item : ℕ → ℕ → ℕ → List ℕ → List ℕ → Exec StCtx (Unit {0})
  unfolding sm_find_item is_same write_value write_blob check_write_blob_size new_seg_start
      erase_value
  storage_write_item turns gid type key buf = do
    found ← find_value gid type_any_without_seg key
    old ← give (or_missing found)
    same ← is_same old type buf
    elim same [
      | true ↦ pure tt
      | false ↦ (do
        written ← write_new turns old gid type key buf
        elim written [ true ↦ erase_old old | false ↦ pure tt ])
    ]

  -- A descriptor whose segments cannot be read is dropped.
  abbrev pub drop_unreadable : Place → Result (List ℕ) → Exec StCtx (Unit {0})
  drop_unreadable place (err not_found) =
      on_sec place.sector (erase_item place.index place.item true)
  drop_unreadable place (err invalid_length) =
      on_sec place.sector (erase_item place.index place.item true)
  drop_unreadable place _ = pure tt

  abbrev pub data_size : ℕ → Item → ℕ
  data_size type item = if type == type_blob then all_size item else item.length

  -- jekv_storage_read_item with a buffer of `size` bytes: the code or the bytes, and `*size`.
  unfoldable pub storage_read_item : ℕ → ℕ → List ℕ → ℕ → Exec StCtx (Result (List ℕ) × ℕ)
  unfolding sm_find_item read_blob read_item_data erase_item
  storage_read_item gid type key size = do
    found ← find_value gid type key
    elim found [
      | err c ↦ pure (err c, size)
      | ok place ↦
          if ltb size (data_size type place.item)
          then pure (err value_too_long, data_size type place.item)
          else (do
            bytes ← attempt (
                if type == type_blob
                then read_blob place.item (all_size place.item)
                else on_sec place.sector (read_item_data place.index place.item place.item.length))
            attempt (if type == type_blob then drop_unreadable place bytes else pure tt)
            pure (bytes, data_size type place.item))
    ]

  -- jekv_storage_del_item
  unfoldable pub storage_del_item : ℕ → ℕ → List ℕ → Exec StCtx (Unit {0})
  unfolding sm_find_item erase_value
  storage_del_item gid type key = do
    found ← find_value gid type key
    place ← give found
    erase_value place

  -- jekv_storage_find_key
  unfoldable pub storage_find_key : ℕ → List ℕ → Exec StCtx Item
  unfolding sm_find_item
  storage_find_key gid key = do
    found ← find_value gid type_any_without_seg key
    place ← give found
    pure place.item

  -- The result of the erasure is not looked at.
  abbrev del_one : ℕ → ℕ → Item → Unit {0} → Exec StCtx (Unit {0})
  del_one i at item u = do
    attempt (erase_value (record { sector = i; index = at; item = item }))
    pure tt

  abbrev or_end : Code → Exec StCtx (Unit {0})
  or_end not_found = pure tt
  or_end c = raise c

  unfoldable pub del_group_from : ℕ → List ℕ → Exec StCtx (Unit {0})
  unfolding each_item erase_value
  del_group_from gid [] = pure tt
  del_group_from gid (i ∷ is) = do
    (stop, u) ←
        walk (query gid type_any_without_seg none seg_id_any seg_start_any) i (del_one i) blank_item
          tt
    or_end stop.code
    del_group_from gid is

  -- jekv_storage_del_group
  unfoldable pub storage_del_group : ℕ → Exec StCtx (Unit {0})
  unfolding del_group_from
  storage_del_group gid = do storage ← the_storage; del_group_from gid storage.sm.active
