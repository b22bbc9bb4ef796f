-- ===== src/Sector/Find.antt =====
-- jekv_sector_find_item of src/jekv_sector.c.
pub mod Search
pub mod Sound
pub mod First
pub mod Gone
use jekv.Base.{
  ℕ, zero, suc, ◌+◌, ◌-◌, ℤ, pos, negsuc, Bool, true, false, not, ◌&&◌, ◌||◌, Option, none, some,
  List, ltb, leb, ◌==◌, min, if◌then◌else◌, Exec, Result, ok, err, not_found, ◌>>=◌, ◌>>◌, raise,
  pure, require, gets, modify,
}
use jekv.Config.{
  entry_count, max_key_len, group_id_any, type_any, type_any_without_seg, type_blob_seg, seg_id_any,
  seg_start_any, item_state_using, item_state_droped, sector_state_crash, sector_state_invalid,
  sector_state_uninit,
}
use jekv.Port.{Flash, Driver}
use jekv.Item.{Item, get_span, item_init, strnlen, strncmp_eq}
use jekv.Hash.{hash_find}
use jekv.Partition.{pt_read_item}
use jekv.Sector.State.{Sector, Ctx, slice_offset}

-- What a caller looks for; `key` is `none` for NULL.
pub record Query : Type 0 where
  pub group_id : ℕ
  pub type : ℕ
  pub key : Option (List ℕ)
  pub seg_index : ℕ
  pub seg_start : ℕ

abbrev key_matches : Option (List ℕ) → Item → Bool
key_matches none item = true
key_matches (some key) item = strncmp_eq item.name key (strnlen key max_key_len)

-- The test that accepts an item in use.
unfoldable pub matches : Query → Item → Bool
matches q item =
    (q.group_id == group_id_any || q.group_id == item.group_id)
    && ((q.type == type_any || q.type == item.type)
        || (q.type == type_any_without_seg && not (item.type == type_blob_seg)))
    && (q.seg_index == seg_id_any || q.seg_index == item.seg_id)
    && (q.seg_start == seg_start_any
        || (leb q.seg_start item.seg_id && ltb (item.seg_id - q.seg_start) 0x80))
    && key_matches q.key item

-- What the loop does with the item that it has read.
pub data Verdict : Type 0 where
  hit skip stop : Verdict

unfoldable pub verdict : Query → Item → Verdict
unfolding matches
verdict q item =
    if item.state == item_state_droped
    then skip
    else if item.state == item_state_using
    then (if matches q item then hit else skip)
    else stop

-- The item whose hash a keyed search compares.
unfoldable pub probe : Query → List ℕ → Item
probe q key = item_init item_state_using q.group_id q.type key none 0 q.seg_index

-- What the function works on: the device, the sector, and the caller's `item` buffer, which keeps
-- the last item read, or the probe, also where nothing is found.
pub record FindCtx : Type 0 where
  pub flash : Flash
  pub sec : Sector
  pub item : Item

-- `slice_index < 0` ends the search.
abbrev pub slice_of : ℤ → Exec FindCtx ℕ
slice_of (pos n) = pure n
slice_of (negsuc n) = raise not_found

-- Where the loop reads next: the slice that the index names, or `start` itself without a key.
abbrev pub locate : Query → Option (List ℕ) → ℕ → Exec FindCtx ℕ
locate q none start = pure start
locate q (some key) start = do
  modify (λ c. record c { item = probe q key })
  c ← gets (λ c. c)
  slice_of (hash_find c.sec.hash start c.item)

module _ ⦃d : Driver⦄ where
  -- A failed read leaves the buffer as it was, and marks the sector invalid.
  abbrev buffer_item : Result Item → Exec FindCtx (Unit {0})
  buffer_item (ok item) = modify (λ c. record c { item = item })
  buffer_item (err code) = do
    modify (λ c. record c { sec = record c.sec { state = sector_state_invalid } })
    raise code

  unfoldable pub read_slice : ℕ → Exec FindCtx (Unit {0})
  unfolding pt_read_item
  read_slice index c =
      let (item, f) = pt_read_item c.sec.pt (slice_offset c.sec index) c.flash in
      buffer_item item (record c { flash = f })

  -- What follows from the verdict on the item at slice `at`; `continue` is the rest of the loop,
  -- from another `start`.
  abbrev pub act_on : (ℕ → Exec FindCtx ℕ) → ℕ → Item → Verdict → Exec FindCtx ℕ
  act_on continue at item hit = pure at
  act_on continue at item skip = continue (at + get_span item)
  act_on continue at item stop = raise not_found

  -- The second half of a turn, at slice `at`.
  unfoldable pub look : (ℕ → Exec FindCtx ℕ) → Query → ℕ → Exec FindCtx ℕ
  look continue q at = do
    read_slice at
    item ← gets (λ c. c.item)
    act_on continue at item (verdict q item)

  -- One turn.
  unfoldable pub find_step : (ℕ → Exec FindCtx ℕ) → Query → ℕ → ℕ → Exec FindCtx ℕ
  find_step continue q start end = elim (ltb start end) [
    | false ↦ raise not_found
    | true ↦ (do at ← locate q q.key start; look continue q at)
  ]

  -- The loop. A turn moves `start` on by one slice at least, so that `end - start` turns are enough.
  unfoldable pub find_loop : ℕ → Query → ℕ → ℕ → Exec FindCtx ℕ
  find_loop zero q start end = raise not_found
  find_loop (suc fuel) q start end = find_step (λ next. find_loop fuel q next end) q start end

  abbrev pub searchable : Sector → Bool
  searchable sec = not (
      sec.state == sector_state_crash
      || sec.state == sector_state_invalid
      || sec.state == sector_state_uninit)

  -- jekv_sector_find_item: the index, and the item in the buffer.
  unfoldable pub find_item : Query → ℕ → Exec FindCtx ℕ
  unfolding find_loop find_step look read_slice verdict probe
  find_item q start = do
    c ← gets (λ c. c)
    require (searchable c.sec) not_found
    require (ltb start entry_count) not_found
    find_loop (min c.sec.next_free_slice entry_count - start) q start
        (min c.sec.next_free_slice entry_count)

  -- The call of it with a buffer of the caller's: the result, and the buffer after it.
  abbrev pub find_into : Query → ℕ → Item → Exec Ctx (Result ℕ × Item)
  find_into q start item c =
      let (r, c') = find_item q start (record { flash = c.flash; sec = c.sec; item = item }) in
      (ok (r, c'.item), record { flash = c'.flash; sec = c'.sec })
