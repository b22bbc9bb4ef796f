-- ===== src/Tests/Searching.antt =====
-- Searches, in a sector, in its index and among groups.
use jekv.Hash.Append.{hash_find-hash_append}
use jekv.Config.{item_state_droped}
use jekv.Port.{Flash}
use jekv.Sector.State.{Sector}
use jekv.Base.{[], arith, get_or, ok, refl, true, u8, ◌%◌, ◌*◌, ◌+◌, ◌∷◌, ◌≡◌, some, ◌≢◌, inr, pos}
use jekv.Tests.Data.{
  empty_ctx, empty_sector, key, ten_item, small_item, two_nodes, any_value, erased_flash,
  two_groups,
}
use jekv.Port.Laws.{overwrite, ram_driver, ram_driver-IsReliable}
use jekv.Port.Crc32.{crc32_table}
use jekv.Port.Crc32.Table.{crc32_table-eq-shift_rounds, shift_rounds}
use jekv.Item.{Item, encode, decode, get_span, crc_hash, Item, crc_head}
use jekv.Hash.{hash_find, hash_erase, hash_append, hash_init, nodes}
use jekv.Hash.Index.{hash_find-Found, hash_append-IsIndex, IsIndex, Found}
use jekv.Hash.Erase.{hash_erase-Erased, Erased}
use jekv.Sector.Find.{matches, verdict, Verdict, find_item, find_loop, FindCtx}
use jekv.Sector.Find.First.{item_at, find_item-Walk, IsPlaced, Walk, unkeyed}
use jekv.Sector.Find.Sound.{find_item-Hits, Hits}
use jekv.Sector.Find.Search.{find_loop_fuel}
use jekv.Sector.Find.Gone.{find_item-erase_item}
use jekv.Sector.Copy.{CopyCtx}
use jekv.Sector.State.{Ctx}
use jekv.Sector.Write.{erase_item}
use jekv.Sector.Load.Chain.{Chain, update_slice_and_hash-Chain}
use jekv.Sector.Write.Errors.{IsCounted}
use jekv.Sector.Load.{update_slice_and_hash, count_item, scan_loop}
use jekv.Sector.Load.Scan.{count_item_twice, scan_loop_fuel}
use jekv.Storage.Groups.{find_group}
use jekv.Storage.Groups.Free.{find_group-GroupFound, GroupFound}

-- An index of two slices.
two_IsIndex : IsIndex two_nodes
two_IsIndex = record {
  counted = refl;
  fits = omega arith;
  bounded = omega arith;
  rising = omega arith;
}

hash_find-Found_example :
    Found
      (nodes two_nodes.hash_table)
      0
      (crc_hash ten_item % 16777216)
      (hash_find two_nodes 0 ten_item)
hash_find-Found_example = hash_find-Found two_nodes 0 ten_item two_IsIndex

hash_erase-Erased_example : Erased two_nodes 3 (hash_erase two_nodes 3)
hash_erase-Erased_example = hash_erase-Erased two_nodes 3 two_IsIndex

hash_append-IsIndex_example :
    IsIndex (hash_append two_nodes ten_item 5).1 × ((hash_append two_nodes ten_item 5).0 ≡ ok tt)
hash_append-IsIndex_example =
    hash_append-IsIndex two_nodes ten_item 5 (λ n. refl) (omega arith) (omega arith) two_IsIndex

empty_IsIndex : IsIndex hash_init
empty_IsIndex = record { counted = refl; fits = omega arith; bounded = omega arith; rising = tt }

crc32_table-eq-shift_rounds_example : get_or crc32_table 77 0 ≡ shift_rounds 8 77
crc32_table-eq-shift_rounds_example = crc32_table-eq-shift_rounds 77 (omega arith)

-- A sector whose first slice holds an item.
abbrev one_slice : Sector
one_slice = record empty_sector { next_free_slice = 1; used_slice = 1 }

abbrev item_flash : Flash
item_flash = overwrite erased_flash 8224 (encode small_item)

abbrev search_ctx : FindCtx
search_ctx = record { flash = item_flash; sec = one_slice; item = small_item }

one_IsPlaced : IsPlaced one_slice
one_IsPlaced = record { inside = omega arith; addressed = omega arith }

first_is_hit : verdict (unkeyed any_value) (item_at item_flash one_slice 0) ≡ Verdict.hit
unfolding verdict matches decode
first_is_hit = refl

find_item-Walk_example :
    (item' : Item) × (find_item any_value 0 search_ctx ≡ (ok 0, record search_ctx { item = item' }))
find_item-Walk_example =
    find_item-Walk ram_driver-IsReliable item_flash one_slice any_value 0 (some 0) small_item
      one_IsPlaced refl (omega arith) (Walk.first (omega arith) first_is_hit)

find_item-Hits_example : Hits item_flash one_slice any_value 0 (find_item any_value 0 search_ctx)
find_item-Hits_example = find_item-Hits any_value 0 search_ctx

find_loop_fuel_example : find_loop 1 any_value 0 1 search_ctx ≡ find_loop 5 any_value 0 1 search_ctx
find_loop_fuel_example = find_loop_fuel 1 5 any_value 0 1 search_ctx (omega arith) (omega arith)

wrong_crc : small_item.crc_item ≢ crc_head small_item
unfolding crc_head
wrong_crc e = omega (arith, e)

count_item_twice_example :
    ((count_item 0 small_item empty_ctx).1.sec.used_slice ≡ u8 (0 + get_span small_item))
    × ((count_item 0 small_item empty_ctx).1.sec.droped_slice ≡ u8 (0 + 2 * get_span small_item))
count_item_twice_example = count_item_twice 0 small_item empty_ctx refl wrong_crc

find_group-GroupFound_example : GroupFound two_groups (99 ∷ []) (find_group two_groups (99 ∷ []))
find_group-GroupFound_example = find_group-GroupFound two_groups (99 ∷ [])

abbrev copy_ctx : CopyCtx
copy_ctx = record { flash = item_flash; dst = record one_slice { address = 4096 }; src = one_slice }

-- The context of a sector whose index has two nodes.
abbrev indexed_ctx : Ctx
indexed_ctx = record {
  flash = item_flash;
  sec = record one_slice { next_free_slice = 4; used_slice = 4; hash = two_nodes };
}

find_item-erase_item_example :
    (find_item
      (record any_value { key = some key })
      0
      (record {
        flash = (erase_item 3 small_item true indexed_ctx).1.flash;
        sec = (erase_item 3 small_item true indexed_ctx).1.sec;
        item = small_item;
      })).0
    ≢ ok 3
find_item-erase_item_example =
    find_item-erase_item indexed_ctx 3 small_item any_value key 0 small_item two_IsIndex

-- A sector whose first slice holds an item that is dropped.
abbrev dropped_flash : Flash
dropped_flash =
    overwrite erased_flash 8224 (encode (record small_item { state = item_state_droped }))

dropped-Chain : Chain dropped_flash 8192 1 0
unfolding decode get_span
dropped-Chain = Chain.entry (omega arith) (inr refl) (Chain.unused (omega arith) refl)

update_slice_and_hash-Chain_example :
    ((update_slice_and_hash (record { flash = dropped_flash; sec = empty_sector })).0 ≡ ok tt)
    × ((update_slice_and_hash
          (record { flash = dropped_flash; sec = empty_sector })).1.sec.next_free_slice
        ≡ 1)
    × IsCounted (update_slice_and_hash (record { flash = dropped_flash; sec = empty_sector })).1.sec
    × ((update_slice_and_hash (record { flash = dropped_flash; sec = empty_sector })).1.flash
        ≡ dropped_flash)
update_slice_and_hash-Chain_example =
    update_slice_and_hash-Chain ram_driver-IsReliable 1
      (record { flash = dropped_flash; sec = empty_sector })
      (record { inside = omega arith; addressed = omega arith }) refl refl dropped-Chain

hash_find-hash_append_example : hash_find (hash_append hash_init ten_item 5).1 0 ten_item ≡ pos 5
hash_find-hash_append_example =
    hash_find-hash_append hash_init ten_item ten_item 5 (λ n. refl) empty_IsIndex (omega arith) tt
      refl tt

scan_loop_fuel_example : scan_loop 127 0 empty_ctx ≡ scan_loop 200 0 empty_ctx
scan_loop_fuel_example = scan_loop_fuel 127 200 0 empty_ctx (omega arith) (omega arith)
