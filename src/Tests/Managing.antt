-- ===== src/Tests/Managing.antt =====
-- The sector manager and the storage.
use jekv.Storage.Items.Same.{Holds, storage_write_item-same}
use jekv.Sector.Write.{read_item_data}
use jekv.Config.{type_uint8, type_any_without_seg}
use mathlib.Core.List.{Perm}
use jekv.Base.{
  [], arith, length, none, ok, pos, refl, some, true, ◌%◌, ◌++◌, ◌∷◌, ◌≡◌, ◌≤◌, ◌↔◌, List, ℕ,
}
use jekv.Tests.Data.{empty_sector, small_item, young_manager, young_sm, erased_flash, three_sectors}
use jekv.Port.Laws.{ram_driver, overwrite}
use jekv.Item.{encode, decode, crc_hash, item_init, strncmp_eq}
use jekv.Hash.{hash_find}
use jekv.Partition.{pt_read_item}
use jekv.Sector.Find.{find_item, probe, read_slice, verdict, matches, find_loop, find_step, look}
use jekv.Manager.Query.{Place, sm_find_item, find_in}
use jekv.Manager.Request.{request_sector, find_dirtiest, active_sector}
use jekv.Manager.Request.Idle.{request_sector-idle}
use jekv.Manager.Request.Dirtiest.{find_dirtiest-Chosen, Chosen}
use jekv.Manager.Load.{place_sector}
use jekv.Manager.Load.Order.{place_sector-Sorted, Sorted}
use jekv.Storage.State.{StCtx}
use jekv.Storage.Items.{storage_write_item, is_same, find_value}

request_done : (request_sector (pos 32) young_sm).0 ≡ ok tt
unfolding request_sector active_sector
request_done = refl

request_sector-idle_example : 1 ≤ length (request_sector (pos 32) young_sm).1.sm.idle
request_sector-idle_example = request_sector-idle (pos 32) young_sm request_done

find_dirtiest-Chosen_example :
    Chosen three_sectors
      (0 ∷ 1 ∷ [])
      (pos 0)
      none
      (find_dirtiest three_sectors (0 ∷ 1 ∷ []) (pos 0) none)
find_dirtiest-Chosen_example = find_dirtiest-Chosen three_sectors (0 ∷ 1 ∷ []) (pos 0) none

place_sector-Sorted_example :
    Sorted (place_sector 1 young_manager) 0 (place_sector 1 young_manager).active
    × Perm
        (1 ∷ 0 ∷ 1 ∷ [])
        ((place_sector 1 young_manager).active ++ (place_sector 1 young_manager).idle)
place_sector-Sorted_example = place_sector-Sorted 1 young_manager (omega arith)

-- A storage whose first slice holds the byte 7 under "k".
abbrev one_value : StCtx
one_value = record {
  flash = overwrite erased_flash 8224 (encode small_item);
  storage = record {
    sm = record young_manager {
      sec_arr =
          record empty_sector {
            next_free_slice = 1;
            used_slice = 1;
            hash = record {
              hash_table = some (record { id = 0; hash = crc_hash small_item % 16777216 } ∷ []);
              count = 1;
              size = 10;
            };
          }
          ∷ [];
    };
    group_list = [];
  };
}

abbrev the_place : Place
the_place = record { sector = 0; index = 0; item = small_item }

value_found : (find_value 1 type_any_without_seg (107 ∷ []) one_value).0 ≡ ok (ok the_place)
unfolding sm_find_item find_in find_item find_loop find_step look read_slice verdict matches probe
    item_init hash_find pt_read_item decode crc_hash strncmp_eq
value_found = refl

value-Holds :
    Holds the_place (find_value 1 type_any_without_seg (107 ∷ []) one_value).1 type_uint8 (7 ∷ [])
unfolding read_item_data
value-Holds = record { typed = refl; long = refl; bytes = refl }

abbrev eight : List ℕ
eight = 8 ∷ []

storage_write_item-same_example :
    ((storage_write_item 9 1 type_uint8 (107 ∷ []) (7 ∷ []) one_value).0 ≡ ok tt)
    × ((storage_write_item 9 1 type_uint8 (107 ∷ []) (7 ∷ []) one_value).1.flash
        ≡ overwrite erased_flash 8224 (encode small_item))
    × ((is_same
            (some the_place)
            type_uint8
            eight
            (find_value 1 type_any_without_seg (107 ∷ []) one_value).1).0
          ≡ ok true
        ↔ eight ≡ 7 ∷ [])
storage_write_item-same_example =
    storage_write_item-same 9 1 type_uint8 (107 ∷ []) (7 ∷ []) eight one_value the_place (λ n. refl)
      (omega arith) value_found value-Holds
