-- ===== src/Tests/Flashing.antt =====
-- Writing and reading back, by sector and by partition.
use jekv.Sector.State.{Ctx}
use jekv.Sector.Write.Lookup.{query_for, find_item-write_item}
use jekv.Sector.Find.{find_into}
use jekv.Config.{type_string, entry_count, sector_state_using, slice_size}
use jekv.Sector.Write.{write_item, read_item_data}
use jekv.Sector.Write.Program.{AllBytes, AllBytes-encode, CanProgram-erased}
use jekv.Base.{arith, ok, refl, ◌≡◌, [], inr, some, ◌*◌, ◌+◌, ◌-◌, ◌<◌, ◌∷◌, ◌≤◌, ◌⊎◌}
use jekv.Tests.Data.{empty_ctx, key, ten_bytes, ten_item, two_nodes}
use jekv.Port.Laws.{ram_driver, ram_driver-IsReliable, CanProgram, bytes_at}
use jekv.Tests.Data.{two_sectors, erased_flash, empty_sector}
use jekv.Sector.Write.Lookup.{find_item-write_item}
use jekv.Sector.Write.Ready.{write_item-IsReady}
use jekv.Sector.Write.Errors.{write_item-ok, write_item-IsCounted, IsWritable, IsCounted}
use jekv.Sector.Write.Slices.{get_span-item_init}
use jekv.Partition.Bounds.{pt_read_item-pt_write_item, pt_write_confined, pt_write_wrapped}
use jekv.Item.Layout.{IsItem}
use jekv.Item.Init.{made-IsItem}
use jekv.Sector.Write.{write_item, entry_cnt}
use jekv.Config.{item_state_using, type_string, entry_count, sector_state_using, slice_size}
use jekv.Partition.{pt_write, pt_write_item, pt_erase, pt_read_item, Partition}
use jekv.Item.{item_init, get_span, encode}
use jekv.Sector.Write.RoundTrip.{IsReady}

pub empty-IsReady : IsReady empty_ctx
empty-IsReady = record {
  using = refl;
  placed = record { inside = omega arith; addressed = omega arith };
  writable = refl;
  counted = record { room = omega arith; used = refl; droped = omega arith };
  index = record { counted = refl; fits = omega arith; bounded = omega arith; rising = tt };
  indexed = tt;
  erased = λ p lo hi. refl;
}

pub key_bytes : AllBytes key
key_bytes = omega arith

pub ten_bytes_bytes : AllBytes ten_bytes
ten_bytes_bytes = omega arith

-- The ten bytes fit behind the first slice.
pub ten_room : 0 + entry_cnt 10 ≤ entry_count
unfolding entry_cnt
ten_room = omega arith

find_item-write_item_example :
    ((write_item 1 type_string key ten_bytes 255 empty_ctx).0 ≡ ok tt)
    × (find_into
          (query_for 1 type_string key 255)
          0
          ten_item
          (write_item 1 type_string key ten_bytes 255 empty_ctx).1
        ≡ (ok (ok 0, ten_item), (write_item 1 type_string key ten_bytes 255 empty_ctx).1))
    × (read_item_data 0 ten_item 10 (write_item 1 type_string key ten_bytes 255 empty_ctx).1
        ≡ (ok ten_bytes, (write_item 1 type_string key ten_bytes 255 empty_ctx).1))
find_item-write_item_example =
    find_item-write_item ram_driver-IsReliable empty_ctx 1 type_string key ten_bytes 255
      empty-IsReady (omega arith) ten_room (omega arith) (omega arith) (omega arith) key_bytes
      ten_bytes_bytes tt ten_item

write_item-IsReady_example : IsReady (write_item 1 type_string key ten_bytes 255 empty_ctx).1
write_item-IsReady_example =
    write_item-IsReady ram_driver-IsReliable empty_ctx 1 type_string key ten_bytes 255 empty-IsReady
      (omega arith) ten_room (omega arith) key_bytes ten_bytes_bytes

empty-IsCounted : IsCounted empty_sector
empty-IsCounted = record { room = omega arith; used = refl; droped = omega arith }

empty-IsWritable : IsWritable empty_sector
empty-IsWritable = omega arith

write_item-ok_example :
    ((write_item 1 type_string key ten_bytes 255 empty_ctx).0 ≡ ok tt)
    × ((write_item 1 type_string key ten_bytes 255 empty_ctx).1.sec.next_free_slice
        ≡ 0 + entry_cnt 10)
    × ((write_item 1 type_string key ten_bytes 255 empty_ctx).1.sec.used_slice ≡ 0 + entry_cnt 10)
    × ((write_item 1 type_string key ten_bytes 255 empty_ctx).1.sec.droped_slice ≡ 0)
    × ((write_item 1 type_string key ten_bytes 255 empty_ctx).1.sec.state ≡ sector_state_using)
write_item-ok_example =
    write_item-ok empty_ctx 1 type_string key ten_bytes 255 empty-IsWritable (omega arith) ten_room
      refl

write_item-IsCounted_example :
    IsCounted (write_item 1 type_string key ten_bytes 255 empty_ctx).1.sec
write_item-IsCounted_example =
    write_item-IsCounted empty_ctx 1 type_string key ten_bytes 255 empty-IsCounted

get_span-item_init_example :
    (get_span (item_init item_state_using 1 type_string key (some ten_bytes) 10 255) ≡ entry_cnt 10)
    × (1 ≤ entry_cnt 10)
    × (entry_cnt 10 ≤ entry_count)
    × (8 < 10 → 10 ≤ (entry_cnt 10 - 1) * slice_size)
    × (8 < 10 → (entry_cnt 10 - 1) * slice_size < 10 + slice_size)
get_span-item_init_example =
    get_span-item_init item_state_using 1 type_string key ten_bytes 255 (omega arith)

ten_IsItem : IsItem ten_item
ten_IsItem = made-IsItem item_state_using 1 type_string key ten_bytes 255

ten_programmed : CanProgram erased_flash 8224 (encode ten_item)
ten_programmed =
    CanProgram-erased erased_flash 8224 (encode ten_item)
      (AllBytes-encode item_state_using 1 type_string key ten_bytes 255 (omega arith) (omega arith)
        key_bytes ten_bytes_bytes)
      (λ p lo hi. refl)

pt_read_item-pt_write_item_example :
    ((pt_write_item two_sectors 32 ten_item erased_flash).0 ≡ ok tt)
    × ((pt_read_item two_sectors 32 (pt_write_item two_sectors 32 ten_item erased_flash).1).0
        ≡ ok ten_item)
pt_read_item-pt_write_item_example =
    pt_read_item-pt_write_item ram_driver-IsReliable two_sectors 32 ten_item erased_flash ten_IsItem
      refl (omega arith) (omega arith) ten_programmed

pt_write_confined_example :
    ((pt_write two_sectors 8190 (1 ∷ 2 ∷ []) erased_flash).1 16384 ≡ 255)
    × ((pt_erase two_sectors 8190 erased_flash).1 16384 ≡ 255)
pt_write_confined_example =
    pt_write_confined ram_driver-IsReliable two_sectors 8190 (1 ∷ 2 ∷ []) erased_flash 16384
      (omega arith) (inr (omega arith)) (omega arith) (omega arith) (refl, (refl, tt))

-- A partition with a sector in front of it, to which a write close to 2^32 gets.
abbrev second : Partition
second = record two_sectors { offset = 4096 }

pt_write_wrapped_example :
    ((pt_write second 4294967294 (1 ∷ 2 ∷ 3 ∷ 4 ∷ []) erased_flash).0 ≡ ok tt)
    × (bytes_at (pt_write second 4294967294 (1 ∷ 2 ∷ 3 ∷ 4 ∷ []) erased_flash).1 4094 4
        ≡ 1 ∷ 2 ∷ 3 ∷ 4 ∷ [])
    × ((4094 < 4096) ⊎ (12288 ≤ 4094))
pt_write_wrapped_example =
    pt_write_wrapped ram_driver-IsReliable second 4294967294 (1 ∷ 2 ∷ 3 ∷ 4 ∷ []) erased_flash
      (omega arith) refl (omega arith) (omega arith) (omega arith) (omega arith)
      (refl, (refl, (refl, (refl, tt))))

-- A sector whose first two slices hold an item.
abbrev used_ctx : Ctx
used_ctx = record empty_ctx {
  sec = record empty_sector { next_free_slice = 2; used_slice = 2; hash = two_nodes };
}
