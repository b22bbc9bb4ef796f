-- ===== src/Tests/Storing.antt =====
-- What is stored is read back, through the storage and through the public interface.
use jekv.Easy.RoundTrip.{easy_read_int-easy_write_int}
use jekv.Easy.{Easy, easy_write_int, easy_read_int, decimal, digits}
use jekv.Api.Deletion.{get_item-del_key}
use jekv.Base.{
  ℕ, ◌≡◌, refl, List, some, true, ok, arith, [], ◌∷◌, err, not_found, negsuc, pos, ◌++◌,
}
use jekv.Config.{type_string, op_read_write}
use jekv.Port.Laws.{ram_driver, ram_driver-IsReliable}
use jekv.Sector.Write.{entry_cnt}
use jekv.Sector.Write.RoundTrip.{IsReady}
use jekv.Ptm.{Handle, System, handle_at, storage_at}
use jekv.Storage.State.{StCtx}
use jekv.Storage.Items.{storage_write_item, storage_read_item}
use jekv.Storage.Items.RoundTrip.{at_sector}
use jekv.Storage.Items.Kept.{HasRoom, storage_read_item-storage_write_item}
use jekv.Api.Values.{set_item, get_item, le_bytes, is_value_type, del_key}
use jekv.Api.RoundTrip.{Writes, get_item-set_item}
use jekv.Api.Numbers.{
  Number, set_number, get_number, le_value, width, type_of, limit, get_number-set_number,
}
use jekv.Tests.Data.{young_storage, key, ten_bytes}
use jekv.Tests.Flashing.{empty-IsReady, key_bytes, ten_bytes_bytes, ten_room}
use jekv.Tests.Sessions.{busy}

young_storage-HasRoom : HasRoom young_storage 0 1 type_string key ten_bytes
young_storage-HasRoom = record {
  only = refl;
  inside = omega arith;
  ready = empty-IsReady;
  room = ten_room;
  fresh = tt;
}

storage_read_item-storage_write_item_example :
    (c : StCtx) × (storage_write_item 8 1 type_string key ten_bytes young_storage ≡ (ok tt, c))
    × (storage_read_item 1 type_string key 16 c ≡ (ok (ok ten_bytes, 10), c))
    × IsReady (at_sector c 0)
    × (c.storage.sm.active ≡ 0 ∷ [])
storage_read_item-storage_write_item_example =
    storage_read_item-storage_write_item ram_driver-IsReliable 8 1 type_string key ten_bytes 16 0
      young_storage young_storage-HasRoom (omega arith) (omega arith) (omega arith) (omega arith)
      (omega arith) key_bytes ten_bytes_bytes

-- The handle that `busy` has for writing.
abbrev writer : Handle
writer = record { at = 2; storage = 1; group_id = 1; valid = true; mode = op_read_write }

busy-Writes : Writes busy 2 writer young_storage.storage
unfolding handle_at storage_at
busy-Writes = record { listed = refl; valid = refl; mode = omega arith; linked = refl }

get_item-set_item_example :
    (s : System) × (set_item 8 (some 2) type_string (some key) (some ten_bytes) busy ≡ (ok tt, s))
    × (get_item (some 2) type_string (some key) true (some 16) s ≡ (ok (ok ten_bytes, 10), s))
unfolding is_value_type
get_item-set_item_example =
    get_item-set_item ram_driver-IsReliable 8 2 type_string key ten_bytes 16 0 busy writer
      young_storage.storage busy-Writes young_storage-HasRoom (omega arith) refl (omega arith)
      (omega arith) (omega arith) (omega arith) (omega arith) (omega arith) key_bytes
      ten_bytes_bytes

number-HasRoom :
    HasRoom young_storage 0 1
      (type_of Number.uint32)
      key
      (le_bytes (width Number.uint32) 4000000000)
unfolding type_of width le_bytes entry_cnt
number-HasRoom = record {
  only = refl;
  inside = omega arith;
  ready = empty-IsReady;
  room = omega arith;
  fresh = tt;
}

get_number-set_number_example :
    (s : System) × (bytes : List ℕ) × (set_number Number.uint32 8 2 key 4000000000 busy
      ≡ (ok tt, s))
    × (get_number Number.uint32 2 key s ≡ (ok (ok bytes, width Number.uint32), s))
    × (le_value bytes ≡ 4000000000)
unfolding limit width
get_number-set_number_example =
    get_number-set_number ram_driver-IsReliable Number.uint32 8 2 4000000000 key 0 busy writer
      young_storage.storage busy-Writes number-HasRoom (omega arith) (omega arith) (omega arith)
      (omega arith) key_bytes

get_item-del_key_example :
    (s : System) × (t : System) × (set_item 8 (some 2) type_string (some key) (some ten_bytes) busy
      ≡ (ok tt, s))
    × (del_key (some 2) (some key) s ≡ (ok tt, t))
    × (get_item (some 2) type_string (some key) true (some 16) t ≡ (ok (err not_found, 16), t))
unfolding is_value_type
get_item-del_key_example =
    get_item-del_key ram_driver-IsReliable 8 2 type_string key ten_bytes 0 busy writer
      young_storage.storage type_string 16 busy-Writes young_storage-HasRoom (omega arith) refl
      (omega arith) (omega arith) (omega arith) (omega arith) key_bytes ten_bytes_bytes refl
      (omega arith)

-- The text of -40, with its terminator, in the storage of `busy`.
int-HasRoom : HasRoom young_storage 0 1 type_string key (decimal (negsuc 39) ++ (0 ∷ []))
unfolding decimal digits entry_cnt
int-HasRoom = record {
  only = refl;
  inside = omega arith;
  ready = empty-IsReady;
  room = omega arith;
  fresh = tt;
}

easy_read_int-easy_write_int_example :
    (e : Easy) × (easy_write_int 8
        (some key)
        (negsuc 39)
        (record { system = busy; handle = some 2 })
      ≡ (ok tt, e))
    × (easy_read_int (some key) (pos 5) e ≡ (ok (negsuc 39), e))
easy_read_int-easy_write_int_example =
    easy_read_int-easy_write_int ram_driver-IsReliable 8 2 (negsuc 39) (pos 5) key 0 busy writer
      young_storage.storage busy-Writes int-HasRoom (omega arith) (omega arith) (omega arith)
      (omega arith) key_bytes
