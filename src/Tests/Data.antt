-- ===== src/Tests/Data.antt =====
-- A partition of two sectors in memory, a sector that is in use and empty, and values to write.
use jekv.Config.{sector_state_using, item_state_using, sector_state_uninit, type_string, type_uint8}
use jekv.Base.{ℕ, List, [], false, none, some, true, ◌∷◌, replicate}
use jekv.Port.{Flash}
use jekv.Partition.{Partition}
use jekv.Item.{Item, item_init}
use jekv.Hash.{Hash, hash_init}
use jekv.Sector.State.{Sector, Ctx}
use jekv.Sector.Find.{Query}
use jekv.Manager.State.{Manager, SmCtx}
use jekv.Storage.State.{Group, StCtx}

abbrev pub erased_flash : Flash
erased_flash p = 255

abbrev pub two_sectors : Partition
two_sectors = record {
  name = 107 ∷ 118 ∷ [];
  offset = 8192;
  sec_num = 2;
  sec_size = 4096;
  size = 8192;
  encrypted = 0;
  readonly = false;
}

abbrev pub locked : Partition
locked = record two_sectors { readonly = true }

abbrev pub empty_sector : Sector
empty_sector = record {
  state = sector_state_using;
  version = 1;
  next_free_slice = 0;
  used_slice = 0;
  droped_slice = 0;
  address = 0;
  serial_number = 1;
  hash = hash_init;
  pt = two_sectors;
}

abbrev pub empty_ctx : Ctx
empty_ctx = record { flash = erased_flash; sec = empty_sector }

-- "key", and ten bytes.
abbrev pub key : List ℕ
key = 107 ∷ 101 ∷ 121 ∷ []

abbrev pub ten_bytes : List ℕ
ten_bytes = 1 ∷ 2 ∷ 3 ∷ 4 ∷ 5 ∷ 6 ∷ 7 ∷ 8 ∷ 9 ∷ 10 ∷ []

abbrev pub ten_item : Item
ten_item = item_init item_state_using 1 type_string key (some ten_bytes) 10 255

-- An item of one slice, whose checksum field is 0.
abbrev pub small_item : Item
small_item = record {
  state = item_state_using;
  name = 107 ∷ 0 ∷ replicate 13 255;
  group_id = 1;
  recv1 = 0;
  seg_id = 255;
  type = type_uint8;
  length = 1;
  crc_item = 0;
  payload = 7 ∷ replicate 7 255;
}

abbrev pub two_nodes : Hash
two_nodes = record {
  hash_table = some (record { id = 0; hash = 5 } ∷ record { id = 3; hash = 7 } ∷ []);
  count = 2;
  size = 10;
}

abbrev pub any_value : Query
any_value = record { group_id = 63; type = 0; key = none; seg_index = 255; seg_start = 255 }

-- One sector in use and one that is erased.
abbrev pub young_manager : Manager
young_manager = record {
  active = 0 ∷ [];
  idle = 1 ∷ [];
  pt = two_sectors;
  sec_arr = empty_sector ∷ record empty_sector { state = sector_state_uninit; address = 4096 } ∷ [];
  serial_number = 2;
}

abbrev pub three_sectors : Manager
three_sectors = record young_manager {
  idle = 1 ∷ 2 ∷ [];
  sec_arr =
      empty_sector
      ∷ record empty_sector { state = sector_state_uninit; address = 4096 }
      ∷ record empty_sector { state = sector_state_uninit; address = 8192 }
      ∷ [];
}

abbrev pub young_sm : SmCtx
young_sm = record { flash = erased_flash; sm = three_sectors }

abbrev pub two_groups : List Group
two_groups = record { name = 97 ∷ []; id = 1 } ∷ record { name = 98 ∷ []; id = 3 } ∷ []

abbrev pub young_storage : StCtx
young_storage = record {
  flash = erased_flash;
  storage = record { sm = young_manager; group_list = two_groups };
}
