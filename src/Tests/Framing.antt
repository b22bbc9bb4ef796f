-- ===== src/Tests/Framing.antt =====
-- A sector that holds a value, and a write under another key.
use jekv.Storage.Items.Others.{storage_read_item-storage_write_item_other}
use jekv.Storage.Items.Kept.{HasRoom}
use jekv.Storage.Items.{storage_read_item, storage_write_item}
use jekv.Storage.State.{StCtx}
use jekv.Base.{◌+◌, ◌≡◌, ◌≤◌, ◌%◌, refl, [], ◌∷◌, some, ok, arith, inr, List, ℕ, set}
use jekv.Config.{type_string, type_uint8, entry_count}
use jekv.Port.Laws.{ram_driver, ram_driver-IsReliable, overwrite, overwrite_outside}
use jekv.Item.{encode, decode, crc_hash, item_init, strncmp_eq}
use jekv.Hash.{hash_find}
use jekv.Sector.State.{Ctx}
use jekv.Sector.Find.{Query, verdict, probe, matches}
use jekv.Sector.Find.First.{item_at}
use jekv.Sector.Write.{entry_cnt}
use jekv.Sector.Write.RoundTrip.{IsReady}
use jekv.Sector.Write.Frame.{Stands}
use jekv.Tests.Data.{
  erased_flash, empty_sector, small_item, any_value, key, ten_bytes, young_storage, young_manager,
}
use jekv.Tests.Flashing.{key_bytes, ten_bytes_bytes}

-- The first slice holds the byte 7 under "k".
abbrev one_ctx : Ctx
one_ctx = record {
  flash = overwrite erased_flash 8224 (encode small_item);
  sec = record empty_sector {
    next_free_slice = 1;
    used_slice = 1;
    hash = record {
      hash_table = some (record { id = 0; hash = crc_hash small_item % 16777216 } ∷ []);
      count = 1;
      size = 10;
    };
  };
}

abbrev query_one : Query
query_one = record any_value { group_id = 1; type = type_uint8; key = some (107 ∷ []) }

pub one_ctx-IsReady : IsReady one_ctx
one_ctx-IsReady = record {
  using = refl;
  placed = record { inside = omega arith; addressed = omega arith };
  writable = refl;
  counted = record { room = omega arith; used = refl; droped = omega arith };
  index = record {
    counted = refl;
    fits = omega arith;
    bounded = omega arith;
    rising = (omega arith, omega arith, tt);
  };
  indexed = (omega arith, tt);
  erased = λ p lo hi.
      overwrite_outside erased_flash 8224 (encode small_item) p (inr (omega (arith, lo)));
}

one_ctx-Stands : Stands one_ctx query_one (107 ∷ []) 0 1
unfolding verdict matches strncmp_eq decode hash_find probe item_init crc_hash
one_ctx-Stands = record {
  indexed = refl;
  accepted = refl;
  before = omega arith;
  within = λ long. omega (arith, long);
}

-- The ten bytes fit behind the value.
behind_room : 1 + entry_cnt 10 ≤ entry_count
unfolding entry_cnt
behind_room = omega arith

-- A storage whose active sector is that one.
abbrev pub one_storage : StCtx
one_storage = record {
  flash = one_ctx.flash;
  storage = record young_storage.storage {
    sm = record young_manager { sec_arr = set young_manager.sec_arr 0 one_ctx.sec };
  };
}

one_storage-HasRoom : HasRoom one_storage 0 1 type_string key ten_bytes
unfolding crc_hash item_init
one_storage-HasRoom = record {
  only = refl;
  inside = omega arith;
  ready = one_ctx-IsReady;
  room = behind_room;
  fresh = (λ lo hi e. omega (arith, e), tt);
}

one_length : (item_at one_ctx.flash one_ctx.sec 0).length ≡ 1
unfolding decode
one_length = refl

storage_read_item-storage_write_item_other_example :
    (c : StCtx) × (bytes : List ℕ) × (storage_write_item 8 1 type_string key ten_bytes one_storage
      ≡ (ok tt, c))
    × (storage_read_item 1 type_uint8 (107 ∷ []) 1 one_storage ≡ (ok (ok bytes, 1), one_storage))
    × (storage_read_item 1 type_uint8 (107 ∷ []) 1 c ≡ (ok (ok bytes, 1), c))
storage_read_item-storage_write_item_other_example =
    storage_read_item-storage_write_item_other ram_driver-IsReliable 8 1 type_string key ten_bytes 0
      one_storage 1 type_uint8 (107 ∷ []) 0 1 1 one_storage-HasRoom (omega arith) (omega arith)
      key_bytes ten_bytes_bytes one_ctx-Stands one_length (omega arith) (omega arith)
