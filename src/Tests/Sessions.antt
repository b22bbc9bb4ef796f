-- ===== src/Tests/Sessions.antt =====
-- The partition manager, the public interface and the iterator.
use jekv.Api.Entries.{entry_find_by_handle}
use jekv.Base.{ℕ, suc, ◌+◌, ◌≡◌, ◌<◌, refl, true, false, List, [], ◌∷◌, some, arith, ok, Code}
use jekv.Config.{op_read_only, op_read_write, type_uint8}
use jekv.Port.Laws.{ram_driver}
use jekv.Ptm.{
  storage_at, System, Platform, ptm_open_handle, ptm_close_handle, ptm_deinit, find_storage,
  handle_at,
}
use jekv.Ptm.Linked.{IsLinked, IsFresh, is_in}
use jekv.Ptm.Grants.{Opens, Closes, Shuts, ptm_refines-Grants}
use jekv.Api.Sessions.{close}
use jekv.Api.Values.{set_item, get_item, del_key, del_group, get_info}
use jekv.Api.Refusals.{Refused, closed_handle-Refused, read_only_handle-Refused}
use jekv.Api.Calls.{Call, perform, at_start, start, next}
use jekv.Api.Calls.Linked.{Reach-IsLinked}
use jekv.Tests.Data.{young_storage, erased_flash}

abbrev total : List ℕ → ℕ
total [] = 0
total (a ∷ used) = a + total used

-- An allocator that grants an address above all others, on a device with one partition.
instance abbrev pub simple_platform : Platform
simple_platform = record {
  fresh = λ used. suc (total used);
  partition_info = λ name. ok (record { offset = 0; size = 8192 });
  port_start = ok tt;
}

above_all : (a : ℕ) (used : List ℕ) → total used < a → is_in a used ≡ false
above_all a [] h = refl
above_all a (b ∷ used) h = ground (arith, above_all a used)

simple_platform-IsFresh : IsFresh simple_platform
simple_platform-IsFresh used = above_all (suc (total used)) used (omega arith)

-- "kv", and "grp".
abbrev name : List ℕ
name = 107 ∷ 118 ∷ []

abbrev group : List ℕ
group = 103 ∷ 114 ∷ 112 ∷ []

-- One storage with a handle to write through and a handle to read through.
abbrev pub busy : System
busy = record {
  flash = erased_flash;
  port_init = true;
  storages = record { at = 1; storage = young_storage.storage } ∷ [];
  handles =
      record { at = 2; storage = 1; group_id = 1; valid = true; mode = op_read_write }
      ∷ record { at = 3; storage = 1; group_id = 1; valid = true; mode = op_read_only }
      ∷ [];
  cursors = [];
}

busy-IsLinked : IsLinked busy
unfolding storage_at handle_at
busy-IsLinked = record {
  linked = (refl, refl, (refl, refl, tt));
  distinct = (refl, (refl, tt));
  few = omega arith;
}

ptm_refines-Grants_example :
    Opens busy name group op_read_write (ptm_open_handle 8 name group op_read_write busy)
    × Closes busy 2 (ptm_close_handle 2 busy)
    × Shuts busy (find_storage busy.storages name) (ptm_deinit name busy)
ptm_refines-Grants_example =
    ptm_refines-Grants simple_platform-IsFresh 8 name group op_read_write 2 busy busy-IsLinked

Reach-IsLinked_example : IsLinked (
    perform 8
      (Call.open_handle (some name) (some group) op_read_write true)
      (perform 8 (Call.init (some name)) (at_start erased_flash)))
Reach-IsLinked_example = Reach-IsLinked simple_platform-IsFresh (
    next (Call.open_handle (some name) (some group) op_read_write true)
      (next (Call.init (some name)) start))

abbrev closed : System
closed = (close (some 2) busy).1

closed_handle-Refused_example :
    Refused Code.invalid_handle closed
      (set_item 8 (some 2) type_uint8 (some group) (some (7 ∷ [])) closed)
    × Refused Code.invalid_handle closed
        (get_item (some 2) type_uint8 (some group) true (some 1) closed)
    × Refused Code.invalid_handle closed (del_key (some 2) (some group) closed)
    × Refused Code.invalid_handle closed (entry_find_by_handle (some 2) type_uint8 true closed)
    × Refused Code.invalid_handle closed (close (some 2) closed)
    × Refused Code.fault closed (del_group (some 2) closed)
    × Refused Code.fault closed (get_info (some 2) (some group) true true closed)
closed_handle-Refused_example =
    closed_handle-Refused 2 busy 8 type_uint8 (some group) (some (7 ∷ [])) true true (some 1)
      busy-IsLinked

read_only_handle-Refused_example :
    Refused Code.read_only busy (set_item 8 (some 3) type_uint8 (some group) (some (7 ∷ [])) busy)
    × Refused Code.read_only busy (del_key (some 3) (some group) busy)
    × Refused Code.read_only busy (del_group (some 3) busy)
    × ((get_item (some 3) type_uint8 (some group) true (some 1) busy).1.flash ≡ erased_flash)
    × ((get_info (some 3) (some group) true true busy).1.flash ≡ erased_flash)
unfolding handle_at
read_only_handle-Refused_example =
    read_only_handle-Refused 3 busy
      (record { at = 3; storage = 1; group_id = 1; valid = true; mode = op_read_only }) 8 type_uint8
      type_uint8 (some group) (some (7 ∷ [])) true true (some 1) refl refl refl (omega arith)
