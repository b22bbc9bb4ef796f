-- ===== src/Partition.antt =====
-- src/jekv_partition.h and src/jekv_partition.c: reads, writes and erases of one partition, with
-- the checks of range and of the read-only mark.
pub mod Bounds
use jekv.Base.{
  ℕ, ◌+◌, ◌-◌, ◌/◌, Bool, false, not, ◌&&◌, ◌||◌, List, ltb, leb, u16, u32, length, take,
  if◌then◌else◌, Result, ok, err, Exec, ◌>>=◌, ◌>>◌, require, pure, fail, read_only, invalid_param,
}
use jekv.Config.{sector_size, slice_size, partition_name_size}
use jekv.Port.{Flash, Driver}
use jekv.Item.{Item, encode, decode}

-- jekv_partition_t, but the handle `dev`, which stands for the one device of `Driver`.
pub record Partition : Type 0 where
  pub name : List ℕ
  pub offset : ℕ
  pub sec_num : ℕ
  pub sec_size : ℕ
  pub size : ℕ
  pub encrypted : ℕ
  pub readonly : Bool

-- jkvs_partition_item_t
pub record PartitionItem : Type 0 where
  pub offset : ℕ
  pub size : ℕ

-- jekv_pt_init; the second argument is what jekv_partition_get_info answers. The C code has filled
-- `*pt` also where it refuses; its caller jekv_ptm_init returns at once and drops it.
unfoldable pub pt_init : List ℕ → Result PartitionItem → Result Partition
pt_init name (err c) = err fail
pt_init name (ok ptable) =
    let pt : Partition = record {
      name = take (partition_name_size - 1) name;
      offset = ptable.offset;
      sec_size = sector_size;
      sec_num = u16 (ptable.size / sector_size);
      size = ptable.size;
      encrypted = 0;
      readonly = false;
    } in
    if (ltb pt.sec_num 2 && not pt.readonly) || ltb pt.sec_num 1 then err fail else ok pt

-- address + length <= pt->size, on `uint32_t`.
abbrev pub in_range : Partition → ℕ → ℕ → Bool
in_range pt address n = leb (u32 (address + n)) pt.size

module _ ⦃d : Driver⦄ where
  unfoldable pub device_read : ℕ → ℕ → Exec Flash (List ℕ)
  device_read a n f = (d.partition_read f a n, f)

  unfoldable pub device_write : ℕ → List ℕ → Exec Flash (Unit {0})
  device_write a bs f = d.partition_write f a bs

  unfoldable pub device_erase : ℕ → ℕ → Exec Flash (Unit {0})
  device_erase a n f = d.partition_erase f a n

  -- jekv_pt_erase_all
  unfoldable pub pt_erase_all : Partition → Exec Flash (Unit {0})
  unfolding device_erase
  pt_erase_all pt = device_erase pt.offset pt.size

  -- jekv_pt_erase
  unfoldable pub pt_erase : Partition → ℕ → Exec Flash (Unit {0})
  unfolding device_erase
  pt_erase pt address = do
    require (not pt.readonly) read_only
    require (in_range pt address sector_size) invalid_param
    device_erase (u32 (pt.offset + address)) sector_size

  -- jekv_pt_read, and jekv_pt_read_raw, which has the same body.
  unfoldable pub pt_read : Partition → ℕ → ℕ → Exec Flash (List ℕ)
  unfolding device_read
  pt_read pt address n = do
    require (in_range pt address n) invalid_param
    device_read (u32 (pt.offset + address)) n

  unfoldable pub pt_read_raw : Partition → ℕ → ℕ → Exec Flash (List ℕ)
  unfolding device_read
  pt_read_raw pt address n = do
    require (in_range pt address n) invalid_param
    device_read (u32 (pt.offset + address)) n

  -- jekv_pt_write, and jekv_pt_write_raw, which has the same body.
  unfoldable pub pt_write : Partition → ℕ → List ℕ → Exec Flash (Unit {0})
  unfolding device_write
  pt_write pt address bs = do
    require (in_range pt address (length bs)) invalid_param
    require (not pt.readonly) read_only
    device_write (u32 (pt.offset + address)) bs

  unfoldable pub pt_write_raw : Partition → ℕ → List ℕ → Exec Flash (Unit {0})
  unfolding device_write
  pt_write_raw pt address bs = do
    require (in_range pt address (length bs)) invalid_param
    require (not pt.readonly) read_only
    device_write (u32 (pt.offset + address)) bs

  -- jekv_pt_read_item
  unfoldable pub pt_read_item : Partition → ℕ → Exec Flash Item
  unfolding device_read
  pt_read_item pt address = do
    require (in_range pt address slice_size) invalid_param
    bytes ← device_read (u32 (pt.offset + address)) slice_size
    pure (decode bytes)

  -- jekv_pt_write_item
  unfoldable pub pt_write_item : Partition → ℕ → Item → Exec Flash (Unit {0})
  unfolding device_write
  pt_write_item pt address item = do
    require (in_range pt address slice_size) invalid_param
    require (not pt.readonly) read_only
    device_write (u32 (pt.offset + address)) (encode item)
