-- ===== src/Config.antt =====
-- The constants of include/jekv_base.h, src/jekv_item.h and src/jekv_sector.h.
use jekv.Base.{ℕ}

abbrev pub sector_size : ℕ
sector_size = 4096

abbrev pub slice_size : ℕ
slice_size = 32

-- JEKV_SLICE_NUM - 1
abbrev pub entry_count : ℕ
entry_count = 127

-- JEKV_SINGLE_ITEM_MAX_DATA_SIZE
abbrev pub single_item_max_data_size : ℕ
single_item_max_data_size = 4032

abbrev pub max_key_len : ℕ
max_key_len = 15

abbrev pub partition_name_size : ℕ
partition_name_size = 16

abbrev pub max_handle_num : ℕ
max_handle_num = 64

abbrev pub blob_min_seg_size : ℕ
blob_min_seg_size = 512

-- JEKV_GROUP_ID_MAX is JEKV_GROUP_ID_ANY.
abbrev pub group_id_any : ℕ
group_id_any = 0x3f

abbrev pub group_itself_id : ℕ
group_itself_id = 0

abbrev pub seg_id_any : ℕ
seg_id_any = 0xff

abbrev pub seg_num_max : ℕ
seg_num_max = 127

abbrev pub seg_start_ver_0 : ℕ
seg_start_ver_0 = 0

abbrev pub seg_start_ver_1 : ℕ
seg_start_ver_1 = 0x80

abbrev pub seg_start_any : ℕ
seg_start_any = 0xff

abbrev pub item_state_unused : ℕ
item_state_unused = 0xff

abbrev pub item_state_using : ℕ
item_state_using = 0xfe

abbrev pub item_state_droped : ℕ
item_state_droped = 0xfc

-- jekv_type_t, as stored in the four bits of an item.
abbrev pub type_any : ℕ
type_any = 0

abbrev pub type_string : ℕ
type_string = 1

abbrev pub type_int8 : ℕ
type_int8 = 2

abbrev pub type_uint8 : ℕ
type_uint8 = 3

abbrev pub type_int16 : ℕ
type_int16 = 4

abbrev pub type_uint16 : ℕ
type_uint16 = 5

abbrev pub type_int32 : ℕ
type_int32 = 6

abbrev pub type_uint32 : ℕ
type_uint32 = 7

abbrev pub type_int64 : ℕ
type_int64 = 8

abbrev pub type_uint64 : ℕ
type_uint64 = 9

abbrev pub type_double : ℕ
type_double = 10

abbrev pub type_binary : ℕ
type_binary = 11

abbrev pub type_blob : ℕ
type_blob = 12

-- JEKV_TYPE_MAX
abbrev pub type_blob_seg : ℕ
type_blob_seg = 13

abbrev pub type_any_without_seg : ℕ
type_any_without_seg = 14

abbrev pub sector_magic : ℕ
sector_magic = 0x4d57

-- CONFIG_NVS_VER_NUM
abbrev pub version_num : ℕ
version_num = 1

abbrev pub sector_state_uninit : ℕ
sector_state_uninit = 0xff

abbrev pub sector_state_using : ℕ
sector_state_using = 0xfe

abbrev pub sector_state_full : ℕ
sector_state_full = 0xfc

abbrev pub sector_state_deletting : ℕ
sector_state_deletting = 0xf8

abbrev pub sector_state_crash : ℕ
sector_state_crash = 0xf0

abbrev pub sector_state_invalid : ℕ
sector_state_invalid = 0x00

-- jekv_open_mode_t
abbrev pub op_read_only : ℕ
op_read_only = 0

abbrev pub op_read_write : ℕ
op_read_write = 1

-- JEKV_OP_MAX
abbrev pub op_max : ℕ
op_max = 2
