-- ===== src/Item/Layout.antt =====
-- The 32 bytes of an item: their number, and the way back from them.
use jekv.Base.{
  arith, le32, length, length-append, u32_mod, ◌++◌, ◌<◌, ◌≡◌, List, drop-append_add, get_or,
  get_or-append, of_le32-le32, take-append, take_all, ℕ, ◌+◌, ◌≤◌,
}
use jekv.Config.{max_key_len, slice_size}
use jekv.Item.{Item, encode, decode, head_bytes, get_span}

-- The fields fit their places in the structure.
pub record IsItem (i : Item) : Type 0 where
  pub name_len : length i.name ≡ max_key_len
  pub payload_len : length i.payload ≡ 8
  pub group_fits : i.group_id < 64
  pub recv_fits : i.recv1 < 4
  pub type_fits : i.type < 16
  pub length_fits : i.length < 4096
  pub crc_fits : i.crc_item < u32_mod

-- An item is one slice.
pub length-encode : (i : Item) → IsItem i → length (encode i) ≡ slice_size
length-encode i v = omega (
  arith,
  v,
  length-append i.name (head_bytes i ++ (le32 i.crc_item ++ i.payload)),
  length-append (head_bytes i) (le32 i.crc_item ++ i.payload),
)

-- The 32 bytes of an item whose fields fit their places, read as an item, are that item.
pub decode-encode : (i : Item) → IsItem i → decode (encode i) ≡ i
unfolding decode
decode-encode i v = ground (
  arith,
  at 0,
  at 1,
  at 2,
  at 3,
  at 4,
  at 5,
  at 6,
  at 7,
  take-append i.name tail 15,
  drop-append_add i.name tail 23 8,
  take_all i.payload 8,
  of_le32-le32 i.crc_item,
)
  where
    tail : List ℕ
    tail = head_bytes i ++ (le32 i.crc_item ++ i.payload)

    at : (k : ℕ) → get_or (i.name ++ tail) (15 + k) 0 ≡ get_or tail k 0
    at k = get_or-append i.name tail (15 + k) k 0 (omega (arith, v))

pub get_span_pos : (item : Item) → 1 ≤ get_span item
unfolding get_span
get_span_pos item = ground arith
