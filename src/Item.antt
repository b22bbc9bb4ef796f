-- ===== src/Item.antt =====
-- src/jekv_item.h and src/jekv_item.c: the 32-byte item that stands at the head of every entry.
-- Its byte layout, bit fields included, is that of the compilers which the ports target: fields in
-- order, lowest bit and lowest byte first.
pub mod Layout
pub mod Init
use jekv.Base.{
  ℕ, zero, suc, ◌+◌, ◌*◌, ◌/◌, ◌%◌, ◌-◌, Option, none, some, List, [], ◌∷◌, ◌++◌, get_or, take,
  drop, replicate, length, ltb, ◌==◌, if◌then◌else◌, le32, of_le32, u32_max, Bool, ◌&&◌, true,
}
use jekv.Config.{max_key_len, slice_size}
use jekv.Port.Crc32.{crc32}

-- jekv_item_t. `payload` is the union of eight bytes at its end.
pub record Item : Type 0 where
  pub state : ℕ
  pub name : List ℕ
  pub group_id : ℕ
  pub recv1 : ℕ
  pub seg_id : ℕ
  pub type : ℕ
  pub length : ℕ
  pub crc_item : ℕ
  pub payload : List ℕ

-- The union's other members: all_size, seg_count and seg_start of a blob descriptor, and crc_data.
abbrev pub word0 : List ℕ → ℕ
word0 p = of_le32 (get_or p 0 0) (get_or p 1 0) (get_or p 2 0) (get_or p 3 0)

abbrev pub all_size : Item → ℕ
all_size item = word0 item.payload

abbrev pub seg_count : Item → ℕ
seg_count item = get_or item.payload 4 0

abbrev pub seg_start : Item → ℕ
seg_start item = get_or item.payload 5 0

abbrev pub crc_data : Item → ℕ
crc_data item = word0 item.payload

-- The four bytes of group_id : 6, recv1 : 2, seg_id, type : 4, length : 12.
abbrev pub head_bytes : Item → List ℕ
head_bytes i =
    (i.group_id + 64 * i.recv1) ∷ i.seg_id ∷ (i.type + 16 * (i.length % 16)) ∷ (i.length / 16) ∷ []

-- An item as it lies in memory and on flash.
abbrev pub encode : Item → List ℕ
encode i = i.state ∷ (i.name ++ (head_bytes i ++ (le32 i.crc_item ++ i.payload)))

-- The item that 32 bytes are.
unfoldable pub decode : List ℕ → Item
decode b = record {
  state = get_or b 0 0;
  name = take 15 (drop 1 b);
  group_id = get_or b 16 0 % 64;
  recv1 = get_or b 16 0 / 64;
  seg_id = get_or b 17 0;
  type = get_or b 18 0 % 16;
  length = get_or b 18 0 / 16 + 16 * get_or b 19 0;
  crc_item = of_le32 (get_or b 20 0) (get_or b 21 0) (get_or b 22 0) (get_or b 23 0);
  payload = take 8 (drop 24 b);
}

-- strnlen(s, n): the bytes before the terminator. A string is its bytes; its end terminates it too.
unfoldable pub strnlen : List ℕ → ℕ → ℕ
strnlen s zero = 0
strnlen [] (suc n) = 0
strnlen (c ∷ s) (suc n) = if c == 0 then 0 else suc (strnlen s n)

-- strncmp(a, b, n) == 0
unfoldable pub strncmp_eq : List ℕ → List ℕ → ℕ → Bool
strncmp_eq a b zero = true
strncmp_eq a b (suc n) =
    let x = get_or a 0 0 in
    let y = get_or b 0 0 in x == y && (if x == 0 then true else strncmp_eq (drop 1 a) (drop 1 b) n)

unfoldable pub get_span : Item → ℕ
get_span item = if ltb 8 item.length then 1 + (item.length + (slice_size - 1)) / slice_size else 1

unfoldable pub crc_hash : Item → ℕ
unfolding crc32
crc_hash item = crc32 u32_max (item.name ++ take 2 (head_bytes item))

unfoldable pub crc_head : Item → ℕ
unfolding crc32
crc_head item = crc32 (crc32 u32_max (item.name ++ head_bytes item)) item.payload

-- memset(item, 0xff), the name copied over it, and a terminator where there is room.
unfoldable pub name_field : List ℕ → List ℕ
unfolding strnlen
name_field key =
    let key_len = strnlen key max_key_len in
    take key_len key
    ++ (if ltb key_len max_key_len then 0 ∷ replicate (max_key_len - key_len - 1) 255 else [])

abbrev pub blank : ℕ → ℕ → ℕ → List ℕ → ℕ → ℕ → Item
blank state group_id type key size seg_id = record {
  state = state;
  name = name_field key;
  group_id = group_id % 64;
  recv1 = 0;
  seg_id = seg_id;
  type = type % 16;
  length = size % 4096;
  crc_item = u32_max;
  payload = replicate 8 255;
}

-- jekv_item_init; the buffer is `none` where the caller passes NULL.
unfoldable pub item_init : ℕ → ℕ → ℕ → List ℕ → Option (List ℕ) → ℕ → ℕ → Item
unfolding name_field crc32
item_init state group_id type key none size seg_id = blank state group_id type key size seg_id
item_init state group_id type key (some buf) size seg_id =
    let item = blank state group_id type key size seg_id in
    let filled : Item = record item {
      payload =
          if ltb 8 size
          then le32 (crc32 u32_max (take size buf)) ++ replicate 4 255
          else take size buf ++ drop size (replicate 8 255);
    } in
    record filled { crc_item = crc_head filled }
