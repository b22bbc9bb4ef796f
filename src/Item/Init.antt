-- ===== src/Item/Init.antt =====
-- What jekv_item_init makes: an item that fits its layout, whose checksum is right, and whose name
-- is the key.
use jekv.Base.{
  ℕ, List, [], arith, drop, length, length-append, length-drop, length-replicate, length-take, refl,
  replicate, some, suc, take, true, u32_mod, zero, ◌++◌, ◌-◌, ◌<◌, ◌∷◌, ◌≡◌, ◌≤◌, u32_max,
  Bool-cases, inl, inr, leb_of_ltb, ltb,
}
use jekv.Config.{max_key_len}
use jekv.Port.Crc32.{crc32}
use jekv.Item.{Item, item_init, name_field, strnlen, strncmp_eq, crc_head, head_bytes}
use jekv.Item.Layout.{IsItem}

pub strnlen-le : (s : List ℕ) (n : ℕ) → (strnlen s n ≤ n) × (strnlen s n ≤ length s)
unfolding strnlen
strnlen-le s zero = omega arith
strnlen-le [] (suc n) = omega arith
strnlen-le (c ∷ s) (suc n) = ground (arith, strnlen-le s n)

length-name_field : (key : List ℕ) → length (name_field key) ≡ max_key_len
unfolding name_field
length-name_field key = ground (
  arith,
  strnlen-le key 15,
  length-take (strnlen key 15) key,
  length-replicate {A = ℕ} (15 - strnlen key 15 - 1) 255,
  length-append (take (strnlen key 15) key) (0 ∷ replicate (15 - strnlen key 15 - 1) 255),
  length-append (take (strnlen key 15) key) [],
)

crc32-lt : (crc : ℕ) (buf : List ℕ) → crc32 crc buf < u32_mod
unfolding crc32
crc32-lt crc buf = omega arith

pub crc_head-lt : (i : Item) → crc_head i < u32_mod
unfolding crc_head
crc_head-lt i = crc32-lt (crc32 u32_max (i.name ++ head_bytes i)) i.payload

module _ (state gid type : ℕ) (key buf : List ℕ) (seg_id : ℕ) where
  abbrev made : Item
  made = item_init state gid type key (some buf) (length buf) seg_id

  -- The checksum of the head is right, so that the next start takes the item for complete.
  pub crc_item-item_init : made.crc_item ≡ crc_head made
  unfolding item_init crc_head
  crc_item-item_init = refl

  length-payload : length made.payload ≡ 8
  unfolding item_init
  length-payload = elim (Bool-cases (ltb 8 (length buf))) [
    | inl long ↦ rw long refl
    | inr short ↦ rw short (
        omega (
          arith,
          leb_of_ltb 8 (length buf) short,
          length-append (take (length buf) buf) (drop (length buf) (replicate 8 255)),
          length-take (length buf) buf,
          length-drop {A = ℕ} (length buf) (replicate 8 255),
        ))
  ]

  pub made-IsItem : IsItem made
  unfolding item_init
  made-IsItem = record {
    name_len = length-name_field key;
    payload_len = length-payload;
    group_fits = omega arith;
    recv_fits = omega arith;
    type_fits = omega arith;
    length_fits = omega arith;
    crc_fits = rw crc_item-item_init (crc_head-lt made);
  }

strncmp_eq-take :
    (key rest : List ℕ) (n : ℕ)
    → strncmp_eq (take (strnlen key n) key ++ rest) key (strnlen key n) ≡ true
unfolding strnlen strncmp_eq
strncmp_eq-take key rest zero = refl
strncmp_eq-take [] rest (suc n) = refl
strncmp_eq-take (c ∷ key) rest (suc n) = ground (arith, strncmp_eq-take key rest n)

-- The name that an item gets compares equal to its key.
pub strncmp_eq-name_field :
    (key : List ℕ) → strncmp_eq (name_field key) key (strnlen key max_key_len) ≡ true
unfolding name_field
strncmp_eq-name_field key = strncmp_eq-take key _ max_key_len
