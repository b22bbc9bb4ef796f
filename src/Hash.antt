-- ===== src/Hash.antt =====
-- src/jekv_hash.h and src/jekv_hash.c: the index of one sector, a growing array of (slice, hash)
-- in the order of the slices.
pub mod Index
pub mod Erase
pub mod Append
use jekv.Base.{
  ℕ, ◌+◌, ◌-◌, ◌*◌, ◌%◌, ℤ, pos, negsuc, signed8, to_u32, u8, Bool, false, not, ◌&&◌, Option, none,
  some, List, [], ◌∷◌, ◌++◌, leb, ◌==◌, if◌then◌else◌, Result, ok, err, no_space, no_mem, not_found,
}
use jekv.Config.{entry_count}
use jekv.Port.{Driver}
use jekv.Item.{Item, crc_hash}

-- jekv_hash_node_t; `id` is the byte that `index` reads as a signed one.
pub record Node : Type 0 where
  pub id : ℕ
  pub hash : ℕ

-- jekv_hash_t. `hash_table` is `none` for the pointer NULL, and else the first `count` nodes; the
-- room behind them is not represented.
pub record Hash : Type 0 where
  pub hash_table : Option (List Node)
  pub count : ℕ
  pub size : ℕ

-- memset(h, 0, sizeof(*h))
abbrev pub hash_init : Hash
hash_init = record { hash_table = none; count = 0; size = 0 }

abbrev pub nodes : Option (List Node) → List Node
nodes none = []
nodes (some ns) = ns

abbrev pub enlarge_step : ℕ
enlarge_step = 10

-- sizeof(jekv_hash_node_t)
abbrev pub node_size : ℕ
node_size = 4

abbrev hash_mask : ℕ → ℕ
hash_mask crc = crc % 16777216

-- The write of a node behind the last one.
unfoldable pub add_last : Hash → Item → ℕ → Hash
add_last h item index = record h {
  hash_table =
      some (nodes h.hash_table ++ record { id = u8 index; hash = hash_mask (crc_hash item) } ∷ []);
  count = u8 (h.count + 1);
}

module _ ⦃d : Driver⦄ where
  -- jekv_hash_append. Where the allocator refuses, the source has overwritten the pointer to its
  -- table by NULL.
  unfoldable pub hash_append : Hash → Item → ℕ → Result (Unit {0}) × Hash
  unfolding add_last
  hash_append h item index =
      if leb entry_count h.count
      then (err no_space, h)
      else if leb h.size h.count
      then (if d.can_alloc ((h.size + enlarge_step) * node_size)
          then (ok tt, add_last (record h { size = u8 (h.size + enlarge_step) }) item index)
          else (err no_mem, record h { hash_table = none }))
      else (ok tt, add_last h item index)

-- The nodes without the first one at `index`, if there is one.
unfoldable pub remove_first : List Node → ℕ → Option (List Node)
remove_first [] index = none
remove_first (n ∷ ns) index =
    let rest = remove_first ns index in
    if to_u32 (signed8 n.id) == index
    then some ns
    else (elim rest [ none ↦ none | some ms ↦ some (n ∷ ms) ])

-- jekv_hash_erase
unfoldable pub hash_erase : Hash → ℕ → Result (Unit {0}) × Hash
unfolding remove_first
hash_erase h index = elim (remove_first (nodes h.hash_table) index) [
  | none ↦ (err not_found, h)
  | some ns ↦ (ok tt, record h { hash_table = some ns; count = h.count - 1 })
]

abbrev pub hash_invalid : ℤ
hash_invalid = negsuc 0

abbrev is_invalid : ℤ → Bool
is_invalid (pos n) = false
is_invalid (negsuc n) = n == 0

-- The test of the search loop.
abbrev pub hits : Node → ℕ → ℕ → Bool
hits n start crc =
    leb start (to_u32 (signed8 n.id))
    && (not (is_invalid (signed8 n.id)) && n.hash == hash_mask crc)

unfoldable pub find_from : List Node → ℕ → ℕ → ℤ
find_from [] start crc = hash_invalid
find_from (n ∷ ns) start crc = if hits n start crc then signed8 n.id else find_from ns start crc

-- jekv_hash_find
unfoldable pub hash_find : Hash → ℕ → Item → ℤ
unfolding find_from
hash_find h start item = find_from (nodes h.hash_table) start (crc_hash item)

-- jekv_hash_clear
unfoldable pub hash_clear : Hash → Hash
hash_clear h = elim h.hash_table [ none ↦ h | some ns ↦ hash_init ]
