-- ===== src/Hash/Append.antt =====
-- A search behind jekv_hash_append finds the slice that was added.
use jekv.Hash.{
  find_from, hash_append, Node, hash_find, Driver, Hash, Item, entry_count, enlarge_step, node_size,
  nodes, crc_hash,
}
use jekv.Config.{entry_count}
use jekv.Base.{
  ℕ, List, [], ◌∷◌, ◌++◌, ◌≡◌, ◌<◌, ◌%◌, pos, true, arith, u8, ◌*◌, ◌+◌, ◌≤◌, Bool-cases, inl, inr,
  leb, ◌≢◌,
}
use jekv.Hash.Index.{HasNode, IsIndex, AllBelow, NoNode, Rising-room}

find_from-append :
    (ns : List Node) (n : Node) (crc hi : ℕ)
    → AllBelow hi ns
    → NoNode 0 hi (crc % 16777216) ns
    → n.id < 128
    → n.hash ≡ crc % 16777216
    → find_from (ns ++ n ∷ []) 0 crc ≡ pos n.id
unfolding find_from
find_from-append [] n crc hi below fresh small same = ground arith
find_from-append (m ∷ ns) n crc hi below fresh small same =
    ground (arith, fresh.0, find_from-append ns n crc hi below.1 fresh.1 small same)

-- Where the allocator grants the room and no node before `index` has the hash of `q`, which is
-- that of the item, a search for `q` finds the item that was added at `index`.
pub hash_find-hash_append :
    ⦃d : Driver⦄ (h : Hash) (item q : Item) (index : ℕ)
    → ((n : ℕ) → d.can_alloc n ≡ true)
    → IsIndex h
    → index < entry_count
    → AllBelow index (nodes h.hash_table)
    → crc_hash q ≡ crc_hash item
    → NoNode 0 index (crc_hash item % 16777216) (nodes h.hash_table)
    → hash_find (hash_append h item index).1 0 q ≡ pos index
unfolding hash_append hash_find
hash_find-hash_append h item q index grant v small below same fresh =
    let n : Node = record { id = u8 index; hash = crc_hash item % 16777216 } in
    ground (
      arith,
      v,
      grant ((h.size + enlarge_step) * node_size),
      Rising-room 0 index (nodes h.hash_table) (omega arith) v.rising below,
      find_from-append (nodes h.hash_table) n (crc_hash q) index below,
    )

AllBelow-append :
    (lo hi : ℕ) (ns : List Node) (n : Node)
    → lo ≤ hi
    → n.id < hi
    → AllBelow lo ns
    → AllBelow hi (ns ++ n ∷ [])
AllBelow-append lo hi [] n le lt below = (lt, tt)
AllBelow-append lo hi (m ∷ ns) n le lt below =
    (omega (arith, below), AllBelow-append lo hi ns n le lt below.1)

AllBelow-weaken : (lo hi : ℕ) (ns : List Node) → lo ≤ hi → AllBelow lo ns → AllBelow hi ns
AllBelow-weaken lo hi [] le below = tt
AllBelow-weaken lo hi (n ∷ ns) le below =
    (omega (arith, below), AllBelow-weaken lo hi ns le below.1)

-- The nodes behind jekv_hash_append stand before every slice behind the one that was added.
pub hash_append-AllBelow :
    ⦃d : Driver⦄ (h : Hash) (item : Item) (index hi : ℕ)
    → index < hi
    → index < entry_count
    → AllBelow index (nodes h.hash_table)
    → AllBelow hi (nodes (hash_append h item index).1.hash_table)
unfolding hash_append
hash_append-AllBelow ⦃d⦄ h item index hi lt small below =
    let n : Node = record { id = u8 index; hash = crc_hash item % 16777216 } in
    let more = AllBelow-append index hi (nodes h.hash_table) n (omega arith) (omega arith) below in
    elim (Bool-cases (leb entry_count h.count)) [
      | inl full ↦ rw full (AllBelow-weaken index hi (nodes h.hash_table) (omega arith) below)
      | inr e ↦ rw e (elim (Bool-cases (leb h.size h.count)) [
        | inr room ↦ rw room more
        | inl e' ↦ rw e' (elim (Bool-cases (d.can_alloc ((h.size + enlarge_step) * node_size))) [
          | inl grant ↦ rw grant more
          | inr denied ↦ rw denied tt
        ])
      ])
    ]

HasNode-append :
    (ns : List Node) (n : Node) (at hash : ℕ)
    → n.id ≢ at
    → HasNode at hash (ns ++ n ∷ [])
    → HasNode at hash ns
HasNode-append [] n at hash off (inl e) = absurd (off e.0)
HasNode-append [] n at hash off (inr has) = elim has [ ]
HasNode-append (m ∷ ns) n at hash off (inl e) = inl e
HasNode-append (m ∷ ns) n at hash off (inr has) = inr (HasNode-append ns n at hash off has)

-- jekv_hash_append adds a node for its slice only.
pub HasNode-hash_append :
    ⦃d : Driver⦄ (h : Hash) (item : Item) (index at hash : ℕ)
    → index < entry_count
    → at ≢ index
    → HasNode at hash (nodes (hash_append h item index).1.hash_table)
    → HasNode at hash (nodes h.hash_table)
unfolding hash_append
HasNode-hash_append ⦃d⦄ h item index at hash small off has =
    let n : Node = record { id = u8 index; hash = crc_hash item % 16777216 } in
    let old = HasNode-append (nodes h.hash_table) n at hash (omega (arith, off, small)) in
    ground (arith, has, old)

find_from-longer :
    (ns : List Node) (n : Node) (start crc at : ℕ)
    → find_from ns start crc ≡ pos at
    → find_from (ns ++ n ∷ []) start crc ≡ pos at
unfolding find_from
find_from-longer [] n start crc at e = ground (arith, e)
find_from-longer (m ∷ ns) n start crc at e = ground (arith, e, find_from-longer ns n start crc at)

-- What a search has found it finds behind jekv_hash_append too, where the allocator grants.
pub hash_append-kept :
    ⦃d : Driver⦄ (h : Hash) (item q : Item) (index at : ℕ)
    → ((n : ℕ) → d.can_alloc n ≡ true)
    → hash_find h 0 q ≡ pos at
    → hash_find (hash_append h item index).1 0 q ≡ pos at
unfolding hash_append hash_find
hash_append-kept h item q index at grant e =
    let n : Node = record { id = u8 index; hash = crc_hash item % 16777216 } in
    ground (
      arith,
      e,
      grant ((h.size + enlarge_step) * node_size),
      find_from-longer (nodes h.hash_table) n 0 (crc_hash q) at e,
    )
