-- ===== src/Hash/Index.antt =====
-- The index of a sector as a list of (slice, hash): its invariant, and what a search finds.
use jekv.Base.{
  ℕ, List, [], arith, length, ok, suc, true, ◌++◌, ◌+◌, ◌<◌, ◌∷◌, ◌≡◌, ◌≤◌, length-append, refl, u8,
  ◌%◌, ◌*◌, Bool-cases, inl, inr, negsuc, pos, ℤ, ◌≢◌, ◌⊎◌, lt→ltb,
}
use jekv.Config.{entry_count}
use jekv.Port.{Driver}
use jekv.Item.{Item, crc_hash}
use jekv.Hash.{Node, Hash, nodes, enlarge_step, hash_append, find_from, node_size, hash_find, hits}

-- The nodes name slices of the sector, in rising order from `from` on.
abbrev pub Rising : ℕ → List Node → Type 0
Rising from [] = Unit
Rising from (n ∷ ns) = (from ≤ n.id) × (n.id < entry_count) × Rising (suc n.id) ns

-- The counters of the structure fit the table, and the nodes are in the order of the slices.
pub record IsIndex (h : Hash) : Type 0 where
  pub counted : h.count ≡ length (nodes h.hash_table)
  pub fits : h.count ≤ h.size
  pub bounded : h.size ≤ entry_count + enlarge_step
  pub rising : Rising 0 (nodes h.hash_table)

-- Every node stands before `index`.
abbrev pub AllBelow : ℕ → List Node → Type 0
AllBelow index [] = Unit
AllBelow index (n ∷ ns) = (n.id < index) × AllBelow index ns

Rising-append :
    (from : ℕ) (ns : List Node) (n : Node)
    → from ≤ n.id
    → n.id < entry_count
    → Rising from ns
    → AllBelow n.id ns
    → Rising from (ns ++ n ∷ [])
Rising-append from [] n h k r b = (h, k, tt)
Rising-append from (m ∷ ns) n h k r b = (r.0, r.1, Rising-append (suc m.id) ns n b.0 k r.2 b.1)

-- Rising nodes below `index` leave no more of them than there are slices.
pub Rising-room :
    (from index : ℕ) (ns : List Node)
    → from ≤ index
    → Rising from ns
    → AllBelow index ns
    → length ns + from ≤ index
Rising-room from index [] h r b = omega arith
Rising-room from index (n ∷ ns) h r b =
    omega (arith, Rising-room (suc n.id) index ns b.0 r.2 b.1, r.0)

pub Rising-weaken : (a b : ℕ) (ns : List Node) → a ≤ b → Rising b ns → Rising a ns
Rising-weaken a b [] h r = tt
Rising-weaken a b (n ∷ ns) h r = (omega (arith, r.0), r.1, r.2)

module _ ⦃d : Driver⦄ where
  -- Where the allocator grants the room, an index stays one when the item of a slice behind all
  -- its nodes is added, and the result is OK.
  pub hash_append-IsIndex :
      (h : Hash) (item : Item) (index : ℕ)
      → ((n : ℕ) → d.can_alloc n ≡ true)
      → index < entry_count
      → AllBelow index (nodes h.hash_table)
      → IsIndex h
      → IsIndex (hash_append h item index).1 × ((hash_append h item index).0 ≡ ok tt)
  unfolding hash_append
  hash_append-IsIndex h item index grant small below v =
      let ns = nodes h.hash_table in
      let n : Node = record { id = u8 index; hash = crc_hash item % 16777216 } in
      let e : u8 index ≡ index = omega arith in
      ground (
        arith,
        v,
        grant ((h.size + enlarge_step) * node_size),
        Rising-room 0 index ns (omega arith) v.rising below,
        Rising-append 0 ns n (omega arith) (omega arith) v.rising (rw e below),
        length-append ns (n ∷ []),
      )

-- Some node names slice `at` with hash `hash`.
abbrev pub HasNode : ℕ → ℕ → List Node → Type 0
HasNode at hash [] = ⊥
HasNode at hash (n ∷ ns) = ((n.id ≡ at) × (n.hash ≡ hash)) ⊎ HasNode at hash ns

-- No node from slice `lo` up to slice `hi` has hash `hash`.
abbrev pub NoNode : ℕ → ℕ → ℕ → List Node → Type 0
NoNode lo hi hash [] = Unit
NoNode lo hi hash (n ∷ ns) = (lo ≤ n.id → n.id < hi → n.hash ≢ hash) × NoNode lo hi hash ns

-- What a search from `start` may return.
abbrev pub Found : List Node → ℕ → ℕ → ℤ → Type 0
Found ns start hash (pos at) = HasNode at hash ns × (start ≤ at) × NoNode start at hash ns
Found ns start hash (negsuc k) = (k ≡ 0) × NoNode start entry_count hash ns

NoNode-beyond :
    (ns : List Node) (from lo hi hash : ℕ) → hi ≤ from → Rising from ns → NoNode lo hi hash ns
NoNode-beyond [] from lo hi hash h r = tt
NoNode-beyond (n ∷ ns) from lo hi hash h r =
    (λ a b. absurd (omega arith), NoNode-beyond ns (suc n.id) lo hi hash (omega arith) r.2)

Found-cons :
    (n : Node) (ns : List Node) (start hash : ℕ) (r : ℤ)
    → (start ≤ n.id → n.hash ≢ hash)
    → Found ns start hash r
    → Found (n ∷ ns) start hash r
Found-cons n ns start hash (pos at) miss f = (inr f.0, f.1, (λ a b. miss a, f.2))
Found-cons n ns start hash (negsuc k) miss f = (f.0, (λ a b. miss a, f.1))

find_from-Found :
    (ns : List Node) (from start crc : ℕ)
    → Rising from ns
    → Found ns start (crc % 16777216) (find_from ns start crc)
unfolding find_from
find_from-Found [] from start crc r = (refl, tt)
find_from-Found (n ∷ ns) from start crc r = elim (Bool-cases (hits n start crc)) [
  | inl e ↦
      rw (e, lt→ltb n.id 128 (omega (arith, r)))
        (
          inl (refl, ground (arith, e)),
          ground (arith, r, e),
          (
            λ a b. absurd (omega arith),
            NoNode-beyond ns (suc n.id) start n.id (crc % 16777216) (omega arith) r.2,
          ),
        )
  | inr e ↦ rw e (
      Found-cons n ns start (crc % 16777216) (find_from ns start crc) (λ a. ground (arith, r))
        (find_from-Found ns (suc n.id) start crc r.2))
]

-- In an index in order, a search returns the first slice from `start` on whose node has the hash
-- of the item, and JEKV_HASH_INVALID where none has.
pub hash_find-Found :
    (h : Hash) (start : ℕ) (item : Item)
    → IsIndex h
    → Found (nodes h.hash_table) start (crc_hash item % 16777216) (hash_find h start item)
unfolding hash_find
hash_find-Found h start item v =
    find_from-Found (nodes h.hash_table) 0 start (crc_hash item) v.rising

find_from-ge : (ns : List Node) (start crc at : ℕ) → find_from ns start crc ≡ pos at → start ≤ at
unfolding find_from
find_from-ge [] start crc at h = cc
find_from-ge (n ∷ ns) start crc at h = ground (arith, find_from-ge ns start crc at)

-- Whatever the index holds, a slice that a search returns does not stand before `start`.
pub hash_find-ge :
    (h : Hash) (start : ℕ) (item : Item) (at : ℕ) → hash_find h start item ≡ pos at → start ≤ at
unfolding hash_find
hash_find-ge h start item at = find_from-ge (nodes h.hash_table) start (crc_hash item) at

-- Of nodes below `hi`, none has the hash.
pub NoNode-HasNode :
    (ns : List Node) (at hi hash : ℕ) → AllBelow hi ns → NoNode 0 hi hash ns → ¬ HasNode at hash ns
NoNode-HasNode [] at hi hash below none_there has = has
NoNode-HasNode (n ∷ ns) at hi hash below none_there (inl (e, f)) =
    none_there.0 (omega arith) below.0 f
NoNode-HasNode (n ∷ ns) at hi hash below none_there (inr has) =
    NoNode-HasNode ns at hi hash below.1 none_there.1 has
