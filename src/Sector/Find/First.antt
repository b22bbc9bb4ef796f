-- ===== src/Sector/Find/First.antt =====
-- A search without a key against the entries of the sector in their order.
use jekv.Item.Layout.{get_span_pos}
use jekv.Sector.Find.Search.{find_step_end}
use jekv.Base.{
  ℕ, Option, Result, arith, err, le→leb, none, not_found, ok, some, true, u32, u32_mod, ◌*◌, ◌+◌,
  ◌<◌, ◌≡◌, ◌≤◌, Exec, lt→ltb, min, refl, suc, zero, ◌-◌,
}
use jekv.Config.{entry_count, slice_size, sector_size}
use jekv.Port.{Flash, Driver}
use jekv.Port.Laws.{IsReliable, bytes_at}
use jekv.Item.{Item, get_span, decode}
use jekv.Partition.{pt_read_item, device_read, in_range}
use jekv.Sector.State.{Sector}
use jekv.Sector.Find.{
  Query, FindCtx, verdict, Verdict, read_slice, find_loop, act_on, find_item, find_step, look,
  searchable,
}

-- The sector lies in its partition, and the partition in the 32-bit addresses of the device.
pub record IsPlaced (sec : Sector) : Type 0 where
  pub inside : sec.address + sector_size ≤ sec.pt.size
  pub addressed : sec.pt.offset + sec.pt.size < u32_mod

-- The device address of slice `i`, the header not counted.
abbrev pub slice_address : Sector → ℕ → ℕ
slice_address sec i = sec.pt.offset + (sec.address + (i + 1) * slice_size)

-- The item that stands at slice `i`.
abbrev pub item_at : Flash → Sector → ℕ → Item
item_at f sec i = decode (bytes_at f (slice_address sec i) slice_size)

-- From slice `i` the entries lead, each followed by the next, to the first hit before `end`, or to
-- none.
pub data Walk (f : Flash) (sec : Sector) (q : Query) (end : ℕ) : ℕ → Option ℕ → Type 0 where
  past : {i : ℕ} → end ≤ i → Walk f sec q end i none
  halt : {i : ℕ} → i < end → verdict q (item_at f sec i) ≡ Verdict.stop → Walk f sec q end i none
  first :
      {i : ℕ} → i < end → verdict q (item_at f sec i) ≡ Verdict.hit → Walk f sec q end i (some i)
  over :
      {i : ℕ} {r : Option ℕ}
      → i < end
      → verdict q (item_at f sec i) ≡ Verdict.skip
      → Walk f sec q end (i + get_span (item_at f sec i)) r
      → Walk f sec q end i r

abbrev pub answer : Option ℕ → Result ℕ
answer none = err not_found
answer (some at) = ok at

module _ ⦃d : Driver⦄ (reliable : IsReliable d) where
  pub read_slice_reliable :
      (i : ℕ) (c : FindCtx)
      → IsPlaced c.sec
      → i < entry_count
      → read_slice i c ≡ (ok tt, record c { item = item_at c.flash c.sec i })
  unfolding read_slice pt_read_item device_read
  read_slice_reliable i c placed lt =
      let a = c.sec.address + (i + 1) * slice_size in
      let e : u32 a ≡ a = omega (arith, placed) in
      let inside : in_range c.sec.pt (u32 a) slice_size ≡ true =
        le→leb (u32 (u32 a + slice_size)) c.sec.pt.size (omega (arith, placed)) in
      let at : u32 (c.sec.pt.offset + a) ≡ c.sec.pt.offset + a = omega (arith, placed) in
      rw (inside, e, at, reliable.reads)

-- A query without a key.
abbrev pub unkeyed : Query → Query
unkeyed q = record q { key = none }

module _ ⦃d : Driver⦄ (reliable : IsReliable d) (f : Flash) (sec : Sector) (q : Query) where
  abbrev ctx : Item → FindCtx
  ctx item = record { flash = f; sec = sec; item = item }

  find_step_reliable :
      (k : ℕ → Exec FindCtx ℕ) (end i : ℕ) (item : Item)
      → IsPlaced sec
      → end ≤ entry_count
      → i < end
      → find_step k (unkeyed q) i end (ctx item)
        ≡ act_on k i
            (item_at f sec i)
            (verdict (unkeyed q) (item_at f sec i))
            (ctx (item_at f sec i))
  unfolding find_step look
  find_step_reliable k end i item placed small lt =
      rw
        (
          lt→ltb i end lt,
          find_step,
          look,
          read_slice_reliable reliable i (ctx item) placed (omega arith),
        )
        refl

  find_loop-Walk :
      (fuel end i : ℕ) (r : Option ℕ) (item : Item)
      → IsPlaced sec
      → end ≤ entry_count
      → end ≤ fuel + i
      → Walk f sec (unkeyed q) end i r
      → (item' : Item) × (find_loop fuel (unkeyed q) i end (ctx item) ≡ (answer r, ctx item'))
  unfolding find_loop
  find_loop-Walk zero end i r item placed small enough (past h) = (item, refl)
  find_loop-Walk zero end i r item placed small enough (halt lt e) = absurd (omega arith)
  find_loop-Walk zero end i r item placed small enough (first lt e) = absurd (omega arith)
  find_loop-Walk zero end i r item placed small enough (over lt e w) = absurd (omega arith)
  find_loop-Walk (suc fuel) end i r item placed small enough (past h) = (
    item,
    find_step_end (λ next. find_loop fuel (unkeyed q) next end) (unkeyed q) i end (ctx item) h,
  )
  find_loop-Walk (suc fuel) end i r item placed small enough (halt lt e) = (
    item_at f sec i,
    rw
        (
          find_step_reliable (λ next. find_loop fuel (unkeyed q) next end) end i item placed small
              lt,
          e,
        )
        refl,
  )
  find_loop-Walk (suc fuel) end i r item placed small enough (first lt e) = (
    item_at f sec i,
    rw
        (
          find_step_reliable (λ next. find_loop fuel (unkeyed q) next end) end i item placed small
              lt,
          e,
        )
        refl,
  )
  find_loop-Walk (suc fuel) end i r item placed small enough (over lt e w) =
      rw
        (
          find_step_reliable (λ next. find_loop fuel (unkeyed q) next end) end i item placed small
              lt,
          e,
        )
        (find_loop-Walk fuel end (i + get_span (item_at f sec i)) r (item_at f sec i) placed small
          (omega (arith, get_span_pos (item_at f sec i))) w)

  -- With a reliable driver, a search without a key, from a slice of the sector on, over a sector
  -- that lies in its partition and is neither bad nor uninitialised, returns the first entry in use
  -- that meets the query, and NOT_FOUND where the entries lead to none; the device and the sector
  -- stay as they are.
  pub find_item-Walk :
      (start : ℕ) (r : Option ℕ) (item : Item)
      → IsPlaced sec
      → searchable sec ≡ true
      → start < entry_count
      → Walk f sec (unkeyed q) (min sec.next_free_slice entry_count) start r
      → (item' : Item) × (find_item (unkeyed q) start (ctx item) ≡ (answer r, ctx item'))
  unfolding find_item
  find_item-Walk start r item placed good lt w =
      let end = min sec.next_free_slice entry_count in
      rw (good, lt→ltb start entry_count lt, find_item)
        (find_loop-Walk (end - start) end start r item placed (omega arith) (omega arith) w)
