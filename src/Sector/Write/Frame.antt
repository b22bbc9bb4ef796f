-- ===== src/Sector/Write/Frame.antt =====
-- A write to a sector leaves the values of other keys as they are.
use jekv.Sector.Write.Ready.{write_item-IsReady}
use jekv.Sector.Write.Program.{AllBytes}
use jekv.Partition.Bounds.{pt_read_reliable}
use jekv.Base.{
  ℕ, ◌+◌, ◌*◌, ◌-◌, ◌≡◌, ◌≤◌, ◌<◌, refl, true, List, some, length, ltb, leb, u8, u32, min, suc, pos,
  ok, Bool-cases, inl, inr, arith, ap, ◌∙◌, lt→ltb, subst, take,
}
use jekv.Config.{entry_count, slice_size, item_state_using, single_item_max_data_size}
use jekv.Port.{Driver, Flash}
use jekv.Port.Laws.{IsReliable, bytes_at_congr, overwrite, overwrite_outside, bytes_at}
use jekv.Item.{Item, decode, item_init, encode}
use jekv.Hash.{hash_find}
use jekv.Hash.Append.{hash_append-kept}
use jekv.Sector.State.{Ctx}
use jekv.Sector.Find.{
  Query, FindCtx, Verdict, verdict, probe, find_into, find_item, find_loop, find_step, look,
  searchable,
}
use jekv.Sector.Find.First.{item_at, slice_address, read_slice_reliable}
use jekv.Sector.Find.Search.{find_loop_fuel}
use jekv.Sector.Write.{entry_cnt, read_item_data, write_item}
use jekv.Sector.Write.RoundTrip.{IsReady, after_write, write_item_reliable}

abbrev pub by_key : Query → List ℕ → Query
by_key q key = record q { key = some key }

-- The value of `size` bytes that a query with a key finds stands at slice `at`, in front of the next free slice.
pub record Stands (c : Ctx) (q : Query) (key : List ℕ) (at size : ℕ) : Type 0 where
  pub indexed : hash_find c.sec.hash 0 (probe (by_key q key) key) ≡ pos at
  pub accepted : verdict (by_key q key) (item_at c.flash c.sec at) ≡ Verdict.hit
  pub before : at < c.sec.next_free_slice
  pub within : 8 < size → (at + 1) * slice_size + size ≤ c.sec.next_free_slice * slice_size

module _ ⦃d : Driver⦄ (reliable : IsReliable d) (c : Ctx) (q : Query) (key : List ℕ)
    (at size : ℕ) where
  -- A value that stands in a sector is found at once.
  Stands-find_item :
      IsReady c
      → Stands c q key at size
      → (buffer : Item)
      → find_into (by_key q key) 0 buffer c ≡ (ok (ok at, item_at c.flash c.sec at), c)
  unfolding find_item find_loop find_step look
  Stands-find_item v there buffer =
      let good : searchable c.sec ≡ true = ground (arith, v.using) in
      let end = min c.sec.next_free_slice entry_count in
      let ctx : FindCtx = record { flash = c.flash; sec = c.sec; item = buffer } in
      let probed : FindCtx = record ctx { item = probe (by_key q key) key } in
      let turns =
        find_loop_fuel (end - 0) (suc end) (by_key q key) 0 end ctx (omega arith) (omega arith) in
      let read =
        read_slice_reliable reliable at probed v.placed (omega (arith, v.counted, there.before)) in
      let busy : ltb 0 end ≡ true = lt→ltb 0 end (omega (arith, there.before)) in
      rw (good, find_item, turns, busy, find_step, there.indexed, look, read, there.accepted) refl

module _ ⦃d : Driver⦄ (reliable : IsReliable d) (c : Ctx) (gid type : ℕ) (key buf : List ℕ)
    (seg_id : ℕ) where
  abbrev nf : ℕ
  nf = c.sec.next_free_slice

  abbrev after : Ctx
  after = after_write reliable c gid type key buf seg_id

  abbrev item : Item
  item = item_init item_state_using gid type key (some buf) (length buf) seg_id

  abbrev head : Flash
  head = overwrite c.flash (slice_address c.sec nf) (encode item)

  -- The device in front of the next free slice.
  front_kept : (p : ℕ) → p < slice_address c.sec nf → after.flash p ≡ c.flash p
  front_kept p lt = elim (Bool-cases (ltb 8 (length buf))) [
    | inr e ↦ rw e (overwrite_outside c.flash (slice_address c.sec nf) (encode item) p (inl lt))
    | inl e ↦ rw e (
        overwrite_outside head (slice_address c.sec nf + slice_size) buf p (inl (omega (arith, lt)))
        ∙ overwrite_outside c.flash (slice_address c.sec nf) (encode item) p (inl lt))
  ]

  module _ (q : Query) (other : List ℕ) (at size : ℕ) (v : IsReady c)
      (there : Stands c q other at size) where
    item_kept : item_at after.flash after.sec at ≡ item_at c.flash c.sec at
    item_kept = ap decode (
        bytes_at_congr after.flash c.flash (slice_address c.sec at) slice_size
          (λ p lo hi. front_kept p (omega (arith, hi, there.before))))

    Stands-after : nf + entry_cnt (length buf) ≤ entry_count → Stands after q other at size
    Stands-after room =
        let grown : u8 (nf + entry_cnt (length buf)) ≡ nf + entry_cnt (length buf) =
          omega (arith, room) in
        record {
          indexed =
              hash_append-kept c.sec.hash _ (probe (by_key q other) other) nf at reliable.allocs
                there.indexed;
          accepted = ap (verdict (by_key q other)) item_kept ∙ there.accepted;
          before = omega (arith, grown, there.before);
          within = λ long. omega (arith, grown, there.within long);
        }

    data_kept :
        (item : Item)
        → (bytes : List ℕ) × (read_item_data at item size c ≡ (ok bytes, c))
          × (read_item_data at item size after ≡ (ok bytes, after))
    unfolding read_item_data
    data_kept item = elim (Bool-cases (leb size 8)) [
      | inl e ↦ rw e (take size item.payload, refl, refl)
      | inr e ↦
          let long : 8 < size = ground (arith, e) in
          let a = c.sec.address + (at + 1 + 1) * slice_size in
          let same : u32 a ≡ a = omega (arith, v, there, there.within long) in
          let fits : a + size ≤ c.sec.pt.size =
            omega (arith, v.placed, v.counted, there.within long) in
          let new = pt_read_reliable reliable c.sec.pt v.placed.addressed a size after.flash fits in
          let old = pt_read_reliable reliable c.sec.pt v.placed.addressed a size c.flash fits in
          let bytes =
            bytes_at_congr after.flash c.flash (c.sec.pt.offset + a) size
              (λ p lo hi. front_kept p (omega (arith, hi, there.within long))) in
          rw (e, same, new, old)
            (bytes_at c.flash (c.sec.pt.offset + a) size, refl, ap (λ bs. (ok bs, after)) bytes)
    ]

    -- With a reliable driver, in a sector that is ready: where a search by another key finds a value
    -- at once, which stands with its data in front of the next free slice, a write of bytes that fits
    -- returns OK and leaves that value where it is; the search returns the same slice and the same
    -- item before and after the write, and reading its data returns the same bytes.
    pub find_item-write_item_other :
        length buf ≤ single_item_max_data_size
        → nf + entry_cnt (length buf) ≤ entry_count
        → seg_id < 256
        → AllBytes key
        → AllBytes buf
        → (buffer : Item)
        → ((write_item gid type key buf seg_id c).0 ≡ ok tt)
          × Stands (write_item gid type key buf seg_id c).1 q other at size
          × (find_into (by_key q other) 0 buffer c ≡ (ok (ok at, item_at c.flash c.sec at), c))
          × (find_into (by_key q other) 0 buffer (write_item gid type key buf seg_id c).1
              ≡ (ok (ok at, item_at c.flash c.sec at), (write_item gid type key buf seg_id c).1))
          × (bytes : List ℕ) × (read_item_data at (item_at c.flash c.sec at) size c ≡ (ok bytes, c))
          × (read_item_data at
                (item_at c.flash c.sec at)
                size
                (write_item gid type key buf seg_id c).1
              ≡ (ok bytes, (write_item gid type key buf seg_id c).1))
    find_item-write_item_other short room hs hk hb buffer =
        let w = write_item_reliable reliable c gid type key buf seg_id v short room hs hk hb in
        let ready : IsReady after =
          subst IsReady (ap (λ r. r.1) w)
            (write_item-IsReady reliable c gid type key buf seg_id v short room hs hk hb) in
        let found =
          Stands-find_item reliable after q other at size ready (Stands-after room) buffer
          ∙ ap (λ it. (ok (ok at, it), after)) item_kept in
        let (bytes, old, new) = data_kept (item_at c.flash c.sec at) in
        rw w (
          refl,
          Stands-after room,
          Stands-find_item reliable c q other at size v there buffer,
          found,
          bytes,
          old,
          new,
        )
