-- ===== src/Sector/Load/Chain.antt =====
-- What the scan at the start makes of a sector whose entries were written completely.
use jekv.Sector.Write.Errors.{IsCounted}
use jekv.Item.Layout.{get_span_pos}
use jekv.Sector.Load.Scan.{scan_step_end}
use jekv.Port.{Flash}
use jekv.Base.{
  sym, ◌∙◌, ℕ, arith, le→leb, ok, refl, true, u32, ◌*◌, ◌+◌, ◌<◌, ◌≡◌, ◌≤◌, ◌⊎◌, Exec, Result, suc,
  zero, subst, sym,
}
use jekv.Port.Laws.{IsReliable, bytes_at}
use jekv.Sector.State.{Ctx, Sector, slice_offset}
use jekv.Sector.Find.First.{IsPlaced}
use jekv.Sector.Load.{
  count_item, Item, Driver, decode, item_state_using, entry_count, get_span, slice_size, crc_head,
  item_state_unused, item_state_droped, scan_loop, scan_step, set_next_free, update_slice_and_hash,
}
use jekv.Partition.{pt_read_raw, device_read, in_range}

-- The item at slice `i` of the sector that starts at device address `base`.
abbrev pub entry_at : Flash → ℕ → ℕ → Item
entry_at f base i = decode (bytes_at f (base + (i + 1) * slice_size) slice_size)

-- An entry that is in use with a right checksum, or dropped.
abbrev pub IsComplete : Item → Type 0
IsComplete item =
    ((item.state ≡ item_state_using) × (item.crc_item ≡ crc_head item))
    ⊎ (item.state ≡ item_state_droped)

-- From slice `i` complete entries lead, each followed by the next, to the first unused slice, or
-- to the end of the sector.
pub data Chain (f : Flash) (base end : ℕ) : ℕ → Type 0 where
  full : end ≡ entry_count → Chain f base end end
  unused :
      end < entry_count → (entry_at f base end).state ≡ item_state_unused → Chain f base end end
  entry :
      {i : ℕ}
      → i < entry_count
      → IsComplete (entry_at f base i)
      → Chain f base end (i + get_span (entry_at f base i))
      → Chain f base end i

Chain-le : (f : Flash) (base end i : ℕ) → Chain f base end i → (i ≤ end) × (end ≤ entry_count)
Chain-le f base end i (full e) = omega (arith, e)
Chain-le f base end i (unused lt e) = omega (arith, lt)
Chain-le f base end i (entry lt good rest) =
    omega (arith, Chain-le f base end (i + get_span (entry_at f base i)) rest)

-- The sector behind a part of the scan: its place is the same, and its counters are those of the
-- slices in front of `i`.
record IsScanned (f : Flash) (sec : Sector) (i : ℕ) (c : Ctx) : Type 0 where
  pub flash : c.flash ≡ f
  pub pt : c.sec.pt ≡ sec.pt
  pub address : c.sec.address ≡ sec.address
  pub used : c.sec.used_slice ≡ i
  pub droped : c.sec.droped_slice ≤ i

module _ ⦃d : Driver⦄ (reliable : IsReliable d) where
  read_raw_reliable :
      (f : Flash) (sec : Sector) (i : ℕ)
      → IsPlaced sec
      → i < entry_count
      → pt_read_raw sec.pt (slice_offset sec i) slice_size f
        ≡ (ok (bytes_at f (sec.pt.offset + sec.address + (i + 1) * slice_size) slice_size), f)
  unfolding pt_read_raw device_read
  read_raw_reliable f sec i placed lt =
      let a = sec.address + (i + 1) * slice_size in
      let e : u32 a ≡ a = omega (arith, placed) in
      let inside : in_range sec.pt (u32 a) slice_size ≡ true =
        le→leb (u32 (u32 a + slice_size)) sec.pt.size (omega (arith, placed)) in
      let at : u32 (sec.pt.offset + a) ≡ sec.pt.offset + sec.address + (i + 1) * slice_size =
        omega (arith, placed) in
      rw (inside, e, at, reliable.reads) refl

  count_item-IsScanned :
      (f : Flash) (sec : Sector) (i : ℕ) (item : Item) (c : Ctx)
      → IsComplete item
      → i + get_span item ≤ entry_count
      → IsScanned f sec i c
      → ((count_item i item c).0 ≡ ok tt)
        × IsScanned f sec (i + get_span item) (count_item i item c).1
  unfolding count_item
  count_item-IsScanned f sec i item c good room v = ground (arith, v)

  abbrev here : Ctx → ℕ → Item
  here c i = entry_at c.flash (c.sec.pt.offset + c.sec.address) i

  scan_step_unused :
      (k : ℕ → Exec Ctx (Unit {0})) (i : ℕ) (c : Ctx)
      → IsPlaced c.sec
      → i < entry_count
      → (here c i).state ≡ item_state_unused
      → scan_step k i c ≡ set_next_free i c
  unfolding scan_step
  scan_step_unused k i c placed lt e =
      ground (arith, e, read_raw_reliable c.flash c.sec i placed lt)

  scan_step_entry :
      (k : ℕ → Exec Ctx (Unit {0})) (i : ℕ) (c : Ctx)
      → IsPlaced c.sec
      → i < entry_count
      → IsComplete (here c i)
      → (count_item i (here c i) c).0 ≡ ok tt
      → scan_step k i c ≡ k (i + get_span (here c i)) (count_item i (here c i) c).1
  unfolding scan_step
  scan_step_entry k i c placed lt good counted =
      ground (arith, good, counted, read_raw_reliable c.flash c.sec i placed lt)

  -- What the scan is to leave.
  abbrev Scanned : Flash → Sector → ℕ → Result (Unit {0}) × Ctx → Type 0
  Scanned f sec end r = (r.0 ≡ ok tt) × (r.1.sec.next_free_slice ≡ end) × IsScanned f sec end r.1

  IsPlaced-of :
      (f : Flash) (sec : Sector) (i : ℕ) (c : Ctx)
      → IsPlaced sec
      → IsScanned f sec i c
      → IsPlaced c.sec
  IsPlaced-of f sec i c placed v = record {
    inside = rw (v.pt, v.address) placed.inside;
    addressed = rw v.pt placed.addressed;
  }

  here_of :
      (f : Flash) (sec : Sector) (i : ℕ) (c : Ctx)
      → IsScanned f sec i c
      → here c i ≡ entry_at f (sec.pt.offset + sec.address) i
  here_of f sec i c v = rw (v.flash, v.pt, v.address) refl

  scan_loop-Scanned :
      (n i end : ℕ) (f : Flash) (sec : Sector) (c : Ctx)
      → IsPlaced sec
      → entry_count ≤ n + i
      → IsScanned f sec i c
      → Chain f (sec.pt.offset + sec.address) end i
      → Scanned f sec end (scan_loop n i c)
  unfolding scan_loop
  scan_loop-Scanned zero i end f sec c placed enough v (full e) = (
    refl,
    sym e,
    record { flash = v.flash; pt = v.pt; address = v.address; used = v.used; droped = v.droped },
  )
  scan_loop-Scanned zero i end f sec c placed enough v (unused lt e) = absurd (omega arith)
  scan_loop-Scanned zero i end f sec c placed enough v (entry lt good rest) = absurd (omega arith)
  scan_loop-Scanned (suc n) i end f sec c placed enough v (full e) =
      rw (scan_step_end (scan_loop n) i c (omega (arith, e))) (
        refl,
        sym e,
        record {
          flash = v.flash;
          pt = v.pt;
          address = v.address;
          used = v.used;
          droped = v.droped;
        },
      )
  scan_loop-Scanned (suc n) i end f sec c placed enough v (unused lt e) =
      rw
        (scan_step_unused (scan_loop n) i c (IsPlaced-of f sec i c placed v) lt
          (subst (λ x. x.state ≡ item_state_unused) (sym (here_of f sec i c v)) e))
        (
          refl,
          omega (arith, lt),
          record {
            flash = v.flash;
            pt = v.pt;
            address = v.address;
            used = v.used;
            droped = v.droped;
          },
        )
  scan_loop-Scanned (suc n) i end f sec c placed enough v (entry lt good rest) =
      let item = entry_at f (sec.pt.offset + sec.address) i in
      let same = here_of f sec i c v in
      let le = Chain-le f (sec.pt.offset + sec.address) end (i + get_span item) rest in
      let on = get_span_pos item in
      let counted = count_item-IsScanned f sec i item c good (omega (arith, le)) v in
      let step =
        scan_step_entry (scan_loop n) i c (IsPlaced-of f sec i c placed v) lt
          (subst IsComplete (sym same) good)
          (subst (λ x. (count_item i x c).0 ≡ ok tt) (sym same) counted.0) in
      rw (step, same)
        (scan_loop-Scanned n (i + get_span item) end f sec (count_item i item c).1 placed
          (omega (arith, on)) counted.1 rest)

  -- With a reliable driver, where complete entries lead from the first slice of a sector in its
  -- partition to its first unused slice, or to its end, and its counters are 0, the scan at the
  -- start returns OK, finds that slice as the next free one, leaves the counters in order, and
  -- writes nothing to the device.
  pub update_slice_and_hash-Chain :
      (end : ℕ) (c : Ctx)
      → IsPlaced c.sec
      → c.sec.used_slice ≡ 0
      → c.sec.droped_slice ≡ 0
      → Chain c.flash (c.sec.pt.offset + c.sec.address) end 0
      → ((update_slice_and_hash c).0 ≡ ok tt)
        × ((update_slice_and_hash c).1.sec.next_free_slice ≡ end)
        × IsCounted (update_slice_and_hash c).1.sec
        × ((update_slice_and_hash c).1.flash ≡ c.flash)
  unfolding update_slice_and_hash
  update_slice_and_hash-Chain end c placed used droped chain =
      let v : IsScanned c.flash c.sec 0 c = record {
        flash = refl;
        pt = refl;
        address = refl;
        used = used;
        droped = omega (arith, droped);
      } in
      let r = scan_loop-Scanned entry_count 0 end c.flash c.sec c placed (omega arith) v chain in
      let le = Chain-le c.flash (c.sec.pt.offset + c.sec.address) end 0 chain in
      (
        r.0,
        r.1,
        record {
          room = omega (arith, r.1, le);
          used = r.2.used ∙ sym r.1;
          droped = omega (arith, r.2.used, r.2.droped);
        },
        r.2.flash,
      )
