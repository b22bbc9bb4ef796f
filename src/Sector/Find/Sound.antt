-- ===== src/Sector/Find/Sound.antt =====
-- What a search has found, and that it finds the first item that matches.
use jekv.Sector.Find.Search.{locate_rule}
use jekv.Base.{
  ℕ, arith, ok, true, ◌≡◌, ◌≤◌, Exec, Result, err, Bool-cases, Result-cases, inl, inr, ltb, refl,
  suc, zero, ◌+◌, min, ◌-◌, not_found,
}
use jekv.Config.{item_state_using, entry_count}
use jekv.Port.{Driver, Flash}
use jekv.Partition.{pt_read_item, device_read}
use jekv.Sector.State.{slice_offset, Sector}
use jekv.Sector.Find.{
  Query, FindCtx, matches, read_slice, look, Verdict, find_item, find_loop, find_step, verdict,
  Item, hit, get_span, searchable, act_on,
}

-- The search from `start` over the sector `sec` on the device `flash` has come to slice `at`, and
-- the buffer holds its item, which is in use and matches; device and sector are as before.
pub record IsHit ⦃d : Driver⦄ (flash : Flash) (sec : Sector) (q : Query) (start at : ℕ)
    (c : FindCtx) : Type 0 where
  pub behind : start ≤ at
  pub same_flash : c.flash ≡ flash
  pub same_sec : c.sec ≡ sec
  pub read : (pt_read_item sec.pt (slice_offset sec at) flash).0 ≡ ok c.item
  pub using : c.item.state ≡ item_state_using
  pub matching : matches q c.item ≡ true

verdict-hit :
    (q : Query) (item : Item)
    → verdict q item ≡ hit
    → (item.state ≡ item_state_using) × (matches q item ≡ true)
unfolding verdict
verdict-hit q item h = ground arith

module _ ⦃d : Driver⦄ (flash : Flash) (sec : Sector) (q : Query) (start : ℕ) where
  -- The results that the search may give.
  abbrev pub Hits : Result ℕ × FindCtx → Type 0
  Hits (ok at, c) = IsHit flash sec q start at c
  Hits (err e, c) = Unit

  read_slice_lem :
      (at : ℕ) (c : FindCtx)
      → (read_slice at c).0 ≡ ok tt
      → c.flash ≡ flash
      → c.sec ≡ sec
      → ((read_slice at c).1.flash ≡ flash)
        × ((read_slice at c).1.sec ≡ sec)
        × ((pt_read_item sec.pt (slice_offset sec at) flash).0 ≡ ok (read_slice at c).1.item)
  unfolding read_slice pt_read_item device_read
  read_slice_lem at c h ef es = ground arith

  look-Hits :
      (k : ℕ → Exec FindCtx ℕ) (at : ℕ) (c : FindCtx)
      → c.flash ≡ flash
      → c.sec ≡ sec
      → start ≤ at
      → ((next : ℕ) (c : FindCtx) → c.flash ≡ flash → c.sec ≡ sec → start ≤ next → Hits (k next c))
      → Hits (look k q at c)
  unfolding look
  look-Hits k at c ef es le rest = elim (Result-cases (read_slice at c).0) [
    | inl (u, e) ↦ rw (e, look) (after (verdict q c'.item) refl (read_slice_lem at c e ef es))
    | inr (code, e) ↦ rw (e, look) tt
  ]
    where
      c' : FindCtx
      c' = (read_slice at c).1

      after :
          (v : Verdict)
          → verdict q c'.item ≡ v
          → (c'.flash ≡ flash)
            × (c'.sec ≡ sec)
            × ((pt_read_item sec.pt (slice_offset sec at) flash).0 ≡ ok c'.item)
          → Hits (act_on k at c'.item v c')
      after Verdict.hit e r = ground (arith, verdict-hit q c'.item e)
      after Verdict.skip e r = rest (at + get_span c'.item) c' r.0 r.1 (omega arith)
      after Verdict.stop e r = tt

  find_loop-Hits :
      (fuel at end : ℕ) (c : FindCtx)
      → c.flash ≡ flash
      → c.sec ≡ sec
      → start ≤ at
      → Hits (find_loop fuel q at end c)
  unfolding find_loop find_step
  find_loop-Hits zero at end c ef es le = tt
  find_loop-Hits (suc fuel) at end c ef es le = elim (Bool-cases (ltb at end)) [
    | inr e ↦ rw (e, find_step) tt
    | inl e ↦
        rw (e, find_step)
          (locate_rule Hits (look (λ next. find_loop fuel q next end) q) q q.key at c
            (λ at' item le'.
              look-Hits (λ next. find_loop fuel q next end) at' (record c { item = item }) ef es
                (omega arith) (λ next c' ef' es' le'. find_loop-Hits fuel next end c' ef' es' le'))
            (λ item. tt))
  ]

-- Whatever the driver does and the index holds: what a search returns stands at or behind `start`,
-- is what the partition reads there, is in use and meets the query; and a search that finds
-- something has changed neither the device nor the sector.
pub find_item-Hits :
    ⦃d : Driver⦄ (q : Query) (start : ℕ) (c : FindCtx)
    → Hits c.flash c.sec q start (find_item q start c)
unfolding find_item
find_item-Hits q start c = elim (Bool-cases (searchable c.sec)) [
  | inr e ↦ rw (e, find_item) tt
  | inl e ↦ elim (Bool-cases (ltb start entry_count)) [
    | inr e' ↦ rw (e, e', find_item) tt
    | inl e' ↦
        let end = min c.sec.next_free_slice entry_count in
        rw (e, e', find_item)
          (find_loop-Hits c.flash c.sec q start (end - start) start end c refl refl (omega arith))
  ]
]

module _ ⦃d : Driver⦄ where
  -- From the last slice on, a search finds nothing and changes nothing.
  pub find_item_end :
      (q : Query) (start : ℕ) (c : FindCtx)
      → entry_count ≤ start
      → find_item q start c ≡ (err not_found, c)
  unfolding find_item
  find_item_end q start c h = ground arith

  pub found_behind :
      (q : Query) (start at : ℕ) (c : FindCtx) → (find_item q start c).0 ≡ ok at → start ≤ at
  found_behind q start at c e = behind_of (find_item q start c) e (find_item-Hits q start c)
    where
      behind_of : (r : Result ℕ × FindCtx) → r.0 ≡ ok at → Hits c.flash c.sec q start r → start ≤ at
      behind_of (ok found, c') e' this = ground (arith, e', this.behind)
      behind_of (err code, c') e' none_found = ground (arith, e')
