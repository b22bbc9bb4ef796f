-- ===== src/Manager/Query/Reads.antt =====
-- jekv_sector_find_item and jekv_sm_find_item read the device and do not change it.
use jekv.Item.{get_span}
use jekv.Port.{Flash}
use jekv.Partition.{pt_read_item, device_read}
use jekv.Base.{
  ℕ, Bool-cases, Exec, List, Result, Result-cases, [], arith, inl, inr, ltb, min, refl, suc, zero,
  ◌+◌, ◌-◌, ◌∙◌, ◌∷◌, ◌≡◌,
}
use jekv.Manager.State.{SmCtx, sector_at}
use jekv.Manager.Query.{sm_find_item, find_in, Driver, Item, entry_count}
use jekv.Sector.Find.{
  Query, FindCtx, Verdict, act_on, find_item, find_loop, find_step, read_slice, look, searchable,
  verdict,
}
use jekv.Sector.Find.Search.{locate_rule}

module _ ⦃d : Driver⦄ where
  read_slice-flash : (at : ℕ) (c : FindCtx) → (read_slice at c).1.flash ≡ c.flash
  unfolding read_slice pt_read_item device_read
  read_slice-flash at c = ground arith

  -- The device behind a search is `flash`.
  abbrev Keeps : Flash → Result ℕ × FindCtx → Type 0
  Keeps flash r = r.1.flash ≡ flash

  look-flash :
      (k : ℕ → Exec FindCtx ℕ) (q : Query) (at : ℕ) (c : FindCtx)
      → ((next : ℕ) (c : FindCtx) → (k next c).1.flash ≡ c.flash)
      → (look k q at c).1.flash ≡ c.flash
  unfolding look
  look-flash k q at c rest = elim (Result-cases (read_slice at c).0) [
    | inr (code, e) ↦ rw (e, look) (read_slice-flash at c)
    | inl (u, e) ↦ rw (e, look) (after (verdict q (read_slice at c).1.item))
  ]
    where
      after :
          (v : Verdict)
          → (act_on k at (read_slice at c).1.item v (read_slice at c).1).1.flash ≡ c.flash
      after Verdict.hit = read_slice-flash at c
      after Verdict.skip =
          rest (at + get_span (read_slice at c).1.item) (read_slice at c).1 ∙ read_slice-flash at c
      after Verdict.stop = read_slice-flash at c

  find_loop-flash :
      (fuel : ℕ) (q : Query) (start end : ℕ) (c : FindCtx)
      → (find_loop fuel q start end c).1.flash ≡ c.flash
  unfolding find_loop find_step
  find_loop-flash zero q start end c = refl
  find_loop-flash (suc fuel) q start end c = elim (Bool-cases (ltb start end)) [
    | inr e ↦ rw (e, find_step) refl
    | inl e ↦
        rw (e, find_step)
          (locate_rule (Keeps c.flash) (look (λ next. find_loop fuel q next end) q) q q.key start c
            (λ at item le.
              look-flash (λ next. find_loop fuel q next end) q at (record c { item = item })
                (λ next c'. find_loop-flash fuel q next end c'))
            (λ item. refl))
  ]

  pub find_item-flash :
      (q : Query) (start : ℕ) (c : FindCtx) → (find_item q start c).1.flash ≡ c.flash
  unfolding find_item
  find_item-flash q start c = elim (Bool-cases (searchable c.sec)) [
    | inr e ↦ rw (e, find_item) refl
    | inl e ↦ elim (Bool-cases (ltb start entry_count)) [
      | inr e' ↦ rw (e, e', find_item) refl
      | inl e' ↦
          let end = min c.sec.next_free_slice entry_count in
          rw (e, e', find_item) (find_loop-flash (end - start) q start end c)
    ]
  ]

  find_in-flash :
      (is : List ℕ) (q : Query) (start : ℕ) (item : Item) (c : SmCtx)
      → (find_in is q start item c).1.flash ≡ c.flash
  unfolding find_in
  find_in-flash [] q start item c = refl
  find_in-flash (i ∷ is) q start item c =
      let here : FindCtx = record { flash = c.flash; sec = sector_at c.sm i; item = item } in
      elim (Result-cases (find_item q start here).0) [
        | inl (at, e) ↦ rw (e, find_in) (find_item-flash q start here)
        | inr (code, e) ↦
            rw (e, find_in) (find_in-flash is q start _ _ ∙ find_item-flash q start here)
      ]

  -- A search through all sectors leaves the device as it is, whatever the driver answers.
  pub sm_find_item-flash :
      (q : Query) (start : ℕ) (item : Item) (c : SmCtx)
      → (sm_find_item q start item c).1.flash ≡ c.flash
  unfolding sm_find_item
  sm_find_item-flash q start item c = find_in-flash c.sm.active q start item c
