-- ===== src/Manager/Recover/Turns.antt =====
-- The search for the last item ends within its turns.
use jekv.Base.{
  ℕ, Option, Result-cases, arith, inl, inr, ok, refl, some, suc, sym, zero, ◌+◌, ◌≡◌, ◌≤◌,
}
use jekv.Item.Layout.{get_span_pos}
use jekv.Sector.Find.{FindCtx, find_item}
use jekv.Sector.Find.Sound.{find_item_end, found_behind}
use jekv.Sector.State.{Ctx}
use jekv.Manager.Recover.{last_loop, any_item, Driver, Item, entry_count, get_span}

module _ ⦃d : Driver⦄ where
  last_loop_end :
      (n : ℕ) (last : Option ℕ) (next : ℕ) (item : Item) (c : Ctx)
      → entry_count ≤ next
      → last_loop n last next item c ≡ (ok (last, item), c)
  unfolding last_loop
  last_loop_end zero last next item c h = refl
  last_loop_end (suc n) last next item c h =
      rw (find_item_end any_item next (record { flash = c.flash; sec = c.sec; item = item }) h) refl

  -- Where the turns and the slices in front of `next_index` are 127 together, more turns change
  -- nothing: the search for the last item has ended by itself.
  pub last_loop_fuel :
      (n m : ℕ) (last : Option ℕ) (next : ℕ) (item : Item) (c : Ctx)
      → entry_count ≤ n + next
      → entry_count ≤ m + next
      → last_loop n last next item c ≡ last_loop m last next item c
  unfolding last_loop
  last_loop_fuel zero m last next item c hn hm =
      sym (last_loop_end m last next item c (omega arith))
  last_loop_fuel (suc n) zero last next item c hn hm =
      last_loop_end (suc n) last next item c (omega arith)
  last_loop_fuel (suc n) (suc m) last next item c hn hm =
      elim (Result-cases (find_item any_item next here).0) [
        | inr (code, e) ↦ rw (e, last_loop) refl
        | inl (at, e) ↦
            let ge : next ≤ at = found_behind any_item next at here e in
            let item' = (find_item any_item next here).1.item in
            let on = get_span_pos item' in
            rw (e, last_loop)
              (last_loop_fuel n m (some at) (at + get_span item') item' _ (omega (arith, ge, on))
                (omega (arith, ge, on)))
      ]
    where
      here : FindCtx
      here = record { flash = c.flash; sec = c.sec; item = item }
