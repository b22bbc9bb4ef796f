-- ===== src/Storage/State/Turns.antt =====
-- The walk over the items of a sector ends within its turns.
use jekv.Item.Layout.{get_span_pos}
use jekv.Manager.State.{sector_at, zero_sector}
use jekv.Config.{entry_count}
use jekv.Base.{
  ◌>>=◌, ℕ, Exec, Result-cases, arith, inl, inr, not_found, ok, refl, set, set-get_or, suc, sym,
  zero, ◌+◌, ◌≡◌, ◌≤◌,
}
use jekv.Sector.Find.{Query, FindCtx, find_item}
use jekv.Sector.Find.Sound.{find_item_end, found_behind}
use jekv.Storage.State.{StCtx, each_item, Driver, Item, get_span, Stop}

module _ ⦃d : Driver⦄ where
  bind_congr :
      {A B : Type 0} (m : Exec StCtx A) (k l : A → Exec StCtx B) (c : StCtx)
      → ((a : A) (c' : StCtx) → k a c' ≡ l a c')
      → (m >>= k) c ≡ (m >>= l) c
  bind_congr m k l c same = elim (Result-cases (m c).0) [
    | inl (a, e) ↦ rw e (same a (m c).1)
    | inr (code, e) ↦ rw e refl
  ]

module _ ⦃d : Driver⦄ {X : Type 0} where
  each_item_end :
      (n : ℕ) (q : Query) (i : ℕ) (body : ℕ → Item → X → Exec StCtx X) (index : ℕ) (item : Item)
      (x : X) (c : StCtx)
      → entry_count ≤ index
      → each_item n q i body index item x c
        ≡ (ok (record { code = not_found; item_index = index }, x), c)
  unfolding each_item
  each_item_end zero q i body index item x c h = refl
  each_item_end (suc n) q i body index item x c h =
      let sec = sector_at c.storage.sm i in
      let same : set c.storage.sm.sec_arr i sec ≡ c.storage.sm.sec_arr =
        set-get_or c.storage.sm.sec_arr i (zero_sector c.storage.sm.pt) in
      rw (find_item_end q index (record { flash = c.flash; sec = sec; item = item }) h, same) refl

  -- Where the turns and the slices in front of `item_index` are 127 together, more turns change
  -- nothing: the walk has ended by itself.
  pub each_item_fuel :
      (n m : ℕ) (q : Query) (i : ℕ) (body : ℕ → Item → X → Exec StCtx X) (index : ℕ) (item : Item)
      (x : X) (c : StCtx)
      → entry_count ≤ n + index
      → entry_count ≤ m + index
      → each_item n q i body index item x c ≡ each_item m q i body index item x c
  unfolding each_item
  each_item_fuel zero m q i body index item x c hn hm =
      sym (each_item_end m q i body index item x c (omega arith))
  each_item_fuel (suc n) zero q i body index item x c hn hm =
      each_item_end (suc n) q i body index item x c (omega arith)
  each_item_fuel (suc n) (suc m) q i body index item x c hn hm =
      elim (Result-cases (find_item q index here).0) [
        | inr (code, e) ↦ rw (e, each_item) refl
        | inl (at, e) ↦
            let ge : index ≤ at = found_behind q index at here e in
            let item' = (find_item q index here).1.item in
            let on = get_span_pos item' in
            let rest : ℕ → X → Exec StCtx (Stop × X) =
              λ turns. each_item turns q i body (at + get_span item') item' in
            rw (e, each_item)
              (bind_congr (body at item' x) (rest n) (rest m) _ (λ x' c'.
                each_item_fuel n m q i body (at + get_span item') item' x' c'
                  (omega (arith, ge, on)) (omega (arith, ge, on))))
      ]
    where
      here : FindCtx
      here = record { flash = c.flash; sec = sector_at c.storage.sm i; item = item }
