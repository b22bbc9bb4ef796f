-- ===== src/Sector/Find/Search.antt =====
-- The search ends, reads only, and returns what it looks for.
use jekv.Hash.Index.{hash_find-ge}
use jekv.Item.Layout.{get_span_pos}
use jekv.Base.{
  ◌>>=◌, ℕ, Exec, arith, err, not_found, refl, suc, sym, zero, ◌+◌, ◌<◌, ◌≡◌, ◌≤◌, inl, inr,
  ℤ-cases, List, Option, Result, none, some, Bool-cases, ltb,
}
use jekv.Port.{Driver}
use jekv.Sector.Find.{
  Query, FindCtx, find_step, find_loop, hash_find, probe, look, Item, locate, read_slice, get_span,
}

module _ ⦃d : Driver⦄ where
  look_congr :
      (k l : ℕ → Exec FindCtx ℕ) (q : Query) (at : ℕ) (c : FindCtx)
      → ((next : ℕ) (c : FindCtx) → at < next → k next c ≡ l next c)
      → look k q at c ≡ look l q at c
  unfolding look
  look_congr k l q at c h =
      let c' = (read_slice at c).1 in
      ground (arith, h (at + get_span c'.item) c', get_span_pos c'.item)

  -- What holds of the second half at every slice from `start` on holds behind the first half.
  pub locate_rule {κ} :
      (P : Result ℕ × FindCtx → Type κ) (m : ℕ → Exec FindCtx ℕ) (q : Query) (o : Option (List ℕ))
      (start : ℕ) (c : FindCtx)
      → ((at : ℕ) (item : Item) → start ≤ at → P (m at (record c { item = item })))
      → ((item : Item) → P (err not_found, record c { item = item }))
      → P ((locate q o start >>= m) c)
  locate_rule P m q none start c found lost = found start c.item (omega arith)
  locate_rule P m q (some key) start c found lost =
      elim (ℤ-cases (hash_find c.sec.hash start (probe q key))) [
        | inl (at, f) ↦
            rw f (found at (probe q key) (hash_find-ge c.sec.hash start (probe q key) at f))
        | inr (k, f) ↦ rw f (lost (probe q key))
      ]

  locate_congr :
      (m n : ℕ → Exec FindCtx ℕ) (q : Query) (o : Option (List ℕ)) (start : ℕ) (c : FindCtx)
      → ((at : ℕ) (item : Item)
          → start ≤ at
          → m at (record c { item = item }) ≡ n at (record c { item = item }))
      → (locate q o start >>= m) c ≡ (locate q o start >>= n) c
  locate_congr m n q none start c same = same start c.item (omega arith)
  locate_congr m n q (some key) start c same =
      elim (ℤ-cases (hash_find c.sec.hash start (probe q key))) [
        | inl (at, f) ↦
            rw f (same at (probe q key) (hash_find-ge c.sec.hash start (probe q key) at f))
        | inr (k, f) ↦ rw f refl
      ]

  find_step_congr :
      (k l : ℕ → Exec FindCtx ℕ) (q : Query) (start end : ℕ) (c : FindCtx)
      → ((next : ℕ) (c : FindCtx) → start < next → k next c ≡ l next c)
      → find_step k q start end c ≡ find_step l q start end c
  unfolding find_step
  find_step_congr k l q start end c h = elim (Bool-cases (ltb start end)) [
    | inr e ↦ rw (e, find_step) refl
    | inl e ↦
        rw (e, find_step)
          (locate_congr (look k q) (look l q) q q.key start c (λ at item le.
            look_congr k l q at (record c { item = item }) (λ next c' lt. h next c' (omega arith))))
  ]

  pub find_step_end :
      (k : ℕ → Exec FindCtx ℕ) (q : Query) (start end : ℕ) (c : FindCtx)
      → end ≤ start
      → find_step k q start end c ≡ (err not_found, c)
  unfolding find_step
  find_step_end k q start end c h = ground arith

  -- Where the turns and the slices in front of `start` reach `end` together, more turns change
  -- nothing: the loop has ended by itself.
  pub find_loop_fuel :
      (n m : ℕ) (q : Query) (start end : ℕ) (c : FindCtx)
      → end ≤ n + start
      → end ≤ m + start
      → find_loop n q start end c ≡ find_loop m q start end c
  unfolding find_loop
  find_loop_fuel zero zero q start end c hn hm = refl
  find_loop_fuel zero (suc m) q start end c hn hm =
      sym (find_step_end (λ next. find_loop m q next end) q start end c (omega arith))
  find_loop_fuel (suc n) zero q start end c hn hm =
      find_step_end (λ next. find_loop n q next end) q start end c (omega arith)
  find_loop_fuel (suc n) (suc m) q start end c hn hm =
      find_step_congr (λ next. find_loop n q next end) (λ next. find_loop m q next end) q start end
        c (λ next c' lt. find_loop_fuel n m q next end c' (omega arith) (omega arith))
