-- ===== src/Sector/Copy/Turns.antt =====
-- The copy of a sector ends within its turns.
use jekv.Base.{ℕ, Exec, arith, ok, refl, suc, sym, zero, ◌+◌, ◌<◌, ◌≡◌, ◌≤◌}
use jekv.Item.Layout.{get_span_pos}
use jekv.Sector.Copy.{CopyCtx, copy_loop, copy_turn, Driver, entry_count}

module _ ⦃d : Driver⦄ where
  copy_turn_end :
      (k : ℕ → ℕ → Exec CopyCtx (Unit {0})) (src dst : ℕ) (c : CopyCtx)
      → entry_count ≤ src
      → copy_turn k src dst c ≡ (ok tt, c)
  unfolding copy_turn
  copy_turn_end k src dst c h = ground arith

  copy_turn_congr :
      (k l : ℕ → ℕ → Exec CopyCtx (Unit {0})) (src dst : ℕ) (c : CopyCtx)
      → ((src' dst' : ℕ) (c : CopyCtx) → src < src' → k src' dst' c ≡ l src' dst' c)
      → copy_turn k src dst c ≡ copy_turn l src dst c
  unfolding copy_turn
  copy_turn_congr k l src dst c h = grind (arith, get_span_pos)

  -- Where the turns and the slices in front of `src_index` are 127 together, more turns change
  -- nothing: the copy has ended by itself.
  pub copy_loop_fuel :
      (n m src dst : ℕ) (c : CopyCtx)
      → entry_count ≤ n + src
      → entry_count ≤ m + src
      → copy_loop n src dst c ≡ copy_loop m src dst c
  unfolding copy_loop
  copy_loop_fuel zero zero src dst c hn hm = refl
  copy_loop_fuel zero (suc m) src dst c hn hm =
      sym (copy_turn_end (copy_loop m) src dst c (omega arith))
  copy_loop_fuel (suc n) zero src dst c hn hm = copy_turn_end (copy_loop n) src dst c (omega arith)
  copy_loop_fuel (suc n) (suc m) src dst c hn hm =
      copy_turn_congr (copy_loop n) (copy_loop m) src dst c
        (λ src' dst' c' lt. copy_loop_fuel n m src' dst' c' (omega arith) (omega arith))
