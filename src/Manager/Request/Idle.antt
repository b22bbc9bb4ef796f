-- ===== src/Manager/Request/Idle.antt =====
-- The idle sector that a garbage collection needs: a request leaves one.
use jekv.Base.{
  ◌>>=◌, ℕ, arith, length, ok, ℤ, ◌≡◌, ◌≤◌, Exec, List, Result, Result-cases, [], inl, inr, ◌++◌,
  ◌∷◌, Option-cases, none, pos, suc,
}
use jekv.Manager.State.{SmCtx, move_to_idle, on_sector, update_sm, first_of, without}
use jekv.Manager.Request.{
  active_sector, collect, garbage_collection, request_sector, Driver, copy_sector, open_new_sector,
  set_state, sector_state_deletting, sector_erase, find_dirtiest,
}

module _ ⦃d : Driver⦄ where
  -- Where the result is OK, an idle sector is left.
  abbrev LeavesIdle : Result (Unit {0}) × SmCtx → Type 0
  LeavesIdle r = r.0 ≡ ok tt → 1 ≤ length r.1.sm.idle

  -- What the last call of a sequence does for every state holds of the sequence.
  then_LeavesIdle :
      {A : Type 0} (m : Exec SmCtx A) (k : A → Exec SmCtx (Unit {0})) (c : SmCtx)
      → ((a : A) (c' : SmCtx) → LeavesIdle (k a c'))
      → LeavesIdle ((m >>= k) c)
  then_LeavesIdle m k c last = elim (Result-cases (m c).0) [
    | inl (a, e) ↦ rw e (last a (m c).1)
    | inr (code, e) ↦ rw e (λ h. ground (arith, h))
  ]

  length-snoc : (is : List ℕ) (i : ℕ) → 1 ≤ length (is ++ i ∷ [])
  length-snoc [] i = omega arith
  length-snoc (j ∷ js) i = omega arith

  move_to_idle_last : (i : ℕ) (c : SmCtx) → LeavesIdle (update_sm (move_to_idle i) c)
  move_to_idle_last i c h = length-snoc c.sm.idle i

  collect-LeavesIdle : (i : ℕ) (c : SmCtx) → LeavesIdle (collect i c)
  unfolding collect
  collect-LeavesIdle i c = then_LeavesIdle open_new_sector _ c (λ new_sec c'.
      then_LeavesIdle (on_sector i (set_state sector_state_deletting)) _ c' (λ u c''.
        then_LeavesIdle (copy_sector new_sec i) _ c'' (λ u' c3.
          then_LeavesIdle (on_sector i sector_erase) _ c3 (λ u'' c4. move_to_idle_last i c4))))

  length-without : (i : ℕ) (is : List ℕ) → length is ≤ suc (length (without i is))
  length-without i [] = omega arith
  length-without i (j ∷ js) = ground (arith, length-without i js)

  active_sector-idle : (c : SmCtx) → 2 ≤ length c.sm.idle → LeavesIdle (active_sector c)
  unfolding active_sector
  active_sector-idle c two h = elim (Option-cases (first_of c.sm.idle)) [
    | inl none_left ↦ ground (arith, none_left, h)
    | inr (i, e) ↦ ground (arith, e, h, two, length-without i c.sm.idle)
  ]

  garbage_collection-LeavesIdle : (need : ℤ) (c : SmCtx) → LeavesIdle (garbage_collection need c)
  unfolding garbage_collection
  garbage_collection-LeavesIdle need c =
      elim (Option-cases (find_dirtiest c.sm c.sm.active (pos 0) none).1) [
        | inl nothing ↦ ground (arith, nothing)
        | inr (i, e) ↦ ground (arith, e, collect-LeavesIdle i c)
      ]

  -- A request that succeeds leaves an idle sector for the next collection.
  pub request_sector-idle :
      (need : ℤ) (c : SmCtx)
      → (request_sector need c).0 ≡ ok tt
      → 1 ≤ length (request_sector need c).1.sm.idle
  unfolding request_sector
  request_sector-idle need c =
      ground (arith, active_sector-idle c, garbage_collection-LeavesIdle need c)
