-- ===== src/Manager/Load.antt =====
-- sm_init_default, sm_load_sectors, jekv_sm_load and jekv_sm_unload.
pub mod Order
use jekv.Base.{
  ℕ, Bool, Exec, List, [], attempt, if◌then◌else◌, length, ltb, none, not, pure, replicate, set,
  some, suc, u32, zero, ◌&&◌, ◌++◌, ◌+◌, ◌==◌, ◌||◌, ◌∷◌, ◌>>=◌, ◌>>◌,
}
use jekv.Config.{sector_state_crash, sector_state_invalid, sector_state_uninit}
use jekv.Port.{Driver}
use jekv.Hash.{hash_clear}
use jekv.Partition.{Partition}
use jekv.Sector.Load.{sector_load}
use jekv.Manager.State.{
  Manager, SmCtx, zero_sector, sector_at, the_sm, update_sm, on_sector, last_of, deref,
  move_to_idle,
}
use jekv.Manager.Request.{active_sector}
use jekv.Manager.Recover.{check_imcomplete_write, check_imcomplete_gc}

-- sm_init_default, where JEKV_CALLOC grants the array; `storage_init` has the other case.
unfoldable pub init_default : Partition → Manager
init_default pt = record {
  active = [];
  idle = [];
  pt = pt;
  sec_arr = replicate pt.sec_num (zero_sector pt);
  serial_number = 0;
}

abbrev pub is_idle_state : ℕ → Bool
is_idle_state state =
    state == sector_state_uninit || state == sector_state_crash || state == sector_state_invalid

-- The place of a sector among the active ones: before the first with a larger serial number.
unfoldable pub insert_active : Manager → ℕ → List ℕ → List ℕ
insert_active sm i [] = i ∷ []
insert_active sm i (j ∷ js) =
    let rest = insert_active sm i js in
    if ltb (sector_at sm i).serial_number (sector_at sm j).serial_number
    then i ∷ j ∷ js
    else j ∷ rest

unfoldable pub place_sector : ℕ → Manager → Manager
unfolding insert_active
place_sector i sm =
    if is_idle_state (sector_at sm i).state
    then record sm { idle = sm.idle ++ (i ∷ []) }
    else record sm { active = insert_active sm i sm.active }

module _ ⦃d : Driver⦄ where
  -- The loop over the array: `n` elements from `i` on.
  unfoldable pub load_loop : ℕ → ℕ → Exec SmCtx (Unit {0})
  unfolding sector_load place_sector
  load_loop zero i = pure tt
  load_loop (suc n) i = do
    sm ← the_sm
    on_sector i (sector_load sm.pt i)
    update_sm (place_sector i)
    load_loop n (i + 1)

  -- sm_load_sectors
  unfoldable pub load_sectors : Exec SmCtx (Unit {0})
  unfolding load_loop active_sector
  load_sectors = do
    sm ← the_sm
    load_loop sm.pt.sec_num 0
    sm ← the_sm
    elim (last_of sm.active) [
      | none ↦ (do update_sm (λ sm. record sm { serial_number = 1 }); active_sector)
      | some last ↦
          update_sm
            (λ sm. record sm { serial_number = u32 ((sector_at sm last).serial_number + 1) })
    ]

  -- The rollback at the end of jekv_sm_load.
  abbrev keep_idle_sector : Manager → Exec SmCtx (Unit {0})
  keep_idle_sector sm =
      if not sm.pt.readonly && length sm.idle == 0
      then (do last ← deref (last_of sm.active); update_sm (move_to_idle last))
      else pure tt

  -- jekv_sm_load. The results of the two checks are not looked at.
  unfoldable pub sm_load : Exec SmCtx (Unit {0})
  unfolding load_sectors check_imcomplete_write check_imcomplete_gc
  sm_load = do
    load_sectors
    attempt check_imcomplete_write
    attempt check_imcomplete_gc
    sm ← the_sm
    keep_idle_sector sm

unfoldable pub clear_active : List ℕ → Manager → Manager
unfolding hash_clear
clear_active [] sm = sm
clear_active (i ∷ is) sm =
    let sec = sector_at sm i in
    clear_active is
      (record sm { sec_arr = set sm.sec_arr i (record sec { hash = hash_clear sec.hash }) })

-- jekv_sm_unload, which then frees the array.
unfoldable pub sm_unload : Manager → Manager
unfolding clear_active
sm_unload sm = record (clear_active sm.active sm) { sec_arr = [] }
