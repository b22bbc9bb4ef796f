-- ===== src/Manager/Request.antt =====
-- sm_active_sector, sm_garbage_collection and jekv_sm_request_sector.
pub mod Idle
pub mod Dirtiest
use jekv.Base.{
  ℕ, Exec, List, Option, [], if◌then◌else◌, le_ℤ, length, lt_ℤ, no_mem, no_space, none, pos, pure,
  raise, require, set, some, u32, ℤ, ◌+◌, ◌||◌, ◌∷◌, ◌>>=◌, ◌>>◌, ◌==◌,
}
use jekv.Config.{
  sector_state_crash, sector_state_invalid, sector_state_uninit, sector_state_deletting,
}
use jekv.Port.{Driver}
use jekv.Sector.State.{Sector, sector_erase, sector_init, set_state}
use jekv.Sector.Copy.{sector_copy}
use jekv.Manager.State.{
  Manager, SmCtx, sector_at, the_sm, update_sm, on_sector, first_of, last_of, deref, get_gc_size,
  move_to_idle, move_to_active,
}

-- The loop over the active sectors that looks for the one with the most room to gain; the first
-- of several. Nothing is found where no sector has any.
unfoldable pub find_dirtiest : Manager → List ℕ → ℤ → Option ℕ → ℤ × Option ℕ
find_dirtiest sm [] most dirtiest = (most, dirtiest)
find_dirtiest sm (i ∷ is) most dirtiest =
    let size = get_gc_size (sector_at sm i) in
    let better = lt_ℤ most size in
    find_dirtiest sm is (if better then size else most) (if better then some i else dirtiest)

module _ ⦃d : Driver⦄ where
  abbrev erase_if_bad : ℕ → Sector → Exec SmCtx (Unit {0})
  erase_if_bad i sec =
      if sec.state == sector_state_crash || sec.state == sector_state_invalid
      then on_sector i sector_erase
      else pure tt

  -- sm_active_sector
  unfoldable pub active_sector : Exec SmCtx (Unit {0})
  unfolding sector_erase
  active_sector = do
    sm ← the_sm
    i ← deref (first_of sm.idle)
    erase_if_bad i (sector_at sm i)
    update_sm (λ sm. record (move_to_active i sm) {
      sec_arr = set sm.sec_arr i (record (sector_at sm i) { serial_number = sm.serial_number });
      serial_number = u32 (sm.serial_number + 1);
    })

  abbrev pub init_if_uninit : ℕ → Sector → Exec SmCtx (Unit {0})
  init_if_uninit i sec =
      if sec.state == sector_state_uninit then on_sector i sector_init else pure tt

  -- A call of jekv_sector_copy on two elements of the array.
  abbrev pub copy_sector : ℕ → ℕ → Exec SmCtx (Unit {0})
  copy_sector dst src c =
      let (r, c') =
        sector_copy
          (record { flash = c.flash; dst = sector_at c.sm dst; src = sector_at c.sm src }) in
      (
        r,
        record {
          flash = c'.flash;
          sm = record c.sm { sec_arr = set (set c.sm.sec_arr src c'.src) dst c'.dst };
        },
      )

  -- The new sector in front of which the collection works: the last active one.
  unfoldable pub open_new_sector : Exec SmCtx ℕ
  unfolding active_sector sector_init
  open_new_sector = do
    active_sector
    sm ← the_sm
    new_sec ← deref (last_of sm.active)
    init_if_uninit new_sec (sector_at sm new_sec)
    pure new_sec

  -- STEP1 to STEP4.
  unfoldable pub collect : ℕ → Exec SmCtx (Unit {0})
  unfolding open_new_sector set_state sector_copy sector_erase
  collect dirtiest = do
    new_sec ← open_new_sector
    on_sector dirtiest (set_state sector_state_deletting)
    copy_sector new_sec dirtiest
    on_sector dirtiest sector_erase
    update_sm (move_to_idle dirtiest)

  -- sm_garbage_collection
  unfoldable pub garbage_collection : ℤ → Exec SmCtx (Unit {0})
  unfolding find_dirtiest collect
  garbage_collection need_size = do
    sm ← the_sm
    let (most, dirtiest) = find_dirtiest sm sm.active (pos 0) none
    require (le_ℤ need_size most) no_space
    i ← deref dirtiest
    collect i

  -- jekv_sm_request_sector
  unfoldable pub request_sector : ℤ → Exec SmCtx (Unit {0})
  unfolding garbage_collection active_sector
  request_sector need_size = do
    sm ← the_sm
    if length sm.idle == 0
        then raise no_mem
        else if length sm.idle == 1
        then garbage_collection need_size
        else active_sector
