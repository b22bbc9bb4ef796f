-- ===== src/Manager/State.antt =====
-- jekv_sector_manager_t, and the inline functions of src/jekv_sector_manager.h.
use jekv.Base.{
  ℕ, Exec, List, Option, [], fault, get_or, if◌then◌else◌, none, ok, pure, raise, set, some, sub_ℕ,
  ℤ, ◌*◌, ◌++◌, ◌+◌, ◌∷◌, ◌==◌,
}
use jekv.Config.{entry_count, slice_size}
use jekv.Port.{Flash}
use jekv.Hash.{hash_init}
use jekv.Partition.{Partition}
use jekv.Sector.State.{Sector, Ctx}

-- A sector is named by its place in `sec_arr`; the linked lists are lists of such places, first to
-- last.
pub record Manager : Type 0 where
  pub active : List ℕ
  pub idle : List ℕ
  pub pt : Partition
  pub sec_arr : List Sector
  pub serial_number : ℕ

-- An element of the array as JEKV_CALLOC leaves it.
abbrev pub zero_sector : Partition → Sector
zero_sector pt = record {
  state = 0;
  version = 0;
  next_free_slice = 0;
  used_slice = 0;
  droped_slice = 0;
  address = 0;
  serial_number = 0;
  hash = hash_init;
  pt = pt;
}

abbrev pub sector_at : Manager → ℕ → Sector
sector_at sm i = get_or sm.sec_arr i (zero_sector sm.pt)

pub record SmCtx : Type 0 where
  pub flash : Flash
  pub sm : Manager

abbrev pub the_sm : Exec SmCtx Manager
the_sm c = (ok c.sm, c)

abbrev pub update_sm : (Manager → Manager) → Exec SmCtx (Unit {0})
update_sm g c = (ok tt, record c { sm = g c.sm })

-- A call of a sector function on the element `i` of the array.
abbrev pub on_sector : {A : Type 0} → ℕ → Exec Ctx A → Exec SmCtx A
on_sector i m c =
    let (r, c') = m (record { flash = c.flash; sec = sector_at c.sm i }) in
    (r, record { flash = c'.flash; sm = record c.sm { sec_arr = set c.sm.sec_arr i c'.sec } })

abbrev pub first_of : List ℕ → Option ℕ
first_of [] = none
first_of (i ∷ is) = some i

abbrev pub last_of : List ℕ → Option ℕ
last_of [] = none
last_of (i ∷ []) = some i
last_of (i ∷ j ∷ is) = last_of (j ∷ is)

-- dl_list_del
abbrev pub without : ℕ → List ℕ → List ℕ
without i [] = []
without i (j ∷ js) = let rest = without i js in if i == j then js else j ∷ rest

-- A pointer that must not be NULL.
abbrev pub deref : {S : Type 0} → Option ℕ → Exec S ℕ
deref none = raise fault
deref (some i) = pure i

-- jekv_sm_get_current_sector
abbrev pub get_current_sector : Manager → Option ℕ
get_current_sector sm = last_of sm.active

-- jekv_sm_get_gc_size and jekv_sm_get_free_size, on `int`.
abbrev pub get_gc_size : Sector → ℤ
get_gc_size sec =
    sub_ℕ ((entry_count + sec.droped_slice) * slice_size) (sec.used_slice * slice_size)

abbrev pub get_free_size : Sector → ℤ
get_free_size sec = sub_ℕ (entry_count * slice_size) (sec.used_slice * slice_size)

-- dl_list_del from one list and dl_list_add_tail to the other.
abbrev pub move_to_idle : ℕ → Manager → Manager
move_to_idle i sm = record sm { active = without i sm.active; idle = sm.idle ++ (i ∷ []) }

abbrev pub move_to_active : ℕ → Manager → Manager
move_to_active i sm = record sm { idle = without i sm.idle; active = sm.active ++ (i ∷ []) }
