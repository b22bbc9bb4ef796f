-- ===== src/Api/Sessions.antt =====
-- jekv_init, jekv_deinit, jekv_erase, jekv_open, jekv_close and jekv_get_status.
use jekv.Base.{
  ℕ, Bool, true, false, ◌&&◌, List, Option, none, some, length, ltb, leb, if◌then◌else◌, Exec, ok,
  ◌>>=◌, ◌>>◌, pure, raise, require, give, attempt, gets, fail, fault, invalid_param,
  invalid_handle,
}
use jekv.Config.{max_key_len, op_max}
use jekv.Port.{Driver}
use jekv.Ptm.{
  Opened, System, Platform, Status, is_in_using, find_storage, is_handle_valid, ptm_init,
  ptm_deinit, ptm_open_handle, ptm_close_handle, ptm_get_status,
}

-- A pointer that must not be NULL.
abbrev pub not_null : {A : Type 0} → Option A → Exec System A
not_null none = raise invalid_param
not_null (some a) = pure a

abbrev pub set_port : Bool → Exec System (Unit {0})
set_port on s = (ok tt, record s { port_init = on })

-- The end of jekv_erase: where no storage has been found, `storage` is NULL, and the code goes on to
-- read the partition through it.
abbrev pub erase_behind : Option Opened → Exec System (Unit {0})
erase_behind (some o) = raise fail
erase_behind none = raise fault

-- jekv_erase
unfoldable pub erase : Option (List ℕ) → Exec System (Unit {0})
unfolding is_in_using find_storage
erase name_ptr = do
  name ← not_null name_ptr
  found ← gets (λ s. if is_in_using s then find_storage s.storages name else none)
  erase_behind found

-- jekv_port_deinit, where no partition is in use any more.
unfoldable pub stop_port : Exec System (Unit {0})
unfolding is_in_using
stop_port s = if is_in_using s then (ok tt, s) else set_port false s

-- jekv_deinit
unfoldable pub deinit : Option (List ℕ) → Exec System (Unit {0})
unfolding is_in_using ptm_deinit stop_port
deinit name_ptr = do
  name ← not_null name_ptr
  s ← gets (λ s. s)
  require (is_in_using s && s.port_init) fail
  result ← attempt (ptm_deinit name)
  stop_port
  give result

-- jekv_close
unfoldable pub close : Option ℕ → Exec System (Unit {0})
unfolding is_handle_valid ptm_close_handle
close handle = do
  h ← not_null handle
  s ← gets (λ s. s)
  require (is_handle_valid s.handles h) invalid_handle
  ptm_close_handle h

-- jekv_get_status; `out` says whether `status` is not NULL.
unfoldable pub get_status : Option (List ℕ) → Bool → Exec System Status
unfolding ptm_get_status
get_status name_ptr out = do
  name ← not_null name_ptr
  require out invalid_param
  ptm_get_status name

module _ ⦃d : Driver⦄ ⦃p : Platform⦄ where
  -- jekv_port_init, which sets the mark also where it fails.
  unfoldable pub start_port : Exec System (Unit {0})
  start_port = do set_port true; give p.port_start

  -- jekv_init
  unfoldable pub init : Option (List ℕ) → Exec System (Unit {0})
  unfolding start_port ptm_init
  init name_ptr = do
    name ← not_null name_ptr
    s ← gets (λ s. s)
    elim s.port_init [ true ↦ pure tt | false ↦ (do start_port; ptm_init name) ]

  -- jekv_open: the address of the handle; `out` says whether `handle` is not NULL. A mode is
  -- a number from 0 on.
  unfoldable pub open_handle : ℕ → Option (List ℕ) → Option (List ℕ) → ℕ → Bool → Exec System ℕ
  unfolding ptm_open_handle
  open_handle turns name_ptr group_ptr mode out = do
    name ← not_null name_ptr
    group ← not_null group_ptr
    require (out && ltb mode op_max) invalid_param
    require (leb (length group) max_key_len) invalid_param
    ptm_open_handle turns name group mode
