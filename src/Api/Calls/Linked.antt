-- ===== src/Api/Calls/Linked.antt =====
-- Every call of the public interface keeps the lists of the partition manager linked, and so does
-- every sequence of calls.
use jekv.Config.{op_max, max_key_len}
use jekv.Ptm.Kept.{deinit-IsLinked, init-IsLinked, open_handle-IsLinked}
use jekv.Base.{
  ℕ, Bool, List, Option, invalid_param, invalid_handle, inl, inr, Option-cases, Bool-cases, arith,
  attempt, fail, false, if◌then◌else◌, leb, length, ltb, ◌&&◌, fault, none, some,
}
use jekv.Ptm.{
  Opened, is_in_using, find_storage, is_handle_valid, ptm_get_status, Platform, System, ptm_deinit,
}
use jekv.Ptm.Linked.{close_handle-IsLinked, IsFresh, IsLinked}
use jekv.Api.Sessions
use jekv.Api.Sessions.{erase_behind, stop_port, set_port, start_port}
use jekv.Api.Calls.{
  Call, perform, Reach, start, next, init, deinit, erase, open_handle, close, del_group, get_status,
  set_item, get_item, del_key, get_info, entry_find, entry_find_by_handle, entry_next, entry_info,
  entry_data, release_iterator, Driver, Flash,
}
use jekv.Api.Calls.Kept.{
  set_item-Keeps, get_item-Keeps, del_key-Keeps, del_group-Keeps, get_info-Keeps,
}
use jekv.Api.Calls.Cursors.{
  entry_find-Keeps, entry_find_by_handle-Keeps, entry_next-Keeps, entry_info-Keeps,
  entry_data-Keeps, release_iterator-Keeps,
}
use jekv.Api.Calls.Keeps.{Keeps, checked-Keeps, given-Keeps, bind-Keeps, raise-Keeps, give-Keeps}

set_port-Keeps : (on : Bool) → Keeps (set_port on)
set_port-Keeps on = record {
  keeps = λ s l. record { linked = l.linked; distinct = l.distinct; few = l.few };
}

erase_behind-Keeps : (found : Option Opened) → Keeps (erase_behind found)
erase_behind-Keeps none = raise-Keeps fault
erase_behind-Keeps (some o) = raise-Keeps fail

erase-Keeps : (name : Option (List ℕ)) → Keeps (Sessions.erase name)
unfolding Sessions.erase
erase-Keeps name = given-Keeps name (λ n. record {
  keeps =
      λ s. (erase_behind-Keeps (if is_in_using s then find_storage s.storages n else none)).keeps s;
})

close-Keeps : (handle : Option ℕ) → Keeps (Sessions.close handle)
unfolding Sessions.close
close-Keeps handle = given-Keeps handle (λ h. record {
  keeps = λ s.
      (checked-Keeps (is_handle_valid s.handles h) invalid_handle
          (record { keeps = close_handle-IsLinked h })).keeps
        s;
})

get_status-Keeps : (name : Option (List ℕ)) (out : Bool) → Keeps (Sessions.get_status name out)
unfolding Sessions.get_status ptm_get_status
get_status-Keeps name out = given-Keeps name (λ n. checked-Keeps out invalid_param (record {
  keeps = λ s l. elim (Option-cases (find_storage s.storages n)) [
    | inl e ↦ rw (e, ptm_get_status) l
    | inr (o, e) ↦ rw (e, ptm_get_status) l
  ];
}))

stop_port-Keeps : Keeps stop_port
unfolding stop_port
stop_port-Keeps = record {
  keeps = λ s l. elim (Bool-cases (is_in_using s)) [
    | inl e ↦ rw (e, stop_port) l
    | inr e ↦ rw (e, stop_port) ((set_port-Keeps false).keeps s l)
  ];
}

deinit-Keeps : (name : Option (List ℕ)) → Keeps (Sessions.deinit name)
unfolding Sessions.deinit
deinit-Keeps name = given-Keeps name (λ n. record {
  keeps = λ s.
      (checked-Keeps (is_in_using s && s.port_init) fail (
          bind-Keeps (attempt (ptm_deinit n)) (record { keeps = deinit-IsLinked n })
            (λ result. bind-Keeps stop_port stop_port-Keeps (λ u. give-Keeps result)))).keeps
        s;
})

module _ ⦃d : Driver⦄ ⦃p : Platform⦄ where
  start_port-Keeps : Keeps start_port
  unfolding start_port
  start_port-Keeps = record {
    keeps = λ s l. record { linked = l.linked; distinct = l.distinct; few = l.few };
  }

  init-Keeps : (name : Option (List ℕ)) → Keeps (Sessions.init name)
  unfolding Sessions.init
  init-Keeps name = given-Keeps name (λ n. record {
    keeps = λ s l. elim (Bool-cases s.port_init) [
      | inl e ↦
          rw (e, Sessions.init) (record { linked = l.linked; distinct = l.distinct; few = l.few })
      | inr e ↦
          rw (e, Sessions.init)
            ((bind-Keeps start_port start_port-Keeps
                (λ u. record { keeps = init-IsLinked n })).keeps
              s l)
    ];
  })

  module _ (fresh : IsFresh p) where
    open_handle-Keeps :
        (turns : ℕ) (name group : Option (List ℕ)) (mode : ℕ) (out : Bool)
        → Keeps (Sessions.open_handle turns name group mode out)
    unfolding Sessions.open_handle
    open_handle-Keeps turns name group mode out = given-Keeps name (λ n. given-Keeps group (λ g.
        checked-Keeps (out && ltb mode op_max) invalid_param (
          checked-Keeps (leb (length g) max_key_len) invalid_param
            (record { keeps = λ s. open_handle-IsLinked turns n g mode s fresh }))))

    perform-IsLinked :
        (turns : ℕ) (c : Call) (s : System) → IsLinked s → IsLinked (perform turns c s)
    unfolding perform
    perform-IsLinked turns (init name) = (init-Keeps name).keeps
    perform-IsLinked turns (deinit name) = (deinit-Keeps name).keeps
    perform-IsLinked turns (erase name) = (erase-Keeps name).keeps
    perform-IsLinked turns (open_handle name group mode out) =
        (open_handle-Keeps turns name group mode out).keeps
    perform-IsLinked turns (close handle) = (close-Keeps handle).keeps
    perform-IsLinked turns (del_group handle) = (del_group-Keeps handle).keeps
    perform-IsLinked turns (get_status name out) = (get_status-Keeps name out).keeps
    perform-IsLinked turns (set_item handle type key value) =
        (set_item-Keeps turns handle type key value).keeps
    perform-IsLinked turns (get_item handle type key out size) =
        (get_item-Keeps handle type key out size).keeps
    perform-IsLinked turns (del_key handle key) = (del_key-Keeps handle key).keeps
    perform-IsLinked turns (get_info handle key type_out size_out) =
        (get_info-Keeps handle key type_out size_out).keeps
    perform-IsLinked turns (entry_find name group type out) =
        (entry_find-Keeps name group type out).keeps
    perform-IsLinked turns (entry_find_by_handle handle type out) =
        (entry_find_by_handle-Keeps handle type out).keeps
    perform-IsLinked turns (entry_next iterator) = (entry_next-Keeps iterator).keeps
    perform-IsLinked turns (entry_info iterator out) = (entry_info-Keeps iterator out).keeps
    perform-IsLinked turns (entry_data iterator out size) =
        (entry_data-Keeps iterator out size).keeps
    perform-IsLinked turns (release_iterator iterator) = (release_iterator-Keeps iterator).keeps

    -- After any sequence of calls of the public interface, with any driver and an allocator that
    -- grants no address in use: every handle in the list is valid and points to a storage that is in
    -- use, no two handles have the same address, and there are 64 handles at most.
    pub Reach-IsLinked : {turns : ℕ} {flash : Flash} {s : System} → Reach turns flash s → IsLinked s
    Reach-IsLinked start = record { linked = tt; distinct = tt; few = omega arith }
    Reach-IsLinked {turns} (next c r) = perform-IsLinked turns c _ (Reach-IsLinked r)
