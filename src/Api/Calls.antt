-- ===== src/Api/Calls.antt =====
-- Programs as sequences of calls of the public interface.
pub mod Keeps
pub mod Kept
pub mod Cursors
pub mod Linked
use jekv.Base.{ℕ, Bool, List, [], Option, false}
use jekv.Port.{Flash, Driver}
use jekv.Ptm.{System, Platform}
use jekv.Api.Sessions
use jekv.Api.Values
use jekv.Api.Entries

-- A call with its arguments. The typed setters and getters are calls of set_item and get_item.
pub data Call : Type 0 where
  init deinit erase : Option (List ℕ) → Call
  open_handle : Option (List ℕ) → Option (List ℕ) → ℕ → Bool → Call
  close del_group : Option ℕ → Call
  get_status : Option (List ℕ) → Bool → Call
  set_item : Option ℕ → ℕ → Option (List ℕ) → Option (List ℕ) → Call
  get_item : Option ℕ → ℕ → Option (List ℕ) → Bool → Option ℕ → Call
  del_key : Option ℕ → Option (List ℕ) → Call
  get_info : Option ℕ → Option (List ℕ) → Bool → Bool → Call
  entry_find : Option (List ℕ) → Option (List ℕ) → ℕ → Bool → Call
  entry_find_by_handle : Option ℕ → ℕ → Bool → Call
  entry_next : Option (Option ℕ) → Call
  entry_info : Option ℕ → Bool → Call
  entry_data : Option ℕ → Bool → Option ℕ → Call
  release_iterator : Option ℕ → Call

-- The program before its first call.
abbrev pub at_start : Flash → System
at_start flash = record {
  flash = flash;
  port_init = false;
  storages = [];
  handles = [];
  cursors = [];
}

module _ ⦃d : Driver⦄ ⦃p : Platform⦄ where
  -- What a call leaves behind; `turns` bounds the loop of each write of a blob.
  unfoldable pub perform : ℕ → Call → System → System
  unfolding Sessions.init Sessions.deinit Sessions.erase Sessions.open_handle Sessions.close
      Sessions.get_status Values.set_item Values.get_item Values.del_key Values.del_group
      Values.get_info Entries.entry_find Entries.entry_find_by_handle Entries.entry_next
      Entries.entry_info Entries.entry_data Entries.release_iterator
  perform turns (init name) s = (Sessions.init name s).1
  perform turns (deinit name) s = (Sessions.deinit name s).1
  perform turns (erase name) s = (Sessions.erase name s).1
  perform turns (open_handle name group mode out) s =
      (Sessions.open_handle turns name group mode out s).1
  perform turns (close handle) s = (Sessions.close handle s).1
  perform turns (del_group handle) s = (Values.del_group handle s).1
  perform turns (get_status name out) s = (Sessions.get_status name out s).1
  perform turns (set_item handle type key value) s =
      (Values.set_item turns handle type key value s).1
  perform turns (get_item handle type key out size) s =
      (Values.get_item handle type key out size s).1
  perform turns (del_key handle key) s = (Values.del_key handle key s).1
  perform turns (get_info handle key type_out size_out) s =
      (Values.get_info handle key type_out size_out s).1
  perform turns (entry_find name group type out) s = (Entries.entry_find name group type out s).1
  perform turns (entry_find_by_handle handle type out) s =
      (Entries.entry_find_by_handle handle type out s).1
  perform turns (entry_next iterator) s = (Entries.entry_next iterator s).1
  perform turns (entry_info iterator out) s = (Entries.entry_info iterator out s).1
  perform turns (entry_data iterator out size) s = (Entries.entry_data iterator out size s).1
  perform turns (release_iterator iterator) s = (Entries.release_iterator iterator s).1

  -- The states that calls lead to from the start.
  pub data Reach (turns : ℕ) (flash : Flash) : System → Type 0 where
    start : Reach turns flash (at_start flash)
    next : {s : System} (c : Call) → Reach turns flash s → Reach turns flash (perform turns c s)
