-- ===== src/Api/RoundTrip.antt =====
-- What jekv_set_... stores through a handle, the jekv_get_... of the same type returns.
use jekv.Storage.Items.{storage_write_item, storage_read_item}
use jekv.Sector.Write.Program.{AllBytes}
use jekv.Storage.Items.Kept.{HasRoom, storage_read_item-storage_write_item}
use jekv.Port.Laws.{IsReliable}
use jekv.Base.{
  ℕ, ◌≡◌, ◌≢◌, refl, true, false, ◌==◌, List, some, Result, ok, arith, Exec, [], length, ◌<◌, ◌∷◌,
  ◌≤◌, leb, ltb, ◌&&◌, ap, ◌∙◌, lt→ltb,
}
use jekv.Config.{op_read_only, max_key_len, single_item_max_data_size, type_blob}
use jekv.Port.{Driver}
use jekv.Ptm.{
  Handle, Opened, System, handle_at, storage_at, put_storage, on_storage, is_handle_valid,
}
use jekv.Storage.State.{Storage, StCtx}
use jekv.Api.Values.{
  deref_handle, valid_handle, writable_handle, get_item, is_value_type, read_value, set_item,
}

pub storage_at-put_storage :
    (os : List Opened) (a : ℕ) (st st' : Storage)
    → storage_at os a ≡ some st
    → storage_at (put_storage a st' os) a ≡ some st'
unfolding storage_at put_storage
storage_at-put_storage [] a st st' e = ground (arith, e)
storage_at-put_storage (o ∷ os) a st st' e = ground (arith, e, storage_at-put_storage os a st st')

put_storage_twice :
    (os : List Opened) (a : ℕ) (st : Storage)
    → put_storage a st (put_storage a st os) ≡ put_storage a st os
unfolding put_storage
put_storage_twice [] a st = refl
put_storage_twice (o ∷ os) a st = ground (arith, put_storage_twice os a st)

-- The system behind a call on the storage at `a`.
abbrev pub behind_call : System → ℕ → StCtx → System
behind_call s a c = record s { flash = c.flash; storages = put_storage a c.storage s.storages }

pub behind_call_twice :
    (s : System) (a : ℕ) (c : StCtx) → behind_call (behind_call s a c) a c ≡ behind_call s a c
behind_call_twice s a c =
    ap (λ os. record (behind_call s a c) { storages = os })
      (put_storage_twice s.storages a c.storage)

pub on_storage_at :
    {A : Type 0} (s : System) (a : ℕ) (st : Storage) (m : Exec StCtx A) (r : Result A) (c : StCtx)
    → storage_at s.storages a ≡ some st
    → m (record { flash = s.flash; storage = st }) ≡ (r, c)
    → on_storage a m s ≡ (r, behind_call s a c)
unfolding on_storage
on_storage_at s a st m r c e w = rw (on_storage, e, w) refl

-- An open handle that may write, on a storage that is in use.
pub record Writes (s : System) (h : ℕ) (info : Handle) (st : Storage) : Type 0 where
  pub listed : handle_at s.handles h ≡ some info
  pub valid : info.valid ≡ true
  pub mode : info.mode ≢ op_read_only
  pub linked : storage_at s.storages info.storage ≡ some st

module _ ⦃d : Driver⦄ (s : System) (h : ℕ) (info : Handle) (st : Storage)
    (w : Writes s h info st) where
  pub valid_handle_open : valid_handle h s ≡ (ok info, s)
  unfolding valid_handle is_handle_valid deref_handle
  valid_handle_open = ground (arith, w.listed, w.valid)

  -- The handle stays open on its storage behind a call on it.
  pub behind_call-Writes : (c : StCtx) → Writes (behind_call s info.storage c) h info c.storage
  behind_call-Writes c = record {
    listed = w.listed;
    valid = w.valid;
    mode = w.mode;
    linked = storage_at-put_storage s.storages info.storage st c.storage w.linked;
  }

  pub writable_handle_open : writable_handle h s ≡ (ok info, s)
  unfolding writable_handle
  writable_handle_open =
      let no : (info.mode == op_read_only) ≡ false = ground (arith, w.mode) in
      rw (writable_handle, valid_handle_open, no) refl

pub value_type : (type : ℕ) → is_value_type type ≡ true → type < 16
unfolding is_value_type
value_type type typed = ground (arith, typed)

-- The test of the length of a key.
pub key_fits : (n : ℕ) → 0 < n → n ≤ max_key_len → (ltb 0 n && leb n max_key_len) ≡ true
key_fits n some_ short = ground (arith, some_, short)

module _ ⦃d : Driver⦄ (reliable : IsReliable d) where
  -- With a reliable driver: where an open handle of a group id below 64 may write, its storage has
  -- one active sector that is ready and has the room, and no entry there has the hash of the key,
  -- jekv_set_... of a value of bytes of a type of values other than blob, of at most the size of one
  -- item, under a key of 1 to 15 bytes, returns OK; and jekv_get_... of that type, through the same
  -- handle and with a buffer that is not empty and large enough, then returns the same bytes and their
  -- number and changes nothing.
  pub get_item-set_item :
      (turns h type : ℕ) (key buf : List ℕ) (size i : ℕ) (s : System) (info : Handle) (st : Storage)
      → Writes s h info st
      → HasRoom (record { flash = s.flash; storage = st }) i info.group_id type key buf
      → info.group_id < 64
      → is_value_type type ≡ true
      → type ≢ type_blob
      → 0 < length key
      → length key ≤ max_key_len
      → length buf ≤ single_item_max_data_size
      → 0 < size
      → length buf ≤ size
      → AllBytes key
      → AllBytes buf
      → (s' : System) × (set_item turns (some h) type (some key) (some buf) s ≡ (ok tt, s'))
        × (get_item (some h) type (some key) true (some size) s' ≡ (ok (ok buf, length buf), s'))
  unfolding set_item get_item read_value
  get_item-set_item turns h type key buf size i s info st w has hg typed no_blob named short fits
        some_ large hk hb =
      let c : StCtx = record { flash = s.flash; storage = st } in
      let (c', wrote, read, ready, active) =
        storage_read_item-storage_write_item reliable turns info.group_id type key buf size i c has
          fits large hg (value_type type typed) no_blob hk hb in
      let s' = behind_call s info.storage c' in
      let w' = behind_call-Writes s h info st w c' in
      let named_ok = key_fits (length key) named short in
      let roomy = lt→ltb 0 size some_ in
      let write =
        on_storage_at s info.storage st (storage_write_item turns info.group_id type key buf) _ _
          w.linked wrote in
      let back =
        on_storage_at s' info.storage c'.storage (storage_read_item info.group_id type key size) _ _
          w'.linked read
        ∙ ap (λ z. (ok (ok buf, length buf), z)) (behind_call_twice s info.storage c') in
      (
        s',
        rw (set_item, typed, named_ok, writable_handle_open s h info st w) write,
        rw (get_item, read_value, typed, roomy, valid_handle_open s' h info c'.storage w') back,
      )
