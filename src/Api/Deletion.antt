-- ===== src/Api/Deletion.antt =====
-- What jekv_set_... stores through a handle and jekv_del_key deletes, no jekv_get_... finds.
use jekv.Storage.Items.Deleted.{storage_read_item-storage_del_item}
use jekv.Storage.Items.{storage_write_item, storage_read_item, storage_del_item}
use jekv.Sector.Write.Program.{AllBytes}
use jekv.Storage.Items.Kept.{HasRoom}
use jekv.Port.Laws.{IsReliable}
use jekv.Base.{
  ℕ, ◌≡◌, ◌≢◌, true, List, some, ok, arith, length, ◌<◌, ◌≤◌, ap, ◌∙◌, err, not_found, lt→ltb,
}
use jekv.Config.{
  max_key_len, single_item_max_data_size, type_blob, type_blob_seg, type_any_without_seg,
}
use jekv.Port.{Driver}
use jekv.Ptm.{Handle, System}
use jekv.Storage.State.{Storage, StCtx}
use jekv.Api.Values.{get_item, is_value_type, read_value, set_item, del_key}
use jekv.Api.RoundTrip.{
  Writes, behind_call, behind_call_twice, on_storage_at, key_fits, value_type, valid_handle_open,
  behind_call-Writes, writable_handle_open,
}

no_seg : (type : ℕ) → is_value_type type ≡ true → type ≢ type_blob_seg
unfolding is_value_type
no_seg type typed = ground (arith, typed)

module _ ⦃d : Driver⦄ (reliable : IsReliable d) where
  -- With a reliable driver: where an open handle of a group id below 64 may write, its storage has
  -- one active sector that is ready and has the room, and no entry there has the hash of the key, a
  -- value of bytes of a type of values other than blob, of at most the size of one item, is set with
  -- OK under a key of 1 to 15 bytes; jekv_del_key through the same handle returns OK; and
  -- jekv_get_... of the key, as whatever type of values and with whatever buffer that is not empty,
  -- then answers NOT_FOUND and changes nothing.
  pub get_item-del_key :
      (turns h type : ℕ) (key buf : List ℕ) (i : ℕ) (s : System) (info : Handle) (st : Storage)
      (wanted size : ℕ)
      → Writes s h info st
      → HasRoom (record { flash = s.flash; storage = st }) i info.group_id type key buf
      → info.group_id < 64
      → is_value_type type ≡ true
      → type ≢ type_blob
      → 0 < length key
      → length key ≤ max_key_len
      → length buf ≤ single_item_max_data_size
      → AllBytes key
      → AllBytes buf
      → is_value_type wanted ≡ true
      → 0 < size
      → (s' : System) × (s'' : System) × (set_item turns (some h) type (some key) (some buf) s
          ≡ (ok tt, s'))
        × (del_key (some h) (some key) s' ≡ (ok tt, s''))
        × (get_item (some h) wanted (some key) true (some size) s''
            ≡ (ok (err not_found, size), s''))
  unfolding set_item get_item read_value del_key
  get_item-del_key turns h type key buf i s info st wanted size w has hg typed no_blob named short
        fits hk hb wanted_typed some_ =
      let a = info.storage in
      let c : StCtx = record { flash = s.flash; storage = st } in
      let (c', c'', wrote, deleted, read) =
        storage_read_item-storage_del_item reliable turns info.group_id type key buf i c wanted size
          has fits hg (value_type type typed) no_blob (no_seg type typed) hk hb in
      let s' = behind_call s a c' in
      let s'' = behind_call s' a c'' in
      let w' = behind_call-Writes s h info st w c' in
      let w'' = behind_call-Writes s' h info c'.storage w' c'' in
      let named_ok = key_fits (length key) named short in
      let roomy = lt→ltb 0 size some_ in
      let write =
        on_storage_at s a st (storage_write_item turns info.group_id type key buf) _ _ w.linked
          wrote in
      let deletion =
        on_storage_at s' a c'.storage (storage_del_item info.group_id type_any_without_seg key) _ _
          w'.linked deleted in
      let back =
        on_storage_at s'' a c''.storage (storage_read_item info.group_id wanted key size) _ _
          w''.linked read
        ∙ ap (λ z. (ok (err not_found, size), z)) (behind_call_twice s' a c'') in
      (
        s',
        s'',
        rw (set_item, typed, named_ok, writable_handle_open s h info st w) write,
        rw (del_key, writable_handle_open s' h info c'.storage w') deletion,
        rw (get_item, read_value, wanted_typed, roomy, valid_handle_open s'' h info c''.storage w'')
            back,
      )
