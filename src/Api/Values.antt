-- ===== src/Api/Values.antt =====
-- The setters, getters and deletions of src/jekv_base.c.
use jekv.Base.{
  ℕ, zero, suc, ◌%◌, ◌/◌, Bool, not, ◌&&◌, List, [], ◌∷◌, ◌++◌, Option, none, some, length, ltb,
  leb, ◌==◌, if◌then◌else◌, Exec, Result, ok, err, ◌>>=◌, ◌>>◌, pure, require, gets, fault,
  invalid_param, invalid_handle, read_only,
}
use jekv.Config.{
  max_key_len, op_read_only, type_any, type_string, type_int8, type_uint8, type_int16, type_uint16,
  type_int32, type_uint32, type_int64, type_uint64, type_double, type_binary, type_blob,
  type_blob_seg, type_any_without_seg,
}
use jekv.Port.{Driver}
use jekv.Item.{all_size}
use jekv.Storage.Items.{
  storage_write_item, storage_read_item, storage_del_item, storage_del_group, storage_find_key,
}
use jekv.Ptm.{Handle, System, handle_at, on_storage, is_handle_valid}
use jekv.Api.Sessions.{not_null}

-- JEKV_TYPE_ANY and the types of segments are no types of values.
unfoldable pub is_value_type : ℕ → Bool
is_value_type type = ltb type_any type && ltb type type_blob_seg

-- The handle behind a pointer. The handles in the list are those that are allocated.
unfoldable pub deref_handle : ℕ → Exec System Handle
unfolding handle_at
deref_handle h s = elim (handle_at s.handles h) [ none ↦ (err fault, s) | some i ↦ (ok i, s) ]

-- if (!jekv_ptm_is_handle_valid(h)) return JEKV_ERR_INVALID_HANDLE; and what `h` points to.
unfoldable pub valid_handle : ℕ → Exec System Handle
unfolding is_handle_valid deref_handle
valid_handle h = do
  s ← gets (λ s. s)
  require (is_handle_valid s.handles h) invalid_handle
  deref_handle h

-- The same for a call that writes.
unfoldable pub writable_handle : ℕ → Exec System Handle
unfolding valid_handle
writable_handle h = do
  handle ← valid_handle h
  require (not (handle.mode == op_read_only)) read_only
  pure handle

-- The `n` bytes of a number in memory, lowest first.
unfoldable pub le_bytes : ℕ → ℕ → List ℕ
le_bytes zero v = []
le_bytes (suc n) v = v % 256 ∷ le_bytes n (v / 256)

module _ ⦃d : Driver⦄ where
  -- What get_item answers: the code or the bytes, and `*length`.
  abbrev pub Read : Type 0
  Read = Exec System (Result (List ℕ) × ℕ)

  -- get_item behind the checks of the parameters.
  unfoldable pub read_value : ℕ → ℕ → List ℕ → ℕ → Read
  unfolding valid_handle on_storage storage_read_item
  read_value h type key size = do
    handle ← valid_handle h
    on_storage handle.storage (storage_read_item handle.group_id type key size)

  -- get_item; `out` says whether `out_value` is not NULL, `size` is `*length`.
  unfoldable pub get_item : Option ℕ → ℕ → Option (List ℕ) → Bool → Option ℕ → Read
  unfolding read_value is_value_type
  get_item handle type key_ptr out size_ptr = do
    h ← not_null handle
    key ← not_null key_ptr
    size ← not_null size_ptr
    require (out && ltb 0 size && is_value_type type) invalid_param
    read_value h type key size

  -- set_item of a value of `length value` bytes.
  unfoldable pub set_item :
      ℕ → Option ℕ → ℕ → Option (List ℕ) → Option (List ℕ) → Exec System (Unit {0})
  unfolding writable_handle on_storage storage_write_item is_value_type
  set_item turns handle type key_ptr value_ptr = do
    h ← not_null handle
    key ← not_null key_ptr
    value ← not_null value_ptr
    require (is_value_type type) invalid_param
    require (ltb 0 (length key) && leb (length key) max_key_len) invalid_param
    info ← writable_handle h
    on_storage info.storage (storage_write_item turns info.group_id type key value)

  -- jekv_del_key
  unfoldable pub del_key : Option ℕ → Option (List ℕ) → Exec System (Unit {0})
  unfolding writable_handle on_storage storage_del_item
  del_key handle key_ptr = do
    h ← not_null handle
    key ← not_null key_ptr
    info ← writable_handle h
    on_storage info.storage (storage_del_item info.group_id type_any_without_seg key)

  -- jekv_del_group, which reads `valid` of the handle before it looks for the handle in the list.
  unfoldable pub del_group : Option ℕ → Exec System (Unit {0})
  unfolding writable_handle on_storage storage_del_group deref_handle
  del_group handle = do
    h ← not_null handle
    first ← deref_handle h
    require first.valid invalid_param
    info ← writable_handle h
    on_storage info.storage (storage_del_group info.group_id)

  -- jekv_get_info, which does not look for the handle in the list: the type and the size.
  unfoldable pub get_info : Option ℕ → Option (List ℕ) → Bool → Bool → Exec System (ℕ × ℕ)
  unfolding deref_handle on_storage storage_find_key
  get_info handle key_ptr type_out size_out = do
    h ← not_null handle
    key ← not_null key_ptr
    require (type_out && size_out) invalid_param
    info ← deref_handle h
    item ← on_storage info.storage (storage_find_key info.group_id key)
    pure (item.type, if item.type == type_blob then all_size item else item.length)

module _ ⦃d : Driver⦄ (turns : ℕ) (handle : Option ℕ) (key : Option (List ℕ)) where
  abbrev Write : Type 0
  Write = Exec System (Unit {0})

  -- jekv_set_str; the terminator is stored too.
  unfoldable pub set_str : Option (List ℕ) → Write
  unfolding set_item
  set_str value_ptr = do
    value ← not_null value_ptr
    set_item turns handle type_string key (some (value ++ (0 ∷ [])))

  unfoldable pub set_binary : Option (List ℕ) → Write
  unfolding set_item
  set_binary bytes = set_item turns handle type_binary key bytes

  unfoldable pub set_blob : Option (List ℕ) → Write
  unfolding set_item
  set_blob bytes = set_item turns handle type_blob key bytes

  -- The setters of numbers take the bit pattern of the value.
  unfoldable pub set_i8 : ℕ → Write
  unfolding set_item le_bytes
  set_i8 value = set_item turns handle type_int8 key (some (le_bytes 1 value))

  unfoldable pub set_u8 : ℕ → Write
  unfolding set_item le_bytes
  set_u8 value = set_item turns handle type_uint8 key (some (le_bytes 1 value))

  unfoldable pub set_i16 : ℕ → Write
  unfolding set_item le_bytes
  set_i16 value = set_item turns handle type_int16 key (some (le_bytes 2 value))

  unfoldable pub set_u16 : ℕ → Write
  unfolding set_item le_bytes
  set_u16 value = set_item turns handle type_uint16 key (some (le_bytes 2 value))

  unfoldable pub set_i32 : ℕ → Write
  unfolding set_item le_bytes
  set_i32 value = set_item turns handle type_int32 key (some (le_bytes 4 value))

  unfoldable pub set_u32 : ℕ → Write
  unfolding set_item le_bytes
  set_u32 value = set_item turns handle type_uint32 key (some (le_bytes 4 value))

  unfoldable pub set_i64 : ℕ → Write
  unfolding set_item le_bytes
  set_i64 value = set_item turns handle type_int64 key (some (le_bytes 8 value))

  unfoldable pub set_u64 : ℕ → Write
  unfolding set_item le_bytes
  set_u64 value = set_item turns handle type_uint64 key (some (le_bytes 8 value))

  unfoldable pub set_float : ℕ → Write
  unfolding set_item le_bytes
  set_float value = set_item turns handle type_double key (some (le_bytes 8 value))

module _ ⦃d : Driver⦄ (handle : Option ℕ) (key : Option (List ℕ)) (out : Bool) where
  unfoldable pub get_str : Option ℕ → Read
  unfolding get_item
  get_str size = get_item handle type_string key out size

  unfoldable pub get_binary : Option ℕ → Read
  unfolding get_item
  get_binary size = get_item handle type_binary key out size

  unfoldable pub get_blob : Option ℕ → Read
  unfolding get_item
  get_blob size = get_item handle type_blob key out size

  -- The getters of numbers return the bytes that are written to `*out_value`.
  unfoldable pub get_i8 : Read
  unfolding get_item
  get_i8 = get_item handle type_int8 key out (some 1)

  unfoldable pub get_u8 : Read
  unfolding get_item
  get_u8 = get_item handle type_uint8 key out (some 1)

  unfoldable pub get_i16 : Read
  unfolding get_item
  get_i16 = get_item handle type_int16 key out (some 2)

  unfoldable pub get_u16 : Read
  unfolding get_item
  get_u16 = get_item handle type_uint16 key out (some 2)

  unfoldable pub get_i32 : Read
  unfolding get_item
  get_i32 = get_item handle type_int32 key out (some 4)

  unfoldable pub get_u32 : Read
  unfolding get_item
  get_u32 = get_item handle type_uint32 key out (some 4)

  unfoldable pub get_i64 : Read
  unfolding get_item
  get_i64 = get_item handle type_int64 key out (some 8)

  unfoldable pub get_u64 : Read
  unfolding get_item
  get_u64 = get_item handle type_uint64 key out (some 8)

  unfoldable pub get_float : Read
  unfolding get_item
  get_float = get_item handle type_double key out (some 8)
