-- ===== src/Api/Calls/Kept.antt =====
-- The calls on values keep the lists of the partition manager linked.
use jekv.Base.{ℕ, Bool, List, Option, ltb, leb, length, ◌&&◌, invalid_param}
use jekv.Config.{max_key_len, type_any_without_seg}
use jekv.Port.{Driver}
use jekv.Storage.Items.{
  storage_write_item, storage_read_item, storage_del_item, storage_del_group, storage_find_key,
}
use jekv.Ptm.{on_storage}
use jekv.Api.Values
use jekv.Api.Values.{is_value_type, read_value, deref_handle, valid_handle, writable_handle}
use jekv.Api.Calls.Keeps.{
  Keeps, bind-Keeps, deref_handle-Keeps, on_storage-Keeps, valid_handle-Keeps, checked-Keeps,
  given-Keeps, pure-Keeps, writable_handle-Keeps,
}

module _ ⦃d : Driver⦄ where
  pub set_item-Keeps :
      (turns : ℕ) (handle : Option ℕ) (type : ℕ) (key value : Option (List ℕ))
      → Keeps (Values.set_item turns handle type key value)
  unfolding Values.set_item
  set_item-Keeps turns handle type key value = given-Keeps handle (λ h. given-Keeps key (λ k.
      given-Keeps value (λ v. checked-Keeps (is_value_type type) invalid_param (
        checked-Keeps (ltb 0 (length k) && leb (length k) max_key_len) invalid_param (
          bind-Keeps (writable_handle h) (writable_handle-Keeps h)
            (λ i. on_storage-Keeps i.storage (storage_write_item turns i.group_id type k v)))))))

  pub get_item-Keeps :
      (handle : Option ℕ) (type : ℕ) (key : Option (List ℕ)) (out : Bool) (size : Option ℕ)
      → Keeps (Values.get_item handle type key out size)
  unfolding Values.get_item read_value
  get_item-Keeps handle type key out size = given-Keeps handle (λ h. given-Keeps key (λ k.
      given-Keeps size (λ n. checked-Keeps (out && ltb 0 n && is_value_type type) invalid_param (
        bind-Keeps (valid_handle h) (valid_handle-Keeps h)
          (λ i. on_storage-Keeps i.storage (storage_read_item i.group_id type k n))))))

  pub del_key-Keeps :
      (handle : Option ℕ) (key : Option (List ℕ)) → Keeps (Values.del_key handle key)
  unfolding Values.del_key
  del_key-Keeps handle key = given-Keeps handle (λ h. given-Keeps key (λ k.
      bind-Keeps (writable_handle h) (writable_handle-Keeps h)
        (λ i. on_storage-Keeps i.storage (storage_del_item i.group_id type_any_without_seg k))))

  pub del_group-Keeps : (handle : Option ℕ) → Keeps (Values.del_group handle)
  unfolding Values.del_group
  del_group-Keeps handle = given-Keeps handle (λ h.
      bind-Keeps (deref_handle h) (deref_handle-Keeps h) (λ f. checked-Keeps f.valid invalid_param (
        bind-Keeps (writable_handle h) (writable_handle-Keeps h)
          (λ i. on_storage-Keeps i.storage (storage_del_group i.group_id)))))

  pub get_info-Keeps :
      (handle : Option ℕ) (key : Option (List ℕ)) (type_out size_out : Bool)
      → Keeps (Values.get_info handle key type_out size_out)
  unfolding Values.get_info
  get_info-Keeps handle key type_out size_out = given-Keeps handle (λ h. given-Keeps key (λ k.
      checked-Keeps (type_out && size_out) invalid_param (
        bind-Keeps (deref_handle h) (deref_handle-Keeps h) (λ i.
          bind-Keeps (on_storage i.storage (storage_find_key i.group_id k))
            (on_storage-Keeps i.storage (storage_find_key i.group_id k)) (λ item. pure-Keeps _)))))
