-- ===== src/Api/Entries.antt =====
-- The calls on iterators of src/jekv_base.c.
use jekv.Base.{
  ℕ, Bool, ◌&&◌, List, Option, none, some, ltb, Exec, Result, ◌>>=◌, ◌>>◌, pure, require, gets,
  invalid_param, invalid_handle, fault, raise,
}
use jekv.Config.{type_blob_seg}
use jekv.Port.{Driver}
use jekv.Ptm.{System, Platform, Entry, is_handle_valid}
use jekv.Iterator.{
  look_up_type, iterator_find, iterator_find_by_handle, iterator_next, iterator_info, iterator_data,
  iterator_release,
}
use jekv.Api.Sessions.{not_null}

-- A call that may move the iterator: the code, and the pointer of the caller.
abbrev pub Move : Type 0
Move = Exec System (Result (Unit {0}) × Option ℕ)

module _ ⦃d : Driver⦄ ⦃p : Platform⦄ where
  -- jekv_entry_find; `out` says whether `output_iterator` is not NULL.
  unfoldable pub entry_find : Option (List ℕ) → Option (List ℕ) → ℕ → Bool → Move
  unfolding iterator_find look_up_type
  entry_find name_ptr group_ptr type out = do
    name ← not_null name_ptr
    group ← not_null group_ptr
    require (ltb type type_blob_seg && out) invalid_param
    iterator_find name (some group) (look_up_type type)

  -- jekv_entry_find_by_handle
  unfoldable pub entry_find_by_handle : Option ℕ → ℕ → Bool → Move
  unfolding iterator_find_by_handle is_handle_valid look_up_type
  entry_find_by_handle handle type out = do
    h ← not_null handle
    require (ltb type type_blob_seg && out) invalid_param
    s ← gets (λ s. s)
    require (is_handle_valid s.handles h) invalid_handle
    iterator_find_by_handle h (look_up_type type)

-- jekv_entry_info
unfoldable pub entry_info : Option ℕ → Bool → Exec System Entry
unfolding iterator_info
entry_info iterator out = do a ← not_null iterator; require out invalid_param; iterator_info a

module _ ⦃d : Driver⦄ where
  -- jekv_entry_next; the pointer behind `iterator` may be NULL itself, which is not looked at.
  unfoldable pub entry_next : Option (Option ℕ) → Move
  unfolding iterator_next
  entry_next iterator = do
    it ← not_null iterator
    elim it [ none ↦ raise fault | some a ↦ iterator_next a ]

  -- jekv_entry_data with a buffer of `*data_len` bytes.
  unfoldable pub entry_data : Option ℕ → Bool → Option ℕ → Exec System (Result (List ℕ) × ℕ)
  unfolding iterator_data
  entry_data iterator out size_ptr = do
    a ← not_null iterator
    size ← not_null size_ptr
    require (out && ltb 0 size) invalid_param
    iterator_data a size

-- jekv_release_iterator, which accepts NULL.
unfoldable pub release_iterator : Option ℕ → Exec System (Unit {0})
unfolding iterator_release
release_iterator none = pure tt
release_iterator (some a) = iterator_release a
