-- ===== src/Api/Calls/Cursors.antt =====
-- The calls on iterators keep the lists of the partition manager linked.
use jekv.Base.{
  ◌++◌, ◌∷◌, [], ℕ, Bool, List, Option, none, some, ltb, ◌&&◌, invalid_param, invalid_handle, fault,
  inl, inr, Option-cases, Bool-cases, Result-cases,
}
use jekv.Config.{type_blob_seg}
use jekv.Port.{Driver}
use jekv.Ptm.{Cursor, Platform, addresses, find_storage, is_handle_valid, handle_at, on_storage}
use jekv.Iterator.{
  iterator_next, iterator_find, iterator_find_by_handle, iterator_start, iterator_data,
  iterator_info, iterator_release, cursor_at, cursor_next, wanted_group, look_up_type, the_cursor,
  update_cursors, free_cursor, settle, new_cursor,
}
use jekv.Storage.Items.{storage_read_item}
use jekv.Api.Entries
use jekv.Api.Calls.Keeps.{
  Keeps, bind-Keeps, on_storage-Keeps, checked-Keeps, given-Keeps, pure-Keeps, raise-Keeps,
}

cursors-Keeps : (g : List Cursor → List Cursor) → Keeps (update_cursors g)
cursors-Keeps g = record {
  keeps = λ s l. record { linked = l.linked; distinct = l.distinct; few = l.few };
}

the_cursor-Keeps : (a : ℕ) → Keeps (the_cursor a)
the_cursor-Keeps a = record {
  keeps = λ s l. elim (Option-cases (cursor_at s.cursors a)) [
    | inl e ↦ rw (e, the_cursor) l
    | inr (i, e) ↦ rw (e, the_cursor) l
  ];
}

settle-Keeps : (a : ℕ) (moved : Option Cursor) → Keeps (settle a moved)
unfolding settle
settle-Keeps a none = record {
  keeps = λ s l. record { linked = l.linked; distinct = l.distinct; few = l.few };
}
settle-Keeps a (some it) = record {
  keeps = λ s l. record { linked = l.linked; distinct = l.distinct; few = l.few };
}

iterator_release-Keeps : (a : ℕ) → Keeps (iterator_release a)
unfolding iterator_release
iterator_release-Keeps a =
    bind-Keeps (the_cursor a) (the_cursor-Keeps a) (λ it. cursors-Keeps (free_cursor a))

iterator_info-Keeps : (a : ℕ) → Keeps (iterator_info a)
unfolding iterator_info
iterator_info-Keeps a = bind-Keeps (the_cursor a) (the_cursor-Keeps a) (λ it. pure-Keeps it.info)

module _ ⦃d : Driver⦄ where
  iterator_next-Keeps : (a : ℕ) → Keeps (iterator_next a)
  unfolding iterator_next
  iterator_next-Keeps a = bind-Keeps (the_cursor a) (the_cursor-Keeps a) (λ it.
      bind-Keeps (on_storage it.storage (cursor_next it))
        (on_storage-Keeps it.storage (cursor_next it)) (λ moved. settle-Keeps a moved))

  iterator_data-Keeps : (a size : ℕ) → Keeps (iterator_data a size)
  unfolding iterator_data
  iterator_data-Keeps a size = bind-Keeps (the_cursor a) (the_cursor-Keeps a) (λ it.
      on_storage-Keeps it.storage
        (storage_read_item it.info.group_id it.info.type it.info.key size))

module _ ⦃d : Driver⦄ ⦃p : Platform⦄ where
  iterator_start-Keeps : (storage group_id type : ℕ) → Keeps (iterator_start storage group_id type)
  unfolding iterator_start
  iterator_start-Keeps storage group_id type = record {
    keeps = λ s l. elim (Bool-cases (d.can_alloc 64)) [
      | inr e ↦ rw (e, iterator_start) l
      | inl e ↦
          rw (e, iterator_start)
            ((iterator_next-Keeps (p.fresh (addresses s))).keeps
              (record s {
                cursors =
                    s.cursors ++ (new_cursor (p.fresh (addresses s)) storage group_id type ∷ []);
              })
              (record { linked = l.linked; distinct = l.distinct; few = l.few }))
    ];
  }

  iterator_find-Keeps :
      (name : List ℕ) (group : Option (List ℕ)) (type : ℕ) → Keeps (iterator_find name group type)
  unfolding iterator_find
  iterator_find-Keeps name group type = record {
    keeps = λ s l. elim (Option-cases (find_storage s.storages name)) [
      | inl e ↦ rw (e, iterator_find) l
      | inr (o, e) ↦ elim (Result-cases (wanted_group o.storage.group_list group)) [
        | inr (code, f) ↦ rw (e, f, iterator_find) l
        | inl (id, f) ↦ rw (e, f, iterator_find) ((iterator_start-Keeps o.at id type).keeps s l)
      ]
    ];
  }

  by_handle-Keeps : (h type : ℕ) → Keeps (iterator_find_by_handle h type)
  unfolding iterator_find_by_handle
  by_handle-Keeps h type = record {
    keeps = λ s l. elim (Option-cases (handle_at s.handles h)) [
      | inl e ↦ rw (e, iterator_find_by_handle) l
      | inr (i, e) ↦
          rw (e, iterator_find_by_handle)
            ((iterator_start-Keeps i.storage i.group_id type).keeps s l)
    ];
  }

  pub entry_find-Keeps :
      (name group : Option (List ℕ)) (type : ℕ) (out : Bool)
      → Keeps (Entries.entry_find name group type out)
  unfolding Entries.entry_find
  entry_find-Keeps name group type out = given-Keeps name (λ n. given-Keeps group (λ g.
      checked-Keeps (ltb type type_blob_seg && out) invalid_param
        (iterator_find-Keeps n (some g) (look_up_type type))))

  pub entry_find_by_handle-Keeps :
      (handle : Option ℕ) (type : ℕ) (out : Bool)
      → Keeps (Entries.entry_find_by_handle handle type out)
  unfolding Entries.entry_find_by_handle
  entry_find_by_handle-Keeps handle type out = given-Keeps handle (λ h.
      checked-Keeps (ltb type type_blob_seg && out) invalid_param (record {
        keeps = λ s.
            (checked-Keeps (is_handle_valid s.handles h) invalid_handle
                (by_handle-Keeps h (look_up_type type))).keeps
              s;
      }))

module _ ⦃d : Driver⦄ where
  pub entry_next-Keeps : (iterator : Option (Option ℕ)) → Keeps (Entries.entry_next iterator)
  unfolding Entries.entry_next
  entry_next-Keeps none = raise-Keeps invalid_param
  entry_next-Keeps (some none) = raise-Keeps fault
  entry_next-Keeps (some (some a)) = iterator_next-Keeps a

  pub entry_data-Keeps :
      (iterator : Option ℕ) (out : Bool) (size : Option ℕ)
      → Keeps (Entries.entry_data iterator out size)
  unfolding Entries.entry_data
  entry_data-Keeps iterator out size = given-Keeps iterator (λ a.
      given-Keeps size
        (λ n. checked-Keeps (out && ltb 0 n) invalid_param (iterator_data-Keeps a n)))

pub entry_info-Keeps : (iterator : Option ℕ) (out : Bool) → Keeps (Entries.entry_info iterator out)
unfolding Entries.entry_info
entry_info-Keeps iterator out =
    given-Keeps iterator (λ a. checked-Keeps out invalid_param (iterator_info-Keeps a))

pub release_iterator-Keeps : (iterator : Option ℕ) → Keeps (Entries.release_iterator iterator)
unfolding Entries.release_iterator
release_iterator-Keeps none = pure-Keeps tt
release_iterator-Keeps (some a) = iterator_release-Keeps a
