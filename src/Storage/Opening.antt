-- ===== src/Storage/Opening.antt =====
-- jekv_storage_open_group, jekv_storage_erase_group_id, jekv_storage_init and
-- jekv_storage_deinit of src/jekv_storage.c.
pub mod Asked
use jekv.Base.{
  ℕ, ◌>>=◌, ◌>>◌, Exec, List, [], err, if◌then◌else◌, is_ok, no_mem, no_space, none, ok, pure,
  raise, some, ◌==◌, ◌∷◌, fault, not, ◌*◌,
}
use jekv.Config.{type_uint8, group_itself_id, group_id_any, max_key_len}
use jekv.Port.{Flash, Driver}
use jekv.Item.{strnlen}
use jekv.Partition.{Partition}
use jekv.Manager.Load.{init_default, sm_load, sm_unload}
use jekv.Storage.State.{StCtx, Storage, Group, the_storage, on_sm, update_groups}
use jekv.Storage.Groups.{find_group, find_group_by_id, add_group, load_groups}
use jekv.Storage.Check.{blob_check}
use jekv.Storage.Items.{storage_write_item, storage_del_item}

module _ ⦃d : Driver⦄ where
  -- jekv_storage_open_group: the id. `turns` is that of the write.
  unfoldable pub open_group : ℕ → List ℕ → Exec StCtx ℕ
  unfolding find_group storage_write_item add_group
  open_group turns group = do
    storage ← the_storage
    let (found, id) = find_group storage.group_list group
    if is_ok found then pure id else if id == group_id_any then raise no_space else (do
      storage_write_item turns group_itself_id type_uint8 group (id ∷ [])
      add_group id group (strnlen group max_key_len)
      pure id)

  -- dl_list_del of the first group with this id.
  unfoldable pub remove_group : ℕ → List Group → List Group
  remove_group id [] = []
  remove_group id (g ∷ gs) = let rest = remove_group id gs in if g.id == id then gs else g ∷ rest

  -- jekv_storage_erase_group_id
  unfoldable pub erase_group_id : ℕ → Exec StCtx (Unit {0})
  unfolding find_group_by_id storage_del_item remove_group
  erase_group_id id = do
    storage ← the_storage
    elim (find_group_by_id storage.group_list id) [
      | none ↦ pure tt
      | some g ↦ (do
        storage_del_item group_itself_id type_uint8 g.name
        update_groups (remove_group id))
    ]

  -- sizeof(jekv_storage_t), on a 32-bit target.
  abbrev storage_bytes : ℕ
  storage_bytes = 80

  -- sizeof(jekv_sector_t), on a 32-bit target.
  abbrev sector_bytes : ℕ
  sector_bytes = 36

  -- jekv_storage_init of the partition on the device. Where the allocator refuses the array of
  -- sectors, which sm_init_default does not look at, the code goes on to write through NULL.
  unfoldable pub storage_init : Partition → Exec Flash StCtx
  unfolding init_default sm_load load_groups blob_check
  storage_init pt flash =
      if not (d.can_alloc storage_bytes)
      then (err no_mem, flash)
      else if not (d.can_alloc (pt.sec_num * sector_bytes))
      then (err fault, flash)
      else (let (r, c) =
            (do on_sm sm_load; load_groups; blob_check)
              (record {
                flash = flash;
                storage = record { sm = init_default pt; group_list = [] };
              }) in
          (elim r [ ok _ ↦ ok c | err code ↦ err code ], c.flash))

  -- jekv_storage_deinit
  unfoldable pub storage_deinit : Storage → Storage
  unfolding sm_unload
  storage_deinit storage = record { sm = sm_unload storage.sm; group_list = [] }
