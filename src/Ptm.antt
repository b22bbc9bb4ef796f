-- ===== src/Ptm.antt =====
-- src/jekv_partition_manager.c and src/jekv_handler.c: the storages of the partitions in use, and
-- the handles that are open on them.
pub mod Linked
pub mod Kept
pub mod Grants
use jekv.Base.{
  ℕ, ◌+◌, Bool, true, false, not, ◌&&◌, List, [], ◌∷◌, ◌++◌, Option, none, some, map, length, leb,
  ◌==◌, u8, if◌then◌else◌, Exec, Result, ok, err, ◌>>=◌, ◌>>◌, raise, require, gets, fail, fault,
  no_mem, not_init, not_found, aready_init, read_only, invalid_handle,
}
use jekv.Config.{max_handle_num, op_read_write}
use jekv.Port.{Flash, Driver}
use jekv.Partition.{PartitionItem, pt_init}
use jekv.Manager.Query.{SizeStatus, sm_get_status}
use jekv.Storage.State.{Storage, StCtx}
use jekv.Storage.Groups.{strcmp_eq}
use jekv.Storage.Opening.{open_group, storage_init}

-- jekv_handle_info_t, at its address; `storage` is the address of the storage.
pub record Handle : Type 0 where
  pub at : ℕ
  pub storage : ℕ
  pub group_id : ℕ
  pub valid : Bool
  pub mode : ℕ

-- A jekv_storage_t at its address.
pub record Opened : Type 0 where
  pub at : ℕ
  pub storage : Storage

-- jekv_entry_t
pub record Entry : Type 0 where
  pub group : List ℕ
  pub key : List ℕ
  pub type : ℕ
  pub group_id : ℕ
  pub length : ℕ

-- jekv_iterator_info_t, at its address; `sector` is the place of the sector, `none` for NULL.
pub record Cursor : Type 0 where
  pub at : ℕ
  pub storage : ℕ
  pub sector : Option ℕ
  pub slice_index : ℕ
  pub group_id : ℕ
  pub type : ℕ
  pub info : Entry

-- The device, `g_port_init`, `g_storage_list`, `g_handle_list`, and the iterators that have been
-- allocated.
pub record System : Type 0 where
  pub flash : Flash
  pub port_init : Bool
  pub storages : List Opened
  pub handles : List Handle
  pub cursors : List Cursor

-- What this layer takes from the platform: the address that the allocator grants while others are
-- in use, jekv_partition_get_info, and what the first jekv_port_init answers.
pub record Platform : Type 0 where
  pub fresh : List ℕ → ℕ
  pub partition_info : List ℕ → Result PartitionItem
  pub port_start : Result (Unit {0})

abbrev pub addresses : System → List ℕ
addresses s =
    map (λ (o : Opened). o.at) s.storages
    ++ (map (λ (h : Handle). h.at) s.handles ++ map (λ (c : Cursor). c.at) s.cursors)

-- What an address of a storage points to.
unfoldable pub storage_at : List Opened → ℕ → Option Storage
storage_at [] a = none
storage_at (o ∷ os) a = if o.at == a then some o.storage else storage_at os a

unfoldable pub put_storage : ℕ → Storage → List Opened → List Opened
put_storage a st [] = []
put_storage a st (o ∷ os) =
    (if o.at == a then record o { storage = st } else o) ∷ put_storage a st os

unfoldable pub handle_at : List Handle → ℕ → Option Handle
handle_at [] a = none
handle_at (h ∷ hs) a = if h.at == a then some h else handle_at hs a

-- A call of a function of the storage behind a pointer.
unfoldable pub on_storage : {A : Type 0} → ℕ → Exec StCtx A → Exec System A
unfolding storage_at put_storage
on_storage a m s = elim (storage_at s.storages a) [
  | none ↦ (err fault, s)
  | some st ↦
      let (r, c) = m (record { flash = s.flash; storage = st }) in
      (r, record s { flash = c.flash; storages = put_storage a c.storage s.storages })
]

-- jekv_ptm_is_in_using
unfoldable pub is_in_using : System → Bool
is_in_using s = elim s.storages [ [] ↦ false | o ∷ os ↦ true ]

-- jekv_ptm_find_storage
unfoldable pub find_storage : List Opened → List ℕ → Option Opened
unfolding strcmp_eq
find_storage [] name = none
find_storage (o ∷ os) name =
    if strcmp_eq o.storage.sm.pt.name name then some o else find_storage os name

-- jekv_ptm_is_handle_valid
unfoldable pub is_handle_valid : List Handle → ℕ → Bool
unfolding handle_at
is_handle_valid hs a = elim (handle_at hs a) [ none ↦ false | some h ↦ h.valid ]

-- The loop of jekv_ptm_deinit: the handles that stay, those of other storages.
unfoldable pub without_storage : ℕ → List Handle → List Handle
without_storage a [] = []
without_storage a (h ∷ hs) =
    let rest = without_storage a hs in if h.storage == a then rest else h ∷ rest

-- dl_list_del and JEKV_FREE of one handle, and of one storage.
unfoldable pub without_handle : ℕ → List Handle → List Handle
without_handle a [] = []
without_handle a (h ∷ hs) = let rest = without_handle a hs in if h.at == a then hs else h ∷ rest

unfoldable pub close_storage : ℕ → List Opened → List Opened
close_storage a [] = []
close_storage a (o ∷ os) = let rest = close_storage a os in if o.at == a then os else o ∷ rest

-- The loop of jekv_ptm_get_status over the handles; `handle_num` is a `uint8_t`.
unfoldable pub count_handles : ℕ → List Handle → ℕ → ℕ
count_handles a [] n = n
count_handles a (h ∷ hs) n = count_handles a hs (if h.storage == a then u8 (n + 1) else n)

-- jekv_status_t
pub record Status : Type 0 where
  pub sizes : SizeStatus
  pub group_num : ℕ
  pub handle_num : ℕ

-- jekv_ptm_get_status
unfoldable pub ptm_get_status : List ℕ → Exec System Status
unfolding find_storage count_handles sm_get_status
ptm_get_status name s = elim (find_storage s.storages name) [
  | none ↦ (err not_init, s)
  | some o ↦ (
    ok (record {
      sizes = sm_get_status o.storage.sm;
      group_num = u8 (length o.storage.group_list);
      handle_num = count_handles o.at s.handles 0;
    }),
    s,
  )
]

-- jekv_ptm_deinit. jekv_storage_deinit frees what the storage owns and always returns OK. The
-- list head is set when the program starts, so that the first test of the code never holds.
unfoldable pub ptm_deinit : List ℕ → Exec System (Unit {0})
unfolding find_storage without_storage close_storage
ptm_deinit name s = elim (find_storage s.storages name) [
  | none ↦ (err not_found, s)
  | some o ↦ (
    ok tt,
    record s { handles = without_storage o.at s.handles; storages = close_storage o.at s.storages },
  )
]

-- jekv_handler_close of a handle in the list, and the loop of jekv_ptm_close_handle.
unfoldable pub ptm_close_handle : ℕ → Exec System (Unit {0})
unfolding handle_at without_handle
ptm_close_handle a s = elim (handle_at s.handles a) [
  | none ↦ (err invalid_handle, s)
  | some h ↦ (ok tt, record s { handles = without_handle a s.handles })
]

module _ ⦃d : Driver⦄ ⦃p : Platform⦄ where
  -- sizeof(jekv_handle_info_t), on a 32-bit target.
  abbrev handle_bytes : ℕ
  handle_bytes = 20

  -- jekv_handler_open, and dl_list_add_tail of the new handle: its address.
  unfoldable pub handler_open : ℕ → ℕ → ℕ → Exec System ℕ
  handler_open storage group_id mode s =
      if d.can_alloc handle_bytes
      then (let a = p.fresh (addresses s) in
          let h : Handle = record {
            at = a;
            storage = storage;
            group_id = group_id;
            valid = true;
            mode = mode;
          } in
          (ok a, record s { handles = s.handles ++ (h ∷ []) }))
      else (err no_mem, s)

  -- dl_list_add_tail of a new storage, with the device as its start has left it.
  abbrev pub add_storage : Result StCtx × Flash → Exec System (Unit {0})
  add_storage (ok c, f) s = (
    ok tt,
    record s {
      flash = f;
      storages = s.storages ++ (record { at = p.fresh (addresses s); storage = c.storage } ∷ []);
    },
  )
  add_storage (err code, f) s = (err code, record s { flash = f })

  -- jekv_ptm_init
  unfoldable pub ptm_init : List ℕ → Exec System (Unit {0})
  unfolding find_storage pt_init storage_init
  ptm_init name s = elim (find_storage s.storages name) [
    | some o ↦ (err aready_init, s)
    | none ↦ elim (pt_init name (p.partition_info name)) [
      | err code ↦ (err code, s)
      | ok pt ↦ add_storage (storage_init pt s.flash) s
    ]
  ]

  -- jekv_ptm_open_handle behind the search for the storage.
  unfoldable pub open_on : ℕ → Opened → List ℕ → ℕ → Exec System ℕ
  unfolding on_storage open_group handler_open
  open_on turns o group mode = do
    require (not (mode == op_read_write && o.storage.sm.pt.readonly)) read_only
    group_id ← on_storage o.at (open_group turns group)
    handler_open o.at group_id mode

  -- jekv_ptm_open_handle: the address of the handle. `turns` is that of the write of the group.
  unfoldable pub ptm_open_handle : ℕ → List ℕ → List ℕ → ℕ → Exec System ℕ
  unfolding find_storage open_on is_in_using
  ptm_open_handle turns name group mode = do
    s ← gets (λ s. s)
    require (is_in_using s) not_init
    require (not (leb max_handle_num (length s.handles))) fail
    elim (find_storage s.storages name) [
      | none ↦ raise not_found
      | some o ↦ open_on turns o group mode
    ]
