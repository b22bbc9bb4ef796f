-- ===== src/Iterator.antt =====
-- src/jekv_iterator.c, but what it prints: a cursor over the items of a partition.
pub mod Ahead
pub mod Traversal
pub mod Order
use jekv.Base.{
  ℕ, ◌+◌, List, [], ◌∷◌, ◌++◌, Option, none, some, take, ltb, ◌==◌, if◌then◌else◌, Exec, Result, ok,
  err, ◌>>=◌, ◌>>◌, pure, raise, fault, no_mem, not_init, not_found,
}
use jekv.Config.{
  max_key_len, type_any, type_any_without_seg, type_blob, group_id_any, seg_id_any, seg_start_any,
}
use jekv.Port.{Driver}
use jekv.Item.{Item, get_span, all_size, strnlen}
use jekv.Sector.Find.{Query, find_item, find_into}
use jekv.Manager.Recover.{blank_item}
use jekv.Manager.Query.{Place}
use jekv.Storage.State.{Group, StCtx, the_storage, on_sec, query}
use jekv.Storage.Groups.{find_group_by_name, find_group_by_id}
use jekv.Storage.Items.{storage_read_item}
use jekv.Ptm.{Entry, Cursor, System, Platform, addresses, handle_at, on_storage, find_storage}

-- The sectors from `i` on in a list, none where it is not there.
unfoldable pub from : ℕ → List ℕ → List ℕ
from i [] = []
from i (j ∷ js) = let rest = from i js in if i == j then j ∷ js else rest

-- The item types that are looked for; segments of blobs are passed over.
unfoldable pub look_up_type : ℕ → ℕ
look_up_type type = if type == type_any then type_any_without_seg else type

abbrev pub cursor_query : Cursor → Query
cursor_query it = query it.group_id (look_up_type it.type) none seg_id_any seg_start_any

-- What the iterator keeps of an item: the name of its group is empty where the group is unknown.
unfoldable pub group_name : List Group → ℕ → List ℕ
unfolding find_group_by_id
group_name gs id =
    if ltb 0 id
    then elim (find_group_by_id gs id) [ none ↦ [] | some g ↦ take max_key_len g.name ]
    else []

unfoldable pub entry_of : List Group → Item → Entry
unfolding group_name
entry_of gs item = record {
  group = group_name gs item.group_id;
  key = take (strnlen item.name max_key_len) item.name;
  type = item.type;
  group_id = item.group_id;
  length = if item.type == type_blob then all_size item else item.length;
}

-- The fields `sector`, `slice_index` and `info` after an item has been found.
unfoldable pub move_to : List Group → Place → Cursor → Cursor
unfolding entry_of
move_to gs place it = record it {
  sector = some place.sector;
  slice_index = place.index + get_span place.item;
  info = entry_of gs place.item;
}

abbrev pub moved : List Group → Cursor → Option Place → Option Cursor
moved gs it none = none
moved gs it (some at) = some (move_to gs at it)

module _ ⦃d : Driver⦄ where
  -- The loop of jekv_iterator_next over the sectors from the current one to the end of its list;
  -- the next sector is searched from its first slice.
  unfoldable pub next_loop : Query → List ℕ → ℕ → Item → Exec StCtx (Option Place)
  unfolding find_item
  next_loop q [] start item = pure none
  next_loop q (i ∷ is) start item = do
    (r, item') ← on_sec i (find_into q start item)
    elim r [
      | ok at ↦ pure (some (record { sector = i; index = at; item = item' }))
      | err code ↦ next_loop q is 0 item'
    ]

  -- A place, where one has been found before the end of the idle list, whose head the loop takes for
  -- a sector.
  abbrev pub or_fault : Option Place → Exec StCtx (Option Place)
  or_fault none = raise fault
  or_fault (some at) = pure (some at)

  -- The loop over the sectors that follow in the active list; where there are none, a garbage
  -- collection has moved the current sector to the idle list, and the loop goes on through that one.
  unfoldable pub next_over : Query → List ℕ → List ℕ → ℕ → Exec StCtx (Option Place)
  unfolding next_loop
  next_over q (j ∷ js) idle start = next_loop q (j ∷ js) start blank_item
  next_over q [] idle start = do place ← next_loop q idle start blank_item; or_fault place

  -- The loop from sector `i`.
  unfoldable pub next_from : Query → ℕ → ℕ → Exec StCtx (Option Place)
  unfolding next_over from
  next_from q i start = do
    storage ← the_storage
    next_over q (from i storage.sm.active) (from i storage.sm.idle) start

  -- Where the loop starts: at the sector of the iterator, or at the first active one. A storage
  -- that has been started has an active sector; without one the code reads through NULL.
  unfoldable pub next_place : Cursor → Option ℕ → List ℕ → Exec StCtx (Option Place)
  unfolding next_from look_up_type
  next_place it (some i) active = next_from (cursor_query it) i it.slice_index
  next_place it none [] = raise fault
  next_place it none (i ∷ is) = next_from (cursor_query it) i 0

  -- jekv_iterator_next on the storage: the moved iterator, or `none` at the end.
  unfoldable pub cursor_next : Cursor → Exec StCtx (Option Cursor)
  unfolding next_place move_to
  cursor_next it = do
    storage ← the_storage
    place ← next_place it it.sector storage.sm.active
    pure (moved storage.group_list it place)

-- What an address of an iterator points to.
unfoldable pub cursor_at : List Cursor → ℕ → Option Cursor
cursor_at [] a = none
cursor_at (c ∷ cs) a = if c.at == a then some c else cursor_at cs a

unfoldable pub put_cursor : ℕ → Cursor → List Cursor → List Cursor
put_cursor a it [] = []
put_cursor a it (c ∷ cs) = (if c.at == a then it else c) ∷ put_cursor a it cs

-- JEKV_FREE of an iterator.
unfoldable pub free_cursor : ℕ → List Cursor → List Cursor
free_cursor a [] = []
free_cursor a (c ∷ cs) = let rest = free_cursor a cs in if c.at == a then cs else c ∷ rest

abbrev pub the_cursor : ℕ → Exec System Cursor
the_cursor a s = elim (cursor_at s.cursors a) [ none ↦ (err fault, s) | some it ↦ (ok it, s) ]

abbrev pub update_cursors : (List Cursor → List Cursor) → Exec System (Unit {0})
update_cursors g s = (ok tt, record s { cursors = g s.cursors })

-- The end of jekv_iterator_next: the iterator is moved, or freed and the pointer of the caller
-- cleared.
unfoldable pub settle : ℕ → Option Cursor → Exec System (Result (Unit {0}) × Option ℕ)
unfolding put_cursor free_cursor
settle a (some it) = do update_cursors (put_cursor a it); pure (ok tt, some a)
settle a none = do update_cursors (free_cursor a); pure (err not_found, none)

-- jekv_iterator_info
unfoldable pub iterator_info : ℕ → Exec System Entry
unfolding cursor_at
iterator_info a = do it ← the_cursor a; pure it.info

module _ ⦃d : Driver⦄ where
  -- jekv_iterator_next: the code, and the pointer of the caller.
  unfoldable pub iterator_next : ℕ → Exec System (Result (Unit {0}) × Option ℕ)
  unfolding cursor_at on_storage cursor_next settle
  iterator_next a = do
    it ← the_cursor a
    moved ← on_storage it.storage (cursor_next it)
    settle a moved

  -- jekv_iterator_data with a buffer of `size` bytes.
  unfoldable pub iterator_data : ℕ → ℕ → Exec System (Result (List ℕ) × ℕ)
  unfolding cursor_at on_storage storage_read_item
  iterator_data a size = do
    it ← the_cursor a
    on_storage it.storage (storage_read_item it.info.group_id it.info.type it.info.key size)

-- jekv_iterator_release of a pointer that is not NULL.
unfoldable pub iterator_release : ℕ → Exec System (Unit {0})
unfolding cursor_at free_cursor
iterator_release a = do the_cursor a; update_cursors (free_cursor a)

module _ ⦃d : Driver⦄ ⦃p : Platform⦄ where
  -- sizeof(jekv_iterator_info_t), on a 32-bit target.
  abbrev iterator_bytes : ℕ
  iterator_bytes = 64

  -- An iterator as JEKV_CALLOC leaves it, with its three fields set.
  abbrev pub new_cursor : ℕ → ℕ → ℕ → ℕ → Cursor
  new_cursor a storage group_id type = record {
    at = a;
    storage = storage;
    sector = none;
    slice_index = 0;
    group_id = group_id;
    type = type;
    info = record { group = []; key = []; type = type_any; group_id = 0; length = 0 };
  }

  -- iterator_find: the code of the first jekv_iterator_next, and the pointer of the caller.
  unfoldable pub iterator_start : ℕ → ℕ → ℕ → Exec System (Result (Unit {0}) × Option ℕ)
  unfolding iterator_next
  iterator_start storage group_id type s =
      if d.can_alloc iterator_bytes
      then (let a = p.fresh (addresses s) in
          iterator_next a
            (record s { cursors = s.cursors ++ (new_cursor a storage group_id type ∷ []) }))
      else (err no_mem, s)

  -- The id of the group that jekv_iterator_find looks for; NULL stands for every group.
  unfoldable pub wanted_group : List Group → Option (List ℕ) → Result ℕ
  unfolding find_group_by_name
  wanted_group gs none = ok group_id_any
  wanted_group gs (some name) = elim (find_group_by_name gs name) [
    | none ↦ err not_found
    | some g ↦ ok g.id
  ]

  -- jekv_iterator_find
  unfoldable pub iterator_find :
      List ℕ → Option (List ℕ) → ℕ → Exec System (Result (Unit {0}) × Option ℕ)
  unfolding find_storage wanted_group iterator_start
  iterator_find name group type s = elim (find_storage s.storages name) [
    | none ↦ (err not_init, s)
    | some o ↦ elim (wanted_group o.storage.group_list group) [
      | err code ↦ (err code, s)
      | ok id ↦ iterator_start o.at id type s
    ]
  ]

  -- jekv_iterator_find_by_handle
  unfoldable pub iterator_find_by_handle : ℕ → ℕ → Exec System (Result (Unit {0}) × Option ℕ)
  unfolding handle_at iterator_start
  iterator_find_by_handle h type s = elim (handle_at s.handles h) [
    | none ↦ (err fault, s)
    | some handle ↦ iterator_start handle.storage handle.group_id type s
  ]
