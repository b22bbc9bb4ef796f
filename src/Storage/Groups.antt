-- ===== src/Storage/Groups.antt =====
-- storage_find_group, storage_add_group, storage_load_groups and jekv_storage_find_group_by_name
-- and _by_id of src/jekv_storage.c.
use jekv.Sector.Find.{Query}
pub mod Free
use jekv.Base.{
  ◌>>◌, ◌>>=◌, ℕ, suc, zero, List, [], ◌∷◌, ◌++◌, ◌==◌, ◌||◌, Bool, false, Option, none, some,
  length, get_or, take, if◌then◌else◌, Exec, Result, attempt, err, fail, no_mem, ok, pure, require,
  ◌+◌, ◌>>=◌,
}
use jekv.Config.{max_key_len, group_itself_id, type_uint8, seg_id_any, seg_start_any}
use jekv.Port.{Driver}
use jekv.Item.{strnlen, strncmp_eq, Item}
use jekv.Manager.Recover.{blank_item}
use jekv.Storage.State.{Group, StCtx, the_storage, update_groups, query, walk, each_item}

-- strcmp(a, b) == 0: at the latest the terminator of `a` ends the comparison.
unfoldable pub strcmp_eq : List ℕ → List ℕ → Bool
unfolding strncmp_eq
strcmp_eq a b = strncmp_eq a b (length a + 1)

-- The bits of `id_map`, which are the ids of the groups.
unfoldable pub in_map : List Group → ℕ → Bool
in_map [] id = false
in_map (g ∷ gs) id = g.id == id || in_map gs id

-- The loop that looks for a free id: `n` ids from `i` on.
unfoldable pub free_id : List Group → ℕ → ℕ → ℕ
unfolding in_map
free_id gs zero i = i
free_id gs (suc n) i = let rest = free_id gs n (i + 1) in if in_map gs i then rest else i

-- jekv_storage_find_group_by_name
unfoldable pub find_group_by_name : List Group → List ℕ → Option Group
unfolding strcmp_eq
find_group_by_name [] name = none
find_group_by_name (g ∷ gs) name =
    if strcmp_eq g.name name then some g else find_group_by_name gs name

-- jekv_storage_find_group_by_id
unfoldable pub find_group_by_id : List Group → ℕ → Option Group
find_group_by_id [] id = none
find_group_by_id (g ∷ gs) id = if g.id == id then some g else find_group_by_id gs id

-- storage_find_group: the code, and `*id`.
unfoldable pub find_group : List Group → List ℕ → Result (Unit {0}) × ℕ
unfolding find_group_by_name free_id
find_group gs name = elim (find_group_by_name gs name) [
  | some g ↦ (ok tt, g.id)
  | none ↦ (err fail, free_id gs 62 1)
]

module _ ⦃d : Driver⦄ where
  -- sizeof(jekv_group_t): two pointers of four bytes, the name and the id, padded.
  abbrev group_bytes : ℕ
  group_bytes = 28

  -- storage_add_group
  unfoldable pub add_group : ℕ → List ℕ → ℕ → Exec StCtx (Unit {0})
  unfolding strnlen
  add_group id name max_size = do
    require (d.can_alloc group_bytes) no_mem
    update_groups (λ gs. gs ++ (record { name = take (strnlen name max_size) name; id = id } ∷ []))

  abbrev groups_query : Query
  groups_query = query group_itself_id type_uint8 none seg_id_any seg_start_any

  abbrev load_group : ℕ → Item → Unit {0} → Exec StCtx (Unit {0})
  load_group at item u = do
    attempt (add_group (get_or item.payload 0 0) item.name max_key_len)
    pure tt

  -- The loop of storage_load_groups. The result of storage_add_group is not looked at.
  unfoldable pub load_groups_from : List ℕ → Exec StCtx (Unit {0})
  unfolding each_item add_group
  load_groups_from [] = pure tt
  load_groups_from (i ∷ is) = do walk groups_query i load_group blank_item tt; load_groups_from is

  -- storage_load_groups
  unfoldable pub load_groups : Exec StCtx (Unit {0})
  unfolding load_groups_from
  load_groups = do storage ← the_storage; load_groups_from storage.sm.active
