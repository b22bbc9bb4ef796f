-- ===== src/Storage/State.antt =====
-- jekv_storage_t and jekv_group_t, and the walk over the items of one sector by which
-- src/jekv_storage.c goes through a partition.
pub mod Turns
use jekv.Base.{
  ◌>>◌, ◌>>=◌, ℕ, zero, suc, ◌+◌, Code, not_found, Exec, ok, err, ◌>>=◌, pure, List, Option,
}
use jekv.Port.{Flash, Driver}
use jekv.Item.{Item, get_span, seg_start}
use jekv.Sector.State.{Ctx}
use jekv.Sector.Find.{Query, find_into, find_item}
use jekv.Manager.State.{Manager, SmCtx, on_sector}

-- jekv_group_t
pub record Group : Type 0 where
  pub name : List ℕ
  pub id : ℕ

-- jekv_storage_t; its partition is the one that `sm` points to.
pub record Storage : Type 0 where
  pub sm : Manager
  pub group_list : List Group

pub record StCtx : Type 0 where
  pub flash : Flash
  pub storage : Storage

abbrev pub the_storage : Exec StCtx Storage
the_storage c = (ok c.storage, c)

abbrev pub update_groups : (List Group → List Group) → Exec StCtx (Unit {0})
update_groups g c =
    (ok tt, record c { storage = record c.storage { group_list = g c.storage.group_list } })

-- A call of a function of the sector manager.
abbrev pub on_sm : {A : Type 0} → Exec SmCtx A → Exec StCtx A
on_sm m c =
    let (r, c') = m (record { flash = c.flash; sm = c.storage.sm }) in
    (r, record { flash = c'.flash; storage = record c.storage { sm = c'.sm } })

-- A call of a function on one sector.
abbrev pub on_sec : {A : Type 0} → ℕ → Exec Ctx A → Exec StCtx A
on_sec i m = on_sm (on_sector i m)

-- The arguments of a search.
abbrev pub query : ℕ → ℕ → Option (List ℕ) → ℕ → ℕ → Query
query gid type key seg_index seg_start = record {
  group_id = gid;
  type = type;
  key = key;
  seg_index = seg_index;
  seg_start = seg_start;
}

-- Where a walk has stopped: the code of the search that found no more, and `item_index`.
pub record Stop : Type 0 where
  pub code : Code
  pub item_index : ℕ

module _ ⦃d : Driver⦄ {X : Type 0} where
  -- while (1) { jekv_sector_find_item(...); if (err != JEKV_ERR_OK) break; body;
  -- item_index += jekv_item_get_span(&item); } on the sector `i`. The body changes a value of the
  -- caller's.
  unfoldable pub each_item :
      ℕ → Query → ℕ → (ℕ → Item → X → Exec StCtx X) → ℕ → Item → X → Exec StCtx (Stop × X)
  unfolding find_item
  each_item zero q i body item_index item x =
      pure (record { code = not_found; item_index = item_index }, x)
  each_item (suc fuel) q i body item_index item x = do
    (r, item) ← on_sec i (find_into q item_index item)
    elim r [
      | err code ↦ pure (record { code = code; item_index = item_index }, x)
      | ok at ↦ (do x ← body at item x; each_item fuel q i body (at + get_span item) item x)
    ]

  -- The walk from the first slice. Every turn goes on by a slice at least, and the search finds
  -- nothing from slice 127 on, so that 128 turns are enough.
  abbrev pub walk : Query → ℕ → (ℕ → Item → X → Exec StCtx X) → Item → X → Exec StCtx (Stop × X)
  walk q i body item x = each_item 128 q i body 0 item x
