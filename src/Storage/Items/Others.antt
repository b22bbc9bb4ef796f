-- ===== src/Storage/Items/Others.antt =====
-- Storing a value under a new key leaves the values of the other keys as they are.
use jekv.Base.{
  ℕ, ◌≤◌, ◌≡◌, ◌≢◌, sym, ap, subst, ◌∙◌, List, [], ◌∷◌, some, length, ltb, ◌==◌, ok, arith, false,
}
use jekv.Config.{single_item_max_data_size, seg_id_any, seg_start_any, type_blob}
use jekv.Port.{Driver}
use jekv.Port.Laws.{IsReliable}
use jekv.Item.{Item}
use jekv.Sector.Find.{find_into}
use jekv.Sector.Find.First.{item_at}
use jekv.Sector.Write.{read_item_data}
use jekv.Sector.Write.Program.{AllBytes}
use jekv.Sector.Write.Frame.{Stands, find_item-write_item_other}
use jekv.Manager.State.{sector_at}
use jekv.Manager.Recover.{blank_item}
use jekv.Storage.State.{StCtx, query}
use jekv.Storage.Items.{storage_write_item, storage_read_item}
use jekv.Storage.Items.RoundTrip.{
  at_sector, find_value_found, then_read, then_read_found, storage_read_item_steps,
}
use jekv.Storage.Items.Kept.{HasRoom, after, after_sector, storage_write_item_new}

module _ ⦃d : Driver⦄ (gid type : ℕ) (key bytes : List ℕ) (size cap at i : ℕ) (item : Item) where
  -- A value that a storage with one active sector finds and that fits in the buffer.
  storage_read_item_found :
      (c : StCtx)
      → c.storage.sm.active ≡ i ∷ []
      → item.length ≡ size
      → (type == type_blob) ≡ false
      → size ≤ cap
      → find_into (query gid type (some key) seg_id_any seg_start_any) 0 blank_item (at_sector c i)
        ≡ (ok (ok at, item), at_sector c i)
      → read_item_data at item size (at_sector c i) ≡ (ok bytes, at_sector c i)
      → storage_read_item gid type key cap c ≡ (ok (ok bytes, size), c)
  storage_read_item_found c only len plain large found content =
      let fits : ltb cap item.length ≡ false = rw len (ground (arith, large)) in
      storage_read_item_steps c i gid type key cap
      ∙ (ap (then_read c i gid type key cap) (find_value_found c i only gid type key at item found)
          ∙ (then_read_found c i gid type key cap at item bytes plain fits (
                subst (λ n. read_item_data at item n (at_sector c i) ≡ (ok bytes, at_sector c i))
                  (sym len) content)
              ∙ ap (λ n. (ok (ok bytes, n), c)) len))

module _ ⦃d : Driver⦄ (reliable : IsReliable d) where
  -- With a reliable driver, in a storage with one active sector that is ready and has the room, and
  -- where no entry of it has the hash of the key: where a search for another key finds a value at
  -- once, which stands with its data in front of the next free slice, is no blob and fits in the
  -- caller's buffer, a value of bytes that is no blob, of at most the size of one item, is written
  -- with OK under the new key of bytes; and a read of the other key returns the same bytes and their
  -- number before and after that and changes nothing.
  pub storage_read_item-storage_write_item_other :
      (turns gid type : ℕ) (key buf : List ℕ) (i : ℕ) (c : StCtx) (other_gid other_type : ℕ)
      (other : List ℕ) (at size cap : ℕ)
      → HasRoom c i gid type key buf
      → length buf ≤ single_item_max_data_size
      → type ≢ type_blob
      → AllBytes key
      → AllBytes buf
      → Stands
          (at_sector c i)
          (query other_gid other_type (some other) seg_id_any seg_start_any)
          other
          at
          size
      → (item_at c.flash (sector_at c.storage.sm i) at).length ≡ size
      → other_type ≢ type_blob
      → size ≤ cap
      → (c' : StCtx) × (bytes : List ℕ) × (storage_write_item turns gid type key buf c
          ≡ (ok tt, c'))
        × (storage_read_item other_gid other_type other cap c ≡ (ok (ok bytes, size), c))
        × (storage_read_item other_gid other_type other cap c' ≡ (ok (ok bytes, size), c'))
  storage_read_item-storage_write_item_other turns gid type key buf i c other_gid other_type other
        at size cap has short no_blob hk hb there len other_no_blob large =
      let here = at_sector c i in
      let c' = after i gid type key buf c has in
      let same = after_sector i gid type key buf c has in
      let item = item_at c.flash (sector_at c.storage.sm i) at in
      let q = query other_gid other_type (some other) seg_id_any seg_start_any in
      let (done, stands, before, found, bytes, old, new) =
        find_item-write_item_other reliable here gid type key buf seg_id_any q other at size
          has.ready there short has.room (omega arith) hk hb blank_item in
      let plain : (type == type_blob) ≡ false = ground (arith, no_blob) in
      let other_plain : (other_type == type_blob) ≡ false = ground (arith, other_no_blob) in
      let read = storage_read_item_found other_gid other_type other bytes size cap at i item in
      (
        c',
        bytes,
        storage_write_item_new i gid type key buf c has turns plain done,
        read c has.only len other_plain large before old,
        read c' has.only len other_plain large
            (subst (λ z. find_into q 0 blank_item z ≡ (ok (ok at, item), z)) (sym same) found)
            (subst (λ z. read_item_data at item size z ≡ (ok bytes, z)) (sym same) new),
      )
