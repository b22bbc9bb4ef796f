-- ===== src/Storage/Items/Deleted.antt =====
-- A value that is deleted after it has been stored is not found any more.
use jekv.Sector.Find.Gone.{Lacks}
use jekv.Manager.State.{zero_sector}
use jekv.Sector.Find.{find_into}
use jekv.Sector.Write.Lookup.{find_item_any}
use jekv.Sector.Write.Dropped.{dropped_ok, dropped-Lacks}
use jekv.Sector.Write.RoundTrip.{after_write, write_item_reliable}
use jekv.Sector.Write.Program.{AllBytes}
use jekv.Port.Laws.{IsReliable}
use jekv.Base.{
  ℕ, ◌≡◌, refl, List, [], ◌∷◌, ◌==◌, ◌%◌, ok, false, true, Result, then_call, give, ◌>>=◌, Exec,
  arith, err, length, not_found, some, subst, sym, ◌<◌, ◌≢◌, ◌≤◌, ap, get_or-set_self, length-set,
  ◌∙◌,
}
use jekv.Config.{
  type_blob, seg_id_any, seg_start_any, single_item_max_data_size, type_any_without_seg,
  type_blob_seg,
}
use jekv.Port.{Driver}
use jekv.Item.{Item, item_init, crc_hash}
use jekv.Sector.State.{Ctx}
use jekv.Sector.Write.{erase_item}
use jekv.Manager.Query.{Place}
use jekv.Storage.State.{StCtx, on_sec, query}
use jekv.Storage.Items.{
  storage_del_item, find_value, erase_value, storage_read_item, storage_write_item, blank_item,
  query,
}
use jekv.Storage.Items.RoundTrip.{
  at_sector, stored, find_value_found, find_value_missing, storage_read_item_steps, then_read,
}
use jekv.Storage.Items.Kept.{
  item_of, HasRoom, after_sector, written, after, any_type_hash, storage_write_item_new,
}

module _ ⦃d : Driver⦄ where
  -- What jekv_storage_del_item does behind the search.
  abbrev then_del : Result (Result Place) × StCtx → Result (Unit {0}) × StCtx
  then_del x = then_call x.0 (λ found. do place ← give found; erase_value place) x.1

  storage_del_item_steps :
      (gid type : ℕ) (key : List ℕ) (c : StCtx)
      → storage_del_item gid type key c ≡ then_del (find_value gid type key c)
  unfolding storage_del_item
  storage_del_item_steps gid type key c = refl

  on_sec-stored :
      (c : StCtx) (i : ℕ) (only : c.storage.sm.active ≡ i ∷ []) (gid type : ℕ) (key buf : List ℕ)
      (m : Exec Ctx (Unit {0})) (y : Ctx)
      → m (at_sector c i) ≡ (ok tt, y)
      → on_sec i m c ≡ (ok tt, stored c i only gid type key buf y)
  on_sec-stored c i only gid type key buf m y e = rw e refl

  then_del_found :
      (c : StCtx) (i at : ℕ) (item : Item) (only : c.storage.sm.active ≡ i ∷ []) (gid type : ℕ)
      (key buf : List ℕ) (y : Ctx)
      → (item.type == type_blob) ≡ false
      → erase_item at item true (at_sector c i) ≡ (ok tt, y)
      → then_del (ok (ok (record { sector = i; index = at; item = item })), c)
        ≡ (ok tt, stored c i only gid type key buf y)
  unfolding erase_value
  then_del_found c i at item only gid type key buf y plain e =
      rw plain (on_sec-stored c i only gid type key buf (erase_item at item true) y e)

item_type : (gid type : ℕ) (key buf : List ℕ) → (item_of gid type key buf).type ≡ type % 16
unfolding item_init
item_type gid type key buf = refl

module _ ⦃d : Driver⦄ (reliable : IsReliable d) where
  -- With a reliable driver, in a storage with one active sector that is ready and has the room, and
  -- where no entry of it has the hash of the key: a value of bytes that is no blob and no segment of
  -- one, for a group id below 64 and a type below 16, is written with OK under a key of bytes; the
  -- deletion of the key then returns OK; and after it a read of the key, as whatever type and into
  -- whatever buffer, finds nothing and changes nothing.
  pub storage_read_item-storage_del_item :
      (turns gid type : ℕ) (key buf : List ℕ) (i : ℕ) (c : StCtx) (wanted size : ℕ)
      → HasRoom c i gid type key buf
      → length buf ≤ single_item_max_data_size
      → gid < 64
      → type < 16
      → type ≢ type_blob
      → type ≢ type_blob_seg
      → AllBytes key
      → AllBytes buf
      → (c' : StCtx) × (c'' : StCtx) × (storage_write_item turns gid type key buf c ≡ (ok tt, c'))
        × (storage_del_item gid type_any_without_seg key c' ≡ (ok tt, c''))
        × (storage_read_item gid wanted key size c'' ≡ (ok (err not_found, size), c''))
  storage_read_item-storage_del_item turns gid type key buf i c wanted size has short hg ht no_blob
        no_seg hk hb =
      let here = at_sector c i in
      let x = written i gid type key buf c has in
      let nf = here.sec.next_free_slice in
      let item = item_of gid type key buf in
      let c' = after i gid type key buf c has in
      let same = after_sector i gid type key buf c has in
      let z = after_write reliable here gid type key buf seg_id_any in
      let w =
        write_item_reliable reliable here gid type key buf seg_id_any has.ready short has.room
          (omega arith) hk hb in
      let y = (erase_item nf item true z).1 in
      let dropped : erase_item nf item true (at_sector c' i) ≡ (ok tt, y) =
        subst (λ s. erase_item nf item true s ≡ (ok tt, y)) (sym (same ∙ ap (λ r. r.1) w))
          (ap (λ r. (r, y))
            (dropped_ok reliable here gid type key buf seg_id_any has.ready has.room)) in
      let found =
        find_item_any reliable here gid type key buf seg_id_any has.ready short has.room hg ht
          no_seg (omega arith) hk hb has.fresh blank_item in
      let plain : (type == type_blob) ≡ false = ground (arith, no_blob) in
      let plain_item : (item.type == type_blob) ≡ false =
        rw (item_type gid type key buf) (ground (arith, no_blob, ht)) in
      let found_place = find_value_found c' i has.only gid type_any_without_seg key nf item (
        subst
          (λ z.
            find_into (query gid type_any_without_seg (some key) seg_id_any seg_start_any) 0
              blank_item z
            ≡ (ok (ok nf, item), z))
          (sym same) found) in
      let c'' = stored c' i has.only gid type key buf y in
      let arr = c'.storage.sm.sec_arr in
      let inside : i < length arr = rw (length-set c.storage.sm.sec_arr i x.sec) has.inside in
      let again : at_sector c'' i ≡ y =
        ap (λ sec. record { flash = y.flash; sec = sec })
          (get_or-set_self arr i y.sec (zero_sector c.storage.sm.pt) inside) in
      let lacks =
        dropped-Lacks reliable here gid type key buf seg_id_any has.ready has.room has.fresh in
      let missing = find_value_missing c'' i has.only gid wanted key (
        subst (λ h. Lacks (at_sector c'' i) (h % 16777216))
          (sym (any_type_hash gid type key buf wanted))
          (subst (λ s. Lacks s (crc_hash item % 16777216)) (sym again) lacks)) in
      (
        c',
        c'',
        storage_write_item_new i gid type key buf c has turns plain (ap (λ r. r.0) w),
        storage_del_item_steps gid type_any_without_seg key c'
            ∙ (ap then_del found_place
                ∙ then_del_found c' i nf item has.only gid type key buf y plain_item dropped),
        storage_read_item_steps c'' i gid wanted key size
            ∙ ap (then_read c'' i gid wanted key size) missing,
      )
