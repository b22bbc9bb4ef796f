-- ===== src/Storage/Items/Kept.antt =====
-- A value that is stored under a new key is read back, and the next one can be stored.
use jekv.Sector.Write.Ready.{write_item-IsReady}
use jekv.Base.{
  ℕ, ◌+◌, ◌≤◌, ◌<◌, ◌≡◌, ◌≢◌, refl, sym, ap, subst, List, [], ◌∷◌, some, length, ◌==◌, ◌%◌, ok,
  arith, get_or-set_self, false, ◌∙◌, ltb,
}
use jekv.Config.{
  entry_count, single_item_max_data_size, seg_id_any, seg_start_any, type_any_without_seg,
  type_blob, item_state_using,
}
use jekv.Port.{Driver}
use jekv.Port.Laws.{IsReliable}
use jekv.Item.{Item, item_init, crc_hash}
use jekv.Hash.{nodes}
use jekv.Hash.Index.{NoNode}
use jekv.Sector.Write.{entry_cnt, write_item, read_item_data}
use jekv.Sector.Write.RoundTrip.{IsReady}
use jekv.Sector.Write.Lookup.{find_item-write_item}
use jekv.Sector.Write.Program.{AllBytes}
use jekv.Sector.Find.{probe, find_into}
use jekv.Manager.State.{sector_at, zero_sector}
use jekv.Manager.Recover.{blank_item}
use jekv.Storage.State.{StCtx, query}
use jekv.Storage.Items.{storage_write_item, storage_read_item}
use jekv.Sector.Find.Gone.{Lacks}
use jekv.Sector.State.{Ctx}
use jekv.Storage.Items.RoundTrip.{
  IsReady-Lacks, at_sector, find_value_missing, find_value_found, stored, then_write,
  then_write_new, then_read, then_read_found, storage_write_item_steps, storage_read_item_steps,
}

module _ (gid type : ℕ) (key buf : List ℕ) where
  -- The item of the value.
  abbrev pub item_of : Item
  item_of = item_init item_state_using gid type key (some buf) (length buf) seg_id_any

  -- The hash of a search does not depend on the type that is looked for.
  pub any_type_hash :
      (wanted : ℕ)
      → crc_hash (probe (query gid wanted (some key) seg_id_any seg_start_any) key)
        ≡ crc_hash item_of
  unfolding probe item_init crc_hash
  any_type_hash wanted = refl

  length_of : length buf ≤ single_item_max_data_size → item_of.length ≡ length buf
  unfolding item_init
  length_of short = omega arith

-- A storage with one active sector, which is ready, and no entry of it has the hash of the key.
pub record HasRoom ⦃d : Driver⦄ (c : StCtx) (i gid type : ℕ) (key buf : List ℕ) : Type 0 where
  pub only : c.storage.sm.active ≡ i ∷ []
  pub inside : i < length c.storage.sm.sec_arr
  pub ready : IsReady (at_sector c i)
  pub room : (sector_at c.storage.sm i).next_free_slice + entry_cnt (length buf) ≤ entry_count
  pub fresh :
      NoNode 0
        (sector_at c.storage.sm i).next_free_slice
        (crc_hash (item_of gid type key buf) % 16777216)
        (nodes (sector_at c.storage.sm i).hash.hash_table)

module _ ⦃d : Driver⦄ (i gid type : ℕ) (key buf : List ℕ) (c : StCtx)
    (has : HasRoom c i gid type key buf) where
  -- The sector behind the write of the value, and the storage.
  abbrev pub written : Ctx
  written = (write_item gid type key buf seg_id_any (at_sector c i)).1

  abbrev pub after : StCtx
  after = stored c i has.only gid type key buf written

  pub after_sector : at_sector after i ≡ written
  after_sector =
      ap (λ sec. record { flash = written.flash; sec = sec })
        (get_or-set_self c.storage.sm.sec_arr i written.sec (zero_sector c.storage.sm.pt)
          has.inside)

  -- The write of a value that is new and that the sector takes.
  pub storage_write_item_new :
      (turns : ℕ)
      → (type == type_blob) ≡ false
      → (write_item gid type key buf seg_id_any (at_sector c i)).0 ≡ ok tt
      → storage_write_item turns gid type key buf c ≡ (ok tt, after)
  storage_write_item_new turns plain done =
      let here = at_sector c i in
      let v =
        IsReady-Lacks here (crc_hash (item_of gid type key buf) % 16777216) has.ready has.fresh in
      let missing = find_value_missing c i has.only gid type_any_without_seg key (
        subst (λ h. Lacks here (h % 16777216))
          (sym (any_type_hash gid type key buf type_any_without_seg)) v) in
      storage_write_item_steps c i has.only gid type key buf turns
      ∙ (ap (then_write c i has.only gid type key buf turns) missing
          ∙ then_write_new c i has.only gid type key buf turns written plain
              (ap (λ r. (r, written)) done))

module _ ⦃d : Driver⦄ (reliable : IsReliable d) where
  -- With a reliable driver, in a storage with one active sector that is ready and has the room, and
  -- where no entry of it has the hash of the key: a value of bytes that is no blob, of at most the
  -- size of one item, for a group id below 64 and a type below 16, is written with OK under a key of
  -- bytes; reading it into a buffer that is large enough then returns the same bytes and their number
  -- and changes nothing; and the sector stays the only active one and is ready for the next write.
  pub storage_read_item-storage_write_item :
      (turns gid type : ℕ) (key buf : List ℕ) (size i : ℕ) (c : StCtx)
      → HasRoom c i gid type key buf
      → length buf ≤ single_item_max_data_size
      → length buf ≤ size
      → gid < 64
      → type < 16
      → type ≢ type_blob
      → AllBytes key
      → AllBytes buf
      → (c' : StCtx) × (storage_write_item turns gid type key buf c ≡ (ok tt, c'))
        × (storage_read_item gid type key size c' ≡ (ok (ok buf, length buf), c'))
        × IsReady (at_sector c' i)
        × (c'.storage.sm.active ≡ i ∷ [])
  storage_read_item-storage_write_item turns gid type key buf size i c has short large hg ht no_blob
        hk hb =
      let here = at_sector c i in
      let x = written i gid type key buf c has in
      let nf = here.sec.next_free_slice in
      let item = item_of gid type key buf in
      let c' = after i gid type key buf c has in
      let same = after_sector i gid type key buf c has in
      let (done, found, bytes) =
        find_item-write_item reliable here gid type key buf seg_id_any has.ready short has.room hg
          ht (omega arith) hk hb has.fresh blank_item in
      let plain : (type == type_blob) ≡ false = ground (arith, no_blob) in
      let len = length_of gid type key buf short in
      let read_found = find_value_found c' i has.only gid type key nf item (
        subst
          (λ z.
            find_into (query gid type (some key) seg_id_any seg_start_any) 0 blank_item z
            ≡ (ok (ok nf, item), z))
          (sym same) found) in
      let read_bytes =
        subst (λ z. read_item_data nf item item.length z ≡ (ok buf, z)) (sym same)
          (subst (λ n. read_item_data nf item n x ≡ (ok buf, x)) (sym len) bytes) in
      let fits : ltb size item.length ≡ false = rw len (ground (arith, large)) in
      (
        c',
        storage_write_item_new i gid type key buf c has turns plain done,
        storage_read_item_steps c' i gid type key size
            ∙ (ap (then_read c' i gid type key size) read_found
                ∙ (then_read_found c' i gid type key size nf item buf plain fits read_bytes
                    ∙ ap (λ n. (ok (ok buf, n), c')) len)),
        subst IsReady (sym same) (
            write_item-IsReady reliable here gid type key buf seg_id_any has.ready short has.room
              (omega arith) hk hb),
        has.only,
      )
