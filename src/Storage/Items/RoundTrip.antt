-- ===== src/Storage/Items/RoundTrip.antt =====
-- A value that is stored under a new key is read back: jekv_storage_write_item, then
-- jekv_storage_read_item, on a partition with one active sector, as the partitions of the ports
-- have, which are of two sectors with one of them idle.
use jekv.Sector.Find.Gone.{Lacks}
use jekv.Manager.Recover.{blank_item}
use jekv.Storage.Items.{
  read_item_data, storage_read_item, drop_unreadable, data_size, find_value, erase_old, is_same,
  or_missing, storage_write_item, write_new, write_value, write_item, write_next, is_sector_full,
}
use jekv.Manager.Query.{find_in, Place, sm_find_item}
use jekv.Sector.Find.Search.{find_loop_fuel}
use jekv.Config.{entry_count, seg_id_any, seg_start_any, type_any_without_seg, type_blob}
use jekv.Storage.Blob.{read_blob}
use jekv.Item.{all_size}
use jekv.Base.{
  value_too_long, ltb, if◌then◌else◌, Result, err, ◌>>◌, ◌>>=◌, give, attempt, then_call, pure,
  subst, ◌-◌, suc, ℕ, ◌≡◌, List, [], ◌∷◌, some, ◌%◌, ok, err, not_found, inl, inr, arith,
  Bool-cases, ltb, min, negsuc, refl, true, ℤ-cases, set, set-get_or, Result, ap, ◌∙◌, false, give,
  ◌==◌, ◌>>=◌, Bool, Option, attempt, none, Exec,
}
use jekv.Port.{Driver}
use jekv.Item.{Item, crc_hash}
use jekv.Hash.{Hash, nodes, hash_find}
use jekv.Hash.Index.{NoNode-HasNode, IsIndex, NoNode, HasNode, Found, hash_find-Found}
use jekv.Sector.State.{Ctx}
use jekv.Sector.Write.RoundTrip.{IsReady}
use jekv.Sector.Find.{Query, find_into, probe, FindCtx, find_item, find_loop, find_step, searchable}
use jekv.Manager.State.{sector_at, SmCtx, zero_sector, get_current_sector, last_of}
use jekv.Storage.State.{StCtx, query, on_sec}

-- What the sector `i` of the storage is worked on with.
abbrev pub at_sector : StCtx → ℕ → Ctx
at_sector c i = record { flash = c.flash; sec = sector_at c.storage.sm i }

pub IsReady-Lacks :
    (c : Ctx) (hash : ℕ)
    → IsReady c
    → NoNode 0 c.sec.next_free_slice hash (nodes c.sec.hash.hash_table)
    → Lacks c hash
IsReady-Lacks c hash v fresh = record {
  using = v.using;
  index = v.index;
  gone = λ at.
      NoNode-HasNode (nodes c.sec.hash.hash_table) at c.sec.next_free_slice hash v.indexed fresh;
}

-- A search of the index for a hash that no node has.
hash_find-missing :
    (h : Hash) (item : Item)
    → IsIndex h
    → ((at : ℕ) → ¬ HasNode at (crc_hash item % 16777216) (nodes h.hash_table))
    → (k : ℕ) × (hash_find h 0 item ≡ negsuc k)
hash_find-missing h item v gone = elim (ℤ-cases (hash_find h 0 item)) [
  | inr (k, e) ↦ (k, e)
  | inl (at, e) ↦
      let spot =
        subst (λ z. Found (nodes h.hash_table) 0 (crc_hash item % 16777216) z) e
          (hash_find-Found h 0 item v) in
      absurd (gone at spot.0)
]

module _ ⦃d : Driver⦄ (q : Query) (key : List ℕ) (keyed : q.key ≡ some key) where
  -- A search by a key whose hash no node of the index has finds nothing and changes the buffer only.
  find_item_missing :
      (c : Ctx) (item : Item)
      → Lacks c (crc_hash (probe q key) % 16777216)
      → (b : Item) × (find_into q 0 item c ≡ (ok (err not_found, b), c))
  unfolding find_item find_loop find_step
  find_item_missing c item v =
      let (k, gone) = hash_find-missing c.sec.hash (probe q key) v.index v.gone in
      let end = min c.sec.next_free_slice entry_count in
      let ctx : FindCtx = record { flash = c.flash; sec = c.sec; item = item } in
      let turns = find_loop_fuel (end - 0) (suc end) q 0 end ctx (omega arith) (omega arith) in
      let good : searchable c.sec ≡ true = ground (arith, v.using) in
      elim (Bool-cases (ltb 0 end)) [
        | inr e ↦ (item, rw (good, find_item, turns, e, find_step) refl)
        | inl e ↦ (probe q key, rw (good, find_item, turns, e, find_step, keyed, gone) refl)
      ]

module _ ⦃d : Driver⦄ (q : Query) (i : ℕ) (item b : Item) (m : SmCtx) where
  abbrev here : Ctx
  here = record { flash = m.flash; sec = sector_at m.sm i }

  same_array : set m.sm.sec_arr i (sector_at m.sm i) ≡ m.sm.sec_arr
  same_array = set-get_or m.sm.sec_arr i (zero_sector m.sm.pt)

  -- What jekv_sm_find_item makes of the search of its only sector.
  abbrev settle : Result (Result ℕ × Item) × Ctx → Result (Result Place × Item) × SmCtx
  settle x =
      then_call x.0
        (λ (p : Result ℕ × Item). elim p.0 [
          | ok at ↦ pure (ok (record { sector = i; index = at; item = p.1 }), p.1)
          | err code ↦ pure (err not_found, p.1)
        ])
        (record { flash = x.1.flash; sm = record m.sm { sec_arr = set m.sm.sec_arr i x.1.sec } })

  find_in-settle : find_in (i ∷ []) q 0 item m ≡ settle (find_into q 0 item here)
  unfolding find_in
  find_in-settle = refl

  -- A search through one sector, which leaves it as it was.
  find_in_missing :
      find_into q 0 item here ≡ (ok (err not_found, b), here)
      → find_in (i ∷ []) q 0 item m ≡ (ok (err not_found, b), m)
  find_in_missing e = find_in-settle ∙ (ap settle e ∙ rw same_array refl)

  find_in_found :
      (at : ℕ)
      → find_into q 0 item here ≡ (ok (ok at, b), here)
      → find_in (i ∷ []) q 0 item m ≡ (ok (ok (record { sector = i; index = at; item = b }), b), m)
  find_in_found at e = find_in-settle ∙ (ap settle e ∙ rw same_array refl)

module _ ⦃d : Driver⦄ (c : StCtx) (i : ℕ) (only : c.storage.sm.active ≡ i ∷ []) (gid type : ℕ)
    (key : List ℕ) where
  abbrev pub wanted : Query
  wanted = query gid type (some key) seg_id_any seg_start_any

  abbrev behind : SmCtx
  behind = record { flash = c.flash; sm = c.storage.sm }

  abbrev value_of : Result (Result Place × Item) × SmCtx → Result (Result Place) × StCtx
  value_of x =
      then_call x.0 (λ (p : Result Place × Item). pure p.0)
        (record { flash = x.1.flash; storage = record c.storage { sm = x.1.sm } })

  -- With one active sector, the search for a value is the search of that sector.
  find_value_one :
      find_value gid type key c ≡ value_of (find_in (i ∷ []) wanted 0 blank_item behind)
  unfolding sm_find_item
  find_value_one = ap (λ (is : List ℕ). value_of (find_in is wanted 0 blank_item behind)) only

  pub find_value_missing :
      Lacks (at_sector c i) (crc_hash (probe wanted key) % 16777216)
      → find_value gid type key c ≡ (ok (err not_found), c)
  find_value_missing v =
      let (b, e) = find_item_missing wanted key refl (at_sector c i) blank_item v in
      find_value_one ∙ ap value_of (find_in_missing wanted i blank_item b behind e)

  pub find_value_found :
      (at : ℕ) (b : Item)
      → find_into wanted 0 blank_item (at_sector c i) ≡ (ok (ok at, b), at_sector c i)
      → find_value gid type key c ≡ (ok (ok (record { sector = i; index = at; item = b })), c)
  find_value_found at b e =
      find_value_one ∙ ap value_of (find_in_found wanted i blank_item b behind at e)

module _ ⦃d : Driver⦄ (c : StCtx) (i : ℕ) (only : c.storage.sm.active ≡ i ∷ []) (gid type : ℕ)
    (key buf : List ℕ) where
  -- The storage behind a call that has worked on sector `i`.
  abbrev pub stored : Ctx → StCtx
  stored x = record {
    flash = x.flash;
    storage = record c.storage {
      sm = record c.storage.sm { sec_arr = set c.storage.sm.sec_arr i x.sec };
    };
  }

  -- The write to the current sector.
  abbrev write_to : Option ℕ → Exec StCtx Bool
  write_to current = elim current [
    | none ↦ pure false
    | some cur ↦ (do
      written ← attempt (on_sec cur (write_item gid type key buf seg_id_any))
      elim (is_sector_full written) [
        | true ↦ write_next gid type key buf
        | false ↦ (do give written; pure true)
      ])
  ]

  write_value_steps : write_value gid type key buf c ≡ write_to (get_current_sector c.storage.sm) c
  unfolding write_value
  write_value_steps = refl

  write_value_one :
      (x : Ctx)
      → write_item gid type key buf seg_id_any (at_sector c i) ≡ (ok tt, x)
      → write_value gid type key buf c ≡ (ok true, stored x)
  write_value_one x w =
      write_value_steps ∙ (ap (λ (is : List ℕ). write_to (last_of is) c) only ∙ rw w refl)

  -- What jekv_storage_write_item does behind the search for an old value.
  abbrev pub then_write : ℕ → Result (Result Place) × StCtx → Result (Unit {0}) × StCtx
  then_write turns x =
      then_call x.0
        (λ found. do
          old ← give (or_missing found)
          same ← is_same old type buf
          elim same [
            | true ↦ pure tt
            | false ↦ (do
              written ← write_new turns old gid type key buf
              elim written [ true ↦ erase_old old | false ↦ pure tt ])
          ])
        x.1

  pub storage_write_item_steps :
      (turns : ℕ)
      → storage_write_item turns gid type key buf c
        ≡ then_write turns (find_value gid type_any_without_seg key c)
  unfolding storage_write_item
  storage_write_item_steps turns = refl

  -- A new value that is no blob.
  pub then_write_new :
      (turns : ℕ) (x : Ctx)
      → (type == type_blob) ≡ false
      → write_item gid type key buf seg_id_any (at_sector c i) ≡ (ok tt, x)
      → then_write turns (ok (err not_found), c) ≡ (ok tt, stored x)
  unfolding is_same
  then_write_new turns x plain w = rw (plain, write_value_one x w) refl

module _ ⦃d : Driver⦄ (c : StCtx) (i : ℕ) (gid type : ℕ) (key : List ℕ) (size : ℕ) where
  -- What jekv_storage_read_item does behind the search.
  abbrev pub then_read : Result (Result Place) × StCtx → Result (Result (List ℕ) × ℕ) × StCtx
  then_read x =
      then_call x.0
        (λ found. elim found [
          | err code ↦ pure (err code, size)
          | ok place ↦
              if ltb size (data_size type place.item)
              then pure (err value_too_long, data_size type place.item)
              else (do
                bytes ← attempt (
                    if type == type_blob
                    then read_blob place.item (all_size place.item)
                    else on_sec place.sector
                        (read_item_data place.index place.item place.item.length))
                attempt (if type == type_blob then drop_unreadable place bytes else pure tt)
                pure (bytes, data_size type place.item))
        ])
        x.1

  pub storage_read_item_steps :
      storage_read_item gid type key size c ≡ then_read (find_value gid type key c)
  unfolding storage_read_item
  storage_read_item_steps = refl

  -- A value that is no blob and fits in the buffer.
  pub then_read_found :
      (at : ℕ) (item : Item) (buf : List ℕ)
      → (type == type_blob) ≡ false
      → ltb size item.length ≡ false
      → read_item_data at item item.length (at_sector c i) ≡ (ok buf, at_sector c i)
      → then_read (ok (ok (record { sector = i; index = at; item = item })), c)
        ≡ (ok (ok buf, item.length), c)
  then_read_found at item buf plain room r =
      rw (plain, room, r, set-get_or c.storage.sm.sec_arr i (zero_sector c.storage.sm.pt)) refl
