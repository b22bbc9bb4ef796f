-- ===== src/Sector/Write/Dropped.antt =====
-- An entry that is dropped after it has been written leaves no node of its hash in the index.
use jekv.Partition.Bounds.{pt_write_reliable}
use jekv.Hash.Append.{HasNode-hash_append}
use jekv.Base.{
  ℕ, ◌+◌, ◌%◌, ◌≡◌, ◌<◌, ◌≤◌, refl, true, List, length, ok, arith, ap, inl, inr, Bool-cases, [],
  subst, u32, ◌*◌, ◌==◌, ◌∷◌, ◌≢◌,
}
use jekv.Config.{entry_count, item_state_using, item_state_droped, slice_size}
use jekv.Port.{Driver}
use jekv.Port.Laws.{IsReliable}
use jekv.Partition.{Partition, pt_write, pt_write_raw}
use jekv.Sector.State.{slice_offset}
use jekv.Item.{Item, decode, crc_hash, item_init}
use jekv.Hash.{nodes, hash_append, hash_erase}
use jekv.Hash.Index.{NoNode, hash_append-IsIndex, HasNode, NoNode-HasNode}
use jekv.Hash.Erase.{hash_erase-Erased}
use jekv.Sector.State.{Ctx}
use jekv.Sector.Find.First.{slice_address}
use jekv.Sector.Find.Gone.{Lacks, Erased-gone, Erased-old}
use jekv.Sector.Write.{entry_cnt, erase_item, bit_and}
use jekv.Sector.Write.Slices.{entry_cnt_pos}
use jekv.Sector.Write.RoundTrip.{IsReady, after_write}
use jekv.Sector.Write.Lookup.{made, head_read}

pt_write_raw-pt_write :
    ⦃d : Driver⦄ (pt : Partition) (a : ℕ) (bs : List ℕ) → pt_write_raw pt a bs ≡ pt_write pt a bs
unfolding pt_write pt_write_raw
pt_write_raw-pt_write pt a bs = refl

-- A drop answers what the device answers.
erase_item-pt_write_raw :
    ⦃d : Driver⦄ (x : Ctx) (index : ℕ) (item : Item)
    → (erase_item index item true x).0
      ≡ (pt_write_raw x.sec.pt (slice_offset x.sec index) (item_state_droped ∷ []) x.flash).0
unfolding erase_item
erase_item-pt_write_raw x index item = refl

module _ ⦃d : Driver⦄ (reliable : IsReliable d) (c : Ctx) (gid type : ℕ) (key buf : List ℕ)
    (seg_id : ℕ) where
  abbrev nf : ℕ
  nf = c.sec.next_free_slice

  abbrev after : Ctx
  after = after_write reliable c gid type key buf seg_id

  -- The first byte of the entry says that it is in use.
  state_byte : after.flash (slice_address c.sec nf) ≡ item_state_using
  unfolding decode item_init
  state_byte = ap (λ it. it.state) (head_read reliable c gid type key buf seg_id)

  -- The index of the sector after the write and the drop.
  pub dropped-Lacks :
      IsReady c
      → nf + entry_cnt (length buf) ≤ entry_count
      → NoNode 0 nf
          (crc_hash (made gid type key buf seg_id) % 16777216)
          (nodes c.sec.hash.hash_table)
      → Lacks
          (erase_item nf (made gid type key buf seg_id) true after).1
          (crc_hash (made gid type key buf seg_id) % 16777216)
  unfolding erase_item
  dropped-Lacks v room fresh =
      let item = made gid type key buf seg_id in
      let hash = crc_hash item % 16777216 in
      let small : nf < entry_count = omega (arith, room, entry_cnt_pos (length buf)) in
      let h' = (hash_append c.sec.hash item nf).1 in
      let order = hash_append-IsIndex c.sec.hash item nf reliable.allocs small v.indexed v.index in
      let erased = hash_erase-Erased h' nf order.0 in
      let gone = Erased-gone h' nf (hash_erase h' nf) order.0 erased in
      record {
        using = v.using;
        index = gone.0;
        gone = λ at has. elim (Bool-cases (at == nf)) [
          | inl e ↦
              let here : at ≡ nf = ground (arith, e) in
              gone.1 hash
                (subst (λ a. HasNode a hash (nodes (hash_erase h' nf).1.hash_table)) here has)
          | inr e ↦
              let off : at ≢ nf = ground (arith, e) in
              NoNode-HasNode (nodes c.sec.hash.hash_table) at nf hash v.indexed fresh (
                HasNode-hash_append c.sec.hash item nf at hash small off
                  (Erased-old h' nf at hash (hash_erase h' nf) erased off has))
        ];
      }

  pub dropped_ok :
      IsReady c
      → nf + entry_cnt (length buf) ≤ entry_count
      → (erase_item nf (made gid type key buf seg_id) true after).0 ≡ ok tt
  dropped_ok v room =
      let a = c.sec.address + (nf + 1) * slice_size in
      let at : u32 a ≡ a = omega (arith, v, room, entry_cnt_pos (length buf)) in
      let can : bit_and (after.flash (slice_address c.sec nf)) item_state_droped
          ≡ item_state_droped =
        rw state_byte refl in
      let w =
        pt_write_reliable reliable c.sec.pt v.placed.addressed a (item_state_droped ∷ [])
          after.flash v.writable (omega (arith, v, room, entry_cnt_pos (length buf))) (can, tt) in
      rw
        (
          erase_item-pt_write_raw after nf (made gid type key buf seg_id),
          at,
          pt_write_raw-pt_write c.sec.pt a (item_state_droped ∷ []),
          w,
        )
        refl
