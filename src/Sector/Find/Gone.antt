-- ===== src/Sector/Find/Gone.antt =====
-- A keyed search returns slices of the index only, so none that has been dropped from it.
use jekv.Sector.Write.{erase_item}
use jekv.Item.{crc_hash}
use jekv.Base.{
  sym, subst, ◌>>=◌, ℕ, Exec, List, Result, Result-cases, arith, err, inl, inr, ok, some, subst,
  ℤ-cases, ◌%◌, ◌+◌, ◌≡◌, Bool-cases, ltb, min, suc, true, zero, ◌-◌, ◌≢◌, negsuc, pos, refl, ℤ,
}
use jekv.Hash.Index.{HasNode, IsIndex, hash_find-Found, Found}
use jekv.Hash.Erase.{Erased, hash_erase-Erased}
use jekv.Sector.Find.{
  Query, FindCtx, look, locate, read_slice, Verdict, verdict, act_on, probe, Driver, get_span, Item,
  find_item, find_loop, find_step, searchable, entry_count, Ctx,
}
use jekv.Config.{sector_state_using}
use jekv.Hash.Index.{HasNode}
use jekv.Hash.{hash_find, nodes, Hash, hash_erase}

-- A sector in use whose index is in order and has no node of `hash`.
pub record Lacks (c : Ctx) (hash : ℕ) : Type 0 where
  pub using : c.sec.state ≡ sector_state_using
  pub index : IsIndex c.sec.hash
  pub gone : (at : ℕ) → ¬ HasNode at hash (nodes c.sec.hash.hash_table)

-- The slice that a search returns, if it returns one, has a node in the index.
abbrev pub FromIndex : Hash → Result ℕ → Type 0
FromIndex h (ok at) = (hash : ℕ) × HasNode at hash (nodes h.hash_table)
FromIndex h (err c) = Unit

module _ ⦃d : Driver⦄ (h : Hash) (v : IsIndex h) (q : Query) (key : List ℕ) where
  abbrev keyed : Query
  keyed = record q { key = some key }

  read_slice-hash : (at : ℕ) (c : FindCtx) → c.sec.hash ≡ h → (read_slice at c).1.sec.hash ≡ h
  unfolding read_slice
  read_slice-hash at c e = ground (arith, e)

  look-FromIndex :
      (k : ℕ → Exec FindCtx ℕ) (at : ℕ) (c : FindCtx)
      → c.sec.hash ≡ h
      → ((hash : ℕ) × HasNode at hash (nodes h.hash_table))
      → ((next : ℕ) (c : FindCtx) → c.sec.hash ≡ h → FromIndex h (k next c).0)
      → FromIndex h (look k keyed at c).0
  unfolding look
  look-FromIndex k at c e here rest = elim (Result-cases (read_slice at c).0) [
    | inr (code, e') ↦ rw (e', look) tt
    | inl (u, e') ↦ rw (e', look) (after (verdict keyed (read_slice at c).1.item))
  ]
    where
      after :
          (r : Verdict) → FromIndex h (act_on k at (read_slice at c).1.item r (read_slice at c).1).0
      after Verdict.hit = here
      after Verdict.skip =
          rest (at + get_span (read_slice at c).1.item) (read_slice at c).1 (read_slice-hash at c e)
      after Verdict.stop = tt

  locate-FromIndex :
      (m : ℕ → Exec FindCtx ℕ) (start : ℕ) (c : FindCtx)
      → c.sec.hash ≡ h
      → ((at : ℕ) (item : Item)
          → ((hash : ℕ) × HasNode at hash (nodes h.hash_table))
          → FromIndex h (m at (record c { item = item })).0)
      → FromIndex h ((locate keyed keyed.key start >>= m) c).0
  locate-FromIndex m start c e found = elim (ℤ-cases (hash_find h start (probe keyed key))) [
    | inr (k, f) ↦ rw (as_found (negsuc k) f) tt
    | inl (at, f) ↦
        let spot =
          subst (λ z. Found (nodes h.hash_table) start (crc_hash (probe keyed key) % 16777216) z) f
            (hash_find-Found h start (probe keyed key) v) in
        rw (as_found (pos at) f)
          (found at (probe keyed key) (crc_hash (probe keyed key) % 16777216, spot.0))
  ]
    where
      as_found :
          (z : ℤ)
          → hash_find h start (probe keyed key) ≡ z
          → hash_find c.sec.hash start (probe keyed key) ≡ z
      as_found z f = subst (λ x. hash_find x start (probe keyed key) ≡ z) (sym e) f

  find_loop-FromIndex :
      (fuel start end : ℕ) (c : FindCtx)
      → c.sec.hash ≡ h
      → FromIndex h (find_loop fuel keyed start end c).0
  unfolding find_loop find_step
  find_loop-FromIndex zero start end c e = tt
  find_loop-FromIndex (suc fuel) start end c e = elim (Bool-cases (ltb start end)) [
    | inr e' ↦ rw (e', find_step) tt
    | inl e' ↦
        rw (e', find_step)
          (locate-FromIndex (look (λ next. find_loop fuel keyed next end) keyed) start c e
            (λ at item here.
              look-FromIndex (λ next. find_loop fuel keyed next end) at (record c { item = item }) e
                here (λ next c' same. find_loop-FromIndex fuel next end c' same)))
  ]

  find_item-FromIndex :
      (start : ℕ) (c : FindCtx) → c.sec.hash ≡ h → FromIndex h (find_item keyed start c).0
  unfolding find_item
  find_item-FromIndex start c e = elim (Bool-cases (searchable c.sec)) [
    | inr e' ↦ rw (e', find_item) tt
    | inl e' ↦ elim (Bool-cases (ltb start entry_count)) [
      | inr e'' ↦ rw (e', e'', find_item) tt
      | inl e'' ↦
          let end = min c.sec.next_free_slice entry_count in
          rw (e', e'', find_item) (find_loop-FromIndex (end - start) start end c e)
    ]
  ]

-- Erasing leaves no node that was not there.
pub Erased-old :
    (h : Hash) (index at hash : ℕ) (r : Result (Unit {0}) × Hash)
    → Erased h index r
    → at ≢ index
    → HasNode at hash (nodes r.1.hash_table)
    → HasNode at hash (nodes h.hash_table)
Erased-old h index at hash (ok u, h') (order, gone, kept) off has = (kept at hash off).0 has
Erased-old h index at hash (err c, h') (code, same, gone) off has =
    subst (λ x. HasNode at hash (nodes x.hash_table)) same has

-- What erasing leaves is an index in order without a node at `index`.
pub Erased-gone :
    (h : Hash) (index : ℕ) (r : Result (Unit {0}) × Hash)
    → IsIndex h
    → Erased h index r
    → IsIndex r.1 × ((hash : ℕ) → ¬ HasNode index hash (nodes r.1.hash_table))
Erased-gone h index (ok u, h') v (order, gone, kept) = (order, gone)
Erased-gone h index (err c, h') v (code, same, gone) = (
  subst IsIndex (sym same) v,
  subst (λ x. (hash : ℕ) → ¬ HasNode index hash (nodes x.hash_table)) (sym same) gone,
)

-- Where the index is in order, a slice that has been dropped together with its node is not what a
-- search with a key returns, whatever the device answers to the drop or to the search.
pub find_item-erase_item :
    ⦃d : Driver⦄ (c : Ctx) (index : ℕ) (item : Item) (q : Query) (key : List ℕ) (start : ℕ)
    (buffer : Item)
    → IsIndex c.sec.hash
    → (find_item
        (record q { key = some key })
        start
        (record {
          flash = (erase_item index item true c).1.flash;
          sec = (erase_item index item true c).1.sec;
          item = buffer;
        })).0
      ≢ ok index
unfolding erase_item
find_item-erase_item c index item q key start buffer v found =
    let h' = (hash_erase c.sec.hash index).1 in
    let gone =
      Erased-gone c.sec.hash index (hash_erase c.sec.hash index) v
        (hash_erase-Erased c.sec.hash index v) in
    let from = find_item-FromIndex h' gone.0 q key start _ refl in
    let node = subst (λ r. FromIndex h' r) found from in gone.1 node.0 node.1
