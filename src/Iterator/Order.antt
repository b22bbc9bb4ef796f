-- ===== src/Iterator/Order.antt =====
-- jekv_iterator_next goes through the entries of the active sectors in order.
use jekv.Iterator.Traversal.{next_from_active}
use jekv.Base.{
  ℕ, ◌+◌, ◌*◌, ◌≡◌, ◌<◌, refl, sym, ap, ◌∙◌, true, List, [], ◌∷◌, Option, none, some, min, Result,
  ok, err, not_found, arith, then_call, pure, set, set-get_or, inl, inr, Bool-cases, ltb, ltb→lt,
  leb_of_ltb, le→leb, u32, subst,
}
use jekv.Config.{entry_count, slice_size}
use jekv.Port.{Flash, Driver}
use jekv.Port.Laws.{IsReliable}
use jekv.Partition.{in_range, pt_read_item, device_read}
use jekv.Item.{Item, get_span}
use jekv.Sector.State.{Sector, slice_offset}
use jekv.Sector.Find.{Query, FindCtx, find_item, find_into, searchable}
use jekv.Sector.Find.First.{IsPlaced, Walk, item_at, unkeyed, find_item-Walk}
use jekv.Sector.Find.Sound.{Hits, find_item-Hits, find_item_end}
use jekv.Manager.State.{Manager, sector_at, zero_sector}
use jekv.Manager.Query.{Place}
use jekv.Manager.Recover.{blank_item}
use jekv.Storage.State.{StCtx, on_sec, Group}
use jekv.Ptm.{Cursor}
use jekv.Iterator.{
  from, cursor_query, cursor_next, next_loop, next_from, next_place, moved, move_to, entry_of,
}

-- A sector that is searched: it lies in its partition and is neither bad nor uninitialised.
abbrev pub IsOpen : ⦃d : Driver⦄ → Sector → Type 0
IsOpen sec = IsPlaced sec × (searchable sec ≡ true)

-- The first entry in use that meets the query, of those from slice `start` of the first sector on,
-- and then of those of the sectors that follow: its sector and its slice, or none.
pub data Leads ⦃d : Driver⦄ (f : Flash) (sm : Manager) (q : Query)
    : List ℕ → ℕ → Option (ℕ × ℕ) → Type 0 where
  ended : {start : ℕ} → Leads f sm q [] start none
  here :
      {i start at : ℕ} {is : List ℕ}
      → IsOpen (sector_at sm i)
      → Walk f (sector_at sm i) q (min (sector_at sm i).next_free_slice entry_count) start (some at)
      → Leads f sm q (i ∷ is) start (some (i, at))
  later :
      {i start : ℕ} {is : List ℕ} {r : Option (ℕ × ℕ)}
      → IsOpen (sector_at sm i)
      → Walk f (sector_at sm i) q (min (sector_at sm i).next_free_slice entry_count) start none
      → Leads f sm q is 0 r
      → Leads f sm q (i ∷ is) start r

-- The place of an entry, with its item as it stands on the device.
abbrev pub place_of : Flash → Manager → Option (ℕ × ℕ) → Option Place
place_of f sm none = none
place_of f sm (some (i, at)) =
    some (record { sector = i; index = at; item = item_at f (sector_at sm i) at })

Walk-bounds :
    (f : Flash) (sec : Sector) (q : Query) (end i : ℕ) (r : Option ℕ)
    → Walk f sec q end i r
    → (at : ℕ) → r ≡ some at
    → (i < end) × (at < end)
Walk-bounds f sec q end i none (Walk.past h) at e = absurd (ground (arith, e))
Walk-bounds f sec q end i none (Walk.halt h s) at e = absurd (ground (arith, e))
Walk-bounds f sec q end i (some k) (Walk.first lt s) at e =
    let same : k ≡ at = ground (arith, e) in (lt, omega (arith, same, lt))
Walk-bounds f sec q end i r (Walk.over lt s w) at e = (lt, (Walk-bounds f sec q end _ r w at e).1)

ok_inj : {a b : Item} → ok a ≡ ok b → a ≡ b
ok_inj e = ground (arith, e)

module _ ⦃d : Driver⦄ (reliable : IsReliable d) where
  item_read :
      (f : Flash) (sec : Sector) (i : ℕ)
      → IsPlaced sec
      → i < entry_count
      → (pt_read_item sec.pt (slice_offset sec i) f).0 ≡ ok (item_at f sec i)
  unfolding pt_read_item device_read
  item_read f sec i placed lt =
      let a = sec.address + (i + 1) * slice_size in
      let e : u32 a ≡ a = omega (arith, placed) in
      let inside : in_range sec.pt (u32 a) slice_size ≡ true =
        le→leb (u32 (u32 a + slice_size)) sec.pt.size (omega (arith, placed)) in
      let at : u32 (sec.pt.offset + a) ≡ sec.pt.offset + a = omega (arith, placed) in
      rw (inside, e, at, reliable.reads)

module _ ⦃d : Driver⦄ (reliable : IsReliable d) (c : StCtx) (q : Query) where
  abbrev searched : ℕ → Item → FindCtx
  searched i item = record { flash = c.flash; sec = sector_at c.storage.sm i; item = item }

  -- The result and the buffer of a search of one sector.
  find_found :
      (i start at : ℕ) (item : Item)
      → IsOpen (sector_at c.storage.sm i)
      → Walk c.flash
          (sector_at c.storage.sm i)
          (unkeyed q)
          (min (sector_at c.storage.sm i).next_free_slice entry_count)
          start
          (some at)
      → find_item (unkeyed q) start (searched i item)
        ≡ (ok at, searched i (item_at c.flash (sector_at c.storage.sm i) at))
  find_found i start at item (placed, good) w =
      let sec = sector_at c.storage.sm i in
      let end = min sec.next_free_slice entry_count in
      let (from_start, below) = Walk-bounds c.flash sec (unkeyed q) end start (some at) w at refl in
      let (item', e) =
        find_item-Walk reliable c.flash sec q start (some at) item placed good
          (omega (arith, from_start)) w in
      let hit =
        subst (λ r. Hits c.flash sec (unkeyed q) start r) e
          (find_item-Hits (unkeyed q) start (searched i item)) in
      let same : item' ≡ item_at c.flash sec at =
        ok_inj (sym hit.read ∙ item_read reliable c.flash sec at placed (omega (arith, below))) in
      e ∙ ap (λ it. (ok at, searched i it)) same

  find_none :
      (i start : ℕ) (item : Item)
      → IsOpen (sector_at c.storage.sm i)
      → Walk c.flash
          (sector_at c.storage.sm i)
          (unkeyed q)
          (min (sector_at c.storage.sm i).next_free_slice entry_count)
          start
          none
      → (item' : Item) × (find_item (unkeyed q) start (searched i item)
          ≡ (err not_found, searched i item'))
  find_none i start item (placed, good) w = elim (Bool-cases (ltb start entry_count)) [
    | inl e ↦
        find_item-Walk reliable c.flash (sector_at c.storage.sm i) q start none item placed good
          (ltb→lt start entry_count e) w
    | inr e ↦
        (item, find_item_end (unkeyed q) start (searched i item) (leb_of_ltb start entry_count e))
  ]

  -- What a search of sector `i` leaves of the storage.
  abbrev settled : ℕ → Result ℕ × FindCtx → Result (Result ℕ × Item) × StCtx
  settled i x = (
    ok (x.0, x.1.item),
    record {
      flash = x.1.flash;
      storage = record c.storage {
        sm = record c.storage.sm { sec_arr = set c.storage.sm.sec_arr i x.1.sec };
      };
    },
  )

  on_sec-settled :
      (k : Query) (i start : ℕ) (item : Item)
      → on_sec i (find_into k start item) c ≡ settled i (find_item k start (searched i item))
  on_sec-settled k i start item = refl

  settled_same : (i : ℕ) (r : Result ℕ) (b : Item) → settled i (r, searched i b) ≡ (ok (r, b), c)
  settled_same i r b =
      ap
        (λ arr. (
          ok (r, b),
          record c { storage = record c.storage { sm = record c.storage.sm { sec_arr = arr } } },
        ))
        (set-get_or c.storage.sm.sec_arr i (zero_sector c.storage.sm.pt))

  abbrev then_next : ℕ → List ℕ → Result (Result ℕ × Item) × StCtx → Result (Option Place) × StCtx
  then_next i is x =
      then_call x.0
        (λ (p : Result ℕ × Item). elim p.0 [
          | ok at ↦ pure (some (record { sector = i; index = at; item = p.1 }))
          | err code ↦ next_loop (unkeyed q) is 0 p.1
        ])
        x.1

  next_loop-then_next :
      (i start : ℕ) (is : List ℕ) (item : Item)
      → next_loop (unkeyed q) (i ∷ is) start item c
        ≡ then_next i is (on_sec i (find_into (unkeyed q) start item) c)
  unfolding next_loop
  next_loop-then_next i start is item = refl

  next_loop-Leads :
      (is : List ℕ) (start : ℕ) (item : Item) (r : Option (ℕ × ℕ))
      → Leads c.flash c.storage.sm (unkeyed q) is start r
      → next_loop (unkeyed q) is start item c ≡ (ok (place_of c.flash c.storage.sm r), c)
  unfolding next_loop
  next_loop-Leads [] start item r ended = refl
  next_loop-Leads (i ∷ is) start item r (here {at = at} good w) =
      let b = item_at c.flash (sector_at c.storage.sm i) at in
      next_loop-then_next i start is item
      ∙ (ap (then_next i is) (on_sec-settled (unkeyed q) i start item)
          ∙ (ap (λ x. then_next i is (settled i x)) (find_found i start at item good w)
              ∙ ap (then_next i is) (settled_same i (ok at) b)))
  next_loop-Leads (i ∷ is) start item r (later good w rest) =
      let (b, e) = find_none i start item good w in
      next_loop-then_next i start is item
      ∙ (ap (then_next i is) (on_sec-settled (unkeyed q) i start item)
          ∙ (ap (λ x. then_next i is (settled i x)) e
              ∙ (ap (then_next i is) (settled_same i (err not_found) b)
                  ∙ next_loop-Leads is 0 b r rest)))

-- The sectors that an iterator has in front of it, and the slice of the first one to go on from.
abbrev pub sectors_ahead : List ℕ → Cursor → List ℕ
sectors_ahead active it = elim it.sector [ none ↦ active | some i ↦ from i active ]

abbrev pub slice_ahead : Cursor → ℕ
slice_ahead it = elim it.sector [ none ↦ 0 | some i ↦ it.slice_index ]

-- The iterator on an entry: it goes on from the slice behind the entry, and describes its item as it
-- stands on the device.
abbrev pub on_entry : List Group → Flash → Manager → Cursor → Option (ℕ × ℕ) → Option Cursor
on_entry gs f sm it none = none
on_entry gs f sm it (some (i, at)) =
    let item = item_at f (sector_at sm i) at in
    some (record it { sector = some i; slice_index = at + get_span item; info = entry_of gs item })

moved-on_entry :
    (gs : List Group) (f : Flash) (sm : Manager) (it : Cursor) (r : Option (ℕ × ℕ))
    → moved gs it (place_of f sm r) ≡ on_entry gs f sm it r
unfolding move_to
moved-on_entry gs f sm it none = refl
moved-on_entry gs f sm it (some (i, at)) = refl

module _ ⦃d : Driver⦄ (reliable : IsReliable d) where
  next_from-Leads :
      (q : Query) (i start j : ℕ) (js : List ℕ) (c : StCtx) (r : Option (ℕ × ℕ))
      → from i c.storage.sm.active ≡ j ∷ js
      → Leads c.flash c.storage.sm (unkeyed q) (j ∷ js) start r
      → next_from (unkeyed q) i start c ≡ (ok (place_of c.flash c.storage.sm r), c)
  next_from-Leads q i start j js c r e leads =
      next_from_active (unkeyed q) i start j js c e
      ∙ next_loop-Leads reliable c q (j ∷ js) start blank_item r leads

  first-Leads :
      (it : Cursor) (active : List ℕ) (c : StCtx) (j : ℕ) (js : List ℕ) (r : Option (ℕ × ℕ))
      → c.storage.sm.active ≡ active
      → active ≡ j ∷ js
      → Leads c.flash c.storage.sm (cursor_query it) (j ∷ js) 0 r
      → next_place it none active c ≡ (ok (place_of c.flash c.storage.sm r), c)
  unfolding next_place from
  first-Leads it [] c j js r e ahead leads = absurd (ground (arith, ahead))
  first-Leads it (i ∷ is) c j js r e ahead leads =
      let whole : from i c.storage.sm.active ≡ j ∷ js = ground (arith, e, ahead) in
      next_from-Leads (cursor_query it) i 0 j js c r whole leads

  next_place-Leads :
      (it : Cursor) (sector : Option ℕ) (c : StCtx) (j : ℕ) (js : List ℕ) (r : Option (ℕ × ℕ))
      → (elim sector [ none ↦ c.storage.sm.active | some i ↦ from i c.storage.sm.active ]) ≡ j ∷ js
      → Leads c.flash c.storage.sm
          (cursor_query it)
          (j ∷ js)
          (elim sector [ none ↦ 0 | some i ↦ it.slice_index ])
          r
      → next_place it sector c.storage.sm.active c ≡ (ok (place_of c.flash c.storage.sm r), c)
  unfolding next_place
  next_place-Leads it none c j js r ahead leads =
      first-Leads it c.storage.sm.active c j js r refl ahead leads
  next_place-Leads it (some i) c j js r ahead leads =
      next_from-Leads (cursor_query it) i it.slice_index j js c r ahead leads

  -- With a reliable driver, and an iterator that has active sectors in front of it: if these lie in
  -- the partition, are neither bad nor uninitialised, and their entries lead, from where the iterator
  -- is, to an entry in use that meets the query of the iterator as the first one, jekv_iterator_next
  -- moves it to the slice behind that entry and describes the item that stands there on the device; if
  -- they lead to none, it comes to the end. Device and storage stay as they are.
  pub cursor_next-Leads :
      (it : Cursor) (c : StCtx) (j : ℕ) (js : List ℕ) (r : Option (ℕ × ℕ))
      → sectors_ahead c.storage.sm.active it ≡ j ∷ js
      → Leads c.flash c.storage.sm (cursor_query it) (j ∷ js) (slice_ahead it) r
      → cursor_next it c ≡ (ok (on_entry c.storage.group_list c.flash c.storage.sm it r), c)
  unfolding cursor_next
  cursor_next-Leads it c j js r ahead leads =
      ap
        (λ (x : Result (Option Place) × StCtx).
          then_call x.0 (λ place. pure (moved c.storage.group_list it place)) x.1)
        (next_place-Leads it it.sector c j js r ahead leads)
      ∙ ap (λ m. (ok m, c)) (moved-on_entry c.storage.group_list c.flash c.storage.sm it r)
