-- ===== src/Iterator/Traversal.antt =====
-- A call of jekv_iterator_next moves the iterator ahead, whatever the driver answers.
use jekv.Base.{
  then_call, subst, ℕ, ◌*◌, ◌<◌, ◌≡◌, refl, List, [], ◌∷◌, Option, none, some, length, Result, ok,
  err, arith, true, ap, pure,
}
use jekv.Config.{item_state_using}
use jekv.Port.{Driver}
use jekv.Sector.Find.{Query, matches}
use jekv.Manager.Query.{Place}
use jekv.Storage.State.{StCtx}
use jekv.Manager.Recover.{blank_item}
use jekv.Ptm.{Cursor}
use jekv.Iterator.{
  moved, from, next_from, cursor_query, move_to, next_place, cursor_next, next_loop, next_over,
}
use jekv.Iterator.Ahead.{
  NoTwice, left_in, Same, Ahead, NoTwice-Tails, Tails, Tails-from, next_loop-Ahead, Ahead-from,
}

-- The iterator stands on an active sector, or has not been moved yet.
abbrev pub OnTrack : List ℕ → Cursor → Type 0
OnTrack active it = elim it.sector [ none ↦ Unit | some i ↦ 0 < length (from i active) ]

-- The slices that the iterator has not passed yet.
abbrev pub left : List ℕ → Cursor → ℕ
left active it = elim it.sector [
  | none ↦ 128 * length active
  | some i ↦ left_in (from i active) it.slice_index
]

-- What jekv_iterator_next does to an iterator: it ends, or it moves ahead to an item in use that
-- meets its query, and describes it.
abbrev pub Moves : Cursor → StCtx → Result (Option Cursor) × StCtx → Type 0
Moves it c (err code, c') = ⊥
Moves it c (ok none, c') = Same c c'
Moves it c (ok (some it'), c') =
    (at : Place) × (it' ≡ move_to c.storage.group_list at it)
    × (at.item.state ≡ item_state_using)
    × (matches (cursor_query it) at.item ≡ true)
    × Same c c'
    × OnTrack c.storage.sm.active it'
    × (left c.storage.sm.active it' < left c.storage.sm.active it)

module _ ⦃d : Driver⦄ where
  pub next_from_active :
      (q : Query) (i start j : ℕ) (js : List ℕ) (c : StCtx)
      → from i c.storage.sm.active ≡ j ∷ js
      → next_from q i start c ≡ next_loop q (j ∷ js) start blank_item c
  unfolding next_from next_over
  next_from_active q i start j js c e =
      ap (λ is. next_over q is (from i c.storage.sm.idle) start c) e

  next_from-Ahead :
      (q : Query) (i start : ℕ) (is : List ℕ) (c : StCtx)
      → NoTwice c.storage.sm.active
      → from i c.storage.sm.active ≡ is
      → 0 < length is
      → Ahead c.storage.sm.active q (left_in is start) c (next_from q i start c)
  next_from-Ahead q i start [] c once e lt = absurd (omega arith)
  next_from-Ahead q i start (j ∷ js) c once e lt =
      let every = c.storage.sm.active in
      let ends = subst (Tails every) e (Tails-from every every i (NoTwice-Tails every once)) in
      rw (next_from_active q i start j js c e)
        (next_loop-Ahead every (j ∷ js) q start blank_item c ends)

  first-Ahead :
      (it : Cursor) (active : List ℕ) (c : StCtx)
      → NoTwice c.storage.sm.active
      → c.storage.sm.active ≡ active
      → 0 < length active
      → Ahead c.storage.sm.active
          (cursor_query it)
          (128 * length active)
          c
          (next_place it none active c)
  unfolding next_place from
  first-Ahead it [] c once e lt = absurd (omega arith)
  first-Ahead it (i ∷ is) c once e lt =
      let whole : from i c.storage.sm.active ≡ i ∷ is = ground (arith, e) in
      Ahead-from c.storage.sm.active (cursor_query it) (left_in (i ∷ is) 0) (128 * length (i ∷ is))
        c c _ (refl, refl, refl) (omega arith)
        (next_from-Ahead (cursor_query it) i 0 (i ∷ is) c once whole (omega arith))

  next_place-Ahead :
      (it : Cursor) (sector : Option ℕ) (c : StCtx)
      → it.sector ≡ sector
      → NoTwice c.storage.sm.active
      → 0 < length c.storage.sm.active
      → OnTrack c.storage.sm.active it
      → Ahead c.storage.sm.active
          (cursor_query it)
          (left c.storage.sm.active it)
          c
          (next_place it sector c.storage.sm.active c)
  unfolding next_place
  next_place-Ahead it none c e once some_active track =
      rw e (first-Ahead it c.storage.sm.active c once refl some_active)
  next_place-Ahead it (some i) c e once some_active track = rw e (
      next_from-Ahead (cursor_query it) i it.slice_index (from i c.storage.sm.active) c once refl
        (rw e at track))

  Moves-of :
      (it : Cursor) (c : StCtx) (r : Result (Option Place) × StCtx)
      → Ahead c.storage.sm.active (cursor_query it) (left c.storage.sm.active it) c r
      → Moves it c (then_call r.0 (λ place. pure (moved c.storage.group_list it place)) r.1)
  unfolding move_to
  Moves-of it c (err code, c') a = a
  Moves-of it c (ok none, c') a = a
  Moves-of it c (ok (some at), c') a = (at, refl, a.1, a.2, a.0, a.3, a.4)

  -- Where the active sectors are distinct and there is one, a call of jekv_iterator_next with an
  -- iterator on an active sector does not fail: it ends, or it moves to an item in use that meets
  -- the query of the iterator, which then describes that item, and fewer slices are left in front of
  -- it; the device, the groups and the list of active sectors stay as they are.
  pub cursor_next-Moves :
      (it : Cursor) (c : StCtx)
      → NoTwice c.storage.sm.active
      → 0 < length c.storage.sm.active
      → OnTrack c.storage.sm.active it
      → Moves it c (cursor_next it c)
  unfolding cursor_next
  cursor_next-Moves it c once some_active track =
      Moves-of it c (next_place it it.sector c.storage.sm.active c)
        (next_place-Ahead it it.sector c refl once some_active track)
