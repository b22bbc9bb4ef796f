-- ===== src/Api/Walks.antt =====
-- Calling jekv_entry_next until it clears the pointer, as a caller that goes through a partition does.
use jekv.Base.{
  ℕ, zero, suc, ◌≡◌, ◌<◌, refl, sym, ap, ◌∙◌, subst, List, [], ◌∷◌, Option, none, some, length,
  Result, ok, err, not_found, arith, Exec, pure, ◌>>=◌, then_call,
}
use jekv.Port.{Driver}
use jekv.Storage.State.{Storage, StCtx}
use jekv.Ptm.{System, Cursor, storage_at}
use jekv.Iterator.{cursor_at, put_cursor, cursor_next, iterator_next, settle, move_to}
use jekv.Iterator.Ahead.{NoTwice}
use jekv.Iterator.Traversal.{Moves, OnTrack, left, cursor_next-Moves}
use jekv.Api.Entries.{entry_next}
use jekv.Api.RoundTrip.{storage_at-put_storage, behind_call, on_storage_at}

module _ ⦃d : Driver⦄ where
  -- At most `n` calls, as long as the pointer is not NULL: the last code, and the pointer.
  unfoldable pub walk : ℕ → ℕ → Exec System (Result (Unit {0}) × Option ℕ)
  unfolding entry_next
  walk zero a = pure (ok tt, some a)
  walk (suc n) a = do
    last ← entry_next (some (some a))
    elim last.1 [ none ↦ pure last | some b ↦ walk n b ]

cursor_at-at : (cs : List Cursor) (a : ℕ) (it : Cursor) → cursor_at cs a ≡ some it → it.at ≡ a
unfolding cursor_at
cursor_at-at [] a it e = absurd (ground (arith, e))
cursor_at-at (c ∷ cs) a it e = ground (arith, e, cursor_at-at cs a it)

cursor_at-put_cursor :
    (cs : List Cursor) (a : ℕ) (it it' : Cursor)
    → cursor_at cs a ≡ some it
    → it'.at ≡ a
    → cursor_at (put_cursor a it' cs) a ≡ some it'
unfolding cursor_at put_cursor
cursor_at-put_cursor [] a it it' e at = ground (arith, e)
cursor_at-put_cursor (c ∷ cs) a it it' e at =
    ground (arith, e, at, cursor_at-put_cursor cs a it it')

-- An iterator that is in use, on a storage that is in use and has an active sector, with fewer than
-- `n` slices in front of it.
pub record Walks (s : System) (a n : ℕ) (it : Cursor) (st : Storage) : Type 0 where
  pub allocated : cursor_at s.cursors a ≡ some it
  pub linked : storage_at s.storages it.storage ≡ some st
  pub once : NoTwice st.sm.active
  pub some_active : 0 < length st.sm.active
  pub track : OnTrack st.sm.active it
  pub near : left st.sm.active it < n

module _ ⦃d : Driver⦄ where
  entry_next_moved :
      (s : System) (a : ℕ) (it : Cursor) (st : Storage) (r : Option Cursor) (c : StCtx)
      → cursor_at s.cursors a ≡ some it
      → storage_at s.storages it.storage ≡ some st
      → cursor_next it (record { flash = s.flash; storage = st }) ≡ (ok r, c)
      → entry_next (some (some a)) s ≡ settle a r (behind_call s it.storage c)
  unfolding entry_next iterator_next
  entry_next_moved s a it st r c allocated linked e =
      rw
        (
          entry_next,
          iterator_next,
          allocated,
          on_storage_at s it.storage st (cursor_next it) (ok r) c linked e,
        )
        refl

  -- What a walk of `n` calls comes to.
  abbrev Done : System → Result (Result (Unit {0}) × Option ℕ) × System → Type 0
  Done s (r, s') = (r ≡ ok (err not_found, none)) × (s'.flash ≡ s.flash)

  walk_steps :
      (n a : ℕ) (s : System) (x : Result (Result (Unit {0}) × Option ℕ) × System)
      → entry_next (some (some a)) s ≡ x
      → walk (suc n) a s
        ≡ then_call x.0 (λ last. elim last.1 [ none ↦ pure last | some b ↦ walk n b ]) x.1
  unfolding walk
  walk_steps n a s x e = rw e refl

  walk-step :
      (n a : ℕ) (s : System) (it : Cursor) (st : Storage) (r : Result (Option Cursor) × StCtx)
      → ((s' : System) (it' : Cursor) (st' : Storage)
          → Walks s' a n it' st'
          → Done s' (walk n a s'))
      → Walks s a (suc n) it st
      → cursor_next it (record { flash = s.flash; storage = st }) ≡ r
      → Moves it (record { flash = s.flash; storage = st }) r
      → Done s (walk (suc n) a s)
  unfolding settle move_to
  walk-step n a s it st (err code, c) rest w e m = absurd m
  walk-step n a s it st (ok none, c) rest w e m =
      rw (walk_steps n a s _ (entry_next_moved s a it st none c w.allocated w.linked e)) (refl, m.0)
  walk-step n a s it st (ok (some it'), c) rest w e (place, made, used, match, same, on, less) =
      let s' : System = record (behind_call s it.storage c) {
        cursors = put_cursor a it' s.cursors;
      } in
      let at : it'.at ≡ a =
        ap (λ (i : Cursor). i.at) made ∙ cursor_at-at s.cursors a it w.allocated in
      let on_same : it'.storage ≡ it.storage = ap (λ (i : Cursor). i.storage) made in
      let every : st.sm.active ≡ c.storage.sm.active = sym same.1 in
      let w' : Walks s' a n it' c.storage = record {
        allocated = cursor_at-put_cursor s.cursors a it it' w.allocated at;
        linked =
            subst (λ x. storage_at s'.storages x ≡ some c.storage) (sym on_same)
              (storage_at-put_storage s.storages it.storage st c.storage w.linked);
        once = subst NoTwice every w.once;
        some_active = subst (λ (is : List ℕ). 0 < length is) every w.some_active;
        track = subst (λ (is : List ℕ). OnTrack is it') every on;
        near = subst (λ (is : List ℕ). left is it' < n) every (omega (arith, less, w.near));
      } in
      let (done, kept) = rest s' it' c.storage w' in
      rw (walk_steps n a s _ (entry_next_moved s a it st (some it') c w.allocated w.linked e))
        (done, kept ∙ same.0)

  walk-Done :
      (n a : ℕ) (s : System) (it : Cursor) (st : Storage) → Walks s a n it st → Done s (walk n a s)
  walk-Done zero a s it st w = absurd (omega (arith, w.near))
  walk-Done (suc n) a s it st w =
      let c : StCtx = record { flash = s.flash; storage = st } in
      walk-step n a s it st (cursor_next it c) (λ s' it' st'. walk-Done n a s' it' st') w refl
        (cursor_next-Moves it c w.once w.some_active w.track)

  -- Where an iterator is in use, stands on an active sector or has not been moved yet, and the active
  -- sectors of its storage are distinct: calling jekv_entry_next until it clears the caller's pointer
  -- comes to an end within as many calls as slices are left in front of the iterator, and one; an
  -- iterator that has not been moved has 128 for each active sector. The last call answers NOT_FOUND,
  -- the pointer is NULL, and the device is as before, whatever the driver answers.
  pub walk_end :
      (n a : ℕ) (s : System) (it : Cursor) (st : Storage)
      → Walks s a n it st
      → ((walk n a s).0 ≡ ok (err not_found, none)) × ((walk n a s).1.flash ≡ s.flash)
  walk_end n a s it st w = walk-Done n a s it st w
