-- ===== src/Manager/Load/Order.antt =====
-- The active sectors in the order of their serial numbers.
use mathlib.Core.List.{Perm, perm_middle, perm_append_singleton}
use mathlib.Core.List.Perm
use jekv.Base.{◌++◌, ℕ, List, [], ◌∷◌, ◌≤◌, arith, Bool-cases, inl, inr, ltb}
use jekv.Manager.State.{Manager, sector_at}
use jekv.Manager.Load.{insert_active, is_idle_state, place_sector}

abbrev pub serial_of : Manager → ℕ → ℕ
serial_of sm i = (sector_at sm i).serial_number

-- Serial numbers from `from` on that do not fall.
abbrev pub Sorted : Manager → ℕ → List ℕ → Type 0
Sorted sm from [] = Unit
Sorted sm from (i ∷ is) = (from ≤ serial_of sm i) × Sorted sm (serial_of sm i) is

insert_active-Sorted_from :
    (sm : Manager) (from i : ℕ) (is : List ℕ)
    → from ≤ serial_of sm i
    → Sorted sm from is
    → Sorted sm from (insert_active sm i is)
unfolding insert_active
insert_active-Sorted_from sm from i [] h s = (h, tt)
insert_active-Sorted_from sm from i (j ∷ js) h s =
    elim (Bool-cases (ltb (serial_of sm i) (serial_of sm j))) [
      | inl e ↦ rw e (ground (arith, e, h, s))
      | inr e ↦
          rw e (s.0, insert_active-Sorted_from sm (serial_of sm j) i js (ground (arith, e)) s.1)
    ]

insert_active-Perm : (sm : Manager) (i : ℕ) (is : List ℕ) → Perm (i ∷ is) (insert_active sm i is)
unfolding insert_active
insert_active-Perm sm i [] = Perm.refl (i ∷ [])
insert_active-Perm sm i (j ∷ js) = elim (Bool-cases (ltb (serial_of sm i) (serial_of sm j))) [
  | inl e ↦ rw e (Perm.refl (i ∷ j ∷ js))
  | inr e ↦ rw e (Perm.trans (Perm.swap j i js) (Perm.cons j (insert_active-Perm sm i js)))
]

-- Where the active sectors are in the order of their serial numbers, a sector that is loaded goes
-- to one of the lists, no other sector leaves them, and the active ones stay in that order.
pub place_sector-Sorted :
    (i : ℕ) (sm : Manager)
    → Sorted sm 0 sm.active
    → Sorted (place_sector i sm) 0 (place_sector i sm).active
      × Perm (i ∷ (sm.active ++ sm.idle)) ((place_sector i sm).active ++ (place_sector i sm).idle)
unfolding place_sector
place_sector-Sorted i sm s = elim (Bool-cases (is_idle_state (sector_at sm i).state)) [
  | inl e ↦ rw e (
    s,
    Perm.trans (Perm.symm (perm_middle sm.active sm.idle))
        (Perm.append_left sm.active (Perm.symm (perm_append_singleton i sm.idle))),
  )
  | inr e ↦ rw e (
    insert_active-Sorted_from sm 0 i sm.active (omega arith) s,
    Perm.append_right sm.idle (insert_active-Perm sm i sm.active),
  )
]
