-- ===== src/Storage/Groups/Free.antt =====
-- Which id storage_find_group gives.
use jekv.Config.{group_id_any}
use jekv.Storage.Groups.{in_map, free_id, strcmp_eq, find_group_by_name, find_group}
use jekv.Base.{
  ℕ, Bool-cases, List, Result, [], arith, err, fail, false, inl, inr, none, ok, refl, some, subst,
  suc, true, zero, ◌+◌, ◌<◌, ◌∷◌, ◌≡◌, ◌≤◌, ◌⊎◌, Option, ◌==◌, ==_iff,
}
use jekv.Storage.State.{Group}

-- What a search for a free id among `n` ids from `i` on returns.
record IsFree (gs : List Group) (n i id : ℕ) : Type 0 where
  pub behind : i ≤ id
  pub bounded : id ≤ n + i
  pub free : id < n + i → in_map gs id ≡ false
  pub lower : (j : ℕ) → i ≤ j → j < id → in_map gs j ≡ true

free_id-IsFree : (gs : List Group) (n i : ℕ) → IsFree gs n i (free_id gs n i)
unfolding free_id
free_id-IsFree gs zero i = record {
  behind = omega arith;
  bounded = omega arith;
  free = λ h. absurd (omega arith);
  lower = λ j lo hi. absurd (omega arith);
}
free_id-IsFree gs (suc n) i = elim (Bool-cases (in_map gs i)) [
  | inr e ↦ rw e (record {
    behind = omega arith;
    bounded = omega arith;
    free = λ h. e;
    lower = λ j lo hi. absurd (omega arith);
  })
  | inl e ↦
      let v = free_id-IsFree gs n (i + 1) in
      rw e (record {
        behind = omega (arith, v.behind);
        bounded = omega (arith, v.bounded);
        free = λ h. v.free (omega arith);
        lower = λ j lo hi. elim (Bool-cases (i == j)) [
          | inl same ↦ subst (λ k. in_map gs k ≡ true) ((==_iff i j).0 same) e
          | inr differ ↦ let past : i + 1 ≤ j = ground (arith, differ, lo) in v.lower j past hi
        ];
      })
]

-- No group of the list has this name.
abbrev pub NoGroup : List ℕ → List Group → Type 0
NoGroup name [] = Unit
NoGroup name (g ∷ gs) = (strcmp_eq g.name name ≡ false) × NoGroup name gs

abbrev pub HasGroup : List ℕ → ℕ → List Group → Type 0
HasGroup name id [] = ⊥
HasGroup name id (g ∷ gs) =
    ((strcmp_eq g.name name ≡ true) × (g.id ≡ id))
    ⊎ ((strcmp_eq g.name name ≡ false) × HasGroup name id gs)

abbrev pub GroupFound : List Group → List ℕ → Result (Unit {0}) × ℕ → Type 0
GroupFound gs name (ok _, id) = HasGroup name id gs
GroupFound gs name (err c, id) =
    (c ≡ fail)
    × NoGroup name gs
    × (1 ≤ id)
    × (id ≤ group_id_any)
    × (id < group_id_any → in_map gs id ≡ false)
    × ((j : ℕ) → 1 ≤ j → j < id → in_map gs j ≡ true)

-- What a search for a name may return.
abbrev ByName : List Group → List ℕ → Option Group → Type 0
ByName gs name none = NoGroup name gs
ByName gs name (some g) = HasGroup name g.id gs

ByName-cons :
    (g : Group) (gs : List Group) (name : List ℕ) (o : Option Group)
    → strcmp_eq g.name name ≡ false
    → ByName gs name o
    → ByName (g ∷ gs) name o
ByName-cons g gs name none e h = (e, h)
ByName-cons g gs name (some k) e h = inr (e, h)

find_group_by_name-ByName :
    (gs : List Group) (name : List ℕ) → ByName gs name (find_group_by_name gs name)
unfolding find_group_by_name
find_group_by_name-ByName [] name = tt
find_group_by_name-ByName (g ∷ gs) name = elim (Bool-cases (strcmp_eq g.name name)) [
  | inl e ↦ rw e (inl (e, refl))
  | inr e ↦
      rw e
        (ByName-cons g gs name (find_group_by_name gs name) e (find_group_by_name-ByName gs name))
]

-- storage_find_group returns OK with the id of the first group of that name; where no group has
-- the name it returns FAIL with the lowest id from 1 to 62 that no group has, or 63 where groups
-- have them all.
pub find_group-GroupFound :
    (gs : List Group) (name : List ℕ) → GroupFound gs name (find_group gs name)
unfolding find_group
find_group-GroupFound gs name =
    from_name (find_group_by_name gs name) (find_group_by_name-ByName gs name)
  where
    from_name :
        (o : Option Group)
        → ByName gs name o
        → GroupFound gs name
            (elim o [ some g ↦ (ok tt, g.id) | none ↦ (err fail, free_id gs 62 1) ])
    from_name none h =
        let v = free_id-IsFree gs 62 1 in (refl, h, v.behind, v.bounded, v.free, v.lower)
    from_name (some g) h = h
