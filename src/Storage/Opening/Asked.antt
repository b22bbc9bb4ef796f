-- ===== src/Storage/Opening/Asked.antt =====
-- The id that jekv_storage_open_group gives is that of the group asked for, or one that is free.
use jekv.Base.{
  ℕ, ◌≡◌, ◌≤◌, ◌<◌, ◌⊎◌, refl, true, false, List, [], ◌∷◌, ◌==◌, if◌then◌else◌, Result,
  Result-cases, Bool-cases, inl, inr, ok, err, is_ok, arith, Exec, pure, raise, no_space, ◌>>◌,
  subst,
}
use jekv.Config.{group_id_any, group_itself_id, type_uint8, max_key_len}
use jekv.Port.{Driver}
use jekv.Item.{strnlen}
use jekv.Storage.State.{Group, StCtx}
use jekv.Storage.Groups.{in_map, find_group, add_group}
use jekv.Storage.Groups.Free.{NoGroup, HasGroup, GroupFound, find_group-GroupFound}
use jekv.Storage.Items.{storage_write_item}
use jekv.Storage.Opening.{open_group}

-- The id of the first group of that name, or, where no group has it, the lowest id from 1 to 62 that
-- no group has.
abbrev pub Asked : List Group → List ℕ → ℕ → Type 0
Asked gs group id =
    HasGroup group id gs
    ⊎ (NoGroup group gs
        × (1 ≤ id)
        × (id < group_id_any)
        × (in_map gs id ≡ false)
        × ((j : ℕ) → 1 ≤ j → j < id → in_map gs j ≡ true))

module _ ⦃d : Driver⦄ (turns : ℕ) (group : List ℕ) where
  -- What jekv_storage_open_group does behind the search for the group.
  abbrev then_open : Result (Unit {0}) × ℕ → Exec StCtx ℕ
  then_open r =
      if is_ok r.0
      then pure r.1
      else if r.1 == group_id_any
      then raise no_space
      else (storage_write_item turns group_itself_id type_uint8 group (r.1 ∷ [])
          >> (add_group r.1 group (strnlen group max_key_len) >> pure r.1))

  open_group_steps :
      (c : StCtx) → open_group turns group c ≡ then_open (find_group c.storage.group_list group) c
  unfolding open_group
  open_group_steps c = refl

  then_open-Asked :
      (gs : List Group) (r : Result (Unit {0}) × ℕ) (c : StCtx) (id : ℕ)
      → GroupFound gs group r
      → (then_open r c).0 ≡ ok id
      → Asked gs group id
  then_open-Asked gs (ok u, k) c id found e =
      let same : k ≡ id = ground (arith, e) in inl (subst (λ n. HasGroup group n gs) same found)
  then_open-Asked gs (err code, k) c id (fails, none_there, one, le, free, lower) e =
      elim (Bool-cases (k == group_id_any)) [
        | inl full ↦ absurd (ground (arith, e, full))
        | inr other ↦
            let write = storage_write_item turns group_itself_id type_uint8 group (k ∷ []) in
            let m = add_group k group (strnlen group max_key_len) in
            let same : k ≡ id = elim (Result-cases (write c).0) [
              | inr (code', f) ↦ absurd (ground (arith, e, other, f))
              | inl (u, f) ↦ elim (Result-cases (m (write c).1).0) [
                | inr (code', g) ↦ absurd (ground (arith, e, other, f, g))
                | inl (u', g) ↦ ground (arith, e, other, f, g)
              ]
            ] in
            let below : k < group_id_any = ground (arith, other, le) in
            inr (
              subst
                (λ n.
                  NoGroup group gs
                  × (1 ≤ n)
                  × (n < group_id_any)
                  × (in_map gs n ≡ false)
                  × ((j : ℕ) → 1 ≤ j → j < n → in_map gs j ≡ true))
                same (none_there, one, below, free below, lower))
      ]

  pub open_group-Asked :
      (c : StCtx) (id : ℕ)
      → (open_group turns group c).0 ≡ ok id
      → Asked c.storage.group_list group id
  open_group-Asked c id e =
      let gs = c.storage.group_list in
      then_open-Asked gs (find_group gs group) c id (find_group-GroupFound gs group)
        (subst (λ r. r.0 ≡ ok id) (open_group_steps c) e)
