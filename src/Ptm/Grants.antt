-- ===== src/Ptm/Grants.antt =====
-- What the partition manager promises: a map from handles to what they grant. Opening adds a grant,
-- closing revokes one, and closing a partition revokes all of its grants.
use jekv.Storage.State.{Storage, StCtx}
use jekv.Storage.Opening.Asked.{Asked, open_group-Asked}
use mathlib.Core.Path.{fun_ext}
use jekv.Base.{
  ℕ, ◌≡◌, refl, ap, List, [], ◌∷◌, ◌++◌, Option, none, some, length, ◌==◌, if◌then◌else◌, Result,
  Result-cases, Bool-cases, Option-cases, inl, inr, ok, err, arith, leb, ◌&&◌, invalid_handle,
  not_found, Exec,
}
use jekv.Config.{max_handle_num, op_read_write}
use jekv.Port.{Driver}
use jekv.Storage.Opening.{open_group}
use jekv.Ptm.{
  Handle, Opened, System, Platform, handle_at, on_storage, find_storage, without_storage,
  without_handle, ptm_deinit, ptm_close_handle, handler_open, open_on, ptm_open_handle, is_in_using,
  storage_at,
}
use jekv.Ptm.Linked.{is_some, Distinct, IsLinked, IsFresh, fresh_handle, on_storage-handles}

-- What an open handle grants: a group of a storage, to read or to write.
pub record Grant : Type 0 where
  pub storage : ℕ
  pub group_id : ℕ
  pub mode : ℕ

abbrev pub Grants : Type 0
Grants = ℕ → Option Grant

abbrev pub grant_of : Option Handle → Option Grant
grant_of none = none
grant_of (some h) = some (record { storage = h.storage; group_id = h.group_id; mode = h.mode })

-- The view of the system that the promise is about.
abbrev pub grants : System → Grants
grants s a = grant_of (handle_at s.handles a)

abbrev pub granted : ℕ → Grant → Grants → Grants
granted a x g b = if b == a then some x else g b

abbrev pub revoke : ℕ → Grants → Grants
revoke a g b = if b == a then none else g b

abbrev pub unless_of : ℕ → Option Grant → Option Grant
unless_of a none = none
unless_of a (some x) = if x.storage == a then none else some x

abbrev pub revoke_all : ℕ → Grants → Grants
revoke_all a g b = unless_of a (g b)

grant_at-without_handle :
    (a b : ℕ) (hs : List Handle)
    → Distinct hs
    → grant_of (handle_at (without_handle a hs) b)
      ≡ (if b == a then none else grant_of (handle_at hs b))
unfolding handle_at without_handle
grant_at-without_handle a b [] d = ground arith
grant_at-without_handle a b (h ∷ hs) d = ground (arith, grant_at-without_handle a b hs)

grant_at-without_storage :
    (a b : ℕ) (hs : List Handle)
    → Distinct hs
    → grant_of (handle_at (without_storage a hs) b) ≡ unless_of a (grant_of (handle_at hs b))
unfolding handle_at without_storage
grant_at-without_storage a b [] d = refl
grant_at-without_storage a b (h ∷ hs) d = ground (arith, grant_at-without_storage a b hs)

grant_at-append :
    (hs : List Handle) (h : Handle) (b : ℕ)
    → handle_at hs h.at ≡ none
    → grant_of (handle_at (hs ++ (h ∷ [])) b)
      ≡ (if b == h.at then grant_of (some h) else grant_of (handle_at hs b))
unfolding handle_at
grant_at-append [] h b e = ground arith
grant_at-append (i ∷ hs) h b e = ground (arith, grant_at-append hs h b)

-- A handle that is closed is revoked; one that is not open is refused.
abbrev pub Closes : System → ℕ → Result (Unit {0}) × System → Type 0
Closes s a (r, t) =
    (r ≡ (if is_some (grants s a) then ok tt else err invalid_handle))
    × (grants t ≡ revoke a (grants s))

-- Closing the partition that has the name revokes the grants on its storage.
abbrev pub Shuts : System → Option Opened → Result (Unit {0}) × System → Type 0
Shuts s none (r, t) = (r ≡ err not_found) × (t ≡ s)
Shuts s (some o) (r, t) = (r ≡ ok tt) × (grants t ≡ revoke_all o.at (grants s))

-- A new handle was not open before, and grants the group asked for, or the lowest free id where there
-- is no such group yet, of the partition of that name, in the mode asked for; where none is opened,
-- nothing is granted.
abbrev pub Opens : System → List ℕ → List ℕ → ℕ → Result ℕ × System → Type 0
Opens s name group mode (ok a, t) =
    (o : Opened) × (st : Storage) × (id : ℕ) × (find_storage s.storages name ≡ some o)
    × (storage_at s.storages o.at ≡ some st)
    × Asked st.group_list group id
    × (grants s a ≡ none)
    × (grants t ≡ granted a (record { storage = o.at; group_id = id; mode = mode }) (grants s))
Opens s name group mode (err code, t) = grants t ≡ grants s

close_handle-Closes : (a : ℕ) (s : System) → IsLinked s → Closes s a (ptm_close_handle a s)
unfolding ptm_close_handle
close_handle-Closes a s l = elim (Option-cases (handle_at s.handles a)) [
  | inl e ↦ rw (e, ptm_close_handle) (refl, fun_ext (λ b. ground (arith, e)))
  | inr (h, e) ↦
      rw (e, ptm_close_handle)
        (refl, fun_ext (λ b. grant_at-without_handle a b s.handles l.distinct))
]

deinit-Shuts :
    (name : List ℕ) (s : System)
    → IsLinked s
    → Shuts s (find_storage s.storages name) (ptm_deinit name s)
unfolding ptm_deinit
deinit-Shuts name s l = elim (Option-cases (find_storage s.storages name)) [
  | inl e ↦ rw (e, ptm_deinit) (refl, refl)
  | inr (o, e) ↦
      rw (e, ptm_deinit) (refl, fun_ext (λ b. grant_at-without_storage o.at b s.handles l.distinct))
]

module _ ⦃d : Driver⦄ ⦃p : Platform⦄ (fresh : IsFresh p) where
  -- What a new handle adds to the grants of a system with the same handles.
  handler_open-Opens :
      (o : Opened) (st : Storage) (id mode : ℕ) (name group : List ℕ) (s t : System)
      → find_storage s.storages name ≡ some o
      → storage_at s.storages o.at ≡ some st
      → Asked st.group_list group id
      → t.handles ≡ s.handles
      → Opens s name group mode (handler_open o.at id mode t)
  unfolding handler_open
  handler_open-Opens o st id mode name group s t found here asked same =
      elim (Bool-cases (d.can_alloc 20)) [
        | inr e ↦ rw (e, same) refl
        | inl e ↦
            let new = fresh_handle p fresh t in
            rw (e, ← same)
              (
                o,
                st,
                id,
                found,
                here,
                asked,
                ap grant_of new,
                fun_ext (λ b. grant_at-append t.handles _ b new),
              )
      ]

  -- The storage on which a call has succeeded.
  on_storage-ok :
      {A : Type 0} (a : ℕ) (m : Exec StCtx A) (s : System) (x : A)
      → (on_storage a m s).0 ≡ ok x
      → (st : Storage) × (storage_at s.storages a ≡ some st)
        × ((m (record { flash = s.flash; storage = st })).0 ≡ ok x)
  unfolding on_storage
  on_storage-ok a m s x e = elim (Option-cases (storage_at s.storages a)) [
    | inl f ↦ absurd (ground (arith, e, f))
    | inr (st, f) ↦ (st, f, ground (arith, e, f))
  ]

  open_on-Opens :
      (turns : ℕ) (o : Opened) (name group : List ℕ) (mode : ℕ) (s : System)
      → find_storage s.storages name ≡ some o
      → Opens s name group mode (open_on turns o group mode s)
  unfolding open_on
  open_on-Opens turns o name group mode s found =
      let m = open_group turns group in
      let same = (on_storage-handles o.at m s).0 in
      elim (Bool-cases (mode == op_read_write && o.storage.sm.pt.readonly)) [
        | inl e ↦ rw (e, open_on) refl
        | inr e ↦ elim (Result-cases (on_storage o.at m s).0) [
          | inr (code, f) ↦ rw (e, f, open_on) (rw same refl)
          | inl (id, f) ↦
              let (st, here, done) = on_storage-ok o.at m s id f in
              let asked =
                open_group-Asked turns group (record { flash = s.flash; storage = st }) id done in
              rw (e, f, open_on)
                (handler_open-Opens o st id mode name group s (on_storage o.at m s).1 found here
                  asked same)
        ]
      ]

  open_handle-Opens :
      (turns : ℕ) (name group : List ℕ) (mode : ℕ) (s : System)
      → Opens s name group mode (ptm_open_handle turns name group mode s)
  unfolding ptm_open_handle
  open_handle-Opens turns name group mode s = elim (Bool-cases (is_in_using s)) [
    | inr e ↦ rw (e, ptm_open_handle) refl
    | inl e ↦ elim (Bool-cases (leb max_handle_num (length s.handles))) [
      | inl f ↦ rw (e, f, ptm_open_handle) refl
      | inr f ↦ elim (Option-cases (find_storage s.storages name)) [
        | inl g ↦ rw (e, f, g, ptm_open_handle) refl
        | inr (o, g) ↦ rw (e, f, g, ptm_open_handle) (open_on-Opens turns o name group mode s g)
      ]
    ]
  ]

  -- The partition manager keeps a map from handles to grants. A handle that is opened was not open,
  -- and then grants, in the mode asked for, a group of the partition of that name: the first one that
  -- has the name asked for, or, where none has, the lowest id from 1 to 62 that no group has; the
  -- other grants stay. A failed open changes no grant. Closing a handle revokes it alone, and is
  -- refused with INVALID_HANDLE exactly where it grants nothing; closing a partition revokes the
  -- grants on its storage alone, and is refused with NOT_FOUND where no partition has the name. This
  -- holds where the lists are linked and the allocator grants no address that is in use.
  pub ptm_refines-Grants :
      (turns : ℕ) (name group : List ℕ) (mode a : ℕ) (s : System)
      → IsLinked s
      → Opens s name group mode (ptm_open_handle turns name group mode s)
        × Closes s a (ptm_close_handle a s)
        × Shuts s (find_storage s.storages name) (ptm_deinit name s)
  ptm_refines-Grants turns name group mode a s l =
      (open_handle-Opens turns name group mode s, close_handle-Closes a s l, deinit-Shuts name s l)
