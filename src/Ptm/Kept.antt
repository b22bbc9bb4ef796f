-- ===== src/Ptm/Kept.antt =====
-- jekv_ptm_init, jekv_ptm_deinit and jekv_ptm_open_handle keep the lists linked.
use jekv.Base.{
  ℕ, ◌≤◌, ◌<◌, ◌≡◌, refl, true, false, List, [], ◌∷◌, ◌++◌, none, some, length, ◌==◌, Result-cases,
  Bool-cases, Option-cases, inl, inr, arith, length-append, Result, err, leb, ok, sym, ◌&&◌, ◌∙◌,
}
use jekv.Config.{max_handle_num, op_read_write}
use jekv.Port.{Driver, Flash}
use jekv.Partition.{pt_init}
use jekv.Storage.Opening.{storage_init, open_group}
use jekv.Ptm.{
  Handle, Opened, System, Platform, storage_at, handle_at, find_storage, without_storage,
  close_storage, ptm_deinit, handler_open, ptm_init, add_storage, is_in_using, on_storage, open_on,
  ptm_open_handle, StCtx,
}
use jekv.Ptm.Linked.{
  is_some, Linked, Distinct, IsLinked, IsFresh, fresh_handle, on_storage-IsLinked,
  on_storage-handles,
}

storage_at-close :
    (a b : ℕ) (os : List Opened)
    → (b == a) ≡ false
    → storage_at (close_storage a os) b ≡ storage_at os b
unfolding storage_at close_storage
storage_at-close a b [] e = refl
storage_at-close a b (o ∷ os) e = ground (arith, storage_at-close a b os)

Linked-without_storage :
    (a : ℕ) (os : List Opened) (hs : List Handle)
    → Linked os hs
    → Linked (close_storage a os) (without_storage a hs)
unfolding without_storage
Linked-without_storage a os [] l = tt
Linked-without_storage a os (h ∷ hs) l = elim (Bool-cases (h.storage == a)) [
  | inl e ↦ rw e (Linked-without_storage a os hs l.2)
  | inr e ↦
      rw e (rw (storage_at-close a h.storage os e) l.0, l.1, Linked-without_storage a os hs l.2)
]

handle_at-without_storage :
    (a b : ℕ) (hs : List Handle) → handle_at hs b ≡ none → handle_at (without_storage a hs) b ≡ none
unfolding handle_at without_storage
handle_at-without_storage a b [] e = refl
handle_at-without_storage a b (h ∷ hs) e = ground (arith, handle_at-without_storage a b hs)

Distinct-without_storage :
    (a : ℕ) (hs : List Handle) → Distinct hs → Distinct (without_storage a hs)
unfolding without_storage
Distinct-without_storage a [] d = tt
Distinct-without_storage a (h ∷ hs) d = elim (Bool-cases (h.storage == a)) [
  | inl e ↦ rw e (Distinct-without_storage a hs d.1)
  | inr e ↦ rw e (handle_at-without_storage a h.at hs d.0, Distinct-without_storage a hs d.1)
]

length-without_storage : (a : ℕ) (hs : List Handle) → length (without_storage a hs) ≤ length hs
unfolding without_storage
length-without_storage a [] = omega arith
length-without_storage a (h ∷ hs) = ground (arith, length-without_storage a hs)

-- Closing a partition closes its handles with it.
pub deinit-IsLinked : (name : List ℕ) (s : System) → IsLinked s → IsLinked (ptm_deinit name s).1
unfolding ptm_deinit
deinit-IsLinked name s l = elim (Option-cases (find_storage s.storages name)) [
  | inl e ↦ rw (e, ptm_deinit) l
  | inr (o, e) ↦
      rw (e, ptm_deinit)
        (record {
          linked = Linked-without_storage o.at s.storages s.handles l.linked;
          distinct = Distinct-without_storage o.at s.handles l.distinct;
          few = omega (arith, length-without_storage o.at s.handles, l.few);
        })
]

storage_at-append :
    (os qs : List Opened) (a : ℕ)
    → is_some (storage_at os a) ≡ true
    → is_some (storage_at (os ++ qs) a) ≡ true
unfolding storage_at
storage_at-append [] qs a e = absurd (ground arith)
storage_at-append (o ∷ os) qs a e = ground (arith, storage_at-append os qs a)

Linked-append : (os qs : List Opened) (hs : List Handle) → Linked os hs → Linked (os ++ qs) hs
Linked-append os qs [] l = tt
Linked-append os qs (h ∷ hs) l =
    (storage_at-append os qs h.storage l.0, l.1, Linked-append os qs hs l.2)

handle_at-append_none :
    (hs : List Handle) (h : Handle) (a : ℕ)
    → handle_at hs a ≡ none
    → (h.at == a) ≡ false
    → handle_at (hs ++ (h ∷ [])) a ≡ none
unfolding handle_at
handle_at-append_none [] h a e n = ground arith
handle_at-append_none (i ∷ hs) h a e n = ground (arith, handle_at-append_none hs h a)

Distinct-append :
    (hs : List Handle) (h : Handle)
    → Distinct hs
    → handle_at hs h.at ≡ none
    → Distinct (hs ++ (h ∷ []))
unfolding handle_at
Distinct-append [] h d e = (refl, tt)
Distinct-append (i ∷ hs) h d e =
    (handle_at-append_none hs h i.at d.0 (ground arith), Distinct-append hs h d.1 (ground arith))

Linked-append_handle :
    (os : List Opened) (hs : List Handle) (h : Handle)
    → Linked os hs
    → is_some (storage_at os h.storage) ≡ true
    → h.valid ≡ true
    → Linked os (hs ++ (h ∷ []))
Linked-append_handle os [] h l at v = (at, v, tt)
Linked-append_handle os (i ∷ hs) h l at v = (l.0, l.1, Linked-append_handle os hs h l.2 at v)

-- What is found under a name stands at its address.
pub find_storage-at :
    (os : List Opened) (name : List ℕ) (o : Opened)
    → find_storage os name ≡ some o
    → is_some (storage_at os o.at) ≡ true
unfolding find_storage storage_at
find_storage-at [] name o e = absurd (ground arith)
find_storage-at (q ∷ os) name o e = ground (arith, find_storage-at os name o)

module _ ⦃d : Driver⦄ ⦃p : Platform⦄ where
  add_storage-IsLinked :
      (r : Result StCtx × Flash) (s : System) → IsLinked s → IsLinked (add_storage r s).1
  add_storage-IsLinked (ok c, f) s l = record {
    linked = Linked-append s.storages _ s.handles l.linked;
    distinct = l.distinct;
    few = l.few;
  }
  add_storage-IsLinked (err code, f) s l = record {
    linked = l.linked;
    distinct = l.distinct;
    few = l.few;
  }

  pub init-IsLinked : (name : List ℕ) (s : System) → IsLinked s → IsLinked (ptm_init name s).1
  unfolding ptm_init
  init-IsLinked name s l = elim (Option-cases (find_storage s.storages name)) [
    | inr (o, e) ↦ rw (e, ptm_init) l
    | inl e ↦ elim (Result-cases (pt_init name (p.partition_info name))) [
      | inr (code, f) ↦ rw (e, f, ptm_init) l
      | inl (pt, f) ↦ rw (e, f, ptm_init) (add_storage-IsLinked (storage_init pt s.flash) s l)
    ]
  ]

  handler_open-IsLinked :
      (storage group_id mode : ℕ) (s : System)
      → IsFresh p
      → is_some (storage_at s.storages storage) ≡ true
      → length s.handles < max_handle_num
      → IsLinked s
      → IsLinked (handler_open storage group_id mode s).1
  unfolding handler_open
  handler_open-IsLinked storage group_id mode s fresh at room l =
      elim (Bool-cases (d.can_alloc 20)) [
        | inr e ↦ rw e l
        | inl e ↦ rw e (record {
          linked = Linked-append_handle s.storages s.handles _ l.linked at refl;
          distinct = Distinct-append s.handles _ l.distinct (fresh_handle p fresh s);
          few = omega (arith, length-append s.handles, room);
        })
      ]

  open_on-IsLinked :
      (turns : ℕ) (o : Opened) (group : List ℕ) (mode : ℕ) (s : System)
      → IsFresh p
      → is_some (storage_at s.storages o.at) ≡ true
      → length s.handles < max_handle_num
      → IsLinked s
      → IsLinked (open_on turns o group mode s).1
  unfolding open_on
  open_on-IsLinked turns o group mode s fresh at room l =
      let m = open_group turns group in
      let kept = on_storage-handles o.at m s in
      let l' = on_storage-IsLinked o.at m s l in
      elim (Bool-cases (mode == op_read_write && o.storage.sm.pt.readonly)) [
        | inl e ↦ rw (e, open_on) l
        | inr e ↦ elim (Result-cases (on_storage o.at m s).0) [
          | inr (code, f) ↦ rw (e, f, open_on) l'
          | inl (id, f) ↦
              rw (e, f, open_on)
                (handler_open-IsLinked o.at id mode (on_storage o.at m s).1 fresh
                  (sym (kept.1 o.at) ∙ at) (rw kept.0 room) l')
        ]
      ]

  pub open_handle-IsLinked :
      (turns : ℕ) (name group : List ℕ) (mode : ℕ) (s : System)
      → IsFresh p
      → IsLinked s
      → IsLinked (ptm_open_handle turns name group mode s).1
  unfolding ptm_open_handle
  open_handle-IsLinked turns name group mode s fresh l = elim (Bool-cases (is_in_using s)) [
    | inr e ↦ rw (e, ptm_open_handle) l
    | inl e ↦ elim (Bool-cases (leb max_handle_num (length s.handles))) [
      | inl f ↦ rw (e, f, ptm_open_handle) l
      | inr f ↦ elim (Option-cases (find_storage s.storages name)) [
        | inl g ↦ rw (e, f, g, ptm_open_handle) l
        | inr (o, g) ↦
            rw (e, f, g, ptm_open_handle)
              (open_on-IsLinked turns o group mode s fresh (find_storage-at s.storages name o g)
                (ground (arith, f)) l)
      ]
    ]
  ]
