-- ===== src/Ptm/Linked.antt =====
-- What holds between the two lists of src/jekv_partition_manager.c, and which functions keep it.
use jekv.Base.{
  ℕ, ◌≤◌, ◌≡◌, refl, sym, ◌∙◌, Bool, true, false, List, [], ◌∷◌, ◌++◌, Option, none, some, map,
  length, ◌==◌, Exec, Bool-cases, Option-cases, inl, inr, arith, ◌||◌,
}
use jekv.Config.{max_handle_num}
use jekv.Storage.State.{Storage, StCtx}
use jekv.Ptm.{
  Handle, Opened, System, Platform, Cursor, addresses, storage_at, put_storage, handle_at,
  on_storage, without_handle, ptm_close_handle,
}

abbrev pub is_some {ℓ} : {A : Type ℓ} → Option A → Bool
is_some none = false
is_some (some a) = true

-- Every handle is valid and points to a storage that is in use.
abbrev pub Linked : List Opened → List Handle → Type 0
Linked os [] = Unit
Linked os (h ∷ hs) = (is_some (storage_at os h.storage) ≡ true) × (h.valid ≡ true) × Linked os hs

-- No two handles have the same address.
abbrev pub Distinct : List Handle → Type 0
Distinct [] = Unit
Distinct (h ∷ hs) = (handle_at hs h.at ≡ none) × Distinct hs

pub record IsLinked (s : System) : Type 0 where
  pub linked : Linked s.storages s.handles
  pub distinct : Distinct s.handles
  pub few : length s.handles ≤ max_handle_num

abbrev pub is_in : ℕ → List ℕ → Bool
is_in a [] = false
is_in a (b ∷ bs) = b == a || is_in a bs

-- The allocator grants no address that is in use.
abbrev pub IsFresh : Platform → Type 0
IsFresh p = (used : List ℕ) → is_in (p.fresh used) used ≡ false

is_in-append : (a : ℕ) (bs cs : List ℕ) → is_in a (bs ++ cs) ≡ (is_in a bs || is_in a cs)
is_in-append a [] cs = refl
is_in-append a (b ∷ bs) cs = ground (arith, is_in-append a bs cs)

handle_at-fresh :
    (a : ℕ) (hs : List Handle)
    → is_in a (map (λ (h : Handle). h.at) hs) ≡ false
    → handle_at hs a ≡ none
unfolding handle_at
handle_at-fresh a [] e = refl
handle_at-fresh a (h ∷ hs) e = ground (arith, handle_at-fresh a hs)

-- A new handle has an address that no other one has.
pub fresh_handle :
    (p : Platform) → IsFresh p → (s : System) → handle_at s.handles (p.fresh (addresses s)) ≡ none
fresh_handle p fresh s =
    let a = p.fresh (addresses s) in
    let others = map (λ (h : Handle). h.at) s.handles in
    let rest = others ++ map (λ (c : Cursor). c.at) s.cursors in
    handle_at-fresh a s.handles (
      ground (
        arith,
        fresh (addresses s),
        is_in-append a (map (λ (o : Opened). o.at) s.storages) rest,
        is_in-append a others (map (λ (c : Cursor). c.at) s.cursors),
      ))

-- The storages of another list are at the same addresses.
abbrev pub SameAddresses : List Opened → List Opened → Type 0
SameAddresses os qs = (a : ℕ) → is_some (storage_at os a) ≡ is_some (storage_at qs a)

Linked-congr :
    (os qs : List Opened) (hs : List Handle) → SameAddresses os qs → Linked os hs → Linked qs hs
Linked-congr os qs [] same l = tt
Linked-congr os qs (h ∷ hs) same l =
    (sym (same h.storage) ∙ l.0, l.1, Linked-congr os qs hs same l.2)

pub put_storage-SameAddresses :
    (a : ℕ) (st : Storage) (os : List Opened) → SameAddresses os (put_storage a st os)
unfolding put_storage storage_at
put_storage-SameAddresses a st [] b = refl
put_storage-SameAddresses a st (o ∷ os) b = ground (arith, put_storage-SameAddresses a st os b)

-- A call that works on the storage of an address keeps the lists linked, whatever it does there.
pub on_storage-IsLinked :
    {A : Type 0} (a : ℕ) (m : Exec StCtx A) (s : System)
    → IsLinked s
    → IsLinked (on_storage a m s).1
unfolding on_storage
on_storage-IsLinked a m s l = elim (Option-cases (storage_at s.storages a)) [
  | inl e ↦ rw (e, on_storage) l
  | inr (st, e) ↦
      rw (e, on_storage)
        (let c = (m (record { flash = s.flash; storage = st })).1 in
          record {
            linked =
                Linked-congr s.storages (put_storage a c.storage s.storages) s.handles
                  (put_storage-SameAddresses a c.storage s.storages) l.linked;
            distinct = l.distinct;
            few = l.few;
          })
]

-- Such a call leaves the handles alone, and no storage comes or goes.
pub on_storage-handles :
    {A : Type 0} (a : ℕ) (m : Exec StCtx A) (s : System)
    → ((on_storage a m s).1.handles ≡ s.handles)
      × SameAddresses s.storages (on_storage a m s).1.storages
unfolding on_storage
on_storage-handles a m s = elim (Option-cases (storage_at s.storages a)) [
  | inl e ↦ rw (e, on_storage) (refl, λ b. refl)
  | inr (st, e) ↦ rw (e, on_storage) (refl, put_storage-SameAddresses a _ s.storages)
]

handle_at-without :
    (a b : ℕ) (hs : List Handle) → handle_at hs b ≡ none → handle_at (without_handle a hs) b ≡ none
unfolding handle_at without_handle
handle_at-without a b [] e = refl
handle_at-without a b (h ∷ hs) e = ground (arith, handle_at-without a b hs)

Distinct-without_handle : (a : ℕ) (hs : List Handle) → Distinct hs → Distinct (without_handle a hs)
unfolding without_handle
Distinct-without_handle a [] d = tt
Distinct-without_handle a (h ∷ hs) d = elim (Bool-cases (h.at == a)) [
  | inl e ↦ rw e d.1
  | inr e ↦ rw e (handle_at-without a h.at hs d.0, Distinct-without_handle a hs d.1)
]

Linked-without_handle :
    (a : ℕ) (os : List Opened) (hs : List Handle) → Linked os hs → Linked os (without_handle a hs)
unfolding without_handle
Linked-without_handle a os [] l = tt
Linked-without_handle a os (h ∷ hs) l = elim (Bool-cases (h.at == a)) [
  | inl e ↦ rw e l.2
  | inr e ↦ rw e (l.0, l.1, Linked-without_handle a os hs l.2)
]

length-without_handle : (a : ℕ) (hs : List Handle) → length (without_handle a hs) ≤ length hs
unfolding without_handle
length-without_handle a [] = omega arith
length-without_handle a (h ∷ hs) = ground (arith, length-without_handle a hs)

pub close_handle-IsLinked : (a : ℕ) (s : System) → IsLinked s → IsLinked (ptm_close_handle a s).1
unfolding ptm_close_handle
close_handle-IsLinked a s l = elim (Option-cases (handle_at s.handles a)) [
  | inl e ↦ rw (e, ptm_close_handle) l
  | inr (h, e) ↦
      rw (e, ptm_close_handle)
        (record {
          linked = Linked-without_handle a s.storages s.handles l.linked;
          distinct = Distinct-without_handle a s.handles l.distinct;
          few = omega (arith, length-without_handle a s.handles, l.few);
        })
]
