-- ===== src/Api/Refusals.antt =====
-- Calls of the public interface with a closed or a read-only handle, and what they leave as it is.
use jekv.Storage.Items.Reads.{storage_read_item-flash, storage_find_key-flash}
use jekv.Storage.Items.{storage_read_item, storage_find_key}
use jekv.Storage.State.{StCtx}
use jekv.Api.Entries.{entry_find_by_handle}
use jekv.Base.{
  ℕ, ◌≡◌, refl, ◌⊎◌, inl, inr, Bool, true, false, ◌&&◌, List, Option, none, some, ltb, leb, length,
  Result, err, arith, Bool-cases, Option-cases, invalid_param, invalid_handle, read_only, Code, [],
  ◌∷◌, fault, ok, Exec, Result-cases, ◌≢◌,
}
use jekv.Config.{op_read_only, max_key_len, type_blob_seg, type_blob}
use jekv.Port.{Driver}
use jekv.Ptm.{
  Handle, System, handle_at, without_handle, is_handle_valid, ptm_close_handle, Opened, Platform,
  on_storage, storage_at,
}
use jekv.Ptm.Linked.{Distinct, IsLinked, Linked}
use jekv.Api.Sessions.{close}
use jekv.Api.Values.{
  is_value_type, deref_handle, valid_handle, writable_handle, get_item, set_item, del_key,
  del_group, read_value, get_info,
}

-- A call that has changed nothing and has answered INVALID_PARAM or the code `c`.
abbrev pub Refused : {A : Type 0} → Code → System → Result A × System → Type 0
Refused c s (r, t) = (t ≡ s) × ((r ≡ err invalid_param) ⊎ (r ≡ err c))

valid_handle-closed :
    (h : ℕ) (s : System)
    → is_handle_valid s.handles h ≡ false
    → valid_handle h s ≡ (err invalid_handle, s)
unfolding valid_handle
valid_handle-closed h s e = rw e refl

writable_handle-closed :
    (h : ℕ) (s : System)
    → is_handle_valid s.handles h ≡ false
    → writable_handle h s ≡ (err invalid_handle, s)
unfolding writable_handle
writable_handle-closed h s e = rw (valid_handle-closed h s e) refl

writable_handle-read_only :
    (h : ℕ) (s : System) (i : Handle)
    → handle_at s.handles h ≡ some i
    → i.valid ≡ true
    → i.mode ≡ op_read_only
    → writable_handle h s ≡ (err read_only, s)
unfolding writable_handle valid_handle is_handle_valid deref_handle
writable_handle-read_only h s i e v m = ground arith

module _ ⦃d : Driver⦄ (s : System) (h : ℕ) (c : Code)
    (shut : writable_handle h s ≡ (err c, s)) where
  set_item-Refused :
      (turns type : ℕ) (key value : Option (List ℕ))
      → Refused c s (set_item turns (some h) type key value s)
  unfolding set_item
  set_item-Refused turns type none value = (refl, inl refl)
  set_item-Refused turns type (some key) none = (refl, inl refl)
  set_item-Refused turns type (some key) (some value) = elim (Bool-cases (is_value_type type)) [
    | inr e ↦ rw (e, set_item) (refl, inl refl)
    | inl e ↦ elim (Bool-cases (ltb 0 (length key) && leb (length key) max_key_len)) [
      | inr f ↦ rw (e, f, set_item) (refl, inl refl)
      | inl f ↦ rw (e, f, shut, set_item) (refl, inr refl)
    ]
  ]

  del_key-Refused : (key : Option (List ℕ)) → Refused c s (del_key (some h) key s)
  unfolding del_key
  del_key-Refused none = (refl, inl refl)
  del_key-Refused (some key) = rw (shut, del_key) (refl, inr refl)

module _ ⦃d : Driver⦄ (s : System) (h : ℕ) (shut : is_handle_valid s.handles h ≡ false) where
  get_item-Refused :
      (type : ℕ) (key : Option (List ℕ)) (out : Bool) (size : Option ℕ)
      → Refused invalid_handle s (get_item (some h) type key out size s)
  unfolding get_item read_value
  get_item-Refused type none out size = (refl, inl refl)
  get_item-Refused type (some key) out none = (refl, inl refl)
  get_item-Refused type (some key) out (some size) =
      elim (Bool-cases (out && ltb 0 size && is_value_type type)) [
        | inr e ↦ rw (e, get_item) (refl, inl refl)
        | inl e ↦ rw (e, valid_handle-closed h s shut, get_item) (refl, inr refl)
      ]

  close-Refused : Refused invalid_handle s (close (some h) s)
  unfolding close
  close-Refused = rw shut (refl, inr refl)

handle_at-closed :
    (a : ℕ) (hs : List Handle) → Distinct hs → handle_at (without_handle a hs) a ≡ none
unfolding handle_at without_handle
handle_at-closed a [] d = refl
handle_at-closed a (h ∷ hs) d = ground (arith, handle_at-closed a hs)

valid_at :
    (os : List Opened) (hs : List Handle) (a : ℕ) (h : Handle)
    → Linked os hs
    → handle_at hs a ≡ some h
    → h.valid ≡ true
unfolding handle_at
valid_at os [] a h l e = ground (arith, e)
valid_at os (i ∷ hs) a h l e = ground (arith, e, l, valid_at os hs a h)

-- In linked lists, no handle has the address of one that jekv_close has been called with.
closed-gone : (h : ℕ) (s : System) → IsLinked s → handle_at (close (some h) s).1.handles h ≡ none
unfolding close is_handle_valid ptm_close_handle
closed-gone h s l = elim (Option-cases (handle_at s.handles h)) [
  | inl e ↦ ground (arith, e)
  | inr (i, e) ↦
      let v = valid_at s.storages s.handles h i l.linked e in
      ground (arith, e, v, handle_at-closed h s.handles l.distinct)
]

closed-invalid :
    (h : ℕ) (s : System) → handle_at s.handles h ≡ none → is_handle_valid s.handles h ≡ false
unfolding is_handle_valid
closed-invalid h s e = rw (is_handle_valid, e) refl

module _ ⦃d : Driver⦄ (s : System) (h : ℕ) (gone : handle_at s.handles h ≡ none) where
  del_group-Refused : Refused fault s (del_group (some h) s)
  unfolding del_group deref_handle
  del_group-Refused = rw (gone, del_group) (refl, inr refl)

  get_info-Refused :
      (key : Option (List ℕ)) (type_out size_out : Bool)
      → Refused fault s (get_info (some h) key type_out size_out s)
  unfolding get_info deref_handle
  get_info-Refused none type_out size_out = (refl, inl refl)
  get_info-Refused (some key) type_out size_out = elim (Bool-cases (type_out && size_out)) [
    | inr e ↦ rw (e, get_info) (refl, inl refl)
    | inl e ↦ rw (e, gone, get_info) (refl, inr refl)
  ]

  entry_find_by_handle-Refused :
      ⦃p : Platform⦄ (type : ℕ) (out : Bool)
      → Refused invalid_handle s (entry_find_by_handle (some h) type out s)
  unfolding entry_find_by_handle
  entry_find_by_handle-Refused type out = elim (Bool-cases (ltb type type_blob_seg && out)) [
    | inr e ↦ rw (e, entry_find_by_handle) (refl, inl refl)
    | inl e ↦ rw (e, closed-invalid h s gone, entry_find_by_handle) (refl, inr refl)
  ]

module _ ⦃d : Driver⦄ ⦃p : Platform⦄ where
  -- After jekv_close, whatever it answered, every call of the public interface with that handle fails
  -- and has no effect on the lists and the device; the lists must be linked before. The setters, the
  -- getters, jekv_del_key, jekv_entry_find_by_handle and a further jekv_close answer INVALID_HANDLE;
  -- jekv_del_group and jekv_get_info read the handle that has been freed, the code `fault` of the
  -- model. Any of them may answer INVALID_PARAM for its other arguments instead.
  pub closed_handle-Refused :
      (h : ℕ) (s : System) (turns type : ℕ) (key value : Option (List ℕ)) (out size_out : Bool)
      (size : Option ℕ)
      → IsLinked s
      → Refused invalid_handle
          (close (some h) s).1
          (set_item turns (some h) type key value (close (some h) s).1)
        × Refused invalid_handle
            (close (some h) s).1
            (get_item (some h) type key out size (close (some h) s).1)
        × Refused invalid_handle (close (some h) s).1 (del_key (some h) key (close (some h) s).1)
        × Refused invalid_handle
            (close (some h) s).1
            (entry_find_by_handle (some h) type out (close (some h) s).1)
        × Refused invalid_handle (close (some h) s).1 (close (some h) (close (some h) s).1)
        × Refused fault (close (some h) s).1 (del_group (some h) (close (some h) s).1)
        × Refused fault
            (close (some h) s).1
            (get_info (some h) key out size_out (close (some h) s).1)
  closed_handle-Refused h s turns type key value out size_out size l =
      let t = (close (some h) s).1 in
      let gone = closed-gone h s l in
      let shut = closed-invalid h t gone in
      let no_write = writable_handle-closed h t shut in
      (
        set_item-Refused t h invalid_handle no_write turns type key value,
        get_item-Refused t h shut type key out size,
        del_key-Refused t h invalid_handle no_write key,
        entry_find_by_handle-Refused t h gone type out,
        close-Refused t h shut,
        del_group-Refused t h gone,
        get_info-Refused t h gone key out size_out,
      )

module _ ⦃d : Driver⦄ where
  on_storage-flash :
      {A : Type 0} (a : ℕ) (m : Exec StCtx A) (s : System)
      → ((c : StCtx) → (m c).1.flash ≡ c.flash)
      → (on_storage a m s).1.flash ≡ s.flash
  unfolding on_storage
  on_storage-flash a m s same = elim (Option-cases (storage_at s.storages a)) [
    | inl e ↦ rw (on_storage, e) refl
    | inr (st, e) ↦ rw (on_storage, e) (same (record { flash = s.flash; storage = st }))
  ]

  get_item-flash :
      (h : ℕ) (s : System) (i : Handle) (type : ℕ) (key : Option (List ℕ)) (out : Bool)
      (size : Option ℕ)
      → valid_handle h s ≡ (ok i, s)
      → type ≢ type_blob
      → (get_item (some h) type key out size s).1.flash ≡ s.flash
  unfolding get_item read_value
  get_item-flash h s i type none out size here plain = refl
  get_item-flash h s i type (some key) out none here plain = refl
  get_item-flash h s i type (some key) out (some size) here plain =
      elim (Bool-cases (out && ltb 0 size && is_value_type type)) [
        | inr e ↦ rw (e, get_item) refl
        | inl e ↦
            rw (e, get_item, read_value, here)
              (on_storage-flash i.storage (storage_read_item i.group_id type key size) s
                (λ c. storage_read_item-flash i.group_id type key size c plain))
      ]

  get_info-flash :
      (h : ℕ) (s : System) (i : Handle) (key : Option (List ℕ)) (type_out size_out : Bool)
      → handle_at s.handles h ≡ some i
      → (get_info (some h) key type_out size_out s).1.flash ≡ s.flash
  unfolding get_info deref_handle
  get_info-flash h s i none type_out size_out here = refl
  get_info-flash h s i (some key) type_out size_out here =
      elim (Bool-cases (type_out && size_out)) [
        | inr e ↦ rw (e, get_info) refl
        | inl e ↦
            let m = storage_find_key i.group_id key in
            let kept =
              on_storage-flash i.storage m s (λ c. storage_find_key-flash i.group_id key c) in
            elim (Result-cases (on_storage i.storage m s).0) [
              | inl (item, f) ↦ rw (e, here, f, get_info) kept
              | inr (code, f) ↦ rw (e, here, f, get_info) kept
            ]
      ]

  -- Through a valid handle that is open in read-only mode, every write, deletion of a key and deletion
  -- of its group is refused with READ_ONLY, or with INVALID_PARAM for its other arguments, and changes
  -- nothing; and a read of a value that is no blob and a look at the type and size of a value leave the
  -- device as it is, whatever the driver answers.
  pub read_only_handle-Refused :
      (h : ℕ) (s : System) (i : Handle) (turns type read_type : ℕ) (key value : Option (List ℕ))
      (out size_out : Bool) (size : Option ℕ)
      → handle_at s.handles h ≡ some i
      → i.valid ≡ true
      → i.mode ≡ op_read_only
      → read_type ≢ type_blob
      → Refused read_only s (set_item turns (some h) type key value s)
        × Refused read_only s (del_key (some h) key s)
        × Refused read_only s (del_group (some h) s)
        × ((get_item (some h) read_type key out size s).1.flash ≡ s.flash)
        × ((get_info (some h) key out size_out s).1.flash ≡ s.flash)
  unfolding del_group deref_handle valid_handle is_handle_valid
  read_only_handle-Refused h s i turns type read_type key value out size_out size e v m plain =
      let shut = writable_handle-read_only h s i e v m in
      let here : valid_handle h s ≡ (ok i, s) = ground (arith, e, v) in
      (
        set_item-Refused s h read_only shut turns type key value,
        del_key-Refused s h read_only shut key,
        rw (e, v, shut, del_group) (refl, inr refl),
        get_item-flash h s i read_type key out size here plain,
        get_info-flash h s i key out size_out e,
      )
