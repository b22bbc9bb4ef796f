-- ===== src/Storage/Items/Same.antt =====
-- When jekv_storage_write_item takes a value for the one that is stored, and what it does then.
use jekv.Partition.{pt_read}
use jekv.Storage.Items.Reads.{storage_write_item-is_same}
use jekv.Storage.Items.{storage_write_item, find_value, is_same}
use jekv.Base.{
  ℕ, ◌+◌, ◌*◌, ◌≡◌, ◌↔◌, refl, true, List, [], ◌∷◌, length, leb, ◌==◌, if◌then◌else◌, Result,
  Bool-cases, inl, inr, ok, err, fail, arith, same_bytes, u32, take, Result-cases, ap, false, is_ok,
  some, subst, sym, ◌∙◌, ◌≢◌,
}
use jekv.Config.{slice_size, type_any_without_seg, type_blob}
use jekv.Port.{Driver}
use jekv.Sector.Write.{read_item_data}
use jekv.Manager.State.{sector_at}
use jekv.Manager.Query.{Place}
use jekv.Storage.State.{StCtx}
use jekv.Storage.Blob.{cmp_find_item}

same_bytes_iff : (xs ys : List ℕ) → same_bytes xs ys ≡ true ↔ xs ≡ ys
same_bytes_iff [] [] = (λ e. refl, λ e. refl)
same_bytes_iff [] (y ∷ ys) = (λ e. absurd (ground (arith, e)), λ e. absurd (ground (arith, e)))
same_bytes_iff (x ∷ xs) [] = (λ e. absurd (ground (arith, e)), λ e. absurd (ground (arith, e)))
same_bytes_iff (x ∷ xs) (y ∷ ys) =
    let rest = same_bytes_iff xs ys in (λ e. ground (arith, e, rest), λ e. ground (arith, e, rest))

ok_inj : {xs ys : List ℕ} → ok xs ≡ ok ys → xs ≡ ys
ok_inj e = ground (arith, e)

module _ ⦃d : Driver⦄ (place : Place) (c : StCtx) where
  -- What jekv_sector_read_item_data reads of the item at `place`.
  abbrev pub stored_bytes : ℕ → Result (List ℕ)
  stored_bytes n =
      (read_item_data place.index place.item n
        (record { flash = c.flash; sec = sector_at c.storage.sm place.sector })).0

  -- The value `buf` of a type stands at `place`.
  pub record Holds (type : ℕ) (buf : List ℕ) : Type 0 where
    pub typed : place.item.type ≡ type
    pub long : place.item.length ≡ length buf
    pub bytes : stored_bytes (length buf) ≡ ok buf

  abbrev compared : List ℕ → Result (List ℕ) → Result (Unit {0})
  compared buf (ok bytes) = if same_bytes buf bytes then ok tt else err fail
  compared buf (err code) = err code

  stored_short : (n : ℕ) → leb n 8 ≡ true → stored_bytes n ≡ ok (take n place.item.payload)
  unfolding read_item_data
  stored_short n e = rw (stored_bytes, read_item_data, e) refl

  abbrev far_bytes : ℕ → Result (List ℕ)
  far_bytes n =
      let sec = sector_at c.storage.sm place.sector in
      (pt_read sec.pt (u32 (sec.address + (place.index + 2) * slice_size)) n c.flash).0

  stored_long : (n : ℕ) → leb n 8 ≡ false → stored_bytes n ≡ far_bytes n
  unfolding read_item_data
  stored_long n e =
      let at : place.index + 1 + 1 ≡ place.index + 2 = omega arith in
      rw (stored_bytes, read_item_data, e, at) refl

  cmp_short :
      (buf : List ℕ)
      → (length buf == place.item.length) ≡ true
      → leb (length buf) 8 ≡ true
      → (cmp_find_item place buf c).0 ≡ compared buf (ok (take (length buf) place.item.payload))
  unfolding cmp_find_item
  cmp_short buf same e = elim (Bool-cases (same_bytes buf (take (length buf) place.item.payload))) [
    | inl f ↦ rw (cmp_find_item, same, e, f) refl
    | inr f ↦ rw (cmp_find_item, same, e, f) refl
  ]

  cmp_long :
      (buf : List ℕ)
      → d.can_alloc (length buf) ≡ true
      → (length buf == place.item.length) ≡ true
      → leb (length buf) 8 ≡ false
      → (cmp_find_item place buf c).0 ≡ compared buf (far_bytes (length buf))
  unfolding cmp_find_item
  cmp_long buf grant same e = elim (Result-cases (far_bytes (length buf))) [
    | inr (code, g) ↦ rw (cmp_find_item, same, e, grant, g) refl
    | inl (bytes, g) ↦ elim (Bool-cases (same_bytes buf bytes)) [
      | inl f ↦ rw (cmp_find_item, same, e, grant, g, f) refl
      | inr f ↦ rw (cmp_find_item, same, e, grant, g, f) refl
    ]
  ]

  cmp_find_item-stored_bytes :
      ((n : ℕ) → d.can_alloc n ≡ true)
      → (buf : List ℕ) → place.item.length ≡ length buf
      → (cmp_find_item place buf c).0 ≡ compared buf (stored_bytes (length buf))
  cmp_find_item-stored_bytes grant buf long =
      let n = length buf in
      let same : (n == place.item.length) ≡ true = ground (arith, long) in
      elim (Bool-cases (leb n 8)) [
        | inl e ↦ cmp_short buf same e ∙ ap (compared buf) (sym (stored_short n e))
        | inr e ↦ cmp_long buf (grant n) same e ∙ ap (compared buf) (sym (stored_long n e))
      ]

  compared_iff : (buf : List ℕ) (r : Result (List ℕ)) → compared buf r ≡ ok tt ↔ r ≡ ok buf
  compared_iff buf (err code) = (λ e. absurd (ground (arith, e)), λ e. absurd (ground (arith, e)))
  compared_iff buf (ok bytes) = elim (Bool-cases (same_bytes buf bytes)) [
    | inl f ↦
        let same : bytes ≡ buf = sym ((same_bytes_iff buf bytes).0 f) in
        rw f (λ e. ap (λ bs. ok bs) same, λ e. refl)
    | inr f ↦ rw f (
      λ e. absurd (ground (arith, e)),
      λ e.
          let same : bytes ≡ buf = ground (arith, e) in
          absurd (ground (arith, f, (same_bytes_iff buf bytes).1 (sym same))),
    )
  ]

  -- The test of the length comes first.
  cmp_find_item-length :
      (buf : List ℕ)
      → (length buf == place.item.length) ≡ false
      → (cmp_find_item place buf c).0 ≡ err fail
  unfolding cmp_find_item
  cmp_find_item-length buf e = rw (cmp_find_item, e) refl

  is_ok_iff : (r : Result (Unit {0})) → is_ok r ≡ true ↔ r ≡ ok tt
  is_ok_iff (ok u) = (λ e. refl, λ e. refl)
  is_ok_iff (err code) = (λ e. absurd (ground (arith, e)), λ e. absurd (ground (arith, e)))

  is_same_steps :
      (type : ℕ) (buf : List ℕ)
      → (type == type_blob) ≡ false
      → (is_same (some place) type buf c).0
        ≡ (if type == place.item.type then ok (is_ok (cmp_find_item place buf c).0) else ok false)
  unfolding is_same
  is_same_steps type buf plain = elim (Bool-cases (type == place.item.type)) [
    | inl e ↦ rw (is_same, e, plain) refl
    | inr e ↦ rw (is_same, e) refl
  ]

  pub is_same_iff :
      ((n : ℕ) → d.can_alloc n ≡ true)
      → (type : ℕ) (buf : List ℕ) → type ≢ type_blob
      → (is_same (some place) type buf c).0 ≡ ok true ↔ Holds type buf
  is_same_iff grant type buf no_blob =
      let plain : (type == type_blob) ≡ false = ground (arith, no_blob) in
      let steps = is_same_steps type buf plain in
      (
        λ e. elim (Bool-cases (type == place.item.type)) [
          | inr f ↦ absurd (ground (arith, e, steps, f))
          | inl f ↦
              let done : is_ok (cmp_find_item place buf c).0 ≡ true = ground (arith, e, steps, f) in
              let same = (is_ok_iff (cmp_find_item place buf c).0).0 done in
              elim (Bool-cases (length buf == place.item.length)) [
                | inr g ↦ absurd (ground (arith, same, cmp_find_item-length buf g))
                | inl g ↦
                    let long : place.item.length ≡ length buf = ground (arith, g) in
                    record {
                      typed = ground (arith, f);
                      long = long;
                      bytes =
                          (compared_iff buf (stored_bytes (length buf))).0
                            (sym (cmp_find_item-stored_bytes grant buf long) ∙ same);
                    }
              ]
        ],
        λ v.
            let same =
              cmp_find_item-stored_bytes grant buf v.long
              ∙ (compared_iff buf (stored_bytes (length buf))).1 v.bytes in
            let f : (type == place.item.type) ≡ true = ground (arith, v.typed) in
            steps ∙ rw (f, same) refl,
      )

module _ ⦃d : Driver⦄ where
  -- Where the allocator grants: if a search for the key finds an item of the same type, no blob, that
  -- has the length and, as the partition reads them, the bytes of the value, a write of the value
  -- returns OK and leaves the device as it is. A value with any other bytes is not taken for the one
  -- that is stored.
  pub storage_write_item-same :
      (turns gid type : ℕ) (key buf other : List ℕ) (c : StCtx) (place : Place)
      → ((n : ℕ) → d.can_alloc n ≡ true)
      → type ≢ type_blob
      → (find_value gid type_any_without_seg key c).0 ≡ ok (ok place)
      → Holds place (find_value gid type_any_without_seg key c).1 type buf
      → ((storage_write_item turns gid type key buf c).0 ≡ ok tt)
        × ((storage_write_item turns gid type key buf c).1.flash ≡ c.flash)
        × ((is_same (some place) type other (find_value gid type_any_without_seg key c).1).0
              ≡ ok true
            ↔ other ≡ buf)
  storage_write_item-same turns gid type key buf other c place grant no_blob found v =
      let c' = (find_value gid type_any_without_seg key c).1 in
      let (done, kept) =
        storage_write_item-is_same turns gid type key buf c place found
          ((is_same_iff place c' grant type buf no_blob).1 v) in
      (
        done,
        kept,
        (
          λ e.
              let w = (is_same_iff place c' grant type other no_blob).0 e in
              let same : length other ≡ length buf = sym w.long ∙ v.long in
              ok_inj (sym w.bytes ∙ (ap (λ n. stored_bytes place c' n) same ∙ v.bytes)),
          λ e.
              (is_same_iff place c' grant type other no_blob).1
                (subst (λ bs. Holds place c' type bs) (sym e) v),
        ),
      )
