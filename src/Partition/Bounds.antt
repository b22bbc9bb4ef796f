-- ===== src/Partition/Bounds.antt =====
-- What a partition lets through to the device (jekv_partition.c), and reads that return what was
-- written.
use jekv.Base.{
  ℕ, List, arith, false, length, true, ◌≡◌, Bool-cases, inl, inr, ok, refl, u32, u32_mod, ◌+◌, ◌<◌,
  ◌≤◌, ◌⊎◌, le→leb,
}
use jekv.Config.{slice_size, sector_size}
use jekv.Item.Layout.{IsItem, length-encode, decode-encode}
use jekv.Port.{Flash, Driver}
use jekv.Port.Laws.{
  IsReliable, CanProgram, overwrite_outside, bytes_at-overwrite, bytes_at, overwrite, wipe_outside,
  bytes_at-overwrite_self,
}
use jekv.Item.{Item, encode}
use jekv.Partition.{
  Partition, in_range, pt_erase, pt_write, pt_write_item, pt_read, pt_read_item, device_read,
  device_write, device_erase,
}

module _ ⦃d : Driver⦄ (reliable : IsReliable d) (pt : Partition) where
  written_outside :
      (a : ℕ) (bs : List ℕ) (f : Flash) (p : ℕ)
      → pt.offset + pt.size < u32_mod
      → a + length bs ≤ pt.size
      → CanProgram f (pt.offset + a) bs
      → (p < pt.offset) ⊎ (pt.offset + pt.size ≤ p)
      → (device_write (u32 (pt.offset + a)) bs f).1 p ≡ f p
  unfolding device_write
  written_outside a bs f p small le can outside =
      let at : u32 (pt.offset + a) ≡ pt.offset + a = omega arith in
      rw (at, reliable.writes f (pt.offset + a) bs can)
        (overwrite_outside f (pt.offset + a) bs p
          (elim outside [ inl lo ↦ inl (omega arith) | inr hi ↦ inr (omega arith) ]))

  pt_write_outside :
      (a : ℕ) (bs : List ℕ) (f : Flash) (p : ℕ)
      → pt.offset + pt.size < u32_mod
      → a + length bs < u32_mod
      → CanProgram f (pt.offset + a) bs
      → (p < pt.offset) ⊎ (pt.offset + pt.size ≤ p)
      → (pt_write pt a bs f).1 p ≡ f p
  unfolding pt_write
  pt_write_outside a bs f p small end can outside = elim (Bool-cases (in_range pt a (length bs))) [
    | inr e ↦ rw e refl
    | inl e ↦ rw e (elim (Bool-cases pt.readonly) [
      | inl ro ↦ rw ro refl
      | inr writable ↦ rw writable (written_outside a bs f p small (ground (arith, e)) can outside)
    ])
  ]

  pt_erase_outside :
      (a : ℕ) (f : Flash) (p : ℕ)
      → pt.offset + pt.size < u32_mod
      → a + sector_size < u32_mod
      → (p < pt.offset) ⊎ (pt.offset + pt.size ≤ p)
      → (pt_erase pt a f).1 p ≡ f p
  unfolding pt_erase device_erase
  pt_erase_outside a f p small end outside = elim (Bool-cases pt.readonly) [
    | inl ro ↦ rw ro refl
    | inr writable ↦ rw writable (elim (Bool-cases (in_range pt a sector_size)) [
      | inr e ↦ rw e refl
      | inl e ↦
          let le : a + sector_size ≤ pt.size = ground (arith, e) in
          let at : u32 (pt.offset + a) ≡ pt.offset + a = omega arith in
          rw (e, at, reliable.erases f (pt.offset + a) sector_size)
            (wipe_outside f (pt.offset + a) sector_size p
              (elim outside [ inl lo ↦ inl (omega arith) | inr hi ↦ inr (omega arith) ]))
    ])
  ]

  -- With a reliable driver and a partition of 32-bit addresses: a write of bytes that the flash takes
  -- and an erase of a sector, whose ends do not wrap round 2^32, change no byte outside the partition,
  -- whatever their results.
  pub pt_write_confined :
      (a : ℕ) (bs : List ℕ) (f : Flash) (p : ℕ)
      → pt.offset + pt.size < u32_mod
      → (p < pt.offset) ⊎ (pt.offset + pt.size ≤ p)
      → a + length bs < u32_mod
      → a + sector_size < u32_mod
      → CanProgram f (pt.offset + a) bs
      → ((pt_write pt a bs f).1 p ≡ f p) × ((pt_erase pt a f).1 p ≡ f p)
  pt_write_confined a bs f p small outside end erase_end can = (
    pt_write_outside a bs f p small end can outside,
    pt_erase_outside a f p small erase_end outside,
  )

  -- With a reliable driver and a partition of 32-bit addresses that is writable: a write to an address
  -- behind the partition, whose end wraps round 2^32 to an address inside, is not refused. Where the
  -- flash takes its bytes, it returns OK, and they stand on the device from the sum of the offset and
  -- the address on 32 bits on, which lies outside the partition.
  pub pt_write_wrapped :
      (a : ℕ) (bs : List ℕ) (f : Flash)
      → pt.offset + pt.size < u32_mod
      → pt.readonly ≡ false
      → pt.size ≤ a
      → a < u32_mod
      → u32_mod ≤ a + length bs
      → u32 (a + length bs) ≤ pt.size
      → CanProgram f (u32 (pt.offset + a)) bs
      → ((pt_write pt a bs f).0 ≡ ok tt)
        × (bytes_at (pt_write pt a bs f).1 (u32 (pt.offset + a)) (length bs) ≡ bs)
        × ((u32 (pt.offset + a) < pt.offset) ⊎ (pt.offset + pt.size ≤ u32 (pt.offset + a)))
  unfolding pt_write device_write
  pt_write_wrapped a bs f small writable behind word wraps inside can =
      rw
        (
          le→leb (u32 (a + length bs)) pt.size inside,
          writable,
          reliable.writes f (u32 (pt.offset + a)) bs can,
        )
        (
          refl,
          bytes_at-overwrite_self f (u32 (pt.offset + a)) bs,
          ground (arith, small, behind, word),
        )

  -- With a reliable driver, an item whose fields fit, written where the flash takes its bytes inside
  -- a writable partition of 32-bit addresses, is written with OK and read back as it was.
  pub pt_read_item-pt_write_item :
      (a : ℕ) (item : Item) (f : Flash)
      → IsItem item
      → pt.readonly ≡ false
      → a + slice_size ≤ pt.size
      → pt.offset + pt.size < u32_mod
      → CanProgram f (pt.offset + a) (encode item)
      → ((pt_write_item pt a item f).0 ≡ ok tt)
        × (pt_read_item pt a (pt_write_item pt a item f).1).0 ≡ ok item
  unfolding pt_write_item pt_read_item
  pt_read_item-pt_write_item a item f v writable fits small can =
      let at : u32 (pt.offset + a) ≡ pt.offset + a = omega arith in
      let inside : in_range pt a slice_size ≡ true =
        le→leb (u32 (a + slice_size)) pt.size (omega arith) in
      let written = reliable.writes f (pt.offset + a) (encode item) can in
      let back =
        bytes_at-overwrite f (pt.offset + a) slice_size (encode item) (length-encode item v) in
      (
        rw (inside, writable, at, written),
        rw (inside, writable, at, written, reliable.reads, back, decode-encode item v),
      )

  module _ (addressed : pt.offset + pt.size < u32_mod) where
    pub pt_write_reliable :
        (a : ℕ) (bs : List ℕ) (f : Flash)
        → pt.readonly ≡ false
        → a + length bs ≤ pt.size
        → CanProgram f (pt.offset + a) bs
        → pt_write pt a bs f ≡ (ok tt, overwrite f (pt.offset + a) bs)
    unfolding pt_write device_write
    pt_write_reliable a bs f writable fits can =
        let at : u32 (pt.offset + a) ≡ pt.offset + a = omega arith in
        let inside : in_range pt a (length bs) ≡ true =
          le→leb (u32 (a + length bs)) pt.size (omega arith) in
        rw (inside, writable, at, reliable.writes f (pt.offset + a) bs can) refl

    pub pt_write_item_reliable :
        (a : ℕ) (item : Item) (f : Flash)
        → pt.readonly ≡ false
        → a + slice_size ≤ pt.size
        → CanProgram f (pt.offset + a) (encode item)
        → pt_write_item pt a item f ≡ (ok tt, overwrite f (pt.offset + a) (encode item))
    unfolding pt_write_item device_write
    pt_write_item_reliable a item f writable fits can =
        let at : u32 (pt.offset + a) ≡ pt.offset + a = omega arith in
        let inside : in_range pt a slice_size ≡ true =
          le→leb (u32 (a + slice_size)) pt.size (omega arith) in
        rw (inside, writable, at, reliable.writes f (pt.offset + a) (encode item) can) refl

    pub pt_read_reliable :
        (a n : ℕ) (f : Flash)
        → a + n ≤ pt.size
        → pt_read pt a n f ≡ (ok (bytes_at f (pt.offset + a) n), f)
    unfolding pt_read device_read
    pt_read_reliable a n f fits =
        let at : u32 (pt.offset + a) ≡ pt.offset + a = omega arith in
        let inside : in_range pt a n ≡ true = le→leb (u32 (a + n)) pt.size (omega arith) in
        rw (inside, at, reliable.reads) refl
