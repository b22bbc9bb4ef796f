-- ===== src/Port/Pc/Laws.antt =====
-- What the emulated flash gives back.
use Prim.Native.Nat.{bit_and}
use mathlib.Core.List.{append-nil}
use jekv.Base.{
  subst, ℕ, ◌+◌, ◌-◌, ◌≤◌, ◌<◌, ◌≡◌, refl, Bool, true, List, ◌++◌, length, take, drop, arith,
  holds_to, holds_to-true, ==_iff, ◌==◌, length-take, take-append, drop-append, length-drop,
  length-append, drop_all, ap, le→leb, ok, replicate, some, u32, ◌∙◌,
}
use jekv.Port.Pc.{
  write_at, read_at, write_byte, Host, partition_size, pc_erase, pc_read, pc_write, erased,
}

abbrev byte_row : ℕ → ℕ → Bool
byte_row p v = write_byte p v == bit_and p v

bytes_agree : holds_to (λ p. holds_to (byte_row p) 256) 256 ≡ true
unfolding holds_to write_byte
bytes_agree = refl

-- jekv_write_byte programs a byte of flash: a bit is set exactly where both the old byte and the
-- new one have it.
pub write_byte-eq-bit_and : (p v : ℕ) → p < 256 → v < 256 → write_byte p v ≡ bit_and p v
write_byte-eq-bit_and p v hp hv = (==_iff _ _).0 (
    holds_to-true (byte_row p) 256 v hv
      (holds_to-true (λ q. holds_to (byte_row q) 256) 256 p hp bytes_agree))

write_at_inside :
    (old bs : List ℕ) (offset : ℕ)
    → offset ≤ length old
    → write_at old offset bs ≡ take offset old ++ (bs ++ drop (offset + length bs) old)
unfolding write_at
write_at_inside old bs offset h =
    let none_missing : offset - length old ≡ 0 = omega arith in
    rw (none_missing, append-nil old) refl

length-write_at :
    (old bs : List ℕ) (offset : ℕ)
    → offset + length bs ≤ length old
    → length (write_at old offset bs) ≡ length old
length-write_at old bs offset h = rw (write_at_inside old bs offset (omega arith)) (
    omega (
      arith,
      length-append {0} (take offset old) (bs ++ drop (offset + length bs) old),
      length-append {0} bs (drop (offset + length bs) old),
      length-take {0} offset old,
      length-drop {0} (offset + length bs) old,
    ))

-- What has been written inside the file is read back.
read_at-write_at :
    (old bs buf : List ℕ) (offset : ℕ)
    → offset + length bs ≤ length old
    → length buf ≡ length bs
    → read_at (write_at old offset bs) offset (length bs) buf ≡ bs
unfolding read_at
read_at-write_at old bs buf offset h same =
    let head : offset ≡ length (take offset old) = omega (arith, length-take {0} offset old) in
    let rest = drop (offset + length bs) old in
    let got : take (length bs) (drop offset (write_at old offset bs)) ≡ bs =
      rw
        (
          write_at_inside old bs offset (omega arith),
          drop-append (take offset old) (bs ++ rest) offset head,
        )
        (take-append bs rest (length bs) refl) in
    rw (got, drop_all buf (length bs) (omega arith)) (append-nil bs)

read_at-write_at_of :
    (old bs buf : List ℕ) (offset n : ℕ)
    → length bs ≡ n
    → offset + n ≤ length old
    → length buf ≡ n
    → read_at (write_at old offset bs) offset n buf ≡ bs
read_at-write_at_of old bs buf offset n e h same =
    subst (λ k. read_at (write_at old offset bs) offset k buf ≡ bs) e
      (read_at-write_at old bs buf offset (omega (arith, e)) (omega (arith, e, same)))

module _ (host : Host) (old : List ℕ) (works : host.can_open ≡ true)
    (whole : length old ≡ partition_size) where
  pc_write_lem :
      (offset : ℕ) (bs : List ℕ)
      → offset + length bs ≤ partition_size
      → host.can_alloc (length bs + 1) ≡ true
      → pc_write host offset bs (some old) ≡ (ok tt, some (write_at old offset bs))
  unfolding pc_write
  pc_write_lem offset bs h granted =
      let small : u32 (offset + length bs) ≡ offset + length bs = omega arith in
      rw (small, le→leb (offset + length bs) partition_size h, granted, works) refl

  pc_read_lem :
      (new : List ℕ) (offset n : ℕ) (buf : List ℕ)
      → offset + n ≤ partition_size
      → pc_read host offset n buf (some new) ≡ (ok (read_at new offset n buf), some new)
  unfolding pc_read
  pc_read_lem new offset n buf h =
      let small : u32 (offset + n) ≡ offset + n = omega arith in
      rw (small, le→leb (offset + n) partition_size h, works) refl

  -- Where the file can be opened and has the size of the partition, and there is memory, bytes that
  -- are written inside the partition are written with OK, the file keeps its size, and a read at the
  -- same place returns these bytes, whatever was there before.
  pub pc_read-pc_write :
      (offset : ℕ) (bs buf : List ℕ)
      → offset + length bs ≤ partition_size
      → length buf ≡ length bs
      → host.can_alloc (length bs + 1) ≡ true
      → (new : List ℕ) × (pc_write host offset bs (some old) ≡ (ok tt, some new))
        × (length new ≡ partition_size)
        × (pc_read host offset (length bs) buf (some new) ≡ (ok bs, some new))
  pc_read-pc_write offset bs buf h same granted =
      let new = write_at old offset bs in
      let fits : offset + length bs ≤ length old = omega (arith, whole) in
      (
        new,
        pc_write_lem offset bs h granted,
        length-write_at old bs offset fits ∙ whole,
        rw (pc_read_lem new offset (length bs) buf h, read_at-write_at old bs buf offset fits same)
            refl,
      )

  pc_erase_lem :
      (offset : ℕ)
      → offset + 4096 ≤ partition_size
      → host.can_alloc 4096 ≡ true
      → pc_erase host offset 4096 (some old)
        ≡ (ok tt, some (write_at old offset (erased host 4096)))
  unfolding pc_erase
  pc_erase_lem offset h granted =
      let small : u32 (offset + 4096) ≡ offset + 4096 = omega arith in
      rw (small, le→leb (offset + 4096) partition_size h, granted, works) refl

  -- Where the file can be opened and has the size of the partition, and there is memory, an erase of
  -- one sector returns OK, and the sector then reads as 8 bytes of 0xff followed by what malloc
  -- found in the rest of its buffer.
  pub pc_read-pc_erase :
      (offset : ℕ) (buf : List ℕ)
      → offset + 4096 ≤ partition_size
      → length buf ≡ 4096
      → host.can_alloc 4096 ≡ true
      → length (host.garbage 4096) ≡ 4096
      → (new : List ℕ) × (pc_erase host offset 4096 (some old) ≡ (ok tt, some new))
        × (pc_read host offset 4096 buf (some new)
            ≡ (ok (replicate 8 255 ++ drop 8 (host.garbage 4096)), some new))
  pc_read-pc_erase offset buf h same granted made =
      let bs = erased host 4096 in
      let size : length bs ≡ 4096 = omega (arith, length-drop {0} 8 (host.garbage 4096)) in
      let new = write_at old offset bs in
      let back : read_at new offset 4096 buf ≡ bs =
        read_at-write_at_of old bs buf offset 4096 size (omega (arith, whole)) same in
      (
        new,
        pc_erase_lem offset h granted,
        pc_read_lem new offset 4096 buf h ∙ ap (λ (r : List ℕ). (ok r, some new)) back,
      )
