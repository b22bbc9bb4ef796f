-- ===== src/Port/Laws.antt =====
-- What the program relies on of a flash driver and of the allocator, and a driver that has it.
use Prim.Native.Nat.{bit_and}
use jekv.Base.{
  subst, ℕ, zero, suc, ◌+◌, ◌-◌, ◌≡◌, refl, true, ◌&&◌, List, [], ◌∷◌, ok, length, get_or, ltb, leb,
  if◌then◌else◌, ap, arith, le→leb, lt→ltb, ◌<◌, ◌∙◌, ◌≤◌, ◌⊎◌,
}
use jekv.Port.{Flash, Driver}

-- The `n` bytes of the device from address `a`.
abbrev pub bytes_at : Flash → ℕ → ℕ → List ℕ
bytes_at f a zero = []
bytes_at f a (suc n) = f a ∷ bytes_at f (a + 1) n

-- The device with `bs` at address `a`.
abbrev pub overwrite : Flash → ℕ → List ℕ → Flash
overwrite f a bs p = if leb a p && ltb p (a + length bs) then get_or bs (p - a) 0 else f p

-- The device with `n` bytes of 0xff at address `a`.
abbrev pub wipe : Flash → ℕ → ℕ → Flash
wipe f a n p = if leb a p && ltb p (a + n) then 255 else f p

-- Programming clears bits and sets none: each new byte has no bit that the old one lacks.
abbrev pub CanProgram : Flash → ℕ → List ℕ → Type 0
CanProgram f a [] = Unit
CanProgram f a (b ∷ bs) = (bit_and (f a) b ≡ b) × CanProgram f (a + 1) bs

-- A driver whose calls succeed: it reads what is there, writes what it is given where that sets no
-- bit, and erases to 0xff; and an allocator that always grants.
pub record IsReliable (d : Driver) : Type 0 where
  pub reads : (f : Flash) (a n : ℕ) → d.partition_read f a n ≡ ok (bytes_at f a n)
  pub writes :
      (f : Flash) (a : ℕ) (bs : List ℕ)
      → CanProgram f a bs
      → d.partition_write f a bs ≡ (ok tt, overwrite f a bs)
  pub erases : (f : Flash) (a n : ℕ) → d.partition_erase f a n ≡ (ok tt, wipe f a n)
  pub allocs : (n : ℕ) → d.can_alloc n ≡ true

-- A device in memory that writes over what was there.
instance abbrev pub ram_driver : Driver
ram_driver = record {
  partition_read = λ f a n. ok (bytes_at f a n);
  partition_write = λ f a bs. (ok tt, overwrite f a bs);
  partition_erase = λ f a n. (ok tt, wipe f a n);
  can_alloc = λ n. true;
}

pub ram_driver-IsReliable : IsReliable ram_driver
ram_driver-IsReliable = record {
  reads = λ f a n. refl;
  writes = λ f a bs h. refl;
  erases = λ f a n. refl;
  allocs = λ n. refl;
}

pub bytes_at_of :
    (f : Flash) (a : ℕ) (bs : List ℕ)
    → ((k : ℕ) → k < length bs → f (a + k) ≡ get_or bs k 0)
    → bytes_at f a (length bs) ≡ bs
bytes_at_of f a [] h = refl
bytes_at_of f a (b ∷ bs) h =
    let here : f a ≡ b = ap f (omega arith) ∙ h 0 (omega arith) in
    rw here (
      ap (λ l. b ∷ l)
        (bytes_at_of f (a + 1) bs (λ k lt.
          ap f (let e : a + 1 + k ≡ a + suc k = omega arith in e) ∙ h (suc k) (omega arith))))

-- What has been written is read back.
pub bytes_at-overwrite_self :
    (f : Flash) (a : ℕ) (bs : List ℕ) → bytes_at (overwrite f a bs) a (length bs) ≡ bs
bytes_at-overwrite_self f a bs = bytes_at_of (overwrite f a bs) a bs (λ k lt.
    rw (le→leb a (a + k) (omega arith), lt→ltb (a + k) (a + length bs) (omega arith))
      (ap (λ i. get_or bs i 0) (omega arith)))

pub bytes_at-overwrite :
    (f : Flash) (a n : ℕ) (bs : List ℕ) → length bs ≡ n → bytes_at (overwrite f a bs) a n ≡ bs
bytes_at-overwrite f a n bs e =
    subst (λ k. bytes_at (overwrite f a bs) a k ≡ bs) e (bytes_at-overwrite_self f a bs)

-- Reads depend on the bytes of their range alone.
pub bytes_at_congr :
    (f g : Flash) (a n : ℕ)
    → ((p : ℕ) → a ≤ p → p < a + n → f p ≡ g p)
    → bytes_at f a n ≡ bytes_at g a n
bytes_at_congr f g a zero h = refl
bytes_at_congr f g a (suc n) h =
    rw (h a (omega arith) (omega arith)) (
      ap (λ l. g a ∷ l) (bytes_at_congr f g (a + 1) n (λ p lo hi. h p (omega arith) (omega arith))))

pub overwrite_outside :
    (f : Flash) (a : ℕ) (bs : List ℕ) (p : ℕ)
    → (p < a) ⊎ (a + length bs ≤ p)
    → overwrite f a bs p ≡ f p
overwrite_outside f a bs p h = ground arith

pub length-bytes_at : (f : Flash) (a n : ℕ) → length (bytes_at f a n) ≡ n
length-bytes_at f a zero = refl
length-bytes_at f a (suc n) = ap suc (length-bytes_at f (a + 1) n)

pub wipe_outside : (f : Flash) (a n p : ℕ) → (p < a) ⊎ (a + n ≤ p) → wipe f a n p ≡ f p
wipe_outside f a n p h = ground arith
