-- ===== src/Sector/Write/Program.antt =====
-- Erased flash takes any bytes, and an item is bytes.
use Prim.Native.Nat.{bit_and}
use jekv.Base.{
  ℕ, Bool-cases, List, [], holds_to, holds_to-true, arith, drop, inl, inr, le32, length, ltb, refl,
  replicate, some, suc, take, true, zero, ◌++◌, ◌+◌, ◌-◌, ◌<◌, ◌==◌, ◌∷◌, ◌≡◌, ◌≤◌, ==_iff,
}
use jekv.Port.{Flash}
use jekv.Port.Laws.{CanProgram}
use jekv.Item.{Item, encode, item_init, name_field, strnlen, head_bytes}

abbrev pub AllBytes : List ℕ → Type 0
AllBytes [] = Unit
AllBytes (b ∷ bs) = (b < 256) × AllBytes bs

pub AllBytes-append : (xs ys : List ℕ) → AllBytes xs → AllBytes ys → AllBytes (xs ++ ys)
AllBytes-append [] ys hx hy = hy
AllBytes-append (x ∷ xs) ys hx hy = (hx.0, AllBytes-append xs ys hx.1 hy)

AllBytes-take : (n : ℕ) (xs : List ℕ) → AllBytes xs → AllBytes (take n xs)
AllBytes-take zero xs h = tt
AllBytes-take (suc n) [] h = tt
AllBytes-take (suc n) (x ∷ xs) h = (h.0, AllBytes-take n xs h.1)

AllBytes-drop : (n : ℕ) (xs : List ℕ) → AllBytes xs → AllBytes (drop n xs)
AllBytes-drop zero xs h = h
AllBytes-drop (suc n) [] h = tt
AllBytes-drop (suc n) (x ∷ xs) h = AllBytes-drop n xs h.1

AllBytes-replicate : (n b : ℕ) → b < 256 → AllBytes (replicate n b)
AllBytes-replicate zero b h = tt
AllBytes-replicate (suc n) b h = (h, AllBytes-replicate n b h)

AllBytes-le32 : (n : ℕ) → AllBytes (le32 n)
AllBytes-le32 n = omega arith

mask_table : holds_to (λ b. bit_and 255 b == b) 256 ≡ true
unfolding holds_to
mask_table = refl

bit_and_ones : (b : ℕ) → b < 256 → bit_and 255 b ≡ b
bit_and_ones b h = (==_iff _ _).0 (holds_to-true _ 256 b h mask_table)

pub CanProgram-erased :
    (f : Flash) (a : ℕ) (bs : List ℕ)
    → AllBytes bs
    → ((p : ℕ) → a ≤ p → p < a + length bs → f p ≡ 255)
    → CanProgram f a bs
CanProgram-erased f a [] h erased = tt
CanProgram-erased f a (b ∷ bs) h erased = (
  rw (erased a (omega arith) (omega arith)) (bit_and_ones b h.0),
  CanProgram-erased f (a + 1) bs h.1 (λ p lo hi. erased p (omega arith) (omega arith)),
)

AllBytes-name_field : (key : List ℕ) → AllBytes key → AllBytes (name_field key)
unfolding name_field
AllBytes-name_field key h =
    AllBytes-append (take (strnlen key 15) key) _ (AllBytes-take (strnlen key 15) key h)
      (elim (Bool-cases (ltb (strnlen key 15) 15)) [
        | inl e ↦ rw e (omega arith, AllBytes-replicate (15 - strnlen key 15 - 1) 255 (omega arith))
        | inr e ↦ rw e tt
      ])

module _ (state gid type : ℕ) (key buf : List ℕ) (seg_id : ℕ) where
  abbrev made : Item
  made = item_init state gid type key (some buf) (length buf) seg_id

  AllBytes-payload : AllBytes buf → AllBytes made.payload
  unfolding item_init
  AllBytes-payload h = elim (Bool-cases (ltb 8 (length buf))) [
    | inl e ↦ rw e (omega arith)
    | inr e ↦ rw e (
        AllBytes-append (take (length buf) buf) _ (AllBytes-take (length buf) buf h)
          (AllBytes-drop (length buf) (replicate 8 255) (omega arith)))
  ]

  pub AllBytes-encode :
      state < 256 → seg_id < 256 → AllBytes key → AllBytes buf → AllBytes (encode made)
  unfolding item_init
  AllBytes-encode hs hseg hk hb = (
    hs,
    AllBytes-append made.name (head_bytes made ++ (le32 made.crc_item ++ made.payload))
        (AllBytes-name_field key hk)
        (AllBytes-append (head_bytes made) (le32 made.crc_item ++ made.payload) (omega arith) (
          AllBytes-append (le32 made.crc_item) made.payload (AllBytes-le32 made.crc_item)
            (AllBytes-payload hb))),
  )
