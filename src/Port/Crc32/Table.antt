-- ===== src/Port/Crc32/Table.antt =====
-- The table of the ports against the polynomial that their comment names.
use Prim.Native.Nat.{bit_xor}
use jekv.Base.{
  ℕ, zero, suc, ◌/◌, ◌%◌, ◌*◌, ◌<◌, ◌≡◌, refl, true, ◌==◌, ==_iff, get_or, holds_to, holds_to-true,
}
use jekv.Port.Crc32.{crc32_table}

-- `n` rounds of the bit-serial register for the reflected polynomial 0xedb88320.
pub shift_rounds : ℕ → ℕ → ℕ
shift_rounds zero crc = crc
shift_rounds (suc n) crc = shift_rounds n (bit_xor (crc / 2) (crc % 2 * 0xedb88320))

table_checked : holds_to (λ i. get_or crc32_table i 0 == shift_rounds 8 i) 256 ≡ true
unfolding holds_to crc32_table shift_rounds
table_checked = refl

-- Every entry of the table is what eight rounds of the bit-serial register make of its index.
pub crc32_table-eq-shift_rounds : (i : ℕ) → i < 256 → get_or crc32_table i 0 ≡ shift_rounds 8 i
crc32_table-eq-shift_rounds i h = (==_iff _ _).0 (holds_to-true _ 256 i h table_checked)
