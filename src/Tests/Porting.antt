-- ===== src/Tests/Porting.antt =====
-- The emulation of flash in a file.
use jekv.Base.{
  ℕ, ◌≡◌, refl, true, List, ◌++◌, some, replicate, drop, length, length-replicate, ok, arith,
}
use jekv.Port.Pc.{Host, partition_size, pc_read, pc_write, pc_erase}
use jekv.Port.Pc.Laws.{pc_read-pc_write, pc_read-pc_erase}
use jekv.Tests.Data.{ten_bytes}

-- A host whose malloc finds zeros.
abbrev host : Host
host = record {
  can_alloc = λ n. true;
  garbage = λ n. replicate n 0;
  can_open = true;
  can_create = true;
}

abbrev file : List ℕ
file = replicate partition_size 255

pc_read-pc_write_example :
    (new : List ℕ) × (pc_write host 4128 ten_bytes (some file) ≡ (ok tt, some new))
    × (length new ≡ partition_size)
    × (pc_read host 4128 10 (replicate 10 0) (some new) ≡ (ok ten_bytes, some new))
pc_read-pc_write_example =
    pc_read-pc_write host file refl (length-replicate {A = ℕ} partition_size 255) 4128 ten_bytes
      (replicate 10 0) (omega arith) refl refl

pc_read-pc_erase_example :
    (new : List ℕ) × (pc_erase host 4096 4096 (some file) ≡ (ok tt, some new))
    × (pc_read host 4096 4096 (replicate 4096 1) (some new)
        ≡ (ok (replicate 8 255 ++ drop 8 (replicate 4096 0)), some new))
pc_read-pc_erase_example =
    pc_read-pc_erase host file refl (length-replicate {A = ℕ} partition_size 255) 4096
      (replicate 4096 1) (omega arith) (length-replicate {A = ℕ} 4096 1) refl
      (length-replicate {A = ℕ} 4096 0)
