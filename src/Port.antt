-- ===== src/Port.antt =====
-- porting/jekv_porting.h: what the program takes from the platform. The flash driver and the
-- allocator are not part of the repository (`xx_flash_*` of porting/jekv_porting_freertos.c, the C
-- library), so they are an argument, `Driver`. The checksum is modelled (`Crc32`).
pub mod Crc32
pub mod Pc
pub mod Laws
use jekv.Base.{ℕ, Bool, List, Result}

-- The contents of the flash device, a byte at each device address.
abbrev pub Flash : Type 0
Flash = ℕ → ℕ

pub record Driver : Type 0 where
  -- jekv_partition_read(dev, offset, data, length)
  pub partition_read : Flash → ℕ → ℕ → Result (List ℕ)
  -- jekv_partition_write(dev, offset, data, length)
  pub partition_write : Flash → ℕ → List ℕ → Result (Unit {0}) × Flash
  -- jekv_partition_erase(dev, offset, size)
  pub partition_erase : Flash → ℕ → ℕ → Result (Unit {0}) × Flash
  -- Whether JEKV_MALLOC, JEKV_CALLOC or JEKV_REALLOC grants so many bytes.
  pub can_alloc : ℕ → Bool
