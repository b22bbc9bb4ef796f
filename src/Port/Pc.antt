-- ===== src/Port/Pc.antt =====
-- porting/jekv_porting_pc.c: flash emulated in a file. The C library's files and heap are an
-- argument, `Host`; the checksum of this file is `Crc32`.
pub mod Laws
use Prim.Native.Nat.{bit_and}
use jekv.Base.{
  ℕ, zero, suc, ◌+◌, ◌-◌, ◌*◌, Bool, true, false, ◌&&◌, not, List, [], ◌++◌, Option, none, some,
  length, take, drop, replicate, leb, ◌==◌, u32, u32_max, if◌then◌else◌, Exec, Result, ok, err,
  fail, fault, invalid_param,
}
use jekv.Partition.{PartitionItem}

-- JKEV_PARTITION_SIZE
abbrev pub partition_size : ℕ
partition_size = 8192

-- What malloc grants and finds in the memory that it grants, and whether fopen can open the file
-- that is there, or make a new one.
pub record Host : Type 0 where
  pub can_alloc : ℕ → Bool
  pub garbage : ℕ → List ℕ
  pub can_open : Bool
  pub can_create : Bool

-- The file, `none` where there is none, and `g_port_init`.
pub record Port : Type 0 where
  pub file : Option (List ℕ)
  pub is_init : Bool

-- fseek to `offset` and fwrite: what lies behind the old end is zero.
unfoldable pub write_at : List ℕ → ℕ → List ℕ → List ℕ
write_at old offset bs =
    take offset (old ++ replicate (offset - length old) 0) ++ (bs ++ drop (offset + length bs) old)

-- fseek to `offset` and fread of `n` bytes into a buffer: behind the end of the file the buffer
-- stays as it was.
unfoldable pub read_at : List ℕ → ℕ → ℕ → List ℕ → List ℕ
read_at old offset n buf = let got = take n (drop offset old) in got ++ drop (length got) buf

-- jekv_partition_get_info
abbrev pub g_part : PartitionItem
g_part = record { offset = 0; size = partition_size }

unfoldable pub pc_get_info : List ℕ → Result PartitionItem
pc_get_info name = ok g_part

-- The loop of jekv_write_byte: `n` bits from `mask` on.
unfoldable pub write_bits : ℕ → ℕ → ℕ → ℕ → ℕ
write_bits zero mask p v = p
write_bits (suc n) mask p v =
    write_bits n (2 * mask)
      (if not (bit_and p mask == 0) && bit_and v mask == 0 then bit_and p (u32_max - mask) else p) v

-- jekv_write_byte
unfoldable pub write_byte : ℕ → ℕ → ℕ
unfolding write_bits
write_byte p v = write_bits 8 1 p v

-- sizeof(pbuf), on the 64-bit machines that the port is for.
abbrev pub pointer_size : ℕ
pointer_size = 8

module _ (host : Host) where
  -- fopen of the file for reading or for changing it.
  abbrev pub opened : Option (List ℕ) → Option (List ℕ)
  opened file = if host.can_open then file else none

  -- jekv_port_create_file, and access(..., W_OK), which answers as fopen does.
  unfoldable pub create_file : Exec (Option (List ℕ)) (Unit {0})
  create_file file = elim (opened file) [
    | some bs ↦ (ok tt, file)
    | none ↦
        if host.can_create
        then (
          ok tt,
          some (if host.can_alloc partition_size then host.garbage partition_size else []),
        )
        else (err fail, file)
  ]

  -- jekv_port_init
  unfoldable pub pc_port_init : Exec Port (Unit {0})
  unfolding create_file
  pc_port_init p =
      if p.is_init
      then (ok tt, p)
      else (let (r, file) = create_file p.file in (r, record { file = file; is_init = true }))

  -- jekv_port_deinit
  unfoldable pub pc_port_deinit : Exec Port (Unit {0})
  pc_port_deinit p = (ok tt, record p { is_init = false })

  -- jekv_partition_read into a buffer: the buffer as it is then.
  unfoldable pub pc_read : ℕ → ℕ → List ℕ → Exec (Option (List ℕ)) (List ℕ)
  unfolding read_at
  pc_read offset n buf file =
      if leb (u32 (offset + n)) partition_size
      then (elim (opened file) [
        | none ↦ (ok buf, file)
        | some old ↦ (ok (read_at old offset n buf), file)
      ])
      else (err invalid_param, file)

  -- jekv_partition_write. The bytes that jekv_write_byte puts together in `pbuf` are not used: the
  -- code writes `data` itself.
  unfoldable pub pc_write : ℕ → List ℕ → Exec (Option (List ℕ)) (Unit {0})
  unfolding write_at
  pc_write offset bs file =
      if leb (u32 (offset + length bs)) partition_size
      then (if host.can_alloc (length bs + 1)
          then (elim (opened file) [
            | none ↦ (ok tt, file)
            | some old ↦ (ok tt, some (write_at old offset bs))
          ])
          else (ok tt, file))
      else (err invalid_param, file)

  -- The buffer that jekv_partition_erase writes: memset sets as many bytes as a pointer has, where
  -- the buffer has so many.
  abbrev pub erased : ℕ → List ℕ
  erased size = replicate pointer_size 255 ++ drop pointer_size (host.garbage size)

  -- jekv_partition_erase; the assertion ends the program.
  unfoldable pub pc_erase : ℕ → ℕ → Exec (Option (List ℕ)) (Unit {0})
  unfolding write_at
  pc_erase offset size file =
      if leb (u32 (offset + 4096)) partition_size
      then (if host.can_alloc size
          then (elim (opened file) [
            | none ↦ (ok tt, file)
            | some old ↦ (ok tt, some (write_at old offset (erased size)))
          ])
          else (err fail, file))
      else (err fault, file)
